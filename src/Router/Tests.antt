-- ===== src/Router/Tests.antt =====
-- Runs of src/uvhttp_router.c on small routers, and the theorems on them.
use uvhttp.Prelude.{
  ℕ, zero, suc, true, false, List, [], ◌∷◌, none, some, ◌≡◌, ◌≢◌, refl, subst, inl, inr, take,
  arith, codes, tokens, ◌==◌,
}
use uvhttp.Error.{ok}
use uvhttp.Router.Method.{get, post}
use uvhttp.Router.Array.{Handler, application, ArrayRoute}
use uvhttp.Router.Params.{param_of_token, split_at_colon, params_from, parse_path_params}
use uvhttp.Router.Trie.{
  Pool, zero_node, RouteNode, Param, insert_tokens, save_param_name, matched, unmatched,
  match_route_node, find_child, find_or_create_child,
}
use uvhttp.Router.Trie.Pool.{IsPool, zero_node-IsNode}
use uvhttp.Router.Trie.Walk.{Reaches, stop, step, match_route_node_sound, match_route_node_complete}
use uvhttp.Router.Table.{
  Router, router_new, add_array_route, add_route_method, add_trie_route, migrate_routes,
  migrate_to_trie, pool_size_for, find_handler, router_match,
}
use uvhttp.Router.Table.Invariant.{
  IsRouter, Keeps, migrate_to_trie-Keeps, router_new-IsRouter, add_route_method-IsRouter,
}
use uvhttp.Router.Table.Migration.{Migrated, migrate_to_trie-Migrated}
use uvhttp.Router.Table.Search.{lookup_of, find_handler-router_match}
use uvhttp.Router.Table.Added.{match_route_node-add_trie_route}

abbrev home : Handler
home = application 1

abbrev path : List ℕ
path = codes "/a/b"

abbrev routes : List ArrayRoute
routes = record { path = path; method = post; handler = home } ∷ []

-- The nodes of "/a/b".
abbrev a_node : RouteNode
a_node = record zero_node { children = 2 ∷ []; segment = codes "a" }

abbrev b_node : RouteNode
b_node = record zero_node { method = get; handler = some home; segment = codes "b" }

abbrev pool : Pool
pool = record zero_node { children = 1 ∷ [] } ∷ a_node ∷ b_node ∷ []

abbrev segments : List (List ℕ)
segments = codes "a" ∷ codes "b" ∷ []

match_pool : match_route_node pool get segments 0 [] ≡ matched home []
unfolding match_route_node
match_pool = refl

match_route_node_sound_example : Reaches pool get segments 0 home
match_route_node_sound_example = match_route_node_sound pool get segments 0 [] [] home match_pool

match_route_node_complete_example : match_route_node pool get segments 0 [] ≢ unmatched
match_route_node_complete_example =
    match_route_node_complete pool get segments 0 2 [] home
      (step (inl refl) (inr (refl, refl)) (step (inl refl) (inr (refl, refl)) stop))
      (record { registered = refl; allowed = inr refl })

one_node : IsPool (zero_node ∷ [])
one_node zero = zero_node-IsNode 1
one_node (suc i) = zero_node-IsNode 1

insert_segments : (insert_tokens true (zero_node ∷ []) 0 segments).1 ≡ some 2
unfolding insert_tokens save_param_name find_or_create_child find_child
insert_segments = refl

plain : (c : ℕ) → (c == b'/') ≡ false → c ≢ b'/'
plain c e same = ground arith

-- A router with one route, in array mode.
abbrev with_route : Router
with_route = record {
  use_trie = false;
  route_count = 1;
  node_pool = zero_node ∷ [];
  node_pool_size = 64;
  root_index = 0;
  array_routes = routes;
  array_freed = false;
  array_capacity = 100;
  static_prefix = none;
  static_context = none;
  static_data = none;
  fallback_context = none;
}

add_first : add_route_method router_new path post home ≡ some (with_route, ok tt)
unfolding add_route_method router_new add_array_route
add_first = refl

with_route-IsRouter : IsRouter with_route
with_route-IsRouter = record {
  pool = one_node;
  root = omega arith;
  allocated = omega arith;
  stored = omega arith;
  growable = λ _. omega arith;
  moved = λ e. absurd cc;
}

add_route_method-IsRouter_example : Keeps router_new (add_route_method router_new path post home)
add_route_method-IsRouter_example =
    add_route_method-IsRouter router_new path post home router_new-IsRouter

-- The router after the migration.
abbrev moved : Router
moved = record with_route {
  use_trie = true;
  node_pool =
      record zero_node { children = 1 ∷ [] }
      ∷ record zero_node { children = 2 ∷ []; segment = codes "a" }
      ∷ record zero_node { method = post; handler = some home; segment = codes "b" }
      ∷ [];
  array_routes = [];
  array_capacity = 0;
}

migrates : migrate_to_trie with_route ≡ some (moved, ok tt)
unfolding migrate_to_trie migrate_routes insert_tokens find_or_create_child find_child tokens
    pool_size_for
migrates = refl

-- A failed migration has freed the array of routes: registering another route uses it.
freed_faults : add_route_method (record with_route { array_freed = true }) path get home ≡ none
unfolding add_route_method add_array_route
freed_faults = refl

migrate_to_trie-Migrated_example :
    (moved.use_trie ≡ true) × (moved.array_routes ≡ []) × Migrated moved.node_pool 0 routes
migrate_to_trie-Migrated_example =
    migrate_to_trie-Migrated with_route moved with_route-IsRouter refl migrates

moved-IsRouter : IsRouter moved
moved-IsRouter =
    subst (Keeps with_route) migrates (migrate_to_trie-Keeps with_route with_route-IsRouter)

find_handler-router_match_example :
    find_handler moved path (codes "POST") ≡ lookup_of none (router_match moved path (codes "POST"))
find_handler-router_match_example =
    find_handler-router_match moved path (codes "POST") moved-IsRouter

-- The same router in trie mode.
abbrev in_trie : Router
in_trie = record with_route { use_trie = true; array_routes = []; array_capacity = 0 }

in_trie-IsRouter : IsRouter in_trie
in_trie-IsRouter = record {
  pool = one_node;
  root = omega arith;
  allocated = omega arith;
  stored = omega arith;
  growable = λ e. absurd cc;
  moved = λ _. refl;
}

add_in_trie : (add_trie_route in_trie path get home).1 ≡ ok tt
unfolding add_trie_route insert_tokens save_param_name find_or_create_child find_child tokens
add_in_trie = refl

match_route_node-add_trie_route_example :
    (k : Handler) × (ps : List Param) × (match_route_node
        (add_trie_route in_trie path get home).0.node_pool
        get
        (tokens (take 255 path))
        0
        []
      ≡ matched k ps)
    × Reaches (add_trie_route in_trie path get home).0.node_pool get (tokens (take 255 path)) 0 k
    × Reaches (add_trie_route in_trie path get home).0.node_pool get (tokens (take 255 path)) 0 home
unfolding tokens
match_route_node-add_trie_route_example =
    match_route_node-add_trie_route in_trie path get get home in_trie-IsRouter
      ((refl, omega arith), ((refl, omega arith), tt)) (omega arith) (inr refl) add_in_trie

-- A path with a parameter, a plain token and a token without a second colon.
parse_two :
    parse_path_params (codes "/:id:7/users/:x/:y:")
    ≡ record { name = codes "id"; value = codes "7" } ∷ record { name = codes "y"; value = [] } ∷ []
unfolding parse_path_params params_from param_of_token tokens split_at_colon
parse_two = refl
