-- ===== src/Router/Table/Added.antt =====
-- What is found after a route has been registered.
use uvhttp.Prelude.{
  get_or-set_self, ℕ, ◌≤◌, true, false, List, [], ◌∷◌, Option, none, some, ◌≡◌, ◌≢◌, refl, subst,
  sym, ap, ◌∙◌, ◌⊎◌, length, take, tokens, tokens-IsToken, All, arith, streq_refl,
}
use uvhttp.Error.{ok}
use uvhttp.Router.Method.{Method, any, method_from_string}
use uvhttp.Router.Array.{Handler, allows, find_array_route}
use uvhttp.Router.Array.Search.{find_array_route-append}
use uvhttp.Router.Trie.{
  Pool, zero_node, Param, MatchResult, matched, unmatched, out_of_bounds, match_route_node,
  max_params,
}
use uvhttp.Router.Trie.Walk.{
  Handles, Reaches, match_route_node_sound, match_route_node_complete,
  match_route_node-ne-out_of_bounds,
}
use uvhttp.Router.Trie.Extends.{Walk-Extends}
use uvhttp.Router.Trie.Insert.{
  take_short, Grown, Ends, IsLiteral, insert_tokens-Grown, insert_tokens-Ends,
}
use uvhttp.Router.Table.{
  Router, append_route, add_array_route, add_trie_route, set_trie_handler, add_route_method,
  is_route_path, wants_trie, catches, found, lookup_array, find_handler,
}
use uvhttp.Router.Table.Grown.{set_handler-Grown}
use uvhttp.Router.Table.Invariant.{IsRouter, array_mode_of_wants_trie}

-- A path that a router takes fits the 256 bytes of an array route.
take_route_path : (path : List ℕ) → is_route_path path ≡ true → take 255 path ≡ path
take_route_path path e = take_short 255 path (ground (arith, e))

pub add_route_method-array :
    (r : Router) (path : List ℕ) (method : Method) (h : Handler)
    → is_route_path path ≡ true
    → wants_trie r path ≡ false
    → r.array_freed ≡ false
    → add_route_method r path method h ≡ some (append_route r path method h, ok tt)
unfolding add_route_method add_array_route
add_route_method-array r path method h valid array kept = rw (valid, array, kept)

find_handler-array :
    (r : Router) (path text : List ℕ)
    → r.use_trie ≡ false
    → r.array_freed ≡ false
    → catches r.static_prefix r.static_context path ≡ false
    → find_handler r path text
      ≡ lookup_array r.fallback_context
          (find_array_route r.array_routes path (method_from_string text))
unfolding find_handler
find_handler-array r path text off kept uncaught = rw (off, kept, uncaught)

find_array_route-new :
    (path : List ℕ) (method wanted : Method) (h : Handler)
    → take 255 path ≡ path
    → allows method wanted ≡ true
    → find_array_route
        (record { path = take 255 path; method = method; handler = h } ∷ [])
        path
        wanted
      ≡ some h
unfolding find_array_route
find_array_route-new path method wanted h whole allowed = rw (whole, streq_refl path, allowed)

-- In array mode, writing a route for a path that no static prefix catches: a search for that
-- path, with a method the route allows, finds what it found before, and the handler of the new
-- route where it found no route.
pub find_handler-append_route :
    (r : Router) (path text : List ℕ) (method : Method) (h : Handler)
    → is_route_path path ≡ true
    → wants_trie r path ≡ false
    → r.array_freed ≡ false
    → catches r.static_prefix r.static_context path ≡ false
    → allows method (method_from_string text) ≡ true
    → find_handler (append_route r path method h) path text
      ≡ (elim (find_array_route r.array_routes path (method_from_string text)) [
        | none ↦ found (some h)
        | some k ↦ found (some k)
      ])
find_handler-append_route r path text method h valid array kept uncaught allowed =
    find_handler-array (append_route r path method h) path text
      (array_mode_of_wants_trie r path array) kept uncaught
    ∙ ap (lookup_array r.fallback_context) (
        find_array_route-append r.array_routes
          (record { path = take 255 path; method = method; handler = h } ∷ []) path
          (method_from_string text))
    ∙ go (find_array_route r.array_routes path (method_from_string text))
  where
    go :
        (before : Option Handler)
        → lookup_array r.fallback_context (elim before [
          | none ↦
              find_array_route
                (record { path = take 255 path; method = method; handler = h } ∷ [])
                path
                (method_from_string text)
          | some k ↦ some k
        ])
          ≡ (elim before [ none ↦ found (some h) | some k ↦ found (some k) ])
    go (some k) = refl
    go none = ap (lookup_array r.fallback_context) (
        find_array_route-new path method (method_from_string text) h (take_route_path path valid)
          allowed)

-- A node with the new handler stands where the segments of the path lead.
set_trie_handler-Reaches :
    (r : Router) (made : Pool × Option ℕ) (ts : List (List ℕ)) (method wanted : Method)
    (h : Handler)
    → Grown r.node_pool made.0
    → ((j : ℕ) → made.1 ≡ some j → Ends made.0 r.root_index ts j)
    → All IsLiteral ts
    → (method ≡ any) ⊎ (method ≡ wanted)
    → (set_trie_handler r method h made).1 ≡ ok tt
    → Reaches (set_trie_handler r method h made).0.node_pool wanted ts r.root_index h
set_trie_handler-Reaches r (p, none) ts method wanted h g ends lits allowed e = absurd cc
set_trie_handler-Reaches r (p, some j) ts method wanted h g ends lits allowed e =
    let s = set_handler-Grown p j method h g.kept in
    (
      j,
      Walk-Extends g.kept s.extends ((ends j refl).walk lits),
      subst (λ n. Handles n wanted h) (sym (get_or-set_self p j _ zero_node (ends j refl).inside))
          (record { registered = refl; allowed = allowed }),
    )

add_trie_route-Reaches :
    (r : Router) (path : List ℕ) (method wanted : Method) (h : Handler)
    → IsRouter r
    → All IsLiteral (tokens (take 255 path))
    → (method ≡ any) ⊎ (method ≡ wanted)
    → (add_trie_route r path method h).1 ≡ ok tt
    → Reaches
        (add_trie_route r path method h).0.node_pool
        wanted
        (tokens (take 255 path))
        r.root_index
        h
unfolding add_trie_route
add_trie_route-Reaches r path method wanted h v lits allowed e =
    set_trie_handler-Reaches r _ _ method wanted h
      (insert_tokens-Grown true r.node_pool r.root_index _ (tokens-IsToken _) v.pool)
      (λ j at.
        insert_tokens-Ends true r.node_pool r.root_index j _ (tokens-IsToken _) v.pool v.root at)
      lits allowed e

-- Where some walk reaches a handler and the segments are few enough, a match succeeds.
match_route_node-matched :
    (pool : Pool) (wanted : Method) (ts : List (List ℕ)) (root : ℕ) (h : Handler)
    → length ts ≤ max_params
    → Reaches pool wanted ts root h
    → (k : Handler) × (ps : List Param) × (match_route_node pool wanted ts root [] ≡ matched k ps)
match_route_node-matched pool wanted ts root h few (j, walk, handles) =
    go (match_route_node pool wanted ts root [])
      (match_route_node_complete pool wanted ts root j [] h walk handles)
      (match_route_node-ne-out_of_bounds pool wanted ts root [] (omega arith))
  where
    go :
        (m : MatchResult)
        → m ≢ unmatched
        → m ≢ out_of_bounds
        → (k : Handler) × (ps : List Param) × (m ≡ matched k ps)
    go (matched k ps) n o = (k, ps, refl)
    go unmatched n o = absurd (n refl)
    go out_of_bounds n o = absurd (o refl)

-- In trie mode, registering a route of at most 16 segments, none a parameter and each of at most
-- 31 bytes, succeeds only so that a match of the path with a method the route allows succeeds
-- afterwards; the handler that it finds, like the new one, stands where a walk along the segments
-- of the path leads, registered for the method or for any.
pub match_route_node-add_trie_route :
    (r : Router) (path : List ℕ) (method wanted : Method) (h : Handler)
    → IsRouter r
    → All IsLiteral (tokens (take 255 path))
    → length (tokens (take 255 path)) ≤ max_params
    → (method ≡ any) ⊎ (method ≡ wanted)
    → (add_trie_route r path method h).1 ≡ ok tt
    → (k : Handler) × (ps : List Param) × (match_route_node
          (add_trie_route r path method h).0.node_pool
          wanted
          (tokens (take 255 path))
          r.root_index
          []
        ≡ matched k ps)
      × Reaches
          (add_trie_route r path method h).0.node_pool
          wanted
          (tokens (take 255 path))
          r.root_index
          k
      × Reaches
          (add_trie_route r path method h).0.node_pool
          wanted
          (tokens (take 255 path))
          r.root_index
          h
match_route_node-add_trie_route r path method wanted h v lits few allowed e =
    let pool = (add_trie_route r path method h).0.node_pool in
    let new = add_trie_route-Reaches r path method wanted h v lits allowed e in
    let (k, ps, match) =
      match_route_node-matched pool wanted (tokens (take 255 path)) r.root_index h few new in
    (
      k,
      ps,
      match,
      match_route_node_sound pool wanted (tokens (take 255 path)) r.root_index [] ps k match,
      new,
    )
