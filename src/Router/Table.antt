-- ===== src/Router/Table.antt =====
-- The router of src/uvhttp_router.c: an array of routes that becomes a trie. Allocations succeed;
-- a path, a method or a handler that is NULL is `none`.
-- The fields static_handler and fallback_handler, which the code only ever sets to NULL, are left out.
pub mod Grown
pub mod Invariant
pub mod Migration
pub mod Search
pub mod Added
use uvhttp.Prelude.{
  ℕ, zero, suc, ◌+◌, ◌*◌, Bool, true, false, not, ◌&&◌, ◌||◌, List, [], ◌∷◌, ◌++◌, Option, none,
  some, if◌then◌else◌, ltb, leb, ◌==◌, length, take, streq, strneq, has_char, tokens,
}
use uvhttp.Error.{Error, invalid_param, out_of_memory, not_found, Result, ok, err}
use uvhttp.Router.Method.{Method, any, method_from_string}
use uvhttp.Router.Array.{
  Handler, static_file_handler_wrapper, binary_route_handler, ArrayRoute, find_array_route,
}
use uvhttp.Router.Trie.{
  Pool, zero_node, insert_tokens, set_handler, Param, MatchResult, matched, unmatched,
  out_of_bounds, match_route_node,
}

-- `struct uvhttp_router`. `array_routes` are the first `array_route_count` routes; `array_freed`
-- says that their memory has been released while the pointer stays. `node_pool` are the
-- nodes in use. Contexts and data are opaque pointers.
pub record Router : Type 0 where
  pub use_trie : Bool
  pub route_count : ℕ
  pub node_pool : Pool
  pub node_pool_size : ℕ
  pub root_index : ℕ
  pub array_routes : List ArrayRoute
  pub array_freed : Bool
  pub array_capacity : ℕ
  pub static_prefix : Option (List ℕ)
  pub static_context : Option ℕ
  pub static_data : Option (List ℕ)
  pub fallback_context : Option ℕ

abbrev pub hybrid_threshold : ℕ
hybrid_threshold = 100

abbrev pub max_route_path_len : ℕ
max_route_path_len = 256

-- `uvhttp_router_new`: the root is the first node of a pool of 64.
unfoldable pub router_new : Router
router_new = record {
  use_trie = false;
  route_count = 0;
  node_pool = zero_node ∷ [];
  node_pool_size = 64;
  root_index = 0;
  array_routes = [];
  array_freed = false;
  array_capacity = hybrid_threshold;
  static_prefix = none;
  static_context = none;
  static_data = none;
  fallback_context = none;
}

-- The doubling of the pool in `create_route_node`, for a pool that has `used` nodes in use.
unfoldable pub pool_size_for : ℕ → ℕ → ℕ → ℕ
pool_size_for zero size used = size
pool_size_for (suc fuel) size used =
    let larger = pool_size_for fuel (size * 2) used in if ltb size used then larger else size

abbrev pub with_pool : Router → Pool → Router
with_pool r pool = record r {
  node_pool = pool;
  node_pool_size = pool_size_for (length pool) r.node_pool_size (length pool);
}

-- The writes of `add_array_route`.
abbrev pub append_route : Router → List ℕ → Method → Handler → Router
append_route r path method handler =
    let capacity =
      if leb r.array_capacity (length r.array_routes)
      then r.array_capacity * 2
      else r.array_capacity in
    record r {
      array_capacity = capacity;
      array_routes =
          r.array_routes
          ++ record { path = take 255 path; method = method; handler = handler } ∷ [];
      route_count = r.route_count + 1;
    }

-- `add_array_route`, or none where it uses the freed array: it writes a route into it, or has it
-- reallocated.
unfoldable pub add_array_route : Router → List ℕ → Method → Handler → Option Router
add_array_route r path method handler =
    if r.array_freed then none else some (append_route r path method handler)

-- What registering leads to: the router with the result, or none for a use of freed memory.
abbrev pub Change : Type 0
Change = Option (Router × Result (Unit {0}))

abbrev pub added : Option Router → Change
added none = none
added (some r) = some (r, ok tt)

-- The loop of `migrate_to_trie` over the routes.
unfoldable pub migrate_routes : Pool → ℕ → List ArrayRoute → Pool × Bool
migrate_routes pool root [] = (pool, true)
migrate_routes pool root (route ∷ routes) =
    let (pool', found) = insert_tokens false pool root (tokens (take 255 route.path)) in
    elim found [
      | none ↦ (pool', false)
      | some j ↦ migrate_routes (set_handler pool' j route.method route.handler) root routes
    ]

-- The end of `migrate_to_trie`, with the pool that the loop leaves.
abbrev pub migrated : Router → Pool × Bool → Router × Result (Unit {0})
migrated r (pool, done) =
    if done
    then (
      record (with_pool r pool) { use_trie = true; array_routes = []; array_capacity = 0 },
      ok tt,
    )
    else (record (with_pool r pool) { array_freed = true }, err out_of_memory)

-- `migrate_to_trie`. Where a node cannot be created the routes are freed and the rest stays, so that
-- another migration reads the freed routes.
unfoldable pub migrate_to_trie : Router → Change
migrate_to_trie r =
    if r.use_trie
    then some (r, ok tt)
    else if r.array_freed
    then none
    else some (migrated r (migrate_routes r.node_pool r.root_index r.array_routes))

-- The branch of `uvhttp_router_add_route_method` for the trie.
abbrev pub set_trie_handler :
    Router → Method → Handler → Pool × Option ℕ → Router × Result (Unit {0})
set_trie_handler r method handler (pool, none) = (with_pool r pool, err out_of_memory)
set_trie_handler r method handler (pool, some j) = (
  record (with_pool r (set_handler pool j method handler)) { route_count = r.route_count + 1 },
  ok tt,
)

unfoldable pub add_trie_route : Router → List ℕ → Method → Handler → Router × Result (Unit {0})
add_trie_route r path method handler =
    set_trie_handler r method handler
      (insert_tokens true r.node_pool r.root_index (tokens (take 255 path)))

abbrev pub after_migration : List ℕ → Method → Handler → Change → Change
after_migration path method handler none = none
after_migration path method handler (some (r, err e)) = some (r, err e)
after_migration path method handler (some (r, ok _)) = some (add_trie_route r path method handler)

-- The checks of `uvhttp_router_add_route_method` on a path.
abbrev pub is_route_path : List ℕ → Bool
is_route_path path =
    not (length path == 0) && ltb (length path) max_route_path_len && not (has_char path b'?')

abbrev pub wants_trie : Router → List ℕ → Bool
wants_trie r path = has_char path b':' || leb hybrid_threshold (length r.array_routes) || r.use_trie

-- `uvhttp_router_add_route_method` on pointers that are not NULL.
unfoldable pub add_route_method : Router → List ℕ → Method → Handler → Change
add_route_method r path method handler =
    if not (is_route_path path)
    then some (r, err invalid_param)
    else if wants_trie r path
    then after_migration path method handler (migrate_to_trie r)
    else added (add_array_route r path method handler)

-- The router that registering leaves, if it does not fault.
abbrev pub router_of : Change → Option Router
router_of none = none
router_of (some (r, _)) = some r

-- `uvhttp_router_add_route`
unfoldable pub add_route : Router → List ℕ → Handler → Change
unfolding add_route_method
add_route r path handler = add_route_method r path any handler

-- Does the static prefix catch the path?
abbrev pub catches : Option (List ℕ) → Option ℕ → List ℕ → Bool
catches (some prefix) (some context) path = strneq (length prefix) path prefix
catches _ _ path = false

-- `uvhttp_router_find_handler` goes on here where no route matches.
abbrev pub fallback : Option ℕ → Option Handler
fallback none = none
fallback (some context) = some static_file_handler_wrapper

-- What a search gives: a handler or NULL, or a fault, which reads freed routes or writes behind
-- the parameters.
pub data Lookup : Type 0 where
  found : Option Handler → Lookup
  fault : Lookup

abbrev pub lookup_trie : Option ℕ → MatchResult → Lookup
lookup_trie context (matched h params) = found (some h)
lookup_trie context unmatched = found (fallback context)
lookup_trie context out_of_bounds = fault

abbrev pub lookup_array : Option ℕ → Option Handler → Lookup
lookup_array context none = found (fallback context)
lookup_array context (some h) = found (some h)

-- `uvhttp_router_find_handler`
unfoldable pub find_handler : Router → List ℕ → List ℕ → Lookup
find_handler r path method =
    let m = method_from_string method in
    if catches r.static_prefix r.static_context path
    then found (some static_file_handler_wrapper)
    else if r.use_trie
    then lookup_trie r.fallback_context
        (match_route_node r.node_pool m (tokens (take 255 path)) r.root_index [])
    else if r.array_freed
    then fault
    else lookup_array r.fallback_context (find_array_route r.array_routes path m)

-- What `uvhttp_router_match` gives: a handler with the parameters, NOT_FOUND, or a fault.
pub data Matching : Type 0 where
  routed : Handler → List Param → Matching
  unrouted : Matching
  match_fault : Matching

abbrev pub matching_of : MatchResult → Matching
matching_of (matched h params) = routed h params
matching_of unmatched = unrouted
matching_of out_of_bounds = match_fault

abbrev pub array_or_else : Option Handler → Matching → Matching
array_or_else (some h) later = routed h []
array_or_else none later = later

-- The array is searched also in trie mode, if it has routes and the path no parameter.
abbrev pub matches_array : Router → List ℕ → Bool
matches_array r path =
    not (has_char path b':' || has_char path b'{') && not (length r.array_routes == 0)

-- `uvhttp_router_match`
unfoldable pub router_match : Router → List ℕ → List ℕ → Matching
router_match r path method =
    let m = method_from_string method in
    let in_array = find_array_route r.array_routes path m in
    let in_trie =
      matching_of (match_route_node r.node_pool m (tokens (take 255 path)) r.root_index []) in
    if r.use_trie
    then if matches_array r path then array_or_else in_array in_trie else in_trie
    else if catches r.static_prefix r.static_context path
    then routed static_file_handler_wrapper []
    else if r.array_freed
    then match_fault
    else array_or_else in_array unrouted

-- `uvhttp_router_add_static_route`
unfoldable pub add_static_route : Router → List ℕ → ℕ → Router
add_static_route r prefix context = record r {
  static_prefix = some prefix;
  static_context = some context;
}

-- `uvhttp_router_add_fallback_route`
unfoldable pub add_fallback_route : Router → ℕ → Router
add_fallback_route r context = record r { fallback_context = some context }

-- `uvhttp_router_add_binary_route`: the MIME type goes into the static context.
unfoldable pub add_binary_route : Router → List ℕ → ℕ → List ℕ → Change
unfolding add_route
add_binary_route r path mime_type blob =
    if length blob == 0
    then some (r, err invalid_param)
    else add_route (record r { static_context = some mime_type; static_data = some blob }) path
        binary_route_handler
