-- ===== src/RouterCache/Routes.antt =====
-- The router of src/uvhttp_router_cache.c on top of its hash table, on arguments that are not NULL.
-- Its fields are those of `struct uvhttp_router` that this file changes, the table and the total; the
-- two handlers that it only sets to NULL are left out.
pub mod Registered
pub mod Matching
use uvhttp.Prelude.{
  ℕ, ◌+◌, ◌*◌, Bool, true, false, not, ◌&&◌, ◌||◌, List, [], ◌∷◌, Option, none, some, if◌then◌else◌,
  ltb, leb, ◌==◌, length, replicate, strneq, has_char, streq, codes,
}
use uvhttp.Error.{invalid_param, not_found, Result, ok, err}
use uvhttp.Router.Method.{Method, any, get, post, put, delete, head, options, patch}
use uvhttp.Router.Array.{Handler, static_file_handler_wrapper, binary_route_handler}
use uvhttp.Router.Trie.{Param}
use uvhttp.Router.Table.{hybrid_threshold}
use uvhttp.RouterCache.Table.{
  HashTable, zero_entry, base_size, load, Found, Added, added, overrun, add_to_hash_table,
  find_in_hash_table_ex,
}
use uvhttp.RouterCache.Template.{template_params}

-- `cache_optimized_router_t`
pub record CacheRouter : Type 0 where
  pub hash_table : HashTable
  pub total_routes : ℕ
  pub route_count : ℕ
  pub use_trie : Bool
  pub array_route_count : ℕ
  pub array_capacity : ℕ
  pub static_prefix : Option (List ℕ)
  pub static_context : Option ℕ
  pub static_data : Option (List ℕ)
  pub fallback_context : Option ℕ

-- `uvhttp_router_new`
unfoldable pub cache_router_new : CacheRouter
cache_router_new = record {
  hash_table = record {
    entries = replicate base_size zero_entry;
    count = 0;
    threshold = load base_size;
  };
  total_routes = 0;
  route_count = 0;
  use_trie = false;
  array_route_count = 0;
  array_capacity = 0;
  static_prefix = none;
  static_context = none;
  static_data = none;
  fallback_context = none;
}

-- `method[1] == 'E' && … && method[n] == '\0'`
abbrev pub letters : List ℕ → List ℕ → Method → Method
letters rest expected m = if streq rest expected then m else any

-- The second letter behind a P.
abbrev pub parse_p : List ℕ → Method
parse_p [] = any
parse_p (c ∷ rest) =
    if c == b'O'
    then letters rest (codes "ST") post
    else if c == b'U'
    then letters rest (codes "T") put
    else if c == b'A'
    then letters rest (codes "TCH") patch
    else any

-- `fast_method_parse`
unfoldable pub fast_method_parse : List ℕ → Method
fast_method_parse [] = any
fast_method_parse (c ∷ rest) =
    if c == b'G'
    then letters rest (codes "ET") get
    else if c == b'P'
    then parse_p rest
    else if c == b'D'
    then letters rest (codes "ELETE") delete
    else if c == b'H'
    then letters rest (codes "EAD") head
    else if c == b'O'
    then letters rest (codes "PTIONS") options
    else any

-- Is the path under the static prefix, with a static context installed?
abbrev pub is_static : Option (List ℕ) → Option ℕ → List ℕ → Bool
is_static (some prefix) (some context) path = strneq (length prefix) path prefix
is_static _ _ path = false

-- `static_prefix_handler`
abbrev pub static_prefix_handler : CacheRouter → List ℕ → Option Handler
static_prefix_handler r path =
    if is_static r.static_prefix r.static_context path
    then some static_file_handler_wrapper
    else none

-- `uvhttp_router_add_static_route`
unfoldable pub cache_add_static_route : CacheRouter → List ℕ → ℕ → CacheRouter
cache_add_static_route r prefix context = record r {
  static_prefix = some prefix;
  static_context = some context;
}

-- `uvhttp_router_add_fallback_route`
unfoldable pub cache_add_fallback_route : CacheRouter → ℕ → CacheRouter
cache_add_fallback_route r context = record r { fallback_context = some context }

-- What registering gives: the router and a result, or a write behind the table.
pub data Registration : Type 0 where
  registered : CacheRouter → Result (Unit {0}) → Registration
  memory_fault : Registration

-- The checks of `uvhttp_router_add_route_method` on a path.
abbrev pub is_route : List ℕ → Bool
is_route path = not (length path == 0) && ltb (length path) 256 && not (has_char path b'?')

-- The public counters, as the other router keeps them.
unfoldable pub count_route : CacheRouter → List ℕ → CacheRouter
count_route r path =
    let capacity =
      if leb r.array_capacity r.array_route_count
      then if r.array_capacity == 0 then hybrid_threshold else r.array_capacity * 2
      else r.array_capacity in
    let counted = record r { route_count = r.route_count + 1; total_routes = r.total_routes + 1 } in
    if has_char path b':' || leb hybrid_threshold r.array_route_count || r.use_trie
    then if r.use_trie then counted else record counted { use_trie = true; array_route_count = 0 }
    else record counted { array_capacity = capacity; array_route_count = r.array_route_count + 1 }

abbrev pub after_add : CacheRouter → List ℕ → Added → Registration
after_add r path overrun = memory_fault
after_add r path (added t (err e)) = registered (record r { hash_table = t }) (err e)
after_add r path (added t (ok _)) =
    registered (count_route (record r { hash_table = t }) path) (ok tt)

abbrev pub or_fallback : Option ℕ → Option Handler → Option Handler
or_fallback context (some h) = some h
or_fallback (some context) none = some static_file_handler_wrapper
or_fallback none none = none

-- `match`: the handler and the parameters.
abbrev pub Match : Type 0
Match = Handler × List Param

-- The parameters are taken where the route found has a colon.
abbrev pub route_params : Option (List ℕ) → List ℕ → List Param
route_params none path = []
route_params (some route) path = if has_char route b':' then template_params route path else []

abbrev pub match_found : List ℕ → Found → Result Match
match_found path (none, route) = err not_found
match_found path (some h, route) = ok (h, route_params route path)

module _ (xxh64 : List ℕ → ℕ) where
  -- `uvhttp_router_add_route_method`
  unfoldable pub cache_add_route_method : CacheRouter → List ℕ → Method → Handler → Registration
  cache_add_route_method r path m h =
      if not (is_route path)
      then registered r (err invalid_param)
      else after_add r path (add_to_hash_table xxh64 r.hash_table path m h)

  -- `uvhttp_router_add_route`
  unfoldable pub cache_add_route : CacheRouter → List ℕ → Handler → Registration
  unfolding cache_add_route_method
  cache_add_route r path h = cache_add_route_method r path any h

  -- `uvhttp_router_add_binary_route`
  unfoldable pub cache_add_binary_route : CacheRouter → List ℕ → ℕ → List ℕ → Registration
  unfolding cache_add_route
  cache_add_binary_route r path mime_type blob =
      if length blob == 0
      then registered r (err invalid_param)
      else cache_add_route (record r { static_context = some mime_type; static_data = some blob })
          path binary_route_handler

  abbrev pub find_or : CacheRouter → List ℕ → Method → Option Handler → CacheRouter × Option Handler
  find_or r path m (some h) = (r, some h)
  find_or r path m none =
      let (t, found) = find_in_hash_table_ex xxh64 r.hash_table path m in
      (record r { hash_table = t }, or_fallback r.fallback_context found.0)

  -- `uvhttp_router_find_handler`; a search counts the access in the table.
  unfoldable pub cache_find_handler : CacheRouter → List ℕ → List ℕ → CacheRouter × Option Handler
  cache_find_handler r path method =
      find_or r path (fast_method_parse method) (static_prefix_handler r path)

  -- `uvhttp_router_match`
  unfoldable pub cache_router_match : CacheRouter → List ℕ → List ℕ → CacheRouter × Result Match
  cache_router_match r path method =
      if not r.use_trie && is_static r.static_prefix r.static_context path
      then (r, ok (static_file_handler_wrapper, []))
      else let (t, found) =
          find_in_hash_table_ex xxh64 r.hash_table path (fast_method_parse method) in
        (record r { hash_table = t }, match_found path found)
