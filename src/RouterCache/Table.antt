-- ===== src/RouterCache/Table.antt =====
-- The hash table of src/uvhttp_router_cache.c. The hash function XXH64 with the default seed is a
-- parameter. Allocations succeed; a slot whose path is empty is free; the field `distance`, which
-- is only ever set to 0, is left out.
pub mod Slots
pub mod Placed
pub mod Resize
pub mod Insert
pub mod Touch
pub mod Search
pub mod Full
use uvhttp.Prelude.{
  ℕ, zero, suc, ◌+◌, ◌*◌, ◌/◌, ◌%◌, ◌^◌, min, Bool, true, false, not, ◌&&◌, ◌||◌, List, [], ◌∷◌,
  Option, none, some, if◌then◌else◌, ltb, leb, ◌==◌, length, get_or, set, take, replicate, streq,
  has_char,
}
use uvhttp.Error.{
  Error, invalid_param, out_of_memory, already_exists, header_too_large, Result, ok, err,
}
use uvhttp.Router.Method.{Method, any, method_eq}
use uvhttp.Router.Array.{Handler, allows}
use uvhttp.RouterCache.Probe.{probes}
use uvhttp.RouterCache.Template.{matches_template}

-- `hash_entry_t`
pub record HashEntry : Type 0 where
  pub path : List ℕ
  pub method : Method
  pub handler : Option Handler
  pub access_count : ℕ

-- An entry whose bytes are 0.
abbrev pub zero_entry : HashEntry
zero_entry = record { path = []; method = any; handler = none; access_count = 0 }

-- `hash_table_t`; `size` is the number of the entries.
pub record HashTable : Type 0 where
  pub entries : List HashEntry
  pub count : ℕ
  pub threshold : ℕ

abbrev pub base_size : ℕ
base_size = 256

abbrev pub max_size : ℕ
max_size = 4096

-- `(size_t)(size * UVHTTP_ROUTER_HASH_LOAD_FACTOR)`
abbrev pub load : ℕ → ℕ
load size = size * 3 / 4

abbrev pub access_counter_max : ℕ
access_counter_max = 0xFFFFFFFF

abbrev pub entry_at : List HashEntry → ℕ → HashEntry
entry_at es i = get_or es i zero_entry

-- `path[0] == '\0'`
abbrev pub is_blank : List ℕ → Bool
is_blank [] = true
is_blank (c ∷ s) = false

abbrev pub is_free : List HashEntry → ℕ → Bool
is_free es i = is_blank (entry_at es i).path

-- The slot of a path and a method, as `find_slot` and `add_to_hash_table` test for it.
abbrev pub is_same : HashEntry → List ℕ → Method → Bool
is_same e path m = streq e.path path && method_eq e.method m

-- The test of the first pass of `find_in_hash_table_ex`.
abbrev pub is_exact : HashEntry → List ℕ → Method → Bool
is_exact e path m = streq e.path path && allows e.method m

-- The loop of `hash_table_resize` for one entry: the first free slot.
unfoldable pub next_free : List HashEntry → List ℕ → Option ℕ
next_free es [] = none
next_free es (i ∷ is) = let later = next_free es is in if is_free es i then some i else later

-- The loop of `find_slot`; `none` is UINT32_MAX.
unfoldable pub slot_in : List HashEntry → List ℕ → Method → List ℕ → Option ℕ
slot_in es path m [] = none
slot_in es path m (i ∷ is) =
    let later = slot_in es path m is in
    if is_free es i then some i else if is_same (entry_at es i) path m then some i else later

-- The first pass of `find_in_hash_table_ex`.
unfoldable pub exact_slot : List HashEntry → List ℕ → Method → List ℕ → Option ℕ
exact_slot es path m [] = none
exact_slot es path m (i ∷ is) =
    let later = exact_slot es path m is in
    if is_free es i then none else if is_exact (entry_at es i) path m then some i else later

-- The tests of the second pass.
abbrev pub is_template_hit : HashEntry → List ℕ → Method → Bool
is_template_hit e path m =
    not (is_blank e.path)
    && allows e.method m
    && has_char e.path b':'
    && matches_template e.path path

-- The second pass, from the slot `i` on.
unfoldable pub template_slot : ℕ → List HashEntry → List ℕ → Method → Option ℕ
template_slot i [] path m = none
template_slot i (e ∷ es) path m =
    let later = template_slot (i + 1) es path m in
    if is_template_hit e path m then some i else later

-- An access is counted up to the largest value of 32 bits.
abbrev pub count_access : ℕ → ℕ
count_access n = if ltb n access_counter_max then n + 1 else n

abbrev pub touch : List HashEntry → ℕ → List HashEntry
touch es i =
    set es i (record (entry_at es i) { access_count = count_access (entry_at es i).access_count })

-- What a search gives: the handler, and the path of the route, where one is found.
abbrev pub Found : Type 0
Found = Option Handler × Option (List ℕ)

abbrev pub hit : HashTable → ℕ → HashTable × Found
hit t i = (
  record t { entries = touch t.entries i },
  ((entry_at t.entries i).handler, some (entry_at t.entries i).path),
)

abbrev pub second_pass : HashTable → Option ℕ → HashTable × Found
second_pass t none = (t, (none, none))
second_pass t (some i) = hit t i

abbrev pub first_pass : HashTable → Option ℕ → HashTable × Found → HashTable × Found
first_pass t none later = later
first_pass t (some i) later = hit t i

-- `hash_table_init`
unfoldable pub hash_table_init : ℕ → Result HashTable
hash_table_init size =
    if size == 0
    then err invalid_param
    else ok (record { entries = replicate size zero_entry; count = 0; threshold = load size })

abbrev pub resized : HashTable → ℕ → Option (List HashEntry) → Result HashTable
resized t size none = err out_of_memory
resized t size (some es) = ok (record t { entries = es; threshold = load size })

-- What `add_to_hash_table` does: the table and its result, or a write behind the table.
pub data Added : Type 0 where
  added : HashTable → Result (Unit {0}) → Added
  overrun : Added

-- The slot that `find_slot` gave is written, unless it holds the route.
abbrev pub put_at : HashTable → List ℕ → Method → Handler → Option ℕ → Added
put_at t path m h none = overrun
put_at t path m h (some i) =
    if not (is_free t.entries i) && is_same (entry_at t.entries i) path m
    then added t (err already_exists)
    else added
        (record t {
          entries =
              set t.entries i
                (record { path = take 255 path; method = m; handler = some h; access_count = 0 });
          count = t.count + 1;
        })
        (ok tt)

module _ (xxh64 : List ℕ → ℕ) where
  -- `route_hash`
  abbrev pub route_hash : List ℕ → ℕ
  route_hash path = xxh64 (take 255 path) % 2 ^ 32

  -- `hash % size`, where a probe for a path starts.
  abbrev pub home : ℕ → List ℕ → ℕ
  home size path = route_hash path % size

  abbrev pub rehash_into : List HashEntry → HashEntry → Option ℕ → Option (List HashEntry)
  rehash_into es e none = none
  rehash_into es e (some i) = some (set es i e)

  -- The loop of `hash_table_resize` over the old entries.
  unfoldable pub rehash : List HashEntry → List HashEntry → Option (List HashEntry)
  unfolding next_free
  rehash es [] = some es
  rehash es (e ∷ olds) =
      let skipped = rehash es olds in
      if is_blank e.path
      then skipped
      else elim (rehash_into es e (next_free es (probes (length es) (home (length es) e.path)))) [
        | none ↦ none
        | some es' ↦ rehash es' olds
      ]

  -- `hash_table_resize`
  unfoldable pub hash_table_resize : HashTable → ℕ → Result HashTable
  unfolding rehash
  hash_table_resize t size =
      if size == 0 || ltb max_size size
      then err invalid_param
      else resized t size (rehash (replicate size zero_entry) t.entries)

  -- `find_slot`
  unfoldable pub find_slot : List HashEntry → List ℕ → Method → Option ℕ
  unfolding slot_in
  find_slot es path m = slot_in es path m (probes (length es) (home (length es) path))

  -- The check of `add_to_hash_table` for a resize.
  unfoldable pub grow : HashTable → Result HashTable
  unfolding hash_table_resize
  grow t =
      let size = length t.entries in
      let larger = min (size * 2) max_size in
      if leb t.threshold t.count
      then if ltb size larger then hash_table_resize t larger else ok t
      else ok t

  -- `add_to_hash_table`, but for `total_routes`, which belongs to the router.
  unfoldable pub add_to_hash_table : HashTable → List ℕ → Method → Handler → Added
  unfolding grow find_slot
  add_to_hash_table t path m h =
      if leb 256 (length path) then added t (err header_too_large) else elim (grow t) [
        | err e ↦ added t (err e)
        | ok t' ↦ put_at t' path m h (find_slot t'.entries path m)
      ]

  -- `find_in_hash_table_ex`
  unfoldable pub find_in_hash_table_ex : HashTable → List ℕ → Method → HashTable × Found
  unfolding exact_slot template_slot
  find_in_hash_table_ex t path m =
      let size = length t.entries in
      first_pass t (exact_slot t.entries path m (probes size (home size path)))
        (second_pass t (template_slot 0 t.entries path m))
