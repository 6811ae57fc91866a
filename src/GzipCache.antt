-- ===== src/GzipCache.antt =====
-- The cache of compressed bodies: src/uvhttp_gzip_cache.c and its header. `now` is what `time`
-- returns. Allocations succeed, and the memory in use and the clock of the cache stay below 2^64. A
-- number of entries or a TTL that is not positive is 0, since the code treats all of these alike.
pub mod Eviction
pub mod Invariant
pub mod Search
pub mod Put
pub mod Stored
pub mod Sweep
pub mod Limits
pub mod Reachable
mod Tests
use uvhttp.Prelude.{
  ℕ, zero, suc, ◌+◌, ◌-◌, Bool, true, false, not, ◌&&◌, ◌||◌, List, [], ◌∷◌, ◌++◌, Option, none,
  some, if◌then◌else◌, ltb, leb, ◌==◌, length, get_or, set,
}
use uvhttp.Error.{Error, invalid_param, Result, ok, err}

-- `gzip_cache_entry_t`: `compressed` are the first `compressed_len` bytes; NULL is [].
pub record Slot : Type 0 where
  pub hash : ℕ
  pub body_len : ℕ
  pub compressed : List ℕ
  pub valid : Bool
  pub stored_at : ℕ
  pub last_used : ℕ

-- A slot whose bytes are 0.
abbrev pub zero_slot : Slot
zero_slot = record {
  hash = 0;
  body_len = 0;
  compressed = [];
  valid = false;
  stored_at = 0;
  last_used = 0;
}

-- `struct uvhttp_gzip_cache`; `capacity` is the number of the entries.
pub record GzipCache : Type 0 where
  pub entries : List Slot
  pub max_entries : ℕ
  pub max_memory_usage : ℕ
  pub total_memory : ℕ
  pub cache_ttl : ℕ
  pub tick : ℕ
  pub hit_count : ℕ
  pub miss_count : ℕ
  pub eviction_count : ℕ

-- `GZIP_CACHE_ENTRY_OVERHEAD`, with pointers of 8 bytes.
abbrev pub entry_overhead : ℕ
entry_overhead = 56

-- `gzip_cache_entry_count`
unfoldable pub entry_count : List Slot → ℕ
entry_count [] = 0
entry_count (s ∷ slots) = (if s.valid then 1 else 0) + entry_count slots

-- Is a slot a better victim than the best so far?
abbrev pub is_older : Slot → Option (ℕ × ℕ) → Bool
is_older s none = true
is_older s (some (_, oldest)) = ltb s.last_used oldest

-- The loop of `gzip_cache_evict_one`: the victim's index and its tick.
unfoldable pub victim_from : ℕ → Option (ℕ × ℕ) → List Slot → Option (ℕ × ℕ)
victim_from i best [] = best
victim_from i best (s ∷ slots) =
    let taken = victim_from (i + 1) (some (i, s.last_used)) slots in
    let kept = victim_from (i + 1) best slots in if s.valid && is_older s best then taken else kept

abbrev pub release : Slot → Slot
release s = record s { valid = false; compressed = [] }

-- A slot has been given up.
abbrev pub evict_at : GzipCache → Option (ℕ × ℕ) → GzipCache
evict_at c none = c
evict_at c (some (i, _)) =
    let s = get_or c.entries i zero_slot in
    record c {
      entries = set c.entries i (release s);
      total_memory = c.total_memory - (length s.compressed + entry_overhead);
      eviction_count = c.eviction_count + 1;
    }

-- `gzip_cache_evict_one`
unfoldable pub evict_one : GzipCache → GzipCache
evict_one c = evict_at c (victim_from 0 none c.entries)

abbrev pub zero_slots : ℕ → List Slot
zero_slots zero = []
zero_slots (suc n) = zero_slot ∷ zero_slots n

abbrev pub default_max_entries : ℕ
default_max_entries = 64

abbrev pub default_max_memory : ℕ
default_max_memory = 1048576

-- `uvhttp_gzip_cache_create`
unfoldable pub gzip_cache_create : ℕ → ℕ → ℕ → GzipCache
gzip_cache_create max_memory_usage max_entries cache_ttl =
    let n = if max_entries == 0 then default_max_entries else max_entries in
    record {
      entries = zero_slots n;
      max_entries = n;
      max_memory_usage = if max_memory_usage == 0 then default_max_memory else max_memory_usage;
      total_memory = 0;
      cache_ttl = cache_ttl;
      tick = 0;
      hit_count = 0;
      miss_count = 0;
      eviction_count = 0;
    }

abbrev pub release_all : List Slot → List Slot
release_all [] = []
release_all (s ∷ slots) = release s ∷ release_all slots

-- `uvhttp_gzip_cache_clear`
unfoldable pub gzip_cache_clear : GzipCache → GzipCache
gzip_cache_clear c = record c { entries = release_all c.entries; total_memory = 0 }

-- What the loop of a search has done: the slots, the memory in use, the evictions and the hit.
pub record Scan : Type 0 where
  pub slots : List Slot
  pub memory : ℕ
  pub evictions : ℕ
  pub hit : Option (List ℕ)

abbrev pub behind : Slot → Scan → Scan
behind s scan = record scan { slots = s ∷ scan.slots }

abbrev pub is_expired : ℕ → ℕ → Slot → Bool
is_expired ttl now s = ltb 0 ttl && ltb ttl (now - s.stored_at)

abbrev pub has_key : ℕ → ℕ → Slot → Bool
has_key hash body_len s = s.hash == hash && s.body_len == body_len

-- The loop of `uvhttp_gzip_cache_find`; `tick` is the new time of the cache's clock.
unfoldable pub scan_slots : ℕ → ℕ → ℕ → ℕ → ℕ → List Slot → ℕ → ℕ → Scan
scan_slots ttl now hash body_len tick [] memory evictions = record {
  slots = [];
  memory = memory;
  evictions = evictions;
  hit = none;
}
scan_slots ttl now hash body_len tick (s ∷ slots) memory evictions =
    let kept = behind s (scan_slots ttl now hash body_len tick slots memory evictions) in
    let given_up = behind (release s) (
      scan_slots ttl now hash body_len tick slots (memory - (length s.compressed + entry_overhead))
        (evictions + 1)) in
    let hit : Scan = record {
      slots = record s { last_used = tick } ∷ slots;
      memory = memory;
      evictions = evictions;
      hit = some s.compressed;
    } in
    if not s.valid
    then kept
    else if is_expired ttl now s
    then given_up
    else if has_key hash body_len s
    then hit
    else kept

abbrev pub after_scan : GzipCache → Scan → GzipCache × Option (List ℕ)
after_scan c scan =
    let swept : GzipCache = record c {
      entries = scan.slots;
      total_memory = scan.memory;
      eviction_count = scan.evictions;
    } in
    elim scan.hit [
      | none ↦ (record swept { miss_count = c.miss_count + 1 }, none)
      | some bytes ↦ (record swept { tick = c.tick + 1; hit_count = c.hit_count + 1 }, some bytes)
    ]

-- `uvhttp_gzip_cache_find`
unfoldable pub gzip_cache_find : GzipCache → ℕ → ℕ → ℕ → GzipCache × Option (List ℕ)
gzip_cache_find c now hash body_len = after_scan c (
    scan_slots c.cache_ttl now hash body_len (c.tick + 1) c.entries c.total_memory c.eviction_count)

-- The slot that `uvhttp_gzip_cache_put` updates in place: the first one in use with the key.
unfoldable pub slot_of_key : ℕ → ℕ → ℕ → List Slot → Option ℕ
slot_of_key i hash body_len [] = none
slot_of_key i hash body_len (s ∷ slots) =
    let later = slot_of_key (i + 1) hash body_len slots in
    if s.valid && has_key hash body_len s then some i else later

-- The first slot that is not in use.
unfoldable pub free_slot : ℕ → List Slot → Option ℕ
free_slot i [] = none
free_slot i (s ∷ slots) = let later = free_slot (i + 1) slots in if s.valid then later else some i

-- `while (total_memory + compressed_len > max_memory_usage && entry_count > 0)`; `none` is a loop
-- that does not end.
unfoldable pub evict_for_memory : ℕ → ℕ → GzipCache → Option GzipCache
evict_for_memory zero size c = none
evict_for_memory (suc fuel) size c =
    let rest = evict_for_memory fuel size (evict_one c) in
    if ltb c.max_memory_usage (c.total_memory + size) && ltb 0 (entry_count c.entries)
    then rest
    else some c

-- `while (entry_count >= limit)`
unfoldable pub evict_for_count : ℕ → ℕ → GzipCache → Option GzipCache
evict_for_count zero limit c = none
evict_for_count (suc fuel) limit c =
    let rest = evict_for_count fuel limit (evict_one c) in
    if leb limit (entry_count c.entries) then rest else some c

abbrev pub update_slot : GzipCache → ℕ → List ℕ → ℕ → GzipCache
update_slot c now bytes i =
    let s = get_or c.entries i zero_slot in
    record c {
      entries =
          set c.entries i
            (record s { compressed = bytes; stored_at = now; last_used = c.tick + 1 });
      total_memory =
          c.total_memory - (length s.compressed + entry_overhead) + (length bytes + entry_overhead);
      tick = c.tick + 1;
    }

abbrev pub fill_slot : GzipCache → ℕ → ℕ → ℕ → List ℕ → Option ℕ → GzipCache
fill_slot c now hash body_len bytes none = c
fill_slot c now hash body_len bytes (some i) = record c {
  entries = set c.entries i (record {
    hash = hash;
    body_len = body_len;
    compressed = bytes;
    valid = true;
    stored_at = now;
    last_used = c.tick + 1;
  });
  total_memory = c.total_memory + (length bytes + entry_overhead);
  tick = c.tick + 1;
}

-- The part of `uvhttp_gzip_cache_put` behind the eviction.
abbrev pub fill_after : ℕ → ℕ → ℕ → List ℕ → Option GzipCache → Option GzipCache
fill_after now hash body_len bytes none = none
fill_after now hash body_len bytes (some c) =
    some (fill_slot c now hash body_len bytes (free_slot 0 c.entries))

abbrev pub evict_count_after : Option GzipCache → Option GzipCache
evict_count_after none = none
evict_count_after (some c) = evict_for_count (suc (length c.entries)) c.max_entries c

abbrev pub insert : GzipCache → ℕ → ℕ → ℕ → List ℕ → Option GzipCache
insert c now hash body_len bytes =
    fill_after now hash body_len bytes
      (evict_count_after (evict_for_memory (suc (length c.entries)) (length bytes) c))

-- `uvhttp_gzip_cache_put` of the bytes of a compressed stream; `none` is a loop that does not end.
-- Each eviction empties a slot, so one round more than there are slots is enough.
unfoldable pub gzip_cache_put :
    GzipCache → ℕ → ℕ → ℕ → List ℕ → Option GzipCache × Result (Unit {0})
gzip_cache_put c now hash body_len bytes =
    if length bytes == 0
    then (some c, err invalid_param)
    else if ltb c.max_memory_usage (length bytes)
    then (some c, ok tt)
    else (
      elim (slot_of_key 0 hash body_len c.entries) [
        | some i ↦ some (update_slot c now bytes i)
        | none ↦ insert c now hash body_len bytes
      ],
      ok tt,
    )

-- `uvhttp_gzip_cache_set_max_entries`: `entry_count > max_entries` is a limit of one more.
unfoldable pub gzip_cache_set_max_entries : GzipCache → ℕ → Option GzipCache
gzip_cache_set_max_entries c max_entries =
    let entries =
      if ltb (length c.entries) max_entries
      then c.entries ++ zero_slots (max_entries - length c.entries)
      else c.entries in
    if max_entries == 0
    then some c
    else evict_for_count (suc (length entries)) (suc max_entries)
        (record c { entries = entries; max_entries = max_entries })

-- `uvhttp_gzip_cache_set_max_memory_usage`
unfoldable pub gzip_cache_set_max_memory_usage : GzipCache → ℕ → Option GzipCache
gzip_cache_set_max_memory_usage c max_memory_usage =
    if max_memory_usage == 0
    then some c
    else evict_for_memory (suc (length c.entries)) 0
        (record c { max_memory_usage = max_memory_usage })

-- `uvhttp_gzip_cache_set_cache_ttl`
unfoldable pub gzip_cache_set_cache_ttl : GzipCache → ℕ → GzipCache
gzip_cache_set_cache_ttl c cache_ttl = record c { cache_ttl = cache_ttl }

-- `uvhttp_gzip_cache_get_stats`: memory, entries, hits and misses.
unfoldable pub gzip_cache_get_stats : GzipCache → ℕ × ℕ × ℕ × ℕ
gzip_cache_get_stats c = (c.total_memory, entry_count c.entries, c.hit_count, c.miss_count)
