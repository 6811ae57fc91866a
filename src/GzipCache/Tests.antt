-- ===== src/GzipCache/Tests.antt =====
-- Runs of src/uvhttp_gzip_cache.c on a small cache, and the theorems on it.
use uvhttp.Prelude.{true, List, [], ◌∷◌, none, some, ◌≡◌, refl, inr, arith}
use uvhttp.Error.{ok}
use uvhttp.GzipCache.{
  Slot, GzipCache, entry_count, victim_from, evict_one, evict_for_memory, evict_for_count,
  slot_of_key, free_slot, scan_slots, gzip_cache_create, gzip_cache_put, gzip_cache_find,
}
use uvhttp.GzipCache.Put.{IsCache}
use uvhttp.GzipCache.Stored.{gzip_cache_find-put}
use uvhttp.GzipCache.Reachable.{gzip_cache_put-IsCache, Reachable-IsCache, created, searched}

-- Two entries of three bytes at the times 5 and 2 of the clock.
abbrev two_slots : List Slot
two_slots =
    record {
      hash = 7;
      body_len = 9;
      compressed = 1 ∷ 2 ∷ 3 ∷ [];
      valid = true;
      stored_at = 100;
      last_used = 5;
    }
    ∷ record {
      hash = 8;
      body_len = 9;
      compressed = 4 ∷ 5 ∷ 6 ∷ [];
      valid = true;
      stored_at = 100;
      last_used = 2;
    }
    ∷ []

abbrev cache : GzipCache
cache = record {
  entries = two_slots;
  max_entries = 2;
  max_memory_usage = 1000;
  total_memory = 118;
  cache_ttl = 60;
  tick = 5;
  hit_count = 0;
  miss_count = 0;
  eviction_count = 0;
}

cache-IsCache : IsCache cache
unfolding entry_count
cache-IsCache = record {
  accounted = refl;
  counted = omega arith;
  capacity = omega arith;
  positive = omega arith;
}

victim : victim_from 0 none two_slots ≡ some (1, 2)
unfolding victim_from
victim = refl

-- The entry used longest ago makes room for a third one, which is found.
third_found :
    (elim (gzip_cache_put cache 130 1 1 (0 ∷ [])).0 [
      | none ↦ none
      | some c ↦ (gzip_cache_find c 140 1 1).1
    ])
    ≡ some (0 ∷ [])
unfolding gzip_cache_put gzip_cache_find slot_of_key evict_for_memory evict_for_count evict_one
    victim_from entry_count free_slot scan_slots
third_found = refl

gzip_cache_find-put_example :
    (c' : GzipCache) × (gzip_cache_put cache 130 1 1 (0 ∷ []) ≡ (some c', ok tt))
    × ((gzip_cache_find c' 140 1 1).1 ≡ some (0 ∷ []))
gzip_cache_find-put_example =
    gzip_cache_find-put cache 130 140 1 1 (0 ∷ []) cache-IsCache (omega arith) (omega arith)
      (inr (omega arith))

gzip_cache_put-IsCache_example :
    (c' : GzipCache) × ((gzip_cache_put cache 130 1 1 (0 ∷ [])).0 ≡ some c') × IsCache c'
gzip_cache_put-IsCache_example = gzip_cache_put-IsCache cache 130 1 1 (0 ∷ []) cache-IsCache

Reachable-IsCache_example : IsCache (gzip_cache_find (gzip_cache_create 0 0 60) 200 8 9).0
Reachable-IsCache_example = Reachable-IsCache (searched 200 8 9 (created 0 0 60))
