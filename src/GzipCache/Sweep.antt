-- ===== src/GzipCache/Sweep.antt =====
-- Searching the cache keeps its accounts, while expired entries are removed.
use uvhttp.Prelude.{
  ℕ, ◌+◌, ◌-◌, ◌≤◌, Bool, true, false, not, List, [], ◌∷◌, Option, none, some, ◌≡◌, refl,
  if◌then◌else◌, length, arith,
}
use uvhttp.GzipCache.{
  Slot, GzipCache, entry_overhead, entry_count, has_key, is_expired, release, behind,
  gzip_cache_find, scan_slots, Scan, after_scan,
}
use uvhttp.GzipCache.Invariant.{memory, slot_size}
use uvhttp.GzipCache.Put.{IsCache}

-- A search over slots that take `total - rest` bytes.
record Sweeps (slots : List Slot) (rest : ℕ) (scan : Scan) : Type 0 where
  total : scan.memory ≡ memory scan.slots + rest
  same_length : length scan.slots ≡ length slots
  fewer : entry_count scan.slots ≤ entry_count slots

Sweeps-behind :
    (s s' : Slot) (slots : List Slot) (rest : ℕ) (scan : Scan)
    → (if s'.valid then 1 else 0) ≤ (if s.valid then 1 else 0)
    → Sweeps slots (slot_size s' + rest) scan
    → Sweeps (s ∷ slots) rest (behind s' scan)
unfolding entry_count
Sweeps-behind s s' slots rest scan h w = record {
  total = omega (arith, w.total);
  same_length = omega (arith, w.same_length);
  fewer = omega (arith, w.fewer);
}

scan_slots-Sweeps :
    (ttl now hash body_len tick : ℕ) (slots : List Slot) (total evictions rest : ℕ)
    → total ≡ memory slots + rest
    → Sweeps slots rest (scan_slots ttl now hash body_len tick slots total evictions)
unfolding scan_slots entry_count
scan_slots-Sweeps ttl now hash body_len tick [] total evictions rest e = record {
  total = e;
  same_length = refl;
  fewer = omega arith;
}
scan_slots-Sweeps ttl now hash body_len tick (s ∷ slots) total evictions rest e =
    go s.valid refl (is_expired ttl now s) (has_key hash body_len s)
      (scan_slots-Sweeps ttl now hash body_len tick slots total evictions (slot_size s + rest)
        (omega arith))
      (λ taken.
        scan_slots-Sweeps ttl now hash body_len tick slots
          (total - (length s.compressed + entry_overhead)) (evictions + 1) (0 + rest) (freed taken))
  where
    freed :
        s.valid ≡ true → total - (length s.compressed + entry_overhead) ≡ memory slots + (0 + rest)
    freed taken =
        let size : slot_size s ≡ length s.compressed + entry_overhead = rw taken refl in
        omega (arith, e, size)

    hit : Scan
    hit = record {
      slots = record s { last_used = tick } ∷ slots;
      memory = total;
      evictions = evictions;
      hit = some s.compressed;
    }

    go :
        (valid : Bool)
        → s.valid ≡ valid
        → (expired key : Bool)
        → Sweeps slots
            (slot_size s + rest)
            (scan_slots ttl now hash body_len tick slots total evictions)
        → (s.valid ≡ true
            → Sweeps slots (0 + rest) (
                scan_slots ttl now hash body_len tick slots
                  (total - (length s.compressed + entry_overhead))
                  (evictions + 1)))
        → Sweeps (s ∷ slots) rest (
            if not valid
            then behind s (scan_slots ttl now hash body_len tick slots total evictions)
            else if expired
            then behind (release s) (
                scan_slots ttl now hash body_len tick slots
                  (total - (length s.compressed + entry_overhead))
                  (evictions + 1))
            else if key
            then hit
            else behind s (scan_slots ttl now hash body_len tick slots total evictions))
    go false v expired key keep free = Sweeps-behind s s slots rest _ (omega arith) keep
    go true v true key keep free = Sweeps-behind s (release s) slots rest _ (omega arith) (free v)
    go true v false false keep free = Sweeps-behind s s slots rest _ (omega arith) keep
    go true v false true keep free = record { total = e; same_length = refl; fewer = omega arith }

-- A search keeps a cache well formed, also where it removes expired entries.
pub gzip_cache_find-IsCache :
    (c : GzipCache) (now hash body_len : ℕ)
    → IsCache c
    → IsCache (gzip_cache_find c now hash body_len).0
unfolding gzip_cache_find
gzip_cache_find-IsCache c now hash body_len v =
    go
      (scan_slots c.cache_ttl now hash body_len (c.tick + 1) c.entries c.total_memory
        c.eviction_count)
      (scan_slots-Sweeps c.cache_ttl now hash body_len (c.tick + 1) c.entries c.total_memory
        c.eviction_count 0 (omega (arith, v.accounted)))
  where
    by_hit :
        (hit : Option (List ℕ)) (slots : List Slot) (total evictions : ℕ)
        → Sweeps c.entries 0
            (record { slots = slots; memory = total; evictions = evictions; hit = hit })
        → IsCache
            (after_scan c
              (record { slots = slots; memory = total; evictions = evictions; hit = hit })).0
    by_hit none slots total evictions w = record {
      accounted = omega (arith, w.total);
      counted = omega (arith, w.fewer, v.counted);
      capacity = omega (arith, w.same_length, v.capacity);
      positive = v.positive;
    }
    by_hit (some bytes) slots total evictions w = record {
      accounted = omega (arith, w.total);
      counted = omega (arith, w.fewer, v.counted);
      capacity = omega (arith, w.same_length, v.capacity);
      positive = v.positive;
    }

    go : (scan : Scan) → Sweeps c.entries 0 scan → IsCache (after_scan c scan).0
    go scan w = by_hit scan.hit scan.slots scan.memory scan.evictions w
