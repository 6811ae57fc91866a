-- ===== src/GzipCache/Stored.antt =====
-- Storing in the cache ends and keeps it well formed, and what has been stored is found.
use uvhttp.Prelude.{
  ℕ, suc, ◌+◌, ◌-◌, ◌≤◌, ◌<◌, false, List, Option, none, some, ◌≡◌, refl, ap, subst, ◌∙◌, ◌⊎◌, inl,
  inr, ltb, ◌==◌, length, arith, Option-cases,
}
use uvhttp.Error.{ok}
use uvhttp.GzipCache.{
  zero_slot, GzipCache, entry_count, is_expired, slot_of_key, free_slot, update_slot, fill_slot,
  fill_after, evict_count_after, insert, gzip_cache_put, gzip_cache_find, scan_slots, Scan,
  after_scan,
}
use uvhttp.GzipCache.Invariant.{
  entry_count-le, NoKey, Shrinks-trans, evict_for_memory-Shrinks, evict_for_count-Shrinks,
}
use uvhttp.GzipCache.Search.{
  IsFirstKey, slot_of_key-IsFirstKey, slot_of_key-NoKey, scan_slots-hit, free_slot-eq-some,
  free_slot-eq-none,
}
use uvhttp.GzipCache.Put.{IsCache, Holds, filled, filled-IsCache, updated}

-- A cache after bytes have been stored: well formed, the bytes under their key, the TTL unchanged.
pub record Kept (c c' : GzipCache) (now hash body_len : ℕ) (bytes : List ℕ) : Type 0 where
  pub well_formed : IsCache c'
  pub holds : Holds c' now hash body_len bytes
  pub ttl : c'.cache_ttl ≡ c.cache_ttl

module _ (c : GzipCache) (now hash body_len : ℕ) (bytes : List ℕ) (v : IsCache c) where
  -- Room is made and a free slot is filled.
  insert-Kept :
      NoKey hash body_len c.entries
      → (c' : GzipCache) × (insert c now hash body_len bytes ≡ some c')
        × Kept c c' now hash body_len bytes
  insert-Kept unknown =
      let (a, e, s, _) =
        evict_for_memory-Shrinks (suc (length c.entries)) (length bytes) c v.accounted
          (omega (arith, entry_count-le c.entries)) in
      let (b, e', t, room) =
        evict_for_count-Shrinks (suc (length a.entries)) a.max_entries a s.accounted
          (omega (arith, entry_count-le a.entries)) (omega (arith, s.limit, v.positive)) in
      let w = Shrinks-trans s t in
      let less : entry_count b.entries < b.max_entries = omega (arith, t.limit) in
      let fits : b.max_entries ≤ length b.entries =
        omega (arith, w.limit, w.capacity, v.capacity) in
      elim (Option-cases (free_slot 0 b.entries)) [
        | inl full ↦ absurd (omega (arith, free_slot-eq-none 0 b.entries full))
        | inr (j, found) ↦
            let (k, at, lt, free) = free_slot-eq-some 0 j b.entries found in
            let here : j ≡ k = omega arith in
            (
              fill_slot b now hash body_len bytes (some k),
              ap (λ r. fill_after now hash body_len bytes (evict_count_after r)) e
                  ∙ ap (fill_after now hash body_len bytes) e'
                  ∙ ap (λ r. some (fill_slot b now hash body_len bytes r)) (found ∙ ap some here),
              record {
                well_formed =
                    filled-IsCache b now hash body_len bytes k lt free t.accounted less fits;
                holds = filled b now hash body_len bytes k lt (w.no_key hash body_len unknown);
                ttl = w.ttl;
              },
            )
      ]

  stored_or_inserted :
      (slot : Option ℕ)
      → slot_of_key 0 hash body_len c.entries ≡ slot
      → (c' : GzipCache) × ((elim slot [
        | some i ↦ some (update_slot c now bytes i)
        | none ↦ insert c now hash body_len bytes
      ])
          ≡ some c')
        × Kept c c' now hash body_len bytes
  stored_or_inserted none e = insert-Kept (slot_of_key-NoKey hash body_len 0 c.entries e)
  stored_or_inserted (some i) e =
      let (k, at, first) = slot_of_key-IsFirstKey hash body_len 0 i c.entries e in
      let here : k ≡ i = omega arith in
      let (w, h) =
        updated c now hash body_len bytes i v
          (subst (IsFirstKey hash body_len c.entries) here first) in
      (update_slot c now bytes i, refl, record { well_formed = w; holds = h; ttl = refl })

  -- Storing bytes that are not empty and fit the whole budget ends, with success; the cache is well
  -- formed again, and its first entry with the key holds the bytes.
  pub gzip_cache_put-Kept :
      0 < length bytes
      → length bytes ≤ c.max_memory_usage
      → (c' : GzipCache) × (gzip_cache_put c now hash body_len bytes ≡ (some c', ok tt))
        × Kept c c' now hash body_len bytes
  unfolding gzip_cache_put
  gzip_cache_put-Kept pos fits =
      let (c', e, k) = stored_or_inserted (slot_of_key 0 hash body_len c.entries) refl in
      let some_bytes : (length bytes == 0) ≡ false = ground arith in
      let small : ltb c.max_memory_usage (length bytes) ≡ false = ground arith in
      (c', rw (some_bytes, small) (ap (λ r. (r, ok tt)) e), k)

after_scan-hit :
    (c : GzipCache) (scan : Scan) (bytes : List ℕ)
    → scan.hit ≡ some bytes
    → (after_scan c scan).1 ≡ some bytes
after_scan-hit c scan bytes e = rw e refl

find-Holds :
    (c : GzipCache) (now later hash body_len : ℕ) (bytes : List ℕ)
    → Holds c now hash body_len bytes
    → is_expired c.cache_ttl later (record zero_slot { stored_at = now }) ≡ false
    → (gzip_cache_find c later hash body_len).1 ≡ some bytes
unfolding gzip_cache_find
find-Holds c now later hash body_len bytes h fresh =
    after_scan-hit c
      (scan_slots c.cache_ttl later hash body_len (c.tick + 1) c.entries c.total_memory
        c.eviction_count)
      bytes
      (scan_slots-hit hash body_len c.cache_ttl later (c.tick + 1) c.entries c.total_memory
          c.eviction_count h.slot h.first (rw h.time fresh)
        ∙ ap some h.content)

-- What has been stored in a well-formed cache, not empty and within the whole budget, is found under
-- its key as long as its TTL has not run out.
pub gzip_cache_find-put :
    (c : GzipCache) (now later hash body_len : ℕ) (bytes : List ℕ)
    → IsCache c
    → 0 < length bytes
    → length bytes ≤ c.max_memory_usage
    → (c.cache_ttl ≡ 0) ⊎ (later - now ≤ c.cache_ttl)
    → (c' : GzipCache) × (gzip_cache_put c now hash body_len bytes ≡ (some c', ok tt))
      × ((gzip_cache_find c' later hash body_len).1 ≡ some bytes)
gzip_cache_find-put c now later hash body_len bytes v pos fits fresh =
    let (c', e, k) = gzip_cache_put-Kept c now hash body_len bytes v pos fits in
    (c', e, find-Holds c' now later hash body_len bytes k.holds (ground (arith, k.ttl)))
