-- ===== src/GzipCache/Limits.antt =====
-- Creating and clearing a cache and setting its limits: each ends and gives a well-formed cache.
use uvhttp.Prelude.{
  ℕ, zero, suc, ◌-◌, ◌≤◌, false, List, [], ◌∷◌, ◌++◌, some, ◌≡◌, refl, ap, sym, ◌∙◌, ◌⊎◌, inl, inr,
  if◌then◌else◌, ltb, ◌==◌, length, arith, Bool-cases, length-append,
}
use uvhttp.GzipCache.{
  Slot, zero_slots, GzipCache, entry_count, evict_for_count, release_all, gzip_cache_create,
  gzip_cache_clear, gzip_cache_set_max_entries, gzip_cache_set_max_memory_usage,
}
use uvhttp.GzipCache.Invariant.{
  memory, entry_count-le, evict_for_memory-Shrinks, evict_for_count-Shrinks,
}
use uvhttp.GzipCache.Put.{IsCache}

memory-zero_slots : (slots : List Slot) (n : ℕ) → memory (slots ++ zero_slots n) ≡ memory slots
memory-zero_slots [] zero = refl
memory-zero_slots [] (suc n) = omega (arith, memory-zero_slots [] n)
memory-zero_slots (s ∷ slots) n = omega (arith, memory-zero_slots slots n)

entry_count-zero_slots :
    (slots : List Slot) (n : ℕ) → entry_count (slots ++ zero_slots n) ≡ entry_count slots
unfolding entry_count
entry_count-zero_slots [] zero = refl
entry_count-zero_slots [] (suc n) = omega (arith, entry_count-zero_slots [] n)
entry_count-zero_slots (s ∷ slots) n = omega (arith, entry_count-zero_slots slots n)

no_entries : (n : ℕ) → entry_count (zero_slots n) ≡ 0
unfolding entry_count
no_entries zero = refl
no_entries (suc n) = omega (arith, no_entries n)

length-zero_slots : (n : ℕ) → length (zero_slots n) ≡ n
length-zero_slots zero = refl
length-zero_slots (suc n) = ap suc (length-zero_slots n)

-- A new cache is well formed.
pub gzip_cache_create-IsCache :
    (max_memory_usage max_entries cache_ttl : ℕ)
    → IsCache (gzip_cache_create max_memory_usage max_entries cache_ttl)
unfolding gzip_cache_create
gzip_cache_create-IsCache max_memory_usage max_entries cache_ttl =
    go (if max_entries == 0 then 64 else max_entries) (ground arith)
      (if max_memory_usage == 0 then 1048576 else max_memory_usage)
  where
    go :
        (n : ℕ)
        → 1 ≤ n
        → (budget : ℕ)
        → IsCache (record {
          entries = zero_slots n;
          max_entries = n;
          max_memory_usage = budget;
          total_memory = 0;
          cache_ttl = cache_ttl;
          tick = 0;
          hit_count = 0;
          miss_count = 0;
          eviction_count = 0;
        })
    go n pos budget = record {
      accounted = sym (memory-zero_slots [] n);
      counted = omega (arith, no_entries n);
      capacity = omega (arith, length-zero_slots n);
      positive = pos;
    }

released :
    (slots : List Slot)
    → (memory (release_all slots) ≡ 0)
      × (entry_count (release_all slots) ≡ 0)
      × (length (release_all slots) ≡ length slots)
unfolding entry_count
released [] = (refl, refl, refl)
released (s ∷ slots) =
    let (m, n, l) = released slots in (omega (arith, m), omega (arith, n), omega (arith, l))

-- A cache that has been cleared is well formed.
pub gzip_cache_clear-IsCache : (c : GzipCache) → IsCache c → IsCache (gzip_cache_clear c)
unfolding gzip_cache_clear
gzip_cache_clear-IsCache c v =
    let (m, n, l) = released c.entries in
    record {
      accounted = omega (arith, m);
      counted = omega (arith, n);
      capacity = omega (arith, l, v.capacity);
      positive = v.positive;
    }

-- Setting a limit of entries that is not 0 ends; the cache is well formed, with that limit.
pub gzip_cache_set_max_entries-IsCache :
    (c : GzipCache) (n : ℕ)
    → IsCache c
    → 1 ≤ n
    → (c' : GzipCache) × (gzip_cache_set_max_entries c n ≡ some c')
      × IsCache c'
      × (c'.max_entries ≡ n)
unfolding gzip_cache_set_max_entries
gzip_cache_set_max_entries-IsCache c n v pos =
    let some_limit : (n == 0) ≡ false = ground arith in
    rw some_limit (elim (Bool-cases (ltb (length c.entries) n)) [
      | inl larger ↦ rw larger (
          go (c.entries ++ zero_slots (n - length c.entries))
            (memory-zero_slots c.entries (n - length c.entries))
            (omega (
              arith,
              length-append c.entries (zero_slots (n - length c.entries)),
              length-zero_slots (n - length c.entries),
            )))
      | inr enough ↦ rw enough (go c.entries refl (ground arith))
    ])
  where
    go :
        (entries : List Slot)
        → memory entries ≡ memory c.entries
        → n ≤ length entries
        → (c' : GzipCache) × (evict_for_count
              (suc (length entries))
              (suc n)
              (record c { entries = entries; max_entries = n })
            ≡ some c')
          × IsCache c'
          × (c'.max_entries ≡ n)
    go entries same room =
        let (c', e, s, less) =
          evict_for_count-Shrinks (suc (length entries)) (suc n)
            (record c { entries = entries; max_entries = n }) (v.accounted ∙ sym same)
            (omega (arith, entry_count-le entries)) (omega arith) in
        (
          c',
          e,
          record {
            accounted = s.accounted;
            counted = omega (arith, less, s.limit);
            capacity = omega (arith, s.limit, s.capacity);
            positive = omega (arith, s.limit);
          },
          s.limit,
        )

-- Setting a memory budget that is not 0 ends; the cache is well formed, with that budget, and its
-- memory in use is within the budget or nothing is in use.
pub gzip_cache_set_max_memory_usage-IsCache :
    (c : GzipCache) (budget : ℕ)
    → IsCache c
    → 1 ≤ budget
    → (c' : GzipCache) × (gzip_cache_set_max_memory_usage c budget ≡ some c')
      × IsCache c'
      × (c'.max_memory_usage ≡ budget)
      × ((c'.total_memory ≤ budget) ⊎ (entry_count c'.entries ≡ 0))
unfolding gzip_cache_set_max_memory_usage
gzip_cache_set_max_memory_usage-IsCache c budget v pos =
    let (c', e, s, done) =
      evict_for_memory-Shrinks (suc (length c.entries)) 0 (record c { max_memory_usage = budget })
        v.accounted (omega (arith, entry_count-le c.entries)) in
    let some_budget : (budget == 0) ≡ false = ground arith in
    (
      c',
      rw some_budget e,
      record {
        accounted = s.accounted;
        counted = omega (arith, s.fewer, s.limit, v.counted);
        capacity = omega (arith, s.limit, s.capacity, v.capacity);
        positive = omega (arith, s.limit, v.positive);
      },
      s.budget,
      ground (arith, s.budget),
    )
