-- ===== src/GzipCache/Invariant.antt =====
-- What every operation of the cache keeps: the memory in use is what the entries in use take, their
-- number is within the limit, and the limit within the slots.
use uvhttp.Prelude.{
  ℕ, zero, suc, ◌+◌, ◌≤◌, ◌<◌, true, false, ◌&&◌, List, [], ◌∷◌, some, ◌≡◌, refl, ap, sym, ◌∙◌, ◌⊎◌,
  inl, inr, if◌then◌else◌, ltb, leb, length, get_or, set, length-set, get_or-set, arith, Bool-cases,
}
use uvhttp.GzipCache.{
  Slot, zero_slot, GzipCache, entry_overhead, entry_count, release, evict_at, evict_one, has_key,
  evict_for_memory, evict_for_count,
}
use uvhttp.GzipCache.Eviction.{InUse, IsAt, victim_from_oldest, victim_from-some}

-- What a slot takes, and all slots.
abbrev pub slot_size : Slot → ℕ
slot_size s = if s.valid then length s.compressed + entry_overhead else 0

abbrev pub memory : List Slot → ℕ
memory [] = 0
memory (s ∷ slots) = slot_size s + memory slots

abbrev pub used : Slot → ℕ
used s = if s.valid then 1 else 0

pub memory-set :
    (slots : List Slot) (i : ℕ) (v : Slot)
    → i < length slots
    → memory (set slots i v) + slot_size (get_or slots i zero_slot) ≡ memory slots + slot_size v
memory-set [] i v h = absurd (omega arith)
memory-set (s ∷ slots) zero v h = omega arith
memory-set (s ∷ slots) (suc i) v h = omega (arith, memory-set slots i v (omega arith))

pub entry_count-set :
    (slots : List Slot) (i : ℕ) (v : Slot)
    → i < length slots
    → entry_count (set slots i v) + used (get_or slots i zero_slot) ≡ entry_count slots + used v
unfolding entry_count
entry_count-set [] i v h = absurd (omega arith)
entry_count-set (s ∷ slots) zero v h = omega arith
entry_count-set (s ∷ slots) (suc i) v h = omega (arith, entry_count-set slots i v (omega arith))

pub entry_count-le : (slots : List Slot) → entry_count slots ≤ length slots
unfolding entry_count
entry_count-le [] = omega arith
entry_count-le (s ∷ slots) = ground (arith, entry_count-le slots)

-- No entry in use has the key.
abbrev pub NoKey : ℕ → ℕ → List Slot → Type 0
NoKey hash body_len slots =
    (k : ℕ)
    → InUse (get_or slots k zero_slot)
    → has_key hash body_len (get_or slots k zero_slot) ≡ false

-- Evictions of `n` entries.
pub record Shrinks (c c' : GzipCache) : Type 0 where
  pub accounted : c'.total_memory ≡ memory c'.entries
  pub fewer : entry_count c'.entries ≤ entry_count c.entries
  pub capacity : length c'.entries ≡ length c.entries
  pub limit : c'.max_entries ≡ c.max_entries
  pub budget : c'.max_memory_usage ≡ c.max_memory_usage
  pub ttl : c'.cache_ttl ≡ c.cache_ttl
  pub no_key : (hash body_len : ℕ) → NoKey hash body_len c.entries → NoKey hash body_len c'.entries

Shrinks-refl : (c : GzipCache) → c.total_memory ≡ memory c.entries → Shrinks c c
Shrinks-refl c a = record {
  accounted = a;
  fewer = omega arith;
  capacity = refl;
  limit = refl;
  budget = refl;
  ttl = refl;
  no_key = λ h b n. n;
}

pub Shrinks-trans : {a b c : GzipCache} → Shrinks a b → Shrinks b c → Shrinks a c
Shrinks-trans s t = record {
  accounted = t.accounted;
  fewer = omega (arith, s.fewer, t.fewer);
  capacity = t.capacity ∙ s.capacity;
  limit = t.limit ∙ s.limit;
  budget = t.budget ∙ s.budget;
  ttl = t.ttl ∙ s.ttl;
  no_key = λ h b n. t.no_key h b (s.no_key h b n);
}

NoKey-set :
    (hash body_len : ℕ) (slots : List Slot) (i : ℕ) (v : Slot)
    → v.valid ≡ false
    → NoKey hash body_len slots
    → NoKey hash body_len (set slots i v)
NoKey-set hash body_len slots i v off n k in_use = elim (get_or-set slots i k v zero_slot) [
  | inl same ↦
      ap (has_key hash body_len) same ∙ n k (ap (λ (s : Slot). s.valid) (sym same) ∙ in_use)
  | inr (_, _, new) ↦ absurd (clash (sym off ∙ ap (λ (s : Slot). s.valid) (sym new) ∙ in_use))
]
  where
    clash : false ≡ true → ⊥
    clash e = cc

evict_at-Shrinks :
    (c : GzipCache) (i oldest : ℕ)
    → c.total_memory ≡ memory c.entries
    → IsAt c.entries i oldest
    → Shrinks c (evict_at c (some (i, oldest)))
      × (entry_count (evict_at c (some (i, oldest))).entries < entry_count c.entries)
evict_at-Shrinks c i oldest a at =
    let s = get_or c.entries i zero_slot in
    let m = memory-set c.entries i (release s) at.inside in
    let n = entry_count-set c.entries i (release s) at.inside in
    let size : slot_size s ≡ length s.compressed + entry_overhead = rw at.used refl in
    let one : used s ≡ 1 = rw at.used refl in
    (
      record {
        accounted = omega (arith, a, m, size);
        fewer = omega (arith, n, one);
        capacity = length-set c.entries i (release s);
        limit = refl;
        budget = refl;
        ttl = refl;
        no_key = λ h b none_of. NoKey-set h b c.entries i (release s) refl none_of;
      },
      omega (arith, n, one),
    )

-- Evicting one entry, where one is in use.
pub evict_one-Shrinks :
    (c : GzipCache)
    → c.total_memory ≡ memory c.entries
    → 0 < entry_count c.entries
    → Shrinks c (evict_one c) × (entry_count (evict_one c).entries < entry_count c.entries)
unfolding evict_one
evict_one-Shrinks c a pos =
    let ((i, oldest), found) = victim_from-some c.entries pos in
    rw found (evict_at-Shrinks c i oldest a (victim_from_oldest c.entries i oldest found).0)

-- With a round more than there are entries in use the loop for the memory ends: the new bytes fit
-- the budget, or nothing is in use.
pub evict_for_memory-Shrinks :
    (fuel size : ℕ) (c : GzipCache)
    → c.total_memory ≡ memory c.entries
    → entry_count c.entries < fuel
    → (c' : GzipCache) × (evict_for_memory fuel size c ≡ some c')
      × Shrinks c c'
      × ((c'.total_memory + size ≤ c'.max_memory_usage) ⊎ (entry_count c'.entries ≡ 0))
unfolding evict_for_memory
evict_for_memory-Shrinks zero size c a lt = absurd (omega arith)
evict_for_memory-Shrinks (suc fuel) size c a lt =
    elim (Bool-cases
      (ltb c.max_memory_usage (c.total_memory + size) && ltb 0 (entry_count c.entries))) [
        | inl full ↦
            let (s, smaller) = evict_one-Shrinks c a (ground arith) in
            let (c', e, t, done) =
              evict_for_memory-Shrinks fuel size (evict_one c) s.accounted (omega arith) in
            (c', rw full e, Shrinks-trans s t, done)
        | inr room ↦ (c, rw room refl, Shrinks-refl c a, ground arith)
      ]

-- With a round more than there are entries in use the loop for the count ends below a limit that is
-- not 0.
pub evict_for_count-Shrinks :
    (fuel limit : ℕ) (c : GzipCache)
    → c.total_memory ≡ memory c.entries
    → entry_count c.entries < fuel
    → 1 ≤ limit
    → (c' : GzipCache) × (evict_for_count fuel limit c ≡ some c')
      × Shrinks c c'
      × (entry_count c'.entries < limit)
unfolding evict_for_count
evict_for_count-Shrinks zero limit c a lt pos = absurd (omega arith)
evict_for_count-Shrinks (suc fuel) limit c a lt pos =
    elim (Bool-cases (leb limit (entry_count c.entries))) [
      | inl full ↦
          let (s, smaller) = evict_one-Shrinks c a (ground arith) in
          let (c', e, t, done) =
            evict_for_count-Shrinks fuel limit (evict_one c) s.accounted (omega arith) pos in
          (c', rw full e, Shrinks-trans s t, done)
      | inr room ↦ (c, rw room refl, Shrinks-refl c a, ground arith)
    ]
