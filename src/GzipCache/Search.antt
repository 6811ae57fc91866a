-- ===== src/GzipCache/Search.antt =====
-- What the searches over the slots find.
use mathlib.Core.Option.{some-injective}
use uvhttp.Prelude.{
  ℕ, zero, suc, ◌+◌, ◌-◌, ◌<◌, Bool, true, false, not, ◌&&◌, List, [], ◌∷◌, none, some, ◌≡◌, refl,
  inl, inr, if◌then◌else◌, length, get_or, arith, Bool-cases, &&-true,
}
use uvhttp.GzipCache.{
  Slot, zero_slot, entry_overhead, entry_count, has_key, is_expired, slot_of_key, free_slot, Scan,
  scan_slots, release, behind,
}
use uvhttp.GzipCache.Eviction.{InUse}
use uvhttp.GzipCache.Invariant.{NoKey}

-- The first slot in use with a key.
pub record IsFirstKey (hash body_len : ℕ) (slots : List Slot) (k : ℕ) : Type 0 where
  pub inside : k < length slots
  pub in_use : InUse (get_or slots k zero_slot)
  pub key : has_key hash body_len (get_or slots k zero_slot) ≡ true
  pub before :
      (j : ℕ)
      → j < k
      → InUse (get_or slots j zero_slot)
      → has_key hash body_len (get_or slots j zero_slot) ≡ false

module _ (hash body_len : ℕ) where
  IsFirstKey-cons :
      (s : Slot) (slots : List Slot) (k : ℕ)
      → (InUse s → has_key hash body_len s ≡ false)
      → IsFirstKey hash body_len slots k
      → IsFirstKey hash body_len (s ∷ slots) (suc k)
  IsFirstKey-cons s slots k other f = record {
    inside = omega (arith, f.inside);
    in_use = f.in_use;
    key = f.key;
    before = earlier;
  }
    where
      earlier :
          (j : ℕ)
          → j < suc k
          → InUse (get_or (s ∷ slots) j zero_slot)
          → has_key hash body_len (get_or (s ∷ slots) j zero_slot) ≡ false
      earlier zero lt h = other h
      earlier (suc j) lt h = f.before j (omega arith) h

  pub slot_of_key-IsFirstKey :
      (i j : ℕ) (slots : List Slot)
      → slot_of_key i hash body_len slots ≡ some j
      → (k : ℕ) × (j ≡ i + k) × IsFirstKey hash body_len slots k
  unfolding slot_of_key
  slot_of_key-IsFirstKey i j [] e = absurd cc
  slot_of_key-IsFirstKey i j (s ∷ slots) e =
      elim (Bool-cases (s.valid && has_key hash body_len s)) [
        | inl hit ↦
            let (valid, key) = &&-true s.valid (has_key hash body_len s) hit in
            let here : i ≡ j = some-injective _ _ (rw hit at e) in
            (
              0,
              omega arith,
              record {
                inside = omega arith;
                in_use = valid;
                key = key;
                before = λ j lt. absurd (omega arith);
              },
            )
        | inr miss ↦
            let (k, at, first) = slot_of_key-IsFirstKey (i + 1) j slots (rw miss at e) in
            (suc k, omega arith, IsFirstKey-cons s slots k (λ valid. rw valid at miss) first)
      ]

  NoKey-cons :
      (s : Slot) (slots : List Slot)
      → (InUse s → has_key hash body_len s ≡ false)
      → NoKey hash body_len slots
      → NoKey hash body_len (s ∷ slots)
  NoKey-cons s slots other n zero h = other h
  NoKey-cons s slots other n (suc k) h = n k h

  pub slot_of_key-NoKey :
      (i : ℕ) (slots : List Slot)
      → slot_of_key i hash body_len slots ≡ none
      → NoKey hash body_len slots
  unfolding slot_of_key
  slot_of_key-NoKey i [] e k h = absurd cc
  slot_of_key-NoKey i (s ∷ slots) e k h = elim (Bool-cases (s.valid && has_key hash body_len s)) [
    | inl hit ↦ absurd (clash (rw hit at e))
    | inr miss ↦
        NoKey-cons s slots (λ valid. rw valid at miss)
          (slot_of_key-NoKey (i + 1) slots (rw miss at e)) k h
  ]
    where
      clash : some i ≡ none → ⊥
      clash x = cc

  -- The loop of a search hits the first slot in use with the key, if that is not expired.
  pub scan_slots-hit :
      (ttl now tick : ℕ) (slots : List Slot) (total evictions k : ℕ)
      → IsFirstKey hash body_len slots k
      → is_expired ttl now (get_or slots k zero_slot) ≡ false
      → (scan_slots ttl now hash body_len tick slots total evictions).hit
        ≡ some (get_or slots k zero_slot).compressed
  unfolding scan_slots
  scan_slots-hit ttl now tick [] total evictions k f fresh = absurd (omega (arith, f.inside))
  scan_slots-hit ttl now tick (s ∷ slots) total evictions zero f fresh =
      rw (f.in_use, fresh, f.key) refl
  scan_slots-hit ttl now tick (s ∷ slots) total evictions (suc k) f fresh =
      go s.valid (is_expired ttl now s) (has_key hash body_len s) (f.before 0 (omega arith)) _ _ _ _
        (scan_slots-hit ttl now tick slots total evictions k tail fresh)
        (scan_slots-hit ttl now tick slots (total - (length s.compressed + entry_overhead))
          (evictions + 1) k tail fresh)
    where
      tail : IsFirstKey hash body_len slots k
      tail = record {
        inside = omega (arith, f.inside);
        in_use = f.in_use;
        key = f.key;
        before = λ j lt. f.before (suc j) (omega arith);
      }

      go :
          (valid expired key : Bool)
          → (valid ≡ true → key ≡ false)
          → (a b h : Scan) (bytes : List ℕ) → a.hit ≡ some bytes
          → b.hit ≡ some bytes
          → (let r : Scan =
                if not valid
                then behind s a
                else if expired
                then behind (release s) b
                else if key
                then h
                else behind s a in
              r.hit ≡ some bytes)
      go false expired key n a b h bytes p q = p
      go true true key n a b h bytes p q = q
      go true false false n a b h bytes p q = p
      go true false true n a b h bytes p q = absurd (clash (n refl))
        where
          clash : true ≡ false → ⊥
          clash x = cc

pub free_slot-eq-some :
    (i j : ℕ) (slots : List Slot)
    → free_slot i slots ≡ some j
    → (k : ℕ) × (j ≡ i + k) × (k < length slots) × ((get_or slots k zero_slot).valid ≡ false)
unfolding free_slot
free_slot-eq-some i j [] e = absurd cc
free_slot-eq-some i j (s ∷ slots) e = elim (Bool-cases s.valid) [
  | inl taken ↦
      let (k, at, lt, off) = free_slot-eq-some (i + 1) j slots (rw taken at e) in
      (suc k, omega arith, omega arith, off)
  | inr free ↦
      let here : i ≡ j = some-injective _ _ (rw free at e) in (0, omega arith, omega arith, free)
]

pub free_slot-eq-none :
    (i : ℕ) (slots : List Slot) → free_slot i slots ≡ none → entry_count slots ≡ length slots
unfolding free_slot entry_count
free_slot-eq-none i [] e = refl
free_slot-eq-none i (s ∷ slots) e = ground (arith, free_slot-eq-none (i + 1) slots)
