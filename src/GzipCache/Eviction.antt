-- ===== src/GzipCache/Eviction.antt =====
-- Which entry is evicted, and that evicting ends.
use mathlib.Core.Option.{some-injective}
use uvhttp.Prelude.{
  ℕ, zero, suc, ◌+◌, ◌≤◌, ◌<◌, true, false, ◌&&◌, List, [], ◌∷◌, Option, none, some, ◌≡◌, refl, ap,
  subst, ◌⊎◌, inl, inr, length, get_or, arith, Bool-cases, Option-cases,
}
use uvhttp.GzipCache.{Slot, zero_slot, entry_count, is_older, victim_from}

-- A slot in use.
abbrev pub InUse : Slot → Type 0
InUse s = s.valid ≡ true

-- The slot `k` of `slots` is in use and was used last at `oldest`.
pub record IsAt (slots : List Slot) (k oldest : ℕ) : Type 0 where
  pub inside : k < length slots
  pub used : InUse (get_or slots k zero_slot)
  pub last : (get_or slots k zero_slot).last_used ≡ oldest

IsAt-cons :
    (s : Slot) (slots : List Slot) (k oldest : ℕ)
    → IsAt slots k oldest
    → IsAt (s ∷ slots) (suc k) oldest
IsAt-cons s slots k oldest a = record {
  inside = omega (arith, a.inside);
  used = a.used;
  last = a.last;
}

victim_from-IsAt :
    (i j oldest : ℕ) (best : Option (ℕ × ℕ)) (slots : List Slot)
    → victim_from i best slots ≡ some (j, oldest)
    → (best ≡ some (j, oldest)) ⊎ ((k : ℕ) × (j ≡ i + k) × IsAt slots k oldest)
unfolding victim_from
victim_from-IsAt i j oldest best [] e = inl e
victim_from-IsAt i j oldest best (s ∷ slots) e = elim (Bool-cases (s.valid && is_older s best)) [
  | inl taken ↦
      elim (victim_from-IsAt (i + 1) j oldest (some (i, s.last_used)) slots (rw taken at e)) [
        | inl here ↦
            let same : (◌≡◌ {A = ℕ × ℕ} (i, s.last_used) (j, oldest)) = some-injective _ _ here in
            inr (
              0,
              omega (arith, ap (λ (p : ℕ × ℕ). p.0) same),
              record {
                inside = omega arith;
                used = ground arith;
                last = ap (λ (p : ℕ × ℕ). p.1) same;
              },
            )
        | inr (k, at, is) ↦ inr (suc k, omega arith, IsAt-cons s slots k oldest is)
      ]
  | inr kept ↦ elim (victim_from-IsAt (i + 1) j oldest best slots (rw kept at e)) [
    | inl old ↦ inl old
    | inr (k, at, is) ↦ inr (suc k, omega arith, IsAt-cons s slots k oldest is)
  ]
]

-- Nothing in use was used before `oldest`.
abbrev pub NoneOlder : ℕ → List Slot → Type 0
NoneOlder oldest slots =
    (k : ℕ)
    → k < length slots
    → InUse (get_or slots k zero_slot)
    → oldest ≤ (get_or slots k zero_slot).last_used

abbrev NotAfter : ℕ → Option (ℕ × ℕ) → Type 0
NotAfter oldest none = Unit
NotAfter oldest (some (_, t)) = oldest ≤ t

NoneOlder-cons :
    (oldest : ℕ) (s : Slot) (slots : List Slot)
    → (InUse s → oldest ≤ s.last_used)
    → NoneOlder oldest slots
    → NoneOlder oldest (s ∷ slots)
NoneOlder-cons oldest s slots h k zero lt used = h used
NoneOlder-cons oldest s slots h k (suc i) lt used = k i (omega arith) used

victim_from-NoneOlder :
    (i j oldest : ℕ) (best : Option (ℕ × ℕ)) (slots : List Slot)
    → victim_from i best slots ≡ some (j, oldest)
    → NotAfter oldest best × NoneOlder oldest slots
unfolding victim_from
victim_from-NoneOlder i j oldest none [] e = (tt, λ k lt. absurd (omega arith))
victim_from-NoneOlder i j oldest (some (b, t)) [] e =
    (omega (arith, ap (λ (p : ℕ × ℕ). p.1) (some-injective _ _ e)), λ k lt. absurd (omega arith))
victim_from-NoneOlder i j oldest best (s ∷ slots) e =
    elim (Bool-cases (s.valid && is_older s best)) [
      | inl taken ↦
          let (here, later) =
            victim_from-NoneOlder (i + 1) j oldest (some (i, s.last_used)) slots (rw taken at e) in
          (before best (ground arith) here, NoneOlder-cons oldest s slots (λ used. here) later)
      | inr kept ↦
          let (old, later) = victim_from-NoneOlder (i + 1) j oldest best slots (rw kept at e) in
          (old, NoneOlder-cons oldest s slots (λ used. unless best old (ground arith)) later)
    ]
  where
    before : (b : Option (ℕ × ℕ)) → is_older s b ≡ true → oldest ≤ s.last_used → NotAfter oldest b
    before none o h = tt
    before (some (_, t)) o h = ground arith

    unless : (b : Option (ℕ × ℕ)) → NotAfter oldest b → is_older s b ≡ false → oldest ≤ s.last_used
    unless none h o = absurd cc
    unless (some (_, t)) h o = ground arith

victim_from-eq-none :
    (i : ℕ) (best : Option (ℕ × ℕ)) (slots : List Slot)
    → victim_from i best slots ≡ none
    → (best ≡ none) × (entry_count slots ≡ 0)
unfolding victim_from entry_count
victim_from-eq-none i best [] e = (e, refl)
victim_from-eq-none i best (s ∷ slots) e = elim (Bool-cases (s.valid && is_older s best)) [
  | inl taken ↦
      absurd (clash (victim_from-eq-none (i + 1) (some (i, s.last_used)) slots (rw taken at e)).0)
  | inr kept ↦
      let (old, rest) = victim_from-eq-none (i + 1) best slots (rw kept at e) in
      (old, ground (arith, rest, unused best old kept))
]
  where
    clash : {p : ℕ × ℕ} → some p ≡ none → ⊥
    clash e = cc

    unused : (b : Option (ℕ × ℕ)) → b ≡ none → (s.valid && is_older s b) ≡ false → s.valid ≡ false
    unused none o h = ground arith
    unused (some p) o h = absurd cc

-- The entry that is evicted is one in use, and none in use was used longer ago.
pub victim_from_oldest :
    (slots : List Slot) (j oldest : ℕ)
    → victim_from 0 none slots ≡ some (j, oldest)
    → IsAt slots j oldest × NoneOlder oldest slots
victim_from_oldest slots j oldest e = elim (victim_from-IsAt 0 j oldest none slots e) [
  | inl no_best ↦ absurd cc
  | inr (k, at, is) ↦ (
    subst (λ n. IsAt slots n oldest) (omega arith) is,
    (victim_from-NoneOlder 0 j oldest none slots e).1,
  )
]

-- Something is evicted where something is in use.
pub victim_from-some :
    (slots : List Slot) → 0 < entry_count slots → (p : ℕ × ℕ) × (victim_from 0 none slots ≡ some p)
victim_from-some slots pos = elim (Option-cases (victim_from 0 none slots)) [
  | inl nothing ↦ absurd (omega (arith, (victim_from-eq-none 0 none slots nothing).1))
  | inr found ↦ found
]
