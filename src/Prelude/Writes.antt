-- ===== src/Prelude/Writes.antt =====
-- Lists with written entries: what is read where.
use Prim.Native.Nat.{ℕ, zero, suc, ◌≤◌, ◌<◌}
use mathlib.Core.Path.{◌≡◌, refl, ap, sym, subst, ◌∙◌}
use mathlib.Core.Logic.{◌≢◌, ◌⊎◌, inl, inr}
use mathlib.Core.List.{List, [], ◌∷◌, ◌++◌}
use native.Mathlib.Omega.{arith}
use native.Mathlib.Decide.{dec_lt, ℕ_discrete}
use uvhttp.Prelude.Lists.{length, get_or, set, length-append}

module _ {ℓ} {A : Type ℓ} where
  pub length-set : (xs : List A) (i : ℕ) (v : A) → length (set xs i v) ≡ length xs
  length-set [] i v = refl
  length-set (x ∷ xs) zero v = refl
  length-set (x ∷ xs) (suc i) v = ap suc (length-set xs i v)

  pub get_or-set_self :
      (xs : List A) (i : ℕ) (v d : A) → i < length xs → get_or (set xs i v) i d ≡ v
  get_or-set_self [] i v d h = elim h [ ]
  get_or-set_self (x ∷ xs) zero v d h = refl
  get_or-set_self (x ∷ xs) (suc i) v d h = get_or-set_self xs i v d (omega arith)

  pub get_or-set_ne :
      (xs : List A) (i j : ℕ) (v d : A) → i ≢ j → get_or (set xs i v) j d ≡ get_or xs j d
  get_or-set_ne [] i j v d h = refl
  get_or-set_ne (x ∷ xs) zero zero v d h = absurd (h refl)
  get_or-set_ne (x ∷ xs) zero (suc j) v d h = refl
  get_or-set_ne (x ∷ xs) (suc i) zero v d h = refl
  get_or-set_ne (x ∷ xs) (suc i) (suc j) v d h = get_or-set_ne xs i j v d (λ e. h (ap suc e))

  pub get_or-append_left :
      (xs ys : List A) (i : ℕ) (d : A) → i < length xs → get_or (xs ++ ys) i d ≡ get_or xs i d
  get_or-append_left [] ys i d h = elim h [ ]
  get_or-append_left (x ∷ xs) ys zero d h = refl
  get_or-append_left (x ∷ xs) ys (suc i) d h = get_or-append_left xs ys i d (omega arith)

  pub get_or-append_end : (xs : List A) (y d : A) → get_or (xs ++ y ∷ []) (length xs) d ≡ y
  get_or-append_end [] y d = refl
  get_or-append_end (x ∷ xs) y d = get_or-append_end xs y d

  pub get_or_beyond : (xs : List A) (i : ℕ) (d : A) → length xs ≤ i → get_or xs i d ≡ d
  get_or_beyond [] i d h = refl
  get_or_beyond (x ∷ xs) zero d h = absurd (omega arith)
  get_or_beyond (x ∷ xs) (suc i) d h = get_or_beyond xs i d (omega arith)

-- Where a written list is read.
pub get_or-set {ℓ} :
    {A : Type ℓ} (xs : List A) (i j : ℕ) (v d : A)
    → (get_or (set xs i v) j d ≡ get_or xs j d)
      ⊎ ((i ≡ j) × (j < length xs) × (get_or (set xs i v) j d ≡ v))
get_or-set xs i j v d = elim (ℕ_discrete i j) [
  | no ne ↦ inl (get_or-set_ne xs i j v d ne)
  | yes eq ↦ elim (dec_lt j (length xs)) [
    | yes lt ↦
        inr
          (eq, lt, subst (λ k. get_or (set xs k v) j d ≡ v) (sym eq) (get_or-set_self xs j v d lt))
    | no ge ↦ inl (
        get_or_beyond (set xs i v) j d (omega (arith, length-set xs i v))
        ∙ sym (get_or_beyond xs j d (omega arith)))
  ]
]

-- Where a list that grew at its end is read.
pub get_or-snoc {ℓ} :
    {A : Type ℓ} (xs : List A) (y d : A) (j : ℕ)
    → ((j < length xs) × (get_or (xs ++ y ∷ []) j d ≡ get_or xs j d))
      ⊎ ((j ≡ length xs) × (get_or (xs ++ y ∷ []) j d ≡ y))
      ⊎ (get_or (xs ++ y ∷ []) j d ≡ d)
get_or-snoc xs y d j = elim (dec_lt j (length xs)) [
  | yes lt ↦ inl (lt, get_or-append_left xs (y ∷ []) j d lt)
  | no ge ↦ elim (ℕ_discrete j (length xs)) [
    | yes eq ↦
        inr
          (inl (eq, subst (λ k. get_or (xs ++ y ∷ []) k d ≡ y) (sym eq) (get_or-append_end xs y d)))
    | no ne ↦
        inr (inr (get_or_beyond (xs ++ y ∷ []) j d (omega (arith, length-append xs (y ∷ [])))))
  ]
]
