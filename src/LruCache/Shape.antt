-- ===== src/LruCache/Shape.antt =====
-- Lists of addresses cut in two, and the shape of a linked list.
use uvhttp.Prelude.{
  ℕ, List, [], ◌∷◌, ◌++◌, Option, none, some, ◌≡◌, refl, ap, sym, subst, ◌⊎◌, inl, inr, length,
}
use uvhttp.LruCache.{Lru}

-- The first and the last address of a list.
abbrev pub first : List ℕ → Option ℕ
first [] = none
first (x ∷ xs) = some x

abbrev pub final : List ℕ → Option ℕ
final [] = none
final (x ∷ []) = some x
final (x ∷ y ∷ xs) = final (y ∷ xs)

pub final-snoc : (xs : List ℕ) (x : ℕ) → final (xs ++ x ∷ []) ≡ some x
final-snoc [] x = refl
final-snoc (a ∷ []) x = refl
final-snoc (a ∷ b ∷ xs) x = final-snoc (b ∷ xs) x

pub final-append : (xs ys : List ℕ) (y : ℕ) → final (xs ++ y ∷ ys) ≡ final (y ∷ ys)
final-append [] ys y = refl
final-append (a ∷ []) ys y = refl
final-append (a ∷ b ∷ xs) ys y = final-append (b ∷ xs) ys y

-- A cut of `xs ++ ys` cuts one of the two.
abbrev pub Cut : List ℕ → List ℕ → List ℕ → ℕ → List ℕ → Type 0
Cut xs ys a j b =
    ((m : List ℕ) × (xs ≡ a ++ j ∷ m) × (b ≡ m ++ ys))
    ⊎ ((m : List ℕ) × (a ≡ xs ++ m) × (ys ≡ m ++ j ∷ b))

head_of : List ℕ → ℕ
head_of [] = 0
head_of (x ∷ xs) = x

tail_of : List ℕ → List ℕ
tail_of [] = []
tail_of (x ∷ xs) = xs

pub cons-injective : (x y : ℕ) (xs ys : List ℕ) → x ∷ xs ≡ y ∷ ys → (x ≡ y) × (xs ≡ ys)
unfolding head_of tail_of
cons-injective x y xs ys e = (ap head_of e, ap tail_of e)

pub Cut-append : (xs ys a b : List ℕ) (j : ℕ) → xs ++ ys ≡ a ++ j ∷ b → Cut xs ys a j b
Cut-append [] ys a b j e = inr (a, refl, e)
Cut-append (x ∷ xs) ys [] b j e =
    let (same, rest) = cons-injective x j (xs ++ ys) b e in
    inl (xs, ap (λ k. k ∷ xs) same, sym rest)
Cut-append (x ∷ xs) ys (c ∷ a) b j e =
    let (same, rest) = cons-injective x c (xs ++ ys) (a ++ j ∷ b) e in
    elim (Cut-append xs ys a b j rest) [
      | inl (m, p, q) ↦ inl (m, subst (λ k. x ∷ xs ≡ k ∷ (a ++ j ∷ m)) same (ap (◌∷◌ x) p), q)
      | inr (m, p, q) ↦ inr (m, subst (λ k. k ∷ a ≡ x ∷ (xs ++ m)) same (ap (◌∷◌ x) p), q)
    ]

-- Each address stands at one place only.
abbrev pub IsDistinct : List ℕ → Type 0
IsDistinct xs = (a b c d : List ℕ) (i : ℕ) → xs ≡ a ++ i ∷ b → xs ≡ c ++ i ∷ d → length a ≡ length c

-- The entries of a heap form the list `xs`: the neighbours of each are those that it points to, and
-- head and tail are the ends.
pub record IsList (l : Lru) (xs : List ℕ) : Type 0 where
  pub distinct : IsDistinct xs
  pub head : l.lru_head ≡ first xs
  pub tail : l.lru_tail ≡ final xs
  pub prev : (a b : List ℕ) (i : ℕ) → xs ≡ a ++ i ∷ b → (l.heap i).lru_prev ≡ final a
  pub next : (a b : List ℕ) (i : ℕ) → xs ≡ a ++ i ∷ b → (l.heap i).lru_next ≡ first b
