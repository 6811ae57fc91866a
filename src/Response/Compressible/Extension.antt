-- ===== src/Response/Compressible/Extension.antt =====
-- Which names of files src/uvhttp_response.c takes for worth compressing.
use uvhttp.Prelude.{
  caseeq, lower_all, ℕ, Bool, true, false, ◌&&◌, List, [], ◌∷◌, ◌++◌, Option, none, some, ◌≡◌, refl,
  ap, sym, ◌∙◌, ◌≢◌, ◌↔◌, ◌⊎◌, inl, inr, if◌then◌else◌, ◌==◌, ==_iff, streq, eq_of_streq, All,
  arith, Bool-cases,
}
use uvhttp.Response.Compressible.{
  compressible_extensions, non_compressible_extensions, last_dot, is_listed, by_extension,
  should_compress_by_extension,
}

abbrev pub NoDot : List ℕ → Type 0
NoDot s = All (λ c. c ≢ b'.') s

-- A name ends in a dot and a text without dots.
abbrev pub EndsIn : List ℕ → List ℕ → Type 0
EndsIn filename extension =
    (base : List ℕ) × (rest : List ℕ) × (extension ≡ b'.' ∷ rest)
    × NoDot rest
    × (filename ≡ base ++ extension)

last_dot-plain : (found : Option (List ℕ)) (s : List ℕ) → NoDot s → last_dot found s ≡ found
unfolding last_dot
last_dot-plain found [] h = refl
last_dot-plain found (c ∷ s) (n, h) =
    let other : (c == b'.') ≡ false = ground arith in rw other (last_dot-plain found s h)

-- The last dot of a name begins its extension.
last_dot-append :
    (found : Option (List ℕ)) (base rest : List ℕ)
    → NoDot rest
    → last_dot found (base ++ b'.' ∷ rest) ≡ some (b'.' ∷ rest)
unfolding last_dot
last_dot-append found [] rest h = last_dot-plain (some (b'.' ∷ rest)) rest h
last_dot-append found (c ∷ base) rest h =
    last_dot-append (if c == b'.' then some (c ∷ (base ++ b'.' ∷ rest)) else found) base rest h

-- A name has a last dot or none.
dot_cases : (s : List ℕ) → NoDot s ⊎ ((extension : List ℕ) × EndsIn s extension)
dot_cases [] = inl tt
dot_cases (c ∷ s) = elim (dot_cases s) [
  | inr (extension, (base, rest, e, n, same)) ↦
      inr (extension, (c ∷ base, rest, e, n, ap (◌∷◌ c) same))
  | inl none_later ↦ elim (Bool-cases (c == b'.')) [
    | inl dot ↦ inr (c ∷ s, ([], s, ap (λ x. x ∷ s) ((==_iff c b'.').0 dot), none_later, refl))
    | inr other ↦ inl (ground arith, none_later)
  ]
]

caseeq-listed :
    (xs : List (List ℕ)) (a b : List ℕ)
    → lower_all a ≡ lower_all b
    → is_listed xs a ≡ is_listed xs b
unfolding is_listed caseeq
caseeq-listed [] a b e = refl
caseeq-listed (x ∷ xs) a b e = rw (e, caseeq-listed xs a b e) refl

-- Are no two of the texts equal but for case?
apart : List (List ℕ) → List (List ℕ) → Bool
apart [] ys = true
apart (x ∷ xs) ys = (if is_listed ys x then false else true) && apart xs ys

apart-listed :
    (xs ys : List (List ℕ)) (a : List ℕ)
    → apart xs ys ≡ true
    → is_listed xs a ≡ true
    → is_listed ys a ≡ false
unfolding apart is_listed caseeq
apart-listed [] ys a h k = absurd cc
apart-listed (x ∷ xs) ys a h k = elim (Bool-cases (streq (lower_all a) (lower_all x))) [
  | inl here ↦ caseeq-listed ys a x (eq_of_streq (lower_all a) (lower_all x) here) ∙ ground arith
  | inr other ↦ apart-listed xs ys a (ground arith) (rw other at k)
]

tables_apart : apart compressible_extensions non_compressible_extensions ≡ true
unfolding apart is_listed caseeq
tables_apart = refl

by_extension-listed :
    (extension : List ℕ)
    → by_extension (some extension) ≡ is_listed compressible_extensions extension
by_extension-listed extension = elim (Bool-cases (is_listed compressible_extensions extension)) [
  | inl yes_listed ↦
      rw
        (apart-listed compressible_extensions non_compressible_extensions extension tables_apart
          yes_listed)
        refl
  | inr not_listed ↦ choose (is_listed non_compressible_extensions extension) not_listed
]
  where
    choose :
        (b : Bool)
        → is_listed compressible_extensions extension ≡ false
        → (if b then false else is_listed compressible_extensions extension)
          ≡ is_listed compressible_extensions extension
    choose true h = sym h
    choose false h = refl

-- A file is worth compressing exactly where its name ends in a dot and a text without dots that are
-- among the compressible extensions, whatever the case of their letters; the other table makes no
-- difference.
pub should_compress_by_extension_iff :
    (filename : List ℕ)
    → (should_compress_by_extension filename ≡ true) ↔ (
        (extension : List ℕ) × EndsIn filename extension
        × (is_listed compressible_extensions extension ≡ true))
unfolding should_compress_by_extension
should_compress_by_extension_iff filename = (into (dot_cases filename), back)
  where
    into :
        NoDot filename ⊎ ((extension : List ℕ) × EndsIn filename extension)
        → by_extension (last_dot none filename) ≡ true
        → (extension : List ℕ) × EndsIn filename extension
          × (is_listed compressible_extensions extension ≡ true)
    into (inl plain) h =
        let refused : false ≡ true =
          ap by_extension (sym (last_dot-plain none filename plain)) ∙ h in
        absurd cc
    into (inr (extension, (base, rest, e, n, same))) h =
        let found : last_dot none filename ≡ some extension =
          ap (last_dot none) (same ∙ ap (λ x. base ++ x) e)
          ∙ last_dot-append none base rest n
          ∙ ap some (sym e) in
        (
          extension,
          (base, rest, e, n, same),
          sym (by_extension-listed extension) ∙ ap by_extension (sym found) ∙ h,
        )

    back :
        ((extension : List ℕ) × EndsIn filename extension
          × (is_listed compressible_extensions extension ≡ true))
        → by_extension (last_dot none filename) ≡ true
    back (extension, (base, rest, e, n, same), listed) =
        let found : last_dot none filename ≡ some extension =
          ap (last_dot none) (same ∙ ap (λ x. base ++ x) e)
          ∙ last_dot-append none base rest n
          ∙ ap some (sym e) in
        ap by_extension found ∙ by_extension-listed extension ∙ listed
