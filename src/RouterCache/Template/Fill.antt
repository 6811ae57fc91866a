-- ===== src/RouterCache/Template/Fill.antt =====
-- The parameters that `uvhttp_router_match` of src/uvhttp_router_cache.c takes out of a path,
-- against a reader that puts values into a template.
use mathlib.Core.List.{map}
use mathlib.Core.Path.{ap₂}
use uvhttp.Prelude.{
  ℕ, zero, suc, ◌+◌, ◌≤◌, ◌<◌, true, List, [], ◌∷◌, ◌++◌, ◌≡◌, refl, ap, inl, inr, ==_iff, ◌∙◌, sym,
  ◌==◌, ltb, if◌then◌else◌, Bool-cases, All, length, arith,
}
use uvhttp.Router.Trie.{Param, max_params}
use uvhttp.RouterCache.Template.{
  skip_segment, word, fits_fields, matches_from, template_params_from, template_params,
}
use uvhttp.RouterCache.Template.Words.{word-skip_segment, length-skip_segment, length-word}
use uvhttp.RouterCache.Template.Fits.{Fits, skip_param, matches_from_complete}

-- The names of the parameters of a template.
unfoldable pub names_from : ℕ → List ℕ → List (List ℕ)
names_from rounds [] = []
names_from zero (c ∷ r) = []
names_from (suc rounds) (c ∷ r) =
    let here = word r ∷ names_from rounds (skip_segment r) in
    let next = names_from rounds r in if c == b':' then here else next

unfoldable pub template_names : List ℕ → List (List ℕ)
unfolding names_from
template_names route = names_from (length route) route

abbrev first_value : List (List ℕ) → List ℕ
first_value [] = []
first_value (v ∷ vs) = v

abbrev other_values : List (List ℕ) → List (List ℕ)
other_values [] = []
other_values (v ∷ vs) = vs

-- A template with values in the places of its parameters.
unfoldable pub fill_from : ℕ → List ℕ → List (List ℕ) → List ℕ
fill_from rounds [] values = []
fill_from zero (c ∷ r) values = []
fill_from (suc rounds) (c ∷ r) values =
    let here = first_value values ++ fill_from rounds (skip_segment r) (other_values values) in
    let next = c ∷ fill_from rounds r values in if c == b':' then here else next

unfoldable pub fill : List ℕ → List (List ℕ) → List ℕ
unfolding fill_from
fill route values = fill_from (length route) route values

-- A name that fits into its field.
abbrev pub IsName : List ℕ → Type 0
IsName name = (0 < length name) × (length name < 64)

abbrev pub names : List Param → List (List ℕ)
names ps = map (λ (p : Param). p.name) ps

abbrev pub values : List Param → List (List ℕ)
values ps = map (λ (p : Param). p.value) ps

fill_from-plain :
    (rounds : ℕ) (r p : List ℕ)
    → matches_from rounds r p ≡ true
    → length (names_from rounds r) ≡ 0
    → (names_from rounds r ≡ []) × (fill_from rounds r [] ≡ p)
unfolding matches_from names_from fill_from
fill_from-plain rounds [] [] h none = (refl, refl)
fill_from-plain rounds [] (d ∷ p) h none = absurd cc
fill_from-plain rounds (c ∷ r) [] h none = absurd cc
fill_from-plain zero (c ∷ r) (d ∷ p) h none = absurd cc
fill_from-plain (suc rounds) (c ∷ r) (d ∷ p) h none = elim (Bool-cases (c == b':')) [
  | inl colon ↦
      let some_name : suc (length (names_from rounds (skip_segment r))) ≡ 0 = rw colon at none in
      absurd (omega arith)
  | inr other ↦ elim (Bool-cases (c == d)) [
    | inl e ↦
        let behind = fill_from-plain rounds r p (rw (other, e) at h) (rw other at none) in
        rw other (behind.0, ap₂ ◌∷◌ ((==_iff c d).0 e) behind.1)
    | inr ne ↦ absurd (ground arith)
  ]
]

template_params_from-fill :
    (rounds taken : ℕ) (r p : List ℕ)
    → matches_from rounds r p ≡ true
    → taken + length (names_from rounds r) ≤ max_params
    → All IsName (names_from rounds r)
    → length p < 256
    → (names (template_params_from rounds taken r p) ≡ names_from rounds r)
      × (fill_from rounds r (values (template_params_from rounds taken r p)) ≡ p)
unfolding matches_from names_from template_params_from fill_from
template_params_from-fill rounds taken [] [] h few named short = (refl, refl)
template_params_from-fill rounds taken [] (d ∷ p) h few named short = absurd cc
template_params_from-fill rounds taken (c ∷ r) [] h few named short = absurd cc
template_params_from-fill zero taken (c ∷ r) (d ∷ p) h few named short = absurd cc
template_params_from-fill (suc rounds) taken (c ∷ r) (d ∷ p) h few named short =
    elim (Bool-cases (c == b':')) [
      | inl colon ↦
          let named' : IsName (word r) × All IsName (names_from rounds (skip_segment r)) =
            rw colon at named in
          let few' : taken + suc (length (names_from rounds (skip_segment r))) ≤ max_params =
            rw colon at few in
          let room : ltb taken max_params ≡ true = ground arith in
          let fields : fits_fields (word r) (word (d ∷ p)) ≡ true =
            ground (arith, length-word (d ∷ p), named'.0) in
          let behind =
            template_params_from-fill rounds (taken + 1) (skip_segment r) (skip_segment (d ∷ p))
              (rw (colon, skip_param c r colon) at h) (omega arith) named'.1
              (omega (arith, length-skip_segment (d ∷ p))) in
          rw (room, colon, fields)
            (
              ap (◌∷◌ (word r)) behind.0,
              ap (λ s. word (d ∷ p) ++ s) behind.1 ∙ sym (word-skip_segment (d ∷ p)),
            )
      | inr other ↦ elim (Bool-cases (c == d)) [
        | inl e ↦
            let behind =
              template_params_from-fill rounds taken r p (rw (other, e) at h) (rw other at few)
                (rw other at named) (omega arith) in
            elim (Bool-cases (ltb taken max_params)) [
              | inl room ↦ rw (room, other, e) (behind.0, ap₂ ◌∷◌ ((==_iff c d).0 e) behind.1)
              | inr full ↦
                  let few' : taken + length (names_from rounds r) ≤ max_params = rw other at few in
                  let none : length (names_from rounds r) ≡ 0 = ground arith in
                  let plain = fill_from-plain rounds r p (rw (other, e) at h) none in
                  rw (full, other) (sym plain.0, ap₂ ◌∷◌ ((==_iff c d).0 e) plain.1)
            ]
        | inr ne ↦ absurd (ground arith)
      ]
    ]

-- The parameters of a path that fits a template have the template's names, in its order, and their
-- values fill the template up to the path again: at most 16 parameters, names of 1 to 63 bytes,
-- and a path of fewer than 256 bytes.
pub template_params-fill :
    (route path : List ℕ)
    → Fits route path
    → length (template_names route) ≤ max_params
    → All IsName (template_names route)
    → length path < 256
    → (names (template_params route path) ≡ template_names route)
      × (fill route (values (template_params route path)) ≡ path)
unfolding template_params template_names fill
template_params-fill route path fits few named short =
    template_params_from-fill (length route) 0 route path
      (matches_from_complete (length route) route path (omega arith) fits) (omega arith) named short
