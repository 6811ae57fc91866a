-- ===== src/RouterCache/Template.antt =====
-- Route templates with parameters, as "/items/:id", in src/uvhttp_router_cache.c: the loop that
-- compares one with the path of a request, and the one that takes the parameters out of the path.
pub mod Words
pub mod Fits
pub mod Fill
use uvhttp.Prelude.{
  ℕ, zero, suc, ◌+◌, Bool, true, false, ◌&&◌, ltb, List, [], ◌∷◌, if◌then◌else◌, ◌==◌, length,
}
use uvhttp.Router.Trie.{Param, max_params}

-- `while (*p && *p != '/') p++`
unfoldable pub skip_segment : List ℕ → List ℕ
skip_segment [] = []
skip_segment (c ∷ s) = let rest = skip_segment s in if c == b'/' then c ∷ s else rest

-- The loop over the template and the path, and the test behind it that both have ended. A round
-- takes a byte of the template at least.
unfoldable pub matches_from : ℕ → List ℕ → List ℕ → Bool
matches_from rounds [] [] = true
matches_from rounds [] (d ∷ p) = false
matches_from rounds (c ∷ r) [] = false
matches_from zero (c ∷ r) (d ∷ p) = false
matches_from (suc rounds) (c ∷ r) (d ∷ p) =
    let behind = matches_from rounds (skip_segment (c ∷ r)) (skip_segment (d ∷ p)) in
    let next = matches_from rounds r p in
    if c == b':' then behind else if c == d then next else false

unfoldable pub matches_template : List ℕ → List ℕ → Bool
unfolding matches_from
matches_template route path = matches_from (length route) route path

-- The bytes that such a loop passes over.
unfoldable pub word : List ℕ → List ℕ
word [] = []
word (c ∷ s) = let rest = word s in if c == b'/' then [] else c ∷ rest

-- A parameter is taken if its name is not empty and both fit into their fields.
abbrev pub fits_fields : List ℕ → List ℕ → Bool
fits_fields name value = ltb 0 (length name) && ltb (length name) 64 && ltb (length value) 256

-- The loop of `uvhttp_router_match` over the template and the path, with the parameters so far.
unfoldable pub template_params_from : ℕ → ℕ → List ℕ → List ℕ → List Param
template_params_from rounds taken [] p = []
template_params_from rounds taken (c ∷ r) [] = []
template_params_from zero taken (c ∷ r) (d ∷ p) = []
template_params_from (suc rounds) taken (c ∷ r) (d ∷ p) =
    let name = word r in
    let value = word (d ∷ p) in
    let here =
      record { name = name; value = value }
      ∷ template_params_from rounds (taken + 1) (skip_segment r) (skip_segment (d ∷ p)) in
    let dropped = template_params_from rounds taken (skip_segment r) (skip_segment (d ∷ p)) in
    let next = template_params_from rounds taken r p in
    if ltb taken max_params
    then if c == b':'
      then if fits_fields name value then here else dropped
      else if c == d
      then next
      else []
    else []

-- The parameters of a path that a template has matched.
unfoldable pub template_params : List ℕ → List ℕ → List Param
unfolding template_params_from
template_params route path = template_params_from (length route) 0 route path
