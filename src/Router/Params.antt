-- ===== src/Router/Params.antt =====
-- `uvhttp_parse_path_params` of src/uvhttp_router.c: the parameters in a path of tokens ":name:value".
use uvhttp.Prelude.{
  ℕ, zero, suc, ◌+◌, true, false, List, [], ◌∷◌, Option, none, some, ◌≡◌, refl, ap, if◌then◌else◌,
  ltb, ◌==◌, take, tokens, arith,
}
use uvhttp.Router.Trie.{Param, max_params}

-- What stands before and behind the first colon of a string.
unfoldable pub split_at_colon : List ℕ → Option (List ℕ × List ℕ)
split_at_colon [] = none
split_at_colon (c ∷ s) =
    let later : Option (List ℕ × List ℕ) = elim (split_at_colon s) [
      | none ↦ none
      | some (name, value) ↦ some (c ∷ name, value)
    ] in
    if c == b':' then some ([], s) else later

abbrev pub param_between : Option (List ℕ × List ℕ) → Option Param
param_between none = none
param_between (some (name, value)) = some (record { name = take 63 name; value = take 255 value })

-- The parameter that a token holds.
unfoldable pub param_of_token : List ℕ → Option Param
unfolding split_at_colon
param_of_token [] = none
param_of_token (c ∷ s) = if c == b':' then param_between (split_at_colon s) else none

abbrev pub counted : Option Param → List Param → List Param → List Param
counted none same more = same
counted (some p) same more = p ∷ more

-- The loop over the tokens, which stops at MAX_PARAMS parameters.
unfoldable pub params_from : ℕ → List (List ℕ) → List Param
params_from count [] = []
params_from count (token ∷ rest) =
    let same = params_from count rest in
    let more = params_from (count + 1) rest in
    if ltb count max_params then counted (param_of_token token) same more else []

-- `parse_path_params`
unfoldable pub parse_path_params : List ℕ → List Param
unfolding params_from
parse_path_params path = params_from 0 (tokens (take 255 path))

-- The parameters of all tokens.
abbrev pub all_params : List (List ℕ) → List Param
all_params [] = []
all_params (token ∷ rest) = counted (param_of_token token) (all_params rest) (all_params rest)

params_from-eq-take :
    (count left : ℕ) (ts : List (List ℕ))
    → count + left ≡ max_params
    → params_from count ts ≡ take left (all_params ts)
unfolding params_from
params_from-eq-take count zero [] e = refl
params_from-eq-take count (suc left) [] e = refl
params_from-eq-take count zero (token ∷ rest) e =
    let full : ltb count max_params ≡ false = ground arith in rw full refl
params_from-eq-take count (suc left) (token ∷ rest) e =
    let room : ltb count max_params ≡ true = ground arith in
    rw room (
      go (param_of_token token) (params_from-eq-take count (suc left) rest e)
        (params_from-eq-take (count + 1) left rest (omega arith)))
  where
    go :
        (p : Option Param)
        → params_from count rest ≡ take (suc left) (all_params rest)
        → params_from (count + 1) rest ≡ take left (all_params rest)
        → counted p (params_from count rest) (params_from (count + 1) rest)
          ≡ take (suc left) (counted p (all_params rest) (all_params rest))
    go none same more = same
    go (some p) same more = ap (◌∷◌ p) more

-- The parameters of a path are the first 16 of those that its tokens hold, in their order.
pub parse_path_params-eq-take :
    (path : List ℕ) → parse_path_params path ≡ take max_params (all_params (tokens (take 255 path)))
unfolding parse_path_params
parse_path_params-eq-take path = params_from-eq-take 0 16 (tokens (take 255 path)) refl
