-- ===== src/Validation/Tests.antt =====
-- Runs of include/uvhttp_validation.h on short strings, and the theorems on them.
use uvhttp.Prelude.{true, false, List, ◌≡◌, refl, codes, ◌∷◌, some, ℕ}
use uvhttp.Validation.{validate_url_path, valid_escapes}
use uvhttp.Validation.Segments.{NoParent, segments, percent_decode, validate_url_path-NoParent}

-- Escapes of ".." in mixed case pass, and so does a path that ends in "..".
mixed_case : validate_url_path (codes "/%2e%2E/x") ≡ true
unfolding validate_url_path valid_escapes
mixed_case = refl

parent_at_end : validate_url_path (codes "/a/..") ≡ true
unfolding validate_url_path valid_escapes
parent_at_end = refl

parent_inside : validate_url_path (codes "/a/../b") ≡ false
unfolding validate_url_path valid_escapes
parent_inside = refl

-- The mixed-case escapes stand for "..".
mixed_case_decoded : percent_decode (codes "/%2e%2E/x") ≡ some (codes "/../x")
unfolding percent_decode
mixed_case_decoded = refl

spaced : validate_url_path (codes "/a%20b/c") ≡ true
unfolding validate_url_path valid_escapes
spaced = refl

validate_url_path-NoParent_example :
    (rest : List ℕ) × (bytes : List ℕ) × (codes "/a%20b/c" ≡ b'/' ∷ rest)
    × NoParent (segments rest).0 (segments rest).1
    × (percent_decode (codes "/a%20b/c") ≡ some bytes)
validate_url_path-NoParent_example = validate_url_path-NoParent (codes "/a%20b/c") spaced
