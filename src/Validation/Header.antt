-- ===== src/Validation/Header.antt =====
-- What the names and the values of headers that pass the checks are.
use uvhttp.Prelude.{
  ℕ, ◌≤◌, true, not, ◌&&◌, ◌||◌, List, [], ◌∷◌, ◌≡◌, ◌≢◌, ◌↔◌, refl, ◌⊎◌, ltb, leb, ◌==◌, length,
  All, arith, &&-true,
}
use uvhttp.Validation.{
  max_header_name_size, max_header_value_size, validate_string_length, is_name_char, all_name_chars,
  validate_header_name, no_controls, validate_header_value_safe,
}

-- A digit, a letter or a hyphen.
abbrev pub IsNameChar : ℕ → Type 0
IsNameChar c = ((48 ≤ c) × (c ≤ 57)) ⊎ (((65 ≤ c) × (c ≤ 90)) ⊎ (((97 ≤ c) × (c ≤ 122)) ⊎ (c ≡ 45)))

is_name_char-eq-true_iff : (c : ℕ) → (is_name_char c ≡ true) ↔ IsNameChar c
is_name_char-eq-true_iff c = (λ e. ground arith, λ h. ground arith)

all_name_chars-eq-true_iff : (s : List ℕ) → (all_name_chars s ≡ true) ↔ All IsNameChar s
unfolding all_name_chars
all_name_chars-eq-true_iff [] = (λ e. tt, λ a. refl)
all_name_chars-eq-true_iff (c ∷ s) = (
  λ e.
      let (here, later) = &&-true (is_name_char c) (all_name_chars s) e in
      ((is_name_char-eq-true_iff c).0 here, (all_name_chars-eq-true_iff s).0 later),
  λ (h, a). rw ((is_name_char-eq-true_iff c).1 h, (all_name_chars-eq-true_iff s).1 a) refl,
)

-- A name passes `uvhttp_validate_header_name` exactly where it has 1 to 256 bytes, each a digit, a
-- letter or a hyphen.
pub validate_header_name_iff :
    (name : List ℕ)
    → (validate_header_name name ≡ true)
      ↔ ((1 ≤ length name) × (length name ≤ max_header_name_size) × All IsNameChar name)
unfolding validate_header_name validate_string_length
validate_header_name_iff name = (
  λ e.
      let (size, chars) =
        &&-true (leb 1 (length name) && leb (length name) 256) (all_name_chars name) e in
      let (low, high) = in_size (length name) size in
      (low, high, (all_name_chars-eq-true_iff name).0 chars),
  λ (low, high, chars).
      rw ((all_name_chars-eq-true_iff name).1 chars) (within (length name) low high),
)
  where
    in_size : (n : ℕ) → (leb 1 n && leb n 256) ≡ true → (1 ≤ n) × (n ≤ 256)
    in_size n e = (ground arith, ground arith)

    within : (n : ℕ) → 1 ≤ n → n ≤ 256 → (leb 1 n && leb n 256 && true) ≡ true
    within n low high = ground arith

-- Neither a control character nor DEL.
abbrev pub IsPrintable : ℕ → Type 0
IsPrintable c = (32 ≤ c) × (c ≢ 127)

no_controls-eq-true_iff : (s : List ℕ) → (no_controls s ≡ true) ↔ All IsPrintable s
unfolding no_controls
no_controls-eq-true_iff [] = (λ e. tt, λ a. refl)
no_controls-eq-true_iff (c ∷ s) = (
  λ e.
      let (here, later) = &&-true (not (ltb c 32 || c == 127)) (no_controls s) e in
      (printable here, (no_controls-eq-true_iff s).0 later),
  λ (h, a). rw ((no_controls-eq-true_iff s).1 a) (back h),
)
  where
    printable : not (ltb c 32 || c == 127) ≡ true → IsPrintable c
    printable e = (ground arith, λ same. ground arith)

    back : IsPrintable c → (not (ltb c 32 || c == 127) && true) ≡ true
    back h = ground arith

-- A value passes `uvhttp_validate_header_value_safe` exactly where it has at most 4096 bytes, none a
-- control character (a tab is one) or DEL.
pub validate_header_value_safe_iff :
    (value : List ℕ)
    → (validate_header_value_safe value ≡ true)
      ↔ ((length value ≤ max_header_value_size) × All IsPrintable value)
unfolding validate_header_value_safe
validate_header_value_safe_iff value = (
  λ e.
      let (size, chars) = &&-true (leb (length value) 4096) (no_controls value) e in
      (ground arith, (no_controls-eq-true_iff value).0 chars),
  λ (size, chars). rw ((no_controls-eq-true_iff value).1 chars) (ground arith),
)
