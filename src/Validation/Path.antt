-- ===== src/Validation/Path.antt =====
-- What a path or a query string that passes the checks is.
use uvhttp.Prelude.{
  ℕ, ◌≤◌, Bool, true, false, not, ◌&&◌, List, [], ◌∷◌, some, ◌≡◌, ◌≢◌, ◌↔◌, refl, sym, subst, ◌∙◌,
  inl, inr, leb, ◌==◌, ==_iff, length, codes, has_char, has_substring, has_substring_iff, IsPart,
  All, arith, Bool-cases,
}
use uvhttp.Validation.{
  dangerous_path_chars, dangerous_query_chars, max_path_size, max_url_size, validate_string_length,
  is_hex, valid_escapes, has_dangerous, starts_with_slash, validate_url_path, validate_query_string,
}

-- Each '%' begins an escape of two hexadecimal digits.
pub data IsEscaped : List ℕ → Type 0 where
  done : IsEscaped []
  plain : {c : ℕ} {s : List ℕ} → c ≢ b'%' → IsEscaped s → IsEscaped (c ∷ s)
  escape :
      {a b : ℕ} {s : List ℕ}
      → is_hex a ≡ true
      → is_hex b ≡ true
      → IsEscaped s
      → IsEscaped (b'%' ∷ a ∷ b ∷ s)

valid_escapes-IsEscaped : (s : List ℕ) → valid_escapes s ≡ true → IsEscaped s
unfolding valid_escapes
valid_escapes-IsEscaped [] e = done
valid_escapes-IsEscaped (c ∷ []) e = plain (λ same. ground arith) done
valid_escapes-IsEscaped (c ∷ a ∷ []) e =
    plain (λ same. ground arith) (valid_escapes-IsEscaped (a ∷ []) (ground arith))
valid_escapes-IsEscaped (c ∷ a ∷ b ∷ s) e = elim (Bool-cases (c == b'%')) [
  | inl percent ↦
      subst (λ x. IsEscaped (x ∷ a ∷ b ∷ s)) (sym ((==_iff c b'%').0 percent))
        (escape (ground arith) (ground arith) (valid_escapes-IsEscaped s (ground arith)))
  | inr other ↦ plain (λ same. ground arith) (valid_escapes-IsEscaped (a ∷ b ∷ s) (ground arith))
]

valid_escapes_of_IsEscaped : (s : List ℕ) → IsEscaped s → valid_escapes s ≡ true
unfolding valid_escapes
valid_escapes_of_IsEscaped [] i = refl
valid_escapes_of_IsEscaped (c ∷ []) (plain n i) = ground arith
valid_escapes_of_IsEscaped (c ∷ a ∷ []) (plain n i) =
    ground (arith, valid_escapes_of_IsEscaped (a ∷ []) i)
valid_escapes_of_IsEscaped (c ∷ a ∷ b ∷ s) (plain n i) =
    ground (arith, valid_escapes_of_IsEscaped (a ∷ b ∷ s) i)
valid_escapes_of_IsEscaped (c ∷ a ∷ b ∷ s) (escape p q i) =
    rw (p, q) (valid_escapes_of_IsEscaped s i)

-- No character of a string is one of `chars`.
abbrev pub Avoids : List ℕ → List ℕ → Type 0
Avoids chars s = All (λ d. All (λ c. c ≢ d) s) chars

has_char-eq-false_iff : (s : List ℕ) (d : ℕ) → (has_char s d ≡ false) ↔ All (λ c. c ≢ d) s
has_char-eq-false_iff [] d = (λ e. tt, λ a. refl)
has_char-eq-false_iff (c ∷ s) d = (
  λ e. ((λ same. ground arith), (has_char-eq-false_iff s d).0 (ground arith)),
  λ (n, a). let rest = (has_char-eq-false_iff s d).1 a in ground arith,
)

pub has_dangerous-eq-false_iff :
    (chars s : List ℕ) → (has_dangerous chars s ≡ false) ↔ Avoids chars s
unfolding has_dangerous
has_dangerous-eq-false_iff [] s = (λ e. tt, λ a. refl)
has_dangerous-eq-false_iff (d ∷ chars) s = (
  λ e. (
    (has_char-eq-false_iff s d).0 (ground arith),
    (has_dangerous-eq-false_iff chars s).0 (ground arith),
  ),
  λ (a, later).
      let here = (has_char-eq-false_iff s d).1 a in
      let rest = (has_dangerous-eq-false_iff chars s).1 later in ground arith,
)

-- A path that is accepted: of 1 to 1024 bytes, beginning with '/', without the parts "../", "..\", "%2e%2e" and
-- "%2E%2E", with whole escapes and no dangerous character.
pub record IsAccepted (path : List ℕ) : Type 0 where
  pub not_empty : 1 ≤ length path
  pub short : length path ≤ max_path_size
  pub rooted : starts_with_slash path ≡ true
  pub no_parent : ¬ IsPart (codes "../") path
  pub no_windows_parent : ¬ IsPart (codes "..\\") path
  pub no_lower_dots : ¬ IsPart (codes "%2e%2e") path
  pub no_upper_dots : ¬ IsPart (codes "%2E%2E") path
  pub escaped : IsEscaped path
  pub clean : Avoids dangerous_path_chars path

conjuncts :
    (a b c d e f g h : Bool)
    → (a && b && not c && not d && not e && not f && g && not h) ≡ true
    → (a ≡ true)
      × (b ≡ true)
      × (c ≡ false)
      × (d ≡ false)
      × (e ≡ false)
      × (f ≡ false)
      × (g ≡ true)
      × (h ≡ false)
conjuncts a b c d e f g h p = ground arith

in_size : (n : ℕ) → (leb 1 n && leb n 1024) ≡ true → (1 ≤ n) × (n ≤ 1024)
in_size n e = (ground arith, ground arith)

absent : (sub s : List ℕ) → has_substring sub s ≡ false → ¬ IsPart sub s
absent sub s e part = clash (sym e ∙ (has_substring_iff sub s).1 part)
  where
    clash : false ≡ true → ⊥
    clash x = cc

absent_of : (sub s : List ℕ) → ¬ IsPart sub s → has_substring sub s ≡ false
absent_of sub s n = elim (Bool-cases (has_substring sub s)) [
  | inl part ↦ absurd (n ((has_substring_iff sub s).0 part))
  | inr none_such ↦ none_such
]

-- A path passes `uvhttp_validate_url_path` exactly where it is accepted in the sense spelt out.
pub validate_url_path_iff : (path : List ℕ) → (validate_url_path path ≡ true) ↔ IsAccepted path
unfolding validate_url_path validate_string_length
validate_url_path_iff path = (forth, back)
  where
    forth : validate_url_path path ≡ true → IsAccepted path
    forth e =
        let (size, slash, p, w, l, u, esc, dangers) = conjuncts _ _ _ _ _ _ _ _ e in
        let (low, high) = in_size (length path) size in
        record {
          not_empty = low;
          short = high;
          rooted = slash;
          no_parent = absent (codes "../") path p;
          no_windows_parent = absent (codes "..\\") path w;
          no_lower_dots = absent (codes "%2e%2e") path l;
          no_upper_dots = absent (codes "%2E%2E") path u;
          escaped = valid_escapes-IsEscaped path esc;
          clean = (has_dangerous-eq-false_iff dangerous_path_chars path).0 dangers;
        }

    back : IsAccepted path → validate_url_path path ≡ true
    back v =
        rw
          (
            v.rooted,
            absent_of (codes "../") path v.no_parent,
            absent_of (codes "..\\") path v.no_windows_parent,
            absent_of (codes "%2e%2e") path v.no_lower_dots,
            absent_of (codes "%2E%2E") path v.no_upper_dots,
            valid_escapes_of_IsEscaped path v.escaped,
            (has_dangerous-eq-false_iff dangerous_path_chars path).1 v.clean,
          )
          (ground (arith, v.not_empty, v.short))

-- A query string passes `uvhttp_validate_query_string` exactly where it has at most 2048 bytes and
-- none of < > " ' and the line ends.
pub validate_query_string_iff :
    (query : List ℕ)
    → (validate_query_string (some query) ≡ true)
      ↔ ((length query ≤ max_url_size) × Avoids dangerous_query_chars query)
unfolding validate_query_string validate_string_length
validate_query_string_iff query = (
  λ e. (ground arith, (has_dangerous-eq-false_iff dangerous_query_chars query).0 (ground arith)),
  λ (short, clean).
      let none_such = (has_dangerous-eq-false_iff dangerous_query_chars query).1 clean in
      ground arith,
)
