-- ===== src/Validation/Segments.antt =====
-- The segments and the escapes of a path that passes the check of include/uvhttp_validation.h,
-- read apart from it: split at each '/', and with every escape turned into the byte it stands for.
use uvhttp.Prelude.{
  ℕ, ◌+◌, ◌-◌, ◌*◌, Bool, true, false, not, ◌&&◌, List, [], ◌∷◌, ◌++◌, Option, none, some, ◌≡◌, ◌≢◌,
  refl, ap, ◌∙◌, inl, inr, if◌then◌else◌, ltb, ◌==◌, ==_iff, codes, IsPart, arith, Bool-cases,
}
use uvhttp.Validation.{is_hex, validate_url_path}
use uvhttp.Validation.Path.{IsEscaped, done, plain, escape, IsAccepted, validate_url_path_iff}

-- A character before the segments of a string: a '/' begins a new segment.
abbrev put_char : Bool → ℕ → List ℕ × List (List ℕ) → List ℕ × List (List ℕ)
put_char true c (first, others) = ([], first ∷ others)
put_char false c (first, others) = (c ∷ first, others)

-- The first segment of a string, and the others.
abbrev pub segments : List ℕ → List ℕ × List (List ℕ)
segments [] = ([], [])
segments (c ∷ s) = put_char (c == b'/') c (segments s)

-- No segment but the last is "..".
abbrev pub NoParent : List ℕ → List (List ℕ) → Type 0
NoParent first [] = Unit
NoParent first (second ∷ others) = (first ≢ codes "..") × NoParent second others

abbrev hex_value : ℕ → Option ℕ
hex_value c =
    if not (ltb c b'0') && ltb c (b'9' + 1)
    then some (c - b'0')
    else if not (ltb c b'A') && ltb c (b'F' + 1)
    then some (c - b'A' + 10)
    else if not (ltb c b'a') && ltb c (b'f' + 1)
    then some (c - b'a' + 10)
    else none

abbrev put_byte : Option ℕ → Option ℕ → Option (List ℕ) → Option (List ℕ)
put_byte (some high) (some low) (some bytes) = some ((high * 16 + low) ∷ bytes)
put_byte _ _ _ = none

abbrev put_plain : ℕ → Option (List ℕ) → Option (List ℕ)
put_plain c none = none
put_plain c (some bytes) = some (c ∷ bytes)

-- What a string with escapes stands for, or none where an escape is broken.
unfoldable pub percent_decode : List ℕ → Option (List ℕ)
percent_decode [] = some []
percent_decode (c ∷ []) = if c == b'%' then none else some (c ∷ [])
percent_decode (c ∷ a ∷ []) =
    let rest = percent_decode (a ∷ []) in if c == b'%' then none else put_plain c rest
percent_decode (c ∷ a ∷ b ∷ s) =
    let behind = percent_decode s in
    let rest = percent_decode (a ∷ b ∷ s) in
    if c == b'%' then put_byte (hex_value a) (hex_value b) behind else put_plain c rest

hex_value_of_is_hex : (c : ℕ) → is_hex c ≡ true → (n : ℕ) × (hex_value c ≡ some n)
hex_value_of_is_hex c h = elim (Bool-cases (not (ltb c b'0') && ltb c (b'9' + 1))) [
  | inl digit ↦ (c - b'0', rw digit refl)
  | inr no_digit ↦ elim (Bool-cases (not (ltb c b'A') && ltb c (b'F' + 1))) [
    | inl upper ↦ (c - b'A' + 10, rw (no_digit, upper) refl)
    | inr no_upper ↦ elim (Bool-cases (not (ltb c b'a') && ltb c (b'f' + 1))) [
      | inl lower ↦ (c - b'a' + 10, rw (no_digit, no_upper, lower) refl)
      | inr no_lower ↦ absurd (ground arith)
    ]
  ]
]

percent_decode_of_IsEscaped :
    (s : List ℕ) → IsEscaped s → (bytes : List ℕ) × (percent_decode s ≡ some bytes)
unfolding percent_decode
percent_decode_of_IsEscaped [] done = ([], refl)
percent_decode_of_IsEscaped (c ∷ []) (plain n i) = (c ∷ [], ground arith)
percent_decode_of_IsEscaped (c ∷ a ∷ []) (plain n i) =
    let (bytes, e) = percent_decode_of_IsEscaped (a ∷ []) i in (c ∷ bytes, ground (arith, e))
percent_decode_of_IsEscaped (c ∷ a ∷ b ∷ s) (plain n i) =
    let (bytes, e) = percent_decode_of_IsEscaped (a ∷ b ∷ s) i in (c ∷ bytes, ground (arith, e))
percent_decode_of_IsEscaped (c ∷ a ∷ b ∷ s) (escape p q i) =
    let (high, h) = hex_value_of_is_hex a p in
    let (low, l) = hex_value_of_is_hex b q in
    let (bytes, e) = percent_decode_of_IsEscaped s i in
    ((high * 16 + low) ∷ bytes, rw (h, l, e) refl)

IsPart-cons : (sub : List ℕ) (c : ℕ) (s : List ℕ) → IsPart sub s → IsPart sub (c ∷ s)
IsPart-cons sub c s (before, behind, e) = (c ∷ before, behind, ap (◌∷◌ c) e)

-- Where a string has a second segment, a '/' stands behind the first.
first_segment :
    (s second : List ℕ) (others : List (List ℕ))
    → (segments s).1 ≡ second ∷ others
    → (behind : List ℕ) × (s ≡ (segments s).0 ++ (b'/' ∷ behind))
first_segment [] second others e = absurd cc
first_segment (c ∷ s) second others e = elim (Bool-cases (c == b'/')) [
  | inl slash ↦ (s, rw slash (ap (λ x. x ∷ s) ((==_iff c b'/').0 slash)))
  | inr other ↦
      let (behind, same) = first_segment s second others (rw other at e) in
      (behind, rw other (ap (◌∷◌ c) same))
]

NoParent-segments : (s : List ℕ) → ¬ IsPart (codes "../") s → NoParent (segments s).0 (segments s).1
NoParent-segments [] n = tt
NoParent-segments (c ∷ s) n =
    go (c == b'/') (segments s).0 (segments s).1
      (NoParent-segments s (λ p. n (IsPart-cons (codes "../") c s p))) (first_segment s)
  where
    go :
        (slash : Bool) (first : List ℕ) (others : List (List ℕ))
        → NoParent first others
        → ((second : List ℕ) (more : List (List ℕ))
            → others ≡ second ∷ more
            → (behind : List ℕ) × (s ≡ first ++ (b'/' ∷ behind)))
        → NoParent (put_char slash c (first, others)).0 (put_char slash c (first, others)).1
    go true first others h f = ((λ e. cc), h)
    go false first [] h f = tt
    go false first (second ∷ more) (h, later) f =
        let (behind, e) = f second more refl in
        ((λ same. n ([], behind, ap (◌∷◌ c) e ∙ ap (λ x. x ++ (b'/' ∷ behind)) same)), later)

-- A path that `uvhttp_validate_url_path` accepts begins with '/'; split at each '/', none of its
-- segments but the last is ".."; and every '%' in it begins an escape, so that it can be decoded.
pub validate_url_path-NoParent :
    (path : List ℕ)
    → validate_url_path path ≡ true
    → (rest : List ℕ) × (bytes : List ℕ) × (path ≡ b'/' ∷ rest)
      × NoParent (segments rest).0 (segments rest).1
      × (percent_decode path ≡ some bytes)
validate_url_path-NoParent path e = go path ((validate_url_path_iff path).0 e)
  where
    go :
        (path : List ℕ)
        → IsAccepted path
        → (rest : List ℕ) × (bytes : List ℕ) × (path ≡ b'/' ∷ rest)
          × NoParent (segments rest).0 (segments rest).1
          × (percent_decode path ≡ some bytes)
    go [] v = absurd (ground (arith, v.rooted))
    go (c ∷ rest) v =
        let (bytes, decoded) = percent_decode_of_IsEscaped (c ∷ rest) v.escaped in
        (
          rest,
          bytes,
          ap (λ x. x ∷ rest) ((==_iff c b'/').0 v.rooted),
          NoParent-segments rest (λ p. v.no_parent (IsPart-cons (codes "../") c rest p)),
          decoded,
        )
