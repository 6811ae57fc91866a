-- ===== src/Response/Headers/Fields.antt =====
-- The fields of a response's head to a reader: the length that src/uvhttp_response.c announces.
use mathlib.Core.List.{map}
use mathlib.Core.Option.{or_else}
use uvhttp.Prelude.{
  caseeq, ℕ, Bool, true, false, ◌||◌, List, [], ◌∷◌, ◌++◌, Option, none, some, ◌≡◌, refl, inl, inr,
  if◌then◌else◌, ltb, ◌==◌, codes, All, arith, Bool-cases, drop,
}
use uvhttp.Validation.Header.{IsNameChar}
use uvhttp.Response.{Header, Response, contains_control_chars}
use uvhttp.Response.Print.{read_digits, read_digits-decimal}
use uvhttp.Response.Headers.{present, header_line, has_named, length_of, length_text}
use uvhttp.Response.Headers.Layout.{kept, default_line, response_lines}
use uvhttp.Response.Headers.Plain.{IsHeader}

-- A field's name, before the first colon, and its value, two bytes behind it.
unfoldable pub split_field : List ℕ → Option (List ℕ × List ℕ)
split_field [] = none
split_field (c ∷ s) =
    let later : Option (List ℕ × List ℕ) = elim (split_field s) [
      | none ↦ none
      | some (name, value) ↦ some (c ∷ name, value)
    ] in
    if c == b':' then some ([], drop 1 s) else later

abbrev pub value_for : List ℕ → Option (List ℕ × List ℕ) → Option (List ℕ)
value_for name none = none
value_for name (some (n, value)) = if caseeq n name then some value else none

-- The value of the first field of that name, whatever the case of its letters.
unfoldable pub field : List ℕ → List (List ℕ) → Option (List ℕ)
field name [] = none
field name (l ∷ ls) = or_else (value_for name (split_field l)) (field name ls)

abbrev pub read_value : Option (List ℕ) → Option ℕ
read_value none = none
read_value (some value) = read_digits 0 value

-- The number in the field Content-Length, behind the status line.
unfoldable pub content_length : List (List ℕ) → Option ℕ
content_length [] = none
content_length (status ∷ ls) = read_value (field (codes "Content-Length") ls)

split_field-header_line :
    (name value : List ℕ)
    → All IsNameChar name
    → split_field (name ++ (codes ": " ++ value)) ≡ some (name, value)
unfolding split_field
split_field-header_line [] value h = refl
split_field-header_line (c ∷ name) value (p, h) =
    let other : (c == b':') ≡ false = ground arith in
    rw (other, split_field-header_line name value h) refl

field-append :
    (name : List ℕ) (ls ms : List (List ℕ))
    → field name ls ≡ none
    → field name (ls ++ ms) ≡ field name ms
unfolding field or_else
field-append name [] ms h = refl
field-append name (l ∷ ls) ms h = go (value_for name (split_field l)) h (field-append name ls ms)
  where
    go :
        (v : Option (List ℕ))
        → or_else v (field name ls) ≡ none
        → (field name ls ≡ none → field name (ls ++ ms) ≡ field name ms)
        → or_else v (field name (ls ++ ms)) ≡ field name ms
    go none e ih = ih e
    go (some x) e ih = absurd cc

field-kept :
    (name : List ℕ) (hs : List Header)
    → All IsHeader hs
    → has_named name hs ≡ false
    → field name (map header_line (kept hs)) ≡ none
unfolding has_named field or_else
field-kept name [] a h = refl
field-kept name (x ∷ hs) (named, a) h = elim (Bool-cases (contains_control_chars x.value)) [
  | inl bad ↦ rw bad (field-kept name hs a (rw bad at h))
  | inr good ↦
      let both : (caseeq x.name name || has_named name hs) ≡ false = rw good at h in
      let other : caseeq x.name name ≡ false = ground arith in
      let rest : has_named name hs ≡ false = ground arith in
      rw (good, split_field-header_line x.name x.value named, other) (field-kept name hs a rest)
]

field-content_type :
    (b : Bool)
    → field (codes "Content-Length") (default_line b (codes "Content-Type: text/plain")) ≡ none
unfolding field split_field caseeq or_else
field-content_type true = refl
field-content_type false = refl

field-content_length :
    (value : List ℕ) (ms : List (List ℕ))
    → field (codes "Content-Length") ((codes "Content-Length: " ++ value) ∷ ms) ≡ some value
unfolding field split_field caseeq or_else
field-content_length value ms = refl

read_digits-length_of :
    (body : Option (List ℕ)) (n : ℕ)
    → (body ≡ none → n ≡ 0)
    → read_digits 0 (length_of body n) ≡ some n
unfolding read_digits
read_digits-length_of none n h = rw (h refl) refl
read_digits-length_of (some body) n h = elim (Bool-cases (ltb 0 n)) [
  | inl more ↦ rw more (read_digits-decimal n)
  | inr zero_length ↦ let empty : n ≡ 0 = ground arith in rw (zero_length, empty) refl
]

-- Where a response has no header of that name in any case, the head announces the length that it
-- was built for, which is 0 if there is no body.
pub content_length-response_lines :
    (r : Response) (n : ℕ)
    → All IsHeader (present r)
    → has_named (codes "Content-Length") (present r) ≡ false
    → (r.body ≡ none → n ≡ 0)
    → content_length (response_lines r n) ≡ some n
unfolding content_length
content_length-response_lines r n a missing h =
    let hs = present r in
    rw
      (
        missing,
        field-append (codes "Content-Length") (map header_line (kept hs)) _
            (field-kept (codes "Content-Length") hs a missing),
        field-append (codes "Content-Length")
            (default_line (has_named (codes "Content-Type") hs) (codes "Content-Type: text/plain"))
            _ (field-content_type (has_named (codes "Content-Type") hs)),
        field-content_length (length_text r n) _,
      )
      (read_digits-length_of r.body n h)
