-- ===== src/Response/Headers/Plain.antt =====
-- No line of the head that src/uvhttp_response.c builds has a CR or an LF in it, or is empty.
use mathlib.Core.List.{map}
use uvhttp.Prelude.{
  ℕ, Bool, true, false, not, ◌&&◌, ◌||◌, List, [], ◌∷◌, ◌++◌, Option, none, some, ◌≡◌, refl, ◌≢◌,
  inl, inr, if◌then◌else◌, ltb, ◌==◌, codes, All, arith, Bool-cases,
}
use uvhttp.Validation.Header.{IsNameChar}
use uvhttp.Response.{Header, Response, contains_control_chars, is_control}
use uvhttp.Response.Print.{decimal, decimal-IsDigit, IsDigit}
use uvhttp.Response.Headers.{
  get_status_text, present, header_line, has_named, status_line, length_of, length_text,
}
use uvhttp.Response.Headers.Layout.{kept, default_line, connection_lines, response_lines}

-- Neither CR nor LF.
abbrev pub IsPlain : ℕ → Type 0
IsPlain c = (c ≢ 13) × (c ≢ 10)

abbrev pub IsLine : List ℕ → Type 0
IsLine [] = ⊥
IsLine (c ∷ s) = All IsPlain (c ∷ s)

-- What is plain.
All-append : (s t : List ℕ) → All IsPlain s → All IsPlain t → All IsPlain (s ++ t)
All-append [] t h k = k
All-append (c ∷ s) t (p, h) k = (p, All-append s t h k)

IsPlain-digits : (s : List ℕ) → All IsDigit s → All IsPlain s
IsPlain-digits [] h = tt
IsPlain-digits (c ∷ s) (d, h) =
    ((λ e. absurd (omega arith), λ e. absurd (omega arith)), IsPlain-digits s h)

IsPlain-name : (s : List ℕ) → All IsNameChar s → All IsPlain s
IsPlain-name [] h = tt
IsPlain-name (c ∷ s) (d, h) =
    ((λ e. absurd (omega arith), λ e. absurd (omega arith)), IsPlain-name s h)

IsPlain-value : (s : List ℕ) → contains_control_chars s ≡ false → All IsPlain s
unfolding contains_control_chars
IsPlain-value [] h = tt
IsPlain-value (c ∷ s) h =
    let here : is_control c ≡ false = ground arith in
    let later : contains_control_chars s ≡ false = ground arith in
    ((λ e. ground arith, λ e. ground arith), IsPlain-value s later)

-- Is a text free of CR and LF?
all_plain : List ℕ → Bool
all_plain [] = true
all_plain (c ∷ s) = not (c == 13 || c == 10) && all_plain s

IsPlain-test : (s : List ℕ) → all_plain s ≡ true → All IsPlain s
unfolding all_plain
IsPlain-test [] h = tt
IsPlain-test (c ∷ s) h =
    let later : all_plain s ≡ true = ground arith in
    ((λ e. ground arith, λ e. ground arith), IsPlain-test s later)

if-all_plain :
    (b : Bool) (s t : List ℕ)
    → all_plain s ≡ true
    → all_plain t ≡ true
    → all_plain (if b then s else t) ≡ true
if-all_plain true s t h k = h
if-all_plain false s t h k = k

status_text-all_plain : (code : ℕ) → all_plain (get_status_text code) ≡ true
unfolding get_status_text all_plain
status_text-all_plain code = if-all_plain (code == 100) _ _ refl (
    if-all_plain (code == 101) _ _ refl (
      if-all_plain (code == 200) _ _ refl (
        if-all_plain (code == 201) _ _ refl (
          if-all_plain (code == 204) _ _ refl (
            if-all_plain (code == 400) _ _ refl (
              if-all_plain (code == 401) _ _ refl (
                if-all_plain (code == 403) _ _ refl (
                  if-all_plain (code == 404) _ _ refl (
                    if-all_plain (code == 405) _ _ refl (
                      if-all_plain (code == 500) _ _ refl (
                        if-all_plain (code == 501) _ _ refl (
                          if-all_plain (code == 502) _ _ refl
                            (if-all_plain (code == 503) _ _ refl refl)))))))))))))

status_line-IsLine : (r : Response) → IsLine (status_line r)
unfolding all_plain
status_line-IsLine r =
    All-append (codes "HTTP/1.1 ")
      (decimal r.status_code ++ (codes " " ++ get_status_text r.status_code))
      (IsPlain-test (codes "HTTP/1.1 ") refl)
      (All-append (decimal r.status_code) (codes " " ++ get_status_text r.status_code)
        (IsPlain-digits (decimal r.status_code) (decimal-IsDigit r.status_code))
        (All-append (codes " ") (get_status_text r.status_code) (IsPlain-test (codes " ") refl)
          (IsPlain-test (get_status_text r.status_code) (status_text-all_plain r.status_code))))

-- A header as it is stored: its name consists of digits, letters and hyphens.
abbrev pub IsHeader : Header → Type 0
IsHeader h = All IsNameChar h.name

header_line-IsPlain :
    (h : Header) → IsHeader h → contains_control_chars h.value ≡ false → All IsPlain (header_line h)
unfolding all_plain
header_line-IsPlain h named good =
    All-append h.name (codes ": " ++ h.value) (IsPlain-name h.name named) (
      All-append (codes ": ") h.value (IsPlain-test (codes ": ") refl) (IsPlain-value h.value good))

header_line-IsLine : (h : Header) → All IsPlain (header_line h) → IsLine (header_line h)
header_line-IsLine h p = go h.name h.value p
  where
    go : (n v : List ℕ) → All IsPlain (n ++ (codes ": " ++ v)) → IsLine (n ++ (codes ": " ++ v))
    go [] v x = x
    go (c ∷ n) v x = x

All-lines : (ls ms : List (List ℕ)) → All IsLine ls → All IsLine ms → All IsLine (ls ++ ms)
All-lines [] ms h k = k
All-lines (l ∷ ls) ms (p, h) k = (p, All-lines ls ms h k)

kept-lines : (hs : List Header) → All IsHeader hs → All IsLine (map header_line (kept hs))
kept-lines [] h = tt
kept-lines (h ∷ hs) (named, rest) = elim (Bool-cases (contains_control_chars h.value)) [
  | inl bad ↦ rw bad (kept-lines hs rest)
  | inr good ↦ rw good (header_line-IsLine h (header_line-IsPlain h named good), kept-lines hs rest)
]

default_line-lines : (b : Bool) (l : List ℕ) → IsLine l → All IsLine (default_line b l)
default_line-lines true l h = tt
default_line-lines false l h = (h, tt)

length_of-IsPlain : (body : Option (List ℕ)) (n : ℕ) → All IsPlain (length_of body n)
unfolding all_plain
length_of-IsPlain none n = IsPlain-test (codes "0") refl
length_of-IsPlain (some body) n = choose (ltb 0 n)
  where
    choose : (b : Bool) → All IsPlain (if b then decimal n else codes "0")
    choose true = IsPlain-digits (decimal n) (decimal-IsDigit n)
    choose false = IsPlain-test (codes "0") refl

connection_lines-lines : (b k : Bool) → All IsLine (connection_lines b k)
unfolding all_plain
connection_lines-lines true k = tt
connection_lines-lines false true = (
  IsPlain-test (codes "Connection: keep-alive") refl,
  (IsPlain-test (codes "Keep-Alive: timeout=30, max=100") refl, tt),
)
connection_lines-lines false false = (IsPlain-test (codes "Connection: close") refl, tt)

pub response_lines-IsLine :
    (r : Response) (n : ℕ) → All IsHeader (present r) → All IsLine (response_lines r n)
unfolding all_plain
response_lines-IsLine r n h =
    let hs = present r in
    (
      status_line-IsLine r,
      All-lines (map header_line (kept hs)) _ (kept-lines hs h) (
          All-lines
            (default_line (has_named (codes "Content-Type") hs) (codes "Content-Type: text/plain"))
            _
            (default_line-lines (has_named (codes "Content-Type") hs)
              (codes "Content-Type: text/plain")
              (IsPlain-test (codes "Content-Type: text/plain") refl))
            (All-lines
              (default_line (has_named (codes "Content-Length") hs)
                (codes "Content-Length: " ++ length_text r n))
              _
              (default_line-lines (has_named (codes "Content-Length") hs)
                (codes "Content-Length: " ++ length_text r n)
                (All-append (codes "Content-Length: ") (length_text r n)
                  (IsPlain-test (codes "Content-Length: ") refl) (length_of-IsPlain r.body n)))
              (connection_lines-lines (has_named (codes "Connection") hs) r.keepalive))),
    )
