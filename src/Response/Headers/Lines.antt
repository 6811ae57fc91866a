-- ===== src/Response/Headers/Lines.antt =====
-- The head of a response, as src/uvhttp_response.c builds it, to a strict reader of lines.
use uvhttp.Prelude.{
  ℕ, Bool, true, false, List, [], ◌∷◌, ◌++◌, append_assoc, append-nil, Option, none, some, ◌≡◌,
  refl, ap, ◌∙◌, if◌then◌else◌, ◌==◌, All, arith,
}
use uvhttp.Response.{Response}
use uvhttp.Response.Headers.{crlf, present, build_response_headers}
use uvhttp.Response.Headers.Layout.{response_lines, unlines, build-unlines}
use uvhttp.Response.Headers.Plain.{IsPlain, IsLine, IsHeader, response_lines-IsLine}

-- A reader of lines that end in CR LF, up to an empty one: the lines, and what stands behind. A CR or
-- an LF by itself is refused. `cur` is the line so far, `cr` whether a CR has been read.
unfoldable pub read_lines : List ℕ → Bool → List ℕ → Option (List (List ℕ) × List ℕ)
read_lines cur cr [] = none
read_lines [] true (c ∷ s) = if c == 10 then some ([], s) else none
read_lines (d ∷ cur) true (c ∷ s) =
    let later : Option (List (List ℕ) × List ℕ) = elim (read_lines [] false s) [
      | none ↦ none
      | some (ls, rest) ↦ some ((d ∷ cur) ∷ ls, rest)
    ] in
    if c == 10 then later else none
read_lines cur false (c ∷ s) =
    let ended = read_lines cur true s in
    let longer = read_lines (cur ++ c ∷ []) false s in
    if c == 13 then ended else if c == 10 then none else longer

read_lines-plain :
    (cur l s : List ℕ)
    → All IsPlain l
    → read_lines cur false (l ++ s) ≡ read_lines (cur ++ l) false s
unfolding read_lines
read_lines-plain cur [] s h = rw (append-nil cur) refl
read_lines-plain [] (c ∷ l) s ((not_cr, not_lf), h) =
    let a : (c == 13) ≡ false = ground arith in
    let b : (c == 10) ≡ false = ground arith in rw (a, b) (read_lines-plain (c ∷ []) l s h)
read_lines-plain (d ∷ cur) (c ∷ l) s ((not_cr, not_lf), h) =
    let a : (c == 13) ≡ false = ground arith in
    let b : (c == 10) ≡ false = ground arith in
    rw (a, b)
      (read_lines-plain ((d ∷ cur) ++ c ∷ []) l s h
        ∙ ap (λ x. read_lines x false s) (append_assoc (d ∷ cur) (c ∷ []) l))

read_lines-crlf :
    (c : ℕ) (l s : List ℕ) {ls : List (List ℕ)} {rest : List ℕ}
    → read_lines [] false s ≡ some (ls, rest)
    → read_lines (c ∷ l) false (crlf ++ s) ≡ some ((c ∷ l) ∷ ls, rest)
unfolding read_lines
read_lines-crlf c l s e = rw e refl

read_lines-end : (rest : List ℕ) → read_lines [] false (crlf ++ rest) ≡ some ([], rest)
unfolding read_lines
read_lines-end rest = refl

read_lines-unlines :
    (ls : List (List ℕ)) (rest : List ℕ)
    → All IsLine ls
    → read_lines [] false (unlines ls ++ (crlf ++ rest)) ≡ some (ls, rest)
read_lines-unlines [] rest h = read_lines-end rest
read_lines-unlines ([] ∷ ls) rest (h, hs) = elim h [ ]
read_lines-unlines ((c ∷ l) ∷ ls) rest (h, hs) =
    ap (read_lines [] false) (append_assoc (c ∷ l) (crlf ++ unlines ls) (crlf ++ rest))
    ∙ read_lines-plain [] (c ∷ l) (crlf ++ (unlines ls ++ (crlf ++ rest))) h
    ∙ read_lines-crlf c l (unlines ls ++ (crlf ++ rest)) (read_lines-unlines ls rest hs)

-- Whatever stands behind the head of a response, a strict reader takes the head for exactly the
-- lines that are meant, and ends before what follows: no value of a header adds a line or begins
-- the body. The names of the headers are as they are stored.
pub read_lines-build_response_headers :
    (r : Response) (body_length : ℕ) (rest : List ℕ)
    → All IsHeader (present r)
    → read_lines [] false (build_response_headers r body_length ++ rest)
      ≡ some (response_lines r body_length, rest)
read_lines-build_response_headers r n rest h =
    ap (λ t. read_lines [] false (t ++ rest)) (build-unlines r n)
    ∙ ap (read_lines [] false) (append_assoc (unlines (response_lines r n)) crlf rest)
    ∙ read_lines-unlines (response_lines r n) rest (response_lines-IsLine r n h)
