-- ===== src/Response/Headers/Layout.antt =====
-- The lines of which `build_response_headers` of src/uvhttp_response.c makes up the head of a response.
use mathlib.Core.List.{map}
use uvhttp.Prelude.{
  ℕ, Bool, true, false, List, [], ◌∷◌, ◌++◌, append_assoc, append-nil, ◌≡◌, refl, ap, inl, inr,
  if◌then◌else◌, codes, Bool-cases,
}
use uvhttp.Response.{Header, Response, contains_control_chars}
use uvhttp.Response.Headers.{
  crlf, present, header_line, headers_text, has_named, status_line, content_type_text, length_text,
  content_length_text, connection_text, build_response_headers,
}

-- The headers that are written.
abbrev pub kept : List Header → List Header
kept [] = []
kept (h ∷ hs) = if contains_control_chars h.value then kept hs else h ∷ kept hs

abbrev pub default_line : Bool → List ℕ → List (List ℕ)
default_line true line = []
default_line false line = line ∷ []

abbrev pub connection_lines : Bool → Bool → List (List ℕ)
connection_lines true keepalive = []
connection_lines false true =
    codes "Connection: keep-alive" ∷ codes "Keep-Alive: timeout=30, max=100" ∷ []
connection_lines false false = codes "Connection: close" ∷ []

-- The lines of the head of a response: the status, the headers without control characters in their
-- order, and what is missing of Content-Type, Content-Length and Connection.
abbrev pub response_lines : Response → ℕ → List (List ℕ)
response_lines r body_length =
    let hs = present r in
    status_line r
    ∷ (map header_line (kept hs)
        ++ (default_line (has_named (codes "Content-Type") hs) (codes "Content-Type: text/plain")
            ++ (default_line (has_named (codes "Content-Length") hs)
                  (codes "Content-Length: " ++ length_text r body_length)
                ++ connection_lines (has_named (codes "Connection") hs) r.keepalive)))

abbrev pub unlines : List (List ℕ) → List ℕ
unlines [] = []
unlines (l ∷ ls) = l ++ (crlf ++ unlines ls)

unlines-append : (ls ms : List (List ℕ)) → unlines (ls ++ ms) ≡ unlines ls ++ unlines ms
unlines-append [] ms = refl
unlines-append (l ∷ ls) ms = simp (unlines-append ls ms, append_assoc)

headers_text-unlines : (hs : List Header) → headers_text hs ≡ unlines (map header_line (kept hs))
unfolding headers_text
headers_text-unlines [] = refl
headers_text-unlines (h ∷ hs) = elim (Bool-cases (contains_control_chars h.value)) [
  | inl bad ↦ rw bad (headers_text-unlines hs)
  | inr good ↦ rw good (ap (λ t. header_line h ++ (crlf ++ t)) (headers_text-unlines hs))
]

content_type-unlines :
    (b : Bool) → content_type_text b ≡ unlines (default_line b (codes "Content-Type: text/plain"))
content_type-unlines true = refl
content_type-unlines false = refl

content_length-unlines :
    (b : Bool) (r : Response) (n : ℕ)
    → content_length_text b r n
      ≡ unlines (default_line b (codes "Content-Length: " ++ length_text r n))
content_length-unlines true r n = refl
content_length-unlines false r n = simp (append_assoc, append-nil)

connection-unlines : (b k : Bool) → connection_text b k ≡ unlines (connection_lines b k)
connection-unlines true k = refl
connection-unlines false true = refl
connection-unlines false false = refl

-- The text is that of the lines, and an empty one.
pub build-unlines :
    (r : Response) (n : ℕ) → build_response_headers r n ≡ unlines (response_lines r n) ++ crlf
unfolding build_response_headers
build-unlines r n =
    let hs = present r in
    rw
      (
        headers_text-unlines hs,
        content_type-unlines (has_named (codes "Content-Type") hs),
        content_length-unlines (has_named (codes "Content-Length") hs) r n,
        connection-unlines (has_named (codes "Connection") hs) r.keepalive,
      )
      (simp (unlines-append, append_assoc))
