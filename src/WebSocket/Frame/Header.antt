-- ===== src/WebSocket/Frame/Header.antt =====
-- Parsing a frame header: more bytes change nothing, and the header lies in the buffer.
use uvhttp.Prelude.{ℕ, ◌+◌, ◌≤◌, ◌≡◌, List, [], ◌∷◌, ◌++◌, length, arith}
use uvhttp.Error.{ok}
use uvhttp.WebSocket.Frame.{
  FrameHeader, short_header, extended_16, checked_64, extended_64, parse_frame_header,
}

module _ (h : FrameHeader) {r : FrameHeader × ℕ} where
  extended_16-append :
      (xs ys : List ℕ)
      → extended_16 h xs ≡ ok r
      → (extended_16 h (xs ++ ys) ≡ ok r) × (r.1 ≤ length xs + 2) × (2 ≤ r.1)
  unfolding extended_16
  extended_16-append [] ys e = cc
  extended_16-append (x ∷ []) ys e = cc
  extended_16-append (x ∷ y ∷ xs) ys e = (e, ground arith, ground arith)

  checked_64_size : (n : ℕ) → checked_64 h n ≡ ok r → r.1 ≡ 10
  unfolding checked_64
  checked_64_size n e = ground arith

  extended_64-append :
      (xs ys : List ℕ)
      → extended_64 h xs ≡ ok r
      → (extended_64 h (xs ++ ys) ≡ ok r) × (r.1 ≤ length xs + 2) × (2 ≤ r.1)
  unfolding extended_64
  extended_64-append (b2 ∷ b3 ∷ b4 ∷ b5 ∷ b6 ∷ b7 ∷ b8 ∷ b9 ∷ xs) ys e =
      (e, omega (arith, checked_64_size _ e), omega (arith, checked_64_size _ e))
  extended_64-append xs ys e = cc

-- A header that parses is parsed alike whatever bytes follow, and it lies inside the buffer.
pub parse_frame_header-append :
    (xs ys : List ℕ) {r : FrameHeader × ℕ}
    → parse_frame_header xs ≡ ok r
    → (parse_frame_header (xs ++ ys) ≡ ok r) × (r.1 ≤ length xs) × (2 ≤ r.1)
unfolding parse_frame_header
parse_frame_header-append [] ys e = cc
parse_frame_header-append (b0 ∷ []) ys e = cc
parse_frame_header-append (b0 ∷ b1 ∷ rest) ys e = ground (
  arith,
  extended_16-append (short_header b0 b1) rest ys,
  extended_64-append (short_header b0 b1) rest ys,
)
