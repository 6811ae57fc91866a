-- ===== src/WebSocket/Frame.antt =====
-- Frame headers, masking and frame building of src/uvhttp_websocket.c. A buffer is the list of
-- its bytes; a written field of disjoint bits (`a << 8 | b`) is a sum.
pub mod Header
pub mod Mask
pub mod RoundTrip
use uvhttp.Prelude.{
  ℕ, zero, suc, ◌+◌, ◌-◌, ◌*◌, ◌/◌, ◌%◌, ◌^◌, Bool, true, false, List, [], ◌∷◌, ◌++◌, Option, none,
  some, if◌then◌else◌, ltb, leb, ◌==◌, length, get_or, has_bit, bit_xor, ◌||◌,
}
use uvhttp.Error.{Error, invalid_param, Result, ok, err}

-- `uvhttp_ws_frame_header_t`: `payload_len` is the 7-bit length code.
pub record FrameHeader : Type 0 where
  pub fin : Bool
  pub rsv1 : Bool
  pub rsv2 : Bool
  pub rsv3 : Bool
  pub opcode : ℕ
  pub mask : Bool
  pub payload_len : ℕ
  pub payload_length : ℕ

abbrev pub size_max : ℕ
size_max = 2 ^ 64 - 1

-- The fields of the first two bytes.
unfoldable pub short_header : ℕ → ℕ → FrameHeader
short_header b0 b1 = record {
  fin = has_bit b0 0x80;
  rsv1 = has_bit b0 0x40;
  rsv2 = has_bit b0 0x20;
  rsv3 = has_bit b0 0x10;
  opcode = b0 % 16;
  mask = has_bit b1 0x80;
  payload_len = b1 % 128;
  payload_length = b1 % 128;
}

unfoldable pub extended_16 : FrameHeader → List ℕ → Result (FrameHeader × ℕ)
extended_16 h (b2 ∷ b3 ∷ _) = ok (record h { payload_length = b2 * 2 ^ 8 + b3 }, 4)
extended_16 h _ = err invalid_param

abbrev pub big_endian : ℕ → ℕ → ℕ → ℕ → ℕ → ℕ → ℕ → ℕ → ℕ
big_endian b2 b3 b4 b5 b6 b7 b8 b9 =
    b2 * 2 ^ 56
    + b3 * 2 ^ 48
    + b4 * 2 ^ 40
    + b5 * 2 ^ 32
    + b6 * 2 ^ 24
    + b7 * 2 ^ 16
    + b8 * 2 ^ 8
    + b9

-- The most significant bit of a 64-bit length must be 0.
unfoldable pub checked_64 : FrameHeader → ℕ → Result (FrameHeader × ℕ)
checked_64 h n =
    if has_bit n (2 ^ 63) then err invalid_param else ok (record h { payload_length = n }, 10)

unfoldable pub extended_64 : FrameHeader → List ℕ → Result (FrameHeader × ℕ)
unfolding checked_64
extended_64 h (b2 ∷ b3 ∷ b4 ∷ b5 ∷ b6 ∷ b7 ∷ b8 ∷ b9 ∷ _) =
    checked_64 h (big_endian b2 b3 b4 b5 b6 b7 b8 b9)
extended_64 h _ = err invalid_param

-- `uvhttp_ws_parse_frame_header`: the header and its size on the wire.
unfoldable pub parse_frame_header : List ℕ → Result (FrameHeader × ℕ)
unfolding short_header extended_16 extended_64
parse_frame_header (b0 ∷ b1 ∷ rest) =
    let h = short_header b0 b1 in
    if h.payload_len == 126
    then extended_16 h rest
    else if h.payload_len == 127
    then extended_64 h rest
    else ok (h, 2)
parse_frame_header _ = err invalid_param

-- The loop of `uvhttp_ws_apply_mask`, from index `i`; the key has four bytes.
unfoldable pub mask_from : ℕ → List ℕ → List ℕ → List ℕ
mask_from i key [] = []
mask_from i key (b ∷ bs) = bit_xor b (get_or key (i % 4) 0) ∷ mask_from (i + 1) key bs

unfoldable pub apply_mask : List ℕ → List ℕ → List ℕ
unfolding mask_from
apply_mask key bytes = mask_from 0 key bytes

unfoldable pub header_size_for : ℕ → ℕ
header_size_for payload_len =
    if ltb payload_len 126 then 2 else if ltb payload_len 65536 then 4 else 10

abbrev pub mask_size : Bool → ℕ
mask_size mask = if mask then 4 else 0

-- The second byte and the extended payload length.
unfoldable pub length_bytes : Bool → ℕ → List ℕ
length_bytes mask n =
    let m = if mask then 0x80 else 0 in
    if ltb n 126
    then (m + n) ∷ []
    else if ltb n 65536
    then (m + 126) ∷ (n / 2 ^ 8 % 256) ∷ (n % 256) ∷ []
    else (m + 127)
      ∷ (n / 2 ^ 56 % 256)
      ∷ (n / 2 ^ 48 % 256)
      ∷ (n / 2 ^ 40 % 256)
      ∷ (n / 2 ^ 32 % 256)
      ∷ (n / 2 ^ 24 % 256)
      ∷ (n / 2 ^ 16 % 256)
      ∷ (n / 2 ^ 8 % 256)
      ∷ (n % 256)
      ∷ []

unfoldable pub first_byte : Bool → ℕ → ℕ
first_byte fin opcode = (if fin then 0x80 else 0) + opcode % 16

-- The bytes behind the header: the payload, or the key that was drawn and the masked payload.
unfoldable pub frame_body : Bool → Option (List ℕ) → List ℕ → Result (List ℕ)
unfolding apply_mask
frame_body false drawn payload = ok payload
frame_body true none payload = err invalid_param
frame_body true (some key) payload = ok (key ++ apply_mask key payload)

unfoldable pub with_header : Bool → Bool → ℕ → ℕ → Result (List ℕ) → Result (List ℕ)
unfolding first_byte length_bytes
with_header mask fin opcode n (ok body) = ok (first_byte fin opcode ∷ (length_bytes mask n ++ body))
with_header mask fin opcode n (err e) = err e

-- `uvhttp_ws_build_frame` into a buffer of `buffer_size` bytes: the bytes written, whose number is
-- the size returned, or an error where what is returned is negative, as a `long` of 64 bits is for
-- a size of 2^63 or more. `drawn` is what the random generator returns for the masking key.
unfoldable pub build_frame : Option (List ℕ) → ℕ → List ℕ → ℕ → Bool → Bool → Result (List ℕ)
unfolding header_size_for with_header frame_body
build_frame drawn buffer_size payload opcode mask fin =
    let n = length payload in
    let header_size = header_size_for n in
    let total_size = (header_size + n + mask_size mask) % 2 ^ 64 in
    if ltb (size_max - header_size - mask_size mask) n
      || ltb buffer_size total_size
      || leb (2 ^ 63) total_size
    then err invalid_param
    else with_header mask fin opcode n (frame_body mask drawn payload)
