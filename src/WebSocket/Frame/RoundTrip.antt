-- ===== src/WebSocket/Frame/RoundTrip.antt =====
-- Building a frame and parsing it.
use uvhttp.Prelude.{
  ℕ, ◌+◌, ◌/◌, ◌%◌, ◌<◌, ◌≤◌, ◌^◌, ◌≡◌, ◌↔◌, refl, Bool, true, false, List, [], ◌∷◌, ◌++◌, Option,
  some, ◌⊎◌, length, take, drop, arith, if◌then◌else◌, ltb, Bool-cases, inl, inr, ltb→lt,
}
use uvhttp.Error.{Result, ok, err, invalid_param}
use uvhttp.WebSocket.Frame.Header.{parse_frame_header-append}
use uvhttp.WebSocket.Frame.Mask.{apply_mask_twice, length-apply_mask}
use uvhttp.WebSocket.Frame.{
  FrameHeader, short_header, big_endian, parse_frame_header, apply_mask, header_size_for, mask_size,
  length_bytes, first_byte, frame_body, with_header, build_frame,
}

-- The length code of a payload length.
abbrev pub code_for : ℕ → ℕ
code_for n = if ltb n 126 then n else if ltb n 65536 then 126 else 127

-- The header that the sender means.
abbrev pub header_of : Bool → ℕ → Bool → ℕ → FrameHeader
header_of fin opcode mask n = record {
  fin = fin;
  rsv1 = false;
  rsv2 = false;
  rsv3 = false;
  opcode = opcode;
  mask = mask;
  payload_len = code_for n;
  payload_length = n;
}

big_endian_digits :
    (n : ℕ)
    → n < 2 ^ 64
    → big_endian
        (n / 2 ^ 56 % 256)
        (n / 2 ^ 48 % 256)
        (n / 2 ^ 40 % 256)
        (n / 2 ^ 32 % 256)
        (n / 2 ^ 24 % 256)
        (n / 2 ^ 16 % 256)
        (n / 2 ^ 8 % 256)
        (n % 256)
      ≡ n
big_endian_digits n h = omega arith

short_header_first :
    (fin mask : Bool) (opcode code : ℕ)
    → opcode < 16
    → code < 128
    → short_header (first_byte fin opcode) ((if mask then 0x80 else 0) + code) ≡ record {
      fin = fin;
      rsv1 = false;
      rsv2 = false;
      rsv3 = false;
      opcode = opcode;
      mask = mask;
      payload_len = code;
      payload_length = code;
    }
unfolding short_header first_byte
short_header_first fin mask opcode code h k = ground arith

module _ (fin mask : Bool) (opcode n : ℕ) (body : List ℕ) (small : opcode < 16)
    (fits : n < 2 ^ 63) where
  abbrev wire : List ℕ
  wire = first_byte fin opcode ∷ (length_bytes mask n ++ body)

  abbrev Parses : ℕ → Type 0
  Parses size =
      (parse_frame_header wire ≡ ok (header_of fin opcode mask n, size))
      × (drop size wire ≡ body)
      × (length wire ≡ size + length body)

  parse_short : n < 126 → Parses (header_size_for n)
  unfolding header_size_for parse_frame_header length_bytes
  parse_short h = ground (arith, short_header_first fin mask opcode n small)

  parse_16 : 126 ≤ n → n < 65536 → Parses (header_size_for n)
  unfolding header_size_for parse_frame_header length_bytes
  parse_16 h k = ground (arith, short_header_first fin mask opcode 126 small)

  parse_64 : 65536 ≤ n → Parses (header_size_for n)
  unfolding header_size_for parse_frame_header length_bytes
  parse_64 h = ground (arith, short_header_first fin mask opcode 127 small, big_endian_digits n)

  parse_wire : Parses (header_size_for n)
  parse_wire = elim (Bool-cases (ltb n 126)) [
    | inl short ↦ parse_short (ltb→lt _ _ short)
    | inr long ↦ elim (Bool-cases (ltb n 65536)) [
      | inl middle ↦ parse_16 (ground arith) (ltb→lt _ _ middle)
      | inr large ↦ parse_64 (ground arith)
    ]
  ]

-- What a receiver makes of the bytes behind the header.
abbrev pub unmasked : Bool → List ℕ → List ℕ
unmasked mask body = if mask then apply_mask (take 4 body) (drop 4 body) else body

unmasked-frame_body :
    (mask : Bool) (key payload : List ℕ) {body : List ℕ}
    → length key ≡ 4
    → frame_body mask (some key) payload ≡ ok body
    → (unmasked mask body ≡ payload) × (length body ≡ mask_size mask + length payload)
unfolding frame_body
unmasked-frame_body false key payload four e = ground arith
unmasked-frame_body true (a ∷ b ∷ c ∷ d ∷ []) payload four e = ground (
  arith,
  apply_mask_twice (a ∷ b ∷ c ∷ d ∷ []) payload,
  length-apply_mask (a ∷ b ∷ c ∷ d ∷ []) payload,
)
unmasked-frame_body true key payload four e = absurd (omega arith)

with_header-eq-ok :
    (mask fin : Bool) (opcode n : ℕ) (r : Result (List ℕ)) {frame : List ℕ}
    → with_header mask fin opcode n r ≡ ok frame
    → (body : List ℕ) × (r ≡ ok body)
      × (frame ≡ first_byte fin opcode ∷ (length_bytes mask n ++ body))
unfolding with_header
with_header-eq-ok mask fin opcode n (ok body) e = (body, refl, cc)
with_header-eq-ok mask fin opcode n (err x) e = cc

build_frame-eq-ok :
    (drawn : Option (List ℕ)) (buffer_size : ℕ) (payload : List ℕ) (opcode : ℕ) (mask fin : Bool)
    {frame : List ℕ}
    → build_frame drawn buffer_size payload opcode mask fin ≡ ok frame
    → (body : List ℕ) × (frame_body mask drawn payload ≡ ok body)
      × (frame ≡ first_byte fin opcode ∷ (length_bytes mask (length payload) ++ body))
      × (header_size_for (length payload) + length payload + mask_size mask ≤ buffer_size)
unfolding build_frame
build_frame-eq-ok drawn buffer_size payload opcode mask fin e =
    let (body, is, same) =
      with_header-eq-ok mask fin opcode (length payload) (frame_body mask drawn payload)
        (ground arith) in
    (body, is, same, ground arith)

-- A frame that is built, followed by whatever bytes, is parsed as the header that was meant: a
-- payload below 2^63 bytes, four key bytes and an opcode of four bits. The bytes behind that
-- header are, unmasked as a receiver does, the payload; the frame has exactly the size of the
-- header, the key and the payload, and lies in the buffer.
pub parse_frame_header-build_frame :
    (key : List ℕ) (buffer_size : ℕ) (payload : List ℕ) (opcode : ℕ) (mask fin : Bool)
    (rest frame : List ℕ)
    → length key ≡ 4
    → opcode < 16
    → length payload < 2 ^ 63
    → build_frame (some key) buffer_size payload opcode mask fin ≡ ok frame
    → (parse_frame_header (frame ++ rest)
        ≡ ok (header_of fin opcode mask (length payload), header_size_for (length payload)))
      × (unmasked mask (drop (header_size_for (length payload)) frame) ≡ payload)
      × (length frame ≡ header_size_for (length payload) + mask_size mask + length payload)
      × (length frame ≤ buffer_size)
parse_frame_header-build_frame key buffer_size payload opcode mask fin rest frame four small fits
      e =
    let (body, is, same, room) =
      build_frame-eq-ok (some key) buffer_size payload opcode mask fin e in
    let (parses, behind, size) = parse_wire fin mask opcode (length payload) body small fits in
    let (clear, body_size) = unmasked-frame_body mask key payload four is in
    rw same ((parse_frame_header-append _ rest parses).0, rw behind clear, omega arith, omega arith)

-- The bytes that the length of a payload takes behind the second byte of a frame.
pub data ExtendedLength : ℕ → ℕ → Type 0 where
  in_second_byte : {n : ℕ} → n ≤ 125 → ExtendedLength n 0
  two_bytes : {n : ℕ} → 126 ≤ n → n ≤ 0xFFFF → ExtendedLength n 2
  eight_bytes : {n : ℕ} → 0x10000 ≤ n → ExtendedLength n 8

-- The size of a frame, counted without a bound: two bytes, the extended length, the key, the payload.
abbrev pub wire_size : ℕ → Bool → ℕ → ℕ
wire_size extended mask n = 2 + extended + (if mask then 4 else 0) + n

-- With a key at hand, building a frame for a payload of any length, also one for which the size
-- would wrap around, fails exactly where the frame has more bytes than the buffer, or 2^63 or more.
pub build_frame-eq-err_iff :
    (key : List ℕ) (buffer_size : ℕ) (payload : List ℕ) (opcode : ℕ) (mask fin : Bool)
    {extended : ℕ}
    → ExtendedLength (length payload) extended
    → (build_frame (some key) buffer_size payload opcode mask fin ≡ err invalid_param) ↔ (
        (buffer_size < wire_size extended mask (length payload))
        ⊎ (2 ^ 63 ≤ wire_size extended mask (length payload)))
unfolding build_frame
build_frame-eq-err_iff key buffer_size payload opcode mask fin (in_second_byte h) = ground arith
build_frame-eq-err_iff key buffer_size payload opcode mask fin (two_bytes h k) = ground arith
build_frame-eq-err_iff key buffer_size payload opcode mask fin (eight_bytes h) = ground arith
