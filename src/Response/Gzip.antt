-- ===== src/Response/Gzip.antt =====
-- `uvhttp_compress_gzip` of src/uvhttp_response.c, and a reader of its format. What zlib does is a
-- parameter: `deflate` is the raw stream, or none on an error, and `crc32` the checksum. A body is
-- below 4 GB, so that casting its length to 32 bits cuts nothing that is fed to `deflate`.
use uvhttp.Prelude.{
  ℕ, ◌/◌, ◌%◌, ◌^◌, List, [], ◌∷◌, ◌++◌, Option, none, some, ◌≡◌, refl, if◌then◌else◌, ◌==◌, length,
  drop, starts, Bool-cases, inl, inr, ◌+◌, ◌*◌, ◌&&◌, true, arith, ◌∙◌,
}
use uvhttp.Error.{invalid_param, io_error, Result, ok, err}

-- The four bytes of a number, the lowest first.
abbrev pub little_endian : ℕ → List ℕ
little_endian n = (n % 256) ∷ (n / 2 ^ 8 % 256) ∷ (n / 2 ^ 16 % 256) ∷ (n / 2 ^ 24 % 256) ∷ []

-- The magic number, the method, no flags, no time, and an unknown system.
abbrev pub gzip_header : List ℕ
gzip_header = 0x1F ∷ 0x8B ∷ 0x08 ∷ 0 ∷ 0 ∷ 0 ∷ 0 ∷ 0 ∷ 0 ∷ 0xFF ∷ []

-- The checksum and the length of the input, modulo 2^32.
abbrev pub gzip_trailer : (List ℕ → ℕ) → List ℕ → List ℕ
gzip_trailer crc32 input = little_endian (crc32 input) ++ little_endian (length input % 2 ^ 32)

abbrev pub gzip_of : (List ℕ → ℕ) → List ℕ → Option (List ℕ) → Result (List ℕ)
gzip_of crc32 input none = err io_error
gzip_of crc32 input (some raw) = ok (gzip_header ++ (raw ++ gzip_trailer crc32 input))

-- `uvhttp_compress_gzip`
unfoldable pub compress_gzip : (List ℕ → Option (List ℕ)) → (List ℕ → ℕ) → List ℕ → Result (List ℕ)
compress_gzip deflate crc32 input =
    if length input == 0 then err invalid_param else gzip_of crc32 input (deflate input)

-- A reader of RFC 1952 for a stream without flags: `inflate` gives what a raw stream stands for and
-- the bytes behind it, which are the checksum of the output and then its length, each of four bytes
-- with the lowest first.
abbrev read_trailer : (List ℕ → ℕ) → List ℕ → List ℕ → Option (List ℕ)
read_trailer crc32 output (a0 ∷ a1 ∷ a2 ∷ a3 ∷ b0 ∷ b1 ∷ b2 ∷ b3 ∷ []) =
    if (a0 + a1 * 2 ^ 8 + a2 * 2 ^ 16 + a3 * 2 ^ 24 == crc32 output % 2 ^ 32)
      && (b0 + b1 * 2 ^ 8 + b2 * 2 ^ 16 + b3 * 2 ^ 24 == length output % 2 ^ 32)
    then some output
    else none
read_trailer crc32 output _ = none

abbrev check_trailer : (List ℕ → ℕ) → Option (List ℕ × List ℕ) → Option (List ℕ)
check_trailer crc32 none = none
check_trailer crc32 (some (output, rest)) = read_trailer crc32 output rest

unfoldable pub gunzip :
    (List ℕ → Option (List ℕ × List ℕ)) → (List ℕ → ℕ) → List ℕ → Option (List ℕ)
gunzip inflate crc32 s =
    if starts (0x1F ∷ 0x8B ∷ 0x08 ∷ 0 ∷ []) s
    then check_trailer crc32 (inflate (drop 10 s))
    else none

-- What the code relies on: a stream can be inflated, whatever stands behind it.
abbrev pub Inflates : (List ℕ → Option (List ℕ)) → (List ℕ → Option (List ℕ × List ℕ)) → Type 0
Inflates deflate inflate =
    (input raw rest : List ℕ)
    → deflate input ≡ some raw
    → inflate (raw ++ rest) ≡ some (input, rest)

sum_of_bytes :
    (n : ℕ)
    → n % 256
        + (n / 2 ^ 8 % 256) * 2 ^ 8
        + (n / 2 ^ 16 % 256) * 2 ^ 16
        + (n / 2 ^ 24 % 256) * 2 ^ 24
      ≡ n % 2 ^ 32
sum_of_bytes n = omega arith

==-of-≡ : {a b : ℕ} → a ≡ b → (a == b) ≡ true
==-of-≡ e = ground arith

read_trailer-gzip_trailer :
    (crc32 : List ℕ → ℕ) (input : List ℕ)
    → read_trailer crc32 input (gzip_trailer crc32 input) ≡ some input
read_trailer-gzip_trailer crc32 input =
    let n = length input % 2 ^ 32 in
    let size : n % 256
          + (n / 2 ^ 8 % 256) * 2 ^ 8
          + (n / 2 ^ 16 % 256) * 2 ^ 16
          + (n / 2 ^ 24 % 256) * 2 ^ 24
        ≡ length input % 2 ^ 32 =
      sum_of_bytes n ∙ omega arith in
    rw (==-of-≡ (sum_of_bytes (crc32 input)), ==-of-≡ size) refl

gzip_of-ok :
    (crc32 : List ℕ → ℕ) (input z : List ℕ) (o : Option (List ℕ))
    → gzip_of crc32 input o ≡ ok z
    → (raw : List ℕ) × (o ≡ some raw) × (z ≡ gzip_header ++ (raw ++ gzip_trailer crc32 input))
gzip_of-ok crc32 input z none e = absurd cc
gzip_of-ok crc32 input z (some raw) e = (raw, refl, cc)

-- What is compressed is a gzip stream that a reader of that format turns into the input again,
-- where zlib inflates what it has deflated: behind the header and the raw stream it finds, the
-- lowest byte first, the checksum modulo 2^32 and then the length modulo 2^32 of the input.
pub gunzip-compress_gzip :
    (deflate : List ℕ → Option (List ℕ)) (inflate : List ℕ → Option (List ℕ × List ℕ))
    (crc32 : List ℕ → ℕ) (input z : List ℕ)
    → Inflates deflate inflate
    → compress_gzip deflate crc32 input ≡ ok z
    → gunzip inflate crc32 z ≡ some input
unfolding compress_gzip gunzip
gunzip-compress_gzip deflate inflate crc32 input z law e = elim (Bool-cases (length input == 0)) [
  | inl empty ↦ let refused : err invalid_param ≡ ok z = rw empty at e in absurd cc
  | inr filled ↦
      let (raw, made, same) = gzip_of-ok crc32 input z (deflate input) (rw filled at e) in
      rw (same, law input raw (gzip_trailer crc32 input) made)
        (read_trailer-gzip_trailer crc32 input)
]
