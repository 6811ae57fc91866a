-- ===== src/Response/Print.antt =====
-- `%d` and `%zu` of `snprintf`, as src/uvhttp_response.c prints a status and a length, and a reader
-- of decimal digits.
use uvhttp.Prelude.{
  ℕ, zero, suc, ◌+◌, ◌-◌, ◌*◌, ◌/◌, ◌%◌, ◌≤◌, ◌<◌, true, ◌&&◌, List, [], ◌∷◌, Option, none, some,
  ◌≡◌, refl, ◌∙◌, if◌then◌else◌, leb, ◌==◌, All, arith, Bool-cases, inl, inr,
}

-- The digits of a number before those that are there; a round for each digit.
unfoldable pub digits_of : ℕ → ℕ → List ℕ → List ℕ
digits_of zero n later = later
digits_of (suc rounds) n later =
    let now = (b'0' + n % 10) ∷ later in
    let more = digits_of rounds (n / 10) now in if n / 10 == 0 then now else more

-- A number below 10 has one digit, and a tenth of a number is smaller, so its value is enough.
unfoldable pub decimal : ℕ → List ℕ
unfolding digits_of
decimal n = digits_of (suc n) n []

-- The number that digits stand for, behind the number `acc`; `none` where one is no digit.
unfoldable pub read_digits : ℕ → List ℕ → Option ℕ
read_digits acc [] = some acc
read_digits acc (c ∷ s) =
    if leb b'0' c && leb c b'9' then read_digits (acc * 10 + (c - b'0')) s else none

abbrev pub IsDigit : ℕ → Type 0
IsDigit c = (b'0' ≤ c) × (c ≤ b'9')

digits_of-IsDigit :
    (rounds n : ℕ) (later : List ℕ) → All IsDigit later → All IsDigit (digits_of rounds n later)
unfolding digits_of
digits_of-IsDigit zero n later h = h
digits_of-IsDigit (suc rounds) n later h = elim (Bool-cases (n / 10 == 0)) [
  | inl last ↦ rw last ((omega arith, omega arith), h)
  | inr more ↦
      rw more (
        digits_of-IsDigit rounds (n / 10) ((b'0' + n % 10) ∷ later) ((omega arith, omega arith), h))
]

pub decimal-IsDigit : (n : ℕ) → All IsDigit (decimal n)
unfolding decimal
decimal-IsDigit n = digits_of-IsDigit (suc n) n [] tt

-- Reading the digits of `n` and then the later ones is reading the later ones behind `n`.
read_digits-digits_of :
    (rounds n : ℕ) (later : List ℕ)
    → n < rounds
    → read_digits 0 (digits_of rounds n later) ≡ read_digits n later
unfolding read_digits digits_of
read_digits-digits_of zero n later h = absurd (omega arith)
read_digits-digits_of (suc rounds) n later h = elim (Bool-cases (n / 10 == 0)) [
  | inl last ↦
      let small : n % 10 ≡ n = ground arith in
      let value : 0 * 10 + (b'0' + n % 10 - b'0') ≡ n = omega arith in rw last (step 0 n value)
  | inr more ↦
      let value : n / 10 * 10 + (b'0' + n % 10 - b'0') ≡ n = omega arith in
      rw more (
        read_digits-digits_of rounds (n / 10) ((b'0' + n % 10) ∷ later) (ground arith)
        ∙ step (n / 10) n value)
]
  where
    step :
        (acc n' : ℕ)
        → acc * 10 + (b'0' + n % 10 - b'0') ≡ n'
        → read_digits acc ((b'0' + n % 10) ∷ later) ≡ read_digits n' later
    step acc n' value =
        let digit : (leb b'0' (b'0' + n % 10) && leb (b'0' + n % 10) b'9') ≡ true = ground arith in
        rw (digit, value) refl

-- A printed number is read back.
pub read_digits-decimal : (n : ℕ) → read_digits 0 (decimal n) ≡ some n
unfolding decimal read_digits
read_digits-decimal n = read_digits-digits_of (suc n) n [] (omega arith)
