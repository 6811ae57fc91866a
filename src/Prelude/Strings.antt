-- ===== src/Prelude/Strings.antt =====
-- C strings as the lists of their bytes before the terminating 0, and what the program uses of
-- string.h: `strcmp` and `strncmp` against 0, `strchr`, `strtok` with the delimiter "/".
use Prim.Native.Nat.{ℕ, ◌+◌}
use mathlib.Core.Path.{◌≡◌, refl, ap, ap₂, sym, subst}
use mathlib.Core.Bool.{Bool, true, false, ◌&&◌, ◌||◌}
use mathlib.Core.Logic.{◌≢◌, ◌↔◌, inl, inr}
use mathlib.Core.List.{List, [], ◌∷◌, ◌++◌}
use native.Mathlib.Omega.{arith}
use uvhttp.Prelude.Tests.{leb, ◌==◌, ==_iff, ==_refl, &&-true, if◌then◌else◌, Bool-cases}
use uvhttp.Prelude.Lists.{take, All}

-- `strcmp(a, b) == 0`
abbrev pub streq : List ℕ → List ℕ → Bool
streq [] [] = true
streq (x ∷ xs) (y ∷ ys) = x == y && streq xs ys
streq _ _ = false

-- `strncmp(a, b, n) == 0`
abbrev pub strneq : ℕ → List ℕ → List ℕ → Bool
strneq n a b = streq (take n a) (take n b)

pub streq_refl : (xs : List ℕ) → streq xs xs ≡ true
streq_refl [] = refl
streq_refl (x ∷ xs) = ground (arith, streq_refl xs)

pub eq_of_streq : (xs ys : List ℕ) → streq xs ys ≡ true → xs ≡ ys
eq_of_streq [] [] h = refl
eq_of_streq (x ∷ xs) (y ∷ ys) h =
    let (p, q) = &&-true (x == y) (streq xs ys) h in
    ap₂ ◌∷◌ ((==_iff x y).0 p) (eq_of_streq xs ys q)
eq_of_streq [] (y ∷ ys) h = cc
eq_of_streq (x ∷ xs) [] h = cc

-- A letter in lower case, in the C locale.
abbrev pub lower : ℕ → ℕ
lower c = if leb b'A' c && leb c b'Z' then c + 32 else c

abbrev pub lower_all : List ℕ → List ℕ
lower_all [] = []
lower_all (c ∷ s) = lower c ∷ lower_all s

-- `strcasecmp(a, b) == 0` in the C locale.
unfoldable pub caseeq : List ℕ → List ℕ → Bool
caseeq a b = streq (lower_all a) (lower_all b)

-- `strchr(s, c) != NULL`
abbrev pub has_char : List ℕ → ℕ → Bool
has_char [] c = false
has_char (x ∷ xs) c = if x == c then true else has_char xs c

-- The token that ends here, if it is not empty, before the later ones.
abbrev pub emit : List ℕ → List (List ℕ) → List (List ℕ)
emit [] later = later
emit (c ∷ cs) later = (c ∷ cs) ∷ later

tokens_from : List ℕ → List ℕ → List (List ℕ)
tokens_from cur [] = emit cur []
tokens_from cur (c ∷ s) =
    let closed = emit cur (tokens_from [] s) in
    let longer = tokens_from (cur ++ c ∷ []) s in if c == b'/' then closed else longer

-- The tokens that `strtok(s, "/")` and its later calls return.
unfoldable pub tokens : List ℕ → List (List ℕ)
unfolding tokens_from
tokens s = tokens_from [] s

-- A token: not empty, and free of slashes.
abbrev pub NoSlash : List ℕ → Type 0
NoSlash [] = Unit
NoSlash (c ∷ s) = (c ≢ b'/') × NoSlash s

NoSlash-snoc : (s : List ℕ) (c : ℕ) → NoSlash s → c ≢ b'/' → NoSlash (s ++ c ∷ [])
NoSlash-snoc [] c h n = (n, tt)
NoSlash-snoc (d ∷ s) c (m, h) n = (m, NoSlash-snoc s c h n)

abbrev pub IsToken : List ℕ → Type 0
IsToken [] = ⊥
IsToken (c ∷ s) = NoSlash (c ∷ s)

emit-IsToken :
    (cur : List ℕ) (later : List (List ℕ))
    → NoSlash cur
    → All IsToken later
    → All IsToken (emit cur later)
emit-IsToken [] later h k = k
emit-IsToken (c ∷ cs) later h k = (h, k)

tokens_from-IsToken : (cur s : List ℕ) → NoSlash cur → All IsToken (tokens_from cur s)
unfolding tokens_from
tokens_from-IsToken cur [] h = emit-IsToken cur [] h tt
tokens_from-IsToken cur (c ∷ s) h = elim (Bool-cases (c == b'/')) [
  | inl slash ↦ rw slash (emit-IsToken cur _ h (tokens_from-IsToken [] s tt))
  | inr plain ↦
      rw plain (tokens_from-IsToken (cur ++ c ∷ []) s (NoSlash-snoc cur c h (ground arith)))
]

pub tokens-IsToken : (s : List ℕ) → All IsToken (tokens s)
unfolding tokens
tokens-IsToken s = tokens_from-IsToken [] s tt

-- Does a string begin with another?
abbrev pub starts : List ℕ → List ℕ → Bool
starts [] s = true
starts (x ∷ xs) [] = false
starts (x ∷ xs) (y ∷ ys) = x == y && starts xs ys

-- `strstr(s, sub) != NULL`
abbrev pub has_substring : List ℕ → List ℕ → Bool
has_substring sub [] = starts sub []
has_substring sub (c ∷ s) = starts sub (c ∷ s) || has_substring sub s

-- A string is a part of another.
abbrev pub IsPart : List ℕ → List ℕ → Type 0
IsPart sub s = (before : List ℕ) × (behind : List ℕ) × (s ≡ before ++ (sub ++ behind))

starts-rest : (sub s : List ℕ) → starts sub s ≡ true → (behind : List ℕ) × (s ≡ sub ++ behind)
starts-rest [] s h = (s, refl)
starts-rest (x ∷ xs) [] h = absurd cc
starts-rest (x ∷ xs) (y ∷ ys) h =
    let (same, tail) = &&-true (x == y) (starts xs ys) h in
    let (behind, e) = starts-rest xs ys tail in (behind, ap₂ ◌∷◌ (sym ((==_iff x y).0 same)) e)

starts-append : (sub behind : List ℕ) → starts sub (sub ++ behind) ≡ true
starts-append [] behind = refl
starts-append (x ∷ xs) behind = rw (==_refl x) (starts-append xs behind)

has_substring-IsPart : (sub s : List ℕ) → has_substring sub s ≡ true → IsPart sub s
has_substring-IsPart sub [] h = let (behind, e) = starts-rest sub [] h in ([], behind, e)
has_substring-IsPart sub (c ∷ s) h = elim (Bool-cases (starts sub (c ∷ s))) [
  | inl here ↦ let (behind, e) = starts-rest sub (c ∷ s) here in ([], behind, e)
  | inr later ↦
      let (before, behind, e) = has_substring-IsPart sub s (rw later at h) in
      (c ∷ before, behind, ap (◌∷◌ c) e)
]

has_substring_here : (sub s : List ℕ) → starts sub s ≡ true → has_substring sub s ≡ true
has_substring_here sub [] h = h
has_substring_here sub (c ∷ s) h = rw h refl

has_substring_of_IsPart :
    (sub before behind : List ℕ) → has_substring sub (before ++ (sub ++ behind)) ≡ true
has_substring_of_IsPart sub [] behind =
    has_substring_here sub (sub ++ behind) (starts-append sub behind)
has_substring_of_IsPart sub (c ∷ before) behind =
    ground (arith, has_substring_of_IsPart sub before behind)

-- `strstr` finds exactly the parts of a string.
pub has_substring_iff : (sub s : List ℕ) → (has_substring sub s ≡ true) ↔ IsPart sub s
has_substring_iff sub s = (
  has_substring-IsPart sub s,
  λ (before, behind, e).
      subst (λ x. has_substring sub x ≡ true) (sym e) (has_substring_of_IsPart sub before behind),
)
