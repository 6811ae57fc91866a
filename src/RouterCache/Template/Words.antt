-- ===== src/RouterCache/Template/Words.antt =====
-- The words of a path between its slashes, as src/uvhttp_router_cache.c steps over them.
use uvhttp.Prelude.{
  ℕ, true, false, ◌≤◌, List, [], ◌∷◌, ◌++◌, ◌≡◌, refl, ap, inl, inr, ◌==◌, ==_iff, Bool-cases,
  length, arith, NoSlash,
}
use uvhttp.RouterCache.Template.{skip_segment, word}

-- What stands behind a word: nothing, or a slash.
abbrev pub IsRest : List ℕ → Type 0
IsRest [] = Unit
IsRest (c ∷ s) = c ≡ b'/'

pub word-skip_segment : (s : List ℕ) → s ≡ word s ++ skip_segment s
unfolding word skip_segment
word-skip_segment [] = refl
word-skip_segment (c ∷ s) = elim (Bool-cases (c == b'/')) [
  | inl slash ↦ rw slash refl
  | inr other ↦ rw other (ap (◌∷◌ c) (word-skip_segment s))
]

pub word-NoSlash : (s : List ℕ) → NoSlash (word s)
unfolding word
word-NoSlash [] = tt
word-NoSlash (c ∷ s) = elim (Bool-cases (c == b'/')) [
  | inl slash ↦ rw slash tt
  | inr other ↦ rw other (ground arith, word-NoSlash s)
]

pub skip_segment-IsRest : (s : List ℕ) → IsRest (skip_segment s)
unfolding skip_segment
skip_segment-IsRest [] = tt
skip_segment-IsRest (c ∷ s) = elim (Bool-cases (c == b'/')) [
  | inl slash ↦ rw slash ((==_iff c b'/').0 slash)
  | inr other ↦ rw other (skip_segment-IsRest s)
]

pub skip_segment-append : (w s : List ℕ) → NoSlash w → IsRest s → skip_segment (w ++ s) ≡ s
unfolding skip_segment
skip_segment-append [] [] h k = refl
skip_segment-append [] (c ∷ s) h k = let slash : (c == b'/') ≡ true = ground arith in rw slash refl
skip_segment-append (c ∷ w) s (n, h) k =
    let other : (c == b'/') ≡ false = ground arith in rw other (skip_segment-append w s h k)

pub length-skip_segment : (s : List ℕ) → length (skip_segment s) ≤ length s
unfolding skip_segment
length-skip_segment [] = omega arith
length-skip_segment (c ∷ s) = ground (arith, length-skip_segment s)

pub length-word : (s : List ℕ) → length (word s) ≤ length s
unfolding word
length-word [] = omega arith
length-word (c ∷ s) = ground (arith, length-word s)
