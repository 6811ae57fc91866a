-- ===== src/RouterCache/Template/Fits.antt =====
-- When a path fits a route template, and that the loop of src/uvhttp_router_cache.c decides it.
use uvhttp.Prelude.{
  ℕ, zero, suc, ◌≤◌, true, false, List, [], ◌∷◌, ◌++◌, ◌≡◌, refl, ap, ◌∙◌, sym, subst, ◌≢◌, ◌↔◌,
  inl, inr, ◌==◌, ==_iff, Bool-cases, length, length-append, arith, NoSlash,
}
use uvhttp.RouterCache.Template.{skip_segment, word, matches_from, matches_template}
use uvhttp.RouterCache.Template.Words.{
  IsRest, word-skip_segment, word-NoSlash, skip_segment-IsRest, skip_segment-append,
}

-- A byte other than a colon fits itself. A colon and the rest of its word fit what is left of the
-- word of the path, which may be empty unless the path ends there.
pub data Fits : List ℕ → List ℕ → Type 0 where
  done : Fits [] []
  same : (c : ℕ) (r p : List ℕ) → c ≢ b':' → Fits r p → Fits (c ∷ r) (c ∷ p)
  param :
      (name value r p route path : List ℕ)
      → route ≡ b':' ∷ (name ++ r)
      → path ≡ value ++ p
      → path ≢ []
      → NoSlash name
      → NoSlash value
      → IsRest r
      → IsRest p
      → Fits r p
      → Fits route path

pub skip_param : (c : ℕ) (r : List ℕ) → (c == b':') ≡ true → skip_segment (c ∷ r) ≡ skip_segment r
unfolding skip_segment
skip_param c r h = let other : (c == b'/') ≡ false = ground arith in rw other refl

matches_from-Fits : (rounds : ℕ) (r p : List ℕ) → matches_from rounds r p ≡ true → Fits r p
unfolding matches_from
matches_from-Fits rounds [] [] h = done
matches_from-Fits rounds [] (d ∷ p) h = absurd cc
matches_from-Fits rounds (c ∷ r) [] h = absurd cc
matches_from-Fits zero (c ∷ r) (d ∷ p) h = absurd cc
matches_from-Fits (suc rounds) (c ∷ r) (d ∷ p) h = elim (Bool-cases (c == b':')) [
  | inl colon ↦
      let rest : Fits (skip_segment r) (skip_segment (d ∷ p)) =
        matches_from-Fits rounds (skip_segment r) (skip_segment (d ∷ p))
          (rw (colon, skip_param c r colon) at h) in
      param (word r) (word (d ∷ p)) (skip_segment r) (skip_segment (d ∷ p)) (c ∷ r) (d ∷ p)
        (ap (λ x. x ∷ r) ((==_iff c b':').0 colon) ∙ ap (◌∷◌ b':') (word-skip_segment r))
        (word-skip_segment (d ∷ p)) (λ e. cc) (word-NoSlash r) (word-NoSlash (d ∷ p))
        (skip_segment-IsRest r) (skip_segment-IsRest (d ∷ p)) rest
  | inr other ↦ elim (Bool-cases (c == d)) [
    | inl e ↦
        subst (λ x. Fits (c ∷ r) (x ∷ p)) ((==_iff c d).0 e)
          (same c r p (ground arith) (matches_from-Fits rounds r p (rw (other, e) at h)))
    | inr ne ↦ absurd (ground arith)
  ]
]

matches_from-word :
    (rounds : ℕ) (name value r p path : List ℕ)
    → path ≡ value ++ p
    → path ≢ []
    → NoSlash name
    → NoSlash value
    → IsRest r
    → IsRest p
    → matches_from rounds r p ≡ true
    → matches_from (suc rounds) (b':' ∷ (name ++ r)) path ≡ true
unfolding matches_from
matches_from-word rounds name value r p [] e full n v kr kp behind = absurd (full refl)
matches_from-word rounds name value r p (d ∷ ds) e full n v kr kp behind =
    rw
      (
        skip_param b':' (name ++ r) refl,
        skip_segment-append name r n kr,
        e,
        skip_segment-append value p v kp,
      )
      behind

pub matches_from_complete :
    (rounds : ℕ) (r p : List ℕ) → length r ≤ rounds → Fits r p → matches_from rounds r p ≡ true
unfolding matches_from
matches_from_complete rounds _ _ h done = refl
matches_from_complete zero _ _ h (same c r p n f) = absurd (omega arith)
matches_from_complete (suc rounds) _ _ h (same c r p n f) =
    let other : (c == b':') ≡ false = ground arith in
    let e : (c == c) ≡ true = ground arith in
    rw (other, e) (matches_from_complete rounds r p (omega arith) f)
matches_from_complete zero _ _ h (param name value r p route path er ep full n v kr kp f) =
    absurd (omega (arith, ap length er))
matches_from_complete (suc rounds) _ _ h (param name value r p route path er ep full n v kr kp f) =
    let left : length r ≤ rounds = omega (arith, ap length er, length-append name r) in
    subst (λ (x : List ℕ). matches_from (suc rounds) x path ≡ true) (sym er)
      (matches_from-word rounds name value r p path ep full n v kr kp
        (matches_from_complete rounds r p left f))

-- The loop decides whether a path fits a template.
pub matches_template_iff :
    (route path : List ℕ) → (matches_template route path ≡ true) ↔ Fits route path
unfolding matches_template
matches_template_iff route path = (
  matches_from-Fits (length route) route path,
  matches_from_complete (length route) route path (omega arith),
)
