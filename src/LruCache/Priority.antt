-- ===== src/LruCache/Priority.antt =====
-- Which entry gives way where entries are protected by their priority.
use uvhttp.Prelude.{
  ℕ, zero, suc, ◌+◌, ◌<◌, Bool, true, false, ◌&&◌, List, [], ◌∷◌, ◌++◌, Option, none, some, ◌≡◌,
  refl, ap, sym, subst, ◌∙◌, ◌⊎◌, inl, inr, leb, length, length-append, append_assoc, append-nil,
  arith, Bool-cases, All,
}
use uvhttp.LruCache.{Lru, unlink, unprotected, remove_at, remove_lowest_priority}
use uvhttp.LruCache.Shape.{final, final-snoc, IsList}
use uvhttp.LruCache.Unlink.{unlink-IsList}
use uvhttp.LruCache.Moves.{without-IsAbsent, detach-IsList}

-- An entry may not be evicted.
abbrev pub is_protected : Lru → Bool → ℕ → ℕ → Bool
is_protected l enabled threshold i = enabled && leb threshold (l.heap i).priority

abbrev pub AllProtected : Lru → Bool → ℕ → List ℕ → Type 0
AllProtected l enabled threshold xs = All (λ i. is_protected l enabled threshold i ≡ true) xs

-- The last of a list that may be evicted, with those before and behind it.
pub record IsLastFree (l : Lru) (enabled : Bool) (threshold : ℕ) (zs xs : List ℕ) (i : ℕ)
    (ys : List ℕ) : Type 0 where
  pub cut : zs ≡ xs ++ i ∷ ys
  pub free : is_protected l enabled threshold i ≡ false
  pub behind : AllProtected l enabled threshold ys

-- A list is empty or has a last element.
ends : (xs : List ℕ) → (xs ≡ []) ⊎ ((ws : List ℕ) × (z : ℕ) × (xs ≡ ws ++ z ∷ []))
ends [] = inl refl
ends (x ∷ xs) = elim (ends xs) [
  | inl empty ↦ inr ([], x, ap (◌∷◌ x) empty)
  | inr (ws, z, e) ↦ inr (x ∷ ws, z, ap (◌∷◌ x) e)
]

module _ (l : Lru) (enabled : Bool) (threshold : ℕ) (zs : List ℕ) (v : IsList l zs) where
  -- What the loop finds, when it has passed `post` and comes to the last of `pre`.
  abbrev Finds : Option ℕ → Type 0
  Finds none = AllProtected l enabled threshold zs
  Finds (some i) = (xs : List ℕ) × (ys : List ℕ) × IsLastFree l enabled threshold zs xs i ys

  unprotected-Finds :
      (fuel : ℕ) (pre post : List ℕ)
      → zs ≡ pre ++ post
      → length pre < fuel
      → AllProtected l enabled threshold post
      → Finds (unprotected fuel l.heap enabled threshold (final pre))
  unfolding unprotected
  unprotected-Finds zero pre post e lt a = absurd (omega arith)
  unprotected-Finds (suc fuel) pre post e lt a = elim (ends pre) [
    | inl empty ↦
        subst (λ q. Finds (unprotected (suc fuel) l.heap enabled threshold q))
          (sym (ap final empty))
          (subst (AllProtected l enabled threshold) (sym (e ∙ ap (λ k. k ++ post) empty)) a)
    | inr (ws, z, cut) ↦
        let whole : zs ≡ ws ++ z ∷ post =
          e ∙ ap (λ k. k ++ post) cut ∙ append_assoc ws (z ∷ []) post in
        let size : length pre ≡ length ws + 1 = ap length cut ∙ length-append ws (z ∷ []) in
        subst (λ q. Finds (unprotected (suc fuel) l.heap enabled threshold q))
          (sym (ap final cut ∙ final-snoc ws z))
          (elim (Bool-cases (is_protected l enabled threshold z)) [
            | inl kept ↦ rw kept (
                subst (λ q. Finds (unprotected fuel l.heap enabled threshold q))
                  (sym (v.prev ws post z whole))
                  (unprotected-Finds fuel ws (z ∷ post) whole (omega arith) (kept, a)))
            | inr free ↦ rw free (ws, post, record { cut = whole; free = free; behind = a })
          ])
  ]

-- With fuel for the whole of a well-formed list: an entry is removed, the last that is not protected,
-- and the list of the others is left in their order; or all entries are protected and nothing is
-- removed.
pub remove_lowest_priority-IsLastFree :
    (l : Lru) (enabled : Bool) (threshold fuel : ℕ) (zs : List ℕ)
    → IsList l zs
    → length zs < fuel
    → (((remove_lowest_priority fuel l enabled threshold).1 ≡ none)
        × AllProtected l enabled threshold zs)
      ⊎ ((xs : List ℕ) × (i : ℕ) × (ys : List ℕ) × ((remove_lowest_priority fuel l enabled
              threshold).1
            ≡ some i)
          × IsLastFree l enabled threshold zs xs i ys
          × IsList (remove_lowest_priority fuel l enabled threshold).0 (xs ++ ys))
unfolding remove_lowest_priority
remove_lowest_priority-IsLastFree l enabled threshold fuel zs v lt =
    go (unprotected fuel l.heap enabled threshold l.lru_tail) (
      subst (λ q. Finds l enabled threshold zs v (unprotected fuel l.heap enabled threshold q))
        (sym v.tail)
        (unprotected-Finds l enabled threshold zs v fuel zs [] (sym (append-nil zs)) lt tt))
  where
    go :
        (r : Option ℕ)
        → Finds l enabled threshold zs v r
        → (((remove_at l r).1 ≡ none) × AllProtected l enabled threshold zs)
          ⊎ ((xs : List ℕ) × (i : ℕ) × (ys : List ℕ) × ((remove_at l r).1 ≡ some i)
              × IsLastFree l enabled threshold zs xs i ys
              × IsList (remove_at l r).0 (xs ++ ys))
    go none a = inl (refl, a)
    go (some i) (xs, ys, f) =
        let w : IsList l (xs ++ i ∷ ys) = subst (IsList l) f.cut v in
        inr (
          xs,
          i,
          ys,
          refl,
          f,
          detach-IsList (unlink l i) (xs ++ ys) i (unlink-IsList l xs ys i w)
              (without-IsAbsent xs ys i w.distinct),
        )
