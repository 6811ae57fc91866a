-- ===== src/LruCache/Sweep.antt =====
-- What `uvhttp_lru_cache_cleanup_expired` does to the ends of the list.
use uvhttp.Prelude.{
  ℕ, false, List, [], ◌∷◌, ◌++◌, none, some, ◌≡◌, refl, ap, sym, subst, ◌∙◌, ◌==◌, append_assoc,
}
use uvhttp.LruCache.{Lru, points_to, sweep, sweep_before, sweep_after, with_next}
use uvhttp.LruCache.Shape.{final-snoc, IsList}
use uvhttp.LruCache.Links.{with_next-lru_next, with_next-lru_prev}
use uvhttp.LruCache.Unlink.{unlink_safe}

sweep_by :
    (l : Lru) (i p : ℕ)
    → (l.heap i).lru_prev ≡ some p
    → (l.heap i).lru_next ≡ none
    → (p == i) ≡ false
    → ((sweep l i).lru_head ≡ some p) × ((sweep l i).lru_tail ≡ l.lru_tail)
unfolding sweep
sweep_by l i p prev next other =
    subst (λ q. Ends (sweep_after (sweep_before l i q) i ((sweep_before l i q).heap i).lru_next))
      (sym prev)
      (subst (λ r. Ends (sweep_after (sweep_before l i (some p)) i r)) (sym behind)
        (with_next-lru_prev l.heap p (l.heap i).lru_next i ∙ prev, refl))
  where
    Ends : Lru → Type 0
    Ends k = (k.lru_head ≡ some p) × (k.lru_tail ≡ l.lru_tail)

    behind : (with_next l.heap p (l.heap i).lru_next i).lru_next ≡ none
    behind = with_next-lru_next l.heap p (l.heap i).lru_next i ∙ rw other next

-- Where the tail of a well-formed list of two entries or more has expired and is swept, the tail still
-- is the entry that has been freed, and the head is the entry before it.
pub sweep-tail :
    (l : Lru) (xs : List ℕ) (p i : ℕ)
    → IsList l (xs ++ p ∷ i ∷ [])
    → ((sweep l i).lru_tail ≡ some i) × ((sweep l i).lru_head ≡ some p)
sweep-tail l xs p i v =
    let whole : xs ++ p ∷ i ∷ [] ≡ (xs ++ p ∷ []) ++ i ∷ [] =
      sym (append_assoc xs (p ∷ []) (i ∷ [])) in
    let w : IsList l ((xs ++ p ∷ []) ++ i ∷ []) = subst (IsList l) whole v in
    let prev = w.prev (xs ++ p ∷ []) [] i refl ∙ final-snoc xs p in
    let safe = ap (λ q. points_to q i) (sym prev) ∙ unlink_safe l (xs ++ p ∷ []) [] i w in
    let (head, tail) = sweep_by l i p prev (w.next (xs ++ p ∷ []) [] i refl) safe in
    (tail ∙ w.tail ∙ final-snoc (xs ++ p ∷ []) i, head)
