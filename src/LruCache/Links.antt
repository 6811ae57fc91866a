-- ===== src/LruCache/Links.antt =====
-- What taking an entry out of the list and putting it at the head write.
use uvhttp.Prelude.{
  ℕ, Bool, true, false, Option, none, some, ◌≡◌, refl, ap, sym, subst, ◌∙◌, if◌then◌else◌, ◌==◌,
}
use uvhttp.LruCache.{
  Entry, Lru, points_to, with_next, with_prev, unlink_before, unlink_after, unlink,
}

module _ (heap : ℕ → Entry) (p : ℕ) (v : Option ℕ) (j : ℕ) where
  pub with_next-lru_next :
      (with_next heap p v j).lru_next ≡ (if p == j then v else (heap j).lru_next)
  with_next-lru_next = go (p == j)
    where
      go :
          (b : Bool)
          → (let e : Entry = if b then record (heap j) { lru_next = v } else heap j in e.lru_next)
            ≡ (if b then v else (heap j).lru_next)
      go true = refl
      go false = refl

  pub with_next-lru_prev : (with_next heap p v j).lru_prev ≡ (heap j).lru_prev
  with_next-lru_prev = go (p == j)
    where
      go :
          (b : Bool)
          → (let e : Entry = if b then record (heap j) { lru_next = v } else heap j in e.lru_prev)
            ≡ (heap j).lru_prev
      go true = refl
      go false = refl

  pub with_prev-lru_prev :
      (with_prev heap p v j).lru_prev ≡ (if p == j then v else (heap j).lru_prev)
  with_prev-lru_prev = go (p == j)
    where
      go :
          (b : Bool)
          → (let e : Entry = if b then record (heap j) { lru_prev = v } else heap j in e.lru_prev)
            ≡ (if b then v else (heap j).lru_prev)
      go true = refl
      go false = refl

  pub with_prev-lru_next : (with_prev heap p v j).lru_next ≡ (heap j).lru_next
  with_prev-lru_next = go (p == j)
    where
      go :
          (b : Bool)
          → (let e : Entry = if b then record (heap j) { lru_prev = v } else heap j in e.lru_next)
            ≡ (heap j).lru_next
      go true = refl
      go false = refl

-- The pointers after an entry has been taken out.
pub record Unlinked (l l' : Lru) (i : ℕ) : Type 0 where
  pub nexts :
      (j : ℕ)
      → (l'.heap j).lru_next
        ≡ (if points_to (l.heap i).lru_prev j then (l.heap i).lru_next else (l.heap j).lru_next)
  pub prevs :
      (j : ℕ)
      → (l'.heap j).lru_prev
        ≡ (if points_to (l.heap i).lru_next j then (l.heap i).lru_prev else (l.heap j).lru_prev)
  pub head :
      l'.lru_head ≡ (elim (l.heap i).lru_prev [ none ↦ (l.heap i).lru_next | some _ ↦ l.lru_head ])
  pub tail :
      l'.lru_tail ≡ (elim (l.heap i).lru_next [ none ↦ (l.heap i).lru_prev | some _ ↦ l.lru_tail ])

module _ (l : Lru) (i : ℕ) where
  before_next :
      (q : Option ℕ)
      → (l.heap i).lru_prev ≡ q
      → points_to q i ≡ false
      → ((unlink_before l i q).heap i).lru_next ≡ (l.heap i).lru_next
  before_next none e n = refl
  before_next (some p) e n = with_next-lru_next l.heap p (l.heap i).lru_next i ∙ rw n refl

  by_prev :
      (q : Option ℕ) (j : ℕ)
      → (l.heap i).lru_prev ≡ q
      → (if points_to q j then (l.heap i).lru_next else (l.heap j).lru_next)
        ≡ (if points_to (l.heap i).lru_prev j then (l.heap i).lru_next else (l.heap j).lru_next)
  by_prev q j e =
      ap (λ (x : Option ℕ). if points_to x j then (l.heap i).lru_next else (l.heap j).lru_next)
        (sym e)

  by_next :
      (r : Option ℕ) (j : ℕ)
      → (l.heap i).lru_next ≡ r
      → (if points_to r j then (l.heap i).lru_prev else (l.heap j).lru_prev)
        ≡ (if points_to (l.heap i).lru_next j then (l.heap i).lru_prev else (l.heap j).lru_prev)
  by_next r j e =
      ap (λ (x : Option ℕ). if points_to x j then (l.heap i).lru_prev else (l.heap j).lru_prev)
        (sym e)

  new_head : Option ℕ → Option ℕ
  new_head q = elim q [ none ↦ (l.heap i).lru_next | some _ ↦ l.lru_head ]

  new_end : Option ℕ → Option ℕ
  new_end r = elim r [ none ↦ (l.heap i).lru_prev | some _ ↦ l.lru_tail ]

  Unlinked-by :
      (q r : Option ℕ)
      → (l.heap i).lru_prev ≡ q
      → (l.heap i).lru_next ≡ r
      → Unlinked l (unlink_after (unlink_before l i q) i r) i
  unfolding new_head new_end
  Unlinked-by none none e f = record {
    nexts = λ j. by_prev none j e;
    prevs = λ j. by_next none j f;
    head = ap new_head (sym e);
    tail = ap new_end (sym f);
  }
  Unlinked-by (some p) none e f = record {
    nexts = λ j. with_next-lru_next l.heap p (l.heap i).lru_next j ∙ by_prev (some p) j e;
    prevs = λ j. with_next-lru_prev l.heap p (l.heap i).lru_next j ∙ by_next none j f;
    head = ap new_head (sym e);
    tail = with_next-lru_prev l.heap p (l.heap i).lru_next i ∙ ap new_end (sym f);
  }
  Unlinked-by none (some n) e f = record {
    nexts = λ j. with_prev-lru_next l.heap n (l.heap i).lru_prev j ∙ by_prev none j e;
    prevs = λ j. with_prev-lru_prev l.heap n (l.heap i).lru_prev j ∙ by_next (some n) j f;
    head = ap new_head (sym e);
    tail = ap new_end (sym f);
  }
  Unlinked-by (some p) (some n) e f =
      let h1 : ℕ → Entry = with_next l.heap p (l.heap i).lru_next in
      record {
        nexts = λ j.
            with_prev-lru_next h1 n (h1 i).lru_prev j
            ∙ with_next-lru_next l.heap p (l.heap i).lru_next j
            ∙ by_prev (some p) j e;
        prevs = λ j.
            with_prev-lru_prev h1 n (h1 i).lru_prev j
            ∙ ap (λ (x : Option ℕ). if n == j then x else (h1 j).lru_prev)
                (with_next-lru_prev l.heap p (l.heap i).lru_next i)
            ∙ ap (λ (x : Option ℕ). if n == j then (l.heap i).lru_prev else x)
                (with_next-lru_prev l.heap p (l.heap i).lru_next j)
            ∙ by_next (some n) j f;
        head = ap new_head (sym e);
        tail = ap new_end (sym f);
      }

  pub unlink-Unlinked : points_to (l.heap i).lru_prev i ≡ false → Unlinked l (unlink l i) i
  unfolding unlink
  unlink-Unlinked n =
      subst (λ r. Unlinked l (unlink_after (unlink_before l i (l.heap i).lru_prev) i r) i)
        (sym (before_next (l.heap i).lru_prev refl n))
        (Unlinked-by (l.heap i).lru_prev (l.heap i).lru_next refl refl)
