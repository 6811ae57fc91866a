-- ===== src/LruCache/Head.antt =====
-- Putting an entry at the head of the list, and moving one there.
use uvhttp.Prelude.{
  ℕ, suc, true, false, List, [], ◌∷◌, ◌++◌, Option, none, some, ◌≡◌, ◌≢◌, refl, ap, sym, subst, ◌∙◌,
  inl, inr, if◌then◌else◌, ◌==◌, ==_iff, ==_refl, length, arith, Bool-cases,
}
use uvhttp.LruCache.{Entry, Lru, points_to, link_head, with_next, with_prev, old_head_back, tail_or}
use uvhttp.LruCache.Shape.{first, final, cons-injective, IsDistinct, IsList}
use uvhttp.LruCache.Links.{
  with_next-lru_next, with_next-lru_prev, with_prev-lru_next, with_prev-lru_prev,
}
use uvhttp.LruCache.Unlink.{final-cons}

-- An address is not in a list.
abbrev pub IsAbsent : ℕ → List ℕ → Type 0
IsAbsent i xs = (a b : List ℕ) → xs ≢ a ++ i ∷ b

abbrev linked_heap : Lru → ℕ → (ℕ → Entry)
linked_heap l i = old_head_back (with_next (with_prev l.heap i none) i l.lru_head) l.lru_head i

-- The pointers after an entry has been put at the head.
module _ (heap : ℕ → Entry) (i : ℕ) where
  abbrev base : Option ℕ → (ℕ → Entry)
  base h = with_next (with_prev heap i none) i h

  base-lru_next :
      (h : Option ℕ) (j : ℕ) → (base h j).lru_next ≡ (if i == j then h else (heap j).lru_next)
  base-lru_next h j =
      with_next-lru_next (with_prev heap i none) i h j
      ∙ ap (λ (x : Option ℕ). if i == j then h else x) (with_prev-lru_next heap i none j)

  base-lru_prev :
      (h : Option ℕ) (j : ℕ) → (base h j).lru_prev ≡ (if i == j then none else (heap j).lru_prev)
  base-lru_prev h j =
      with_next-lru_prev (with_prev heap i none) i h j ∙ with_prev-lru_prev heap i none j

  linked_next :
      (h : Option ℕ) (j : ℕ)
      → (old_head_back (base h) h i j).lru_next ≡ (if i == j then h else (heap j).lru_next)
  linked_next none j = base-lru_next none j
  linked_next (some p) j =
      with_prev-lru_next (base (some p)) p (some i) j ∙ base-lru_next (some p) j

  linked_prev :
      (h : Option ℕ) (j : ℕ)
      → (old_head_back (base h) h i j).lru_prev
        ≡ (if points_to h j then some i else if i == j then none else (heap j).lru_prev)
  linked_prev none j = base-lru_prev none j
  linked_prev (some p) j =
      with_prev-lru_prev (base (some p)) p (some i) j
      ∙ ap (λ (x : Option ℕ). if p == j then some i else x) (base-lru_prev (some p) j)

pub not_equal : (i j : ℕ) → i ≢ j → (i == j) ≡ false
not_equal i j n = ground arith

module _ (l : Lru) (xs : List ℕ) (i : ℕ) (v : IsList l xs) (new : IsAbsent i xs) where
  IsDistinct-cons : IsDistinct (i ∷ xs)
  IsDistinct-cons [] b [] d j e f = refl
  IsDistinct-cons [] b (c ∷ cs) d j e f =
      let here = (cons-injective i j xs b e).0 in
      let rest = (cons-injective i c xs (cs ++ j ∷ d) f).1 in
      absurd (new cs d (subst (λ k. xs ≡ cs ++ k ∷ d) (sym here) rest))
  IsDistinct-cons (a ∷ as_) b [] d j e f =
      let here = (cons-injective i j xs d f).0 in
      let rest = (cons-injective i a xs (as_ ++ j ∷ b) e).1 in
      absurd (new as_ b (subst (λ k. xs ≡ as_ ++ k ∷ b) (sym here) rest))
  IsDistinct-cons (a ∷ as_) b (c ∷ cs) d j e f = ap suc (
      v.distinct as_ b cs d j (cons-injective i a xs (as_ ++ j ∷ b) e).1
        (cons-injective i c xs (cs ++ j ∷ d) f).1)

  head_is : (j : ℕ) → points_to l.lru_head j ≡ true → (zs : List ℕ) × (xs ≡ j ∷ zs)
  head_is j e = go xs (ap (λ q. points_to q j) (sym v.head) ∙ e)
    where
      go : (zs : List ℕ) → points_to (first zs) j ≡ true → (ws : List ℕ) × (zs ≡ j ∷ ws)
      go [] h = absurd cc
      go (z ∷ zs) h = (zs, ap (λ k. k ∷ zs) ((==_iff z j).0 h))

  linked_tail : tail_or l.lru_tail i ≡ final (i ∷ xs)
  linked_tail = go xs v.tail
    where
      go : (zs : List ℕ) → l.lru_tail ≡ final zs → tail_or l.lru_tail i ≡ final (i ∷ zs)
      go [] e = ap (λ q. tail_or q i) e
      go (z ∷ zs) e = let (w, last) = final-cons z zs in ap (λ q. tail_or q i) (e ∙ last) ∙ sym last

  prev_first : ((link_head l i).heap i).lru_prev ≡ none
  unfolding link_head
  prev_first = elim (Bool-cases (points_to l.lru_head i)) [
    | inl is_head ↦ let (zs, cut) = head_is i is_head in absurd (new [] zs cut)
    | inr other ↦ linked_prev l.heap i l.lru_head i ∙ rw (other, ==_refl i) refl
  ]

  next_first : ((link_head l i).heap i).lru_next ≡ first xs
  unfolding link_head
  next_first = linked_next l.heap i l.lru_head i ∙ rw (==_refl i) v.head

  -- An address of the old list.
  other_next :
      (a b : List ℕ) (j : ℕ) → xs ≡ a ++ j ∷ b → ((link_head l i).heap j).lru_next ≡ first b
  unfolding link_head
  other_next a b j e =
      let far = not_equal i j (λ same. new a b (subst (λ k. xs ≡ a ++ k ∷ b) (sym same) e)) in
      linked_next l.heap i l.lru_head j ∙ rw far (v.next a b j e)

  other_prev :
      (a b : List ℕ) (j : ℕ) → xs ≡ a ++ j ∷ b → ((link_head l i).heap j).lru_prev ≡ final (i ∷ a)
  unfolding link_head
  other_prev [] b j e =
      let is_head : points_to l.lru_head j ≡ true =
        ap (λ q. points_to q j) (v.head ∙ ap first e) ∙ ==_refl j in
      linked_prev l.heap i l.lru_head j ∙ rw is_head refl
  other_prev (a ∷ cs) b j e =
      let far =
        not_equal i j (λ same. new (a ∷ cs) b (subst (λ k. xs ≡ (a ∷ cs) ++ k ∷ b) (sym same) e)) in
      elim (Bool-cases (points_to l.lru_head j)) [
        | inl is_head ↦
            let (zs, cut) = head_is j is_head in
            absurd (clash (v.distinct (a ∷ cs) b [] zs j e cut))
        | inr behind ↦ linked_prev l.heap i l.lru_head j ∙ rw (behind, far) (v.prev (a ∷ cs) b j e)
      ]
    where
      clash : length (a ∷ cs) ≡ 0 → ⊥
      clash x = omega arith

  -- An entry that is not in a well-formed list and is put at its head comes before all others.
  pub link_head-IsList : IsList (link_head l i) (i ∷ xs)
  unfolding link_head
  link_head-IsList = record {
    distinct = IsDistinct-cons;
    head = refl;
    tail = linked_tail;
    prev = prevs;
    next = nexts;
  }
    where
      prevs :
          (a b : List ℕ) (j : ℕ) → i ∷ xs ≡ a ++ j ∷ b → ((link_head l i).heap j).lru_prev ≡ final a
      prevs [] b j e =
          subst (λ k. ((link_head l i).heap k).lru_prev ≡ none) (cons-injective i j xs b e).0
            prev_first
      prevs (a ∷ cs) b j e =
          let (same, rest) = cons-injective i a xs (cs ++ j ∷ b) e in
          other_prev cs b j rest ∙ ap (λ k. final (k ∷ cs)) same

      nexts :
          (a b : List ℕ) (j : ℕ) → i ∷ xs ≡ a ++ j ∷ b → ((link_head l i).heap j).lru_next ≡ first b
      nexts [] b j e =
          let (same, rest) = cons-injective i j xs b e in
          subst (λ k. ((link_head l i).heap k).lru_next ≡ first b) same (next_first ∙ ap first rest)
      nexts (a ∷ cs) b j e = other_next cs b j (cons-injective i a xs (cs ++ j ∷ b) e).1
