-- ===== src/LruCache/Moves.antt =====
-- Moving an entry to the head of the list, and removing the tail.
use uvhttp.Prelude.{
  ℕ, Bool, true, false, not, ◌&&◌, List, [], ◌∷◌, ◌++◌, Option, none, some, ◌≡◌, ◌≢◌, refl, ap, sym,
  subst, ◌∙◌, inl, inr, if◌then◌else◌, ◌==◌, ==_refl, length, length-append, append-nil, arith,
}
use uvhttp.LruCache.{
  Entry, Lru, points_to, unlink, unlink_before, unlink_after, link_head, move_to_head, with_next,
  with_prev, is_null, detach, new_tail, remove_tail, remove_tail_at,
}
use uvhttp.LruCache.Shape.{final-snoc, Cut, Cut-append, IsDistinct, IsList}
use uvhttp.LruCache.Links.{
  with_next-lru_next, with_next-lru_prev, with_prev-lru_prev, unlink-Unlinked,
}
use uvhttp.LruCache.Unlink.{
  final-cons, unlink-IsList, unlink_safe, lift_left, lift_right, size_left, size_right,
}
use uvhttp.LruCache.Head.{IsAbsent, not_equal, link_head-IsList}

-- An address stands once in a list, so it is absent from the others.
pub without-IsAbsent : (xs ys : List ℕ) (i : ℕ) → IsDistinct (xs ++ i ∷ ys) → IsAbsent i (xs ++ ys)
without-IsAbsent xs ys i d a b e = go (Cut-append xs ys a b i e)
  where
    go : Cut xs ys a i b → ⊥
    go (inl (m, p, _)) = omega (
      arith,
      d a (m ++ i ∷ ys) xs ys i (lift_left xs ys i a m i p) refl,
      size_left xs ys i a m i p,
    )
    go (inr (m, _, p)) =
        omega
          (arith, d (xs ++ i ∷ m) b xs ys i (lift_right xs ys i m b i p) refl, size_right xs ys i m)

moved :
    (l : Lru) (i : ℕ)
    → points_to l.lru_head i ≡ false
    → is_null (l.heap i).lru_prev ≡ false
    → move_to_head l i ≡ link_head (unlink l i) i
unfolding move_to_head
moved l i other linked = rw (other, linked) refl

-- Moving an entry of a well-formed list to its head leaves the others in their order.
pub move_to_head-IsList :
    (l : Lru) (xs ys : List ℕ) (i : ℕ)
    → IsList l (xs ++ i ∷ ys)
    → IsList (move_to_head l i) (i ∷ (xs ++ ys))
unfolding move_to_head
move_to_head-IsList l [] ys i v =
    let is_head : points_to l.lru_head i ≡ true = ap (λ q. points_to q i) v.head ∙ ==_refl i in
    rw is_head v
move_to_head-IsList l (x ∷ xs) ys i v =
    let other : points_to l.lru_head i ≡ false =
      ap (λ q. points_to q i) v.head ∙ not_equal x i behind in
    let (z, last) = final-cons x xs in
    let linked : is_null (l.heap i).lru_prev ≡ false =
      ap is_null (v.prev (x ∷ xs) ys i refl ∙ last) in
    subst (λ k. IsList k (i ∷ x ∷ (xs ++ ys))) (sym (moved l i other linked))
      (link_head-IsList (unlink l i) (x ∷ (xs ++ ys)) i (unlink-IsList l (x ∷ xs) ys i v)
        (without-IsAbsent (x ∷ xs) ys i v.distinct))
  where
    behind : x ≢ i
    behind same =
        let zero_size =
          v.distinct (x ∷ xs) ys [] (xs ++ i ∷ ys) i refl (ap (λ k. k ∷ (xs ++ i ∷ ys)) same) in
        omega (arith, zero_size)

empty-IsList : (l : Lru) → l.lru_head ≡ none → l.lru_tail ≡ none → IsList l []
empty-IsList l h t = record {
  distinct = λ a b c d j e. absurd (no_cut a b j e);
  head = h;
  tail = t;
  prev = λ a b j e. absurd (no_cut a b j e);
  next = λ a b j e. absurd (no_cut a b j e);
}
  where
    no_cut : (a b : List ℕ) (j : ℕ) → [] ≡ a ++ j ∷ b → ⊥
    no_cut a b j e = omega (arith, ap length e, length-append a (j ∷ b))

module _ (l : Lru) (i : ℕ) where
  abbrev move_at : Option ℕ → Bool → Lru
  move_at h unlinked =
      if points_to h i
      then l
      else if unlinked && not (is_null h)
      then link_head l i
      else link_head (unlink l i) i

  moved_into_empty : l.lru_head ≡ none → move_to_head l i ≡ link_head (unlink l i) i
  unfolding move_to_head
  moved_into_empty e =
      ap (λ h. move_at h (is_null (l.heap i).lru_prev)) e ∙ go (is_null (l.heap i).lru_prev)
    where
      go : (b : Bool) → move_at none b ≡ link_head (unlink l i) i
      go true = refl
      go false = refl

  moved_before :
      (x : ℕ)
      → l.lru_head ≡ some x
      → (x == i) ≡ false
      → (l.heap i).lru_prev ≡ none
      → move_to_head l i ≡ link_head l i
  unfolding move_to_head
  moved_before x e other p =
      ap (λ h. move_at h (is_null (l.heap i).lru_prev)) e
      ∙ ap (λ q. move_at (some x) (is_null q)) p
      ∙ ap (λ (b : Bool). if b then l else link_head l i) other

-- A new entry, whose pointers are NULL, is put at the head of a well-formed list.
pub move_to_head-new :
    (l : Lru) (xs : List ℕ) (i : ℕ)
    → IsList l xs
    → IsAbsent i xs
    → (l.heap i).lru_prev ≡ none
    → (l.heap i).lru_next ≡ none
    → IsList (move_to_head l i) (i ∷ xs)
move_to_head-new l [] i v new p n =
    let u = unlink-Unlinked l i (ap (λ q. points_to q i) p) in
    let empty = empty-IsList (unlink l i) (u.head ∙ rw p n) (u.tail ∙ rw n p) in
    subst (λ k. IsList k (i ∷ [])) (sym (moved_into_empty l i v.head))
      (link_head-IsList (unlink l i) [] i empty new)
move_to_head-new l (x ∷ xs) i v new p n =
    let other : (x == i) ≡ false = not_equal x i (λ same. new [] xs (ap (λ k. k ∷ xs) same)) in
    subst (λ k. IsList k (i ∷ x ∷ xs)) (sym (moved_before l i x v.head other p))
      (link_head-IsList l (x ∷ xs) i v new)

pub detach-IsList :
    (l : Lru) (xs : List ℕ) (i : ℕ)
    → IsList l xs
    → IsAbsent i xs
    → IsList (record l { heap = detach l.heap i }) xs
detach-IsList l xs i v gone = record {
  distinct = v.distinct;
  head = v.head;
  tail = v.tail;
  prev = λ a b j e.
      with_next-lru_prev (with_prev l.heap i none) i none j
      ∙ with_prev-lru_prev l.heap i none j
      ∙ rw (far a b j e) (v.prev a b j e);
  next = λ a b j e.
      with_next-lru_next (with_prev l.heap i none) i none j ∙ rw (far a b j e) (v.next a b j e);
}
  where
    far : (a b : List ℕ) (j : ℕ) → xs ≡ a ++ j ∷ b → (i == j) ≡ false
    far a b j e = not_equal i j (λ same. gone a b (subst (λ k. xs ≡ a ++ k ∷ b) (sym same) e))

-- At the tail, where no entry follows, a tail is removed like any entry.
unlink_tail :
    (l : Lru) (i : ℕ) (q : Option ℕ)
    → (l.heap i).lru_prev ≡ q
    → (l.heap i).lru_next ≡ none
    → points_to q i ≡ false
    → unlink l i ≡ new_tail l q
unfolding unlink
unlink_tail l i q p n safe =
    ap (λ x. unlink_after (unlink_before l i x) i ((unlink_before l i x).heap i).lru_next) p
    ∙ go q p safe
  where
    after_write :
        (t : ℕ) → (t == i) ≡ false → (with_next l.heap t (l.heap i).lru_next i).lru_next ≡ none
    after_write t s = with_next-lru_next l.heap t (l.heap i).lru_next i ∙ rw s n

    go :
        (x : Option ℕ)
        → (l.heap i).lru_prev ≡ x
        → points_to x i ≡ false
        → unlink_after (unlink_before l i x) i ((unlink_before l i x).heap i).lru_next
          ≡ new_tail l x
    go none e s =
        ap (unlink_after (unlink_before l i none) i) n
        ∙ ap (λ r. record l { lru_head = r; lru_tail = (l.heap i).lru_prev }) n
        ∙ ap (λ r. record l { lru_head = none; lru_tail = r }) e
    go (some t) e s =
        ap (unlink_after (unlink_before l i (some t)) i) (after_write t s)
        ∙ ap (λ r. record l { heap = with_next l.heap t (l.heap i).lru_next; lru_tail = r })
            (with_next-lru_prev l.heap t (l.heap i).lru_next i ∙ e)
        ∙ ap (λ r. record l { heap = with_next l.heap t r; lru_tail = some t }) n

-- The tail of a well-formed list is removed: the list of the others is left, in their order, and the
-- pointers of the removed entry are NULL.
pub remove_tail-IsList :
    (l : Lru) (xs : List ℕ) (i : ℕ)
    → IsList l (xs ++ i ∷ [])
    → ((remove_tail l).1 ≡ some i)
      × IsList (remove_tail l).0 xs
      × (((remove_tail l).0.heap i).lru_prev ≡ none)
      × (((remove_tail l).0.heap i).lru_next ≡ none)
unfolding remove_tail
remove_tail-IsList l xs i v =
    let at_tail : l.lru_tail ≡ some i = v.tail ∙ final-snoc xs i in
    let same =
      unlink_tail l i (l.heap i).lru_prev refl (v.next xs [] i refl) (unlink_safe l xs [] i v) in
    let gone : IsAbsent i xs =
      subst (IsAbsent i) (append-nil xs) (without-IsAbsent xs [] i v.distinct) in
    let left : IsList (new_tail l (l.heap i).lru_prev) xs =
      subst (λ k. IsList k xs) same
        (subst (IsList (unlink l i)) (append-nil xs) (unlink-IsList l xs [] i v)) in
    subst
      (λ (r : Lru × Option ℕ).
        (r.1 ≡ some i)
        × IsList r.0 xs
        × ((r.0.heap i).lru_prev ≡ none)
        × ((r.0.heap i).lru_next ≡ none))
      (ap (remove_tail_at l) (sym at_tail))
      (
        refl,
        detach-IsList (new_tail l (l.heap i).lru_prev) xs i left gone,
        (cleared (new_tail l (l.heap i).lru_prev).heap).0,
        (cleared (new_tail l (l.heap i).lru_prev).heap).1,
      )
  where
    cleared :
        (heap : ℕ → Entry)
        → ((detach heap i i).lru_prev ≡ none) × ((detach heap i i).lru_next ≡ none)
    cleared heap = (
      with_next-lru_prev (with_prev heap i none) i none i
          ∙ with_prev-lru_prev heap i none i
          ∙ rw (==_refl i) refl,
      with_next-lru_next (with_prev heap i none) i none i ∙ rw (==_refl i) refl,
    )
