-- ===== src/LruCache/Unlink.antt =====
-- Taking an entry out of a well-formed list leaves the list without it.
use uvhttp.Prelude.{
  ℕ, suc, ◌+◌, true, false, List, [], ◌∷◌, ◌++◌, none, some, ◌≡◌, ◌≢◌, refl, ap, sym, ◌∙◌, inl, inr,
  ==_iff, ==_refl, length, length-append, append_assoc, append-nil, arith, Bool-cases,
}
use uvhttp.LruCache.{Lru, points_to, unlink}
use uvhttp.LruCache.Shape.{
  first, final, final-snoc, final-append, Cut, Cut-append, IsDistinct, IsList,
}
use uvhttp.LruCache.Links.{Unlinked, unlink-Unlinked}

pub final-cons : (x : ℕ) (xs : List ℕ) → (z : ℕ) × (final (x ∷ xs) ≡ some z)
final-cons x [] = (x, refl)
final-cons x (y ∷ xs) = final-cons y xs

pub cut_of_final :
    (xs : List ℕ) (j : ℕ) → points_to (final xs) j ≡ true → (ws : List ℕ) × (xs ≡ ws ++ j ∷ [])
cut_of_final [] j e = absurd cc
cut_of_final (x ∷ []) j e = ([], ap (λ k. k ∷ []) ((==_iff x j).0 e))
cut_of_final (x ∷ y ∷ xs) j e =
    let (ws, cut) = cut_of_final (y ∷ xs) j e in (x ∷ ws, ap (◌∷◌ x) cut)

cut_of_first : (ys : List ℕ) (j : ℕ) → points_to (first ys) j ≡ true → (zs : List ℕ) × (ys ≡ j ∷ zs)
cut_of_first [] j e = absurd cc
cut_of_first (y ∷ ys) j e = (ys, ap (λ k. k ∷ ys) ((==_iff y j).0 e))

module _ (xs ys : List ℕ) (i : ℕ) where
  pub lift_left : (a m : List ℕ) (j : ℕ) → xs ≡ a ++ j ∷ m → xs ++ i ∷ ys ≡ a ++ j ∷ (m ++ i ∷ ys)
  lift_left a m j e = ap (λ l. l ++ i ∷ ys) e ∙ append_assoc a (j ∷ m) (i ∷ ys)

  pub lift_right : (m b : List ℕ) (j : ℕ) → ys ≡ m ++ j ∷ b → xs ++ i ∷ ys ≡ (xs ++ i ∷ m) ++ j ∷ b
  lift_right m b j e = ap (λ l. xs ++ i ∷ l) e ∙ sym (append_assoc xs (i ∷ m) (j ∷ b))

  pub size_left : (a m : List ℕ) (j : ℕ) → xs ≡ a ++ j ∷ m → length xs ≡ length a + suc (length m)
  size_left a m j e = ap length e ∙ length-append a (j ∷ m)

  pub size_right : (m : List ℕ) → length (xs ++ i ∷ m) ≡ length xs + suc (length m)
  size_right m = length-append xs (i ∷ m)

module _ (l : Lru) (xs ys : List ℕ) (i : ℕ) (v : IsList l (xs ++ i ∷ ys)) where
  -- An address of the part before stands at no place of the part behind.
  apart : (a m c d : List ℕ) (j : ℕ) → xs ≡ a ++ j ∷ m → ys ≡ c ++ j ∷ d → ⊥
  apart a m c d j e f = omega (
    arith,
    v.distinct _ _ _ _ j (lift_left xs ys i a m j e) (lift_right xs ys i c d j f),
    size_left xs ys i a m j e,
    size_right xs ys i c,
  )

  IsDistinct-without : IsDistinct (xs ++ ys)
  IsDistinct-without a b c d j e f = go (Cut-append xs ys a b j e) (Cut-append xs ys c d j f)
    where
      go : Cut xs ys a j b → Cut xs ys c j d → length a ≡ length c
      go (inl (m, p, _)) (inl (n, q, _)) =
          v.distinct _ _ _ _ j (lift_left xs ys i a m j p) (lift_left xs ys i c n j q)
      go (inl (m, p, _)) (inr (n, _, q)) = absurd (apart a m n d j p q)
      go (inr (m, _, p)) (inl (n, q, _)) = absurd (apart c n m b j q p)
      go (inr (m, s, p)) (inr (n, t, q)) = omega (
        arith,
        v.distinct _ _ _ _ j (lift_right xs ys i m b j p) (lift_right xs ys i n d j q),
        size_right xs ys i m,
        size_right xs ys i n,
        ap length s,
        ap length t,
        length-append xs m,
        length-append xs n,
      )

  prev_i : (l.heap i).lru_prev ≡ final xs
  prev_i = v.prev xs ys i refl

  next_i : (l.heap i).lru_next ≡ first ys
  next_i = v.next xs ys i refl

  not_final :
      (a b : List ℕ) (j : ℕ)
      → xs ++ i ∷ ys ≡ a ++ j ∷ b
      → length xs ≢ suc (length a)
      → points_to (final xs) j ≡ false
  not_final a b j e far = elim (Bool-cases (points_to (final xs) j)) [
    | inl yes_it ↦
        let (ws, cut) = cut_of_final xs j yes_it in
        absurd (
          far (
            omega (
              arith,
              v.distinct _ _ _ _ j e (lift_left xs ys i ws [] j cut),
              size_left xs ys i ws [] j cut,
            )))
    | inr other ↦ other
  ]

  not_first :
      (a b : List ℕ) (j : ℕ)
      → xs ++ i ∷ ys ≡ a ++ j ∷ b
      → length a ≢ suc (length xs)
      → points_to (first ys) j ≡ false
  not_first a b j e far = elim (Bool-cases (points_to (first ys) j)) [
    | inl yes_it ↦
        let (zs, cut) = cut_of_first ys j yes_it in
        absurd (
          far (
            omega (
              arith,
              v.distinct _ _ _ _ j e (lift_right xs ys i [] zs j cut),
              size_right xs ys i [],
            )))
    | inr other ↦ other
  ]

  pub unlink_safe : points_to (l.heap i).lru_prev i ≡ false
  unlink_safe = ap (λ q. points_to q i) prev_i ∙ not_final xs ys i refl (λ e. omega arith)

  module _ (u : Unlinked l (unlink l i) i) where
    next_left :
        (a m : List ℕ) (j : ℕ) → xs ≡ a ++ j ∷ m → ((unlink l i).heap j).lru_next ≡ first (m ++ ys)
    next_left a [] j e =
        let last : final xs ≡ some j = ap final e ∙ final-snoc a j in
        let here : points_to (l.heap i).lru_prev j ≡ true =
          ap (λ q. points_to q j) (prev_i ∙ last) ∙ ==_refl j in
        u.nexts j ∙ rw here next_i
    next_left a (k ∷ m) j e =
        let size = size_left xs ys i a (k ∷ m) j e in
        let far : points_to (l.heap i).lru_prev j ≡ false =
          ap (λ q. points_to q j) prev_i
          ∙ not_final a _ j (lift_left xs ys i a (k ∷ m) j e) (λ x. omega arith) in
        u.nexts j ∙ rw far (v.next a _ j (lift_left xs ys i a (k ∷ m) j e))

    next_right : (m b : List ℕ) (j : ℕ) → ys ≡ m ++ j ∷ b → ((unlink l i).heap j).lru_next ≡ first b
    next_right m b j e =
        let size = size_right xs ys i m in
        let far : points_to (l.heap i).lru_prev j ≡ false =
          ap (λ q. points_to q j) prev_i
          ∙ not_final _ b j (lift_right xs ys i m b j e) (λ x. omega arith) in
        u.nexts j ∙ rw far (v.next _ b j (lift_right xs ys i m b j e))

    prev_left : (a m : List ℕ) (j : ℕ) → xs ≡ a ++ j ∷ m → ((unlink l i).heap j).lru_prev ≡ final a
    prev_left a m j e =
        let size = size_left xs ys i a m j e in
        let far : points_to (l.heap i).lru_next j ≡ false =
          ap (λ q. points_to q j) next_i
          ∙ not_first a _ j (lift_left xs ys i a m j e) (λ x. omega arith) in
        u.prevs j ∙ rw far (v.prev a _ j (lift_left xs ys i a m j e))

    prev_right :
        (m b : List ℕ) (j : ℕ) → ys ≡ m ++ j ∷ b → ((unlink l i).heap j).lru_prev ≡ final (xs ++ m)
    prev_right [] b j e =
        let here : points_to (l.heap i).lru_next j ≡ true =
          ap (λ q. points_to q j) (next_i ∙ ap first e) ∙ ==_refl j in
        u.prevs j ∙ rw here (prev_i ∙ ap final (sym (append-nil xs)))
    prev_right (k ∷ m) b j e =
        let size = size_right xs ys i (k ∷ m) in
        let far : points_to (l.heap i).lru_next j ≡ false =
          ap (λ q. points_to q j) next_i
          ∙ not_first _ b j (lift_right xs ys i (k ∷ m) b j e) (λ x. omega arith) in
        u.prevs j
        ∙ rw far (
            v.prev _ b j (lift_right xs ys i (k ∷ m) b j e)
            ∙ final-append xs (k ∷ m) i
            ∙ sym (final-append xs m k))

    head_kept : (unlink l i).lru_head ≡ first (xs ++ ys)
    head_kept = go xs refl
      where
        go : (zs : List ℕ) → xs ≡ zs → (unlink l i).lru_head ≡ first (zs ++ ys)
        go [] e =
            let no_prev : (l.heap i).lru_prev ≡ none = prev_i ∙ ap final e in
            u.head ∙ rw no_prev next_i
        go (x ∷ zs) e =
            let (z, last) = final-cons x zs in
            let some_prev : (l.heap i).lru_prev ≡ some z = prev_i ∙ ap final e ∙ last in
            u.head ∙ rw some_prev (v.head ∙ ap (λ k. first (k ++ i ∷ ys)) e)

    tail_kept : (unlink l i).lru_tail ≡ final (xs ++ ys)
    tail_kept = go ys refl
      where
        go : (zs : List ℕ) → ys ≡ zs → (unlink l i).lru_tail ≡ final (xs ++ zs)
        go [] e =
            let no_next : (l.heap i).lru_next ≡ none = next_i ∙ ap first e in
            u.tail ∙ rw no_next (prev_i ∙ ap final (sym (append-nil xs)))
        go (y ∷ zs) e =
            let some_next : (l.heap i).lru_next ≡ some y = next_i ∙ ap first e in
            u.tail
            ∙ rw some_next (
                v.tail
                ∙ ap (λ k. final (xs ++ i ∷ k)) e
                ∙ final-append xs (y ∷ zs) i
                ∙ sym (final-append xs zs y))

    unlinked-IsList : IsList (unlink l i) (xs ++ ys)
    unlinked-IsList = record {
      distinct = IsDistinct-without;
      head = head_kept;
      tail = tail_kept;
      prev = λ a b j e. elim (Cut-append xs ys a b j e) [
        | inl (m, p, _) ↦ prev_left a m j p
        | inr (m, s, p) ↦ prev_right m b j p ∙ ap final (sym s)
      ];
      next = λ a b j e. elim (Cut-append xs ys a b j e) [
        | inl (m, p, s) ↦ next_left a m j p ∙ ap first (sym s)
        | inr (m, _, p) ↦ next_right m b j p
      ];
    }

-- Taking an entry out of a well-formed list leaves the list of the others, in their order.
pub unlink-IsList :
    (l : Lru) (xs ys : List ℕ) (i : ℕ) → IsList l (xs ++ i ∷ ys) → IsList (unlink l i) (xs ++ ys)
unlink-IsList l xs ys i v =
    unlinked-IsList l xs ys i v (unlink-Unlinked l i (unlink_safe l xs ys i v))
