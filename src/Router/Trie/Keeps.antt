-- ===== src/Router/Trie/Keeps.antt =====
-- Inserting the tokens of a path into the trie of src/uvhttp_router.c sets no method and no handler.
use native.Mathlib.Decide.{dec_lt}
use uvhttp.Prelude.{
  get_or-append_left, get_or_beyond, arith, get_or-set, get_or-snoc, ℕ, Bool, true, false, List, [],
  ◌∷◌, ◌++◌, Option, none, some, ◌≡◌, refl, sym, ap, ◌∙◌, inl, inr, leb, length, set,
}
use uvhttp.Router.Trie.{
  RouteNode, Pool, node_at, zero_node, grow, new_child, with_child, find_child,
  find_or_create_child, insert_tokens, token_is_param, token_segment, descend, max_children,
}
use uvhttp.Router.Trie.Create.{child_or_new}

-- The second node has the method and the handler of the first.
abbrev pub SameRoute : RouteNode → RouteNode → Type 0
SameRoute n m = (m.method ≡ n.method) × (m.handler ≡ n.handler)

SameRoute-trans : (n m k : RouteNode) → SameRoute n m → SameRoute m k → SameRoute n k
SameRoute-trans n m k (a, b) (c, d) = (c ∙ a, d ∙ b)

SameRoute-of_eq : (n m : RouteNode) → m ≡ n → SameRoute n m
SameRoute-of_eq n m e = (ap (λ (n : RouteNode). n.method) e, ap (λ (n : RouteNode). n.handler) e)

with_child-SameRoute :
    (pool : Pool) (parent c i : ℕ)
    → SameRoute (node_at pool i) (node_at (set pool parent (with_child (node_at pool parent) c)) i)
with_child-SameRoute pool parent c i =
    elim (get_or-set pool parent i (with_child (node_at pool parent) c) zero_node) [
      | inl untouched ↦ SameRoute-of_eq _ _ untouched
      | inr (eq, _, new) ↦
          SameRoute-trans (node_at pool i) (node_at pool parent)
            (node_at (set pool parent (with_child (node_at pool parent) c)) i)
            (SameRoute-of_eq _ _ (ap (node_at pool) eq))
            (SameRoute-of_eq (with_child (node_at pool parent) c)
              (node_at (set pool parent (with_child (node_at pool parent) c)) i) new)
    ]

-- A child that is appended has the method and the handler of a node that is not in use.
snoc-SameRoute :
    (pool : Pool) (segment : List ℕ) (is_param : Bool) (i : ℕ)
    → SameRoute (node_at pool i) (node_at (pool ++ new_child segment is_param ∷ []) i)
snoc-SameRoute pool segment is_param i =
    elim (get_or-snoc pool (new_child segment is_param) zero_node i) [
      | inl (_, same) ↦ SameRoute-of_eq _ _ same
      | inr (inl (eq, new)) ↦
          let unused : node_at pool i ≡ zero_node = get_or_beyond pool i zero_node (omega arith) in
          SameRoute-trans (node_at pool i) (new_child segment is_param)
            (node_at (pool ++ new_child segment is_param ∷ []) i)
            (
              sym (ap (λ (n : RouteNode). n.method) unused),
              sym (ap (λ (n : RouteNode). n.handler) unused),
            )
            (SameRoute-of_eq _ _ new)
      | inr (inr none_there) ↦ elim (dec_lt i (length pool)) [
        | no ge ↦
            SameRoute-of_eq _ _ (none_there ∙ sym (get_or_beyond pool i zero_node (omega arith)))
        | yes lt ↦
            SameRoute-of_eq _ _
              (get_or-append_left pool (new_child segment is_param ∷ []) i zero_node lt)
      ]
    ]

grow-SameRoute :
    (pool : Pool) (parent : ℕ) (segment : List ℕ) (is_param : Bool) (i : ℕ)
    → SameRoute (node_at pool i) (node_at (grow pool parent segment is_param) i)
grow-SameRoute pool parent segment is_param i =
    SameRoute-trans (node_at pool i)
      (node_at (set pool parent (with_child (node_at pool parent) (length pool))) i)
      (node_at (grow pool parent segment is_param) i)
      (with_child-SameRoute pool parent (length pool) i)
      (snoc-SameRoute (set pool parent (with_child (node_at pool parent) (length pool))) segment
        is_param i)

find_or_create_child-SameRoute :
    (pool : Pool) (parent : ℕ) (segment : List ℕ) (is_param : Bool) (i : ℕ)
    → SameRoute (node_at pool i) (node_at (find_or_create_child pool parent segment is_param).0 i)
unfolding find_or_create_child
find_or_create_child-SameRoute pool parent segment is_param i =
    go (find_child pool (node_at pool parent).children segment)
      (leb max_children (length (node_at pool parent).children))
  where
    go :
        (found : Option ℕ) (full : Bool)
        → SameRoute
            (node_at pool i)
            (node_at (child_or_new pool parent segment is_param found full).0 i)
    go (some c) full = (refl, refl)
    go none true = (refl, refl)
    go none false = grow-SameRoute pool parent segment is_param i

descend-SameRoute :
    (pool : Pool) (r : Pool × Option ℕ) (more : Pool → ℕ → Pool × Option ℕ) (i : ℕ)
    → SameRoute (node_at pool i) (node_at (r.0) i)
    → ((p : Pool) (c : ℕ) → SameRoute (node_at p i) (node_at (more p c).0 i))
    → SameRoute (node_at pool i) (node_at (descend r more).0 i)
descend-SameRoute pool (p, none) more i s h = s
descend-SameRoute pool (p, some c) more i s h =
    SameRoute-trans (node_at pool i) (node_at p i) (node_at (more p c).0 i) s (h p c)

-- Every node keeps its method and its handler; a new one has those of a node not in use.
pub insert_tokens-SameRoute :
    (pool : Pool) (current : ℕ) (ts : List (List ℕ)) (i : ℕ)
    → SameRoute (node_at pool i) (node_at (insert_tokens false pool current ts).0 i)
unfolding insert_tokens
insert_tokens-SameRoute pool current [] i = (refl, refl)
insert_tokens-SameRoute pool current (t ∷ ts) i =
    descend-SameRoute pool (find_or_create_child pool current (token_segment t) (token_is_param t))
      (λ p c. insert_tokens false p c ts) i
      (find_or_create_child-SameRoute pool current (token_segment t) (token_is_param t) i)
      (λ p c. insert_tokens-SameRoute p c ts i)
