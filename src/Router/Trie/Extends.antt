-- ===== src/Router/Trie/Extends.antt =====
-- How the pool of nodes of the trie grows: a walk through it stays a walk.
use native.Mathlib.Decide.{dec_lt}
use uvhttp.Prelude.{
  length-set, get_or-set, get_or-append_left, get_or_beyond, ℕ, ◌≤◌, ◌<◌, Bool, List, [], ◌∷◌, ◌++◌,
  ◌≡◌, ◌≢◌, none, refl, ap, sym, ◌∙◌, inl, inr, subst, length, length-append, arith, All, set,
}
use uvhttp.Router.Trie.{
  RouteNode, Pool, node_at, zero_node, grow, new_child, with_child, set_handler,
}
use uvhttp.Router.Method.{Method}
use uvhttp.Router.Array.{Handler}
use uvhttp.Router.Trie.Pool.{IsPool}
use uvhttp.Router.Trie.Walk.{Has, Fits, Walk, stop, step}

-- A node has a handler.
abbrev pub IsHandled : RouteNode → Type 0
IsHandled node = node.handler ≢ none

-- A pool that has grown: no node changes its segment or its kind, and none loses a child or its handler.
pub record Extends (p q : Pool) : Type 0 where
  pub longer : length p ≤ length q
  pub segment : (i : ℕ) → i < length p → (node_at q i).segment ≡ (node_at p i).segment
  pub is_param : (i : ℕ) → i < length p → (node_at q i).is_param ≡ (node_at p i).is_param
  pub children : (i c : ℕ) → Has c (node_at p i).children → Has c (node_at q i).children
  pub handled : (i : ℕ) → IsHandled (node_at p i) → IsHandled (node_at q i)

pub Extends-refl : (p : Pool) → Extends p p
Extends-refl p = record {
  longer = omega arith;
  segment = λ i lt. refl;
  is_param = λ i lt. refl;
  children = λ i c has. has;
  handled = λ i h. h;
}

pub Extends-trans : {p q r : Pool} → Extends p q → Extends q r → Extends p r
Extends-trans e f = record {
  longer = omega (arith, e.longer, f.longer);
  segment = λ i lt. f.segment i (omega (arith, e.longer)) ∙ e.segment i lt;
  is_param = λ i lt. f.is_param i (omega (arith, e.longer)) ∙ e.is_param i lt;
  children = λ i c has. f.children i c (e.children i c has);
  handled = λ i h. f.handled i (e.handled i h);
}

-- Rewriting a node that keeps its segment, its kind and its children.
pub Extends-set :
    (pool : Pool) (j : ℕ) (node : RouteNode)
    → node.segment ≡ (node_at pool j).segment
    → node.is_param ≡ (node_at pool j).is_param
    → ((c : ℕ) → Has c (node_at pool j).children → Has c node.children)
    → (IsHandled (node_at pool j) → IsHandled node)
    → Extends pool (set pool j node)
Extends-set pool j node seg par keep hold = record {
  longer = omega (arith, length-set pool j node);
  segment = λ i lt. elim (get_or-set pool j i node zero_node) [
    | inl same ↦ ap (λ (n : RouteNode). n.segment) same
    | inr (eq, _, new) ↦
        ap (λ (n : RouteNode). n.segment) new ∙ seg ∙ ap (λ k. (node_at pool k).segment) eq
  ];
  is_param = λ i lt. elim (get_or-set pool j i node zero_node) [
    | inl same ↦ ap (λ (n : RouteNode). n.is_param) same
    | inr (eq, _, new) ↦
        ap (λ (n : RouteNode). n.is_param) new ∙ par ∙ ap (λ k. (node_at pool k).is_param) eq
  ];
  children = λ i c has. elim (get_or-set pool j i node zero_node) [
    | inl same ↦ subst (λ (n : RouteNode). Has c n.children) (sym same) has
    | inr (eq, _, new) ↦
        subst (λ (n : RouteNode). Has c n.children) (sym new)
          (keep c (subst (λ k. Has c (node_at pool k).children) (sym eq) has))
  ];
  handled = λ i h. elim (get_or-set pool j i node zero_node) [
    | inl same ↦ subst IsHandled (sym same) h
    | inr (eq, _, new) ↦
        subst IsHandled (sym new) (hold (subst (λ k. IsHandled (node_at pool k)) (sym eq) h))
  ];
}

Extends-snoc : (pool : Pool) (node : RouteNode) → Extends pool (pool ++ node ∷ [])
Extends-snoc pool node = record {
  longer = omega (arith, length-append pool (node ∷ []));
  segment = λ i lt.
      ap (λ (n : RouteNode). n.segment) (get_or-append_left pool (node ∷ []) i zero_node lt);
  is_param = λ i lt.
      ap (λ (n : RouteNode). n.is_param) (get_or-append_left pool (node ∷ []) i zero_node lt);
  children = λ i c has. elim (dec_lt i (length pool)) [
    | yes lt ↦
        subst (λ (n : RouteNode). Has c n.children)
          (sym (get_or-append_left pool (node ∷ []) i zero_node lt)) has
    | no ge ↦ absurd (
        subst (λ (n : RouteNode). Has c n.children) (get_or_beyond pool i zero_node (omega arith))
          has)
  ];
  handled = λ i h. elim (dec_lt i (length pool)) [
    | yes lt ↦ subst IsHandled (sym (get_or-append_left pool (node ∷ []) i zero_node lt)) h
    | no ge ↦ absurd (subst IsHandled (get_or_beyond pool i zero_node (omega arith)) h refl)
  ];
}

Has-snoc : (c : ℕ) (is : List ℕ) (i : ℕ) → Has c is → Has c (is ++ i ∷ [])
Has-snoc c [] i h = absurd h
Has-snoc c (x ∷ is) i (inl here) = inl here
Has-snoc c (x ∷ is) i (inr later) = inr (Has-snoc c is i later)

pub Has-end : (is : List ℕ) (i : ℕ) → Has i (is ++ i ∷ [])
Has-end [] i = inl refl
Has-end (x ∷ is) i = inr (Has-end is i)

pub lt_of_Has : (n : ℕ) (is : List ℕ) (c : ℕ) → All (λ i. i < n) is → Has c is → c < n
lt_of_Has n [] c a h = absurd h
lt_of_Has n (x ∷ is) c (p, a) (inl here) = subst (λ i. i < n) here p
lt_of_Has n (x ∷ is) c (p, a) (inr later) = lt_of_Has n is c a later

pub Extends-grow :
    (pool : Pool) (parent : ℕ) (segment : List ℕ) (is_param : Bool)
    → Extends pool (grow pool parent segment is_param)
Extends-grow pool parent segment is_param =
    Extends-trans
      (Extends-set pool parent (with_child (node_at pool parent) (length pool)) refl refl
        (λ c has. Has-snoc c (node_at pool parent).children (length pool) has) (λ h. h))
      (Extends-snoc _ (new_child segment is_param))

pub Extends-set_handler :
    (pool : Pool) (j : ℕ) (method : Method) (h : Handler)
    → Extends pool (set_handler pool j method h)
Extends-set_handler pool j method h = Extends-set pool j _ refl refl (λ c has. has) (λ _ e. cc)

pub Fits-Extends :
    {p q : Pool} (c : ℕ) (segment : List ℕ)
    → c < length p
    → Extends p q
    → Fits (node_at p c) segment
    → Fits (node_at q c) segment
Fits-Extends c segment lt e (inl param) = inl (e.is_param c lt ∙ param)
Fits-Extends c segment lt e (inr (exact, same)) =
    inr (e.is_param c lt ∙ exact, e.segment c lt ∙ same)

-- A walk stays a walk while the pool grows.
pub Walk-Extends :
    {p q : Pool} {i j : ℕ} {segments : List (List ℕ)}
    → IsPool p
    → Extends p q
    → Walk p i segments j
    → Walk q i segments j
Walk-Extends v e stop = stop
Walk-Extends v e (step has fits walk) =
    step (e.children _ _ has) (Fits-Extends _ _ (lt_of_Has _ _ _ (v _).linked has) e fits)
      (Walk-Extends v e walk)
