-- ===== src/Router/Trie/Create.antt =====
-- Finding or creating a child: a larger pool, in which the child stands below its parent.
use mathlib.Core.Option.{some-injective}
use uvhttp.Prelude.{
  length-set, get_or-append_left, get_or-append_end, get_or-set_self, ℕ, ◌<◌, Bool, true, false,
  List, [], ◌∷◌, Option, none, some, ◌≡◌, refl, ap, sym, ◌∙◌, ◌⊎◌, inl, inr, subst, if◌then◌else◌,
  leb, ◌==◌, length, arith, Bool-cases, take, strneq, eq_of_streq, &&-true, ==_iff, set,
}
use uvhttp.Router.Trie.{
  RouteNode, Pool, node_at, zero_node, find_child, same_segment, grow, new_child, with_child,
  find_or_create_child, max_children, max_segment,
}
use uvhttp.Router.Trie.Pool.{IsPool, length-grow}
use uvhttp.Router.Trie.Walk.{take_all, Has}
use uvhttp.Router.Trie.Extends.{Extends, Extends-refl, Extends-grow, Has-end, lt_of_Has}

eq_of_same_segment :
    (child : RouteNode) (segment : List ℕ)
    → same_segment child segment ≡ true
    → child.segment ≡ segment
eq_of_same_segment child segment e =
    let (same, size) =
      &&-true (strneq (length child.segment) child.segment segment)
        (length segment == length child.segment) e in
    let n : length segment ≡ length child.segment = (==_iff _ _).0 size in
    sym (take_all child.segment)
    ∙ eq_of_streq _ _ same
    ∙ ap (λ k. take k segment) (sym n)
    ∙ take_all segment

find_child-eq-some :
    (pool : Pool) (is : List ℕ) (segment : List ℕ) (c : ℕ)
    → find_child pool is segment ≡ some c
    → Has c is × ((node_at pool c).segment ≡ segment)
unfolding find_child
find_child-eq-some pool [] segment c e = absurd cc
find_child-eq-some pool (i ∷ is) segment c e =
    elim (Bool-cases (same_segment (node_at pool i) segment)) [
      | inl same ↦
          let here : i ≡ c = some-injective _ _ (ground arith) in
          (
            inl here,
            ap (λ k. (node_at pool k).segment) (sym here)
                ∙ eq_of_same_segment (node_at pool i) segment same,
          )
      | inr other ↦
          let (has, same) = find_child-eq-some pool is segment c (ground arith) in (inr has, same)
    ]

-- What `find_or_create_child` gives with a child: a larger pool in which the child stands below
-- its parent.
pub record Descends (p : Pool) (parent : ℕ) (segment : List ℕ) (is_param : Bool) (q : Pool) (c : ℕ)
    : Type 0 where
  pub extends : Extends p q
  pub has : Has c (node_at q parent).children
  pub inside : c < length q
  pub spelt :
      ((node_at q c).segment ≡ segment)
      ⊎ (((node_at q c).is_param ≡ is_param) × ((node_at q c).segment ≡ take max_segment segment))

node_at-grow_new :
    (pool : Pool) (parent : ℕ) (segment : List ℕ) (is_param : Bool)
    → node_at (grow pool parent segment is_param) (length pool) ≡ new_child segment is_param
node_at-grow_new pool parent segment is_param =
    subst (λ k. node_at (grow pool parent segment is_param) k ≡ new_child segment is_param)
      (length-set pool parent (with_child (node_at pool parent) (length pool)))
      (get_or-append_end (set pool parent (with_child (node_at pool parent) (length pool)))
        (new_child segment is_param) zero_node)

Has-grow :
    (pool : Pool) (parent : ℕ) (segment : List ℕ) (is_param : Bool)
    → parent < length pool
    → Has (length pool) (node_at (grow pool parent segment is_param) parent).children
Has-grow pool parent segment is_param lt =
    subst (λ (n : RouteNode). Has (length pool) n.children)
      (sym (
        get_or-append_left _ (new_child segment is_param ∷ []) parent zero_node
          (omega (arith, length-set pool parent (with_child (node_at pool parent) (length pool))))
        ∙ get_or-set_self pool parent (with_child (node_at pool parent) (length pool)) zero_node
            lt))
      (Has-end (node_at pool parent).children (length pool))

-- `find_or_create_child` on what the search finds, and on whether the parent is full.
abbrev pub child_or_new : Pool → ℕ → List ℕ → Bool → Option ℕ → Bool → Pool × Option ℕ
child_or_new pool parent segment is_param found full = elim found [
  | some i ↦ (pool, some i)
  | none ↦ if full then (pool, none) else (grow pool parent segment is_param, some (length pool))
]

pub find_or_create_child-Descends :
    (pool : Pool) (parent : ℕ) (segment : List ℕ) (is_param : Bool) (c : ℕ)
    → IsPool pool
    → parent < length pool
    → (find_or_create_child pool parent segment is_param).1 ≡ some c
    → Descends pool parent segment is_param (find_or_create_child pool parent segment is_param).0 c
unfolding find_or_create_child
find_or_create_child-Descends pool parent segment is_param c v lt =
    go (find_child pool (node_at pool parent).children segment)
      (leb max_children (length (node_at pool parent).children)) refl
  where
    go :
        (found : Option ℕ) (full : Bool)
        → find_child pool (node_at pool parent).children segment ≡ found
        → (child_or_new pool parent segment is_param found full).1 ≡ some c
        → Descends pool parent segment is_param
            (child_or_new pool parent segment is_param found full).0
            c
    go (some i) full e same =
        let (has, spelt) = find_child-eq-some pool _ segment c (e ∙ same) in
        record {
          extends = Extends-refl pool;
          has = has;
          inside = lt_of_Has _ _ _ (v parent).linked has;
          spelt = inl spelt;
        }
    go none true e same = absurd cc
    go none false e same =
        let here : length pool ≡ c = some-injective _ _ same in
        subst (Descends pool parent segment is_param (grow pool parent segment is_param)) here
          (record {
            extends = Extends-grow pool parent segment is_param;
            has = Has-grow pool parent segment is_param lt;
            inside = omega (arith, length-grow pool parent segment is_param);
            spelt = inr (
              ap (λ (n : RouteNode). n.is_param) (node_at-grow_new pool parent segment is_param),
              ap (λ (n : RouteNode). n.segment) (node_at-grow_new pool parent segment is_param),
            );
          })
