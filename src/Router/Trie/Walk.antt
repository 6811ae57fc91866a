-- ===== src/Router/Trie/Walk.antt =====
-- Matching against walks in the trie: what a match finds is spelled by a walk from the node, and
-- where a walk leads to a handler a match is found.
use uvhttp.Prelude.{
  ℕ, ◌+◌, ◌≤◌, ◌<◌, true, false, ◌&&◌, List, [], ◌∷◌, ◌++◌, some, ◌≡◌, ◌≢◌, refl, ap, sym, ◌∙◌, ◌⊎◌,
  inl, inr, subst, ◌==◌, length, length-append, arith, Bool-cases, take, strneq, streq_refl,
  eq_of_streq, &&-true, ==_iff, ==_refl,
}
use uvhttp.Router.Method.{Method, any}
use uvhttp.Router.Array.{Handler}
use uvhttp.Router.Array.Search.{eq_of_method_eq, method_eq_refl}
use uvhttp.Router.Trie.{
  RouteNode, Pool, node_at, Param, param_of, max_params, MatchResult, matched, unmatched,
  out_of_bounds, at_leaf, or_else, exact_segment, try_child, try_children, match_route_node,
}

-- Membership of an index.
abbrev pub Has : ℕ → List ℕ → Type 0
Has c [] = ⊥
Has c (x ∷ xs) = (x ≡ c) ⊎ Has c xs

-- A node fits a segment of a request: a parameter fits any.
abbrev pub Fits : RouteNode → List ℕ → Type 0
Fits node segment = (node.is_param ≡ true) ⊎ ((node.is_param ≡ false) × (node.segment ≡ segment))

-- A walk down the trie along the segments of a request.
pub data Walk (pool : Pool) : ℕ → List (List ℕ) → ℕ → Type 0 where
  stop : {i : ℕ} → Walk pool i [] i
  step :
      {i c j : ℕ} {segment : List ℕ} {rest : List (List ℕ)}
      → Has c (node_at pool i).children
      → Fits (node_at pool c) segment
      → Walk pool c rest j
      → Walk pool i (segment ∷ rest) j

-- The handler that a node has for a method.
pub record Handles (node : RouteNode) (method : Method) (h : Handler) : Type 0 where
  pub registered : node.handler ≡ some h
  pub allowed : (node.method ≡ any) ⊎ (node.method ≡ method)

pub take_all {ℓ} : {A : Type ℓ} (xs : List A) → take (length xs) xs ≡ xs
take_all [] = refl
take_all (x ∷ xs) = ap (◌∷◌ x) (take_all xs)

pub eq_of_exact_segment :
    (child : RouteNode) (segment : List ℕ)
    → exact_segment child segment ≡ true
    → child.segment ≡ segment
eq_of_exact_segment child segment e =
    let (size, same) =
      &&-true (length segment == length child.segment)
        (strneq (length segment) child.segment segment) e in
    let n : length segment ≡ length child.segment = (==_iff _ _).0 size in
    sym (take_all child.segment)
    ∙ ap (λ k. take k child.segment) (sym n)
    ∙ eq_of_streq _ _ same
    ∙ take_all segment

pub exact_segment_of_eq :
    (child : RouteNode) (segment : List ℕ)
    → child.segment ≡ segment
    → exact_segment child segment ≡ true
exact_segment_of_eq child segment e =
    subst (λ s. (length s == length child.segment && strneq (length s) child.segment s) ≡ true) e
      (rw (==_refl (length child.segment)) (streq_refl (take (length child.segment) child.segment)))

at_leaf-matched :
    (node : RouteNode) (method : Method) (params params' : List Param) (h : Handler)
    → at_leaf node method params ≡ matched h params'
    → Handles node method h
at_leaf-matched node method params params' h e =
    ground (arith, eq_of_method_eq node.method any, eq_of_method_eq node.method method)

at_leaf-ne-unmatched :
    (node : RouteNode) (method : Method) (params : List Param) (h : Handler)
    → Handles node method h
    → at_leaf node method params ≢ unmatched
at_leaf-ne-unmatched node method params h handles =
    ground (arith, method_eq_refl node.method, method_eq_refl method, method_eq_refl any)

or_else-matched :
    (a b : MatchResult) {h : Handler} {params : List Param}
    → or_else a b ≡ matched h params
    → (a ≡ matched h params) ⊎ (b ≡ matched h params)
or_else-matched (matched k ps) b e = inl e
or_else-matched unmatched b e = inr e
or_else-matched out_of_bounds b e = cc

or_else-unmatched :
    (a b : MatchResult) → or_else a b ≡ unmatched → (a ≡ unmatched) × (b ≡ unmatched)
or_else-unmatched (matched k ps) b e = cc
or_else-unmatched unmatched b e = (refl, e)
or_else-unmatched out_of_bounds b e = cc

module _ (pool : Pool) (segment : List ℕ) (down : ℕ → List Param → MatchResult) where
  try_child_sound :
      (params params' : List Param) (i : ℕ) (h : Handler)
      → try_child down pool segment params i ≡ matched h params'
      → Fits (node_at pool i) segment × ((ps : List Param) × (down i ps ≡ matched h params'))
  try_child_sound params params' i h e = elim (Bool-cases (node_at pool i).is_param) [
    | inl param ↦ (inl param, (params ++ param_of (node_at pool i) segment ∷ [], ground arith))
    | inr exact ↦ (
      inr (exact, eq_of_exact_segment (node_at pool i) segment (ground arith)),
      (params, ground arith),
    )
  ]

  try_children_sound :
      (params params' : List Param) (is : List ℕ) (h : Handler)
      → try_children down pool segment params is ≡ matched h params'
      → (c : ℕ) × Has c is
        × Fits (node_at pool c) segment
        × ((ps : List Param) × (down c ps ≡ matched h params'))
  unfolding try_children
  try_children_sound params params' [] h e = cc
  try_children_sound params params' (i ∷ is) h e =
      elim (or_else-matched (try_child down pool segment params i) _ e) [
        | inl first ↦
            let (fits, below) = try_child_sound params params' i h first in
            (i, inl refl, fits, below)
        | inr later ↦
            let (c, has, fits, below) = try_children_sound params params' is h later in
            (c, inr has, fits, below)
      ]

  -- A child that fits is tried with some parameters, or the parameters are full.
  try_child_complete :
      (params : List Param) (i : ℕ)
      → Fits (node_at pool i) segment
      → try_child down pool segment params i ≡ unmatched
      → (ps : List Param) × (down i ps ≡ unmatched)
  try_child_complete params i (inl param) e =
      (params ++ param_of (node_at pool i) segment ∷ [], ground arith)
  try_child_complete params i (inr (exact, same)) e =
      (params, ground (arith, exact_segment_of_eq (node_at pool i) segment same))

  try_children_complete :
      (params : List Param) (is : List ℕ) (c : ℕ)
      → Has c is
      → Fits (node_at pool c) segment
      → try_children down pool segment params is ≡ unmatched
      → (ps : List Param) × (down c ps ≡ unmatched)
  unfolding try_children
  try_children_complete params [] c has fits e = absurd has
  try_children_complete params (i ∷ is) c (inl here) fits e =
      subst (λ k. (ps : List Param) × (down k ps ≡ unmatched)) here
        (try_child_complete params i (subst (λ k. Fits (node_at pool k) segment) (sym here) fits)
          (or_else-unmatched (try_child down pool segment params i) _ e).0)
  try_children_complete params (i ∷ is) c (inr has) fits e =
      try_children_complete params is c has fits
        (or_else-unmatched (try_child down pool segment params i) _ e).1

  -- With room for one more parameter a write behind the array comes from below.
  abbrev StaysInside : List Param → Type 0
  StaysInside params =
      (i : ℕ) (ps : List Param) → length ps ≤ length params + 1 → down i ps ≢ out_of_bounds

  try_child-ne-out_of_bounds :
      (params : List Param) (i : ℕ)
      → length params < max_params
      → StaysInside params
      → try_child down pool segment params i ≢ out_of_bounds
  try_child-ne-out_of_bounds params i room ih e = elim (Bool-cases (node_at pool i).is_param) [
    | inl param ↦
        ih i (params ++ param_of (node_at pool i) segment ∷ [])
          (omega (arith, length-append params (param_of (node_at pool i) segment ∷ [])))
          (ground arith)
    | inr exact ↦ elim (Bool-cases (exact_segment (node_at pool i) segment)) [
      | inl same ↦ ih i params (omega arith) (ground arith)
      | inr other ↦ ground arith
    ]
  ]

  or_else-out_of_bounds :
      (a b : MatchResult) → or_else a b ≡ out_of_bounds → (a ≡ out_of_bounds) ⊎ (b ≡ out_of_bounds)
  or_else-out_of_bounds (matched h params) b e = cc
  or_else-out_of_bounds unmatched b e = inr e
  or_else-out_of_bounds out_of_bounds b e = inl e

  try_children-ne-out_of_bounds :
      (params : List Param) (is : List ℕ)
      → length params < max_params
      → StaysInside params
      → try_children down pool segment params is ≢ out_of_bounds
  unfolding try_children
  try_children-ne-out_of_bounds params [] room ih e = cc
  try_children-ne-out_of_bounds params (i ∷ is) room ih e =
      elim (or_else-out_of_bounds (try_child down pool segment params i) _ e) [
        | inl first ↦ try_child-ne-out_of_bounds params i room ih first
        | inr later ↦ try_children-ne-out_of_bounds params is room ih later
      ]

module _ (pool : Pool) (method : Method) where
  -- What a match from a node reaches.
  abbrev pub Reaches : List (List ℕ) → ℕ → Handler → Type 0
  Reaches segments i h = (j : ℕ) × Walk pool i segments j × Handles (node_at pool j) method h

  -- A handler that a match finds stands at the end of a walk along the segments, for the method.
  pub match_route_node_sound :
      (segments : List (List ℕ)) (i : ℕ) (params params' : List Param) (h : Handler)
      → match_route_node pool method segments i params ≡ matched h params'
      → Reaches segments i h
  unfolding match_route_node
  match_route_node_sound [] i params params' h e =
      (i, stop, at_leaf-matched (node_at pool i) method params params' h e)
  match_route_node_sound (segment ∷ rest) i params params' h e =
      let (c, has, fits, (ps, below)) =
        try_children_sound pool segment (match_route_node pool method rest) params params'
          (node_at pool i).children h e in
      let (j, walk, handles) = match_route_node_sound rest c ps params' h below in
      (j, step has fits walk, handles)

  -- Where a walk along the segments ends at a handler for the method, a match does not fail (it finds
  -- a handler, or writes behind the parameters).
  pub match_route_node_complete :
      (segments : List (List ℕ)) (i j : ℕ) (params : List Param) (h : Handler)
      → Walk pool i segments j
      → Handles (node_at pool j) method h
      → match_route_node pool method segments i params ≢ unmatched
  unfolding match_route_node
  match_route_node_complete [] i j params h stop handles e =
      at_leaf-ne-unmatched (node_at pool i) method params h handles e
  match_route_node_complete (segment ∷ rest) i j params h (step has fits walk) handles e =
      let (ps, below) =
        try_children_complete pool segment (match_route_node pool method rest) params
          (node_at pool i).children _ has fits e in
      match_route_node_complete rest _ j ps h walk handles below

  -- A request of at most as many segments as parameters are left writes none behind their array.
  pub match_route_node-ne-out_of_bounds :
      (segments : List (List ℕ)) (i : ℕ) (params : List Param)
      → length params + length segments ≤ max_params
      → match_route_node pool method segments i params ≢ out_of_bounds
  unfolding match_route_node
  match_route_node-ne-out_of_bounds [] i params room e = ground arith
  match_route_node-ne-out_of_bounds (segment ∷ rest) i params room e =
      try_children-ne-out_of_bounds pool segment (match_route_node pool method rest) params
        (node_at pool i).children (omega arith)
        (λ c ps few. match_route_node-ne-out_of_bounds rest c ps (omega arith)) e
