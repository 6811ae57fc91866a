-- ===== src/Router/Trie/Insert.antt =====
-- Inserting the tokens of a path: the pool stays well formed and only grows, and a walk along the
-- tokens leads to the node that is returned.
use mathlib.Core.Option.{some-injective}
use uvhttp.Prelude.{
  ℕ, zero, suc, ◌≤◌, ◌<◌, Bool, true, false, List, [], ◌∷◌, Option, none, some, ◌≡◌, refl, ap, sym,
  ◌∙◌, inl, inr, subst, leb, length, arith, Bool-cases, take, All, IsToken,
}
use uvhttp.Router.Trie.{
  Pool, node_at, find_child, find_or_create_child, insert_tokens, token_is_param, token_segment,
  descend, max_children, max_segment,
}
use uvhttp.Router.Trie.Pool.{IsPool, find_or_create_child-IsPool, save_param_name_idle}
use uvhttp.Router.Trie.Walk.{Fits, Walk, stop, step}
use uvhttp.Router.Trie.Extends.{Extends, Extends-refl, Extends-trans, Extends-grow, Fits-Extends}
use uvhttp.Router.Trie.Create.{Descends, child_or_new, find_or_create_child-Descends}

-- Every token is free of '/', so no parameter name is ever saved, and both variants agree.
insert_tokens-cons :
    (saving : Bool) (pool : Pool) (i : ℕ) (token : List ℕ) (rest : List (List ℕ))
    → IsToken token
    → insert_tokens saving pool i (token ∷ rest)
      ≡ descend
          (find_or_create_child pool i (token_segment token) (token_is_param token))
          (λ p c. insert_tokens saving p c rest)
unfolding insert_tokens
insert_tokens-cons false pool i token rest h = refl
insert_tokens-cons true pool i token rest h =
    ap
      (λ p.
        descend (find_or_create_child p i (token_segment token) (token_is_param token))
          (λ p c. insert_tokens true p c rest))
      (save_param_name_idle pool i token h)

-- A token that is no parameter and that a node can keep.
abbrev pub IsLiteral : List ℕ → Type 0
IsLiteral token = (token_is_param token ≡ false) × (length token ≤ max_segment)

pub take_short {ℓ} : {A : Type ℓ} (n : ℕ) (xs : List A) → length xs ≤ n → take n xs ≡ xs
take_short zero [] h = refl
take_short (suc n) [] h = refl
take_short zero (x ∷ xs) h = absurd (omega arith)
take_short (suc n) (x ∷ xs) h = ap (◌∷◌ x) (take_short n xs (omega arith))

token_segment_literal :
    (token : List ℕ) → token_is_param token ≡ false → token_segment token ≡ token
token_segment_literal [] e = refl
token_segment_literal (c ∷ rest) e = ground arith

Descends-Fits :
    (p q : Pool) (parent c : ℕ) (segment : List ℕ)
    → length segment ≤ max_segment
    → Descends p parent segment false q c
    → Fits (node_at q c) segment
Descends-Fits p q parent c segment short d = elim (Bool-cases (node_at q c).is_param) [
  | inl param ↦ inl param
  | inr exact ↦ elim d.spelt [
    | inl same ↦ inr (exact, same)
    | inr (_, same) ↦ inr (exact, same ∙ take_short max_segment segment short)
  ]
]

descend-eq-some :
    (r : Pool × Option ℕ) (more : Pool → ℕ → Pool × Option ℕ) (j : ℕ)
    → (descend r more).1 ≡ some j
    → (c : ℕ) × (r.1 ≡ some c) × (descend r more ≡ more r.0 c)
descend-eq-some (p, none) more j e = absurd cc
descend-eq-some (p, some c) more j e = (c, refl, refl)

-- Inserting a path keeps the pool well formed and only lets it grow.
pub record Grown (p q : Pool) : Type 0 where
  pub extends : Extends p q
  pub kept : IsPool q

pub Grown-trans : {p q r : Pool} → Grown p q → Grown q r → Grown p r
Grown-trans g h = record { extends = Extends-trans g.extends h.extends; kept = h.kept }

find_or_create_child-Grown :
    (pool : Pool) (parent : ℕ) (segment : List ℕ) (is_param : Bool)
    → IsPool pool
    → Grown pool (find_or_create_child pool parent segment is_param).0
unfolding find_or_create_child
find_or_create_child-Grown pool parent segment is_param v = record {
  extends =
      go (find_child pool (node_at pool parent).children segment)
        (leb max_children (length (node_at pool parent).children));
  kept = find_or_create_child-IsPool pool parent segment is_param v;
}
  where
    go :
        (found : Option ℕ) (full : Bool)
        → Extends pool (child_or_new pool parent segment is_param found full).0
    go (some i) full = Extends-refl pool
    go none true = Extends-refl pool
    go none false = Extends-grow pool parent segment is_param

descend-Grown :
    (pool : Pool) (r : Pool × Option ℕ) (more : Pool → ℕ → Pool × Option ℕ)
    → Grown pool r.0
    → ((p : Pool) (c : ℕ) → IsPool p → Grown p (more p c).0)
    → Grown pool (descend r more).0
descend-Grown pool (p, none) more g h = g
descend-Grown pool (p, some c) more g h = Grown-trans g (h p c g.kept)

pub insert_tokens-Grown :
    (saving : Bool) (pool : Pool) (i : ℕ) (ts : List (List ℕ))
    → All IsToken ts
    → IsPool pool
    → Grown pool (insert_tokens saving pool i ts).0
unfolding insert_tokens
insert_tokens-Grown saving pool i [] a v = record { extends = Extends-refl pool; kept = v }
insert_tokens-Grown saving pool i (t ∷ ts) (h, a) v =
    subst (λ (r : Pool × Option ℕ). Grown pool r.0) (sym (insert_tokens-cons saving pool i t ts h))
      (descend-Grown pool _ _
        (find_or_create_child-Grown pool i (token_segment t) (token_is_param t) v)
        (λ p c w. insert_tokens-Grown saving p c ts a w))

-- Where a path leads.
pub record Ends (q : Pool) (i : ℕ) (ts : List (List ℕ)) (j : ℕ) : Type 0 where
  pub inside : j < length q
  pub walk : All IsLiteral ts → Walk q i ts j

Ends-cons :
    (pool p q : Pool) (i c j : ℕ) (t : List ℕ) (ts : List (List ℕ))
    → Descends pool i (token_segment t) (token_is_param t) p c
    → Grown p q
    → Ends q c ts j
    → Ends q i (t ∷ ts) j
Ends-cons pool p q i c j t ts d grown ends = record {
  inside = ends.inside;
  walk = λ (lit, lits).
      let short : length (token_segment t) ≤ max_segment =
        subst (λ s. length s ≤ max_segment) (sym (token_segment_literal t lit.0)) lit.1 in
      step (grown.extends.children i c d.has)
        (Fits-Extends c t d.inside grown.extends (
          subst (Fits (node_at p c)) (token_segment_literal t lit.0) (
            Descends-Fits pool p i c (token_segment t) short
              (subst (λ b. Descends pool i (token_segment t) b p c) lit.0 d))))
        (ends.walk lits);
}

-- Where inserting tokens below a node of a well-formed pool succeeds, the node that it gives is one
-- of the new pool, and if each token is literal (no parameter, at most 31 bytes) a walk along the
-- tokens leads there.
pub insert_tokens-Ends :
    (saving : Bool) (pool : Pool) (i j : ℕ) (ts : List (List ℕ))
    → All IsToken ts
    → IsPool pool
    → i < length pool
    → (insert_tokens saving pool i ts).1 ≡ some j
    → Ends (insert_tokens saving pool i ts).0 i ts j
unfolding insert_tokens
insert_tokens-Ends saving pool i j [] a v lt e =
    let same : i ≡ j = some-injective _ _ e in
    record {
      inside = subst (λ k. k < length pool) same lt;
      walk = λ _. subst (Walk pool i []) same stop;
    }
insert_tokens-Ends saving pool i j (t ∷ ts) (h, a) v lt e =
    let made = find_or_create_child pool i (token_segment t) (token_is_param t) in
    let grown = find_or_create_child-Grown pool i (token_segment t) (token_is_param t) v in
    let (c, child, below) =
      descend-eq-some made (λ p c. insert_tokens saving p c ts) j
        (subst (λ (r : Pool × Option ℕ). r.1 ≡ some j) (insert_tokens-cons saving pool i t ts h)
          e) in
    let d =
      find_or_create_child-Descends pool i (token_segment t) (token_is_param t) c v lt child in
    let whole = insert_tokens-cons saving pool i t ts h ∙ below in
    subst (λ (r : Pool × Option ℕ). Ends r.0 i (t ∷ ts) j) (sym whole)
      (Ends-cons pool made.0 (insert_tokens saving made.0 c ts).0 i c j t ts d
        (insert_tokens-Grown saving made.0 c ts a grown.kept)
        (insert_tokens-Ends saving made.0 c j ts a grown.kept d.inside
          (subst (λ (r : Pool × Option ℕ). r.1 ≡ some j) whole e)))
