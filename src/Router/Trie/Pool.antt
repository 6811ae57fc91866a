-- ===== src/Router/Trie/Pool.antt =====
-- The pool of nodes: reads after writes, and what makes a pool well formed.
use uvhttp.Prelude.{
  length-set, get_or-set, get_or-snoc, ℕ, ◌+◌, ◌≤◌, ◌<◌, Bool, true, false, List, [], ◌∷◌, ◌++◌,
  Option, none, some, ◌≡◌, refl, sym, inl, inr, if◌then◌else◌, leb, length, set, All, length-append,
  arith, subst, take, length-take, NoSlash, IsToken, ltb, ◌==◌,
}
use uvhttp.Router.Trie.{
  RouteNode, zero_node, Pool, node_at, max_children, find_child, new_child, with_child, grow,
  find_or_create_child, slash_index, with_param_name, save_param_name, token_is_param,
  token_segment,
}

-- A well-formed node of a pool of `n` nodes: at most 12 children, each a node of the pool, and
-- segment and name within their 32 bytes.
pub record IsNode (n : ℕ) (node : RouteNode) : Type 0 where
  pub few : length node.children ≤ max_children
  pub linked : All (λ i. i < n) node.children
  pub short : length node.segment ≤ 31
  pub short_name : length node.param_name ≤ 31

abbrev pub AllNodes : ℕ → Pool → Type 0
AllNodes n pool = (i : ℕ) → IsNode n (node_at pool i)

abbrev pub IsPool : Pool → Type 0
IsPool pool = AllNodes (length pool) pool

pub zero_node-IsNode : (n : ℕ) → IsNode n zero_node
zero_node-IsNode n = record {
  few = omega arith;
  linked = tt;
  short = omega arith;
  short_name = omega arith;
}

pub All-lt_mono : (n m : ℕ) (is : List ℕ) → n ≤ m → All (λ i. i < n) is → All (λ i. i < m) is
All-lt_mono n m [] h a = tt
All-lt_mono n m (i ∷ is) h (p, a) = (omega arith, All-lt_mono n m is h a)

pub IsNode-mono : (n m : ℕ) (node : RouteNode) → n ≤ m → IsNode n node → IsNode m node
IsNode-mono n m node h v = record {
  few = v.few;
  linked = All-lt_mono n m node.children h v.linked;
  short = v.short;
  short_name = v.short_name;
}

All-lt_snoc :
    (n : ℕ) (is : List ℕ) (j : ℕ) → All (λ i. i < n) is → j < n → All (λ i. i < n) (is ++ j ∷ [])
All-lt_snoc n [] j a h = (h, tt)
All-lt_snoc n (i ∷ is) j (p, a) h = (p, All-lt_snoc n is j a h)

-- Writing a well-formed node keeps all nodes well formed.
set-nodes :
    (n : ℕ) (pool : Pool) (j : ℕ) (node : RouteNode)
    → AllNodes n pool
    → IsNode n node
    → AllNodes n (set pool j node)
set-nodes n pool j node v k i = elim (get_or-set pool j i node zero_node) [
  | inl same ↦ subst (IsNode n) (sym same) (v i)
  | inr (_, _, new) ↦ subst (IsNode n) (sym new) k
]

pub set-IsPool :
    (pool : Pool) (j : ℕ) (node : RouteNode)
    → IsPool pool
    → IsNode (length pool) node
    → IsPool (set pool j node)
set-IsPool pool j node v k =
    subst (λ n. AllNodes n (set pool j node)) (sym (length-set pool j node))
      (set-nodes (length pool) pool j node v k)

snoc-nodes :
    (n : ℕ) (pool : Pool) (node : RouteNode)
    → AllNodes n pool
    → IsNode n node
    → AllNodes n (pool ++ node ∷ [])
snoc-nodes n pool node v k i = elim (get_or-snoc pool node zero_node i) [
  | inl (_, same) ↦ subst (IsNode n) (sym same) (v i)
  | inr (inl (_, new)) ↦ subst (IsNode n) (sym new) k
  | inr (inr beyond) ↦ subst (IsNode n) (sym beyond) (zero_node-IsNode n)
]

new_child-IsNode :
    (n : ℕ) (segment : List ℕ) (is_param : Bool) → IsNode n (new_child segment is_param)
new_child-IsNode n segment is_param = record {
  few = omega arith;
  linked = tt;
  short = omega (arith, length-take 31 segment);
  short_name = omega arith;
}

pub length-grow :
    (pool : Pool) (parent : ℕ) (segment : List ℕ) (is_param : Bool)
    → length (grow pool parent segment is_param) ≡ length pool + 1
length-grow pool parent segment is_param = omega (
  arith,
  length-append (set pool parent (with_child (node_at pool parent) (length pool)))
      (new_child segment is_param ∷ []),
  length-set pool parent (with_child (node_at pool parent) (length pool)),
)

with_child-IsNode :
    (n : ℕ) (node : RouteNode)
    → IsNode n node
    → length node.children < max_children
    → IsNode (n + 1) (with_child node n)
with_child-IsNode n node v room = record {
  few = omega (arith, length-append node.children (n ∷ []));
  linked =
      All-lt_snoc (n + 1) node.children n
        (All-lt_mono n (n + 1) node.children (omega arith) v.linked) (omega arith);
  short = v.short;
  short_name = v.short_name;
}

grow-IsPool :
    (pool : Pool) (parent : ℕ) (segment : List ℕ) (is_param : Bool)
    → IsPool pool
    → length (node_at pool parent).children < max_children
    → IsPool (grow pool parent segment is_param)
grow-IsPool pool parent segment is_param v room =
    subst (λ n. AllNodes n (grow pool parent segment is_param))
      (sym (length-grow pool parent segment is_param))
      (snoc-nodes _ _ (new_child segment is_param)
        (set-nodes _ pool parent _ (λ i. IsNode-mono _ _ _ (omega arith) (v i))
          (with_child-IsNode _ _ (v parent) room))
        (new_child-IsNode _ segment is_param))

pub find_or_create_child-IsPool :
    (pool : Pool) (parent : ℕ) (segment : List ℕ) (is_param : Bool)
    → IsPool pool
    → IsPool (find_or_create_child pool parent segment is_param).0
unfolding find_or_create_child
find_or_create_child-IsPool pool parent segment is_param v =
    go (find_child pool (node_at pool parent).children segment)
      (leb max_children (length (node_at pool parent).children)) refl
  where
    go :
        (found : Option ℕ) (full : Bool)
        → leb max_children (length (node_at pool parent).children) ≡ full
        → IsPool (
            let r : Pool × Option ℕ = elim found [
              | some i ↦ (pool, some i)
              | none ↦
                  if full
                  then (pool, none)
                  else (grow pool parent segment is_param, some (length pool))
            ] in
            r.0)
    go (some i) full e = v
    go none true e = v
    go none false e = grow-IsPool pool parent segment is_param v (ground arith)

with_param_name-IsPool :
    (pool : Pool) (i : ℕ) (name : List ℕ)
    → IsPool pool
    → length name ≤ 31
    → IsPool (with_param_name pool i name)
with_param_name-IsPool pool i name v short =
    set-IsPool pool i _ v
      (record { few = (v i).few; linked = (v i).linked; short = (v i).short; short_name = short })

-- A token holds no '/', so the loop that is to save a parameter's name saves none.
slash_index-eq-none : (i : ℕ) (s : List ℕ) → NoSlash s → slash_index i s ≡ none
unfolding slash_index
slash_index-eq-none i [] h = refl
slash_index-eq-none i (c ∷ s) (n, h) = ground (arith, slash_index-eq-none (i + 1) s h)

token_segment-NoSlash : (token : List ℕ) → IsToken token → NoSlash (token_segment token)
token_segment-NoSlash [] h = tt
token_segment-NoSlash (c ∷ rest) h = go (c == b':')
  where
    go : (b : Bool) → NoSlash (if b then rest else c ∷ rest)
    go true = h.1
    go false = h

-- Looking for the name of a parameter in a token, which has no slash, leaves the pool as it is: no
-- name is saved.
pub save_param_name_idle :
    (pool : Pool) (current : ℕ) (token : List ℕ)
    → IsToken token
    → save_param_name pool current token ≡ pool
unfolding save_param_name
save_param_name_idle pool current token h = go (token_is_param token)
  where
    go :
        (b : Bool)
        → (if b
            then elim (slash_index 0 (token_segment token)) [
              | none ↦ pool
              | some i ↦
                  with_param_name pool current
                    (take (if ltb i 32 then i else 31) (token_segment token))
            ]
            else pool)
          ≡ pool
    go true = rw (slash_index-eq-none 0 (token_segment token) (token_segment-NoSlash token h))
    go false = refl
