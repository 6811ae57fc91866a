-- ===== src/Router/Trie.antt =====
-- The trie of src/uvhttp_router.c in its pool of nodes: the nodes in use, by index. Allocations
-- succeed, so that creating a node does; the index UINT32_MAX is `none`.
pub mod Pool
pub mod Walk
pub mod Extends
pub mod Create
pub mod Insert
pub mod Keeps
use uvhttp.Prelude.{
  ℕ, zero, suc, ◌+◌, ◌-◌, Bool, true, false, ◌&&◌, ◌||◌, List, [], ◌∷◌, ◌++◌, Option, none, some,
  if◌then◌else◌, ltb, leb, ◌==◌, length, get_or, set, take, drop, streq, strneq,
}
use uvhttp.Router.Method.{Method, any, method_eq}
use uvhttp.Router.Array.{Handler}

-- `uvhttp_route_node_t`: `segment` is `segment_data` up to `segment_len`, `param_name` the same
-- for the name, and `children` the indices up to `child_count`.
pub record RouteNode : Type 0 where
  pub method : Method
  pub handler : Option Handler
  pub children : List ℕ
  pub is_param : Bool
  pub segment : List ℕ
  pub param_name : List ℕ

-- A node whose bytes are 0.
abbrev pub zero_node : RouteNode
zero_node = record {
  method = any;
  handler = none;
  children = [];
  is_param = false;
  segment = [];
  param_name = [];
}

abbrev pub Pool : Type 0
Pool = List RouteNode

abbrev pub node_at : Pool → ℕ → RouteNode
node_at pool i = get_or pool i zero_node

abbrev pub max_children : ℕ
max_children = 12

-- `char segment_data[32]` keeps 31 bytes.
abbrev pub max_segment : ℕ
max_segment = 31

-- The test of `find_or_create_child` on an existing child.
abbrev pub same_segment : RouteNode → List ℕ → Bool
same_segment child segment =
    strneq (length child.segment) child.segment segment && length segment == length child.segment

-- The search among the children.
unfoldable pub find_child : Pool → List ℕ → List ℕ → Option ℕ
find_child pool [] segment = none
find_child pool (i ∷ is) segment =
    let later = find_child pool is segment in
    if same_segment (node_at pool i) segment then some i else later

abbrev pub new_child : List ℕ → Bool → RouteNode
new_child segment is_param = record zero_node {
  is_param = is_param;
  segment = take max_segment segment;
}

abbrev pub with_child : RouteNode → ℕ → RouteNode
with_child parent i = record parent { children = parent.children ++ i ∷ [] }

-- `create_route_node`, and the fields of the child and of its parent.
abbrev pub grow : Pool → ℕ → List ℕ → Bool → Pool
grow pool parent segment is_param =
    set pool parent (with_child (node_at pool parent) (length pool))
    ++ new_child segment is_param ∷ []

-- `find_or_create_child`
unfoldable pub find_or_create_child : Pool → ℕ → List ℕ → Bool → Pool × Option ℕ
find_or_create_child pool parent segment is_param =
    elim (find_child pool (node_at pool parent).children segment) [
      | some i ↦ (pool, some i)
      | none ↦
          if leb max_children (length (node_at pool parent).children)
          then (pool, none)
          else (grow pool parent segment is_param, some (length pool))
    ]

-- Is a token a parameter, and the segment that it stands for.
abbrev pub token_is_param : List ℕ → Bool
token_is_param [] = false
token_is_param (c ∷ rest) = c == b':'

abbrev pub token_segment : List ℕ → List ℕ
token_segment [] = []
token_segment (c ∷ rest) = if c == b':' then rest else c ∷ rest

-- The index of the first '/' of a token: the loop that is to save the parameter's name.
unfoldable pub slash_index : ℕ → List ℕ → Option ℕ
slash_index i [] = none
slash_index i (c ∷ rest) =
    let later = slash_index (i + 1) rest in if c == b'/' then some i else later

abbrev pub with_param_name : Pool → ℕ → List ℕ → Pool
with_param_name pool i name = let n = node_at pool i in set pool i (record n { param_name = name })

unfoldable pub save_param_name : Pool → ℕ → List ℕ → Pool
save_param_name pool current token =
    if token_is_param token
    then elim (slash_index 0 (token_segment token)) [
      | none ↦ pool
      | some i ↦
          with_param_name pool current (take (if ltb i 32 then i else 31) (token_segment token))
    ]
    else pool

-- Going on with a child, if there is one; the pool is kept either way.
abbrev pub descend : Pool × Option ℕ → (Pool → ℕ → Pool × Option ℕ) → Pool × Option ℕ
descend (pool, none) more = (pool, none)
descend (pool, some child) more = more pool child

-- The loop over the tokens of a path, from a node down; `saving` is the variant of
-- `uvhttp_router_add_route_method`, which looks for parameter names, and not that of
-- `migrate_to_trie`.
unfoldable pub insert_tokens : Bool → Pool → ℕ → List (List ℕ) → Pool × Option ℕ
insert_tokens saving pool current [] = (pool, some current)
insert_tokens saving pool current (token ∷ rest) =
    let saved = if saving then save_param_name pool current token else pool in
    descend (find_or_create_child saved current (token_segment token) (token_is_param token))
      (λ pool' child. insert_tokens saving pool' child rest)

abbrev pub set_handler : Pool → ℕ → Method → Handler → Pool
set_handler pool i method handler =
    let n = node_at pool i in set pool i (record n { method = method; handler = some handler })

-- `uvhttp_param_t`
pub record Param : Type 0 where
  pub name : List ℕ
  pub value : List ℕ

abbrev pub max_params : ℕ
max_params = 16

-- `match_route_node` on the match that it fills: the handler and the parameters, a failure, or a
-- write behind the array of MAX_PARAMS parameters.
pub data MatchResult : Type 0 where
  matched : Handler → List Param → MatchResult
  unmatched : MatchResult
  out_of_bounds : MatchResult

abbrev pub at_leaf : RouteNode → Method → List Param → MatchResult
at_leaf node method params = elim node.handler [
  | none ↦ unmatched
  | some h ↦
      if method_eq node.method any || method_eq node.method method
      then matched h params
      else unmatched
]

abbrev pub or_else : MatchResult → MatchResult → MatchResult
or_else (matched h params) later = matched h params
or_else unmatched later = later
or_else out_of_bounds later = out_of_bounds

-- The parameter that a node takes from a segment: at most 63 and 255 bytes.
abbrev pub param_of : RouteNode → List ℕ → Param
param_of child segment = record { name = take 63 child.param_name; value = take 255 segment }

-- The test on a child that is no parameter.
abbrev pub exact_segment : RouteNode → List ℕ → Bool
exact_segment child segment =
    length segment == length child.segment && strneq (length segment) child.segment segment

-- A child on a segment; `down` is the recursive call.
abbrev pub try_child : (ℕ → List Param → MatchResult) → Pool → List ℕ → List Param → ℕ → MatchResult
try_child down pool segment params i =
    if (node_at pool i).is_param
    then if leb max_params (length params)
      then out_of_bounds
      else down i (params ++ param_of (node_at pool i) segment ∷ [])
    else if exact_segment (node_at pool i) segment
    then down i params
    else unmatched

-- The loop over the children.
unfoldable pub try_children :
    (ℕ → List Param → MatchResult) → Pool → List ℕ → List Param → List ℕ → MatchResult
try_children down pool segment params [] = unmatched
try_children down pool segment params (i ∷ is) =
    or_else (try_child down pool segment params i) (try_children down pool segment params is)

-- `match_route_node`
unfoldable pub match_route_node : Pool → Method → List (List ℕ) → ℕ → List Param → MatchResult
unfolding try_children
match_route_node pool method [] i params = at_leaf (node_at pool i) method params
match_route_node pool method (segment ∷ rest) i params =
    try_children (match_route_node pool method rest) pool segment params (node_at pool i).children
