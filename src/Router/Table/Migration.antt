-- ===== src/Router/Table/Migration.antt =====
-- The migration of the routes of the array into the trie: what stands where a path leads.
use mathlib.Core.Option.{some-injective}
use uvhttp.Prelude.{
  get_or-set, get_or-set_self, ℕ, ◌<◌, Bool, true, false, List, [], ◌∷◌, Option, none, some, ◌≡◌,
  refl, subst, ap, ◌∙◌, ◌⊎◌, inl, inr, length, take, tokens, tokens-IsToken, All, arith,
  if◌then◌else◌,
}
use uvhttp.Error.{Result, ok}
use uvhttp.Router.Array.{ArrayRoute}
use uvhttp.Router.Trie.{RouteNode, Pool, node_at, insert_tokens, set_handler, zero_node}
use uvhttp.Router.Trie.Pool.{IsPool}
use uvhttp.Router.Trie.Walk.{Walk}
use uvhttp.Router.Trie.Extends.{Walk-Extends}
use uvhttp.Router.Trie.Insert.{Grown, Ends, IsLiteral, insert_tokens-Grown, insert_tokens-Ends}
use uvhttp.Router.Trie.Keeps.{SameRoute, insert_tokens-SameRoute}
use uvhttp.Router.Table.{Router, migrated, migrate_routes, migrate_to_trie}
use uvhttp.Router.Table.Grown.{set_handler-Grown, migrate_routes-Grown}
use uvhttp.Router.Table.Invariant.{IsRouter}

-- A route stands at a node: the node has its method and its handler, and a walk along its segments
-- leads there if they are literal.
pub record StandsAt (q : Pool) (root j : ℕ) (route : ArrayRoute) : Type 0 where
  pub method : (node_at q j).method ≡ route.method
  pub handler : (node_at q j).handler ≡ some route.handler
  pub walk :
      All IsLiteral (tokens (take 255 route.path)) → Walk q root (tokens (take 255 route.path)) j

-- One of the routes stands at a node.
abbrev pub Stands : Pool → ℕ → ℕ → List ArrayRoute → Type 0
Stands q root j [] = ⊥
Stands q root j (route ∷ later) = StandsAt q root j route ⊎ Stands q root j later

-- Each literal route leads to a node at which it stands itself, or a route behind it in the list.
abbrev pub Migrated : Pool → ℕ → List ArrayRoute → Type 0
Migrated q root [] = Unit
Migrated q root (route ∷ later) =
    (All IsLiteral (tokens (take 255 route.path))
      → (j : ℕ) × Walk q root (tokens (take 255 route.path)) j × Stands q root j (route ∷ later))
    × Migrated q root later

set_handler-StandsAt :
    (pool : Pool) (root j : ℕ) (route : ArrayRoute)
    → IsPool pool
    → Ends pool root (tokens (take 255 route.path)) j
    → StandsAt (set_handler pool j route.method route.handler) root j route
set_handler-StandsAt pool root j route v ends =
    let g = set_handler-Grown pool j route.method route.handler v in
    let new = get_or-set_self pool j _ zero_node ends.inside in
    record {
      method = ap (λ (n : RouteNode). n.method) new;
      handler = ap (λ (n : RouteNode). n.handler) new;
      walk = λ lits. Walk-Extends v g.extends (ends.walk lits);
    }

-- The pool that migrating more routes leaves: a node keeps its method and its handler, or one of
-- those routes stands there.
KeptOrStands : Pool → Pool → ℕ → List ArrayRoute → Type 0
KeptOrStands p q root routes =
    (j : ℕ) → SameRoute (node_at p j) (node_at q j) ⊎ Stands q root j routes

-- What the migration of the routes of a list leaves in the pool.
record Moves (p q : Pool) (root : ℕ) (routes : List ArrayRoute) : Type 0 where
  kept : KeptOrStands p q root routes
  migrated_all : Migrated q root routes

StandsAt-Kept :
    {p q : Pool} (root j : ℕ) (route : ArrayRoute)
    → IsPool p
    → Grown p q
    → SameRoute (node_at p j) (node_at q j)
    → StandsAt p root j route
    → StandsAt q root j route
StandsAt-Kept root j route v g (m, h) s = record {
  method = m ∙ s.method;
  handler = h ∙ s.handler;
  walk = λ lits. Walk-Extends v g.extends (s.walk lits);
}

-- The first route has been set at node `j` of `p`, and the others have been migrated after it.
Moves-cons :
    (pool p q : Pool) (root j : ℕ) (route : ArrayRoute) (later : List ArrayRoute)
    → ((i : ℕ) → SameRoute (node_at pool i) (node_at p i))
    → IsPool p
    → Ends p root (tokens (take 255 route.path)) j
    → Grown (set_handler p j route.method route.handler) q
    → Moves (set_handler p j route.method route.handler) q root later
    → Moves pool q root (route ∷ later)
unfolding KeptOrStands
Moves-cons pool p q root j route later same v ends g m =
    let set_pool = set_handler p j route.method route.handler in
    let first = set_handler-StandsAt p root j route v ends in
    let w = (set_handler-Grown p j route.method route.handler v).kept in
    let here : Stands q root j (route ∷ later) = elim (m.kept j) [
      | inl unchanged ↦ inl (StandsAt-Kept root j route w g unchanged first)
      | inr other ↦ inr other
    ] in
    record {
      kept = λ i. elim (get_or-set p j i _ zero_node) [
        | inr (eq, _, _) ↦ inr (subst (λ k. Stands q root k (route ∷ later)) eq here)
        | inl untouched ↦ elim (m.kept i) [
          | inr other ↦ inr (inr other)
          | inl (sm, sh) ↦ inl (
            sm ∙ ap (λ (n : RouteNode). n.method) untouched ∙ (same i).0,
            sh ∙ ap (λ (n : RouteNode). n.handler) untouched ∙ (same i).1,
          )
        ]
      ];
      migrated_all =
          (λ lits. (j, Walk-Extends w g.extends (first.walk lits), here), m.migrated_all);
    }

migrate_routes-Moves :
    (pool : Pool) (root : ℕ) (routes : List ArrayRoute)
    → IsPool pool
    → root < length pool
    → (migrate_routes pool root routes).1 ≡ true
    → Moves pool (migrate_routes pool root routes).0 root routes
unfolding migrate_routes KeptOrStands
migrate_routes-Moves pool root [] v lt e = record {
  kept = λ j. inl (refl, refl);
  migrated_all = tt;
}
migrate_routes-Moves pool root (route ∷ routes) v lt e =
    go (insert_tokens false pool root (tokens (take 255 route.path)))
      (insert_tokens-Grown false pool root _ (tokens-IsToken _) v)
      (insert_tokens-SameRoute pool root (tokens (take 255 route.path)))
      (λ j at. insert_tokens-Ends false pool root j _ (tokens-IsToken _) v lt at)
      (λ p w small done. migrate_routes-Moves p root routes w small done) e
  where
    rest_of : Pool × Option ℕ → Pool × Bool
    rest_of made = elim made.1 [
      | none ↦ (made.0, false)
      | some j ↦ migrate_routes (set_handler made.0 j route.method route.handler) root routes
    ]

    go :
        (made : Pool × Option ℕ)
        → Grown pool made.0
        → ((i : ℕ) → SameRoute (node_at pool i) (node_at (made.0) i))
        → ((j : ℕ) → made.1 ≡ some j → Ends made.0 root (tokens (take 255 route.path)) j)
        → ((p : Pool)
            → IsPool p
            → root < length p
            → (migrate_routes p root routes).1 ≡ true
            → Moves p (migrate_routes p root routes).0 root routes)
        → (rest_of made).1 ≡ true
        → Moves pool (rest_of made).0 root (route ∷ routes)
    go (p, none) g same ends rest e = absurd cc
    go (p, some j) g same ends rest e =
        let s = set_handler-Grown p j route.method route.handler g.kept in
        Moves-cons pool p _ root j route routes same g.kept (ends j refl)
          (migrate_routes-Grown _ root routes s.kept)
          (rest _ s.kept (omega (arith, g.extends.longer, s.extends.longer)) e)

-- Where the migration of a well-formed router in array mode succeeds, the router is in trie mode
-- and holds no array route. Each array route whose segments are no parameters and of at most 31
-- bytes leads from the root to a node that has the method and the handler of that route or of one
-- behind it in the array, whose path leads there too if its segments are literal.
pub migrate_to_trie-Migrated :
    (r r' : Router)
    → IsRouter r
    → r.use_trie ≡ false
    → migrate_to_trie r ≡ some (r', ok tt)
    → (r'.use_trie ≡ true)
      × (r'.array_routes ≡ [])
      × Migrated r'.node_pool r.root_index r.array_routes
unfolding migrate_to_trie
migrate_to_trie-Migrated r r' v off =
    go r.use_trie r.array_freed off (migrate_routes r.node_pool r.root_index r.array_routes)
      (λ done.
        let m = migrate_routes-Moves r.node_pool r.root_index r.array_routes v.pool v.root done in
        m.migrated_all)
  where
    Result_of : Router × Result (Unit {0}) → Type 0
    Result_of (q, _) =
        (q.use_trie ≡ true)
        × (q.array_routes ≡ [])
        × Migrated q.node_pool r.root_index r.array_routes

    go :
        (mode freed : Bool)
        → mode ≡ false
        → (made : Pool × Bool) → (made.1 ≡ true → Migrated made.0 r.root_index r.array_routes)
        → (if mode then some (r, ok tt) else if freed then none else some (migrated r made))
          ≡ some (r', ok tt)
        → Result_of (r', ok tt)
    go true freed off made m e = absurd cc
    go false true off made m e = absurd cc
    go false false off (pool, true) m e =
        subst Result_of (some-injective _ _ e) (refl, refl, m refl)
    go false false off (pool, false) m e = absurd cc
