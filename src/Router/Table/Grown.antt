-- ===== src/Router/Table/Grown.antt =====
-- How the pool of nodes grows where src/uvhttp_router.c sets a handler and migrates the array.
use uvhttp.Prelude.{
  ℕ, zero, suc, ◌+◌, ◌*◌, ◌≤◌, Bool, false, List, [], ◌∷◌, Option, none, some, arith, take, tokens,
  tokens-IsToken,
}
use uvhttp.Router.Method.{Method}
use uvhttp.Router.Array.{Handler, ArrayRoute}
use uvhttp.Router.Trie.{Pool, insert_tokens, set_handler}
use uvhttp.Router.Trie.Pool.{IsPool, set-IsPool}
use uvhttp.Router.Trie.Extends.{Extends-refl, Extends-set_handler}
use uvhttp.Router.Trie.Insert.{Grown, Grown-trans, insert_tokens-Grown}
use uvhttp.Router.Table.{pool_size_for, migrate_routes}

pub set_handler-Grown :
    (pool : Pool) (j : ℕ) (method : Method) (h : Handler)
    → IsPool pool
    → Grown pool (set_handler pool j method h)
set_handler-Grown pool j method h v = record {
  extends = Extends-set_handler pool j method h;
  kept = set-IsPool pool j _ v (record {
    few = (v j).few;
    linked = (v j).linked;
    short = (v j).short;
    short_name = (v j).short_name;
  });
}

pub Grown-refl : (p : Pool) → IsPool p → Grown p p
Grown-refl p v = record { extends = Extends-refl p; kept = v }

pub migrate_routes-Grown :
    (pool : Pool) (root : ℕ) (routes : List ArrayRoute)
    → IsPool pool
    → Grown pool (migrate_routes pool root routes).0
unfolding migrate_routes
migrate_routes-Grown pool root [] v = Grown-refl pool v
migrate_routes-Grown pool root (route ∷ routes) v =
    go (insert_tokens false pool root (tokens (take 255 route.path)))
      (insert_tokens-Grown false pool root _ (tokens-IsToken _) v)
      (λ p w. migrate_routes-Grown p root routes w)
  where
    go :
        (made : Pool × Option ℕ)
        → Grown pool made.0
        → ((p : Pool) → IsPool p → Grown p (migrate_routes p root routes).0)
        → Grown pool (
            let r : Pool × Bool = elim made.1 [
              | none ↦ (made.0, false)
              | some j ↦
                  migrate_routes (set_handler made.0 j route.method route.handler) root routes
            ] in
            r.0)
    go (p, none) g rest = g
    go (p, some j) g rest =
        let s = set_handler-Grown p j route.method route.handler g.kept in
        Grown-trans g (Grown-trans s (rest _ s.kept))

-- Doubling a size that is not 0 makes room for any number of nodes in use that is at most the sum of
-- size and fuel.
pub pool_size_for-le :
    (fuel size used : ℕ) → 1 ≤ size → used ≤ size + fuel → used ≤ pool_size_for fuel size used
unfolding pool_size_for
pool_size_for-le zero size used p h = omega arith
pool_size_for-le (suc fuel) size used p h =
    ground (arith, pool_size_for-le fuel (size * 2) used (omega arith))
