-- ===== src/Router/Table/Invariant.antt =====
-- Well-formed routers of src/uvhttp_router.c: the operations that add routes keep them.
use uvhttp.Prelude.{
  ℕ, zero, suc, ◌≤◌, ◌<◌, Bool, true, false, List, [], ◌∷◌, Option, none, some, ◌≡◌, refl,
  if◌then◌else◌, leb, length, length-append, arith, take, tokens-IsToken, has_char, ◌||◌,
  Bool-cases, inl, inr,
}
use uvhttp.Error.{Result, ok, err}
use uvhttp.Router.Method.{Method}
use uvhttp.Router.Array.{Handler}
use uvhttp.Router.Trie.{Pool, set_handler, zero_node}
use uvhttp.Router.Trie.Pool.{IsPool, zero_node-IsNode}
use uvhttp.Router.Trie.Insert.{Grown, Grown-trans, insert_tokens-Grown}
use uvhttp.Router.Table.{
  Router, router_new, with_pool, append_route, add_array_route, added, Change, wants_trie, migrated,
  migrate_routes, migrate_to_trie, set_trie_handler, add_trie_route, after_migration, is_route_path,
  add_route_method,
}
use uvhttp.Router.Table.Grown.{set_handler-Grown, migrate_routes-Grown, pool_size_for-le}

-- The pool is well formed, holds the root and fits its allocation; so do the routes of the array;
-- a router in trie mode has none.
pub record IsRouter (r : Router) : Type 0 where
  pub pool : IsPool r.node_pool
  pub root : r.root_index < length r.node_pool
  pub allocated : length r.node_pool ≤ r.node_pool_size
  pub stored : length r.array_routes ≤ r.array_capacity
  pub growable : r.use_trie ≡ false → 1 ≤ r.array_capacity
  pub moved : r.use_trie ≡ true → r.array_routes ≡ []

with_pool-IsRouter :
    (r : Router) (pool : Pool) → IsRouter r → Grown r.node_pool pool → IsRouter (with_pool r pool)
with_pool-IsRouter r pool v g = record {
  pool = g.kept;
  root = omega (arith, v.root, g.extends.longer);
  allocated =
      pool_size_for-le (length pool) r.node_pool_size (length pool)
        (omega (arith, v.root, v.allocated)) (omega arith);
  stored = v.stored;
  growable = v.growable;
  moved = v.moved;
}

-- A new router is well formed.
pub router_new-IsRouter : IsRouter router_new
unfolding router_new
router_new-IsRouter = record {
  pool = nodes;
  root = omega arith;
  allocated = omega arith;
  stored = omega arith;
  growable = λ _. omega arith;
  moved = λ _. refl;
}
  where
    nodes : IsPool (zero_node ∷ [])
    nodes zero = zero_node-IsNode 1
    nodes (suc i) = zero_node-IsNode 1

append_route-IsRouter :
    (r : Router) (path : List ℕ) (method : Method) (h : Handler)
    → IsRouter r
    → r.use_trie ≡ false
    → IsRouter (append_route r path method h)
append_route-IsRouter r path method h v off = record {
  pool = v.pool;
  root = v.root;
  allocated = v.allocated;
  stored = ground (
    arith,
    v.stored,
    v.growable off,
    length-append r.array_routes
        (record { path = take 255 path; method = method; handler = h } ∷ []),
  );
  growable = λ e. ground (arith, v.growable off);
  moved = λ e. absurd cc;
}

-- The router that a change leaves is well formed; it faults only where the array of routes has been
-- freed and is still searched.
abbrev pub Keeps : Router → Change → Type 0
Keeps r none = (r.array_freed ≡ true) × (r.use_trie ≡ false)
Keeps r (some (r', _)) = IsRouter r'

add_array_route-Keeps :
    (r : Router) (path : List ℕ) (method : Method) (h : Handler)
    → IsRouter r
    → r.use_trie ≡ false
    → Keeps r (added (add_array_route r path method h))
unfolding add_array_route
add_array_route-Keeps r path method h v off =
    go r.array_freed refl (append_route r path method h)
      (append_route-IsRouter r path method h v off)
  where
    go :
        (freed : Bool)
        → r.array_freed ≡ freed
        → (r' : Router) → IsRouter r'
        → Keeps r (added (if freed then none else some r'))
    go true e r' w = (e, off)
    go false e r' w = w

migrated-IsRouter :
    (r : Router) (made : Pool × Bool)
    → IsRouter r
    → Grown r.node_pool made.0
    → IsRouter (migrated r made).0
migrated-IsRouter r (pool, true) v g =
    let w = with_pool-IsRouter r pool v g in
    record {
      pool = w.pool;
      root = w.root;
      allocated = w.allocated;
      stored = omega arith;
      growable = λ x. absurd cc;
      moved = λ _. refl;
    }
migrated-IsRouter r (pool, false) v g =
    let w = with_pool-IsRouter r pool v g in
    record {
      pool = w.pool;
      root = w.root;
      allocated = w.allocated;
      stored = w.stored;
      growable = w.growable;
      moved = w.moved;
    }

pub migrate_to_trie-Keeps : (r : Router) → IsRouter r → Keeps r (migrate_to_trie r)
unfolding migrate_to_trie
migrate_to_trie-Keeps r v =
    go r.use_trie r.array_freed refl refl
      (migrated r (migrate_routes r.node_pool r.root_index r.array_routes))
      (migrated-IsRouter r _ v
        (migrate_routes-Grown r.node_pool r.root_index r.array_routes v.pool))
  where
    go :
        (mode freed : Bool)
        → r.use_trie ≡ mode
        → r.array_freed ≡ freed
        → (out : Router × Result (Unit {0})) → IsRouter out.0
        → Keeps r (if mode then some (r, ok tt) else if freed then none else some out)
    go true freed e d (r', x) w = v
    go false true e d (r', x) w = (d, e)
    go false false e d (r', x) w = w

set_trie_handler-IsRouter :
    (r : Router) (method : Method) (h : Handler) (made : Pool × Option ℕ)
    → IsRouter r
    → Grown r.node_pool made.0
    → IsRouter (set_trie_handler r method h made).0
set_trie_handler-IsRouter r method h (pool, none) v g = with_pool-IsRouter r pool v g
set_trie_handler-IsRouter r method h (pool, some j) v g =
    let w =
      with_pool-IsRouter r (set_handler pool j method h) v
        (Grown-trans g (set_handler-Grown pool j method h g.kept)) in
    record {
      pool = w.pool;
      root = w.root;
      allocated = w.allocated;
      stored = w.stored;
      growable = w.growable;
      moved = w.moved;
    }

add_trie_route-IsRouter :
    (r : Router) (path : List ℕ) (method : Method) (h : Handler)
    → IsRouter r
    → IsRouter (add_trie_route r path method h).0
unfolding add_trie_route
add_trie_route-IsRouter r path method h v =
    set_trie_handler-IsRouter r method h _ v
      (insert_tokens-Grown true r.node_pool r.root_index _ (tokens-IsToken _) v.pool)

after_migration-Keeps :
    (r : Router) (path : List ℕ) (method : Method) (h : Handler) (change : Change)
    → Keeps r change
    → Keeps r (after_migration path method h change)
after_migration-Keeps r path method h none k = k
after_migration-Keeps r path method h (some (r', err e)) v = v
after_migration-Keeps r path method h (some (r', ok _)) v =
    add_trie_route-IsRouter r' path method h v

pub array_mode_of_wants_trie :
    (r : Router) (path : List ℕ) → wants_trie r path ≡ false → r.use_trie ≡ false
array_mode_of_wants_trie r path e =
    go (has_char path b':') (leb 100 (length r.array_routes)) r.use_trie e
  where
    go : (a b c : Bool) → (a || b || c) ≡ false → c ≡ false
    go a b c e = ground arith

-- Registering a route keeps a router well formed, whether it succeeds or fails; it uses freed memory
-- only where the array of routes has been freed and the router is not in trie mode.
pub add_route_method-IsRouter :
    (r : Router) (path : List ℕ) (method : Method) (h : Handler)
    → IsRouter r
    → Keeps r (add_route_method r path method h)
unfolding add_route_method
add_route_method-IsRouter r path method h v = elim (Bool-cases (is_route_path path)) [
  | inr invalid ↦ rw invalid v
  | inl valid ↦ elim (Bool-cases (wants_trie r path)) [
    | inl wants ↦
        rw (valid, wants)
          (after_migration-Keeps r path method h (migrate_to_trie r) (migrate_to_trie-Keeps r v))
    | inr array ↦
        rw (valid, array)
          (add_array_route-Keeps r path method h v (array_mode_of_wants_trie r path array))
  ]
]
