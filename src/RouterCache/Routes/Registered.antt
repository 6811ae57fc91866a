-- ===== src/RouterCache/Routes/Registered.antt =====
-- The router of src/uvhttp_router_cache.c as a set of routes: what registering adds to it, and what
-- a search finds in it.
use mathlib.Core.Bool.{false≢true}
use uvhttp.Prelude.{
  ℕ, ◌<◌, true, false, List, [], ◌∷◌, ◌∙◌, Option, none, some, ◌≡◌, refl, ap, sym, subst, ◌⊎◌, inl,
  inr, ◌↔◌, length, length-replicate, arith, Bool-cases,
}
use uvhttp.Error.{invalid_param, already_exists, ok, err}
use uvhttp.Router.Method.{Method}
use uvhttp.Router.Array.{Handler, allows}
use uvhttp.RouterCache.Table.{
  load, zero_entry, is_blank, max_size, Added, added, overrun, add_to_hash_table, Found,
  find_in_hash_table_ex,
}
use uvhttp.RouterCache.Table.Placed.{
  Route, Has, used, used-replicate, free-replicate, Placed-replicate,
}
use uvhttp.RouterCache.Table.Resize.{IsTable}
use uvhttp.RouterCache.Table.Insert.{Adds, add_to_hash_table-Adds}
use uvhttp.RouterCache.Table.Search.{Exact, Answers, find_in_hash_table_ex-Answers}
use uvhttp.RouterCache.Routes.{
  CacheRouter, cache_router_new, Registration, registered, memory_fault, is_route, after_add,
  count_route, cache_add_route_method, is_static, fast_method_parse, cache_find_handler,
}

-- The routes of a router.
abbrev pub Holds : CacheRouter → Route → Type 0
Holds r route = Has r.hash_table.entries route

abbrev pub HasFor : CacheRouter → List ℕ → Method → Type 0
HasFor r path m = (h : Option Handler) × Holds r (path, m, h)

module _ (xxh64 : List ℕ → ℕ) where
  abbrev pub IsCacheRouter : CacheRouter → Type 0
  IsCacheRouter r = IsTable xxh64 r.hash_table

  -- What registering may do: refuse the path, or a route that is there, and leave the routes as
  -- they are; or take the route in, where there was none for the path and the method.
  abbrev pub Registers : CacheRouter → List ℕ → Method → Handler → Registration → Type 0
  Registers r path m h memory_fault = ⊥
  Registers r path m h (registered r' (err e)) =
      IsCacheRouter r'
      × ((route : Route) → Holds r' route ↔ Holds r route)
      × (((e ≡ invalid_param) × (is_route path ≡ false))
          ⊎ ((e ≡ already_exists) × (is_route path ≡ true) × HasFor r path m))
  Registers r path m h (registered r' (ok _)) =
      IsCacheRouter r'
      × ((route : Route) → Holds r' route ↔ (((path, m, some h) ≡ route) ⊎ Holds r route))
      × (is_route path ≡ true)
      × (¬ HasFor r path m)

  count_route-hash_table :
      (r : CacheRouter) (path : List ℕ) → (count_route r path).hash_table ≡ r.hash_table
  unfolding count_route
  count_route-hash_table r path = ground arith

  is_route-parts :
      (path : List ℕ) → is_route path ≡ true → (is_blank path ≡ false) × (length path < 256)
  is_route-parts [] h = absurd cc
  is_route-parts (c ∷ path) h = (refl, ground arith)

  after_add-Registers :
      (r : CacheRouter) (path : List ℕ) (m : Method) (h : Handler) (out : Added)
      → is_route path ≡ true
      → Adds xxh64 r.hash_table path m h out
      → Registers r path m h (after_add r path out)
  after_add-Registers r path m h overrun proper x = x
  after_add-Registers r path m h (added t (err e)) proper (same, there, valid, all) =
      (valid, all, inr (same, proper, there))
  after_add-Registers r path m h (added t (ok _)) proper (gone, valid, all) =
      rw (count_route-hash_table (record r { hash_table = t }) path) (valid, all, proper, gone)

  -- A new router is well formed, and holds no route.
  pub cache_router_new-IsCacheRouter :
      IsCacheRouter cache_router_new × ((route : Route) → ¬ Holds cache_router_new route)
  unfolding cache_router_new
  cache_router_new-IsCacheRouter = (
    record {
      sized = rw (length-replicate 256 zero_entry) (omega arith);
      small = rw (length-replicate 256 zero_entry) (omega arith);
      counted = sym (used-replicate 256);
      loaded = ap load (sym (length-replicate 256 zero_entry));
      placed = Placed-replicate xxh64 256;
      handled = λ p m x. empty (p, m, none) x;
      once = λ p m h k x y. absurd (empty (p, m, h) x);
    },
    empty,
  )
    where
      empty : (route : Route) → ¬ Holds cache_router_new route
      empty route (j, _, busy, _) = false≢true (sym busy ∙ free-replicate 256 j)

  -- Registering a route with a well-formed router of fewer than 4096 routes never writes outside
  -- the table. It refuses a path that is empty, too long or has a query, and a route that is
  -- there, and keeps the routes; any other route it adds to them, and nothing else.
  pub cache_add_route_method-Registers :
      (r : CacheRouter) (path : List ℕ) (m : Method) (h : Handler)
      → IsCacheRouter r
      → used r.hash_table.entries < max_size
      → Registers r path m h (cache_add_route_method xxh64 r path m h)
  unfolding cache_add_route_method
  cache_add_route_method-Registers r path m h valid few = elim (Bool-cases (is_route path)) [
    | inl proper ↦
        let (busy, short) = is_route-parts path proper in
        rw proper (
          after_add-Registers r path m h (add_to_hash_table xxh64 r.hash_table path m h) proper
            (add_to_hash_table-Adds xxh64 path m h busy short r.hash_table valid few))
    | inr refused ↦ rw refused (valid, λ route. (λ x. x, λ x. x), inl (refl, refused))
  ]

  -- What a search gives where a route for the path is there.
  Answers-only :
      (r : CacheRouter) (path : List ℕ) (m : Method) (h : Handler) (out : Found)
      → Answers r.hash_table.entries path m out
      → Exact r.hash_table.entries path m (some h)
      → ((k : Option Handler) → Exact r.hash_table.entries path m k → k ≡ some h)
      → out.0 ≡ some h
  Answers-only r path m h (k, q) (inl (same, e)) there only = only k e
  Answers-only r path m h (k, q) (inr (gone, x)) there only = absurd (gone (some h) there)

  -- A route that has been registered is found for its path and a method that it allows, where no
  -- other route for the path allows the method and the static prefix does not catch the path.
  pub cache_find_handler-cache_add_route_method :
      (r r' : CacheRouter) (path : List ℕ) (m : Method) (h : Handler) (method : List ℕ)
      → IsCacheRouter r
      → used r.hash_table.entries < max_size
      → cache_add_route_method xxh64 r path m h ≡ registered r' (ok tt)
      → allows m (fast_method_parse method) ≡ true
      → ((n : Method) (k : Option Handler)
          → allows n (fast_method_parse method) ≡ true
          → ¬ Holds r (path, n, k))
      → is_static r'.static_prefix r'.static_context path ≡ false
      → (cache_find_handler xxh64 r' path method).1 ≡ some h
  unfolding cache_find_handler
  cache_find_handler-cache_add_route_method r r' path m h method valid few done allowed alone
        plain =
      let reg : Registers r path m h (registered r' (ok tt)) =
        subst (Registers r path m h) done (cache_add_route_method-Registers r path m h valid few) in
      let (valid', all, _, gone) = reg in
      let parsed = fast_method_parse method in
      let search = find_in_hash_table_ex-Answers xxh64 r'.hash_table valid' path parsed in
      let found =
        Answers-only r' path parsed h (find_in_hash_table_ex xxh64 r'.hash_table path parsed).1
          search.2 (m, allowed, (all (path, m, some h)).1 (inl refl))
          (λ k (n, ok_n, x). elim ((all (path, n, k)).0 x) [
            | inl e ↦ sym (ap (λ (route : Route). route.2) e)
            | inr old ↦ absurd (alone n k ok_n old)
          ]) in
      rw (plain, found) refl
