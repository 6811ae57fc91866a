-- ===== src/RouterCache/Routes/Matching.antt =====
-- What `uvhttp_router_match` of src/uvhttp_router_cache.c gives.
use uvhttp.Prelude.{
  ℕ, true, false, not, ◌&&◌, List, none, some, ◌≡◌, refl, ap, subst, ◌⊎◌, inl, inr, has_char,
}
use uvhttp.Error.{Result, ok, err, not_found}
use uvhttp.Router.Method.{Method}
use uvhttp.Router.Array.{Handler, allows}
use uvhttp.RouterCache.Template.Fits.{Fits}
use uvhttp.RouterCache.Table.{Found, find_in_hash_table_ex}
use uvhttp.RouterCache.Table.Search.{Answers, find_in_hash_table_ex-Answers}
use uvhttp.RouterCache.Routes.{
  CacheRouter, Match, is_static, route_params, match_found, fast_method_parse, cache_router_match,
}
use uvhttp.RouterCache.Routes.Registered.{Holds, IsCacheRouter}

-- A route of the router for the path: its own, or a template that it fits.
abbrev pub Routes : CacheRouter → List ℕ → Method → List ℕ → Handler → Type 0
Routes r path m q h =
    (n : Method) × (allows n m ≡ true)
    × Holds r (q, n, some h)
    × ((q ≡ path) ⊎ ((has_char q b':' ≡ true) × Fits q path))

-- A match is of a route, with the parameters of that route; there is no match only where no route
-- is for the path.
abbrev pub IsMatch : CacheRouter → List ℕ → Method → Result Match → Type 0
IsMatch r path m (err e) = (e ≡ not_found) × ((q : List ℕ) (h : Handler) → ¬ Routes r path m q h)
IsMatch r path m (ok (h, ps)) =
    (q : List ℕ) × Routes r path m q h × (ps ≡ route_params (some q) path)

Answers-IsMatch :
    (xxh64 : List ℕ → ℕ) (r : CacheRouter) (path : List ℕ) (m : Method) (out : Found)
    → IsCacheRouter xxh64 r
    → Answers r.hash_table.entries path m out
    → IsMatch r path m (match_found path out)
Answers-IsMatch xxh64 r path m (some h, q) valid (inl (same, (n, ok_n, x))) =
    (path, (n, ok_n, x, inl refl), ap (λ o. route_params o path) same)
Answers-IsMatch xxh64 r path m (none, q) valid (inl (same, (n, ok_n, x))) =
    absurd (valid.handled path n x)
Answers-IsMatch xxh64 r path m (some h, q) valid
      (inr (gone, inl (p, same, (n, ok_n, colon, fits, x)))) =
    (p, (n, ok_n, x, inr (colon, fits)), ap (λ o. route_params o path) same)
Answers-IsMatch xxh64 r path m (none, q) valid
      (inr (gone, inl (p, same, (n, ok_n, colon, fits, x)))) =
    absurd (valid.handled p n x)
Answers-IsMatch xxh64 r path m (some h, q) valid
      (inr (gone, inr (no_route, no_handler, none_fits))) =
    absurd cc
Answers-IsMatch xxh64 r path m (none, q) valid (inr (gone, inr (no_route, no_handler, none_fits))) =
    (
      refl,
      λ p h (n, ok_n, x, how). elim how [
        | inl same ↦ gone (some h) (n, ok_n, subst (λ (s : List ℕ). Holds r (s, n, some h)) same x)
        | inr (colon, fits) ↦ none_fits p (some h) (n, ok_n, colon, fits, x)
      ],
    )

-- A match in a well-formed router, where the static prefix does not catch the path, is one of its
-- routes for the path and the method, with the parameters that its template takes out of the path;
-- it fails only where the router has no route for them. The router stays well formed.
pub cache_router_match-IsMatch :
    (xxh64 : List ℕ → ℕ) (r : CacheRouter) (path method : List ℕ)
    → IsCacheRouter xxh64 r
    → (not r.use_trie && is_static r.static_prefix r.static_context path) ≡ false
    → IsCacheRouter xxh64 (cache_router_match xxh64 r path method).0
      × IsMatch r path (fast_method_parse method) (cache_router_match xxh64 r path method).1
unfolding cache_router_match
cache_router_match-IsMatch xxh64 r path method valid plain =
    let m = fast_method_parse method in
    let search = find_in_hash_table_ex-Answers xxh64 r.hash_table valid path m in
    rw plain (
      search.0,
      Answers-IsMatch xxh64 r path m (find_in_hash_table_ex xxh64 r.hash_table path m).1 valid
          search.2,
    )
