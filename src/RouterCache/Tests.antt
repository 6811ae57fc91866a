-- ===== src/RouterCache/Tests.antt =====
-- Runs of src/uvhttp_router_cache.c on small routers, and the theorems on them. A path's hash is its
-- length.
use mathlib.Core.Bool.{false≢true}
use uvhttp.Prelude.{
  ℕ, zero, suc, ◌≤◌, ◌<◌, true, false, List, [], ◌∷◌, none, some, ◌≡◌, refl, sym, ap, ◌∙◌, ◌↔◌,
  length, replicate, length-replicate, set, codes, streq, arith,
}
use uvhttp.Error.{ok}
use uvhttp.Router.Method.{get}
use uvhttp.Router.Array.{application}
use uvhttp.RouterCache.Probe.{probe_from, probes}
use uvhttp.RouterCache.Template.{matches_template, skip_segment, word, template_params}
use uvhttp.RouterCache.Template.Fits.{Fits, matches_template_iff}
use uvhttp.RouterCache.Template.Fill.{
  names_from, template_names, fill, names, values, template_params-fill,
}
use uvhttp.RouterCache.Table.{
  HashEntry, zero_entry, HashTable, entry_at, load, overrun, add_to_hash_table, hash_table_resize,
  find_slot, slot_in, grow,
}
use uvhttp.RouterCache.Table.Placed.{Route, Has, used, used-replicate}
use uvhttp.RouterCache.Table.Resize.{IsTable, hash_table_resize-keeps}
use uvhttp.RouterCache.Table.Insert.{HasKey}
use uvhttp.RouterCache.Table.Full.{add_to_hash_table-overrun}
use uvhttp.RouterCache.Routes.{
  CacheRouter, cache_router_new, registered, count_route, cache_add_route_method,
  cache_find_handler, cache_router_match, fast_method_parse,
}
use uvhttp.RouterCache.Routes.Registered.{
  Holds, IsCacheRouter, Registers, cache_router_new-IsCacheRouter, cache_add_route_method-Registers,
  cache_find_handler-cache_add_route_method,
}
use uvhttp.RouterCache.Routes.Matching.{IsMatch, cache_router_match-IsMatch}

abbrev hash : List ℕ → ℕ
hash s = length s

probe_order : probes 4 2 ≡ 2 ∷ 3 ∷ 0 ∷ 1 ∷ []
unfolding probes
probe_order = refl

abbrev template : List ℕ
template = codes "/u/:id/x"

abbrev request : List ℕ
request = codes "/u/42/x"

request_fits : matches_template template request ≡ true
unfolding matches_template skip_segment
request_fits = refl

matches_template_iff_example : (matches_template template request ≡ true) ↔ Fits template request
matches_template_iff_example = matches_template_iff template request

params_of_request :
    template_params template request ≡ record { name = codes "id"; value = codes "42" } ∷ []
unfolding template_params skip_segment word
params_of_request = refl

names_of_template : template_names template ≡ codes "id" ∷ []
unfolding template_names names_from skip_segment word
names_of_template = refl

template_params-fill_example :
    (names (template_params template request) ≡ template_names template)
    × (fill template (values (template_params template request)) ≡ request)
template_params-fill_example =
    template_params-fill template request ((matches_template_iff template request).0 request_fits)
      (rw names_of_template (omega arith)) (rw names_of_template (omega arith)) (omega arith)

abbrev fresh : CacheRouter
fresh = cache_router_new

fresh_router-IsCacheRouter :
    IsCacheRouter hash cache_router_new × ((route : Route) → ¬ Holds cache_router_new route)
fresh_router-IsCacheRouter = cache_router_new-IsCacheRouter hash

few_routes : used cache_router_new.hash_table.entries < 4096
unfolding cache_router_new
few_routes = let none_used : used (replicate 256 zero_entry) ≡ 0 = used-replicate 256 in omega arith

hash_table_resize-keeps_example :
    (t' : HashTable) × (hash_table_resize hash cache_router_new.hash_table 512 ≡ ok t')
    × (length t'.entries ≡ 512)
    × (t'.count ≡ cache_router_new.hash_table.count)
    × IsTable hash t'
    × ((r : Route) → Has t'.entries r ↔ Has cache_router_new.hash_table.entries r)
hash_table_resize-keeps_example =
    hash_table_resize-keeps hash cache_router_new.hash_table 512 fresh_router-IsCacheRouter.0
      used_below (omega arith)
  where
    used_below : used cache_router_new.hash_table.entries < 512
    used_below =
        unfold cache_router_new in
        let none_used : used (replicate 256 zero_entry) ≡ 0 = used-replicate 256 in omega arith

cache_add_route_method-Registers_example :
    Registers hash cache_router_new
      (codes "/a")
      get
      (application 1)
      (cache_add_route_method hash cache_router_new (codes "/a") get (application 1))
cache_add_route_method-Registers_example =
    cache_add_route_method-Registers hash cache_router_new (codes "/a") get (application 1)
      fresh_router-IsCacheRouter.0 few_routes

-- The router with that route.
abbrev with_route : CacheRouter
with_route = record {
  hash_table = record {
    entries = set (replicate 256 zero_entry) 2 (record {
      path = codes "/a";
      method = get;
      handler = some (application 1);
      access_count = 0;
    });
    count = 1;
    threshold = 192;
  };
  total_routes = 1;
  route_count = 1;
  use_trie = false;
  array_route_count = 1;
  array_capacity = 100;
  static_prefix = none;
  static_context = none;
  static_data = none;
  fallback_context = none;
}

adds_route :
    cache_add_route_method hash cache_router_new (codes "/a") get (application 1)
    ≡ registered with_route (ok tt)
unfolding cache_router_new cache_add_route_method add_to_hash_table grow find_slot slot_in probes
    probe_from count_route
adds_route = refl

cache_find_handler-cache_add_route_method_example :
    (cache_find_handler hash with_route (codes "/a") (codes "GET")).1 ≡ some (application 1)
unfolding fast_method_parse
cache_find_handler-cache_add_route_method_example =
    cache_find_handler-cache_add_route_method hash cache_router_new with_route (codes "/a") get
      (application 1) (codes "GET") fresh_router-IsCacheRouter.0 few_routes adds_route refl
      (λ n k ok_n x. fresh_router-IsCacheRouter.1 (codes "/a", n, k) x) refl

cache_router_match-IsMatch_example :
    IsCacheRouter hash (cache_router_match hash cache_router_new (codes "/b") (codes "GET")).0
    × IsMatch cache_router_new
        (codes "/b")
        (fast_method_parse (codes "GET"))
        (cache_router_match hash cache_router_new (codes "/b") (codes "GET")).1
cache_router_match-IsMatch_example =
    cache_router_match-IsMatch hash cache_router_new (codes "/b") (codes "GET")
      fresh_router-IsCacheRouter.0 (unfold cache_router_new in refl)

-- A table all of whose slots hold a route for "/a".
filler : HashEntry
filler = record {
  path = codes "/a";
  method = get;
  handler = some (application 1);
  access_count = 0;
}

full_table : ℕ → HashTable
full_table n = record { entries = replicate n filler; count = n; threshold = load n }

used-filler : (n : ℕ) → used (replicate n filler) ≡ n
unfolding filler
used-filler zero = refl
used-filler (suc n) = ap suc (used-filler n)

filler_at : (n j : ℕ) → j < n → entry_at (replicate n filler) j ≡ filler
filler_at zero j h = absurd (omega arith)
filler_at (suc n) zero h = refl
filler_at (suc n) (suc j) h = filler_at n j (omega arith)

no_b : (n : ℕ) → ¬ HasKey hash (full_table n) (codes "/b") get
unfolding full_table filler
no_b n (h, (j, inside, busy, same_route)) =
    let same_path : codes "/a" ≡ codes "/b" =
      ap (λ (e : HashEntry). e.path)
        (sym (filler_at n j (omega (arith, length-replicate n filler))))
      ∙ ap (λ (r : Route). r.0) same_route in
    false≢true (ap (λ s. streq (codes "/b") s) same_path)

length-full : (n : ℕ) → length (full_table n).entries ≡ n
unfolding full_table
length-full n = length-replicate n filler

used-full_table : (n : ℕ) → used (full_table n).entries ≡ n
unfolding full_table
used-full_table n = used-filler n

loaded-full : (n : ℕ) → (full_table n).threshold ≤ (full_table n).count
unfolding full_table
loaded-full n = omega arith

add_to_hash_table-overrun_example :
    add_to_hash_table hash (full_table 4096) (codes "/b") get (application 2) ≡ overrun
add_to_hash_table-overrun_example =
    add_to_hash_table-overrun hash (full_table 4096) (codes "/b") get (application 2)
      (length-full 4096) (used-full_table 4096) (loaded-full 4096) (omega arith) (no_b 4096)
