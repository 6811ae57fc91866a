-- ===== src/Router/Table/Search.antt =====
-- What is found after a route has been registered, and the two ways to search.
use uvhttp.Prelude.{
  ℕ, Bool, true, false, not, ◌&&◌, ◌||◌, List, [], Option, none, some, ◌≡◌, inl, inr, refl, take,
  tokens, if◌then◌else◌, has_char, Bool-cases,
}
use uvhttp.Router.Method.{method_from_string}
use uvhttp.Router.Array.{Handler, find_array_route, static_file_handler_wrapper}
use uvhttp.Router.Trie.{MatchResult, matched, unmatched, out_of_bounds, match_route_node}
use uvhttp.Router.Table.{
  Router, catches, fallback, Lookup, found, fault, lookup_trie, lookup_array, find_handler,
  Matching, routed, unrouted, match_fault, matching_of, array_or_else, router_match,
}
use uvhttp.Router.Table.Invariant.{IsRouter}

-- What `find_handler` makes of what `router_match` gives.
abbrev pub lookup_of : Option ℕ → Matching → Lookup
lookup_of context (routed h params) = found (some h)
lookup_of context unrouted = found (fallback context)
lookup_of context match_fault = fault

lookup_of-matching_of :
    (context : Option ℕ) (m : MatchResult)
    → lookup_trie context m ≡ lookup_of context (matching_of m)
lookup_of-matching_of context (matched h params) = refl
lookup_of-matching_of context unmatched = refl
lookup_of-matching_of context out_of_bounds = refl

lookup_of-array :
    (context : Option ℕ) (m : Option Handler)
    → lookup_array context m ≡ lookup_of context (array_or_else m unrouted)
lookup_of-array context none = refl
lookup_of-array context (some h) = refl

-- On a well-formed router `uvhttp_router_find_handler` gives what `uvhttp_router_match` gives, but
-- for the fallback where that gives no route, and for a path that the static prefix catches in trie
-- mode: there it gives the handler of static files, whatever `uvhttp_router_match` gives.
pub find_handler-router_match :
    (r : Router) (path method : List ℕ)
    → IsRouter r
    → find_handler r path method ≡ (
        if r.use_trie && catches r.static_prefix r.static_context path
        then found (some static_file_handler_wrapper)
        else lookup_of r.fallback_context (router_match r path method))
unfolding find_handler router_match find_array_route
find_handler-router_match r path method v = elim (Bool-cases r.use_trie) [
  | inl on ↦ elim (Bool-cases (catches r.static_prefix r.static_context path)) [
    | inl caught ↦ rw (on, caught) refl
    | inr uncaught ↦
        rw (on, uncaught, v.moved on)
          (trie (has_char path b':' || has_char path b'{') _ (
            lookup_of-matching_of r.fallback_context (
              match_route_node r.node_pool (method_from_string method) (tokens (take 255 path))
                r.root_index [])))
  ]
  | inr off ↦ rw off (
      array (catches r.static_prefix r.static_context path) r.array_freed
        (find_array_route r.array_routes path (method_from_string method)))
]
  where
    trie :
        (param : Bool) (m : Matching) {l : Lookup}
        → l ≡ lookup_of r.fallback_context m
        → l ≡ lookup_of r.fallback_context (if not param && false then array_or_else none m else m)
    trie true m e = e
    trie false m e = e

    array :
        (caught freed : Bool) (m : Option Handler)
        → (if caught
            then found (some static_file_handler_wrapper)
            else if freed
            then fault
            else lookup_array r.fallback_context m)
          ≡ lookup_of r.fallback_context (
              if caught
              then routed static_file_handler_wrapper []
              else if freed
              then match_fault
              else array_or_else m unrouted)
    array true freed m = refl
    array false true m = refl
    array false false m = lookup_of-array r.fallback_context m
