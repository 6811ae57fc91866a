-- ===== src/Request/Complete/Routed.antt =====
-- From a request that is complete to its handler: `on_message_complete` of src/uvhttp_request.c with
-- the router, and with the registry of protocols.
use uvhttp.Prelude.{
  ℕ, ◌≤◌, ◌<◌, Bool, true, false, List, [], ◌∷◌, Option, none, some, ◌≡◌, refl, ap, ◌∙◌,
  if◌then◌else◌, if_true, ◌==◌, length, take, take_all, caseeq, lower_all, codes, arith, subst,
}
use uvhttp.Error.{Result, ok}
use uvhttp.Response.{Response}
use uvhttp.Router.Method.{
  Method, method_from_string, method_to_string, method_from_string-method_to_string,
}
use uvhttp.Router.Array.{Handler, allows, find_array_route}
use uvhttp.Router.Table.{
  Router, is_route_path, wants_trie, catches, find_handler, found, append_route, router_of,
  add_route_method,
}
use uvhttp.Router.Table.Added.{find_handler-append_route, add_route_method-array}
use uvhttp.Server.{RateLimit}
use uvhttp.Upgrade.{Protocol, Registry, protocol_of, register_protocol}
use uvhttp.Upgrade.Registered.{
  IsRegistry, Registers, register_protocol-Registers, caseeq-lower_all, length-lower_all,
}
use uvhttp.Request.{Request, Parsing, LlMethod, llhttp_method_to_uvhttp, request_get_header}
use uvhttp.Request.Complete.{
  Server, Action, handles, check_rate_limit_whitelist, Completion, is_for, first_for, only_for,
  protocol_for, upgrade_for, upgrade_result, lookup_action, valid_url, ensure_valid_url, route,
  upgrade_or_route, completed, after_limit, on_message_complete,
}

valid_url-path : (path : List ℕ) → is_route_path path ≡ true → valid_url path ≡ path
valid_url-path [] h = absurd cc
valid_url-path (c ∷ path) h = refl

module _ (detects : ℕ → Request → List ℕ → Option (List ℕ) → Bool)
    (upgrades : ℕ → Result (Unit {0})) (serves : ℕ → Request → Result (Unit {0})) (s : Server)
    (exempt : Bool) (now : ℕ) (c : Parsing) (m : LlMethod) (response : Response)
    (limit left : RateLimit) (new : c.parsing_complete ≡ false)
    (allowed : check_rate_limit_whitelist exempt now limit ≡ (left, ok tt)) where
  on_message_complete-allowed :
      on_message_complete detects upgrades serves s exempt now c m response limit
      ≡ after_limit detects upgrades serves s (completed c m) response (left, ok tt)
  unfolding on_message_complete
  on_message_complete-allowed = rw (new, allowed) refl

  abbrev request : Request
  request = (completed c m).request

  abbrev completion : Action → Completion
  completion action = record { parsing = completed c m; limit = left; action = action }

  action_of :
      (upgrade : Option (List ℕ)) (p : Option Protocol)
      → request_get_header c.request (codes "Upgrade") ≡ upgrade
      → upgrade_for detects upgrades serves request upgrade s.protocol_registry ≡ p
      → on_message_complete detects upgrades serves s exempt now c m response limit
        ≡ completion (upgrade_or_route detects upgrades serves s request response p)
  unfolding request_get_header
  action_of upgrade p asked found_p =
      on_message_complete-allowed
      ∙ ap
          (λ o. completion (
            upgrade_or_route detects upgrades serves s request response
              (upgrade_for detects upgrades serves request o s.protocol_registry)))
          asked
      ∙ ap (λ o. completion (upgrade_or_route detects upgrades serves s request response o)) found_p

  -- A route has been registered in a router that searches the array, for a path that no route had for
  -- the method and that no static prefix catches. A request for that path with a method that the
  -- route allows, which has not been dealt with, which the rate limit lets pass and which has no
  -- header Upgrade, is handed over to the handler of the route.
  pub on_message_complete-add_route_method :
      (r : Router) (path : List ℕ) (method : Method) (h : Handler)
      → s.router ≡ router_of (add_route_method r path method h)
      → request_get_header c.request (codes "Upgrade") ≡ none
      → c.request.url ≡ path
      → is_route_path path ≡ true
      → wants_trie r path ≡ false
      → r.array_freed ≡ false
      → catches r.static_prefix r.static_context path ≡ false
      → allows method (llhttp_method_to_uvhttp m) ≡ true
      → find_array_route r.array_routes path (llhttp_method_to_uvhttp m) ≡ none
      → on_message_complete detects upgrades serves s exempt now c m response limit
        ≡ completion (handles h)
  on_message_complete-add_route_method r path method h router plain url valid array kept uncaught
        allows_it unrouted =
      let used = append_route r path method h in
      let wanted = llhttp_method_to_uvhttp m in
      let same : method_from_string (method_to_string wanted) ≡ wanted =
        method_from_string-method_to_string wanted in
      action_of none none plain refl
      ∙ ap completion (
          ap (route detects upgrades serves s request response)
            (router ∙ ap router_of (add_route_method-array r path method h valid array kept))
          ∙ ap
              (λ u.
                lookup_action detects upgrades serves s used (ensure_valid_url request) response
                  (find_handler used u (method_to_string wanted)))
              (ap valid_url url ∙ valid_url-path path valid)
          ∙ ap (lookup_action detects upgrades serves s used (ensure_valid_url request) response) (
              find_handler-append_route r path (method_to_string wanted) method h valid array kept
                uncaught (ap (allows method) same ∙ allows_it)
              ∙ ap
                  (λ (o : Option Handler). elim o [
                    | none ↦ found (some h)
                    | some k ↦ found (some k)
                  ])
                  (ap (find_array_route r.array_routes path) same ∙ unrouted)))

  -- A protocol has been registered with a header of one byte or more, and no other since. A request
  -- with that header Upgrade, in any case of letters, which has not been dealt with, which the rate
  -- limit lets pass and which the protocol's detector takes, is handed over to the protocol's
  -- handler: the connection is upgraded, or, where the handler fails, status 400 is answered.
  pub on_message_complete-register_protocol :
      (g g' : Registry) (name header upgrade : List ℕ) (functions : ℕ)
      → IsRegistry g
      → register_protocol (some g) name (some header) functions ≡ (some g', ok tt)
      → s.protocol_registry ≡ some g'
      → request_get_header c.request (codes "Upgrade") ≡ some upgrade
      → 1 ≤ length header
      → length header < 64
      → caseeq upgrade header ≡ true
      → detects functions request upgrade (request_get_header request (codes "Connection")) ≡ true
      → on_message_complete detects upgrades serves s exempt now c m response limit
        ≡ completion (upgrade_result response functions (upgrades functions))
  unfolding first_for
  on_message_complete-register_protocol g g' name header upgrade functions v registered has asked
        some_header short same detected =
      action_of (some upgrade) (some p) asked
        (ap (upgrade_for detects upgrades serves request (some upgrade)) has ∙ first)
    where
      p : Protocol
      p = protocol_of name (some header) functions

      newest : g'.protocols ≡ p ∷ g.protocols
      newest =
          (subst (Registers g name (some header) functions) registered
            (register_protocol-Registers g name (some header) functions v)).0

      whole : take 63 (lower_all header) ≡ lower_all header
      whole = take_all 63 (lower_all header) (omega (arith, length-lower_all header))

      suits : is_for detects upgrades serves request upgrade p ≡ true
      suits =
          let some_bytes : (length (lower_all header) == 0) ≡ false =
            ground (arith, length-lower_all header) in
          rw (whole, some_bytes, caseeq-lower_all upgrade header, same, detected) refl

      chosen :
          (single : Bool)
          → (if single
              then only_for detects upgrades serves request upgrade (p ∷ g.protocols)
              else first_for detects upgrades serves request upgrade (p ∷ g.protocols))
            ≡ some p
      chosen true = if_true (is_for detects upgrades serves request upgrade p) _ _ suits
      chosen false = if_true (is_for detects upgrades serves request upgrade p) _ _ suits

      first : protocol_for detects upgrades serves request upgrade g' ≡ some p
      first =
          ap
            (λ ps.
              if g'.protocol_count == 1
              then only_for detects upgrades serves request upgrade ps
              else first_for detects upgrades serves request upgrade ps)
            newest
          ∙ chosen (g'.protocol_count == 1)
