-- ===== src/Request/Complete.antt =====
-- What happens when a request is complete: `on_message_complete` of src/uvhttp_request.c. The
-- detectors and handlers of the protocols, what the static file handler returns, and whether the
-- client is exempt from the rate limit are parameters; the handlers of the application are numbers.
-- Static files and the rate limit are compiled in. Where the static files have no answer they have
-- left the response as it was.
pub mod Routed
use uvhttp.Prelude.{
  ℕ, Bool, true, false, not, ◌&&◌, List, [], ◌∷◌, Option, none, some, if◌then◌else◌, ◌==◌, length,
  caseeq, codes,
}
use uvhttp.Error.{Result, ok, err}
use uvhttp.Response.{Response, set_status, set_header, set_body}
use uvhttp.Router.Method.{method_to_string}
use uvhttp.Router.Array.{Handler}
use uvhttp.Router.Table.{Router, find_handler, Lookup, found, fault}
use uvhttp.Server.{RateLimit, check_rate_limit}
use uvhttp.Upgrade.{Protocol, Registry}
use uvhttp.Request.{Request, Parsing, LlMethod, llhttp_method_to_uvhttp, request_get_header}

-- What `on_message_complete` uses of `struct uvhttp_server`; the rate limit is kept apart, since it
-- changes.
pub record Server : Type 0 where
  pub router : Option Router
  pub protocol_registry : Option Registry
  pub handler : Option ℕ

-- What is done with a request: it is handed over to a handler of the router, to the one of the server,
-- to the static files, which have answered it, or to the handler of a protocol; or a response is sent;
-- or the router does something undefined; or nothing, since it has been dealt with.
pub data Action : Type 0 where
  handles : Handler → Action
  catches_all : ℕ → Action
  served_static : ℕ → Action
  upgraded : ℕ → Action
  answers : Response → Action
  goes_wrong : Action
  idle : Action

abbrev pub with_length : List ℕ → Option (Response × Result (Unit {0})) → Action
with_length body none = goes_wrong
with_length body (some (r, _)) = answers (set_body r body).0

-- A response with a status and a text, whatever the setters return.
abbrev pub answer : ℕ → List ℕ → Response → Action
answer status body r =
    with_length body
      (set_header (set_status r status).0 (codes "Content-Type") (codes "text/plain"))

abbrev pub with_retry : List ℕ → Option (Response × Result (Unit {0})) → Action
with_retry body none = goes_wrong
with_retry body (some (r, _)) = with_length body (set_header r (codes "Retry-After") (codes "60"))

-- The response of `check_rate_limit_whitelist`.
abbrev pub too_many : Response → Action
too_many r =
    with_retry (codes "Too many requests")
      (set_header (set_status r 429).0 (codes "Content-Type") (codes "text/plain"))

-- `check_rate_limit_whitelist`; `none` is 0.
unfoldable pub check_rate_limit_whitelist : Bool → ℕ → RateLimit → RateLimit × Result (Unit {0})
check_rate_limit_whitelist exempt now limit =
    if not limit.enabled
    then (limit, ok tt)
    else if exempt
    then (limit, ok tt)
    else check_rate_limit limit now

-- What is left, and what is done.
pub record Completion : Type 0 where
  pub parsing : Parsing
  pub limit : RateLimit
  pub action : Action

abbrev pub upgrade_result : Response → ℕ → Result (Unit {0}) → Action
upgrade_result response functions (ok _) = upgraded functions
upgrade_result response functions (err e) = answer 400 (codes "Protocol upgrade failed") response

-- Where the router has no handler: the server's one, or status 404.
abbrev pub catch_all : Option ℕ → Response → Action
catch_all (some h) response = catches_all h
catch_all none response = answer 404 (codes "File not found") response

-- `ensure_valid_url`
abbrev pub valid_url : List ℕ → List ℕ
valid_url [] = b'/' ∷ []
valid_url (c ∷ url) = c ∷ url

abbrev pub ensure_valid_url : Request → Request
ensure_valid_url request = record request { url = valid_url request.url }

-- The connection that is left, with the method of the request.
abbrev pub completed : Parsing → LlMethod → Parsing
completed c m = record c {
  parsing_complete = true;
  read_buffer_used = 0;
  request = record c.request { method = llhttp_method_to_uvhttp m };
}

module _ (detects : ℕ → Request → List ℕ → Option (List ℕ) → Bool)
    (upgrades : ℕ → Result (Unit {0})) (serves : ℕ → Request → Result (Unit {0})) where
  -- Does a protocol take the request with this header Upgrade?
  abbrev pub is_for : Request → List ℕ → Protocol → Bool
  is_for request upgrade p =
      (if length p.upgrade_header == 0 then true else caseeq upgrade p.upgrade_header)
      && detects p.functions request upgrade (request_get_header request (codes "Connection"))

  -- The loop over the protocols.
  unfoldable pub first_for : Request → List ℕ → List Protocol → Option Protocol
  first_for request upgrade [] = none
  first_for request upgrade (p ∷ ps) =
      let later = first_for request upgrade ps in if is_for request upgrade p then some p else later

  -- The single protocol.
  abbrev pub only_for : Request → List ℕ → List Protocol → Option Protocol
  only_for request upgrade [] = none
  only_for request upgrade (p ∷ ps) = if is_for request upgrade p then some p else none

  abbrev pub protocol_for : Request → List ℕ → Registry → Option Protocol
  protocol_for request upgrade g =
      if g.protocol_count == 1
      then only_for request upgrade g.protocols
      else first_for request upgrade g.protocols

  -- The protocol for a request, if it has the header Upgrade and protocols are registered.
  abbrev pub upgrade_for : Request → Option (List ℕ) → Option Registry → Option Protocol
  upgrade_for request none g = none
  upgrade_for request (some upgrade) none = none
  upgrade_for request (some upgrade) (some g) = protocol_for request upgrade g

  abbrev pub after_static : Server → ℕ → Response → Result (Unit {0}) → Action
  after_static s context response (ok _) = served_static context
  after_static s context response (err e) = catch_all s.handler response

  abbrev pub unrouted_action : Server → Request → Response → Option ℕ → Action
  unrouted_action s request response (some context) =
      after_static s context response (serves context request)
  unrouted_action s request response none = catch_all s.handler response

  abbrev pub lookup_action : Server → Router → Request → Response → Lookup → Action
  lookup_action s router request response fault = goes_wrong
  lookup_action s router request response (found (some h)) = handles h
  lookup_action s router request response (found none) =
      unrouted_action s request response router.static_context

  abbrev pub route_in : Server → Request → Response → Router → Action
  route_in s request response router =
      lookup_action s router request response
        (find_handler router request.url (method_to_string request.method))

  abbrev pub route : Server → Request → Response → Option Router → Action
  route s request response none = answer 200 (codes "OK") response
  route s request response (some router) = route_in s (ensure_valid_url request) response router

  abbrev pub upgrade_or_route : Server → Request → Response → Option Protocol → Action
  upgrade_or_route s request response (some p) =
      upgrade_result response p.functions (upgrades p.functions)
  upgrade_or_route s request response none = route s request response s.router

  abbrev pub after_limit : Server → Parsing → Response → RateLimit × Result (Unit {0}) → Completion
  after_limit s c response (limit, err e) = record {
    parsing = c;
    limit = limit;
    action = too_many response;
  }
  after_limit s c response (limit, ok _) = record {
    parsing = c;
    limit = limit;
    action = upgrade_or_route s c.request response (
        upgrade_for c.request (request_get_header c.request (codes "Upgrade")) s.protocol_registry);
  }

  -- `on_message_complete`
  unfoldable pub on_message_complete :
      Server → Bool → ℕ → Parsing → LlMethod → Response → RateLimit → Completion
  on_message_complete s exempt now c m response limit =
      if c.parsing_complete
      then record { parsing = c; limit = limit; action = idle }
      else after_limit s (completed c m) response (check_rate_limit_whitelist exempt now limit)
