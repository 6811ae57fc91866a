-- ===== src/Request/Tests.antt =====
-- Runs of src/uvhttp_request.c on small requests, and the theorems on them.
use uvhttp.Prelude.{
  ℕ, Bool, ◌&&◌, true, false, List, [], ◌∷◌, Option, none, some, ◌≡◌, refl, codes, arith, caseeq,
  length, ltb, if◌then◌else◌,
}
use uvhttp.Error.{Result, ok, err, io_error}
use uvhttp.Validation.{
  validate_url_path, validate_query_string, validate_string_length, has_dangerous,
}
use uvhttp.Response.{response_init}
use uvhttp.Router.Method.{get, method_to_string, method_from_string}
use uvhttp.Router.Array.{application, find_array_route}
use uvhttp.Router.Table.{router_new, append_route, add_route_method, add_array_route, find_handler}
use uvhttp.Server.{RateLimit}
use uvhttp.Upgrade.{Registry, register_protocol, is_registered}
use uvhttp.Request.{
  Request, request_init, Parsing, ll_get, on_url, on_header_field, on_header_value, on_body,
  request_get_header, all_lookup_chars, find_header, llhttp_method_to_uvhttp,
}
use uvhttp.Request.Headers.{IsStored, lacks}
use uvhttp.Request.Body.{feed_body, Collects, feed_body-Collects}
use uvhttp.Request.Parsed.{feed_headers, request_get_header-feed_headers}
use uvhttp.Request.Pieces.{second_piece_lem}
use uvhttp.Request.Query.{request_get_query_param, request_get_path}
use uvhttp.Request.Query.Text.{request_get_query_param-query_text, first_value}
use uvhttp.Request.Complete.{
  Server, handles, upgraded, check_rate_limit_whitelist, on_message_complete, completed, catch_all,
}
use uvhttp.Request.Complete.Routed.{
  on_message_complete-add_route_method, on_message_complete-register_protocol,
}

abbrev fresh : Request
fresh = record {
  method = get;
  url = [];
  headers = [];
  headers_capacity = 32;
  has_extra = false;
  body = [];
  body_capacity = 8192;
}

fresh_lem : request_init ≡ fresh
unfolding request_init
fresh_lem = refl

fresh-IsStored : IsStored fresh
fresh-IsStored = record {
  low = omega arith;
  high = omega arith;
  fits = omega arith;
  extra = λ h. absurd (omega arith);
}

abbrev started : Parsing
started = record {
  parsing_complete = false;
  content_length = 0;
  body_received = 0;
  read_buffer_used = 0;
  current_header_field = [];
  parsing_header_field = false;
  request = fresh;
}

feed_body-Collects_example :
    Collects started (codes "ab" ∷ codes "c" ∷ []) (feed_body started (codes "ab" ∷ codes "c" ∷ []))
feed_body-Collects_example =
    feed_body-Collects started (codes "ab" ∷ codes "c" ∷ [])
      (record { held = omega arith; bounded = omega arith; positive = omega arith })

-- A buffer of 600000 bytes that is full takes no more, though 1 MB is the limit.
refuses_more :
    (body : List ℕ)
    → length body ≡ 600000
    → on_body
        (record started { request = record fresh { body = body; body_capacity = 600000 } })
        (codes "x")
      ≡ none
unfolding on_body
refuses_more body h = rw h refl

abbrev hosts : List (List ℕ × List ℕ)
hosts = (codes "Accept", codes "*") ∷ (codes "Host", codes "a.b") ∷ []

request_get_header-feed_headers_example :
    (c' : Parsing) × (feed_headers started hosts ≡ some c')
    × (request_get_header c'.request (codes "host") ≡ some (codes "a.b"))
unfolding all_lookup_chars lacks caseeq
request_get_header-feed_headers_example =
    request_get_header-feed_headers started ((codes "Accept", codes "*") ∷ []) (codes "Host")
      (codes "a.b") [] (codes "host") fresh-IsStored refl (omega arith) (omega arith) refl refl refl

-- The first piece of an URL.
abbrev half_url : Parsing
half_url = record started { request = record fresh { url = codes "/a" } }

second_piece_lem_example :
    (on_url started (codes "/a") ≡ some half_url
      → on_url half_url (codes "bc") ≡ on_url started (codes "bc"))
    × (on_header_field started (codes "/a") ≡ some half_url
        → on_header_field half_url (codes "bc") ≡ on_header_field started (codes "bc"))
    × (on_header_value started (codes "/a") ≡ some half_url
        → on_header_value half_url (codes "bc") ≡ none)
second_piece_lem_example = second_piece_lem started half_url (codes "/a") (codes "bc")

keeps_second_piece :
    on_url half_url (codes "bc")
    ≡ some (record started { request = record fresh { url = codes "bc" } })
unfolding on_url
keeps_second_piece = refl

abbrev asked : Request
asked = record fresh { url = codes "/p?a=1&b=2&b=3" }

abbrev pairs : List (List ℕ × List ℕ)
pairs = (codes "a", codes "1") ∷ (codes "b", codes "2") ∷ (codes "b", codes "3") ∷ []

request_get_query_param-query_text_example :
    (request_get_query_param asked (codes "b") ≡ first_value (codes "b") pairs)
    × (request_get_path asked ≡ (
        if ltb (length (codes "/p")) 1024 && validate_url_path (codes "/p")
        then codes "/p"
        else b'/' ∷ []))
unfolding validate_query_string validate_string_length has_dangerous
request_get_query_param-query_text_example =
    request_get_query_param-query_text asked (codes "/p") pairs (codes "b") refl (omega arith)
      (omega arith) (omega arith) refl

first_value_b : first_value (codes "b") pairs ≡ some (codes "2")
unfolding first_value
first_value_b = refl

-- A server with one route, and with a registry of one protocol.
abbrev server : Server
server = record {
  router = some (append_route router_new (codes "/p") get (application 7));
  protocol_registry = none;
  handler = none;
}

abbrev unlimited : RateLimit
unlimited = record {
  enabled = false;
  max_requests = 0;
  window_seconds = 0;
  request_count = 0;
  window_start_time = 0;
}

abbrev detects : ℕ → Request → List ℕ → Option (List ℕ) → Bool
detects functions request upgrade connection = true

abbrev upgrades : ℕ → Result (Unit {0})
upgrades functions = ok tt

abbrev serves : ℕ → Request → Result (Unit {0})
serves context request = err io_error

abbrev parsed : Parsing
parsed = record started { request = record fresh { url = codes "/p" } }

lets_pass : check_rate_limit_whitelist false 0 unlimited ≡ (unlimited, ok tt)
unfolding check_rate_limit_whitelist
lets_pass = refl

asks_no_upgrade : request_get_header parsed.request (codes "Upgrade") ≡ none
unfolding request_get_header all_lookup_chars find_header
asks_no_upgrade = refl

on_message_complete-add_route_method_example :
    on_message_complete detects upgrades serves server false 0 parsed ll_get response_init unlimited
    ≡ record {
      parsing = completed parsed ll_get;
      limit = unlimited;
      action = handles (application 7);
    }
unfolding llhttp_method_to_uvhttp find_array_route router_new add_route_method add_array_route
on_message_complete-add_route_method_example =
    on_message_complete-add_route_method detects upgrades serves server false 0 parsed ll_get
      response_init unlimited unlimited refl lets_pass router_new (codes "/p") get (application 7)
      refl asks_no_upgrade refl refl refl refl refl refl refl

-- The router is asked for the URL with its query, so that the route is not found.
query_misses :
    (on_message_complete detects upgrades serves server false 0
      (record started { request = record fresh { url = codes "/p?a" } })
      ll_get
      response_init
      unlimited).action
    ≡ catch_all none response_init
unfolding on_message_complete check_rate_limit_whitelist request_get_header all_lookup_chars
    find_header llhttp_method_to_uvhttp find_handler add_route_method router_new find_array_route
    method_to_string method_from_string add_array_route
query_misses = refl

abbrev empty : Registry
empty = record { protocols = []; protocol_count = 0 }

abbrev chat : Registry
chat = record {
  protocols = record { name = codes "chat"; upgrade_header = codes "chat/1"; functions = 5 } ∷ [];
  protocol_count = 1;
}

registers_chat :
    register_protocol (some empty) (codes "chat") (some (codes "Chat/1")) 5 ≡ (some chat, ok tt)
unfolding register_protocol is_registered
registers_chat = refl

abbrev upgrading : Parsing
upgrading = record started {
  request = record fresh {
    headers = record { name = codes "Upgrade"; value = codes "CHAT/1" } ∷ [];
  };
}

asks_upgrade : request_get_header upgrading.request (codes "Upgrade") ≡ some (codes "CHAT/1")
unfolding request_get_header all_lookup_chars find_header caseeq
asks_upgrade = refl

on_message_complete-register_protocol_example :
    on_message_complete detects upgrades serves
      (record { router = none; protocol_registry = some chat; handler = none })
      false
      0
      upgrading
      ll_get
      response_init
      unlimited
    ≡ record { parsing = completed upgrading ll_get; limit = unlimited; action = upgraded 5 }
unfolding caseeq
on_message_complete-register_protocol_example =
    on_message_complete-register_protocol detects upgrades serves
      (record { router = none; protocol_registry = some chat; handler = none }) false 0 upgrading
      ll_get response_init unlimited unlimited refl lets_pass empty chat (codes "chat")
      (codes "Chat/1") (codes "CHAT/1") 5
      (record { counted = refl; few = omega arith; different = tt }) registers_chat refl
      asks_upgrade (omega arith) (omega arith) refl refl
