-- ===== src/Request.antt =====
-- A request of src/uvhttp_request.c: its state, and the functions that the HTTP parser calls to fill
-- it. Allocations succeed and arguments are not NULL; the bytes that the parser hands over have no
-- zero among them.
pub mod Headers
pub mod Body
pub mod Parsed
pub mod Pieces
pub mod Query
pub mod Complete
mod Tests
use uvhttp.Prelude.{
  ℕ, ◌+◌, ◌*◌, Bool, true, false, not, ◌&&◌, ◌||◌, List, [], ◌∷◌, ◌++◌, Option, none, some,
  if◌then◌else◌, ltb, leb, ◌==◌, length, take, get_elem?, caseeq,
}
use uvhttp.Error.{buffer_too_small, io_error, Result, ok, err}
use uvhttp.Validation.{is_alnum}
use uvhttp.Router.Method.{Method, any, get, post, put, delete, head, options, patch}
use uvhttp.Response.{Header, inline_headers_capacity, grown, max_body_size}

-- `struct uvhttp_request`: `headers` are the first `header_count` headers, in the array and the
-- extra one; `has_extra` says that `headers_extra` is not NULL; `body` are the `body_length` bytes
-- in use of the buffer. The parser, the client and the fields that are not used are left out.
pub record Request : Type 0 where
  pub method : Method
  pub url : List ℕ
  pub headers : List Header
  pub headers_capacity : ℕ
  pub has_extra : Bool
  pub body : List ℕ
  pub body_capacity : ℕ

abbrev pub initial_buffer_size : ℕ
initial_buffer_size = 8192

abbrev pub max_url_len : ℕ
max_url_len = 2048

-- `uvhttp_request_init`
unfoldable pub request_init : Request
request_init = record {
  method = get;
  url = [];
  headers = [];
  headers_capacity = inline_headers_capacity;
  has_extra = false;
  body = [];
  body_capacity = initial_buffer_size;
}

-- llhttp's methods; `other` are those that have no counterpart.
pub data LlMethod : Type 0 where
  ll_delete ll_get ll_head ll_post ll_put ll_options ll_patch ll_other : LlMethod

-- `llhttp_method_to_uvhttp`
unfoldable pub llhttp_method_to_uvhttp : LlMethod → Method
llhttp_method_to_uvhttp ll_get = get
llhttp_method_to_uvhttp ll_post = post
llhttp_method_to_uvhttp ll_put = put
llhttp_method_to_uvhttp ll_delete = delete
llhttp_method_to_uvhttp ll_head = head
llhttp_method_to_uvhttp ll_options = options
llhttp_method_to_uvhttp ll_patch = patch
llhttp_method_to_uvhttp ll_other = any

-- Is there memory for a header at this index?
unfoldable pub has_slot : Request → ℕ → Bool
has_slot r i = ltb i r.headers_capacity && (ltb i inline_headers_capacity || r.has_extra)

-- `uvhttp_request_get_header_at`, for the indices in use.
unfoldable pub request_get_header_at : Request → ℕ → Option Header
request_get_header_at r i = if has_slot r i then get_elem? r.headers i else none

-- The header is written behind the others, cut to the sizes of its fields.
abbrev pub place_header : Request → List ℕ → List ℕ → Request × Result (Unit {0})
place_header r name value =
    if has_slot r (length r.headers)
    then (
      record r {
        headers = r.headers ++ record { name = take 255 name; value = take 2047 value } ∷ [];
      },
      ok tt,
    )
    else (r, err io_error)

-- `uvhttp_request_add_header`; the capacity grows as that of a response does.
unfoldable pub request_add_header : Request → List ℕ → List ℕ → Request × Result (Unit {0})
request_add_header r name value =
    if ltb (length r.headers) r.headers_capacity
    then place_header r name value
    else if grown r.headers_capacity == r.headers_capacity
    then (r, err buffer_too_small)
    else place_header (record r { headers_capacity = grown r.headers_capacity; has_extra = true })
        name value

abbrev pub is_lookup_char : ℕ → Bool
is_lookup_char c = is_alnum c || c == b'-' || c == b'_'

-- The loop over the characters of a name that is looked up.
unfoldable pub all_lookup_chars : List ℕ → Bool
all_lookup_chars [] = true
all_lookup_chars (c ∷ s) = is_lookup_char c && all_lookup_chars s

-- The headers that `uvhttp_request_get_header_at` gives for the indices below `header_count`.
abbrev pub request_headers : Request → List Header
request_headers r =
    take r.headers_capacity
      (if r.has_extra then r.headers else take inline_headers_capacity r.headers)

-- The loop over the headers.
unfoldable pub find_header : List ℕ → List Header → Option (List ℕ)
find_header name [] = none
find_header name (h ∷ hs) =
    let later = find_header name hs in
    if caseeq h.name name && leb (length h.value) 4095 then some h.value else later

abbrev pub valid_lookup : List ℕ → Bool
valid_lookup name = not (length name == 0) && leb (length name) 255 && all_lookup_chars name

-- `uvhttp_request_get_header`
unfoldable pub request_get_header : Request → List ℕ → Option (List ℕ)
request_get_header r name = if valid_lookup name then find_header name (request_headers r) else none

-- What the parser's functions use of `struct uvhttp_connection`, with the request;
-- `current_header_field` are the first `current_header_field_len` bytes.
pub record Parsing : Type 0 where
  pub parsing_complete : Bool
  pub content_length : ℕ
  pub body_received : ℕ
  pub read_buffer_used : ℕ
  pub current_header_field : List ℕ
  pub parsing_header_field : Bool
  pub request : Request

-- The functions that the parser calls return `none` for -1, on which it stops.
unfoldable pub on_message_begin : Parsing → Parsing
on_message_begin c = record c { parsing_complete = false; content_length = 0; body_received = 0 }

unfoldable pub on_url : Parsing → List ℕ → Option Parsing
on_url c at =
    if leb max_url_len (length at)
    then none
    else some (record c { request = record c.request { url = at } })

unfoldable pub on_header_field : Parsing → List ℕ → Option Parsing
on_header_field c at =
    if leb 256 (length at)
    then none
    else some (record c { current_header_field = at; parsing_header_field = true })

abbrev pub after_header : Parsing → Request × Result (Unit {0}) → Option Parsing
after_header c (r, err e) = none
after_header c (r, ok _) =
    some (record c { request = r; current_header_field = []; parsing_header_field = false })

unfoldable pub on_header_value : Parsing → List ℕ → Option Parsing
on_header_value c at =
    if leb 4096 (length at)
    then none
    else if length c.current_header_field == 0
    then none
    else after_header c
        (request_add_header c.request (take 255 c.current_header_field) (take 4095 at))

-- The capacity to which `on_body` grows the body's buffer.
abbrev pub grown_body : ℕ → ℕ → ℕ
grown_body capacity need = if ltb (capacity * 2) need then need else capacity * 2

abbrev pub with_body : Parsing → List ℕ → ℕ → Parsing
with_body c at capacity = record c {
  request = record c.request { body = c.request.body ++ at; body_capacity = capacity };
}

unfoldable pub on_body : Parsing → List ℕ → Option Parsing
on_body c at =
    let need = length c.request.body + length at in
    if leb need c.request.body_capacity
    then some (with_body c at c.request.body_capacity)
    else if ltb max_body_size (grown_body c.request.body_capacity need)
    then none
    else some (with_body c at (grown_body c.request.body_capacity need))
