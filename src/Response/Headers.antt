-- ===== src/Response/Headers.antt =====
-- `build_response_headers` of src/uvhttp_response.c: the head of a response as text. `snprintf`
-- gives the length that the text would have, so the length is the one of the whole text whatever
-- the size of the buffer.
pub mod Layout
pub mod Plain
pub mod Lines
pub mod Fields
use uvhttp.Prelude.{
  caseeq, caseeq, ℕ, ◌+◌, Bool, true, false, not, ◌&&◌, ◌||◌, List, [], ◌∷◌, ◌++◌, Option, none,
  some, if◌then◌else◌, ltb, leb, ◌==◌, length, take, streq, codes,
}
use uvhttp.Response.{Header, Response, inline_headers_capacity, contains_control_chars}
use uvhttp.Response.Print.{decimal}

-- `get_status_text`
unfoldable pub get_status_text : ℕ → List ℕ
get_status_text code =
    if code == 100
    then codes "Continue"
    else if code == 101
    then codes "Switching Protocols"
    else if code == 200
    then codes "OK"
    else if code == 201
    then codes "Created"
    else if code == 204
    then codes "No Content"
    else if code == 400
    then codes "Bad Request"
    else if code == 401
    then codes "Unauthorized"
    else if code == 403
    then codes "Forbidden"
    else if code == 404
    then codes "Not Found"
    else if code == 405
    then codes "Method Not Allowed"
    else if code == 500
    then codes "Internal Server Error"
    else if code == 501
    then codes "Not Implemented"
    else if code == 502
    then codes "Bad Gateway"
    else if code == 503
    then codes "Service Unavailable"
    else codes "Unknown"

abbrev pub crlf : List ℕ
crlf = 13 ∷ 10 ∷ []

-- The headers that `uvhttp_response_get_header_at` gives for the indices below `header_count`.
abbrev pub present : Response → List Header
present r = if r.has_extra then r.headers else take inline_headers_capacity r.headers

abbrev pub header_line : Header → List ℕ
header_line h = h.name ++ (codes ": " ++ h.value)

-- The loop over the headers: a value with control characters is passed over.
unfoldable pub headers_text : List Header → List ℕ
headers_text [] = []
headers_text (h ∷ hs) =
    let rest = headers_text hs in
    if contains_control_chars h.value then rest else header_line h ++ (crlf ++ rest)

-- The flags of the loop: has a header of that name been written?
unfoldable pub has_named : List ℕ → List Header → Bool
has_named name [] = false
has_named name (h ∷ hs) =
    let rest = has_named name hs in
    if contains_control_chars h.value then rest else caseeq h.name name || rest

abbrev pub status_line : Response → List ℕ
status_line r =
    codes "HTTP/1.1 " ++ (decimal r.status_code ++ (codes " " ++ get_status_text r.status_code))

abbrev pub content_type_text : Bool → List ℕ
content_type_text true = []
content_type_text false = codes "Content-Type: text/plain" ++ crlf

abbrev pub length_of : Option (List ℕ) → ℕ → List ℕ
length_of none body_length = codes "0"
length_of (some body) body_length = if ltb 0 body_length then decimal body_length else codes "0"

-- `body_length` is given apart, since it is not always that of the body.
abbrev pub length_text : Response → ℕ → List ℕ
length_text r body_length = length_of r.body body_length

abbrev pub content_length_text : Bool → Response → ℕ → List ℕ
content_length_text true r body_length = []
content_length_text false r body_length =
    codes "Content-Length: " ++ (length_text r body_length ++ crlf)

abbrev pub connection_text : Bool → Bool → List ℕ
connection_text true keepalive = []
connection_text false true =
    codes "Connection: keep-alive" ++ (crlf ++ (codes "Keep-Alive: timeout=30, max=100" ++ crlf))
connection_text false false = codes "Connection: close" ++ crlf

-- `build_response_headers`
unfoldable pub build_response_headers : Response → ℕ → List ℕ
build_response_headers r body_length =
    let hs = present r in
    status_line r
    ++ (crlf
        ++ (headers_text hs
            ++ (content_type_text (has_named (codes "Content-Type") hs)
                ++ (content_length_text (has_named (codes "Content-Length") hs) r body_length
                    ++ (connection_text (has_named (codes "Connection") hs) r.keepalive ++ crlf)))))
