-- ===== src/Response.antt =====
-- The response of src/uvhttp_response.c: its state, and the operations that fill it. Allocations
-- succeed and arguments are not NULL.
pub mod Print
pub mod Headers
pub mod Stored
pub mod Gzip
pub mod Build
pub mod Compressible
mod Tests
use uvhttp.Prelude.{
  ℕ, ◌+◌, ◌*◌, Bool, true, false, not, ◌&&◌, ◌||◌, List, [], ◌∷◌, ◌++◌, Option, none, some,
  if◌then◌else◌, ltb, leb, ◌==◌, length, take, get_elem?,
}
use uvhttp.Error.{invalid_param, out_of_memory, Result, ok, err}
use uvhttp.Validation.{validate_header_name, validate_header_value_safe}
use uvhttp.GzipCache.{GzipCache}

-- `uvhttp_header_t`
pub record Header : Type 0 where
  pub name : List ℕ
  pub value : List ℕ

-- `struct uvhttp_response`: `headers` are the first `header_count` headers, in the array and the
-- extra one; `has_extra` says that `headers_extra` is not NULL; the body stands for its length too.
-- The fields that no function of the file reads are left out.
pub record Response : Type 0 where
  pub status_code : ℕ
  pub sent : Bool
  pub finished : Bool
  pub keepalive : Bool
  pub compress : Bool
  pub compress_algorithm : ℕ
  pub compress_threshold : ℕ
  pub headers : List Header
  pub headers_capacity : ℕ
  pub has_extra : Bool
  pub body : Option (List ℕ)
  pub gzip_cache : Option GzipCache

abbrev pub inline_headers_capacity : ℕ
inline_headers_capacity = 32

abbrev pub max_headers : ℕ
max_headers = 64

abbrev pub max_body_size : ℕ
max_body_size = 1048576

-- `uvhttp_response_init`
unfoldable pub response_init : Response
response_init = record {
  status_code = 200;
  sent = false;
  finished = false;
  keepalive = true;
  compress = false;
  compress_algorithm = 0;
  compress_threshold = 0;
  headers = [];
  headers_capacity = inline_headers_capacity;
  has_extra = false;
  body = none;
  gzip_cache = none;
}

-- `uvhttp_response_set_status`; a negative code counts as 0, which is refused too.
unfoldable pub set_status : Response → ℕ → Response × Result (Unit {0})
set_status r code =
    if ltb code 100 || ltb 599 code
    then (r, err invalid_param)
    else (record r { status_code = code }, ok tt)

-- The test on one character of `contains_control_chars`.
abbrev pub is_control : ℕ → Bool
is_control c = (ltb c 32 && not (c == 9)) || (c == 13 || c == 10) || c == 127

-- `contains_control_chars`
unfoldable pub contains_control_chars : List ℕ → Bool
contains_control_chars [] = false
contains_control_chars (c ∷ s) = is_control c || contains_control_chars s

-- The capacity to which `uvhttp_response_set_header` grows the headers.
abbrev pub grown : ℕ → ℕ
grown capacity =
    let doubled = if capacity * 2 == 0 then inline_headers_capacity else capacity * 2 in
    if ltb max_headers doubled then max_headers else doubled

-- The field of a header for its value, `UVHTTP_HEADER_VALUE_BUFFER_SIZE`.
abbrev pub header_value_size : ℕ
header_value_size = 2048

-- The header is written behind the others, its name cut to its field. `uvhttp_safe_strcpy` is told
-- that the field of the value has 4096 bytes; `none` is a write behind the 2048 that it has.
abbrev pub put_header : Response → List ℕ → List ℕ → Option (Response × Result (Unit {0}))
put_header r name value =
    if not (ltb (length r.headers) inline_headers_capacity) && not r.has_extra
    then some (r, err out_of_memory)
    else if leb header_value_size (length value)
    then none
    else some (
      record r { headers = r.headers ++ record { name = take 255 name; value = value } ∷ [] },
      ok tt,
    )

-- `uvhttp_response_set_header`
unfoldable pub set_header : Response → List ℕ → List ℕ → Option (Response × Result (Unit {0}))
set_header r name value =
    if not (validate_header_name name) || not (validate_header_value_safe value)
    then some (r, err invalid_param)
    else if contains_control_chars value
    then some (r, err invalid_param)
    else if ltb (length r.headers) r.headers_capacity
    then put_header r name value
    else if grown r.headers_capacity == r.headers_capacity
    then some (r, err out_of_memory)
    else put_header (record r { headers_capacity = grown r.headers_capacity; has_extra = true })
        name value

-- `uvhttp_response_set_body`
unfoldable pub set_body : Response → List ℕ → Response × Result (Unit {0})
set_body r body =
    if length body == 0 || ltb max_body_size (length body)
    then (r, err invalid_param)
    else (record r { body = some body }, ok tt)

-- `uvhttp_response_cleanup`
unfoldable pub response_cleanup : Response → Response
response_cleanup r = record r { body = none; has_extra = false }

-- `uvhttp_response_get_header_at`; the extra array is NULL after a cleanup.
unfoldable pub get_header_at : Response → ℕ → Option Header
get_header_at r i =
    if ltb i inline_headers_capacity || r.has_extra then get_elem? r.headers i else none

abbrev pub default_threshold : ℕ → ℕ
default_threshold n = if n == 0 then 1024 else n

-- `uvhttp_response_set_compress`
unfoldable pub set_compress : Response → Bool → Response
set_compress r false = record r { compress = false; compress_algorithm = 0; compress_threshold = 0 }
set_compress r true = record r {
  compress = true;
  compress_threshold = default_threshold r.compress_threshold;
}

-- `uvhttp_response_set_compress_algorithm`
unfoldable pub set_compress_algorithm : Response → ℕ → Response × Result (Unit {0})
set_compress_algorithm r algorithm =
    if not r.compress || ltb 1 algorithm
    then (r, err invalid_param)
    else (record r { compress_algorithm = algorithm }, ok tt)

-- `uvhttp_response_set_compress_threshold`
unfoldable pub set_compress_threshold : Response → ℕ → Response × Result (Unit {0})
set_compress_threshold r threshold =
    if ltb max_body_size threshold
    then (r, err invalid_param)
    else (record r { compress_threshold = threshold }, ok tt)
