-- ===== src/Response/Tests.antt =====
-- Runs of src/uvhttp_response.c on small responses, and the theorems on them. The test's zlib stores
-- the length of its input before it, so that it can be inflated.
use uvhttp.Prelude.{
  caseeq, ℕ, true, false, List, [], ◌∷◌, ◌++◌, Option, none, some, ◌≡◌, refl, ◌↔◌, All, length,
  take, drop, take-length_append, drop-length_append, codes, arith, zero, suc, replicate, streq,
  if◌then◌else◌,
}
use uvhttp.Error.{response_send as response_send_failed, Result, ok, err}
use uvhttp.Validation.{validate_header_name, validate_header_value_safe}
use uvhttp.Response.{Response, response_init, set_header, contains_control_chars}
use uvhttp.Response.Print.{decimal, digits_of}
use uvhttp.Response.Headers.{
  build_response_headers, present, has_named, headers_text, get_status_text,
}
use uvhttp.Response.Headers.Layout.{response_lines}
use uvhttp.Response.Headers.Plain.{IsHeader}
use uvhttp.Response.Headers.Lines.{read_lines, read_lines-build_response_headers}
use uvhttp.Response.Stored.{IsStored, response_init-IsStored, Sets, set_header-Sets}
use uvhttp.Response.Gzip.{compress_gzip, gunzip, Inflates, gunzip-compress_gzip}
use uvhttp.Response.Build.{prepare, build_data, response_send}
use uvhttp.GzipCache.{GzipCache, gzip_cache_create}
use uvhttp.Response.Build.Framed.{Framed}
use uvhttp.Response.Build.Once.{response_send_twice}
use uvhttp.Response.Compressible.{
  should_compress_by_extension, is_listed, compressible_extensions, last_dot,
}
use uvhttp.Response.Compressible.Extension.{EndsIn, should_compress_by_extension_iff}

abbrev deflate : List ℕ → Option (List ℕ)
deflate input = some (length input ∷ input)

abbrev inflate : List ℕ → Option (List ℕ × List ℕ)
inflate [] = none
inflate (n ∷ s) = some (take n s, drop n s)

inflates : Inflates deflate inflate
inflates input raw rest e =
    let same : raw ≡ length input ∷ input = cc in
    rw (same, take-length_append input rest, drop-length_append input rest) refl

abbrev checksum : List ℕ → ℕ
checksum s = length s

decimal_1024 : decimal 1024 ≡ codes "1024"
unfolding decimal
decimal_1024 = refl

-- The stream for the body "no".
abbrev stream : List ℕ
stream =
    0x1F ∷ 0x8B ∷ 0x08 ∷ 0 ∷ 0 ∷ 0 ∷ 0 ∷ 0 ∷ 0 ∷ 0xFF ∷ 2 ∷ 110 ∷ 111 ∷ 2 ∷ 0 ∷ 0 ∷ 0 ∷ 2 ∷ 0 ∷ 0
    ∷ 0 ∷ []

streams : compress_gzip deflate checksum (codes "no") ≡ ok stream
unfolding compress_gzip
streams = refl

gunzip-compress_gzip_example : gunzip inflate checksum stream ≡ some (codes "no")
gunzip-compress_gzip_example =
    gunzip-compress_gzip deflate inflate checksum (codes "no") stream inflates streams

set_header-Sets_example :
    Sets response_init
      (codes "X-Id")
      (codes "7")
      (set_header response_init (codes "X-Id") (codes "7"))
set_header-Sets_example =
    set_header-Sets response_init (codes "X-Id") (codes "7") response_init-IsStored

-- A response with a header and a body of two bytes.
abbrev small : Response
small = record {
  status_code = 404;
  sent = false;
  finished = false;
  keepalive = false;
  compress = false;
  compress_algorithm = 0;
  compress_threshold = 0;
  headers = record { name = codes "X-Id"; value = codes "7" } ∷ [];
  headers_capacity = 32;
  has_extra = false;
  body = some (codes "no");
  gzip_cache = none;
}

sets_small :
    set_header (record small { headers = [] }) (codes "X-Id") (codes "7") ≡ some (small, ok tt)
unfolding set_header validate_header_name validate_header_value_safe contains_control_chars
sets_small = refl

small-IsHeader : All IsHeader (present small)
small-IsHeader = omega arith

small-IsStored : IsStored small
small-IsStored = record {
  named = small-IsHeader;
  low = omega arith;
  high = omega arith;
  fits = omega arith;
  extra = λ h. absurd (omega arith);
}

read_lines-build_response_headers_example :
    read_lines [] false (build_response_headers small 2 ++ codes "no")
    ≡ some (response_lines small 2, codes "no")
read_lines-build_response_headers_example =
    read_lines-build_response_headers small 2 (codes "no") small-IsHeader

-- The message for it.
abbrev message : List ℕ
message = build_response_headers small 2 ++ codes "no"

builds : build_data deflate checksum checksum 0 0 small ≡ some (small, message)
unfolding build_data build_response_headers headers_text has_named caseeq decimal digits_of
    get_status_text contains_control_chars
builds = refl

-- Another zlib for the tests, which has a short stream for one body.
abbrev long : List ℕ
long = replicate 40 b'a'

abbrev deflate_long : List ℕ → Option (List ℕ)
deflate_long input = if streq input long then some (0 ∷ []) else some (1 ∷ length input ∷ input)

abbrev inflate_long : List ℕ → Option (List ℕ × List ℕ)
inflate_long [] = none
inflate_long (zero ∷ s) = some (long, s)
inflate_long (suc k ∷ []) = none
inflate_long (suc k ∷ n ∷ s) = some (take n s, drop n s)

-- A response whose body is compressed.
abbrev zipped : Response
zipped = record small { compress = true; body = some long }

zips_long :
    elim (prepare deflate_long checksum checksum 0 0 zipped) [
      | none ↦ []
      | some (r, payload) ↦ payload
    ]
    ≡ 0x1F ∷ 0x8B ∷ 0x08 ∷ 0 ∷ 0 ∷ 0 ∷ 0 ∷ 0 ∷ 0 ∷ 0xFF ∷ 0 ∷ 40 ∷ 0 ∷ 0 ∷ 0 ∷ 40 ∷ 0 ∷ 0 ∷ 0 ∷ []
unfolding compress_gzip set_header validate_header_name validate_header_value_safe
    contains_control_chars
zips_long = refl

abbrev new_cache : GzipCache
new_cache = gzip_cache_create 0 2 0

-- The same response with a cache in which nothing has been stored yet.
abbrev cached : Response
cached = record zipped { gzip_cache = some new_cache }

abbrev broken : List ℕ → Result (Unit {0})
broken bytes = err response_send_failed

-- A response that has been handed to a connection that refused it.
refused :
    response_send deflate checksum checksum 0 0 broken small
    ≡ some (record small { sent = true }, message ∷ [], err response_send_failed)
unfolding response_send build_response_headers headers_text has_named caseeq decimal digits_of
    get_status_text contains_control_chars
refused = refl

response_send_twice_example :
    response_send deflate checksum checksum 0 0 broken (record small { sent = true })
    ≡ some (record small { sent = true }, [], ok tt)
response_send_twice_example =
    response_send_twice deflate checksum checksum 0 0 broken broken small
      (record small { sent = true }, message ∷ [], err response_send_failed) refused

should_compress_by_extension_iff_example :
    (should_compress_by_extension (codes "a.b.HTML") ≡ true) ↔ (
      (extension : List ℕ) × EndsIn (codes "a.b.HTML") extension
      × (is_listed compressible_extensions extension ≡ true))
should_compress_by_extension_iff_example = should_compress_by_extension_iff (codes "a.b.HTML")

html_compresses : should_compress_by_extension (codes "a.b.HTML") ≡ true
unfolding should_compress_by_extension last_dot is_listed caseeq
html_compresses = refl
