-- ===== src/Response/Build.antt =====
-- `uvhttp_response_build_data` and `uvhttp_response_send` of src/uvhttp_response.c. zlib, the hash
-- function, the times at which the cache is asked and filled, and what sending the bytes over the
-- connection returns are parameters. Allocations succeed.
pub mod Open
pub mod Decodes
pub mod Prepared
pub mod Framed
pub mod Once
use uvhttp.Prelude.{
  ℕ, ◌+◌, Bool, true, false, not, ◌&&◌, List, [], ◌∷◌, ◌++◌, Option, none, some, if◌then◌else◌, ltb,
  leb, length, codes,
}
use uvhttp.Error.{Result, ok, err}
use uvhttp.GzipCache.{GzipCache, gzip_cache_find, gzip_cache_put}
use uvhttp.Response.{Response, set_header}
use uvhttp.Response.Headers.{build_response_headers}
use uvhttp.Response.Gzip.{compress_gzip}

-- The bytes of the body; none of them if it is NULL.
abbrev pub body_of : Response → List ℕ
body_of r = elim r.body [ none ↦ [] | some body ↦ body ]

-- The first size of the buffer for the headers.
abbrev pub headers_size : ℕ
headers_size = 16384

-- What setting a header leaves, whatever its result.
abbrev pub left_by : Option (Response × Result (Unit {0})) → Option Response
left_by none = none
left_by (some (r, _)) = some r

-- The response with a header for the encoding.
abbrev pub with_encoding : Response → Option Response
with_encoding r = left_by (set_header r (codes "Content-Encoding") (codes "gzip"))

-- The response with its headers, and the bytes to send behind them.
abbrev pub Prepared : Type 0
Prepared = Response × List ℕ

-- Is the body to be compressed?
abbrev pub wants_compression : Response → Bool
wants_compression r = elim r.body [
  | none ↦ false
  | some body ↦ r.compress && leb r.compress_threshold (length body)
]

module _ (deflate : List ℕ → Option (List ℕ)) (crc32 hash : List ℕ → ℕ) (asked filled : ℕ) where
  abbrev pub after_put : Response → List ℕ → Option GzipCache → Option Prepared
  after_put r z none = none
  after_put r z (some c) = some (record r { gzip_cache = some c }, z)

  -- The compressed bytes are stored in the cache; `none` is a call that does not return.
  abbrev pub store : Response → List ℕ → List ℕ → Option GzipCache → Option Prepared
  store r body z none = some (r, z)
  store r body z (some c) = after_put r z (gzip_cache_put c filled (hash body) (length body) z).0

  abbrev pub encoded : List ℕ → List ℕ → Option Response → Option Prepared
  encoded body z none = none
  encoded body z (some r) = store r body z r.gzip_cache

  -- The body is compressed, if that makes it shorter.
  abbrev pub attempt : Response → List ℕ → Result (List ℕ) → Option Prepared
  attempt r body (err e) = some (r, body)
  attempt r body (ok z) =
      if ltb (length z) (length body) then encoded body z (with_encoding r) else some (r, body)

  abbrev pub from_cache : List ℕ → Option Response → Option Prepared
  from_cache bytes none = none
  from_cache bytes (some r) = some (r, bytes)

  abbrev pub after_find : Response → List ℕ → GzipCache × Option (List ℕ) → Option Prepared
  after_find r body (c, some bytes) =
      from_cache bytes (with_encoding (record r { gzip_cache = some c }))
  after_find r body (c, none) =
      attempt (record r { gzip_cache = some c }) body (compress_gzip deflate crc32 body)

  abbrev pub compressed_body : Response → List ℕ → Option GzipCache → Option Prepared
  compressed_body r body none = attempt r body (compress_gzip deflate crc32 body)
  compressed_body r body (some c) =
      after_find r body (gzip_cache_find c asked (hash body) (length body))

  -- The first step of `uvhttp_response_build_data`.
  abbrev pub prepare : Response → Option Prepared
  prepare r =
      if wants_compression r
      then compressed_body r (body_of r) r.gzip_cache
      else some (r, body_of r)

  -- The headers are built for the bytes to send; where they do not fit into the buffer they are
  -- built again, for the length of the body, which has been put back.
  abbrev pub head_bytes : Response → List ℕ → List ℕ → List ℕ
  head_bytes r original payload =
      if leb headers_size (length (build_response_headers r (length payload)))
      then build_response_headers r (length original)
      else build_response_headers r (length payload)

  abbrev pub assemble : Response → Option Prepared → Option Prepared
  assemble r none = none
  assemble r (some (r', payload)) = some (r', head_bytes r' (body_of r) payload ++ payload)

  -- `uvhttp_response_build_data`: the response, whose headers and cache it may change, and the
  -- bytes of the message.
  unfoldable pub build_data : Response → Option Prepared
  build_data r = if r.sent then some (r, []) else assemble r (prepare r)

  -- What sending does: the response, the messages handed to the connection, and the result.
  abbrev pub Sent : Type 0
  Sent = Response × List (List ℕ) × Result (Unit {0})

  abbrev pub finish : Response → List ℕ → Result (Unit {0}) → Sent
  finish r message (ok _) = (record r { sent = true; finished = true }, message ∷ [], ok tt)
  finish r message (err e) = (record r { sent = true }, message ∷ [], err e)

  abbrev pub transmit : (List ℕ → Result (Unit {0})) → Option Prepared → Option Sent
  transmit send_raw none = none
  transmit send_raw (some (r, message)) = some (finish r message (send_raw message))

  -- `uvhttp_response_send`; `send_raw` is what `uvhttp_response_send_raw` returns for a message.
  unfoldable pub response_send : (List ℕ → Result (Unit {0})) → Response → Option Sent
  unfolding build_data
  response_send send_raw r =
      if r.sent then some (r, [], ok tt) else transmit send_raw (build_data r)
