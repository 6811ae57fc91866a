-- ===== src/Response/Build/Framed.antt =====
-- The message that `uvhttp_response_build_data` of src/uvhttp_response.c builds, to a client that
-- reads its head and then as many bytes as the head announces.
use uvhttp.Prelude.{ℕ, false, List, [], Option, some, ◌≡◌, if◌then◌else◌, leb, length}
use uvhttp.Response.{Response}
use uvhttp.Response.Headers.{build_response_headers}
use uvhttp.Response.Headers.Lines.{read_lines}
use uvhttp.Response.Headers.Fields.{content_length}
use uvhttp.Response.Gzip.{Inflates}
use uvhttp.Response.Build.{body_of, headers_size, build_data}
use uvhttp.Response.Build.Open.{IsOpen}
use uvhttp.Response.Build.Prepared.{DecodesCache, Encodes}

module _ (deflate : List ℕ → Option (List ℕ)) (inflate : List ℕ → Option (List ℕ × List ℕ))
    (crc32 hash : List ℕ → ℕ) (asked filled : ℕ) (law : Inflates deflate inflate) where
  -- The length for which the head of a message was built in the end.
  abbrev pub announced : Response → Response → List ℕ → ℕ
  announced r r' payload =
      if leb headers_size (length (build_response_headers r' (length payload)))
      then length (body_of r)
      else length payload

  -- The message for the response `r`, and the response that is left.
  pub record Framed (r : Response) : Type 0 where
    pub response : Response
    pub message : List ℕ
    pub lines : List (List ℕ)
    pub payload : List ℕ
    pub returns : build_data deflate crc32 hash asked filled r ≡ some (response, message)
    pub stays_open : IsOpen response
    pub same_body : response.body ≡ r.body
    pub reads : read_lines [] false message ≡ some (lines, payload)
    pub encodes : Encodes deflate inflate crc32 hash asked filled law r response payload
    pub stays_decodable :
        DecodesCache deflate inflate crc32 hash asked filled law response.gzip_cache
    pub announces : content_length lines ≡ some (announced r response payload)
