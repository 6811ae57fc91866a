-- ===== src/Response/Build/Prepared.antt =====
-- The first step of `uvhttp_response_build_data` of src/uvhttp_response.c: which bytes are sent for a
-- body, and what becomes of the response and its cache.
use uvhttp.Prelude.{
  ℕ, true, false, List, [], ◌∷◌, ◌++◌, sym, subst, Option, none, some, ◌≡◌, refl, ap, ◌∙◌, ◌≢◌, ◌⊎◌,
  inl, inr, ltb, length, Bool-cases,
}
use uvhttp.Error.{Result, ok, err}
use uvhttp.GzipCache.{GzipCache, gzip_cache_find}
use uvhttp.GzipCache.Put.{IsCache}
use uvhttp.GzipCache.Sweep.{gzip_cache_find-IsCache}
use uvhttp.GzipCache.Reachable.{gzip_cache_put-IsCache}
use uvhttp.Response.{Header, Response}
use uvhttp.Response.Gzip.{compress_gzip, gunzip, Inflates, gunzip-compress_gzip}
use uvhttp.Response.Build.{
  body_of, Prepared, wants_compression, after_put, store, attempt, from_cache, after_find,
  compressed_body, prepare,
}
use uvhttp.Response.Build.Decodes.{IsStreamFor, Decodes, gzip_cache_put-Decodes}
use uvhttp.Response.Build.Decodes.Found.{gzip_cache_find-Decodes}
use uvhttp.Response.Build.Open.{
  HoldsCache, IsOpen, IsOpen-cached, encoding_header, Announces, with_encoding-Extends,
}

module _ (deflate : List ℕ → Option (List ℕ)) (inflate : List ℕ → Option (List ℕ × List ℕ))
    (crc32 hash : List ℕ → ℕ) (asked filled : ℕ) (law : Inflates deflate inflate) where
  abbrev pub DecodesCache : Option GzipCache → Type 0
  DecodesCache none = Unit
  DecodesCache (some c) = Decodes inflate crc32 hash c

  -- The cache has these bytes, and they stand for a body with the hash and the length of the body.
  pub record IsHit (r : Response) (payload b : List ℕ) : Type 0 where
    pub cache : GzipCache
    pub kept_in : r.gzip_cache ≡ some cache
    pub hit : (gzip_cache_find cache asked (hash (body_of r)) (length (body_of r))).1 ≡ some payload
    pub same_hash : hash b ≡ hash (body_of r)
    pub same_length : length b ≡ length (body_of r)

  -- The bytes that are sent for a body, and the headers. They are the body, with the headers as they
  -- were; or a gzip stream, with the header for the encoding, unless there are 64 headers already.
  -- The stream is one of the body, or what the cache has under its hash and length: the stream of a
  -- body that has these.
  abbrev pub Encodes : Response → Response → List ℕ → Type 0
  Encodes r r' payload =
      ((payload ≡ body_of r) × (r'.headers ≡ r.headers))
      ⊎ (Announces r r'
          × ((b : List ℕ) × (gunzip inflate crc32 payload ≡ some b)
              × ((b ≡ body_of r) ⊎ IsHit r payload b)))

  -- The first step returns, with a well-formed response and bytes that stand for the body.
  pub record IsReady (r : Response) (o : Option Prepared) : Type 0 where
    pub response : Response
    pub payload : List ℕ
    pub returns : o ≡ some (response, payload)
    pub stays_open : IsOpen response
    pub stays_decodable : DecodesCache response.gzip_cache
    pub same_body : response.body ≡ r.body
    pub empty : r.body ≡ none → payload ≡ []
    pub encodes : Encodes r response payload

  module _ (r : Response) (some_body : r.body ≢ none) where
    store-IsReady :
        (r' : Response) (z : List ℕ) (c : Option GzipCache)
        → HoldsCache c
        → DecodesCache c
        → r'.gzip_cache ≡ c
        → IsOpen r'
        → r'.body ≡ r.body
        → Announces r r'
        → gunzip inflate crc32 z ≡ some (body_of r)
        → IsReady r (store deflate crc32 hash asked filled r' (body_of r) z c)
    store-IsReady r' z none k d has opened same announced stream = record {
      response = r';
      payload = z;
      returns = refl;
      stays_open = opened;
      stays_decodable = subst DecodesCache (sym has) d;
      same_body = same;
      empty = λ none_body. absurd (some_body none_body);
      encodes = inr (announced, (body_of r, stream, inl refl));
    }
    store-IsReady r' z (some c) k d has opened same announced stream =
        let (c', put, k') =
          gzip_cache_put-IsCache c filled (hash (body_of r)) (length (body_of r)) z k in
        record {
          response = record r' { gzip_cache = some c' };
          payload = z;
          returns = ap (after_put deflate crc32 hash asked filled r' z) put;
          stays_open = IsOpen-cached r' c' opened k';
          stays_decodable =
              gzip_cache_put-Decodes inflate crc32 hash c c' filled (hash (body_of r))
                (length (body_of r)) z put (body_of r, stream, refl, refl) d;
          same_body = same;
          empty = λ none_body. absurd (some_body none_body);
          encodes = inr (announced, (body_of r, stream, inl refl));
        }

    plain-IsReady :
        (r' : Response)
        → IsOpen r'
        → DecodesCache r'.gzip_cache
        → r'.body ≡ r.body
        → r'.headers ≡ r.headers
        → IsReady r (some (r', body_of r))
    plain-IsReady r' opened d same headers = record {
      response = r';
      payload = body_of r;
      returns = refl;
      stays_open = opened;
      stays_decodable = d;
      same_body = same;
      empty = λ none_body. absurd (some_body none_body);
      encodes = inl (refl, headers);
    }

    Announces-from : (r' q : Response) → r'.headers ≡ r.headers → Announces r' q → Announces r q
    Announces-from r' q headers (inl last) =
        inl (last ∙ ap (λ (hs : List Header). hs ++ encoding_header ∷ []) headers)
    Announces-from r' q headers (inr (full, same)) =
        inr (sym (ap (λ (hs : List Header). length hs) headers) ∙ full, same ∙ headers)

    attempt-IsReady :
        (r' : Response) (z : Result (List ℕ))
        → IsOpen r'
        → DecodesCache r'.gzip_cache
        → r'.body ≡ r.body
        → r'.headers ≡ r.headers
        → compress_gzip deflate crc32 (body_of r) ≡ z
        → IsReady r (attempt deflate crc32 hash asked filled r' (body_of r) z)
    attempt-IsReady r' (err e) opened d same headers made = plain-IsReady r' opened d same headers
    attempt-IsReady r' (ok z) opened d same headers made =
        elim (Bool-cases (ltb (length z) (length (body_of r)))) [
          | inr longer ↦ rw longer (plain-IsReady r' opened d same headers)
          | inl shorter ↦
              let (q, e, x) = with_encoding-Extends r' opened in
              rw (shorter, e)
                (store-IsReady q z q.gzip_cache x.stays_open.2
                  (subst DecodesCache (sym x.same_cache) d) refl x.stays_open (x.same_body ∙ same)
                  (Announces-from r' q headers x.announced)
                  (gunzip-compress_gzip deflate inflate crc32 (body_of r) z law made))
        ]

    after_find-IsReady :
        (c : GzipCache) (out : GzipCache × Option (List ℕ))
        → IsOpen r
        → r.gzip_cache ≡ some c
        → IsCache out.0
        → Decodes inflate crc32 hash out.0
        → ((bytes : List ℕ)
            → out.1 ≡ some bytes
            → IsStreamFor inflate crc32 hash (hash (body_of r)) (length (body_of r)) bytes)
        → gzip_cache_find c asked (hash (body_of r)) (length (body_of r)) ≡ out
        → IsReady r (after_find deflate crc32 hash asked filled r (body_of r) out)
    after_find-IsReady c (c', some bytes) opened has k d stream found =
        let (q, e, x) =
          with_encoding-Extends (record r { gzip_cache = some c' }) (IsOpen-cached r c' opened k) in
        let (b, unzipped, same_hash, same_length) = stream bytes refl in
        record {
          response = q;
          payload = bytes;
          returns = ap (from_cache deflate crc32 hash asked filled bytes) e;
          stays_open = x.stays_open;
          stays_decodable = subst DecodesCache (sym x.same_cache) d;
          same_body = x.same_body;
          empty = λ none_body. absurd (some_body none_body);
          encodes = inr (
            Announces-from (record r { gzip_cache = some c' }) q refl x.announced,
            (
              b,
              unzipped,
              inr (record {
                cache = c;
                kept_in = has;
                hit = ap (λ (o : GzipCache × Option (List ℕ)). o.1) found;
                same_hash = same_hash;
                same_length = same_length;
              }),
            ),
          );
        }
    after_find-IsReady c (c', none) opened has k d stream found =
        attempt-IsReady (record r { gzip_cache = some c' })
          (compress_gzip deflate crc32 (body_of r)) (IsOpen-cached r c' opened k) d refl refl refl

    compressed_body-IsReady :
        (c : Option GzipCache)
        → IsOpen r
        → HoldsCache c
        → DecodesCache c
        → r.gzip_cache ≡ c
        → IsReady r (compressed_body deflate crc32 hash asked filled r (body_of r) c)
    compressed_body-IsReady none opened k d has =
        attempt-IsReady r (compress_gzip deflate crc32 (body_of r)) opened
          (subst DecodesCache (sym has) d) refl refl refl
    compressed_body-IsReady (some c) opened k d has =
        let (left, stream) =
          gzip_cache_find-Decodes inflate crc32 hash c asked (hash (body_of r)) (length (body_of r))
            d in
        after_find-IsReady c (gzip_cache_find c asked (hash (body_of r)) (length (body_of r)))
          opened has (gzip_cache_find-IsCache c asked (hash (body_of r)) (length (body_of r)) k)
          left stream refl

  wants_compression-ne-none : (r : Response) → wants_compression r ≡ true → r.body ≢ none
  wants_compression-ne-none r wants none_body =
      let refused : wants_compression r ≡ false = rw none_body refl in absurd cc

  pub prepare-IsReady :
      (r : Response)
      → IsOpen r
      → DecodesCache r.gzip_cache
      → IsReady r (prepare deflate crc32 hash asked filled r)
  prepare-IsReady r opened d = elim (Bool-cases (wants_compression r)) [
    | inl wants ↦ rw wants (
        compressed_body-IsReady r (wants_compression-ne-none r wants) r.gzip_cache opened opened.2 d
          refl)
    | inr plain ↦ rw plain (record {
      response = r;
      payload = body_of r;
      returns = refl;
      stays_open = opened;
      stays_decodable = d;
      same_body = refl;
      empty = λ none_body. rw none_body refl;
      encodes = inl (refl, refl);
    })
  ]
