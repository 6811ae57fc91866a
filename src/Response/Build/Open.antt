-- ===== src/Response/Build/Open.antt =====
-- The responses of which src/uvhttp_response.c builds a message, and the header for the encoding.
use uvhttp.Prelude.{
  caseeq, ℕ, true, false, ◌||◌, ◌&&◌, ◌⊎◌, ◌∙◌, ap, length, List, [], ◌∷◌, ◌++◌, Option, none, some,
  ◌≡◌, refl, sym, subst, inl, inr, codes, arith, Bool-cases,
}
use uvhttp.Error.{Error, invalid_param, out_of_memory, Result, ok, err}
use uvhttp.Validation.{
  validate_header_name, validate_header_value_safe, validate_string_length, all_name_chars,
  no_controls,
}
use uvhttp.GzipCache.{GzipCache}
use uvhttp.GzipCache.Put.{IsCache}
use uvhttp.Response.{Header, Response, set_header, put_header, contains_control_chars, max_headers}
use uvhttp.Response.Headers.{has_named}
use uvhttp.Response.Stored.{IsStored, Sets, set_header-Sets}
use uvhttp.Response.Build.{left_by, with_encoding}

has_named-snoc :
    (name : List ℕ) (hs : List Header) (h : Header)
    → caseeq h.name name ≡ false
    → has_named name hs ≡ false
    → has_named name (hs ++ h ∷ []) ≡ false
unfolding has_named
has_named-snoc name [] h other e = elim (Bool-cases (contains_control_chars h.value)) [
  | inl bad ↦ rw bad refl
  | inr good ↦ rw (good, other) refl
]
has_named-snoc name (x ∷ hs) h other e = elim (Bool-cases (contains_control_chars x.value)) [
  | inl bad ↦ rw bad (has_named-snoc name hs h other (rw bad at e))
  | inr good ↦
      let both : (caseeq x.name name || has_named name hs) ≡ false = rw good at e in
      let here : caseeq x.name name ≡ false = ground arith in
      let later : has_named name hs ≡ false = ground arith in
      rw (good, here) (has_named-snoc name hs h other later)
]

abbrev pub HoldsCache : Option GzipCache → Type 0
HoldsCache none = Unit
HoldsCache (some c) = IsCache c

-- A well-formed response, its cache too, without a header Content-Length of its own.
abbrev pub IsOpen : Response → Type 0
IsOpen r =
    IsStored r × (has_named (codes "Content-Length") r.headers ≡ false) × HoldsCache r.gzip_cache

pub IsOpen-cached :
    (r : Response) (c : GzipCache)
    → IsOpen r
    → IsCache c
    → IsOpen (record r { gzip_cache = some c })
IsOpen-cached r c (v, missing, _) k = (
  record { named = v.named; low = v.low; high = v.high; fits = v.fits; extra = v.extra },
  missing,
  k,
)

abbrev pub encoding_header : Header
encoding_header = record { name = codes "Content-Encoding"; value = codes "gzip" }

-- The header for the encoding comes last, or there are 64 headers already and it is left out.
abbrev pub Announces : Response → Response → Type 0
Announces r r' =
    (r'.headers ≡ r.headers ++ encoding_header ∷ [])
    ⊎ ((length r.headers ≡ max_headers) × (r'.headers ≡ r.headers))

true-ne-false : true ≡ false → ⊥
true-ne-false x = cc

-- The checks of names and values take the header for the encoding.
encoding_is_valid :
    (validate_header_name (codes "Content-Encoding") && validate_header_value_safe (codes "gzip"))
    ≡ true
unfolding validate_header_name validate_string_length all_name_chars validate_header_value_safe
    no_controls
encoding_is_valid = refl

-- The response `r` with a header for the encoding.
pub record Extends (r r' : Response) : Type 0 where
  pub stays_open : IsOpen r'
  pub same_body : r'.body ≡ r.body
  pub same_cache : r'.gzip_cache ≡ r.gzip_cache
  pub announced : Announces r r'

abbrev pub KeepsRest : Response → Option (Response × Result (Unit {0})) → Type 0
KeepsRest r none = Unit
KeepsRest r (some (r', _)) = (r'.body ≡ r.body) × (r'.gzip_cache ≡ r.gzip_cache)

put_header-KeepsRest : (r : Response) (n v : List ℕ) → KeepsRest r (put_header r n v)
put_header-KeepsRest r n v = ground arith

set_header-KeepsRest : (r : Response) (n v : List ℕ) → KeepsRest r (set_header r n v)
unfolding set_header
set_header-KeepsRest r n v = ground arith

pub with_encoding-Extends :
    (r : Response) → IsOpen r → (r' : Response) × (with_encoding r ≡ some r') × Extends r r'
with_encoding-Extends r (v, missing, k) =
    go (set_header r (codes "Content-Encoding") (codes "gzip"))
      (set_header-Sets r (codes "Content-Encoding") (codes "gzip") v)
      (set_header-KeepsRest r (codes "Content-Encoding") (codes "gzip"))
  where
    full :
        {e : Error}
        → (((e ≡ invalid_param)
              × ((validate_header_name (codes "Content-Encoding")
                    && validate_header_value_safe (codes "gzip"))
                  ≡ false))
            ⊎ ((e ≡ out_of_memory) × (length r.headers ≡ max_headers)))
        → length r.headers ≡ max_headers
    full (inl (_, refused)) = absurd (true-ne-false (sym encoding_is_valid ∙ refused))
    full (inr (_, at_top)) = at_top

    go :
        (out : Option (Response × Result (Unit {0})))
        → Sets r (codes "Content-Encoding") (codes "gzip") out
        → KeepsRest r out
        → (r' : Response) × (left_by out ≡ some r') × Extends r r'
    go none (_, _, _, long) rest = absurd (omega arith)
    go (some (r', ok _)) (stored, hs, _, _, _, _, _) (body, cache) = (
      r',
      refl,
      record {
        stays_open = (
          stored,
          rw hs
              (has_named-snoc (codes "Content-Length") r.headers _ (unfold caseeq in refl) missing),
          subst HoldsCache (sym cache) k,
        );
        same_body = body;
        same_cache = cache;
        announced = inl hs;
      },
    )
    go (some (r', err e)) (same, reason) (body, cache) = (
      r',
      refl,
      record {
        stays_open = subst IsOpen (sym same) (v, missing, k);
        same_body = body;
        same_cache = cache;
        announced = inr (full reason, ap (λ (x : Response). x.headers) same);
      },
    )
