-- ===== src/Response/Stored.antt =====
-- The headers that src/uvhttp_response.c stores.
use uvhttp.Prelude.{
  ℕ, zero, suc, ◌≤◌, ◌<◌, true, false, not, ◌&&◌, List, [], ◌∷◌, ◌++◌, Option, none, some, ◌≡◌,
  refl, ap, sym, ◌⊎◌, inl, inr, ltb, leb, ◌==◌, length, length-append, take, take_all, All, arith,
  if◌then◌else◌, Bool-cases, &&-true,
}
use uvhttp.Error.{invalid_param, out_of_memory, Result, ok, err}
use uvhttp.Validation.{validate_header_name, validate_header_value_safe, no_controls}
use uvhttp.Validation.Header.{IsNameChar, validate_header_name_iff}
use uvhttp.Response.{
  Header, Response, response_init, contains_control_chars, inline_headers_capacity, max_headers,
  grown, put_header, set_header,
}
use uvhttp.Response.Headers.{present}
use uvhttp.Response.Headers.Plain.{IsHeader}

-- A response that has not been cleaned up: the names of its headers are names, and there is memory
-- for as many headers as its capacity says, 32 to 64.
pub record IsStored (r : Response) : Type 0 where
  pub named : All IsHeader r.headers
  pub low : 32 ≤ r.headers_capacity
  pub high : r.headers_capacity ≤ max_headers
  pub fits : length r.headers ≤ r.headers_capacity
  pub extra : 32 < r.headers_capacity → r.has_extra ≡ true

pub response_init-IsStored : IsStored response_init
unfolding response_init
response_init-IsStored = record {
  named = tt;
  low = omega arith;
  high = omega arith;
  fits = omega arith;
  extra = λ h. absurd (omega arith);
}

-- All headers can be read back.
pub present_all : (r : Response) → IsStored r → present r ≡ r.headers
present_all r v = elim (Bool-cases r.has_extra) [
  | inl more ↦ rw more refl
  | inr inline ↦ rw inline (take_all 32 r.headers (small inline))
]
  where
    small : r.has_extra ≡ false → length r.headers ≤ 32
    small inline = elim (Bool-cases (ltb 32 r.headers_capacity)) [
      | inl wide ↦ let more : r.has_extra ≡ true = v.extra (ground arith) in absurd (cc)
      | inr narrow ↦ ground (arith, v.fits)
    ]

no_controls-contains : (s : List ℕ) → no_controls s ≡ true → contains_control_chars s ≡ false
unfolding no_controls contains_control_chars
no_controls-contains [] h = refl
no_controls-contains (c ∷ s) h = ground (arith, no_controls-contains s)

All-take : (n : ℕ) (s : List ℕ) → All IsNameChar s → All IsNameChar (take n s)
All-take zero s h = tt
All-take (suc n) [] h = tt
All-take (suc n) (c ∷ s) (p, h) = (p, All-take n s h)

All-snoc :
    (hs : List Header) (h : Header) → All IsHeader hs → IsHeader h → All IsHeader (hs ++ h ∷ [])
All-snoc [] h a p = (p, tt)
All-snoc (x ∷ hs) h (q, a) p = (q, All-snoc hs h a p)

-- What setting a header does: a header with a name and a value that pass the checks comes last,
-- its name cut to the size of the field, and the capacity stays where there was room and is 64
-- where there was none; or nothing changes, since one of them does not pass or
-- there are 64 headers; or it writes behind the field of the value, which passes the checks with
-- 2048 bytes or more.
abbrev pub Sets : Response → List ℕ → List ℕ → Option (Response × Result (Unit {0})) → Type 0
Sets r name value none =
    (validate_header_name name ≡ true)
    × (validate_header_value_safe value ≡ true)
    × (length r.headers < max_headers)
    × (2048 ≤ length value)
Sets r name value (some (r', ok _)) =
    IsStored r'
    × (r'.headers ≡ r.headers ++ record { name = take 255 name; value = value } ∷ [])
    × (validate_header_name name ≡ true)
    × (validate_header_value_safe value ≡ true)
    × (length r.headers < max_headers)
    × (length value < 2048)
    × (r'.headers_capacity
        ≡ (if ltb (length r.headers) r.headers_capacity then r.headers_capacity else 64))
Sets r name value (some (r', err e)) =
    (r' ≡ r)
    × (((e ≡ invalid_param)
          × ((validate_header_name name && validate_header_value_safe value) ≡ false))
        ⊎ ((e ≡ out_of_memory) × (length r.headers ≡ max_headers)))

module _ (name value : List ℕ) (name_ok : validate_header_name name ≡ true)
    (value_ok : validate_header_value_safe value ≡ true) where
  stored_name : All IsNameChar (take 255 name)
  stored_name = All-take 255 name ((validate_header_name_iff name).0 name_ok).2

  put_header-Sets :
      (base r : Response)
      → IsStored r
      → length r.headers < r.headers_capacity
      → base.headers ≡ r.headers
      → r.headers_capacity
        ≡ (if ltb (length base.headers) base.headers_capacity then base.headers_capacity else 64)
      → Sets base name value (put_header r name value)
  put_header-Sets base r v room same size =
      let memory : (not (ltb (length r.headers) inline_headers_capacity) && not r.has_extra)
          ≡ false =
        available in
      let free : length base.headers < max_headers = omega (arith, v.high, ap length same) in
      elim (Bool-cases (leb 2048 (length value))) [
        | inl long ↦ rw (memory, long) (name_ok, value_ok, free, ground arith)
        | inr short ↦
            rw (memory, short)
              (
                record {
                  named =
                      All-snoc r.headers (record { name = take 255 name; value = value }) v.named
                        stored_name;
                  low = v.low;
                  high = v.high;
                  fits = omega (
                    arith,
                    length-append r.headers (record { name = take 255 name; value = value } ∷ []),
                  );
                  extra = v.extra;
                },
                ap (λ (hs : List Header). hs ++ record { name = take 255 name; value = value } ∷ [])
                    (sym same),
                name_ok,
                value_ok,
                free,
                ground arith,
                size,
              )
      ]
    where
      available : (not (ltb (length r.headers) inline_headers_capacity) && not r.has_extra) ≡ false
      available = elim (Bool-cases (ltb (length r.headers) 32)) [
        | inl inline ↦ rw inline refl
        | inr beyond ↦
            let more : r.has_extra ≡ true = v.extra (ground arith) in rw (more, beyond) refl
      ]

-- Setting a header in a well-formed response, on every branch: the header comes last, its name cut
-- to 255 bytes, the capacity stays where there is room for one header more and is 64 where there is
-- none, and the response stays well formed; or an error leaves the response as it is, since
-- the name or the value does not pass the checks or there are 64 headers; or a value that passes
-- them with 2048 bytes or more is written behind its field.
pub set_header-Sets :
    (r : Response) (name value : List ℕ) → IsStored r → Sets r name value (set_header r name value)
unfolding set_header
set_header-Sets r name value v = elim (Bool-cases (validate_header_name name)) [
  | inr bad ↦
      let both : (validate_header_name name && validate_header_value_safe value) ≡ false =
        rw bad refl in
      rw bad (refl, inl (refl, both))
  | inl good ↦ elim (Bool-cases (validate_header_value_safe value)) [
    | inr bad ↦
        let both : (validate_header_name name && validate_header_value_safe value) ≡ false =
          rw (good, bad) refl in
        rw (good, bad) (refl, inl (refl, both))
    | inl safe ↦
        let plain : contains_control_chars value ≡ false =
          no_controls-contains value (safe_part safe) in
        elim (Bool-cases (ltb (length r.headers) r.headers_capacity)) [
          | inl room ↦
              rw (good, safe, plain, room)
                (put_header-Sets name value good safe r r v (ground arith) refl (rw room refl))
          | inr full ↦ elim (Bool-cases (grown r.headers_capacity == r.headers_capacity)) [
            | inl largest ↦
                rw (good, safe, plain, full, largest) (refl, inr (refl, top full largest))
            | inr more ↦
                rw (good, safe, plain, full, more)
                  (put_header-Sets name value good safe r (wider r)
                    (record {
                      named = v.named;
                      low = ground (arith, v.low);
                      high = ground (arith, v.high);
                      fits = ground (arith, v.fits, v.low);
                      extra = λ h. refl;
                    })
                    (ground (arith, v.fits, v.low)) refl (rw full (ground (arith, v.low))))
          ]
        ]
  ]
]
  where
    wider : Response → Response
    wider r = record r { headers_capacity = grown r.headers_capacity; has_extra = true }

    safe_part : validate_header_value_safe value ≡ true → no_controls value ≡ true
    safe_part h =
        unfold validate_header_value_safe in
        (&&-true (leb (length value) 4096) (no_controls value) h).1

    top :
        ltb (length r.headers) r.headers_capacity ≡ false
        → (grown r.headers_capacity == r.headers_capacity) ≡ true
        → length r.headers ≡ 64
    top full largest = ground (arith, v.fits, v.low, v.high)
