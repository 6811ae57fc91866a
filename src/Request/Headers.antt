-- ===== src/Request/Headers.antt =====
-- The headers that src/uvhttp_request.c stores, and the search for one.
use uvhttp.Prelude.{
  if◌then◌else◌, ℕ, ◌≤◌, ◌<◌, Bool, true, false, List, [], ◌∷◌, ◌++◌, some, ◌≡◌, refl, ap, sym, inl,
  inr, ltb, leb, ◌==◌, length, length-append, take, take_all, arith, Bool-cases, caseeq,
}
use uvhttp.Error.{buffer_too_small, Result, ok, err}
use uvhttp.Response.{Header, grown, max_headers}
use uvhttp.Request.{
  Request, request_init, has_slot, place_header, request_add_header, request_headers, find_header,
}

-- There is memory for as many headers as the capacity says, 32 to 64.
pub record IsStored (r : Request) : Type 0 where
  pub low : 32 ≤ r.headers_capacity
  pub high : r.headers_capacity ≤ max_headers
  pub fits : length r.headers ≤ r.headers_capacity
  pub extra : 32 < r.headers_capacity → r.has_extra ≡ true

pub request_init-IsStored : IsStored request_init
unfolding request_init
request_init-IsStored = record {
  low = omega arith;
  high = omega arith;
  fits = omega arith;
  extra = λ h. absurd (omega arith);
}

-- All headers can be read back.
pub request_headers_all : (r : Request) → IsStored r → request_headers r ≡ r.headers
request_headers_all r v = elim (Bool-cases r.has_extra) [
  | inl more ↦ rw more (take_all r.headers_capacity r.headers v.fits)
  | inr inline ↦
      rw (inline, take_all 32 r.headers (small inline))
        (take_all r.headers_capacity r.headers v.fits)
]
  where
    small : r.has_extra ≡ false → length r.headers ≤ 32
    small inline = elim (Bool-cases (ltb 32 r.headers_capacity)) [
      | inl wide ↦ let more : r.has_extra ≡ true = v.extra (ground arith) in absurd (cc)
      | inr narrow ↦ ground (arith, v.fits)
    ]

-- What adding a header does: it comes last, cut to the sizes of its fields, or there are 64.
abbrev pub Adds : Request → List ℕ → List ℕ → Request × Result (Unit {0}) → Type 0
Adds r name value (r', ok _) =
    IsStored r'
    × (r'.headers ≡ r.headers ++ record { name = take 255 name; value = take 2047 value } ∷ [])
    × (r'.body ≡ r.body)
    × (r'.body_capacity ≡ r.body_capacity)
    × (r'.url ≡ r.url)
    × (length r.headers < max_headers)
Adds r name value (r', err e) = (r' ≡ r) × (e ≡ buffer_too_small) × (length r.headers ≡ max_headers)

has_slot_room :
    (r : Request)
    → IsStored r
    → length r.headers < r.headers_capacity
    → has_slot r (length r.headers) ≡ true
unfolding has_slot
has_slot_room r v room =
    let inside : ltb (length r.headers) r.headers_capacity ≡ true = ground arith in
    elim (Bool-cases (ltb (length r.headers) 32)) [
      | inl inline ↦ rw (inside, inline) refl
      | inr beyond ↦
          let more : r.has_extra ≡ true = v.extra (ground arith) in rw (inside, more, beyond) refl
    ]

place_header-Adds :
    (base r : Request) (name value : List ℕ)
    → IsStored r
    → length r.headers < r.headers_capacity
    → base.headers ≡ r.headers
    → base.body ≡ r.body
    → base.body_capacity ≡ r.body_capacity
    → base.url ≡ r.url
    → Adds base name value (place_header r name value)
place_header-Adds base r name value v room same body capacity url =
    let memory : has_slot r (length r.headers) ≡ true = has_slot_room r v room in
    rw memory (
      record {
        low = v.low;
        high = v.high;
        fits = omega (
          arith,
          length-append r.headers (record { name = take 255 name; value = take 2047 value } ∷ []),
        );
        extra = v.extra;
      },
      ap (λ (hs : List Header). hs ++ record { name = take 255 name; value = take 2047 value } ∷ [])
          (sym same),
      sym body,
      sym capacity,
      sym url,
      omega (arith, v.high, ap length same),
    )

-- Adding a header to a well-formed request, on every branch: it comes last, its name cut to 255 bytes
-- and its value to 2047, and the request stays well formed; or the request already has 64 headers
-- and nothing changes.
pub request_add_header-Adds :
    (r : Request) (name value : List ℕ)
    → IsStored r
    → Adds r name value (request_add_header r name value)
unfolding request_add_header
request_add_header-Adds r name value v =
    elim (Bool-cases (ltb (length r.headers) r.headers_capacity)) [
      | inl room ↦ rw room (place_header-Adds r r name value v (ground arith) refl refl refl refl)
      | inr full ↦ elim (Bool-cases (grown r.headers_capacity == r.headers_capacity)) [
        | inl largest ↦ rw (full, largest) (refl, refl, ground (arith, v.fits, v.low, v.high))
        | inr more ↦
            rw (full, more)
              (place_header-Adds r
                (record r { headers_capacity = grown r.headers_capacity; has_extra = true }) name
                value
                (record {
                  low = ground (arith, v.low);
                  high = ground (arith, v.high);
                  fits = ground (arith, v.fits, v.low);
                  extra = λ h. refl;
                })
                (ground (arith, v.fits, v.low)) refl refl refl refl)
      ]
    ]

-- Does no header have a name, whatever the case of its letters?
unfoldable pub lacks : List ℕ → List Header → Bool
lacks name [] = true
lacks name (h ∷ hs) = let later = lacks name hs in if caseeq h.name name then false else later

pub find_header-new :
    (name : List ℕ) (hs : List Header) (h : Header) (later : List Header)
    → lacks name hs ≡ true
    → caseeq h.name name ≡ true
    → length h.value ≤ 4095
    → find_header name (hs ++ h ∷ later) ≡ some h.value
unfolding find_header lacks
find_header-new name [] h later l same short =
    let fits : leb (length h.value) 4095 ≡ true = ground arith in rw (same, fits) refl
find_header-new name (x ∷ hs) h later l same short = elim (Bool-cases (caseeq x.name name)) [
  | inl here ↦ absurd (let no : false ≡ true = rw here at l in cc)
  | inr other ↦ rw other (find_header-new name hs h later (rw other at l) same short)
]
