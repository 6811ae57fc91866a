-- ===== src/Request/Parsed.antt =====
-- What the functions that the parser calls in src/uvhttp_request.c make of the headers of a request,
-- when each name and each value arrives in one piece.
use mathlib.Core.List.{map}
use uvhttp.Prelude.{
  ℕ, ◌+◌, ◌≤◌, ◌<◌, true, false, List, [], ◌∷◌, ◌++◌, append_assoc, append-nil, Option, none, some,
  ◌≡◌, refl, ap, sym, ◌∙◌, leb, ◌==◌, length, take, take_all, length-append, length-take, All,
  arith, caseeq,
}
use uvhttp.Error.{Result, ok, err}
use uvhttp.Response.{Header, max_headers}
use uvhttp.Request.{
  Request, Parsing, request_add_header, request_headers, request_get_header, find_header,
  valid_lookup, on_header_field, on_header_value, after_header,
}
use uvhttp.Request.Headers.{
  IsStored, request_headers_all, Adds, request_add_header-Adds, lacks, find_header-new,
}

-- A name and its value, in one piece each.
unfoldable pub feed_header : Parsing → List ℕ → List ℕ → Option Parsing
feed_header c name value = elim (on_header_field c name) [
  | none ↦ none
  | some c' ↦ on_header_value c' value
]

unfoldable pub feed_headers : Parsing → List (List ℕ × List ℕ) → Option Parsing
feed_headers c [] = some c
feed_headers c ((name, value) ∷ later) = elim (feed_header c name value) [
  | none ↦ none
  | some c' ↦ feed_headers c' later
]

-- Names of 1 to 255 bytes, and values below 4096.
abbrev pub IsSized : List ℕ × List ℕ → Type 0
IsSized (name, value) = (1 ≤ length name) × (length name < 256) × (length value < 4096)

abbrev pub stored_header : List ℕ × List ℕ → Header
stored_header (name, value) = record { name = name; value = take 2047 value }

-- A header has been added behind those of `c`.
pub record Added (c c' : Parsing) (pair : List ℕ × List ℕ) : Type 0 where
  pub well_formed : IsStored c'.request
  pub headers : c'.request.headers ≡ c.request.headers ++ stored_header pair ∷ []

take-shorter : (s : List ℕ) → length s < 4096 → take 2047 (take 4095 s) ≡ take 2047 s
take-shorter s h = ap (take 2047) (take_all 4095 s (omega arith))

abbrev named : Parsing → List ℕ → Parsing
named c name = record c { current_header_field = name; parsing_header_field = true }

abbrev added_request : Parsing → List ℕ → List ℕ → Request × Result (Unit {0})
added_request c name value = request_add_header c.request (take 255 name) (take 4095 value)

on_header_field-taken :
    (c : Parsing) (name : List ℕ) → length name < 256 → on_header_field c name ≡ some (named c name)
unfolding on_header_field
on_header_field-taken c name short =
    let a : leb 256 (length name) ≡ false = ground arith in rw a refl

on_header_value-taken :
    (c : Parsing) (name value : List ℕ)
    → IsSized (name, value)
    → on_header_value (named c name) value
      ≡ after_header (named c name) (added_request c name value)
unfolding on_header_value
on_header_value-taken c name value (there, short, sized) =
    let b : leb 4096 (length value) ≡ false = ground arith in
    let d : (length name == 0) ≡ false = ground arith in rw (b, d) refl

feed_header-Added :
    (c : Parsing) (name value : List ℕ)
    → IsStored c.request
    → IsSized (name, value)
    → length c.request.headers < 64
    → (c' : Parsing) × (feed_header c name value ≡ some c') × Added c c' (name, value)
unfolding feed_header
feed_header-Added c name value v (there, short, sized) room =
    let (c', e, k) =
      go (added_request c name value)
        (request_add_header-Adds c.request (take 255 name) (take 4095 value) v) in
    (
      c',
      ap (λ (o : Option Parsing). elim o [ none ↦ none | some d ↦ on_header_value d value ])
            (on_header_field-taken c name short)
          ∙ on_header_value-taken c name value (there, short, sized)
          ∙ e,
      k,
    )
  where
    cut :
        record { name = take 255 (take 255 name); value = take 2047 (take 4095 value) }
        ≡ stored_header (name, value)
    cut =
        rw
          (
            take_all 255 name (omega arith),
            take_all 255 name (omega arith),
            take-shorter value sized,
          )
          refl

    go :
        (out : Request × Result (Unit {0}))
        → Adds c.request (take 255 name) (take 4095 value) out
        → (c' : Parsing) × (after_header (named c name) out ≡ some c') × Added c c' (name, value)
    go (r, ok _) (stored, hs, _, _, _, _) = (
      _,
      refl,
      record { well_formed = stored; headers = hs ∙ ap (λ h. c.request.headers ++ h ∷ []) cut },
    )
    go (r, err e) (_, _, full) = absurd (omega arith)

-- What handing over headers gives: they stand behind those that were there, in their order.
pub record Collected (c : Parsing) (pairs : List (List ℕ × List ℕ)) : Type 0 where
  pub parsing : Parsing
  pub returns : feed_headers c pairs ≡ some parsing
  pub well_formed : IsStored parsing.request
  pub headers : parsing.request.headers ≡ c.request.headers ++ map stored_header pairs

-- Headers with names of 1 to 255 bytes and values below 4096, at most 64 with those that are there,
-- each name and value handed over in one piece: all of them are stored in their order, the values
-- cut to 2047 bytes, and the request stays well formed.
pub feed_headers-Collected :
    (c : Parsing) (pairs : List (List ℕ × List ℕ))
    → IsStored c.request
    → All IsSized pairs
    → length c.request.headers + length pairs ≤ max_headers
    → Collected c pairs
unfolding feed_headers
feed_headers-Collected c [] v sized room = record {
  parsing = c;
  returns = refl;
  well_formed = v;
  headers = sym (append-nil c.request.headers);
}
feed_headers-Collected c ((name, value) ∷ later) v (s, sized) room =
    let (c', e, added) = feed_header-Added c name value v s (omega arith) in
    let k = feed_headers-Collected c' later added.well_formed sized (
      omega (
        arith,
        ap length added.headers,
        length-append c.request.headers (stored_header (name, value) ∷ []),
      )) in
    record {
      parsing = k.parsing;
      returns =
          ap (λ (o : Option Parsing). elim o [ none ↦ none | some d ↦ feed_headers d later ]) e
          ∙ k.returns;
      well_formed = k.well_formed;
      headers =
          k.headers
          ∙ ap (λ hs. hs ++ map stored_header later) added.headers
          ∙ append_assoc c.request.headers (stored_header (name, value) ∷ [])
              (map stored_header later);
    }

short_enough : (s : List ℕ) → length (take 2047 s) ≤ 4095
short_enough s = omega (arith, length-take 2047 s)

map-append :
    (xs ys : List (List ℕ × List ℕ))
    → map stored_header (xs ++ ys) ≡ map stored_header xs ++ map stored_header ys
map-append [] ys = refl
map-append (x ∷ xs) ys = ap (◌∷◌ (stored_header x)) (map-append xs ys)

-- A header that has been handed over to a request without headers, among others, is found: looking up
-- a name gives the value, cut to 2047 bytes, of the first header with that name in any case of
-- letters.
pub request_get_header-feed_headers :
    (c : Parsing) (before : List (List ℕ × List ℕ)) (name value : List ℕ)
    (later : List (List ℕ × List ℕ)) (asked : List ℕ)
    → IsStored c.request
    → c.request.headers ≡ []
    → All IsSized (before ++ (name, value) ∷ later)
    → length (before ++ (name, value) ∷ later) ≤ max_headers
    → valid_lookup asked ≡ true
    → lacks asked (map stored_header before) ≡ true
    → caseeq name asked ≡ true
    → (c' : Parsing) × (feed_headers c (before ++ (name, value) ∷ later) ≡ some c')
      × (request_get_header c'.request asked ≡ some (take 2047 value))
unfolding request_get_header
request_get_header-feed_headers c before name value later asked v empty sized room valid first
      same =
    let k =
      feed_headers-Collected c (before ++ (name, value) ∷ later) v sized
        (omega (arith, ap length empty)) in
    let all : request_headers k.parsing.request
        ≡ map stored_header before ++ stored_header (name, value) ∷ map stored_header later =
      request_headers_all k.parsing.request k.well_formed
      ∙ k.headers
      ∙ ap (λ hs. hs ++ map stored_header (before ++ (name, value) ∷ later)) empty
      ∙ map-append before ((name, value) ∷ later) in
    (
      k.parsing,
      k.returns,
      rw (valid) (
          ap (find_header asked) all
          ∙ find_header-new asked (map stored_header before) (stored_header (name, value))
              (map stored_header later) first same (short_enough value)),
    )
