-- ===== src/Request/Body.antt =====
-- The body of a request, as it arrives in pieces: `on_body` of src/uvhttp_request.c.
use uvhttp.Prelude.{
  ℕ, ◌+◌, ◌*◌, ◌≤◌, ◌<◌, List, [], ◌∷◌, ◌++◌, append_assoc, append-nil, Option, none, some, ◌≡◌,
  refl, ap, sym, ◌∙◌, inl, inr, ltb, leb, length, length-append, arith, Bool-cases,
}
use uvhttp.Response.{max_body_size}
use uvhttp.Request.{Request, Parsing, grown_body, on_body}

-- The pieces of a body, handed over one after another.
unfoldable pub feed_body : Parsing → List (List ℕ) → Option Parsing
feed_body c [] = some c
feed_body c (at ∷ later) = elim (on_body c at) [ none ↦ none | some c' ↦ feed_body c' later ]

abbrev pub concat : List (List ℕ) → List ℕ
concat [] = []
concat (at ∷ later) = at ++ concat later

-- The buffer holds the body, and is no larger than the largest body; it has its first size or less
-- than twice what its body needed.
pub record IsBody (r : Request) : Type 0 where
  pub held : length r.body ≤ r.body_capacity
  pub bounded : r.body_capacity ≤ max_body_size
  pub positive : 1 ≤ r.body_capacity

-- The request and the state behind a piece: the bytes are appended in a buffer that holds them.
pub record Appends (c c' : Parsing) (at : List ℕ) : Type 0 where
  pub appended : c'.request.body ≡ c.request.body ++ at
  pub well_formed : IsBody c'.request
  pub kept : c'.request.headers ≡ c.request.headers

-- On every branch: a piece that is refused does not fit, and the buffer, doubled or as large as is
-- needed, would pass the limit.
abbrev pub Takes : Parsing → List ℕ → Option Parsing → Type 0
Takes c at none =
    (c.request.body_capacity < length c.request.body + length at)
    × (max_body_size < grown_body c.request.body_capacity (length c.request.body + length at))
Takes c at (some c') = Appends c c' at

on_body-Takes : (c : Parsing) (at : List ℕ) → IsBody c.request → Takes c at (on_body c at)
unfolding on_body
on_body-Takes c at v =
    let need = length c.request.body + length at in
    elim (Bool-cases (leb need c.request.body_capacity)) [
      | inl room ↦ rw room (record {
        appended = refl;
        well_formed = record {
          held = ground (arith, length-append c.request.body at);
          bounded = v.bounded;
          positive = v.positive;
        };
        kept = refl;
      })
      | inr full ↦ elim (Bool-cases (ltb max_body_size (grown_body c.request.body_capacity need))) [
        | inl large ↦ rw (full, large) (ground arith, ground arith)
        | inr small ↦
            rw (full, small)
              (record {
                appended = refl;
                well_formed = record {
                  held = ground (arith, length-append c.request.body at);
                  bounded = ground arith;
                  positive = ground (arith, v.positive);
                };
                kept = refl;
              })
      ]
    ]

-- What handing over the pieces of a body gives: all of them in their order, in a buffer of at most
-- 1 MB that holds them; a refusal only where the body would be longer than half of that.
abbrev pub Collects : Parsing → List (List ℕ) → Option Parsing → Type 0
Collects c pieces none = max_body_size < 2 * (length c.request.body + length (concat pieces))
Collects c pieces (some c') =
    (c'.request.body ≡ c.request.body ++ concat pieces)
    × IsBody c'.request
    × (c'.request.headers ≡ c.request.headers)

-- The pieces of a body handed over one after another to a request with a well-formed buffer: the
-- body is what it was with all the pieces in their order behind it, in a buffer that holds it and
-- is at most 1 MB, and the headers stay; a piece is refused only where the whole body would have
-- more than 512 KB.
pub feed_body-Collects :
    (c : Parsing) (pieces : List (List ℕ))
    → IsBody c.request
    → Collects c pieces (feed_body c pieces)
unfolding feed_body
feed_body-Collects c [] v = (sym (append-nil c.request.body), v, refl)
feed_body-Collects c (at ∷ later) v =
    go (on_body c at) (on_body-Takes c at v) (λ c' w. feed_body-Collects c' later w)
  where
    rest :
        (c' : Parsing) (o : Option Parsing)
        → Appends c c' at
        → Collects c' later o
        → Collects c (at ∷ later) o
    rest c' none a large = omega (
      arith,
      ap length a.appended,
      length-append c.request.body at,
      length-append at (concat later),
    )
    rest c' (some d) a (body, w, headers) = (
      body ∙ ap (λ b. b ++ concat later) a.appended ∙ append_assoc c.request.body at (concat later),
      w,
      headers ∙ a.kept,
    )

    go :
        (o : Option Parsing)
        → Takes c at o
        → ((c' : Parsing) → IsBody c'.request → Collects c' later (feed_body c' later))
        → Collects c (at ∷ later) (elim o [ none ↦ none | some c' ↦ feed_body c' later ])
    go none (full, large) ih = ground (arith, length-append at (concat later))
    go (some c') a ih = rest c' (feed_body c' later) a (ih c' a.well_formed)
