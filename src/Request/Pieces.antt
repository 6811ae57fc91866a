-- ===== src/Request/Pieces.antt =====
-- What the functions that the parser calls in src/uvhttp_request.c make of what arrives in two
-- pieces.
use uvhttp.Prelude.{
  ℕ, Bool, true, false, List, [], Option, none, some, ◌≡◌, refl, ap, sym, subst, inl, inr, leb,
  ◌==◌, length, take, Bool-cases, if◌then◌else◌,
}
use uvhttp.Error.{Result, ok, err}
use uvhttp.Request.{
  Request, Parsing, request_add_header, on_url, on_header_field, on_header_value, after_header,
  max_url_len,
}

if-some :
    (b : Bool) (d x : Parsing)
    → ◌≡◌ {A = Option Parsing} (if b then none else some d) (some x)
    → d ≡ x
if-some true d x e = absurd cc
if-some false d x e = cc

after_header-empties :
    (c c' : Parsing) (out : Request × Result (Unit {0}))
    → after_header c out ≡ some c'
    → c'.current_header_field ≡ []
after_header-empties c c' (r, err e) made = absurd cc
after_header-empties c c' (r, ok _) made =
    let same : record c { request = r; current_header_field = []; parsing_header_field = false }
        ≡ c' =
      cc in
    ap (λ (x : Parsing). x.current_header_field) (sym same)

on_header_value-empties :
    (c c' : Parsing) (a : List ℕ) → on_header_value c a ≡ some c' → c'.current_header_field ≡ []
unfolding on_header_value
on_header_value-empties c c' a made =
    go (leb 4096 (length a)) (length c.current_header_field == 0)
      (request_add_header c.request (take 255 c.current_header_field) (take 4095 a)) made
  where
    go :
        (long nameless : Bool) (out : Request × Result (Unit {0}))
        → ◌≡◌ {A = Option Parsing}
            (if long then none else if nameless then none else after_header c out)
            (some c')
        → c'.current_header_field ≡ []
    go true nameless out e = absurd cc
    go false true out e = absurd cc
    go false false out e = after_header-empties c c' out e

on_header_value-nameless :
    (c : Parsing) (b : List ℕ) → c.current_header_field ≡ [] → on_header_value c b ≡ none
unfolding on_header_value
on_header_value-nameless c b e = elim (Bool-cases (leb 4096 (length b))) [
  | inl long ↦ rw long refl
  | inr short ↦
      let nameless : (length c.current_header_field == 0) ≡ true = rw e refl in
      rw (short, nameless) refl
]

-- Where the parser hands over something in two pieces, as it does when it arrives in two reads: of
-- an URL or a header's name whose first piece has been taken, only the second piece counts, and the
-- second piece of a value is refused.
pub second_piece_lem :
    (c c' : Parsing) (a b : List ℕ)
    → (on_url c a ≡ some c' → on_url c' b ≡ on_url c b)
      × (on_header_field c a ≡ some c' → on_header_field c' b ≡ on_header_field c b)
      × (on_header_value c a ≡ some c' → on_header_value c' b ≡ none)
unfolding on_url on_header_field
second_piece_lem c c' a b = (
  λ e. subst (λ x. on_url x b ≡ on_url c b) (if-some (leb max_url_len (length a)) _ c' e) refl,
  λ e.
      subst (λ x. on_header_field x b ≡ on_header_field c b) (if-some (leb 256 (length a)) _ c' e)
        refl,
  λ e. on_header_value-nameless c' b (on_header_value-empties c c' a e),
)
