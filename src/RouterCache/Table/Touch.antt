-- ===== src/RouterCache/Table/Touch.antt =====
-- The counter of accesses that a search of src/uvhttp_router_cache.c writes leaves the routes alone.
use uvhttp.Prelude.{ℕ, zero, suc, List, [], ◌∷◌, ◌∙◌, ◌≡◌, refl, ap, sym, ◌↔◌, arith, length-set}
use uvhttp.RouterCache.Table.{HashEntry, entry_at, is_blank, is_free, touch, count_access}
use uvhttp.RouterCache.Table.Placed.{Route, route_of, used, Has}

-- Counting an access leaves the routes alone.
pub route_of-touch :
    (es : List HashEntry) (i j : ℕ) → route_of (entry_at (touch es i) j) ≡ route_of (entry_at es j)
route_of-touch [] i j = refl
route_of-touch (e ∷ es) zero zero = refl
route_of-touch (e ∷ es) zero (suc j) = refl
route_of-touch (e ∷ es) (suc i) zero = refl
route_of-touch (e ∷ es) (suc i) (suc j) = route_of-touch es i j

pub used-touch : (es : List HashEntry) (i : ℕ) → used (touch es i) ≡ used es
used-touch [] i = refl
used-touch (e ∷ es) zero = refl
used-touch (e ∷ es) (suc i) = rw (used-touch es i) refl

pub free-touch : (es : List HashEntry) (i j : ℕ) → is_free (touch es i) j ≡ is_free es j
free-touch es i j = ap (λ (r : Route). is_blank r.0) (route_of-touch es i j)

pub Has-touch : (es : List HashEntry) (i : ℕ) (r : Route) → Has (touch es i) r ↔ Has es r
Has-touch es i r = (
  λ (j, h, u, same). (
    j,
    omega (arith, length-set es i (touched es i)),
    sym (free-touch es i j) ∙ u,
    sym (route_of-touch es i j) ∙ same,
  ),
  λ (j, h, u, same). (
    j,
    omega (arith, length-set es i (touched es i)),
    free-touch es i j ∙ u,
    route_of-touch es i j ∙ same,
  ),
)
  where
    touched : List HashEntry → ℕ → HashEntry
    touched es i = record (entry_at es i) {
      access_count = count_access (entry_at es i).access_count;
    }
