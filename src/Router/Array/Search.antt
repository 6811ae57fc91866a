-- ===== src/Router/Array/Search.antt =====
-- What a search in the array of routes finds.
use uvhttp.Prelude.{
  ℕ, true, ◌&&◌, List, [], ◌∷◌, ◌++◌, none, some, ◌≡◌, refl, ◌⊎◌, inl, inr, ◌↔◌, streq, eq_of_streq,
  streq_refl, Bool-cases, arith, &&-true, subst, sym,
}
use mathlib.Core.Option.{some-injective}
use uvhttp.Router.Method.{Method, any, method_eq}
use uvhttp.Router.Array.{Handler, ArrayRoute, allows, is_hit, find_array_route}

pub eq_of_method_eq : (m n : Method) → method_eq m n ≡ true → m ≡ n
eq_of_method_eq m n e = ground arith

pub method_eq_refl : (m : Method) → method_eq m m ≡ true
method_eq_refl m = ground arith

-- A route serves a request: registered for its path, and for its method or for any.
abbrev pub Serves : ArrayRoute → List ℕ → Method → Type 0
Serves route path method = ((route.method ≡ method) ⊎ (route.method ≡ any)) × (route.path ≡ path)

Serves-of_is_hit :
    (route : ArrayRoute) (path : List ℕ) (method : Method)
    → is_hit route path method ≡ true
    → Serves route path method
Serves-of_is_hit route path method e =
    let (allowed, same) = &&-true (allows route.method method) (streq route.path path) e in
    (
      ground (arith, eq_of_method_eq route.method method, eq_of_method_eq route.method any),
      eq_of_streq route.path path same,
    )

is_hit_of_Serves :
    (route : ArrayRoute) (path : List ℕ) (method : Method)
    → Serves route path method
    → is_hit route path method ≡ true
is_hit_of_Serves route path method (inl m, p) =
    subst (λ x. (allows x method && streq route.path path) ≡ true) (sym m)
      (subst (λ x. (allows method method && streq x path) ≡ true) (sym p)
        (rw (method_eq_refl method) (streq_refl path)))
is_hit_of_Serves route path method (inr m, p) =
    subst (λ x. (allows x method && streq route.path path) ≡ true) (sym m)
      (subst (λ x. (allows any method && streq x path) ≡ true) (sym p)
        (ground (arith, streq_refl path)))

-- The first route of a list that serves a request.
pub data IsFirst (path : List ℕ) (method : Method) (h : Handler) : List ArrayRoute → Type 0 where
  here :
      {route : ArrayRoute} {routes : List ArrayRoute}
      → Serves route path method
      → route.handler ≡ h
      → IsFirst path method h (route ∷ routes)
  later :
      {route : ArrayRoute} {routes : List ArrayRoute}
      → ¬ Serves route path method
      → IsFirst path method h routes
      → IsFirst path method h (route ∷ routes)

module _ (path : List ℕ) (method : Method) (h : Handler) where
  IsFirst-of_find :
      (routes : List ArrayRoute)
      → find_array_route routes path method ≡ some h
      → IsFirst path method h routes
  unfolding find_array_route
  IsFirst-of_find [] e = cc
  IsFirst-of_find (route ∷ routes) e = elim (Bool-cases (is_hit route path method)) [
    | inl hit ↦ here (Serves-of_is_hit route path method hit) (some-injective _ _ (rw hit at e))
    | inr miss ↦
        later (λ s. ground (arith, is_hit_of_Serves route path method s))
          (IsFirst-of_find routes (rw miss at e))
  ]

  find_of_IsFirst :
      (routes : List ArrayRoute)
      → IsFirst path method h routes
      → find_array_route routes path method ≡ some h
  unfolding find_array_route
  find_of_IsFirst [] f = elim f [ ]
  find_of_IsFirst (route ∷ routes) (here s e) = rw (is_hit_of_Serves route path method s, e)
  find_of_IsFirst (route ∷ routes) (later n f) = elim (Bool-cases (is_hit route path method)) [
    | inl hit ↦ absurd (n (Serves-of_is_hit route path method hit))
    | inr miss ↦ rw miss (find_of_IsFirst routes f)
  ]

  -- A search in the array finds a handler exactly where it is that of the first route, in the order
  -- of registration, whose path is the path searched for and whose method is the method or ANY.
  pub find_array_route-eq-some_iff :
      (routes : List ArrayRoute)
      → (find_array_route routes path method ≡ some h) ↔ IsFirst path method h routes
  find_array_route-eq-some_iff routes = (IsFirst-of_find routes, find_of_IsFirst routes)

-- What comes behind a route list is searched where the list itself has no hit.
pub find_array_route-append :
    (routes more : List ArrayRoute) (path : List ℕ) (method : Method)
    → find_array_route (routes ++ more) path method ≡ (elim (find_array_route routes path method) [
      | none ↦ find_array_route more path method
      | some h ↦ some h
    ])
unfolding find_array_route
find_array_route-append [] more path method = refl
find_array_route-append (route ∷ routes) more path method =
    ground (arith, find_array_route-append routes more path method)
