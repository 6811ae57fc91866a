-- ===== src/RouterCache/Table/Placed.antt =====
-- Where the entries of the table of src/uvhttp_router_cache.c stand, how many there are, and which
-- routes they hold; what a write to a free slot does to each.
use mathlib.Core.Bool.{false≢true}
use uvhttp.Prelude.{
  ℕ, zero, suc, ◌≤◌, ◌<◌, true, false, List, [], ◌∷◌, ◌∙◌, Option, ◌≡◌, refl, ap, sym, subst, ◌≢◌,
  ◌⊎◌, inl, inr, ◌↔◌, if◌then◌else◌, length, set, replicate, arith, Bool-cases, length-set,
  get_or-set_self, get_or-set_ne,
}
use native.Mathlib.Decide.{ℕ_discrete}
use uvhttp.Router.Method.{Method}
use uvhttp.Router.Array.{Handler}
use uvhttp.RouterCache.Probe.{probes}
use uvhttp.RouterCache.Table.{HashEntry, zero_entry, entry_at, is_blank, is_free, home}
use uvhttp.RouterCache.Table.Slots.{Reaches, Reaches-mono, Covers}

abbrev pub Route : Type 0
Route = List ℕ × Method × Option Handler

abbrev pub route_of : HashEntry → Route
route_of e = (e.path, e.method, e.handler)

-- The number of slots in use.
abbrev pub used : List HashEntry → ℕ
used [] = 0
used (e ∷ es) = if is_blank e.path then used es else suc (used es)

-- A table holds a route.
abbrev pub Has : List HashEntry → Route → Type 0
Has es r = (j : ℕ) × (j < length es) × (is_free es j ≡ false) × (route_of (entry_at es j) ≡ r)

pub free-some :
    (es : List HashEntry) → used es < length es → (j : ℕ) × (j < length es) × (is_free es j ≡ true)
free-some [] h = absurd (omega arith)
free-some (e ∷ es) h = elim (Bool-cases (is_blank e.path)) [
  | inl free ↦ (0, omega arith, free)
  | inr busy ↦ let (j, inside, f) = free-some es (ground arith) in (suc j, omega arith, f)
]

pub used-le-length : (es : List HashEntry) → used es ≤ length es
used-le-length [] = omega arith
used-le-length (e ∷ es) = ground (arith, used-le-length es)

pub used-replicate : (n : ℕ) → used (replicate n zero_entry) ≡ 0
used-replicate zero = refl
used-replicate (suc n) = used-replicate n

pub free-replicate : (n j : ℕ) → is_free (replicate n zero_entry) j ≡ true
free-replicate zero j = refl
free-replicate (suc n) zero = refl
free-replicate (suc n) (suc j) = free-replicate n j

pub used-set :
    (es : List HashEntry) (i : ℕ) (e : HashEntry)
    → i < length es
    → is_free es i ≡ true
    → is_blank e.path ≡ false
    → used (set es i e) ≡ suc (used es)
used-set [] i e h free busy = absurd (omega arith)
used-set (x ∷ es) zero e h free busy = rw (free, busy) refl
used-set (x ∷ es) (suc i) e h free busy = ground (arith, used-set es i e)

pub Has-cons :
    (e : HashEntry) (es : List HashEntry) (r : Route)
    → Has (e ∷ es) r ↔ (((is_blank e.path ≡ false) × (route_of e ≡ r)) ⊎ Has es r)
Has-cons e es r = (into, back)
  where
    into : Has (e ∷ es) r → ((is_blank e.path ≡ false) × (route_of e ≡ r)) ⊎ Has es r
    into (zero, h, busy, same) = inl (busy, same)
    into (suc j, h, busy, same) = inr (j, omega arith, busy, same)

    back : ((is_blank e.path ≡ false) × (route_of e ≡ r)) ⊎ Has es r → Has (e ∷ es) r
    back (inl (busy, same)) = (0, omega arith, busy, same)
    back (inr (j, h, busy, same)) = (suc j, omega arith, busy, same)

module _ (es : List HashEntry) (i : ℕ) (e : HashEntry) (inside : i < length es) where
  at_self : entry_at (set es i e) i ≡ e
  at_self = get_or-set_self es i e zero_entry inside

  at-ne : (j : ℕ) → i ≢ j → entry_at (set es i e) j ≡ entry_at es j
  at-ne j ne = get_or-set_ne es i j e zero_entry ne

  module _ (free : is_free es i ≡ true) (busy : is_blank e.path ≡ false) where
    used-ne : (j : ℕ) → is_free es j ≡ false → i ≢ j
    used-ne j u same = false≢true (sym (subst (λ k. is_free es k ≡ false) (sym same) u) ∙ free)

    pub Covers-set : Covers es (set es i e)
    Covers-set j u = rw (at-ne j (used-ne j u)) u

    -- The routes are those of before, and the new one.
    pub Has-set : (r : Route) → Has (set es i e) r ↔ ((route_of e ≡ r) ⊎ Has es r)
    Has-set r = (into, back)
      where
        into : Has (set es i e) r → (route_of e ≡ r) ⊎ Has es r
        into (j, h, u, same) = elim (ℕ_discrete i j) [
          | yes here ↦ inl (ap route_of (sym at_self ∙ ap (entry_at (set es i e)) here) ∙ same)
          | no ne ↦ inr (
            j,
            omega (arith, length-set es i e),
            rw (← at-ne j ne) u,
            ap route_of (sym (at-ne j ne)) ∙ same,
          )
        ]

        back : (route_of e ≡ r) ⊎ Has es r → Has (set es i e) r
        back (inl same) =
            (i, omega (arith, length-set es i e), rw at_self busy, ap route_of at_self ∙ same)
        back (inr (j, h, u, same)) = (
          j,
          omega (arith, length-set es i e),
          Covers-set j u,
          ap route_of (at-ne j (used-ne j u)) ∙ same,
        )

module _ (xxh64 : List ℕ → ℕ) where
  -- The probe for the path of an entry comes to the slot of the entry before it meets a free one.
  abbrev pub Placed : List HashEntry → Type 0
  Placed es =
      (j : ℕ)
      → j < length es
      → is_free es j ≡ false
      → Reaches es (probes (length es) (home xxh64 (length es) (entry_at es j).path)) j

  pub Placed-replicate : (n : ℕ) → Placed (replicate n zero_entry)
  Placed-replicate n j h u = absurd (false≢true (sym u ∙ free-replicate n j))

  pub Placed-set :
      (es : List HashEntry) (i : ℕ) (e : HashEntry)
      → i < length es
      → is_free es i ≡ true
      → is_blank e.path ≡ false
      → Reaches es (probes (length es) (home xxh64 (length es) e.path)) i
      → Placed es
      → Placed (set es i e)
  Placed-set es i e inside free busy reach placed j h u =
      rw (length-set es i e) (elim (ℕ_discrete i j) [
        | yes here ↦
            subst
              (λ k.
                Reaches (set es i e)
                  (probes (length es) (home xxh64 (length es) (entry_at (set es i e) k).path)) k)
              here
              (rw (at_self es i e inside)
                (Reaches-mono es (set es i e) _ i (Covers-set es i e inside free busy) reach))
        | no ne ↦ rw (at-ne es i e inside j ne) (
            Reaches-mono es (set es i e) _ j (Covers-set es i e inside free busy)
              (placed j (omega (arith, length-set es i e)) (rw (← at-ne es i e inside j ne) u)))
      ])
