-- ===== src/RouterCache/Table/Resize.antt =====
-- `hash_table_resize` of src/uvhttp_router_cache.c: it succeeds where the entries have room, and
-- keeps all of them.
use uvhttp.Prelude.{
  ℕ, ◌+◌, ◌*◌, ◌≤◌, ◌<◌, true, false, List, [], ◌∷◌, ◌∙◌, Option, none, some, ◌≡◌, refl, ap, sym,
  ◌⊎◌, inl, inr, ◌↔◌, ◌==◌, ltb, leb, length, set, replicate, arith, Bool-cases, length-set,
  length-replicate, min,
}
use mathlib.Core.Bool.{false≢true}
use native.Mathlib.Nat.{mod-lt}
use uvhttp.Error.{ok}
use uvhttp.Router.Method.{Method}
use uvhttp.Router.Array.{Handler}
use uvhttp.RouterCache.Probe.{probes, In-probes, probes-lt, All-In}
use uvhttp.RouterCache.Table.{
  HashEntry, HashTable, zero_entry, is_blank, is_free, home, load, max_size, next_free, rehash,
  hash_table_resize, grow,
}
use uvhttp.RouterCache.Table.Slots.{next_free-some, Reaches}
use uvhttp.RouterCache.Table.Placed.{
  Route, used, Has, free-some, used-le-length, used-replicate, free-replicate, used-set, Has-cons,
  Has-set, Placed, Placed-replicate, Placed-set,
}

module _ (xxh64 : List ℕ → ℕ) where
  -- The table is well formed: its entries stand where a search looks for them, it knows how many
  -- there are, the threshold is three quarters of its size, every route has a handler, and a path and
  -- a method have one route at most.
  pub record IsTable (t : HashTable) : Type 0 where
    pub sized : 0 < length t.entries
    pub small : length t.entries ≤ max_size
    pub counted : t.count ≡ used t.entries
    pub loaded : t.threshold ≡ load (length t.entries)
    pub placed : Placed xxh64 t.entries
    pub handled : (p : List ℕ) (m : Method) → ¬ Has t.entries (p, m, none)
    pub once :
        (p : List ℕ) (m : Method) (h k : Option Handler)
        → Has t.entries (p, m, h)
        → Has t.entries (p, m, k)
        → h ≡ k

  -- What moving entries makes of a table.
  abbrev Moved : List HashEntry → List HashEntry → List HashEntry → Type 0
  Moved es olds es' =
      (length es' ≡ length es)
      × (used es' ≡ used es + used olds)
      × Placed xxh64 es'
      × ((r : Route) → Has es' r ↔ (Has es r ⊎ Has olds r))

  Has-nil : (r : Route) → ¬ Has [] r
  Has-nil r (j, h, _, _) = absurd (omega arith)

  -- Where a slot is free, a probe comes to one.
  place :
      (es : List HashEntry) (path : List ℕ)
      → used es < length es
      → (i : ℕ) × (next_free es (probes (length es) (home xxh64 (length es) path)) ≡ some i)
        × (i < length es)
        × (is_free es i ≡ true)
        × Reaches es (probes (length es) (home xxh64 (length es) path)) i
  place es path room =
      let inside : home xxh64 (length es) path < length es = mod-lt _ (omega arith) in
      let is = probes (length es) (home xxh64 (length es) path) in
      let (j, j_in, j_free) = free-some es room in
      let (i, found, i_in, free, reach) =
        next_free-some es is j (In-probes (length es) _ inside j j_in) j_free in
      (
        i,
        found,
        All-In (λ k. k < length es) is i (probes-lt (length es) _ inside) i_in,
        free,
        reach,
      )

  Moved-skip :
      (es olds es' : List HashEntry) (e : HashEntry)
      → is_blank e.path ≡ true
      → Moved es olds es'
      → Moved es (e ∷ olds) es'
  Moved-skip es olds es' e blank (len, uses, p, has) = (len, ground arith, p, λ r. (into r, back r))
    where
      into : (r : Route) → Has es' r → Has es r ⊎ Has (e ∷ olds) r
      into r h = elim ((has r).0 h) [ inl x ↦ inl x | inr x ↦ inr ((Has-cons e olds r).1 (inr x)) ]

      back : (r : Route) → Has es r ⊎ Has (e ∷ olds) r → Has es' r
      back r (inl y) = (has r).1 (inl y)
      back r (inr y) = elim ((Has-cons e olds r).0 y) [
        | inl (busy, _) ↦ absurd cc
        | inr z ↦ (has r).1 (inr z)
      ]

  Moved-set :
      (es olds es' : List HashEntry) (e : HashEntry) (i : ℕ)
      → i < length es
      → is_free es i ≡ true
      → is_blank e.path ≡ false
      → Moved (set es i e) olds es'
      → Moved es (e ∷ olds) es'
  Moved-set es olds es' e i i_lt free busy (len, uses, p, has) =
      (len ∙ length-set es i e, ground (arith, used-set es i e), p, λ r. (into r, back r))
    where
      into : (r : Route) → Has es' r → Has es r ⊎ Has (e ∷ olds) r
      into r h = elim ((has r).0 h) [
        | inl x ↦ elim ((Has-set es i e i_lt free busy r).0 x) [
          | inl same ↦ inr ((Has-cons e olds r).1 (inl (busy, same)))
          | inr y ↦ inl y
        ]
        | inr x ↦ inr ((Has-cons e olds r).1 (inr x))
      ]

      back : (r : Route) → Has es r ⊎ Has (e ∷ olds) r → Has es' r
      back r (inl y) = (has r).1 (inl ((Has-set es i e i_lt free busy r).1 (inr y)))
      back r (inr y) = elim ((Has-cons e olds r).0 y) [
        | inl (_, same) ↦ (has r).1 (inl ((Has-set es i e i_lt free busy r).1 (inl same)))
        | inr z ↦ (has r).1 (inr z)
      ]

  rehash-Moved :
      (olds es : List HashEntry)
      → Placed xxh64 es
      → used es + used olds < length es
      → (es' : List HashEntry) × (rehash xxh64 es olds ≡ some es') × Moved es olds es'
  unfolding rehash
  rehash-Moved [] es placed room = (
    es,
    refl,
    (
      refl,
      omega arith,
      placed,
      λ r. (inl, λ x. elim x [ inl h ↦ h | inr h ↦ absurd (Has-nil r h) ]),
    ),
  )
  rehash-Moved (e ∷ olds) es placed room = elim (Bool-cases (is_blank e.path)) [
    | inl blank ↦
        let (es', run, moved) = rehash-Moved olds es placed (ground arith) in
        (es', rw blank run, Moved-skip es olds es' e blank moved)
    | inr busy ↦
        let (i, found, i_lt, free, reach) = place es e.path (ground arith) in
        let (es', run, moved) =
          rehash-Moved olds (set es i e) (Placed-set xxh64 es i e i_lt free busy reach placed)
            (ground (arith, used-set es i e, length-set es i e)) in
        (es', rw (busy, found) run, Moved-set es olds es' e i i_lt free busy moved)
  ]

  Has-replicate : (n : ℕ) (r : Route) → ¬ Has (replicate n zero_entry) r
  Has-replicate n r (j, _, u, _) = absurd (false≢true (sym u ∙ free-replicate n j))

  -- A resize to a size that has room for the entries, and is not above the largest, succeeds: the
  -- new table has that size, is well formed, and holds the same routes.
  pub hash_table_resize-keeps :
      (t : HashTable) (size : ℕ)
      → IsTable t
      → used t.entries < size
      → size ≤ max_size
      → (t' : HashTable) × (hash_table_resize xxh64 t size ≡ ok t')
        × (length t'.entries ≡ size)
        × (t'.count ≡ t.count)
        × IsTable t'
        × ((r : Route) → Has t'.entries r ↔ Has t.entries r)
  unfolding hash_table_resize
  hash_table_resize-keeps t size valid room small =
      let (es, run, (len, uses, p, has)) =
        rehash-Moved t.entries (replicate size zero_entry) (Placed-replicate xxh64 size)
          (omega (arith, used-replicate size, length-replicate size zero_entry)) in
      let width : length es ≡ size = len ∙ length-replicate size zero_entry in
      let old : (r : Route) → Has es r → Has t.entries r =
        λ r h. elim ((has r).0 h) [ inl x ↦ absurd (Has-replicate size r x) | inr x ↦ x ] in
      let positive : (size == 0) ≡ false = ground arith in
      let within : ltb max_size size ≡ false = ground arith in
      (
        record t { entries = es; threshold = load size },
        rw (positive, within, run) refl,
        width,
        refl,
        record {
          sized = omega arith;
          small = omega arith;
          counted = omega (arith, used-replicate size, valid.counted);
          loaded = ap load (sym width);
          placed = p;
          handled = λ q m x. valid.handled q m (old (q, m, none) x);
          once = λ q m h k x y. valid.once q m h k (old (q, m, h) x) (old (q, m, k) y);
        },
        λ r. (old r, λ h. (has r).1 (inr h)),
      )

  -- Making room never fails: the same routes, and a free slot unless there are 4096 routes.
  pub grow-keeps :
      (t : HashTable)
      → IsTable t
      → (t' : HashTable) × (grow xxh64 t ≡ ok t')
        × (t'.count ≡ t.count)
        × IsTable t'
        × ((r : Route) → Has t'.entries r ↔ Has t.entries r)
        × (used t.entries < max_size → used t'.entries < length t'.entries)
  unfolding grow
  grow-keeps t valid = elim (Bool-cases (leb t.threshold t.count)) [
    | inr roomy ↦ (t, rw roomy refl, refl, valid, λ r. (λ h. h, λ h. h), λ _. room roomy)
    | inl full ↦
        let larger = min (length t.entries * 2) max_size in
        elim (Bool-cases (ltb (length t.entries) larger)) [
          | inr largest ↦ (
            t,
            rw (full, largest) refl,
            refl,
            valid,
            λ r. (λ h. h, λ h. h),
            λ few. ground (arith, valid.small, valid.sized),
          )
          | inl more ↦
              let (t', run, len, same, valid', has) =
                hash_table_resize-keeps t larger valid (ground (arith, used-le-length t.entries))
                  (omega arith) in
              (
                t',
                rw (full, more) run,
                same,
                valid',
                has,
                λ few. ground (arith, used-le-length t.entries, valid.counted, valid'.counted),
              )
        ]
  ]
    where
      room : leb t.threshold t.count ≡ false → used t.entries < length t.entries
      room roomy = ground (arith, valid.counted, valid.loaded)
