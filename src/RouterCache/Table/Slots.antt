-- ===== src/RouterCache/Table/Slots.antt =====
-- What the probes of src/uvhttp_router_cache.c find in the slots of a table.
use uvhttp.Prelude.{
  ℕ, true, false, ◌∙◌, List, [], ◌∷◌, none, some, ◌≡◌, refl, sym, subst, ◌⊎◌, inl, inr, arith,
  Bool-cases,
}
use mathlib.Core.Bool.{false≢true}
use uvhttp.Router.Method.{Method}
use uvhttp.RouterCache.Probe.{In}
use uvhttp.RouterCache.Table.{
  HashEntry, entry_at, is_free, is_same, is_exact, next_free, slot_in, exact_slot,
}

-- A probe comes to the slot `j` before it meets a free one.
abbrev pub Reaches : List HashEntry → List ℕ → ℕ → Type 0
Reaches es [] j = ⊥
Reaches es (i ∷ is) j = (i ≡ j) ⊎ ((is_free es i ≡ false) × Reaches es is j)

-- What is used in one table is used in another.
abbrev pub Covers : List HashEntry → List HashEntry → Type 0
Covers es es' = (i : ℕ) → is_free es i ≡ false → is_free es' i ≡ false

pub Reaches-mono :
    (es es' : List HashEntry) (is : List ℕ) (j : ℕ)
    → Covers es es'
    → Reaches es is j
    → Reaches es' is j
Reaches-mono es es' [] j c r = r
Reaches-mono es es' (i ∷ is) j c (inl e) = inl e
Reaches-mono es es' (i ∷ is) j c (inr (used, r)) = inr (c i used, Reaches-mono es es' is j c r)

-- The first free slot is one that a probe reaches.
pub next_free-some :
    (es : List HashEntry) (is : List ℕ) (j : ℕ)
    → In j is
    → is_free es j ≡ true
    → (i : ℕ) × (next_free es is ≡ some i) × In i is × (is_free es i ≡ true) × Reaches es is i
unfolding next_free
next_free-some es [] j h free = elim h [ ]
next_free-some es (i ∷ is) j h free = elim (Bool-cases (is_free es i)) [
  | inl f ↦ (i, rw f refl, inl refl, f, inl refl)
  | inr used ↦
      let later : In j is = elim h [
        | inl e ↦ absurd (false≢true (sym used ∙ subst (λ k. is_free es k ≡ true) (sym e) free))
        | inr k ↦ k
      ] in
      let (k, found, inside, f, r) = next_free-some es is j later free in
      (k, rw used found, inr inside, f, inr (used, r))
]

-- What `find_slot` gives where there is a free slot: a slot that holds the route, or a free one
-- such that no slot that a probe reaches does.
abbrev pub SlotFor : List HashEntry → List ℕ → Method → List ℕ → ℕ → Type 0
SlotFor es path m is i =
    ((is_free es i ≡ false) × (is_same (entry_at es i) path m ≡ true))
    ⊎ ((is_free es i ≡ true)
        × ((j : ℕ)
            → Reaches es is j
            → is_free es j ≡ false
            → is_same (entry_at es j) path m ≡ false))

pub slot_in-some :
    (es : List HashEntry) (path : List ℕ) (m : Method) (is : List ℕ) (j : ℕ)
    → In j is
    → is_free es j ≡ true
    → (i : ℕ) × (slot_in es path m is ≡ some i) × In i is × Reaches es is i × SlotFor es path m is i
unfolding slot_in
slot_in-some es path m [] j h free = elim h [ ]
slot_in-some es path m (i ∷ is) j h free = elim (Bool-cases (is_free es i)) [
  | inl f ↦ (i, rw f refl, inl refl, inl refl, inr (f, first f))
  | inr used ↦ elim (Bool-cases (is_same (entry_at es i) path m)) [
    | inl same ↦ (i, rw (used, same) refl, inl refl, inl refl, inl (used, same))
    | inr other ↦
        let later : In j is = elim h [
          | inl e ↦ absurd (false≢true (sym used ∙ subst (λ k. is_free es k ≡ true) (sym e) free))
          | inr k ↦ k
        ] in
        let (k, found, inside, r, s) = slot_in-some es path m is j later free in
        (k, rw (used, other) found, inr inside, inr (used, r), behind k used other s)
  ]
]
  where
    first :
        is_free es i ≡ true
        → (k : ℕ) → Reaches es (i ∷ is) k
        → is_free es k ≡ false
        → is_same (entry_at es k) path m ≡ false
    first f k (inl e) used =
        absurd (false≢true (sym (subst (λ k. is_free es k ≡ false) (sym e) used) ∙ f))
    first f k (inr (u, r)) used = absurd (false≢true (sym u ∙ f))

    behind :
        (k : ℕ)
        → is_free es i ≡ false
        → is_same (entry_at es i) path m ≡ false
        → SlotFor es path m is k
        → SlotFor es path m (i ∷ is) k
    behind k used other (inl s) = inl s
    behind k used other (inr (f, none_same)) = inr (f, go)
      where
        go :
            (j : ℕ)
            → Reaches es (i ∷ is) j
            → is_free es j ≡ false
            → is_same (entry_at es j) path m ≡ false
        go j (inl e) u = subst (λ k. is_same (entry_at es k) path m ≡ false) e other
        go j (inr (_, r)) u = none_same j r u

-- A search finds a slot with the path, for the method or for any.
pub exact_slot-some :
    (es : List HashEntry) (path : List ℕ) (m : Method) (is : List ℕ) (i : ℕ)
    → exact_slot es path m is ≡ some i
    → In i is × (is_free es i ≡ false) × (is_exact (entry_at es i) path m ≡ true)
unfolding exact_slot
exact_slot-some es path m [] i h = absurd cc
exact_slot-some es path m (k ∷ is) i h = elim (Bool-cases (is_free es k)) [
  | inl f ↦ absurd (ground arith)
  | inr used ↦ elim (Bool-cases (is_exact (entry_at es k) path m)) [
    | inl e ↦
        let here : k ≡ i = ground arith in
        (
          inl here,
          subst (λ x. is_free es x ≡ false) here used,
          subst (λ x. is_exact (entry_at es x) path m ≡ true) here e,
        )
    | inr other ↦
        let (inside, u, e) = exact_slot-some es path m is i (rw (used, other) at h) in
        (inr inside, u, e)
  ]
]

-- It fails only where no slot that it reaches has them.
pub exact_slot-none :
    (es : List HashEntry) (path : List ℕ) (m : Method) (is : List ℕ) (j : ℕ)
    → exact_slot es path m is ≡ none
    → Reaches es is j
    → is_free es j ≡ false
    → is_exact (entry_at es j) path m ≡ false
unfolding exact_slot
exact_slot-none es path m [] j h r used = elim r [ ]
exact_slot-none es path m (k ∷ is) j h r used = elim (Bool-cases (is_free es k)) [
  | inl f ↦ elim r [
    | inl e ↦ absurd (false≢true (sym (subst (λ k. is_free es k ≡ false) (sym e) used) ∙ f))
    | inr (u, _) ↦ absurd (false≢true (sym u ∙ f))
  ]
  | inr u ↦ elim (Bool-cases (is_exact (entry_at es k) path m)) [
    | inl e ↦ absurd (ground arith)
    | inr other ↦ elim r [
      | inl e ↦ subst (λ x. is_exact (entry_at es x) path m ≡ false) e other
      | inr (_, r') ↦ exact_slot-none es path m is j (rw (u, other) at h) r' used
    ]
  ]
]
