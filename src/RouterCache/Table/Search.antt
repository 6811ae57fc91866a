-- ===== src/RouterCache/Table/Search.antt =====
-- `find_in_hash_table_ex` of src/uvhttp_router_cache.c against the set of the routes that a table
-- holds.
use mathlib.Core.Bool.{false≢true}
use native.Mathlib.Nat.{mod-lt}
use uvhttp.Prelude.{
  ℕ, zero, suc, ◌+◌, ◌<◌, Bool, true, false, not, ◌&&◌, List, [], ◌∷◌, ◌∙◌, Option, none, some, ◌≡◌,
  refl, ap, sym, subst, ◌⊎◌, inl, inr, ◌↔◌, length, streq, streq_refl, eq_of_streq, has_char, arith,
  Bool-cases, Option-cases, length-set, &&-true,
}
use uvhttp.Router.Method.{Method}
use uvhttp.Router.Array.{Handler, allows}
use uvhttp.RouterCache.Probe.{probes, probes-lt, All-In}
use uvhttp.RouterCache.Template.{matches_template}
use uvhttp.RouterCache.Template.Fits.{Fits, matches_template_iff}
use uvhttp.RouterCache.Table.{
  HashEntry, HashTable, entry_at, is_blank, is_free, is_exact, home, touch, count_access, hit,
  Found, exact_slot, template_slot, is_template_hit, find_in_hash_table_ex,
}
use uvhttp.RouterCache.Table.Slots.{exact_slot-some, exact_slot-none, Reaches, Reaches-mono}
use uvhttp.RouterCache.Table.Placed.{Route, route_of, Has}
use uvhttp.RouterCache.Table.Resize.{IsTable}
use uvhttp.RouterCache.Table.Touch.{route_of-touch, used-touch, free-touch, Has-touch}

template_slot-some :
    (k : ℕ) (es : List HashEntry) (path : List ℕ) (m : Method) (i : ℕ)
    → template_slot k es path m ≡ some i
    → (j : ℕ) × (i ≡ k + j) × (j < length es) × (is_template_hit (entry_at es j) path m ≡ true)
unfolding template_slot
template_slot-some k [] path m i h = absurd cc
template_slot-some k (e ∷ es) path m i h = elim (Bool-cases (is_template_hit e path m)) [
  | inl here ↦
      let first : some k ≡ some i = rw here at h in
      let at_k : k ≡ i = cc in (0, omega arith, omega arith, here)
  | inr other ↦
      let (j, same, inside, found) = template_slot-some (k + 1) es path m i (rw other at h) in
      (suc j, omega arith, omega arith, found)
]

template_slot-none :
    (k : ℕ) (es : List HashEntry) (path : List ℕ) (m : Method) (j : ℕ)
    → template_slot k es path m ≡ none
    → j < length es
    → is_template_hit (entry_at es j) path m ≡ false
unfolding template_slot
template_slot-none k [] path m j h inside = absurd (omega arith)
template_slot-none k (e ∷ es) path m zero h inside = elim (Bool-cases (is_template_hit e path m)) [
  | inl here ↦ let first : some k ≡ none = rw here at h in absurd cc
  | inr other ↦ other
]
template_slot-none k (e ∷ es) path m (suc j) h inside =
    elim (Bool-cases (is_template_hit e path m)) [
      | inl here ↦ let first : some k ≡ none = rw here at h in absurd cc
      | inr other ↦ template_slot-none (k + 1) es path m j (rw other at h) (omega arith)
    ]

module _ (es : List HashEntry) (path : List ℕ) (m : Method) where
  -- The handler of a route for the path, and for the method or for any.
  abbrev pub Exact : Option Handler → Type 0
  Exact h = (n : Method) × (allows n m ≡ true) × Has es (path, n, h)

  -- The handler of a route with parameters that the path fits, for the method or for any.
  abbrev pub Fitting : List ℕ → Option Handler → Type 0
  Fitting q h =
      (n : Method) × (allows n m ≡ true) × (has_char q b':' ≡ true) × Fits q path × Has es (q, n, h)

  -- An answer to a search: the handler of a route for the path; where there is none, that of a
  -- template that the path fits, with the template; where there is none of these either, nothing.
  abbrev pub Answers : Found → Type 0
  Answers (h, q) =
      ((q ≡ some path) × Exact h)
      ⊎ (((k : Option Handler) → ¬ Exact k)
          × (((p : List ℕ) × (q ≡ some p) × Fitting p h)
              ⊎ ((q ≡ none) × (h ≡ none) × ((p : List ℕ) (k : Option Handler) → ¬ Fitting p k))))

Exact-Has :
    (es : List HashEntry) (path : List ℕ) (m : Method) (i : ℕ)
    → i < length es
    → is_free es i ≡ false
    → is_exact (entry_at es i) path m ≡ true
    → ((entry_at es i).path ≡ path) × Exact es path m (entry_at es i).handler
Exact-Has es path m i inside busy e =
    let (p, q) = &&-true (streq (entry_at es i).path path) (allows (entry_at es i).method m) e in
    let same = eq_of_streq (entry_at es i).path path p in
    (
      same,
      (
        (entry_at es i).method,
        q,
        (
          i,
          inside,
          busy,
          ap (λ (x : List ℕ). (x, (entry_at es i).method, (entry_at es i).handler)) same,
        ),
      ),
    )

Has-exact :
    (e : HashEntry) (path : List ℕ) (m n : Method) (h : Option Handler)
    → allows n m ≡ true
    → route_of e ≡ (path, n, h)
    → is_exact e path m ≡ true
Has-exact e path m n h ok same =
    rw (ap (λ (r : Route). r.0) same, ap (λ (r : Route). r.1) same, streq_refl path) ok

template-Has :
    (es : List HashEntry) (path : List ℕ) (m : Method) (i : ℕ)
    → i < length es
    → is_template_hit (entry_at es i) path m ≡ true
    → Fitting es path m (entry_at es i).path (entry_at es i).handler
template-Has es path m i inside t =
    let e = entry_at es i in
    let (a, fit) =
      &&-true (not (is_blank e.path) && allows e.method m && has_char e.path b':')
        (matches_template e.path path) t in
    let (b, colon) =
      &&-true (not (is_blank e.path) && allows e.method m) (has_char e.path b':') a in
    let (busy, ok) = &&-true (not (is_blank e.path)) (allows e.method m) b in
    (
      e.method,
      ok,
      colon,
      (matches_template_iff e.path path).0 fit,
      (i, inside, not-true (is_blank e.path) busy, refl),
    )
  where
    not-true : (b : Bool) → not b ≡ true → b ≡ false
    not-true true h = cc
    not-true false h = refl

Has-template :
    (e : HashEntry) (path q : List ℕ) (m n : Method) (h : Option Handler)
    → is_blank e.path ≡ false
    → allows n m ≡ true
    → has_char q b':' ≡ true
    → Fits q path
    → route_of e ≡ (q, n, h)
    → is_template_hit e path m ≡ true
Has-template e path q m n h busy ok colon fit same =
    rw (busy, ap (λ (r : Route). r.0) same, ap (λ (r : Route). r.1) same, ok, colon)
      ((matches_template_iff q path).1 fit)

module _ (xxh64 : List ℕ → ℕ) (t : HashTable) (valid : IsTable xxh64 t) (path : List ℕ)
    (m : Method) where
  hit-keeps : (i : ℕ) → IsTable xxh64 (hit t i).0
  hit-keeps i = record {
    handled = λ p n x. valid.handled p n ((Has-touch t.entries i (p, n, none)).0 x);
    once = λ p n h k x y.
        valid.once p n h k ((Has-touch t.entries i (p, n, h)).0 x)
          ((Has-touch t.entries i (p, n, k)).0 y);
    sized = rw length-set valid.sized;
    small = rw length-set valid.small;
    counted = valid.counted ∙ sym (used-touch t.entries i);
    loaded = rw length-set valid.loaded;
    placed = λ j h u.
        let u' = sym (free-touch t.entries i j) ∙ u in
        let r = valid.placed j (omega (arith, h, length-set t.entries i (touched i))) u' in
        rw (length-set, ap (λ (r : Route). r.0) (route_of-touch t.entries i j))
          (Reaches-mono t.entries (touch t.entries i) _ j (λ k v. free-touch t.entries i k ∙ v) r);
  }
    where
      touched : ℕ → HashEntry
      touched i = record (entry_at t.entries i) {
        access_count = count_access (entry_at t.entries i).access_count;
      }

  no-Exact :
      exact_slot t.entries path m (probes (length t.entries) (home xxh64 (length t.entries) path))
        ≡ none
      → (h : Option Handler) → ¬ Exact t.entries path m h
  no-Exact missed h (n, ok, (j, inside, busy, same)) = false≢true (
      sym (
        exact_slot-none t.entries path m _ j missed
          (subst
            (λ (p : List ℕ).
              Reaches t.entries (probes (length t.entries) (home xxh64 (length t.entries) p)) j)
            (ap (λ (r : Route). r.0) same) (valid.placed j inside busy))
          busy)
      ∙ Has-exact (entry_at t.entries j) path m n h ok same)

  -- A search in a well-formed table gives an answer, and leaves the table well formed, with the
  -- same routes.
  pub find_in_hash_table_ex-Answers :
      IsTable xxh64 (find_in_hash_table_ex xxh64 t path m).0
      × ((r : Route) → Has (find_in_hash_table_ex xxh64 t path m).0.entries r ↔ Has t.entries r)
      × Answers t.entries path m (find_in_hash_table_ex xxh64 t path m).1
  unfolding find_in_hash_table_ex
  find_in_hash_table_ex-Answers =
      let is = probes (length t.entries) (home xxh64 (length t.entries) path) in
      elim (Option-cases (exact_slot t.entries path m is)) [
        | inr (i, found) ↦
            let (i_in, busy, e) = exact_slot-some t.entries path m is i found in
            let inside =
              All-In (λ k. k < length t.entries) is i
                (probes-lt (length t.entries) _ (mod-lt _ valid.sized)) i_in in
            let (same, exact) = Exact-Has t.entries path m i inside busy e in
            rw found (hit-keeps i, Has-touch t.entries i, inl (ap some same, exact))
        | inl missed ↦ elim (Option-cases (template_slot 0 t.entries path m)) [
          | inr (i, found) ↦
              let (j, e, inside, h) = template_slot-some 0 t.entries path m i found in
              let at_i : is_template_hit (entry_at t.entries i) path m ≡ true =
                subst (λ k. is_template_hit (entry_at t.entries k) path m ≡ true) (omega arith) h in
              rw (missed, found)
                (
                  hit-keeps i,
                  Has-touch t.entries i,
                  inr (
                    no-Exact missed,
                    inl (
                      (entry_at t.entries i).path,
                      refl,
                      template-Has t.entries path m i (omega arith) at_i,
                    ),
                  ),
                )
          | inl gone ↦
              rw (missed, gone)
                (
                  valid,
                  λ r. (λ x. x, λ x. x),
                  inr (
                    no-Exact missed,
                    inr (
                      refl,
                      refl,
                      λ p k (n, ok, colon, fit, (j, inside, busy, same)). false≢true (
                          sym (template_slot-none 0 t.entries path m j gone inside)
                          ∙ Has-template (entry_at t.entries j) path p m n k busy ok colon fit
                              same),
                    ),
                  ),
                )
        ]
      ]
