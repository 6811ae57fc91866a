-- ===== src/RouterCache/Table/Insert.antt =====
-- `add_to_hash_table` of src/uvhttp_router_cache.c against the set of the routes that a table holds.
use mathlib.Core.Bool.{false≢true}
use native.Mathlib.Nat.{mod-lt}
use uvhttp.Prelude.{
  ℕ, ◌<◌, true, false, List, ◌∙◌, Option, none, some, ◌≡◌, refl, ap, sym, subst, ◌⊎◌, inl, inr, ◌↔◌,
  leb, length, set, streq, streq_refl, eq_of_streq, arith, length-set, &&-true, take_all,
}
use uvhttp.Error.{already_exists, ok, err}
use uvhttp.Router.Method.{Method, method_eq}
use uvhttp.Router.Array.Search.{method_eq_refl, eq_of_method_eq}
use uvhttp.Router.Array.{Handler}
use uvhttp.RouterCache.Probe.{probes, In-probes, probes-lt, All-In}
use uvhttp.RouterCache.Table.{
  HashEntry, HashTable, entry_at, is_blank, is_free, is_same, home, max_size, find_slot, put_at,
  Added, added, overrun, add_to_hash_table,
}
use uvhttp.RouterCache.Table.Slots.{slot_in-some, Reaches}
use uvhttp.RouterCache.Table.Placed.{
  Route, route_of, used, Has, free-some, used-set, Has-set, Placed-set,
}
use uvhttp.RouterCache.Table.Resize.{IsTable, grow-keeps}

pub same-route :
    (e : HashEntry) (path : List ℕ) (m : Method)
    → is_same e path m ≡ true
    → route_of e ≡ (path, m, e.handler)
same-route e path m h =
    let (p, q) = &&-true (streq e.path path) (method_eq e.method m) h in
    rw (eq_of_streq e.path path p, eq_of_method_eq e.method m q) refl

route-same :
    (e : HashEntry) (path : List ℕ) (m : Method) (h : Option Handler)
    → route_of e ≡ (path, m, h)
    → is_same e path m ≡ true
route-same e path m h same =
    rw (ap (λ (r : Route). r.0) same, ap (λ (r : Route). r.1) same, streq_refl path)
      (method_eq_refl m)

module _ (xxh64 : List ℕ → ℕ) where
  -- The table holds a route for the path and the method.
  abbrev pub HasKey : HashTable → List ℕ → Method → Type 0
  HasKey t path m = (h : Option Handler) × Has t.entries (path, m, h)

  -- What an attempt to add a route does: the route is there and nothing changes, or it is not and
  -- it is the one route that comes in.
  abbrev pub Adds : HashTable → List ℕ → Method → Handler → Added → Type 0
  Adds t path m h overrun = ⊥
  Adds t path m h (added t' (err e)) =
      (e ≡ already_exists)
      × HasKey t path m
      × IsTable xxh64 t'
      × ((r : Route) → Has t'.entries r ↔ Has t.entries r)
  Adds t path m h (added t' (ok _)) =
      (¬ HasKey t path m)
      × IsTable xxh64 t'
      × ((r : Route) → Has t'.entries r ↔ (((path, m, some h) ≡ r) ⊎ Has t.entries r))

  module _ (path : List ℕ) (m : Method) (h : Handler) (busy : is_blank path ≡ false)
      (short : length path < 256) where
    new : HashEntry
    new = record { path = path; method = m; handler = some h; access_count = 0 }

    -- No route that a probe reaches is one for the path and the method.
    absent :
        (t : HashTable)
        → IsTable xxh64 t
        → ((j : ℕ)
            → Reaches t.entries (probes (length t.entries) (home xxh64 (length t.entries) path)) j
            → is_free t.entries j ≡ false
            → is_same (entry_at t.entries j) path m ≡ false)
        → ¬ HasKey t path m
    absent t valid none_same (h0, (k, k_lt, k_used, same)) =
        let reach =
          subst
            (λ (p : List ℕ).
              Reaches t.entries (probes (length t.entries) (home xxh64 (length t.entries) p)) k)
            (ap (λ (r : Route). r.0) same) (valid.placed k k_lt k_used) in
        false≢true
          (sym (none_same k reach k_used) ∙ route-same (entry_at t.entries k) path m h0 same)

    -- With the new route the table has one route at most for each path and method.
    once-new :
        (t : HashTable) (es : List HashEntry)
        → IsTable xxh64 t
        → ¬ HasKey t path m
        → ((r : Route) → Has es r → ((path, m, some h) ≡ r) ⊎ Has t.entries r)
        → (p : List ℕ) (n : Method) (a b : Option Handler) → Has es (p, n, a)
        → Has es (p, n, b)
        → a ≡ b
    once-new t es valid gone all p n a b x y = elim (all (p, n, a) x) [
      | inl e ↦ elim (all (p, n, b) y) [
        | inl f ↦ sym (ap (λ (r : Route). r.2) e) ∙ ap (λ (r : Route). r.2) f
        | inr v ↦ absurd (gone (b, rename a e b v))
      ]
      | inr u ↦ elim (all (p, n, b) y) [
        | inl f ↦ absurd (gone (a, rename b f a u))
        | inr v ↦ valid.once p n a b u v
      ]
    ]
      where
        rename :
            (c : Option Handler)
            → ◌≡◌ {A = Route} (path, m, some h) (p, n, c)
            → (a : Option Handler) → Has t.entries (p, n, a)
            → Has t.entries (path, m, a)
        rename c e a v =
            subst (λ (q : List ℕ). Has t.entries (q, m, a)) (sym (ap (λ (r : Route). r.0) e))
              (subst (λ (k : Method). Has t.entries (p, k, a)) (sym (ap (λ (r : Route). r.1) e)) v)

    put_free-Adds :
        (t : HashTable) (i : ℕ)
        → IsTable xxh64 t
        → i < length t.entries
        → is_free t.entries i ≡ true
        → Reaches t.entries (probes (length t.entries) (home xxh64 (length t.entries) path)) i
        → ((j : ℕ)
            → Reaches t.entries (probes (length t.entries) (home xxh64 (length t.entries) path)) j
            → is_free t.entries j ≡ false
            → is_same (entry_at t.entries j) path m ≡ false)
        → Adds t path m h (put_at t path m h (some i))
    unfolding new
    put_free-Adds t i valid i_lt free reach none_same =
        let all = Has-set t.entries i new i_lt free busy in
        let gone = absent t valid none_same in
        rw (free, take_all 255 path (omega arith))
          (
            gone,
            record {
              sized = rw length-set valid.sized;
              small = rw length-set valid.small;
              counted = omega (arith, valid.counted, used-set t.entries i new i_lt free busy);
              loaded = rw length-set valid.loaded;
              placed = Placed-set xxh64 t.entries i new i_lt free busy reach valid.placed;
              handled = λ p n x. elim ((all (p, n, none)).0 x) [
                | inl e ↦ let no_handler : some h ≡ none = ap (λ (r : Route). r.2) e in absurd cc
                | inr old ↦ valid.handled p n old
              ];
              once = once-new t (set t.entries i new) valid gone (λ r. (all r).0);
            },
            all,
          )

    put_same-Adds :
        (t : HashTable) (i : ℕ)
        → IsTable xxh64 t
        → i < length t.entries
        → is_free t.entries i ≡ false
        → is_same (entry_at t.entries i) path m ≡ true
        → Adds t path m h (put_at t path m h (some i))
    put_same-Adds t i valid i_lt taken same =
        rw (taken, same)
          (
            refl,
            (
              (entry_at t.entries i).handler,
              (i, i_lt, taken, same-route (entry_at t.entries i) path m same),
            ),
            valid,
            λ r. (λ x. x, λ x. x),
          )

    put_at-Adds :
        (t : HashTable)
        → IsTable xxh64 t
        → used t.entries < length t.entries
        → Adds t path m h (put_at t path m h (find_slot xxh64 t.entries path m))
    unfolding find_slot
    put_at-Adds t valid room =
        let inside : home xxh64 (length t.entries) path < length t.entries = mod-lt _ valid.sized in
        let is = probes (length t.entries) (home xxh64 (length t.entries) path) in
        let (j, j_in, j_free) = free-some t.entries room in
        let (i, found, i_in, reach, slot) =
          slot_in-some t.entries path m is j (In-probes (length t.entries) _ inside j j_in)
            j_free in
        let i_lt =
          All-In (λ k. k < length t.entries) is i (probes-lt (length t.entries) _ inside) i_in in
        subst (λ (o : Option ℕ). Adds t path m h (put_at t path m h o)) (sym found)
          (elim slot [
            | inl (taken, same) ↦ put_same-Adds t i valid i_lt taken same
            | inr (free, none_same) ↦ put_free-Adds t i valid i_lt free reach none_same
          ])

    -- Adding a route that is short enough to a well-formed table of fewer than 4096 routes: the
    -- table stays well formed; it takes the route where it holds none for the path and the method,
    -- and is as before where it does.
    pub add_to_hash_table-Adds :
        (t : HashTable)
        → IsTable xxh64 t
        → used t.entries < max_size
        → Adds t path m h (add_to_hash_table xxh64 t path m h)
    unfolding add_to_hash_table
    add_to_hash_table-Adds t valid few =
        let fits : leb 256 (length path) ≡ false = ground arith in
        let (t', run, same, valid', has, room) = grow-keeps xxh64 t valid in
        rw (fits, run)
          (carry t t' has (put_at t' path m h (find_slot xxh64 t'.entries path m))
            (put_at-Adds t' valid' (room few)))
      where
        carry :
            (t t' : HashTable)
            → ((r : Route) → Has t'.entries r ↔ Has t.entries r)
            → (out : Added) → Adds t' path m h out
            → Adds t path m h out
        carry t t' has (added u (err e)) (same, (h0, x), valid, all) = (
          same,
          (h0, (has (path, m, h0)).0 x),
          valid,
          λ r. (λ y. (has r).0 ((all r).0 y), λ y. (all r).1 ((has r).1 y)),
        )
        carry t t' has (added u (ok _)) (absent, valid, all) = (
          λ (h0, x). absent (h0, (has (path, m, h0)).1 x),
          valid,
          λ r. (
            λ y. elim ((all r).0 y) [ inl e ↦ inl e | inr z ↦ inr ((has r).0 z) ],
            λ y. (all r).1 (elim y [ inl e ↦ inl e | inr z ↦ inr ((has r).1 z) ]),
          ),
        )
        carry t t' has overrun x = x
