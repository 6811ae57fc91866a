-- ===== src/RouterCache/Table/Full.antt =====
-- A full hash table in src/uvhttp_router_cache.c: `find_slot` has no slot to give, and the entry is
-- written behind the table.
use uvhttp.Prelude.{
  ℕ, zero, suc, ◌*◌, ◌≤◌, ◌<◌, min, true, false, List, [], ◌∷◌, none, ◌≡◌, refl, inl, inr, ltb, leb,
  length, arith, Bool-cases, All,
}
use native.Mathlib.Nat.{mod-lt}
use uvhttp.Router.Method.{Method}
use uvhttp.Router.Array.{Handler}
use uvhttp.RouterCache.Probe.{probes, probes-lt}
use uvhttp.RouterCache.Table.{
  HashEntry, HashTable, entry_at, is_free, is_same, home, max_size, slot_in, find_slot, overrun,
  add_to_hash_table, grow,
}
use uvhttp.RouterCache.Table.Placed.{used, used-le-length}
use uvhttp.RouterCache.Table.Insert.{HasKey, same-route}

used-full :
    (es : List HashEntry) (j : ℕ) → used es ≡ length es → j < length es → is_free es j ≡ false
used-full [] j full inside = absurd (omega arith)
used-full (e ∷ es) zero full inside = ground (arith, used-le-length es)
used-full (e ∷ es) (suc j) full inside =
    used-full es j (ground (arith, used-le-length es)) (omega arith)

slot_in-none :
    (es : List HashEntry) (path : List ℕ) (m : Method) (is : List ℕ)
    → All (λ j. (is_free es j ≡ false) × (is_same (entry_at es j) path m ≡ false)) is
    → slot_in es path m is ≡ none
unfolding slot_in
slot_in-none es path m [] h = refl
slot_in-none es path m (i ∷ is) ((busy, other), h) = rw (busy, other) (slot_in-none es path m is h)

All-map : (P Q : ℕ → Type 0) (is : List ℕ) → ((j : ℕ) → P j → Q j) → All P is → All Q is
All-map P Q [] f h = tt
All-map P Q (i ∷ is) f (p, h) = (f i p, All-map P Q is f h)

-- Where all 4096 slots are in use, any new route is written behind the table.
pub add_to_hash_table-overrun :
    (xxh64 : List ℕ → ℕ) (t : HashTable) (path : List ℕ) (m : Method) (h : Handler)
    → length t.entries ≡ max_size
    → used t.entries ≡ max_size
    → t.threshold ≤ t.count
    → length path < 256
    → ¬ HasKey xxh64 t path m
    → add_to_hash_table xxh64 t path m h ≡ overrun
unfolding add_to_hash_table grow find_slot
add_to_hash_table-overrun xxh64 t path m h wide full loaded short gone =
    let fits : leb 256 (length path) ≡ false = ground arith in
    let heavy : leb t.threshold t.count ≡ true = ground arith in
    let largest : ltb (length t.entries) (min (length t.entries * 2) max_size) ≡ false =
      ground arith in
    let is = probes (length t.entries) (home xxh64 (length t.entries) path) in
    let inside =
      probes-lt (length t.entries) (home xxh64 (length t.entries) path) (mod-lt _ (omega arith)) in
    let missed : slot_in t.entries path m is ≡ none =
      slot_in-none t.entries path m is (All-map (λ j. j < length t.entries) _ is taken inside) in
    rw (fits, heavy, largest, missed) refl
  where
    taken :
        (j : ℕ)
        → j < length t.entries
        → (is_free t.entries j ≡ false) × (is_same (entry_at t.entries j) path m ≡ false)
    taken j lt =
        let busy = used-full t.entries j (omega arith) lt in
        (
          busy,
          elim (Bool-cases (is_same (entry_at t.entries j) path m)) [
            | inl same ↦ absurd (
                gone (
                  (entry_at t.entries j).handler,
                  (j, lt, busy, same-route (entry_at t.entries j) path m same),
                ))
            | inr other ↦ other
          ],
        )
