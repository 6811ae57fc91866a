-- ===== src/GzipCache/Reachable.antt =====
-- Every cache that the operations lead to is well formed, and each operation on it ends.
use mathlib.Core.Option.{some-injective}
use uvhttp.Prelude.{
  ℕ, zero, suc, List, Option, some, ◌≡◌, refl, ap, sym, subst, ◌∙◌, inl, inr, ltb, ◌==◌, length,
  arith, Bool-cases,
}
use uvhttp.Error.{Result}
use uvhttp.GzipCache.{
  GzipCache, gzip_cache_create, gzip_cache_clear, gzip_cache_put, gzip_cache_find,
  gzip_cache_set_max_entries, gzip_cache_set_max_memory_usage, gzip_cache_set_cache_ttl,
}
use uvhttp.GzipCache.Put.{IsCache}
use uvhttp.GzipCache.Stored.{gzip_cache_put-Kept}
use uvhttp.GzipCache.Sweep.{gzip_cache_find-IsCache}
use uvhttp.GzipCache.Limits.{
  gzip_cache_create-IsCache, gzip_cache_clear-IsCache, gzip_cache_set_max_entries-IsCache,
  gzip_cache_set_max_memory_usage-IsCache,
}

-- Storing in a well-formed cache ends on every branch, refused or not, and keeps it well formed.
pub gzip_cache_put-IsCache :
    (c : GzipCache) (now hash body_len : ℕ) (bytes : List ℕ)
    → IsCache c
    → (c' : GzipCache) × ((gzip_cache_put c now hash body_len bytes).0 ≡ some c') × IsCache c'
unfolding gzip_cache_put
gzip_cache_put-IsCache c now hash body_len bytes v = elim (Bool-cases (length bytes == 0)) [
  | inl nothing ↦ (c, rw nothing refl, v)
  | inr something ↦ elim (Bool-cases (ltb c.max_memory_usage (length bytes))) [
    | inl huge ↦ (c, rw (something, huge) refl, v)
    | inr fits ↦
        let (c', e, k) =
          gzip_cache_put-Kept c now hash body_len bytes v (ground arith) (ground arith) in
        (c', ap (λ (r : Option GzipCache × Result (Unit {0})). r.0) e, k.well_formed)
  ]
]

-- The caches that the operations lead to.
pub data Reachable : GzipCache → Type 0 where
  created :
      (max_memory_usage max_entries cache_ttl : ℕ)
      → Reachable (gzip_cache_create max_memory_usage max_entries cache_ttl)
  cleared : {c : GzipCache} → Reachable c → Reachable (gzip_cache_clear c)
  searched :
      {c : GzipCache} (now hash body_len : ℕ)
      → Reachable c
      → Reachable (gzip_cache_find c now hash body_len).0
  stored :
      {c c' : GzipCache} (now hash body_len : ℕ) (bytes : List ℕ)
      → Reachable c
      → (gzip_cache_put c now hash body_len bytes).0 ≡ some c'
      → Reachable c'
  limited :
      {c c' : GzipCache} (n : ℕ)
      → Reachable c
      → gzip_cache_set_max_entries c n ≡ some c'
      → Reachable c'
  budgeted :
      {c c' : GzipCache} (n : ℕ)
      → Reachable c
      → gzip_cache_set_max_memory_usage c n ≡ some c'
      → Reachable c'
  timed : {c : GzipCache} (n : ℕ) → Reachable c → Reachable (gzip_cache_set_cache_ttl c n)

gives :
    {r : Option GzipCache} {c' : GzipCache}
    → r ≡ some c'
    → (c : GzipCache) × (r ≡ some c) × IsCache c
    → IsCache c'
gives {r} {c'} e (c, e', v) = subst IsCache (some-injective c c' (sym e' ∙ e)) v

zero_limit :
    (c : GzipCache)
    → (gzip_cache_set_max_entries c 0 ≡ some c) × (gzip_cache_set_max_memory_usage c 0 ≡ some c)
unfolding gzip_cache_set_max_entries gzip_cache_set_max_memory_usage
zero_limit c = (refl, refl)

-- Every cache that is created and then used by any sequence of operations is well formed: the memory
-- it accounts for is that of its entries in use, and their number is within its limit. Nothing is
-- said of the memory budget.
pub Reachable-IsCache : {c : GzipCache} → Reachable c → IsCache c
unfolding gzip_cache_set_cache_ttl
Reachable-IsCache (created m n t) = gzip_cache_create-IsCache m n t
Reachable-IsCache (cleared r) = gzip_cache_clear-IsCache _ (Reachable-IsCache r)
Reachable-IsCache (searched now hash body_len r) =
    gzip_cache_find-IsCache _ now hash body_len (Reachable-IsCache r)
Reachable-IsCache (stored now hash body_len bytes r e) =
    gives e (gzip_cache_put-IsCache _ now hash body_len bytes (Reachable-IsCache r))
Reachable-IsCache (limited zero r e) = gives e (_, (zero_limit _).0, Reachable-IsCache r)
Reachable-IsCache (limited (suc n) r e) =
    let (c', e', v, _) =
      gzip_cache_set_max_entries-IsCache _ (suc n) (Reachable-IsCache r) (omega arith) in
    gives e (c', e', v)
Reachable-IsCache (budgeted zero r e) = gives e (_, (zero_limit _).1, Reachable-IsCache r)
Reachable-IsCache (budgeted (suc n) r e) =
    let (c', e', v, _, _) =
      gzip_cache_set_max_memory_usage-IsCache _ (suc n) (Reachable-IsCache r) (omega arith) in
    gives e (c', e', v)
Reachable-IsCache (timed n r) =
    let v = Reachable-IsCache r in
    record {
      accounted = v.accounted;
      counted = v.counted;
      capacity = v.capacity;
      positive = v.positive;
    }
