-- ===== src/Response/Build/Decodes.antt =====
-- What the cache of src/uvhttp_gzip_cache.c holds for src/uvhttp_response.c: each entry in use is a
-- gzip stream of a body with the hash and the length of its key.
pub mod Found
use mathlib.Core.Option.{some-injective}
use uvhttp.Prelude.{
  ℕ, zero, suc, ◌+◌, ◌-◌, Bool, true, false, not, ◌&&◌, List, [], ◌∷◌, Option, none, some, ◌≡◌,
  refl, sym, subst, ◌∙◌, inl, inr, if◌then◌else◌, ltb, leb, ◌==◌, ==_iff, length, get_or, set, All,
  arith, Bool-cases, &&-true, Option-cases,
}
use uvhttp.GzipCache.{
  Slot, zero_slot, zero_slots, gzip_cache_create, GzipCache, entry_overhead, entry_count,
  victim_from, release, evict_at, evict_one, evict_for_memory, evict_for_count, slot_of_key,
  free_slot, update_slot, fill_slot, fill_after, insert, gzip_cache_put, gzip_cache_find,
  scan_slots, Scan, behind, after_scan, is_expired, has_key,
}
use uvhttp.GzipCache.Search.{IsFirstKey, slot_of_key-IsFirstKey}
use uvhttp.Response.Gzip.{gunzip}

All-set :
    (P : Slot → Type 0) (slots : List Slot) (i : ℕ) (s : Slot)
    → All P slots
    → P s
    → All P (set slots i s)
All-set P [] i s a p = tt
All-set P (x ∷ slots) zero s (q, a) p = (p, a)
All-set P (x ∷ slots) (suc i) s (q, a) p = (q, All-set P slots i s a p)

All-get_or :
    (P : Slot → Type 0) (slots : List Slot) (i : ℕ)
    → All P slots
    → P zero_slot
    → P (get_or slots i zero_slot)
All-get_or P [] i a p = p
All-get_or P (x ∷ slots) zero (q, a) p = q
All-get_or P (x ∷ slots) (suc i) (q, a) p = All-get_or P slots i a p

pub none-ne-some : {A : Type 0} {x : A} → none ≡ some x → ⊥
none-ne-some e = cc

pub has_key-eq :
    (hash body_len : ℕ) (s : Slot)
    → has_key hash body_len s ≡ true
    → (s.hash ≡ hash) × (s.body_len ≡ body_len)
has_key-eq hash body_len s e =
    let (h, l) = &&-true (s.hash == hash) (s.body_len == body_len) e in
    ((==_iff s.hash hash).0 h, (==_iff s.body_len body_len).0 l)

module _ (inflate : List ℕ → Option (List ℕ × List ℕ)) (crc32 hash : List ℕ → ℕ) where
  -- A gzip stream of a body with a hash and a length.
  abbrev pub IsStreamFor : ℕ → ℕ → List ℕ → Type 0
  IsStreamFor h n stream =
      (b : List ℕ) × (gunzip inflate crc32 stream ≡ some b) × (hash b ≡ h) × (length b ≡ n)

  abbrev pub IsDecodable : Slot → Type 0
  IsDecodable s = s.valid ≡ true → IsStreamFor s.hash s.body_len s.compressed

  abbrev pub Decodes : GzipCache → Type 0
  Decodes c = All IsDecodable c.entries

  pub unused : (s : Slot) → s.valid ≡ false → IsDecodable s
  unused s e = λ taken. absurd cc

  zero_slots-Decodable : (n : ℕ) → All IsDecodable (zero_slots n)
  zero_slots-Decodable zero = tt
  zero_slots-Decodable (suc n) = (unused zero_slot refl, zero_slots-Decodable n)

  -- A new cache has no entry in use.
  pub gzip_cache_create-Decodes :
      (max_memory_usage max_entries cache_ttl : ℕ)
      → Decodes (gzip_cache_create max_memory_usage max_entries cache_ttl)
  unfolding gzip_cache_create
  gzip_cache_create-Decodes max_memory_usage max_entries cache_ttl = zero_slots-Decodable _

  evict_one-Decodes : (c : GzipCache) → Decodes c → Decodes (evict_one c)
  unfolding evict_one
  evict_one-Decodes c a = go (victim_from 0 none c.entries)
    where
      go : (victim : Option (ℕ × ℕ)) → Decodes (evict_at c victim)
      go none = a
      go (some (i, t)) =
          All-set IsDecodable c.entries i (release (get_or c.entries i zero_slot)) a
            (unused (release (get_or c.entries i zero_slot)) refl)

  evict_for_memory-Decodes :
      (fuel size : ℕ) (c c' : GzipCache)
      → evict_for_memory fuel size c ≡ some c'
      → Decodes c
      → Decodes c'
  unfolding evict_for_memory
  evict_for_memory-Decodes zero size c c' e a = absurd cc
  evict_for_memory-Decodes (suc fuel) size c c' e a =
      elim (Bool-cases
        (ltb c.max_memory_usage (c.total_memory + size) && ltb 0 (entry_count c.entries))) [
          | inl full ↦
              evict_for_memory-Decodes fuel size (evict_one c) c' (rw full at e)
                (evict_one-Decodes c a)
          | inr room ↦ subst Decodes (some-injective _ _ (rw room at e)) a
        ]

  evict_for_count-Decodes :
      (fuel limit : ℕ) (c c' : GzipCache)
      → evict_for_count fuel limit c ≡ some c'
      → Decodes c
      → Decodes c'
  unfolding evict_for_count
  evict_for_count-Decodes zero limit c c' e a = absurd cc
  evict_for_count-Decodes (suc fuel) limit c c' e a =
      elim (Bool-cases (leb limit (entry_count c.entries))) [
        | inl full ↦
            evict_for_count-Decodes fuel limit (evict_one c) c' (rw full at e)
              (evict_one-Decodes c a)
        | inr room ↦ subst Decodes (some-injective _ _ (rw room at e)) a
      ]

  fill_slot-Decodes :
      (c : GzipCache) (now h n : ℕ) (bytes : List ℕ) (slot : Option ℕ)
      → IsStreamFor h n bytes
      → Decodes c
      → Decodes (fill_slot c now h n bytes slot)
  fill_slot-Decodes c now h n bytes none good a = a
  fill_slot-Decodes c now h n bytes (some i) good a =
      All-set IsDecodable c.entries i
        (record {
          hash = h;
          body_len = n;
          compressed = bytes;
          valid = true;
          stored_at = now;
          last_used = c.tick + 1;
        })
        a (λ _. good)

  update_slot-Decodes :
      (c : GzipCache) (now h n i : ℕ) (bytes : List ℕ)
      → IsFirstKey h n c.entries i
      → IsStreamFor h n bytes
      → Decodes c
      → Decodes (update_slot c now bytes i)
  update_slot-Decodes c now h n i bytes first (b, z, sum, size) a =
      let old = get_or c.entries i zero_slot in
      let (same_hash, same_size) = has_key-eq h n old first.key in
      All-set IsDecodable c.entries i
        (record old { compressed = bytes; stored_at = now; last_used = c.tick + 1 }) a
        (λ _. (b, z, sum ∙ sym same_hash, size ∙ sym same_size))

  fill_after-Decodes :
      (now h n limit : ℕ) (bytes : List ℕ) (c c' : GzipCache)
      → fill_after now h n bytes (evict_for_count (suc (length c.entries)) limit c) ≡ some c'
      → IsStreamFor h n bytes
      → Decodes c
      → Decodes c'
  fill_after-Decodes now h n limit bytes c c' e good a =
      elim (Option-cases (evict_for_count (suc (length c.entries)) limit c)) [
        | inl stuck ↦
            let none_here : none ≡ some c' = rw stuck at e in absurd (none-ne-some none_here)
        | inr (b, left) ↦ subst Decodes (some-injective _ _ (rw left at e)) (
            fill_slot-Decodes b now h n bytes (free_slot 0 b.entries) good
              (evict_for_count-Decodes (suc (length c.entries)) limit c b left a))
      ]

  insert-Decodes :
      (c c' : GzipCache) (now h n : ℕ) (bytes : List ℕ)
      → insert c now h n bytes ≡ some c'
      → IsStreamFor h n bytes
      → Decodes c
      → Decodes c'
  insert-Decodes c c' now h n bytes e good a =
      elim (Option-cases (evict_for_memory (suc (length c.entries)) (length bytes) c)) [
        | inl stuck ↦ absurd (none-ne-some (rw stuck at e))
        | inr (b, left) ↦
            fill_after-Decodes now h n b.max_entries bytes b c' (rw left at e) good
              (evict_for_memory-Decodes (suc (length c.entries)) (length bytes) c b left a)
      ]

  -- Storing a stream of a body under its hash and length keeps every entry decodable.
  pub gzip_cache_put-Decodes :
      (c c' : GzipCache) (now h n : ℕ) (bytes : List ℕ)
      → (gzip_cache_put c now h n bytes).0 ≡ some c'
      → IsStreamFor h n bytes
      → Decodes c
      → Decodes c'
  unfolding gzip_cache_put
  gzip_cache_put-Decodes c c' now h n bytes e good a = elim (Bool-cases (length bytes == 0)) [
    | inl nothing ↦ subst Decodes (some-injective _ _ (rw nothing at e)) a
    | inr something ↦ elim (Bool-cases (ltb c.max_memory_usage (length bytes))) [
      | inl huge ↦ subst Decodes (some-injective _ _ (rw (something, huge) at e)) a
      | inr fits ↦ by_slot (slot_of_key 0 h n c.entries) refl (rw (something, fits) at e)
    ]
  ]
    where
      by_slot :
          (slot : Option ℕ)
          → slot_of_key 0 h n c.entries ≡ slot
          → (elim slot [
            | some i ↦ some (update_slot c now bytes i)
            | none ↦ insert c now h n bytes
          ])
            ≡ some c'
          → Decodes c'
      by_slot none at e = insert-Decodes c c' now h n bytes e good a
      by_slot (some i) at e =
          let (k, place, first) = slot_of_key-IsFirstKey h n 0 i c.entries at in
          let here : k ≡ i = omega arith in
          subst Decodes (some-injective _ _ e) (
            update_slot-Decodes c now h n i bytes (subst (IsFirstKey h n c.entries) here first) good
              a)
