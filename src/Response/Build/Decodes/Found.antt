-- ===== src/Response/Build/Decodes/Found.antt =====
-- What a search of the cache of src/uvhttp_gzip_cache.c finds is a stream of a body with the hash and
-- the length that are asked for.
use mathlib.Core.Option.{some-injective}
use uvhttp.Prelude.{
  ℕ, ◌+◌, ◌-◌, Bool, true, false, not, List, [], ◌∷◌, Option, none, some, ◌≡◌, refl, subst, ◌∙◌,
  if◌then◌else◌, length, All,
}
use uvhttp.GzipCache.{
  Slot, GzipCache, entry_overhead, release, gzip_cache_find, scan_slots, Scan, behind, after_scan,
  is_expired, has_key,
}
use uvhttp.Response.Gzip.{gunzip}
use uvhttp.Response.Build.Decodes.{
  IsStreamFor, IsDecodable, Decodes, none-ne-some, has_key-eq, unused,
}

module _ (inflate : List ℕ → Option (List ℕ × List ℕ)) (crc32 hash : List ℕ → ℕ) where
  -- What a search leaves, and what it finds.
  record Finds (h n : ℕ) (scan : Scan) : Type 0 where
    left : All (IsDecodable inflate crc32 hash) scan.slots
    found : (bytes : List ℕ) → scan.hit ≡ some bytes → IsStreamFor inflate crc32 hash h n bytes

  Finds-behind :
      (h n : ℕ) (s : Slot) (scan : Scan)
      → IsDecodable inflate crc32 hash s
      → Finds h n scan
      → Finds h n (behind s scan)
  Finds-behind h n s scan good f = record { left = (good, f.left); found = f.found }

  scan_slots-Finds :
      (ttl now h n tick : ℕ) (slots : List Slot) (total evictions : ℕ)
      → All (IsDecodable inflate crc32 hash) slots
      → Finds h n (scan_slots ttl now h n tick slots total evictions)
  unfolding scan_slots
  scan_slots-Finds ttl now h n tick [] total evictions a = record {
    left = tt;
    found = λ bytes e. absurd (none-ne-some e);
  }
  scan_slots-Finds ttl now h n tick (s ∷ slots) total evictions (good, a) =
      go s.valid refl (is_expired ttl now s) (has_key h n s) refl
        (scan_slots-Finds ttl now h n tick slots total evictions a)
        (scan_slots-Finds ttl now h n tick slots (total - (length s.compressed + entry_overhead))
          (evictions + 1) a)
    where
      hit : Scan
      hit = record {
        slots = record s { last_used = tick } ∷ slots;
        memory = total;
        evictions = evictions;
        hit = some s.compressed;
      }

      go :
          (valid : Bool)
          → s.valid ≡ valid
          → (expired key : Bool) → has_key h n s ≡ key
          → {kept freed : Scan} → Finds h n kept
          → Finds h n freed
          → Finds h n (
              if not valid
              then behind s kept
              else if expired
              then behind (release s) freed
              else if key
              then hit
              else behind s kept)
      go false v expired key k f g = Finds-behind h n s _ good f
      go true v true key k f g =
          Finds-behind h n (release s) _ (unused inflate crc32 hash (release s) refl) g
      go true v false false k f g = Finds-behind h n s _ good f
      go true v false true k f g =
          let (same_hash, same_size) = has_key-eq h n s k in
          let (b, z, sum, size) = good v in
          record {
            left = ((λ _. (b, z, sum, size)), a);
            found = λ bytes e.
                let same : s.compressed ≡ bytes = some-injective _ _ e in
                (
                  b,
                  subst (λ x. gunzip inflate crc32 x ≡ some b) same z,
                  sum ∙ same_hash,
                  size ∙ same_size,
                );
          }

  -- A search keeps every entry decodable, and what it finds is a stream of a body with the hash and
  -- the length that are asked for.
  pub gzip_cache_find-Decodes :
      (c : GzipCache) (now h n : ℕ)
      → Decodes inflate crc32 hash c
      → Decodes inflate crc32 hash (gzip_cache_find c now h n).0
        × ((bytes : List ℕ)
            → (gzip_cache_find c now h n).1 ≡ some bytes
            → IsStreamFor inflate crc32 hash h n bytes)
  unfolding gzip_cache_find
  gzip_cache_find-Decodes c now h n a =
      go (scan_slots c.cache_ttl now h n (c.tick + 1) c.entries c.total_memory c.eviction_count) (
        scan_slots-Finds c.cache_ttl now h n (c.tick + 1) c.entries c.total_memory c.eviction_count
          a)
    where
      by_hit :
          (hit : Option (List ℕ)) (slots : List Slot) (total evictions : ℕ)
          → Finds h n (record { slots = slots; memory = total; evictions = evictions; hit = hit })
          → (let out : GzipCache × Option (List ℕ) =
                after_scan c
                  (record { slots = slots; memory = total; evictions = evictions; hit = hit }) in
              Decodes inflate crc32 hash out.0
              × ((bytes : List ℕ) → out.1 ≡ some bytes → IsStreamFor inflate crc32 hash h n bytes))
      by_hit none slots total evictions f = (f.left, f.found)
      by_hit (some x) slots total evictions f = (f.left, f.found)

      go :
          (scan : Scan)
          → Finds h n scan
          → Decodes inflate crc32 hash (after_scan c scan).0
            × ((bytes : List ℕ)
                → (after_scan c scan).1 ≡ some bytes
                → IsStreamFor inflate crc32 hash h n bytes)
      go scan f = by_hit scan.hit scan.slots scan.memory scan.evictions f
