-- ===== src/GzipCache/Put.antt =====
-- Storing in the cache: it ends, keeps the cache well formed, and what is stored is found.
use uvhttp.Prelude.{
  ℕ, ◌+◌, ◌≤◌, ◌<◌, true, false, ◌&&◌, List, some, ◌≡◌, refl, ap, sym, ◌∙◌, ◌==◌, length, get_or,
  set, length-set, get_or-set_self, get_or-set_ne, arith,
}
use uvhttp.GzipCache.{
  Slot, zero_slot, GzipCache, entry_overhead, entry_count, has_key, update_slot, fill_slot,
}
use uvhttp.GzipCache.Invariant.{memory, slot_size, used, memory-set, entry_count-set, NoKey}
use uvhttp.GzipCache.Search.{IsFirstKey}

-- A well-formed cache: the memory in use is that of the entries in use; their number is within the
-- limit, which is not 0, and the limit within the slots.
pub record IsCache (c : GzipCache) : Type 0 where
  pub accounted : c.total_memory ≡ memory c.entries
  pub counted : entry_count c.entries ≤ c.max_entries
  pub capacity : c.max_entries ≤ length c.entries
  pub positive : 1 ≤ c.max_entries

-- The first slot in use with the key holds the bytes, stored `now`.
pub record Holds (c : GzipCache) (now hash body_len : ℕ) (bytes : List ℕ) : Type 0 where
  pub slot : ℕ
  pub first : IsFirstKey hash body_len c.entries slot
  pub content : (get_or c.entries slot zero_slot).compressed ≡ bytes
  pub time : (get_or c.entries slot zero_slot).stored_at ≡ now

has_key_refl : (hash body_len : ℕ) → (hash == hash && body_len == body_len) ≡ true
has_key_refl hash body_len = ground arith

module _ (c : GzipCache) (now hash body_len : ℕ) (bytes : List ℕ) where
  abbrev new_slot : Slot
  new_slot = record {
    hash = hash;
    body_len = body_len;
    compressed = bytes;
    valid = true;
    stored_at = now;
    last_used = c.tick + 1;
  }

  pub filled :
      (k : ℕ)
      → k < length c.entries
      → NoKey hash body_len c.entries
      → Holds (fill_slot c now hash body_len bytes (some k)) now hash body_len bytes
  filled k lt unknown = record {
    slot = k;
    first = record {
      inside = omega (arith, length-set c.entries k new_slot);
      in_use = ap (λ (s : Slot). s.valid) here;
      key = ap (has_key hash body_len) here ∙ has_key_refl hash body_len;
      before = λ j less used.
          let other = get_or-set_ne c.entries k j new_slot zero_slot (λ same. omega arith) in
          ap (has_key hash body_len) other
          ∙ unknown j (ap (λ (s : Slot). s.valid) (sym other) ∙ used);
    };
    content = ap (λ (s : Slot). s.compressed) here;
    time = ap (λ (s : Slot). s.stored_at) here;
  }
    where
      here : get_or (set c.entries k new_slot) k zero_slot ≡ new_slot
      here = get_or-set_self c.entries k new_slot zero_slot lt

  pub filled-IsCache :
      (k : ℕ)
      → k < length c.entries
      → (get_or c.entries k zero_slot).valid ≡ false
      → c.total_memory ≡ memory c.entries
      → entry_count c.entries < c.max_entries
      → c.max_entries ≤ length c.entries
      → IsCache (fill_slot c now hash body_len bytes (some k))
  filled-IsCache k lt free a room fits =
      let m = memory-set c.entries k new_slot lt in
      let n = entry_count-set c.entries k new_slot lt in
      let size : slot_size (get_or c.entries k zero_slot) ≡ 0 = rw free refl in
      let none_used : used (get_or c.entries k zero_slot) ≡ 0 = rw free refl in
      record {
        accounted = omega (arith, a, m, size);
        counted = omega (arith, n, none_used);
        capacity = omega (arith, length-set c.entries k new_slot);
        positive = omega arith;
      }

  pub updated :
      (k : ℕ)
      → IsCache c
      → IsFirstKey hash body_len c.entries k
      → IsCache (update_slot c now bytes k)
        × Holds (update_slot c now bytes k) now hash body_len bytes
  updated k v f =
      let old = get_or c.entries k zero_slot in
      let new : Slot = record old { compressed = bytes; stored_at = now; last_used = c.tick + 1 } in
      let m = memory-set c.entries k new f.inside in
      let empty = memory-set c.entries k zero_slot f.inside in
      let n = entry_count-set c.entries k new f.inside in
      let size : slot_size old ≡ length old.compressed + entry_overhead = rw f.in_use refl in
      let size' : slot_size new ≡ length bytes + entry_overhead = rw f.in_use refl in
      let one : used old ≡ 1 = rw f.in_use refl in
      let here : get_or (set c.entries k new) k zero_slot ≡ new =
        get_or-set_self c.entries k new zero_slot f.inside in
      (
        record {
          accounted = omega (arith, v.accounted, m, empty, size, size');
          counted = omega (arith, v.counted, n, one);
          capacity = omega (arith, v.capacity, length-set c.entries k new);
          positive = v.positive;
        },
        record {
          slot = k;
          first = record {
            inside = omega (arith, length-set c.entries k new, f.inside);
            in_use = ap (λ (s : Slot). s.valid) here ∙ f.in_use;
            key = ap (has_key hash body_len) here ∙ f.key;
            before = λ j less used.
                let other = get_or-set_ne c.entries k j new zero_slot (λ same. omega arith) in
                ap (has_key hash body_len) other
                ∙ f.before j less (ap (λ (s : Slot). s.valid) (sym other) ∙ used);
          };
          content = ap (λ (s : Slot). s.compressed) here;
          time = ap (λ (s : Slot). s.stored_at) here;
        },
      )
