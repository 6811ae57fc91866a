-- ===== src/LruCache.antt =====
-- The cache of files of src/uvhttp_lru_cache.c: its list of entries from the most to the least recently
-- used, linked by pointers. The heap is a function from addresses, which are numbers, to entries.
pub mod Shape
pub mod Links
pub mod Unlink
pub mod Head
pub mod Moves
pub mod Priority
pub mod Sweep
mod Tests
use uvhttp.Prelude.{
  ℕ, zero, suc, ◌+◌, Bool, true, false, not, ◌&&◌, ◌||◌, List, Option, none, some, if◌then◌else◌,
  leb, ltb, ◌==◌,
}

-- `struct cache_entry`: `content` are its first `content_length` bytes.
pub record Entry : Type 0 where
  pub file_path : List ℕ
  pub content : List ℕ
  pub mime_type : List ℕ
  pub last_modified : ℕ
  pub etag : List ℕ
  pub access_time : ℕ
  pub cache_time : ℕ
  pub memory_usage : ℕ
  pub is_compressed : Bool
  pub priority : ℕ
  pub lru_prev : Option ℕ
  pub lru_next : Option ℕ

-- The entries and the two ends of the list, in `struct cache_manager`.
pub record Lru : Type 0 where
  pub heap : ℕ → Entry
  pub lru_head : Option ℕ
  pub lru_tail : Option ℕ

-- Is a pointer the address `j`?
abbrev pub points_to : Option ℕ → ℕ → Bool
points_to none j = false
points_to (some p) j = p == j

-- Writes through a pointer.
abbrev pub with_next : (ℕ → Entry) → ℕ → Option ℕ → ℕ → Entry
with_next heap p v j = if p == j then record (heap j) { lru_next = v } else heap j

abbrev pub with_prev : (ℕ → Entry) → ℕ → Option ℕ → ℕ → Entry
with_prev heap p v j = if p == j then record (heap j) { lru_prev = v } else heap j

abbrev pub unlink_before : Lru → ℕ → Option ℕ → Lru
unlink_before l i none = record l { lru_head = (l.heap i).lru_next }
unlink_before l i (some p) = record l { heap = with_next l.heap p (l.heap i).lru_next }

abbrev pub unlink_after : Lru → ℕ → Option ℕ → Lru
unlink_after l i none = record l { lru_tail = (l.heap i).lru_prev }
unlink_after l i (some n) = record l { heap = with_prev l.heap n (l.heap i).lru_prev }

-- An entry is taken out of the list.
unfoldable pub unlink : Lru → ℕ → Lru
unlink l i =
    let l1 = unlink_before l i (l.heap i).lru_prev in unlink_after l1 i (l1.heap i).lru_next

-- What `cleanup_expired` writes instead where an entry is an end of the list.
abbrev pub sweep_before : Lru → ℕ → Option ℕ → Lru
sweep_before l i none = record l { lru_tail = (l.heap i).lru_next }
sweep_before l i (some p) = record l { heap = with_next l.heap p (l.heap i).lru_next }

abbrev pub sweep_after : Lru → ℕ → Option ℕ → Lru
sweep_after l i none = record l { lru_head = (l.heap i).lru_prev }
sweep_after l i (some n) = record l { heap = with_prev l.heap n (l.heap i).lru_prev }

unfoldable pub sweep : Lru → ℕ → Lru
sweep l i = let l1 = sweep_before l i (l.heap i).lru_prev in sweep_after l1 i (l1.heap i).lru_next

abbrev pub old_head_back : (ℕ → Entry) → Option ℕ → ℕ → (ℕ → Entry)
old_head_back heap none i = heap
old_head_back heap (some h) i = with_prev heap h (some i)

abbrev pub tail_or : Option ℕ → ℕ → Option ℕ
tail_or none i = some i
tail_or (some t) i = some t

-- An entry becomes the head of the list.
unfoldable pub link_head : Lru → ℕ → Lru
link_head l i = record {
  heap = old_head_back (with_next (with_prev l.heap i none) i l.lru_head) l.lru_head i;
  lru_head = some i;
  lru_tail = tail_or l.lru_tail i;
}

abbrev pub is_null : Option ℕ → Bool
is_null none = true
is_null (some p) = false

-- `uvhttp_lru_cache_move_to_head`
unfoldable pub move_to_head : Lru → ℕ → Lru
move_to_head l i =
    if points_to l.lru_head i
    then l
    else if is_null (l.heap i).lru_prev && not (is_null l.lru_head)
    then link_head l i
    else link_head (unlink l i) i

abbrev pub detach : (ℕ → Entry) → ℕ → (ℕ → Entry)
detach heap i = with_next (with_prev heap i none) i none

abbrev pub new_tail : Lru → Option ℕ → Lru
new_tail l none = record l { lru_tail = none; lru_head = none }
new_tail l (some t) = record l { lru_tail = some t; heap = with_next l.heap t none }

abbrev pub remove_tail_at : Lru → Option ℕ → Lru × Option ℕ
remove_tail_at l none = (l, none)
remove_tail_at l (some i) =
    let l1 = new_tail l (l.heap i).lru_prev in (record l1 { heap = detach l1.heap i }, some i)

-- `uvhttp_lru_cache_remove_tail`
unfoldable pub remove_tail : Lru → Lru × Option ℕ
remove_tail l = remove_tail_at l l.lru_tail

-- The loop of `uvhttp_lru_cache_remove_lowest_priority` from an entry towards the head: the first
-- that is not protected. The length of the list is fuel enough.
unfoldable pub unprotected : ℕ → (ℕ → Entry) → Bool → ℕ → Option ℕ → Option ℕ
unprotected zero heap enabled threshold at = none
unprotected (suc fuel) heap enabled threshold none = none
unprotected (suc fuel) heap enabled threshold (some i) =
    let rest = unprotected fuel heap enabled threshold (heap i).lru_prev in
    if enabled && leb threshold (heap i).priority then rest else some i

abbrev pub remove_at : Lru → Option ℕ → Lru × Option ℕ
remove_at l none = (l, none)
remove_at l (some i) = let l1 = unlink l i in (record l1 { heap = detach l1.heap i }, some i)

-- `uvhttp_lru_cache_remove_lowest_priority`
unfoldable pub remove_lowest_priority : ℕ → Lru → Bool → ℕ → Lru × Option ℕ
remove_lowest_priority fuel l enabled threshold =
    remove_at l (unprotected fuel l.heap enabled threshold l.lru_tail)
