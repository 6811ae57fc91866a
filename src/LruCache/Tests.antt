-- ===== src/LruCache/Tests.antt =====
-- Lists of three entries in a heap, and the theorems on the list of src/uvhttp_lru_cache.c.
use uvhttp.Prelude.{
  ℕ, false, List, [], ◌∷◌, ◌++◌, none, some, ◌≡◌, refl, ap, length, length-append, arith,
}
use uvhttp.LruCache.{Entry, Lru, unlink, link_head, move_to_head, remove_tail}
use uvhttp.LruCache.Shape.{IsList}
use uvhttp.LruCache.Head.{IsAbsent}
use uvhttp.LruCache.Moves.{move_to_head-IsList, move_to_head-new, remove_tail-IsList}

abbrev entry : ℕ → Entry
entry priority = record {
  file_path = [];
  content = [];
  mime_type = [];
  last_modified = 0;
  etag = [];
  access_time = 0;
  cache_time = 0;
  memory_usage = 0;
  is_compressed = false;
  priority = priority;
  lru_prev = none;
  lru_next = none;
}

abbrev empty : Lru
empty = record { heap = entry; lru_head = none; lru_tail = none }

-- The entries 1 and 2, of which 2 is the head.
abbrev two : Lru
two = move_to_head (move_to_head empty 1) 2

empty-IsList : IsList empty []
empty-IsList = record {
  distinct = λ a b c d j e. absurd (no_cut a b j e);
  head = refl;
  tail = refl;
  prev = λ a b j e. absurd (no_cut a b j e);
  next = λ a b j e. absurd (no_cut a b j e);
}
  where
    no_cut : (a b : List ℕ) (j : ℕ) → [] ≡ a ++ j ∷ b → ⊥
    no_cut a b j e = omega (arith, ap length e, length-append a (j ∷ b))

absent : IsAbsent 1 []
absent a b e = omega (arith, ap length e, length-append a (1 ∷ b))

one-IsList : IsList (move_to_head empty 1) (1 ∷ [])
one-IsList = move_to_head-new empty [] 1 empty-IsList absent refl refl

IsAbsent-two : IsAbsent 2 (1 ∷ [])
IsAbsent-two [] b e = ground arith
IsAbsent-two (a ∷ as_) b e = omega (arith, ap length e, length-append as_ (2 ∷ b))

clear_two : ((move_to_head empty 1).heap 2).lru_prev ≡ none
unfolding move_to_head link_head unlink
clear_two = refl

clear_two_next : ((move_to_head empty 1).heap 2).lru_next ≡ none
unfolding move_to_head link_head unlink
clear_two_next = refl

two-IsList : IsList two (2 ∷ 1 ∷ [])
two-IsList =
    move_to_head-new (move_to_head empty 1) (1 ∷ []) 2 one-IsList IsAbsent-two clear_two
      clear_two_next

move_to_head-IsList_example : IsList (move_to_head two 1) (1 ∷ 2 ∷ [])
move_to_head-IsList_example = move_to_head-IsList two (2 ∷ []) [] 1 two-IsList

remove_tail-IsList_example :
    ((remove_tail two).1 ≡ some 1)
    × IsList (remove_tail two).0 (2 ∷ [])
    × (((remove_tail two).0.heap 1).lru_prev ≡ none)
    × (((remove_tail two).0.heap 1).lru_next ≡ none)
remove_tail-IsList_example = remove_tail-IsList two (2 ∷ []) 1 two-IsList
