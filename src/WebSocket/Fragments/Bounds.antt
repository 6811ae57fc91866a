-- ===== src/WebSocket/Fragments/Bounds.antt =====
-- The size of the pending message: within its buffer, and within the configured limit.
use uvhttp.Prelude.{
  ℕ, zero, suc, ◌+◌, ◌*◌, ◌≤◌, ◌<◌, ◌≡◌, refl, subst, Bool, true, false, List, Option, none, some,
  length, length-append, arith, ◌⊎◌, Bool-cases, ◌==◌, inl, inr,
}
use mathlib.Core.Option.{some-injective}
use uvhttp.WebSocket.Connection.{Connection, Event, op_continuation}
use uvhttp.WebSocket.Frame.{FrameHeader}
use uvhttp.WebSocket.Fragments.{
  double_until, grown_capacity, gathered, Handled, quietly, finish_fragment, fragment_append,
  store_fragment, extend_fragment, start_fragment, handle_first, handle_later, handle_data,
}

-- A pending message lies in its buffer, and keeps to `max_message_size` where that is set.
pub record IsBounded (c : Connection) : Type 0 where
  pub stored : length (gathered c.fragmented) ≤ c.fragmented_capacity
  pub limited : 0 < c.max_message_size → length (gathered c.fragmented) ≤ c.max_message_size

-- The doubling stops at a size that suffices.
pub double_until-le :
    (fuel capacity required size : ℕ)
    → double_until fuel capacity required ≡ some size
    → required ≤ size
unfolding double_until
double_until-le zero capacity required size e = cc
double_until-le (suc fuel) capacity required size e =
    ground (arith, double_until-le fuel (capacity * 2) required size)

grown_capacity-le :
    (capacity required size : ℕ) → grown_capacity capacity required ≡ some size → required ≤ size
unfolding grown_capacity
grown_capacity-le capacity required size e =
    ground (arith, double_until-le 65 capacity required size)

stored_bounds :
    (c : Connection) (payload : List ℕ) (grown : Option ℕ) (c' : Connection)
    → (length (gathered c.fragmented) + length payload ≤ c.max_message_size
        ⊎ c.max_message_size ≡ 0)
    → ((size : ℕ) → grown ≡ some size → length (gathered c.fragmented) + length payload ≤ size)
    → store_fragment c payload grown ≡ some c'
    → IsBounded c'
stored_bounds c payload none c' room fits e = cc
stored_bounds c payload (some size) c' room fits e =
    subst IsBounded (some-injective _ _ e) (record {
      stored = omega (arith, fits size refl, length-append (gathered c.fragmented) payload);
      limited = λ set. omega (arith, length-append (gathered c.fragmented) payload);
    })

extended_bounds :
    (c : Connection) (payload : List ℕ) (pending : Option (List ℕ))
    → c.fragmented ≡ pending
    → (length (gathered c.fragmented) + length payload ≤ c.max_message_size
        ⊎ c.max_message_size ≡ 0)
    → length (gathered c.fragmented) + length payload ≤ c.fragmented_capacity
    → IsBounded (extend_fragment c payload pending)
extended_bounds c payload none is room fits = record {
  stored = omega arith;
  limited = λ set. omega arith;
}
extended_bounds c payload (some bytes) is room fits = ground (arith, length-append bytes payload)

pub fragment_append-IsBounded :
    (c c' : Connection) (payload : List ℕ)
    → IsBounded c
    → fragment_append c payload ≡ some c'
    → IsBounded c'
unfolding fragment_append
fragment_append-IsBounded c c' payload v e = ground (
  arith,
  stored_bounds c payload
      (grown_capacity c.fragmented_capacity (length (gathered c.fragmented) + length payload)) c',
  extended_bounds c payload c.fragmented refl,
  λ (size : ℕ).
      grown_capacity-le c.fragmented_capacity (length (gathered c.fragmented) + length payload)
        size,
)

abbrev HandledWell : Handled → Type 0
HandledWell none = Unit
HandledWell (some (c, _)) = IsBounded c

abbrev AppendedWell : Option Connection → Type 0
AppendedWell none = Unit
AppendedWell (some c) = IsBounded c

appended_well :
    (c : Connection) (payload : List ℕ) → IsBounded c → AppendedWell (fragment_append c payload)
appended_well c payload v = go (fragment_append c payload) refl
  where
    go : (r : Option Connection) → fragment_append c payload ≡ r → AppendedWell r
    go none e = tt
    go (some c') e = fragment_append-IsBounded c c' payload v e

quietly-well : (r : Option Connection) → AppendedWell r → HandledWell (quietly r)
quietly-well none h = tt
quietly-well (some c) h = h

finish-well :
    (fin : Bool) (r : Option Connection) → AppendedWell r → HandledWell (finish_fragment fin r)
finish-well fin none h = tt
finish-well false (some c) h = h
finish-well true (some c) h = omega arith

handle_first-well :
    (c : Connection) (h : FrameHeader) (payload : List ℕ)
    → IsBounded c
    → HandledWell (handle_first c h payload)
unfolding handle_first start_fragment
handle_first-well c h payload v = elim (Bool-cases (h.opcode == op_continuation)) [
  | inl cont ↦ rw cont tt
  | inr fresh ↦ elim (Bool-cases h.fin) [
    | inl final ↦ rw (fresh, final) v
    | inr first ↦ rw (fresh, first) (quietly-well _ (appended_well _ payload (omega arith)))
  ]
]

handle_later-well :
    (c : Connection) (h : FrameHeader) (payload : List ℕ)
    → IsBounded c
    → HandledWell (handle_later c h payload)
unfolding handle_later
handle_later-well c h payload v = elim (Bool-cases (h.opcode == op_continuation)) [
  | inl cont ↦ rw cont (finish-well h.fin _ (appended_well c payload v))
  | inr fresh ↦ rw fresh tt
]

handle_data-well :
    (c : Connection) (h : FrameHeader) (payload : List ℕ)
    → IsBounded c
    → HandledWell (handle_data c h payload)
unfolding handle_data
handle_data-well c h payload v = go c.fragmented
  where
    go :
        (pending : Option (List ℕ))
        → HandledWell
            (elim pending [ none ↦ handle_first c h payload | some _ ↦ handle_later c h payload ])
    go none = handle_first-well c h payload v
    go (some bytes) = handle_later-well c h payload v

-- Whatever data frame arrives, a pending message keeps within its buffer and within
-- `max_message_size`, where that limit is set.
pub handle_data-IsBounded :
    (c c' : Connection) (h : FrameHeader) (payload : List ℕ) (events : List Event)
    → IsBounded c
    → handle_data c h payload ≡ some (c', events)
    → IsBounded c'
handle_data-IsBounded c c' h payload events v e =
    subst HandledWell e (handle_data-well c h payload v)
