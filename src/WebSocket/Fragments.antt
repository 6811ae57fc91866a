-- ===== src/WebSocket/Fragments.antt =====
-- Fragment reassembly of src/uvhttp_websocket.c: `uvhttp_ws_fragment_append` and the branch of
-- `uvhttp_ws_process_data` for TEXT, BINARY and CONTINUATION frames. Allocations succeed.
pub mod Bounds
pub mod Append
pub mod Reassembly
use uvhttp.Prelude.{
  ℕ, zero, suc, ◌+◌, ◌-◌, ◌*◌, ◌/◌, ◌%◌, ◌^◌, Bool, true, false, not, ◌&&◌, ◌||◌, List, [], ◌∷◌,
  ◌++◌, Option, none, some, if◌then◌else◌, ltb, leb, ◌==◌, length, take, drop,
}
use uvhttp.Error.{invalid_param, connection_broken, Result, ok, err}
use uvhttp.WebSocket.Frame.{FrameHeader, size_max, parse_frame_header, apply_mask, build_frame}
use uvhttp.WebSocket.Connection.{Connection, Event, message, op_continuation}

-- The doubling loop of `uvhttp_ws_fragment_append`; 64 rounds pass SIZE_MAX / 2.
unfoldable pub double_until : ℕ → ℕ → ℕ → Option ℕ
double_until zero capacity required = none
double_until (suc fuel) capacity required =
    let rest = double_until fuel (capacity * 2) required in
    if ltb capacity required
    then if ltb (size_max / 2) capacity then none else rest
    else some capacity

unfoldable pub grown_capacity : ℕ → ℕ → Option ℕ
unfolding double_until
grown_capacity capacity required =
    if capacity == 0 then some required else double_until 65 capacity required

-- The bytes gathered so far; none where no message is pending.
abbrev pub gathered : Option (List ℕ) → List ℕ
gathered none = []
gathered (some bytes) = bytes

abbrev pub store_fragment : Connection → List ℕ → Option ℕ → Option Connection
store_fragment c payload none = none
store_fragment c payload (some capacity) = some (record c {
  fragmented = some (gathered c.fragmented ++ payload);
  fragmented_capacity = capacity;
})

-- `memcpy` of the payload where no growth is needed: an empty payload leaves a NULL buffer NULL.
abbrev pub extend_fragment : Connection → List ℕ → Option (List ℕ) → Connection
extend_fragment c payload none = c
extend_fragment c payload (some bytes) = record c { fragmented = some (bytes ++ payload) }

-- `uvhttp_ws_fragment_append`, where allocations succeed; `none` is INVALID_PARAM.
unfoldable pub fragment_append : Connection → List ℕ → Option Connection
fragment_append c payload =
    let size = length (gathered c.fragmented) in
    let n = length payload in
    if ltb 0 c.max_message_size
      && (ltb c.max_message_size size || ltb (c.max_message_size - size) n)
    then none
    else if ltb (c.fragmented_capacity - size) n
    then store_fragment c payload (grown_capacity c.fragmented_capacity (size + n))
    else some (extend_fragment c payload c.fragmented)

-- What handling a frame gives: the connection and what it did, or a protocol error.
abbrev pub Handled : Type 0
Handled = Option (Connection × List Event)

abbrev pub quietly : Option Connection → Handled
quietly none = none
quietly (some c) = some (c, [])

-- A first frame that is not final.
unfoldable pub start_fragment : Connection → ℕ → List ℕ → Handled
start_fragment c opcode payload = quietly (
    fragment_append
      (record c { fragmented_opcode = opcode; fragmented = none; fragmented_capacity = 0 }) payload)

abbrev pub deliver : Connection → List ℕ → ℕ → List Event
deliver c bytes opcode = if c.has_on_message then message bytes opcode ∷ [] else []

-- A final continuation delivers the message and resets the fragment.
abbrev pub finish_fragment : Bool → Option Connection → Handled
finish_fragment fin none = none
finish_fragment false (some c) = some (c, [])
finish_fragment true (some c) = some (
  record c { fragmented = none; fragmented_capacity = 0 },
  deliver c (gathered c.fragmented) c.fragmented_opcode,
)

unfoldable pub handle_first : Connection → FrameHeader → List ℕ → Handled
unfolding start_fragment
handle_first c h payload =
    if h.opcode == op_continuation
    then none
    else if h.fin
    then some (c, deliver c payload h.opcode)
    else start_fragment c h.opcode payload

unfoldable pub handle_later : Connection → FrameHeader → List ℕ → Handled
handle_later c h payload =
    if h.opcode == op_continuation then finish_fragment h.fin (fragment_append c payload) else none

-- TEXT, BINARY and CONTINUATION.
unfoldable pub handle_data : Connection → FrameHeader → List ℕ → Handled
handle_data c h payload = elim c.fragmented [
  | none ↦ handle_first c h payload
  | some _ ↦ handle_later c h payload
]
