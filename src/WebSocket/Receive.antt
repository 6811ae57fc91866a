-- ===== src/WebSocket/Receive.antt =====
-- Receiving in src/uvhttp_websocket.c: the handlers of a frame, the loop over buffered frames and
-- the growth of the receive buffer (`uvhttp_ws_process_data`). Allocations succeed. What a round
-- that ends in an error has already written (the payload unmasked in place, the opcode of a first
-- fragment) is not kept.
pub mod Keeps
pub mod Rounds
pub mod Chunks
pub mod Buffer
use uvhttp.Prelude.{
  ℕ, zero, suc, ◌+◌, ◌-◌, ◌*◌, ◌/◌, ◌%◌, ◌^◌, Bool, true, false, not, ◌&&◌, ◌||◌, List, [], ◌∷◌,
  ◌++◌, Option, none, some, if◌then◌else◌, ltb, leb, ◌==◌, length, take, drop,
}
use uvhttp.Error.{invalid_param, connection_broken, Result, ok, err}
use uvhttp.WebSocket.Frame.{FrameHeader, size_max, parse_frame_header, apply_mask, build_frame}
use uvhttp.WebSocket.Connection.{
  Connection, Event, closed_by_peer, closed, Net, Outcome, op_continuation, op_text, op_binary,
  op_close, op_ping, op_pong, send_frame,
}
use uvhttp.WebSocket.Fragments.{double_until, Handled, handle_data}

abbrev pub close_code : List ℕ → ℕ
close_code (a ∷ b ∷ _) = a * 2 ^ 8 + b
close_code _ = 1000

-- The payload of the echo: the code, and at most 125 bytes of the reason.
abbrev pub close_echo : List ℕ → List ℕ
close_echo (a ∷ b ∷ reason) = a ∷ b ∷ take 125 reason
close_echo _ = []

unfoldable pub handle_close : Net → Connection → List ℕ → Connection × List Event
handle_close net c payload =
    let told =
      if c.has_on_close then closed_by_peer (close_code payload) (drop 2 payload) ∷ [] else [] in
    let (c', echoed, _) =
      if c.has_context then send_frame net c (close_echo payload) op_close else (c, [], ok tt) in
    (record c' { state = closed }, told ++ echoed)

unfoldable pub handle_ping : Net → Connection → List ℕ → Connection × List Event
handle_ping net c payload =
    let (c', events, _) =
      if c.has_context then send_frame net c payload op_pong else (c, [], ok tt) in
    (c', events)

abbrev pub is_data : ℕ → Bool
is_data opcode = opcode == op_text || opcode == op_binary || opcode == op_continuation

-- The handler of a complete frame.
unfoldable pub handle_frame : Net → Connection → FrameHeader → List ℕ → Handled
handle_frame net c h payload =
    if is_data h.opcode
    then handle_data c h payload
    else if h.opcode == op_close
    then some (handle_close net c payload)
    else if h.opcode == op_ping
    then some (handle_ping net c payload)
    else some (c, [])

-- The checks on a header that parses.
unfoldable pub is_acceptable : Connection → FrameHeader → Bool
is_acceptable c h =
    not (h.rsv1 || h.rsv2 || h.rsv3)
    && not (leb op_close h.opcode && (ltb 125 h.payload_length || not h.fin))
    && not (c.is_server && not h.mask)
    && leb h.payload_length c.max_frame_size

abbrev pub frame_size : FrameHeader → ℕ → ℕ
frame_size h header_size = header_size + h.payload_length + (if h.mask then 4 else 0)

-- The payload of a complete frame, unmasked.
unfoldable pub frame_payload : FrameHeader → ℕ → List ℕ → List ℕ
frame_payload h header_size buffer =
    let body = drop header_size buffer in
    if h.mask
    then apply_mask (take 4 body) (take h.payload_length (drop 4 body))
    else take h.payload_length body

-- One round of the loop: leave it to wait for more, fail, or go on behind the frame.
pub data Round : Type 0 where
  wait : Round
  fail : Round
  next : Connection → List Event → List ℕ → Round

abbrev pub next_of : List ℕ → Handled → Round
next_of rest none = fail
next_of rest (some (c, events)) = next c events rest

abbrev pub second_byte : List ℕ → ℕ
second_byte (a ∷ b ∷ _) = b
second_byte _ = 0

-- Is a header that does not parse only too short?
abbrev pub is_partial : List ℕ → Bool
is_partial buffer =
    let code = second_byte buffer % 128 in
    ltb (length buffer) (if code == 126 then 4 else if code == 127 then 10 else 2)

abbrev pub round_parsed : Net → Connection → List ℕ → Result (FrameHeader × ℕ) → Round
round_parsed net c buffer (err e) = if is_partial buffer then wait else fail
round_parsed net c buffer (ok (h, header_size)) =
    if not (is_acceptable c h)
    then fail
    else if ltb (length buffer) (frame_size h header_size)
    then wait
    else next_of (drop (frame_size h header_size) buffer)
        (handle_frame net c h (frame_payload h header_size buffer))

unfoldable pub round : Net → Connection → List ℕ → Round
round net c buffer =
    if ltb (length buffer) 2 then wait else round_parsed net c buffer (parse_frame_header buffer)

abbrev pub after : List Event → Outcome → Outcome
after events (c, more, result) = (c, events ++ more, result)

abbrev pub after_all : List Event → Option Outcome → Option Outcome
after_all events none = none
after_all events (some o) = some (after events o)

-- What a round leads to; `more` is the rest of the loop.
abbrev pub go_on :
    (Connection → List ℕ → Option Outcome) → Connection → List ℕ → Round → Option Outcome
go_on more c buffer wait = some (record c { recv_buffer = buffer }, [], ok tt)
go_on more c buffer fail = some (record c { recv_buffer = buffer }, [], err invalid_param)
go_on more c buffer (next c' events rest) = after_all events (more c' rest)

-- The loop over complete frames, with the bytes of the receive buffer beside the connection, or
-- none where it has not ended in `fuel` rounds.
unfoldable pub process_frames : ℕ → Net → Connection → List ℕ → Option Outcome
process_frames zero net c buffer = none
process_frames (suc fuel) net c buffer =
    go_on (process_frames fuel net) c buffer (round net c buffer)

-- The size of the receive buffer that holds `needed` bytes: doubled at least once, and cut to
-- `max_frame_size`.
abbrev pub cut_to : ℕ → ℕ → Option ℕ → Option ℕ
cut_to limit needed none = none
cut_to limit needed (some size) =
    if ltb limit size then if ltb limit needed then none else some limit else some size

unfoldable pub reserve : Connection → ℕ → Option ℕ
reserve c needed =
    if ltb c.recv_buffer_size needed
    then cut_to c.max_frame_size needed (
        if ltb (size_max / 2) c.recv_buffer_size
        then none
        else double_until 65 (c.recv_buffer_size * 2) needed)
    else some c.recv_buffer_size

-- `uvhttp_ws_process_data`, where allocations succeed. Each frame takes bytes from the buffer, so
-- one round more than it has bytes is fuel enough.
unfoldable pub process_data : Net → Connection → List ℕ → Option Outcome
process_data net c bytes =
    let buffer = c.recv_buffer ++ bytes in
    elim (reserve c (length buffer)) [
      | none ↦ some (c, [], err invalid_param)
      | some size ↦
          process_frames (suc (length buffer)) net
            (record c { recv_buffer = []; recv_buffer_size = size }) buffer
    ]
