-- ===== src/WebSocket/Connection.antt =====
-- The connection of src/uvhttp_websocket.c and what it sends. What the network and the random
-- generator do is the record `Net`. A callback is an event: the model's callbacks leave the
-- connection alone.
use uvhttp.Prelude.{
  ℕ, ◌+◌, ◌-◌, ◌/◌, ◌%◌, ◌^◌, Bool, true, false, not, ◌||◌, List, [], ◌∷◌, Option, none, some,
  if◌then◌else◌, ltb, length, take,
}
use uvhttp.Error.{invalid_param, connection_broken, Result, ok, err}
use uvhttp.WebSocket.Frame.{size_max, build_frame}

pub data State : Type 0 where
  connecting open_state closing closed : State

pub data Event : Type 0 where
  -- `on_message` with the payload and the opcode
  message : List ℕ → ℕ → Event
  -- `on_close` with the code and the bytes at `close_reason`
  closed_by_peer : ℕ → List ℕ → Event
  -- bytes handed to `send`
  sent : List ℕ → Event

-- `random n` is the key drawn when `n` frames have been sent, if the generator is there;
-- `send n bytes` the result of the call of `send` for those bytes, `none` if it is negative.
pub record Net : Type 0 where
  pub random : ℕ → Option (List ℕ)
  pub send : ℕ → List ℕ → Option ℕ

-- `uvhttp_ws_connection_t`. `fragmented` is `fragmented_message` with its first
-- `fragmented_size` bytes, and `recv_buffer` the first `recv_buffer_pos` bytes of the buffer.
pub record Connection : Type 0 where
  pub state : State
  pub is_server : Bool
  pub max_frame_size : ℕ
  pub max_message_size : ℕ
  pub recv_buffer : List ℕ
  pub recv_buffer_size : ℕ
  pub fragmented : Option (List ℕ)
  pub fragmented_capacity : ℕ
  pub fragmented_opcode : ℕ
  pub has_on_message : Bool
  pub has_on_close : Bool
  -- `user_data` leads to a server context
  pub has_context : Bool
  pub bytes_sent : ℕ
  pub frames_sent : ℕ

abbrev pub op_continuation : ℕ
op_continuation = 0

abbrev pub op_text : ℕ
op_text = 1

abbrev pub op_binary : ℕ
op_binary = 2

abbrev pub op_close : ℕ
op_close = 8

abbrev pub op_ping : ℕ
op_ping = 9

abbrev pub op_pong : ℕ
op_pong = 10

abbrev pub is_open : State → Bool
is_open open_state = true
is_open _ = false

-- An operation returns the new connection, what it did, and its error code.
abbrev pub Outcome : Type 0
Outcome = Connection × List Event × Result (Unit {0})

abbrev pub after_send : Connection → List ℕ → Option ℕ → Outcome
after_send c frame none = (c, sent frame ∷ [], err connection_broken)
after_send c frame (some n) = (
  record c { bytes_sent = c.bytes_sent + n; frames_sent = c.frames_sent + 1 },
  sent frame ∷ [],
  ok tt,
)

abbrev pub send_built : Net → Connection → Result (List ℕ) → Outcome
send_built net c (err e) = (c, [], err invalid_param)
send_built net c (ok frame) = after_send c frame (net.send c.frames_sent frame)

-- `uvhttp_ws_send_frame` over a plain socket; only a client masks.
unfoldable pub send_frame : Net → Connection → List ℕ → ℕ → Outcome
send_frame net c payload opcode =
    if not (is_open c.state) || ltb (size_max - 14) (length payload)
    then (c, [], err invalid_param)
    else send_built net c (
        build_frame (net.random c.frames_sent) (10 + length payload + 4) payload opcode
          (not c.is_server) true)

-- `uvhttp_ws_send_text`
abbrev pub send_text : Net → Connection → List ℕ → Outcome
send_text net c text = send_frame net c text op_text

-- `uvhttp_ws_send_binary`
abbrev pub send_binary : Net → Connection → List ℕ → Outcome
send_binary net c bytes = send_frame net c bytes op_binary

-- `uvhttp_ws_send_ping`
abbrev pub send_ping : Net → Connection → List ℕ → Outcome
send_ping net c bytes = send_frame net c bytes op_ping

-- `uvhttp_ws_send_pong`
abbrev pub send_pong : Net → Connection → List ℕ → Outcome
send_pong net c bytes = send_frame net c bytes op_pong

-- `uvhttp_ws_close`: at most 125 bytes of the reason behind the two of the code.
unfoldable pub close : Net → Connection → ℕ → Option (List ℕ) → Outcome
unfolding send_frame
close net c code reason =
    let payload =
      (code / 2 ^ 8 % 256)
      ∷ (code % 256)
      ∷ (elim reason [ none ↦ [] | some text ↦ take 125 text ]) in
    let (c', events, result) = send_frame net c payload op_close in
    (record c' { state = closing }, events, result)
