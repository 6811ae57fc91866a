-- ===== src/WebSocket/Receive/Keeps.antt =====
-- What handling a frame leaves alone: the receive buffer and the configuration.
use uvhttp.Prelude.{
  ℕ, ◌+◌, ◌-◌, ◌≡◌, subst, Bool, true, false, not, ◌||◌, List, [], Option, none, some, length,
  arith, ltb, Bool-cases, inl, inr, if◌then◌else◌,
}
use uvhttp.Error.{Result, ok, err}
use uvhttp.WebSocket.Frame.{FrameHeader, size_max}
use uvhttp.WebSocket.Connection.{
  Connection, Event, Net, Outcome, send_frame, send_built, after_send, is_open, op_close, op_pong,
}
use uvhttp.WebSocket.Fragments.{
  Handled, handle_data, handle_first, handle_later, start_fragment, fragment_append, store_fragment,
  extend_fragment, finish_fragment, quietly, grown_capacity, gathered, deliver,
}
use uvhttp.WebSocket.Receive.{handle_frame, handle_close, handle_ping, close_echo}

pub record Keeps (c c' : Connection) : Type 0 where
  pub buffer : c'.recv_buffer ≡ c.recv_buffer
  pub size : c'.recv_buffer_size ≡ c.recv_buffer_size
  pub role : c'.is_server ≡ c.is_server
  pub frame_limit : c'.max_frame_size ≡ c.max_frame_size
  pub message_limit : c'.max_message_size ≡ c.max_message_size

send_built-Keeps :
    (net : Net) (c : Connection) (r : Result (List ℕ)) → Keeps c (send_built net c r).0
send_built-Keeps net c (err e) = ground arith
send_built-Keeps net c (ok frame) = go (net.send c.frames_sent frame)
  where
    go : (n : Option ℕ) → Keeps c (after_send c frame n).0
    go none = ground arith
    go (some n) = ground arith

send_frame-Keeps :
    (net : Net) (c : Connection) (payload : List ℕ) (opcode : ℕ)
    → Keeps c (send_frame net c payload opcode).0
unfolding send_frame
send_frame-Keeps net c payload opcode =
    elim (Bool-cases (not (is_open c.state) || ltb (size_max - 14) (length payload))) [
      | inl refused ↦ rw refused (ground arith)
      | inr accepted ↦ rw accepted (send_built-Keeps net c _)
    ]

abbrev HandledKeeps : Connection → Handled → Type 0
HandledKeeps c none = Unit
HandledKeeps c (some (c', _)) = Keeps c c'

abbrev AppendKeeps : Connection → Option Connection → Type 0
AppendKeeps c none = Unit
AppendKeeps c (some c') = Keeps c c'

store_keeps :
    (c : Connection) (payload : List ℕ) (size : Option ℕ)
    → AppendKeeps c (store_fragment c payload size)
store_keeps c payload none = tt
store_keeps c payload (some n) = ground arith

extend-Keeps :
    (c : Connection) (payload : List ℕ) (pending : Option (List ℕ))
    → Keeps c (extend_fragment c payload pending)
extend-Keeps c payload none = ground arith
extend-Keeps c payload (some bytes) = ground arith

append_keeps : (c : Connection) (payload : List ℕ) → AppendKeeps c (fragment_append c payload)
unfolding fragment_append
append_keeps c payload = go _ _
  where
    go :
        (a b : Bool)
        → AppendKeeps c (
            if a
            then none
            else if b
            then store_fragment c payload (
                grown_capacity c.fragmented_capacity
                  (length (gathered c.fragmented) + length payload))
            else some (extend_fragment c payload c.fragmented))
    go true b = tt
    go false true = store_keeps c payload _
    go false false = extend-Keeps c payload c.fragmented

quietly_keeps :
    (c : Connection) (r : Option Connection) → AppendKeeps c r → HandledKeeps c (quietly r)
quietly_keeps c none k = tt
quietly_keeps c (some c') k = k

finish_keeps :
    (c : Connection) (fin : Bool) (r : Option Connection)
    → AppendKeeps c r
    → HandledKeeps c (finish_fragment fin r)
finish_keeps c fin none k = tt
finish_keeps c false (some c') k = k
finish_keeps c true (some c') k = ground arith

reset_keeps :
    (c : Connection) (opcode : ℕ) (r : Option Connection)
    → AppendKeeps
        (record c { fragmented_opcode = opcode; fragmented = none; fragmented_capacity = 0 })
        r
    → AppendKeeps c r
reset_keeps c opcode none k = tt
reset_keeps c opcode (some c') k = record {
  buffer = k.buffer;
  size = k.size;
  role = k.role;
  frame_limit = k.frame_limit;
  message_limit = k.message_limit;
}

handle_data_keeps :
    (c : Connection) (h : FrameHeader) (payload : List ℕ) → HandledKeeps c (handle_data c h payload)
unfolding handle_data handle_first handle_later start_fragment
handle_data_keeps c h payload = go c.fragmented _ _
  where
    go :
        (pending : Option (List ℕ)) (cont fin : Bool)
        → HandledKeeps c (elim pending [
          | none ↦
              if cont
              then none
              else if fin
              then some (c, deliver c payload h.opcode)
              else quietly (
                  fragment_append
                    (record c {
                      fragmented_opcode = h.opcode;
                      fragmented = none;
                      fragmented_capacity = 0;
                    })
                    payload)
          | some _ ↦ if cont then finish_fragment h.fin (fragment_append c payload) else none
        ])
    go none true fin = tt
    go none false true = ground arith
    go none false false = quietly_keeps c _ (reset_keeps c h.opcode _ (append_keeps _ payload))
    go (some bytes) true fin = finish_keeps c h.fin _ (append_keeps c payload)
    go (some bytes) false fin = tt

send_if_Keeps :
    (net : Net) (c : Connection) (b : Bool) (payload : List ℕ) (opcode : ℕ)
    → Keeps c
        (let o : Outcome = if b then send_frame net c payload opcode else (c, [], ok tt) in o.0)
send_if_Keeps net c true payload opcode = send_frame-Keeps net c payload opcode
send_if_Keeps net c false payload opcode = ground arith

handle_close-Keeps :
    (net : Net) (c : Connection) (payload : List ℕ) → Keeps c (handle_close net c payload).0
unfolding handle_close
handle_close-Keeps net c payload =
    let k = send_if_Keeps net c c.has_context (close_echo payload) op_close in
    record {
      buffer = k.buffer;
      size = k.size;
      role = k.role;
      frame_limit = k.frame_limit;
      message_limit = k.message_limit;
    }

handle_ping-Keeps :
    (net : Net) (c : Connection) (payload : List ℕ) → Keeps c (handle_ping net c payload).0
unfolding handle_ping
handle_ping-Keeps net c payload = send_if_Keeps net c c.has_context payload op_pong

handle_frame_keeps :
    (net : Net) (c : Connection) (h : FrameHeader) (payload : List ℕ)
    → HandledKeeps c (handle_frame net c h payload)
unfolding handle_frame
handle_frame_keeps net c h payload = go _ _ _
  where
    go :
        (a b d : Bool)
        → HandledKeeps c (
            if a
            then handle_data c h payload
            else if b
            then some (handle_close net c payload)
            else if d
            then some (handle_ping net c payload)
            else some (c, []))
    go true b d = handle_data_keeps c h payload
    go false true d = handle_close-Keeps net c payload
    go false false true = handle_ping-Keeps net c payload
    go false false false = ground arith

-- Handling a frame leaves the receive buffer and the limits alone.
pub handle_frame-Keeps :
    (net : Net) (c c' : Connection) (h : FrameHeader) (payload : List ℕ) (events : List Event)
    → handle_frame net c h payload ≡ some (c', events)
    → Keeps c c'
handle_frame-Keeps net c c' h payload events e =
    subst (HandledKeeps c) e (handle_frame_keeps net c h payload)
