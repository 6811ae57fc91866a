-- ===== src/WebSocket/Receive/Rounds.antt =====
-- The rounds of the receive loop: one takes bytes from the buffer, and more bytes change nothing in
-- it; the loop ends.
use uvhttp.Prelude.{
  ℕ, zero, suc, ◌+◌, ◌≤◌, ◌<◌, ◌≡◌, refl, ap, ◌∙◌, Bool, true, false, not, List, [], ◌++◌, none,
  some, ◌⊎◌, Option-cases, length, drop, length-append, length-drop, drop-append, take-append,
  arith, ltb, le→ltb, if◌then◌else◌, Bool-cases, inl, inr,
}
use uvhttp.Error.{Error, invalid_param, Result, ok, err}
use uvhttp.WebSocket.Frame.{FrameHeader, parse_frame_header}
use uvhttp.WebSocket.Frame.Header.{parse_frame_header-append}
use uvhttp.WebSocket.Connection.{Connection, Event, Net, Outcome}
use uvhttp.WebSocket.Fragments.{Handled}
use uvhttp.WebSocket.Receive.Keeps.{Keeps, handle_frame-Keeps}
use uvhttp.WebSocket.Receive.{
  frame_size, frame_payload, is_acceptable, Round, wait, fail, next, next_of, round_parsed, round,
  after_all, go_on, process_frames, handle_frame, reserve, process_data,
}

frame_payload-append :
    (h : FrameHeader) (header_size : ℕ) (xs ys : List ℕ)
    → frame_size h header_size ≤ length xs
    → frame_payload h header_size (xs ++ ys) ≡ frame_payload h header_size xs
unfolding frame_payload
frame_payload-append h header_size xs ys fits = elim (Bool-cases h.mask) [
  | inl masked ↦
      let room : header_size + h.payload_length + 4 ≤ length xs = ground arith in
      rw (
        masked,
        drop-append header_size xs ys (omega arith),
        take-append 4 (drop header_size xs) ys (omega (arith, length-drop header_size xs)),
        drop-append 4 (drop header_size xs) ys (omega (arith, length-drop header_size xs)),
        take-append h.payload_length (drop 4 (drop header_size xs)) ys
            (omega (arith, length-drop header_size xs, length-drop 4 (drop header_size xs))),
      )
  | inr plain ↦
      let room : header_size + h.payload_length ≤ length xs = ground arith in
      rw (
        plain,
        drop-append header_size xs ys (omega arith),
        take-append h.payload_length (drop header_size xs) ys
            (omega (arith, length-drop header_size xs)),
      )
]

-- A complete frame is handled alike whatever bytes follow it, and takes bytes from the buffer.
pub record Advances (net : Net) (c : Connection) (xs ys : List ℕ) (c' : Connection)
    (events : List Event) (rest : List ℕ) : Type 0 where
  pub keeps : Keeps c c'
  pub shrinks : length rest < length xs
  pub same : round net c (xs ++ ys) ≡ next c' events (rest ++ ys)

next_of-eq-next :
    (rest : List ℕ) (r : Handled) {c' : Connection} {events : List Event} {rest' : List ℕ}
    → next_of rest r ≡ next c' events rest'
    → (r ≡ some (c', events)) × (rest ≡ rest')
next_of-eq-next rest none e = cc
next_of-eq-next rest (some (c, events)) e = (cc, cc)

guarded-eq-next :
    (a b : Bool) (r : Round) {c' : Connection} {events : List Event} {rest : List ℕ}
    → (if not a then fail else if b then wait else r) ≡ next c' events rest
    → (a ≡ true) × (b ≡ false) × (r ≡ next c' events rest)
guarded-eq-next true false r e = (refl, refl, e)
guarded-eq-next true true r e = cc
guarded-eq-next false b r e = cc

pub err-ne-ok : {x : Error} {u : Unit {0}} → err x ≡ ok u → ⊥
err-ne-ok e = cc

wait-ne-next :
    {c' : Connection} {events : List Event} {rest : List ℕ} → wait ≡ next c' events rest → ⊥
wait-ne-next e = cc

-- The round on a buffer that holds a complete acceptable frame.
round_of_parsed :
    (net : Net) (c c' : Connection) (buffer : List ℕ) (h : FrameHeader) (header_size : ℕ)
    (events : List Event)
    → 2 ≤ length buffer
    → parse_frame_header buffer ≡ ok (h, header_size)
    → is_acceptable c h ≡ true
    → frame_size h header_size ≤ length buffer
    → handle_frame net c h (frame_payload h header_size buffer) ≡ some (c', events)
    → round net c buffer ≡ next c' events (drop (frame_size h header_size) buffer)
unfolding round
round_of_parsed net c c' buffer h header_size events two parsed accepted fits handled = rw (
  le→ltb (length buffer) 2 two,
  parsed,
  accepted,
  le→ltb (length buffer) (frame_size h header_size) fits,
  handled,
)

module _ (net : Net) (c c' : Connection) (xs ys rest : List ℕ) (events : List Event) where
  parsed-Advances :
      (r : Result (FrameHeader × ℕ))
      → parse_frame_header xs ≡ r
      → 2 ≤ length xs
      → round_parsed net c xs r ≡ next c' events rest
      → Advances net c xs ys c' events rest
  parsed-Advances (err x) parsed two e = ground arith
  parsed-Advances (ok (h, header_size)) parsed two e =
      let (parsed', inside, at_least) = parse_frame_header-append xs ys parsed in
      let (accepted, complete, going) =
        guarded-eq-next (is_acceptable c h) (ltb (length xs) (frame_size h header_size)) _ e in
      let room : frame_size h header_size ≤ length xs = ground arith in
      let (handled, behind) =
        next_of-eq-next (drop (frame_size h header_size) xs)
          (handle_frame net c h (frame_payload h header_size xs)) going in
      record {
        keeps = handle_frame-Keeps net c c' h (frame_payload h header_size xs) events handled;
        shrinks = omega (arith, ap length behind, length-drop (frame_size h header_size) xs);
        same =
            rw (← behind, ← drop-append _ xs ys room)
              (round_of_parsed net c c' (xs ++ ys) h header_size events
                (omega (arith, length-append xs ys)) parsed' accepted
                (omega (arith, length-append xs ys))
                (rw (frame_payload-append h header_size xs ys room) handled));
      }

  pub round-Advances : round net c xs ≡ next c' events rest → Advances net c xs ys c' events rest
  unfolding round
  round-Advances e = elim (Bool-cases (ltb (length xs) 2)) [
    | inl short ↦ absurd (wait-ne-next (rw short at e))
    | inr enough ↦ parsed-Advances (parse_frame_header xs) refl (ground arith) (rw enough at e)
  ]

-- A run of the loop that ends, without a bound on its rounds: the last round waits or fails, the
-- others go on behind a frame.
pub data Runs (net : Net) : Connection → List ℕ → Outcome → Type 0 where
  waits :
      {c : Connection} {buffer : List ℕ}
      → round net c buffer ≡ wait
      → Runs net c buffer (record c { recv_buffer = buffer }, [], ok tt)
  fails :
      {c : Connection} {buffer : List ℕ}
      → round net c buffer ≡ fail
      → Runs net c buffer (record c { recv_buffer = buffer }, [], err invalid_param)
  goes :
      {c c1 c2 : Connection} {buffer rest : List ℕ} {events more : List Event}
      {result : Result (Unit {0})}
      → round net c buffer ≡ next c1 events rest
      → Runs net c1 rest (c2, more, result)
      → Runs net c buffer (c2, events ++ more, result)

-- With more fuel than there are bytes in the buffer the loop ends.
pub process_frames-Runs :
    (f : ℕ) (net : Net) (c : Connection) (buffer : List ℕ)
    → length buffer < f
    → (o : Outcome) × (process_frames f net c buffer ≡ some o) × Runs net c buffer o
unfolding process_frames round
process_frames-Runs zero net c buffer lt = absurd (omega arith)
process_frames-Runs (suc f) net c buffer lt =
    go (round net c buffer) refl (λ c1 rest. process_frames-Runs f net c1 rest)
  where
    go :
        (r : Round)
        → round net c buffer ≡ r
        → ((c1 : Connection) (rest : List ℕ)
            → length rest < f
            → (o : Outcome) × (process_frames f net c1 rest ≡ some o) × Runs net c1 rest o)
        → (o : Outcome) × (go_on (process_frames f net) c buffer r ≡ some o) × Runs net c buffer o
    go wait e ih = (_, refl, waits e)
    go fail e ih = (_, refl, fails e)
    go (next c1 events rest) e ih =
        let a = round-Advances net c c1 buffer [] rest events e in
        let ((c2, more, result), same, runs) = ih c1 rest (omega (arith, a.shrinks)) in
        ((c2, events ++ more, result), ap (after_all events) same, goes e runs)

-- A run of the loop is what the loop does, whatever fuel it has beyond the bytes of the buffer.
pub process_frames-of_Runs :
    (f : ℕ) (net : Net) (c : Connection) (buffer : List ℕ) (o : Outcome)
    → Runs net c buffer o
    → length buffer < f
    → process_frames f net c buffer ≡ some o
unfolding process_frames
process_frames-of_Runs zero net c buffer o runs lt = absurd (omega arith)
process_frames-of_Runs (suc f) net c buffer o (waits e) lt = rw e refl
process_frames-of_Runs (suc f) net c buffer o (fails e) lt = rw e refl
process_frames-of_Runs (suc f) net c buffer o
      (goes {c1 = c1} {rest = rest} {events = events} e runs) lt =
    let a = round-Advances net c c1 buffer [] rest events e in
    rw (e, process_frames-of_Runs f net c1 rest _ runs (omega (arith, a.shrinks))) refl

-- A run keeps at most the bytes that it was given, in a buffer of the same size.
pub record Leaves (c : Connection) (buffer : List ℕ) (o : Outcome) : Type 0 where
  pub fewer : length o.0.recv_buffer ≤ length buffer
  pub size : o.0.recv_buffer_size ≡ c.recv_buffer_size

pub Runs-Leaves :
    (net : Net) (c : Connection) (buffer : List ℕ) (o : Outcome)
    → Runs net c buffer o
    → Leaves c buffer o
Runs-Leaves net c buffer o (waits e) = record { fewer = omega arith; size = refl }
Runs-Leaves net c buffer o (fails e) = record { fewer = omega arith; size = refl }
Runs-Leaves net c buffer o (goes {c1 = c1} {rest = rest} {events = events} e runs) =
    let a = round-Advances net c c1 buffer [] rest events e in
    let l = Runs-Leaves net c1 rest _ runs in
    record { fewer = omega (arith, l.fewer, a.shrinks); size = l.size ∙ a.keeps.size }

-- What the bytes that arrive lead to: they are refused, since there is no room for them, or a run
-- of the loop over all bytes that are buffered ends so.
abbrev pub Ends : Net → Connection → List ℕ → Outcome → Type 0
Ends net c bytes o =
    ((reserve c (length (c.recv_buffer ++ bytes)) ≡ none) × (o ≡ (c, [], err invalid_param)))
    ⊎ ((size : ℕ) × (reserve c (length (c.recv_buffer ++ bytes)) ≡ some size)
        × Runs net (record c { recv_buffer = []; recv_buffer_size = size }) (c.recv_buffer ++ bytes)
            o)

pub process_data-Ends :
    (net : Net) (c : Connection) (bytes : List ℕ)
    → (o : Outcome) × (process_data net c bytes ≡ some o) × Ends net c bytes o
unfolding process_data
process_data-Ends net c bytes = elim (Option-cases (reserve c (length (c.recv_buffer ++ bytes)))) [
  | inl full ↦ (_, rw (full, process_data) refl, inl (full, refl))
  | inr (size, has) ↦
      let (o, same, runs) =
        process_frames-Runs (suc (length (c.recv_buffer ++ bytes))) net
          (record c { recv_buffer = []; recv_buffer_size = size }) (c.recv_buffer ++ bytes)
          (omega arith) in
      (o, rw (has, process_data) same, inr (size, has, runs))
]
