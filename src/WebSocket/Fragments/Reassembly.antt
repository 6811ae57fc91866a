-- ===== src/WebSocket/Fragments/Reassembly.antt =====
-- A fragmented message is delivered once, whole and in order.
use uvhttp.Prelude.{
  ℕ, ◌<◌, ◌≡◌, refl, subst, true, false, List, [], ◌∷◌, ◌++◌, none, some, length, length-append,
  arith, append_assoc, append-nil, sym, ◌∙◌, ◌≢◌,
}
use uvhttp.WebSocket.Connection.{Connection, Event, message, op_continuation}
use uvhttp.WebSocket.Frame.{FrameHeader}
use uvhttp.WebSocket.Fragments.{
  grown_capacity, fragment_append, start_fragment, handle_first, handle_later, handle_data, Handled,
  finish_fragment,
}
use uvhttp.WebSocket.Fragments.Bounds.{IsBounded}
use uvhttp.WebSocket.Fragments.Append.{Appended, HasRoom, fragment_append-Appended}

abbrev prepend : List Event → Handled → Handled
prepend events none = none
prepend events (some (c, more)) = some (c, events ++ more)

-- Handling data frames in turn, up to the first protocol error.
pub feed : Connection → List (FrameHeader × List ℕ) → Handled
feed c [] = some (c, [])
feed c ((h, payload) ∷ frames) = elim (handle_data c h payload) [
  | none ↦ none
  | some (c', events) ↦ prepend events (feed c' frames)
]

abbrev pub payloads : List (FrameHeader × List ℕ) → List ℕ
payloads [] = []
payloads ((h, payload) ∷ frames) = payload ++ payloads frames

-- CONTINUATION frames of which just the last is final.
abbrev pub IsTail : List (FrameHeader × List ℕ) → Type 0
IsTail [] = ⊥
IsTail ((h, _) ∷ []) = (h.opcode ≡ op_continuation) × (h.fin ≡ true)
IsTail ((h, _) ∷ f ∷ fs) = (h.opcode ≡ op_continuation) × (h.fin ≡ false) × IsTail (f ∷ fs)

handle_data_pending :
    (c : Connection) (h : FrameHeader) (payload pending : List ℕ)
    → c.fragmented ≡ some pending
    → h.opcode ≡ op_continuation
    → handle_data c h payload ≡ finish_fragment h.fin (fragment_append c payload)
unfolding handle_data handle_later
handle_data_pending c h payload pending is op = ground arith

pending_step :
    (c c' : Connection) (h : FrameHeader) (payload pending : List ℕ)
    → c.fragmented ≡ some pending
    → h.opcode ≡ op_continuation
    → h.fin ≡ false
    → fragment_append c payload ≡ some c'
    → handle_data c h payload ≡ some (c', [])
pending_step c c' h payload pending is op fin e =
    ground (arith, handle_data_pending c h payload pending)

feed_step :
    (c c' c'' : Connection) (h : FrameHeader) (payload : List ℕ)
    (frames : List (FrameHeader × List ℕ)) (events : List Event)
    → handle_data c h payload ≡ some (c', [])
    → feed c' frames ≡ some (c'', events)
    → feed c ((h, payload) ∷ frames) ≡ some (c'', events)
unfolding feed
feed_step c c' c'' h payload frames events e k = ground arith

-- The result of feeding the rest of a message.
abbrev pub Delivers : Connection → List (FrameHeader × List ℕ) → List ℕ → ℕ → Type 0
Delivers c frames bytes opcode =
    (c' : Connection) × (feed c frames ≡ some (c', message bytes opcode ∷ []))
    × (c'.fragmented ≡ none)

feed_tail :
    (c : Connection) (frames : List (FrameHeader × List ℕ)) (pending : List ℕ)
    → IsBounded c
    → c.fragmented ≡ some pending
    → c.has_on_message ≡ true
    → IsTail frames
    → HasRoom c (length (pending ++ payloads frames))
    → Delivers c frames (pending ++ payloads frames) c.fragmented_opcode
unfolding feed
feed_tail c [] pending v is on t room = absurd t
feed_tail c ((h, payload) ∷ []) pending v is on (op, fin) room =
    let (c', e, a) = fragment_append-Appended c pending payload v is (rw append-nil at room) in
    let handled = handle_data_pending c h payload pending is op in
    (
      record c' { fragmented = none; fragmented_capacity = 0 },
      rw append-nil (ground (arith, handled, e)),
      refl,
    )
feed_tail c ((h, payload) ∷ f ∷ fs) pending v is on (op, fin, t) room =
    let (c', e, a) = fragment_append-Appended c pending payload v is (shorter room) in
    let step = pending_step c c' h payload pending is op fin e in
    let (c'', fed, reset) =
      feed_tail c' (f ∷ fs) (pending ++ payload) a.bounded a.whole (a.listens ∙ on) t (
        subst (λ l. HasRoom c' (length l)) (sym (append_assoc pending payload (payloads (f ∷ fs))))
          (same room a)) in
    (c'', feed_step c c' c'' h payload (f ∷ fs) _ step (fed ∙ whole a c''), reset)
  where
    same :
        {c' : Connection} {bytes : List ℕ} {n : ℕ}
        → HasRoom c n
        → Appended c c' bytes
        → HasRoom c' n
    same r a = ground arith

    whole :
        {c' : Connection}
        → Appended c c' (pending ++ payload)
        → (c'' : Connection)
        → ◌≡◌ {A = Handled}
            (some
              (c'', message (pending ++ payload ++ payloads (f ∷ fs)) c'.fragmented_opcode ∷ []))
            (some
              (c'', message (pending ++ (payload ++ payloads (f ∷ fs))) c.fragmented_opcode ∷ []))
    whole a c'' = ground (arith, append_assoc pending payload (payloads (f ∷ fs)))

    shorter :
        HasRoom c (length (pending ++ (payload ++ payloads (f ∷ fs))))
        → HasRoom c (length (pending ++ payload))
    shorter r = ground (
      arith,
      length-append pending payload,
      length-append pending (payload ++ payloads (f ∷ fs)),
      length-append payload (payloads (f ∷ fs)),
    )

abbrev started : Connection → ℕ → List ℕ → Connection
started c opcode payload = record c {
  fragmented_opcode = opcode;
  fragmented = some payload;
  fragmented_capacity = length payload;
}

handle_data_first :
    (c : Connection) (h : FrameHeader) (payload : List ℕ)
    → c.fragmented ≡ none
    → h.opcode ≢ op_continuation
    → h.fin ≡ false
    → 0 < length payload
    → HasRoom c (length payload)
    → handle_data c h payload ≡ some (started c h.opcode payload, [])
unfolding handle_data handle_first start_fragment fragment_append grown_capacity
handle_data_first c h payload idle op fin pos room = ground arith

-- A message that comes as a first frame, not empty, and continuations of which just the last is
-- final is delivered as one message: the payloads in order, under the opcode of the first frame;
-- nothing is pending afterwards. No message was pending, there is a listener, and the whole has at
-- most 2^63 bytes and keeps to `max_message_size`, where that is set.
pub feed-message :
    (c : Connection) (h : FrameHeader) (payload : List ℕ) (frames : List (FrameHeader × List ℕ))
    → c.fragmented ≡ none
    → c.has_on_message ≡ true
    → h.opcode ≢ op_continuation
    → h.fin ≡ false
    → 0 < length payload
    → IsTail frames
    → HasRoom c (length (payload ++ payloads frames))
    → Delivers c ((h, payload) ∷ frames) (payload ++ payloads frames) h.opcode
feed-message c h payload frames idle on op fin pos t room =
    let (c'', fed, reset) =
      feed_tail (started c h.opcode payload) frames payload (starts room) refl on t room in
    (
      c'',
      feed_step c (started c h.opcode payload) c'' h payload frames _
          (handle_data_first c h payload idle op fin pos (shorter room)) fed,
      reset,
    )
  where
    shorter : HasRoom c (length (payload ++ payloads frames)) → HasRoom c (length payload)
    shorter r = ground (arith, length-append payload (payloads frames))

    starts :
        HasRoom c (length (payload ++ payloads frames)) → IsBounded (started c h.opcode payload)
    starts r = ground (arith, length-append payload (payloads frames))

-- An empty first frame, not final, is forgotten: the continuation that follows it is refused as a
-- protocol error, whatever it holds.
pub feed-empty_first :
    (c : Connection) (h k : FrameHeader) (payload : List ℕ) (frames : List (FrameHeader × List ℕ))
    → c.fragmented ≡ none
    → h.opcode ≢ op_continuation
    → h.fin ≡ false
    → k.opcode ≡ op_continuation
    → feed c ((h, []) ∷ (k, payload) ∷ frames) ≡ none
unfolding feed handle_data handle_first start_fragment fragment_append
feed-empty_first c h k payload frames idle op fin cont = ground arith
