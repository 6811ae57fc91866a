-- ===== src/WebSocket/Receive/Chunks.antt =====
-- How received bytes are cut into chunks makes no difference.
use uvhttp.Prelude.{
  ℕ, suc, ◌≤◌, ◌≡◌, refl, sym, ap, subst, ◌∙◌, List, [], ◌++◌, some, length, length-append,
  append_assoc, arith, le→ltb,
}
use uvhttp.Error.{Result, ok}
use uvhttp.WebSocket.Connection.{Connection, Event, Net, Outcome}
use uvhttp.WebSocket.Receive.Rounds.{
  round-Advances, Runs, waits, goes, process_frames-Runs, process_frames-of_Runs, Runs-Leaves,
  process_data-Ends,
}
use uvhttp.WebSocket.Receive.{after_all, process_frames, reserve, process_data}

pub some-injective : {A : Type 0} {x y : A} → some x ≡ some y → x ≡ y
some-injective e = cc

module _ (net : Net) (ys : List ℕ) where
  -- A run over a buffer, and a run over what it has left and `ys`, are a run over both.
  Runs-append :
      (c c' c2 : Connection) (xs : List ℕ) (events more : List Event) (result : Result (Unit {0}))
      → c.recv_buffer ≡ []
      → Runs net c xs (c', events, ok tt)
      → Runs net (record c' { recv_buffer = [] }) (c'.recv_buffer ++ ys) (c2, more, result)
      → Runs net c (xs ++ ys) (c2, events ++ more, result)
  Runs-append c c' c2 xs events more result empty (waits e) later =
      subst (λ b. Runs net (record c { recv_buffer = b }) (xs ++ ys) (c2, more, result)) (sym empty)
        later
  Runs-append c c' c2 xs events more result empty
        (goes {c1 = c1} {rest = rest} {events = first} {more = last} e runs) later =
      let a = round-Advances net c c1 xs ys rest first e in
      let joined = Runs-append c1 c' c2 rest last more result (a.keeps.buffer ∙ empty) runs later in
      subst (λ l. Runs net c (xs ++ ys) (c2, l, result)) (sym (append_assoc first last more))
        (goes (a.same) joined)

reserve_enough :
    (c : Connection) (needed : ℕ)
    → needed ≤ c.recv_buffer_size
    → reserve c needed ≡ some c.recv_buffer_size
unfolding reserve
reserve_enough c needed h = rw (le→ltb c.recv_buffer_size needed h)

process_data_enough :
    (net : Net) (c : Connection) (bytes : List ℕ)
    → length (c.recv_buffer ++ bytes) ≤ c.recv_buffer_size
    → process_data net c bytes
      ≡ process_frames
          (suc (length (c.recv_buffer ++ bytes)))
          net
          (record c { recv_buffer = [] })
          (c.recv_buffer ++ bytes)
unfolding process_data
process_data_enough net c bytes h =
    rw (reserve_enough c (length (c.recv_buffer ++ bytes)) h, process_data)

-- Where the buffer holds the bytes, processing them is a run of the loop.
Runs-of_process_data :
    (net : Net) (c : Connection) (bytes : List ℕ) (o : Outcome)
    → length (c.recv_buffer ++ bytes) ≤ c.recv_buffer_size
    → process_data net c bytes ≡ some o
    → Runs net (record c { recv_buffer = [] }) (c.recv_buffer ++ bytes) o
Runs-of_process_data net c bytes o h e =
    let (o', same, runs) =
      process_frames-Runs (suc (length (c.recv_buffer ++ bytes))) net
        (record c { recv_buffer = [] }) (c.recv_buffer ++ bytes) (omega arith) in
    subst (Runs net (record c { recv_buffer = [] }) (c.recv_buffer ++ bytes))
      (some-injective (sym same ∙ sym (process_data_enough net c bytes h) ∙ e)) runs

process_data-of_Runs :
    (net : Net) (c : Connection) (bytes : List ℕ) (o : Outcome)
    → length (c.recv_buffer ++ bytes) ≤ c.recv_buffer_size
    → Runs net (record c { recv_buffer = [] }) (c.recv_buffer ++ bytes) o
    → process_data net c bytes ≡ some o
process_data-of_Runs net c bytes o h runs =
    process_data_enough net c bytes h
    ∙ process_frames-of_Runs (suc (length (c.recv_buffer ++ bytes))) net
        (record c { recv_buffer = [] }) (c.recv_buffer ++ bytes) o runs (omega arith)

-- Bytes that arrive in one chunk are processed as in two, where the first is accepted: the same
-- events in the same order, the same connection, the same result. The buffer holds both chunks.
pub process_data-append :
    (net : Net) (c c' : Connection) (xs ys : List ℕ) (events : List Event)
    → length (c.recv_buffer ++ (xs ++ ys)) ≤ c.recv_buffer_size
    → process_data net c xs ≡ some (c', events, ok tt)
    → process_data net c (xs ++ ys) ≡ after_all events (process_data net c' ys)
process_data-append net c c' xs ys events room e =
    let buffer = c.recv_buffer ++ xs in
    let start : Connection = record c { recv_buffer = [] } in
    let fits : length buffer ≤ c.recv_buffer_size = omega (
      arith,
      length-append c.recv_buffer xs,
      length-append c.recv_buffer (xs ++ ys),
      length-append xs ys,
    ) in
    let first = Runs-of_process_data net c xs (c', events, ok tt) fits e in
    let left = Runs-Leaves net start buffer (c', events, ok tt) first in
    let room' : length (c'.recv_buffer ++ ys) ≤ c'.recv_buffer_size = omega (
      arith,
      left.fewer,
      left.size,
      length-append c'.recv_buffer ys,
      length-append c.recv_buffer xs,
      length-append c.recv_buffer (xs ++ ys),
      length-append xs ys,
    ) in
    let ((c2, more, result), second, _) = process_data-Ends net c' ys in
    let joined =
      Runs-append net ys start c' c2 buffer events more result refl first
        (Runs-of_process_data net c' ys (c2, more, result) room' second) in
    process_data-of_Runs net c (xs ++ ys) (c2, events ++ more, result) room
      (subst (λ b. Runs net start b (c2, events ++ more, result)) (append_assoc c.recv_buffer xs ys)
        joined)
    ∙ ap (after_all events) (sym second)
