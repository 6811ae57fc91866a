-- ===== src/WebSocket/Receive/Buffer.antt =====
-- The receive buffer: how far it grows, and what is left in it.
use uvhttp.Prelude.{ℕ, ◌≤◌, ◌≡◌, refl, sym, ap, subst, ◌∙◌, List, [], some, length, inl, inr}
use uvhttp.Error.{ok}
use uvhttp.WebSocket.Connection.{Connection, Event, Net, Outcome}
use uvhttp.WebSocket.Receive.Chunks.{some-injective}
use uvhttp.WebSocket.Receive.Rounds.{
  round-Advances, err-ne-ok, Runs, waits, goes, Ends, process_data-Ends,
}
use uvhttp.WebSocket.Receive.{wait, round, process_data}

-- The bytes received lie in their buffer, which has at most `limit` bytes.
pub record IsStored (limit : ℕ) (c : Connection) : Type 0 where
  pub held : length c.recv_buffer ≤ c.recv_buffer_size
  pub limited : c.recv_buffer_size ≤ limit

-- What a successful run leaves is a round that waits.
Runs-wait :
    (net : Net) (c c' : Connection) (buffer : List ℕ) (events : List Event)
    → c.recv_buffer ≡ []
    → Runs net c buffer (c', events, ok tt)
    → round net (record c' { recv_buffer = [] }) c'.recv_buffer ≡ wait
Runs-wait net c c' buffer events empty (waits e) =
    ap (λ b. round net (record c { recv_buffer = b }) buffer) (sym empty) ∙ e
Runs-wait net c c' buffer events empty (goes {c1 = c1} {rest = rest} {events = first} e runs) =
    let a = round-Advances net c c1 buffer [] rest first e in
    Runs-wait net c1 c' rest _ (a.keeps.buffer ∙ empty) runs

-- Bytes that are accepted leave no complete frame behind: the loop would wait for more.
pub process_data-wait :
    (net : Net) (c c' : Connection) (bytes : List ℕ) (events : List Event)
    → process_data net c bytes ≡ some (c', events, ok tt)
    → round net (record c' { recv_buffer = [] }) c'.recv_buffer ≡ wait
process_data-wait net c c' bytes events e =
    let (o, same, ends) = process_data-Ends net c bytes in
    go (subst (Ends net c bytes) (some-injective (sym same ∙ e)) ends)
  where
    go :
        Ends net c bytes (c', events, ok tt)
        → round net (record c' { recv_buffer = [] }) c'.recv_buffer ≡ wait
    go (inl (_, same)) = absurd (err-ne-ok (sym (ap (λ (o : Outcome). o.2) same)))
    go (inr (size, has, runs)) = Runs-wait net _ c' _ events refl runs
