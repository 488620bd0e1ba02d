-- ===== src/Conn/Socket/Wait.antt =====
-- What a round of `conn_wait` does to the pending output and to the watcher.
use irccd.Base.{ℕ, ◌≤◌, ◌<◌, ◌≡◌, refl, ◌∙◌, true, false, some, [], ◌∷◌, arith, ltb, length}
use irccd.Conn.Socket.{Sent, Received, got, Events, Sock, wait}
use irccd.Conn.Output

abbrev pub readable : Events
readable = record { read = true; write = false }

-- After data was read, and the socket was not reported writable, the watcher waits for reads
-- only, whatever is still in the output buffer, which stays as it is.
pub wait-readable :
    (s : Sock) (received : Received) (sent : Sent) {t : Sock}
    → wait s readable received sent ≡ some t
    → (t.watch ≡ readable) × (t.output ≡ s.output)
unfolding wait
wait-readable s (got []) sent h = cc
wait-readable s (got (c ∷ bytes)) sent h = ground arith
wait-readable s Received.again sent h = ground arith
wait-readable s Received.eintr sent h = cc
wait-readable s Received.failed sent h = cc

-- A round in which the socket is writable only, bytes are pending and it takes `n` of them leaves
-- the rest, and keeps watching for writes exactly while there is a rest.
pub wait-writable :
    (s : Sock) (received : Received) (n : ℕ) {t : Sock}
    → 0 < length s.output
    → n ≤ length s.output
    → wait s (record { read = false; write = true }) received (Sent.took n) ≡ some t
    → (t.output ≡ Output.send s.output n) × (t.watch.write ≡ ltb n (length s.output))
unfolding wait
wait-writable s received n p l h = ground arith

-- The socket reports itself readable only, with an answer each time.
pub data ReadsOnly (s : Sock) : Sock → Type 0 where
  done : ReadsOnly s s
  round :
      {t u : Sock} (received : Received) (sent : Sent)
      → ReadsOnly s t
      → wait t readable received sent ≡ some u
      → ReadsOnly s u

-- Once the watcher does not wait for writes, no number of rounds of reads sends the pending output
-- or makes the watcher wait for writes again.
pub ReadsOnly-stall :
    {s t : Sock} → ReadsOnly s t → s.watch ≡ readable → (t.watch ≡ readable) × (t.output ≡ s.output)
ReadsOnly-stall done h = (h, refl)
ReadsOnly-stall (round {t = t} received sent r e) h =
    let (w, o) = wait-readable t received sent e in (w, o ∙ (ReadsOnly-stall r h).1)
