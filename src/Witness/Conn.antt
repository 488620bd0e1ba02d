-- ===== src/Witness/Conn.antt =====
-- Inputs for the theorems on the connection of a server.
use irccd.Base.{
  ◌+◌, ◌≤◌, ◌<◌, ◌≡◌, refl, ◌↔◌, inl, true, none, some, [], ◌∷◌, ◌++◌, arith, length, take, Bytes,
  codes, ok,
}
use irccd.Conn.Message.{parse}
use irccd.Conn.Message.RoundTrip.{parse-render}
use irccd.Conn.Input
use irccd.Conn.Input.Framing.{produce_all-concat}
use irccd.Conn.Input.Lines.{crlf, produce_all-sent, next-stale, recv-in_size}
use irccd.Conn.Output
use irccd.Conn.Output.Fifo
use irccd.Conn.Output.Fifo.{IsFifo, Reach, Step, send_va_iff, Reach-IsFifo, opened}

parse-render_example : parse (codes ":jean PRIVMSG #a :hello you") ≡ record {
  prefix = some (codes "jean");
  cmd = codes "PRIVMSG";
  args = codes "#a" ∷ codes "hello you" ∷ [];
}
parse-render_example =
    parse-render (some (codes "jean")) (codes "PRIVMSG") (codes "#a" ∷ [])
      (some (codes "hello you")) (omega arith) (omega arith) (omega arith) (omega arith)

abbrev ping : Bytes
ping = codes "PING :a"

abbrev pong : Bytes
pong = codes "JOIN #b"

-- Two lines in three pieces, one of them cut inside the line end.
produce_all-sent_example :
    ((Input.produce_all [] none (
        codes "PI"
        ∷ (codes "NG :a" ++ b'\r' ∷ [])
        ∷ (b'\n' ∷ (codes "JOIN #b" ++ crlf))
        ∷ [])).pushed
      ≡ some (parse ping) ∷ some (parse pong) ∷ [])
    × ((Input.produce_all [] none (
          codes "PI"
          ∷ (codes "NG :a" ++ b'\r' ∷ [])
          ∷ (b'\n' ∷ (codes "JOIN #b" ++ crlf))
          ∷ [])).buffer
        ≡ [])
produce_all-sent_example =
    produce_all-sent (ping ∷ pong ∷ [])
      (codes "PI" ∷ (codes "NG :a" ++ b'\r' ∷ []) ∷ (b'\n' ∷ (codes "JOIN #b" ++ crlf)) ∷ [])
      (omega arith) refl

no_line : Input.split_crlf (codes "PI") ≡ none
unfolding Input.split_crlf
no_line = refl

produce_all-concat_example :
    Input.produce_all (codes "PI") none (codes "NG" ∷ crlf ∷ [])
    ≡ Input.produce (codes "PING" ++ crlf) none
produce_all-concat_example = produce_all-concat (codes "NG" ∷ crlf ∷ []) (codes "PI") none no_line

next-stale_example :
    Input.next (crlf ++ codes "rest") (some (parse ping)) ≡ some (codes "rest", some (parse ping))
next-stale_example = next-stale [] (codes "rest") (some (parse ping)) tt (inl refl)

ping-limit : length ping ≤ Input.limit []
unfolding Input.limit
ping-limit = omega arith

recv-in_size_example :
    (length (Input.recv [] ping) ≤ Input.in_size)
    × (length (Input.produce (Input.recv [] ping) none).buffer ≤ Input.in_size)
recv-in_size_example = recv-in_size [] ping none (omega arith) ping-limit

send_va_iff_example :
    ((out : Bytes) × (Output.send_va true [] ping ≡ ok out))
    ↔ ((true ≡ true) × (0 + length (take 511 ping) + 2 < Output.out_size))
send_va_iff_example = send_va_iff true [] ping (omega arith)

ping-push : Output.push [] ping ≡ ok (ping ++ crlf)
unfolding Output.push
ping-push = refl

-- A message is pushed, and the transport takes four bytes of it.
abbrev pushed_ping : Fifo.Channel
pushed_ping = record { out = ping ++ crlf; wire = []; accepted = ping ∷ [] }

abbrev sent_some : Fifo.Channel
sent_some = record { out = Output.send (ping ++ crlf) 4; wire = codes "PING"; accepted = ping ∷ [] }

sent_some-Reach : Reach opened sent_some
sent_some-Reach =
    Fifo.Reach.next
      (Fifo.Reach.next Fifo.Reach.here (Fifo.Step.pushed opened ping (ping ++ crlf) ping-push))
      (Fifo.Step.written pushed_ping 4 (omega arith))

Reach-IsFifo_example : IsFifo sent_some
Reach-IsFifo_example = Reach-IsFifo sent_some-Reach
