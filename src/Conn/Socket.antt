-- ===== src/Conn/Socket.antt =====
-- lib/irccd/conn.c: the plain transport, `conn_tcp_recv` and `conn_tcp_send`, and `conn_wait`.
--
-- recv(2) and send(2) are answers of the environment. An endless sequence of answers drives the
-- loops, which are given fuel; `none` means that the fuel ran out.
pub mod Loops
pub mod Wait
use irccd.Base.{
  ℕ, zero, suc, Bool, true, false, Option, none, some, [], ◌∷◌, ltb, ◌==◌, if◌then◌else◌, length,
  Bytes,
}
use irccd.Conn.Output
use irccd.Conn.Input

-- The answer of send(2): bytes taken, or an error.
pub data Sent : Type 0 where
  took : ℕ → Sent
  eintr again failed : Sent

-- The answer of recv(2); no bytes is the end of the stream.
pub data Received : Type 0 where
  got : Bytes → Received
  eintr again failed : Received

-- Which of EV_READ and EV_WRITE are set.
pub record Events : Type 0 where
  pub read : Bool
  pub write : Bool

-- `while ((nr = recv(...)) < 0 && errno == EINTR)`
unfoldable pub recv_loop : ℕ → (ℕ → Received) → Option Received
recv_loop zero answers = none
recv_loop (suc fuel) answers =
    let later = recv_loop fuel (λ i. answers (suc i)) in
    elim (answers 0) [ Received.eintr ↦ later | a ↦ some a ]

-- `while ((ns = send(...)) < 0 && errno != EINTR)`
unfoldable pub send_loop : ℕ → (ℕ → Sent) → Option Sent
send_loop zero answers = none
send_loop (suc fuel) answers =
    let later = send_loop fuel (λ i. answers (suc i)) in
    elim (answers 0) [
      | took n ↦ some (took n)
      | Sent.eintr ↦ some Sent.eintr
      | Sent.again ↦ later
      | Sent.failed ↦ later
    ]

-- What is behind the loop of `conn_tcp_recv`: the bytes read, `none` for -1, and the events.
unfoldable pub after_recv : Received → Events → Option Bytes × Events
after_recv (got []) ev = (none, ev)
after_recv (got (c ∷ s)) ev = (some (c ∷ s), ev)
after_recv Received.again ev = (some [], record { read = true; write = false })
after_recv Received.eintr ev = (none, ev)
after_recv Received.failed ev = (none, ev)

-- What is behind the loop of `conn_tcp_send`, for a buffer of `bufsz` bytes.
unfoldable pub after_send : ℕ → Sent → Events → Option ℕ × Events
after_send bufsz (took n) ev = (some n, if ltb n bufsz then record ev { write = true } else ev)
after_send bufsz Sent.again ev = (some 0, record ev { write = true })
after_send bufsz Sent.eintr ev = (none, ev)
after_send bufsz Sent.failed ev = (none, ev)

-- The buffers, and the events that the watcher of the socket waits for.
pub record Sock : Type 0 where
  pub input : Bytes
  pub output : Bytes
  pub watch : Events

-- `conn_recv`: `none` when the transport failed.
unfoldable pub conn_recv : Sock → Received → Events → Option (Sock × Events)
unfolding after_recv Input.recv
conn_recv s answer ev = elim (after_recv answer ev).0 [
  | none ↦ none
  | some bytes ↦ some (record s { input = Input.recv s.input bytes }, (after_recv answer ev).1)
]

-- `conn_send`: with nothing to send the transport is not called.
unfoldable pub conn_send : Sock → Sent → Events → Option (Sock × Events)
unfolding after_send Output.send
conn_send s answer ev =
    if length s.output == 0 then some (s, ev) else elim (after_send (length s.output) answer ev).0 [
      | none ↦ none
      | some ns ↦ some (
        record s { output = Output.send s.output ns },
        (after_send (length s.output) answer ev).1,
      )
    ]

abbrev pub maybe_recv : Bool → Sock → Received → Events → Option (Sock × Events)
maybe_recv true s answer ev = conn_recv s answer ev
maybe_recv false s answer ev = some (s, ev)

abbrev pub maybe_send : Bool → Sock → Sent → Events → Option (Sock × Events)
maybe_send true s answer ev = conn_send s answer ev
maybe_send false s answer ev = some (s, ev)

-- `conn_wait` once the watcher reported `revents`: `none` when the connection is lost. The watcher is
-- reset when its events differ from the computed ones, so they are the new ones in any case.
unfoldable pub wait : Sock → Events → Received → Sent → Option Sock
unfolding conn_recv conn_send
wait s revents received sent =
    elim (maybe_recv revents.read s received (record { read = true; write = false })) [
      | none ↦ none
      | some (s1, ev1) ↦ elim (maybe_send revents.write s1 sent ev1) [
        | none ↦ none
        | some (s2, ev2) ↦ some (record s2 { watch = ev2 })
      ]
    ]
