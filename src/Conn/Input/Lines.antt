-- ===== src/Conn/Input/Lines.antt =====
-- What the producer makes of one line, and of a stream of lines.
use irccd.Base.{
  ◌≤◌, ◌<◌, ◌≡◌, refl, ap, ◌∙◌, ◌⊎◌, inl, inr, Option, none, some, List, [], ◌∷◌, ◌++◌, map, arith,
  length, length-append, Bytes,
}
use irccd.Conn.Message.{Msg, parse}
use irccd.Conn.Message.RoundTrip.{Without}
use irccd.Conn.Input.{
  in_size, message_len, limit, recv, split_crlf, fill, next, Pumped, push_first, produce,
  produce_all,
}
use irccd.Conn.Input.Framing.{
  concat, produce-some, produce_all-concat, produce-idle, produce-shorter,
}

abbrev pub crlf : Bytes
crlf = b'\r' ∷ b'\n' ∷ []

split_crlf-line :
    (line rest : Bytes)
    → Without b'\r' line
    → split_crlf (line ++ (crlf ++ rest)) ≡ some (line, rest)
unfolding split_crlf
split_crlf-line [] rest h = refl
split_crlf-line (c ∷ []) rest h = ground (arith, h.0)
split_crlf-line (c ∷ d ∷ line) rest h = ground (arith, h.0, split_crlf-line (d ∷ line) rest h.1)

-- A line that the protocol allows: not empty, below 512 bytes, without a carriage return.
abbrev pub IsLine : Bytes → Type 0
IsLine line = (0 < length line) × (length line < message_len) × Without b'\r' line

-- `conn_next` takes the first line off the buffer and parses it.
pub next-line :
    (line rest : Bytes) (m : Option Msg)
    → IsLine line
    → next (line ++ (crlf ++ rest)) m ≡ some (rest, some (parse line))
unfolding next
next-line line rest m h =
    rw (split_crlf-line line rest h.2, next) (unfold fill in ground (arith, h.0, h.1))

length-stale :
    (line : Bytes)
    → (line ≡ []) ⊎ (message_len ≤ length line)
    → (length line ≡ 0) ⊎ (message_len ≤ length line)
length-stale line (inl e) = inl (ap length e)
length-stale line (inr l) = inr l

-- On an empty line, and on one of 512 bytes and more, without a carriage return, `conn_next`
-- answers that there is a message, and the message is the one of the line before.
pub next-stale :
    (line rest : Bytes) (m : Option Msg)
    → Without b'\r' line
    → (line ≡ []) ⊎ (message_len ≤ length line)
    → next (line ++ (crlf ++ rest)) m ≡ some (rest, m)
unfolding next
next-stale line rest m h e =
    rw (split_crlf-line line rest h, next) (unfold fill in ground (arith, length-stale line e))

abbrev pub AllLines : List Bytes → Type 0
AllLines [] = Unit
AllLines (line ∷ lines) = IsLine line × AllLines lines

abbrev pub sent : List Bytes → Bytes
sent [] = []
sent (line ∷ lines) = line ++ (crlf ++ sent lines)

-- The local variable after some lines.
abbrev pub last_msg : Option Msg → List Bytes → Option Msg
last_msg m [] = m
last_msg m (line ∷ lines) = last_msg (some (parse line)) lines

produce-sent :
    (lines : List Bytes) (m : Option Msg)
    → AllLines lines
    → produce (sent lines) m ≡ record {
      pushed = map (λ line. some (parse line)) lines;
      buffer = [];
      msg = last_msg m lines;
    }
produce-sent [] m h = produce-idle [] m (unfold split_crlf in refl)
produce-sent (line ∷ lines) m h =
    let filled : fill line m ≡ some (parse line) = unfold fill in ground (arith, h.0.0, h.0.1) in
    produce-some (line ++ (crlf ++ sent lines)) m line (sent lines)
      (split_crlf-line line (sent lines) h.0.2)
    ∙ rw filled (ap (push_first (some (parse line))) (produce-sent lines (some (parse line)) h.1))

-- A peer's lines are delivered as their messages, one for each and in order, and nothing stays in
-- the buffer, however the network cuts the bytes into pieces. The lines are not empty, shorter
-- than 512 bytes and without a carriage return, and the buffer is empty before.
pub produce_all-sent :
    (lines pieces : List Bytes)
    → AllLines lines
    → concat pieces ≡ sent lines
    → ((produce_all [] none pieces).pushed ≡ map (λ line. some (parse line)) lines)
      × ((produce_all [] none pieces).buffer ≡ [])
produce_all-sent lines pieces h e =
    let whole =
      produce_all-concat pieces [] none (unfold split_crlf in refl)
      ∙ ap (λ (s : Bytes). produce s none) e
      ∙ produce-sent lines none h in
    (ap (λ (p : Pumped). p.pushed) whole, ap (λ (p : Pumped). p.buffer) whole)

-- When the transport keeps to the room that it is offered, the buffer does not pass its size,
-- neither after a read nor after its lines were taken.
pub recv-in_size :
    (b received : Bytes) (m : Option Msg)
    → length b ≤ in_size
    → length received ≤ limit b
    → (length (recv b received) ≤ in_size) × (length (produce (recv b received) m).buffer ≤ in_size)
unfolding limit recv
recv-in_size b received m h l =
    let fits : length (b ++ received) ≤ in_size = omega (arith, length-append b received) in
    (fits, omega (arith, produce-shorter (b ++ received) m))
