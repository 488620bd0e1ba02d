-- ===== src/Conn/Input.antt =====
-- lib/irccd/conn.c: the input buffer of a connection, `conn_recv`, `conn_next` and the producer.
--
-- The buffer is the list of its first `insz` bytes. The producer has one local `conn_msg`, which is
-- `none` until a line is parsed into it; it pushes a copy of it to the consumer for each line.
pub mod Framing
pub mod Lines
use irccd.Base.{
  ℕ, zero, suc, ◌-◌, ◌&&◌, Option, none, some, List, [], ◌∷◌, ◌++◌, ltb, ◌==◌, if◌then◌else◌,
  length, Bytes,
}
use irccd.Conn.Message.{Msg, parse}

abbrev pub in_size : ℕ
in_size = 8096

abbrev pub message_len : ℕ
message_len = 512

-- The room that `conn_recv` offers to the transport, and the buffer after it filled `received` in.
unfoldable pub limit : Bytes → ℕ
limit buffer = in_size - length buffer

unfoldable pub recv : Bytes → Bytes → Bytes
recv buffer received = buffer ++ received

abbrev pub prepend : ℕ → Option (Bytes × Bytes) → Option (Bytes × Bytes)
prepend c none = none
prepend c (some (line, rest)) = some (c ∷ line, rest)

-- memmem(in, insz, "\r\n", 2): the bytes before it and behind it.
unfoldable pub split_crlf : Bytes → Option (Bytes × Bytes)
split_crlf [] = none
split_crlf (c ∷ []) = none
split_crlf (c ∷ d ∷ s) =
    let later = prepend c (split_crlf (d ∷ s)) in
    if c == b'\r' && d == b'\n' then some ([], s) else later

-- The message after a line: a line that is empty or too long leaves the local variable as it was.
unfoldable pub fill : Bytes → Option Msg → Option Msg
fill line msg =
    if ltb 0 (length line) && ltb (length line) message_len then some (parse line) else msg

-- `conn_next`: `none` when it returns 0, and otherwise the buffer and the message it leaves.
unfoldable pub next : Bytes → Option Msg → Option (Bytes × Option Msg)
unfolding split_crlf fill
next buffer msg = elim (split_crlf buffer) [
  | none ↦ none
  | some (line, rest) ↦ some (rest, fill line msg)
]

pub record Pumped : Type 0 where
  pub pushed : List (Option Msg)
  pub buffer : Bytes
  pub msg : Option Msg

abbrev pub push_first : Option Msg → Pumped → Pumped
push_first m p = record p { pushed = m ∷ p.pushed }

-- `conn_producer_entry` from one yield to the next. Each line takes two bytes off the buffer, so its
-- length is fuel enough.
unfoldable pub pump : ℕ → Bytes → Option Msg → Pumped
unfolding next
pump zero buffer msg = record { pushed = []; buffer = buffer; msg = msg }
pump (suc fuel) buffer msg = elim (next buffer msg) [
  | none ↦ record { pushed = []; buffer = buffer; msg = msg }
  | some (rest, msg') ↦ push_first msg' (pump fuel rest msg')
]

unfoldable pub produce : Bytes → Option Msg → Pumped
unfolding pump
produce buffer msg = pump (length buffer) buffer msg

-- Data that comes in pieces, with the producer run after each.
unfoldable pub produce_all : Bytes → Option Msg → List Bytes → Pumped
unfolding produce recv
produce_all buffer msg [] = record { pushed = []; buffer = buffer; msg = msg }
produce_all buffer msg (received ∷ rest) =
    let now = produce (recv buffer received) msg in
    let later = produce_all now.buffer now.msg rest in
    record later { pushed = now.pushed ++ later.pushed }
