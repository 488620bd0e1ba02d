-- ===== src/Ctl/Listing.antt =====
-- irccdctl/irccdctl.c: the lines of the daemon's answers, `poll` and `ok`, and `cmd_rule_list`.
--
-- The input is what the buffer has, and the texts that the calls of recv give after it, of which
-- none is empty; the end of the connection is an exit. `none` is an exit of the client.
pub mod Lines
pub mod Rules
use irccd.Base.{
  ℕ, zero, suc, ◌+◌, Option, none, some, List, [], ◌∷◌, ◌++◌, ltb, leb, if◌then◌else◌, length, drop,
  Bytes, codes, has_prefix,
}
use irccd.Memory.{◌>>=◌}
use irccd.Util.{strchr}
use irccd.Peer.Numbers.{skip_spaces, scan_size, decimal}
use irccd.Ctl.Requests.{buf_len}
use irccd.Ctl.Show.{pad, listing}

pub record Input : Type 0 where
  pub buffer : Bytes
  pub received : List Bytes

abbrev pub input : Bytes → List Bytes → Input
input buffer received = record { buffer = buffer; received = received }

-- `poll`, with the texts that recv gives.
unfoldable pub poll_loop : Bytes → List Bytes → Option (Bytes × Input)
unfolding strchr
poll_loop buffer [] = elim (strchr buffer b'\n') [
  | some (line, rest) ↦ some (line, input rest [])
  | none ↦ none
]
poll_loop buffer (buf ∷ received) =
    let more : Option (Bytes × Input) = poll_loop (buffer ++ buf) received in
    elim (strchr buffer b'\n') [
      | some (line, rest) ↦ some (line, input rest (buf ∷ received))
      | none ↦ if leb buf_len (length buffer + length buf) then none else more
    ]

unfoldable pub poll : Input → Option (Bytes × Input)
unfolding poll_loop
poll i = poll_loop i.buffer i.received

-- `ok`: the text behind "OK".
unfoldable pub answered : Input → Option (Bytes × Input)
unfolding poll skip_spaces has_prefix
answered i = poll i >>= λ r.
    if has_prefix (codes "OK") r.0 then some (skip_spaces (drop 2 r.0), r.1) else none

-- The labels of a rule.
abbrev pub labels : List Bytes
labels =
    codes "action:"
    ∷ codes "servers:"
    ∷ codes "channels:"
    ∷ codes "origins:"
    ∷ codes "plugins:"
    ∷ codes "events:"
    ∷ []

-- printf("%-16s%s\n", label, poll()) for each label.
unfoldable pub show_lines : List Bytes → Input → Option (Bytes × Input)
unfolding poll
show_lines [] i = some ([], i)
show_lines (label ∷ rest) i = do
  r ← poll i
  shown ← show_lines rest r.1
  some (listing ((label, r.0) ∷ []) ++ shown.0, shown.1)

-- The loop over the rules, with `left` of them to print.
unfoldable pub rules_loop : ℕ → ℕ → Input → Option Bytes
unfolding show_lines decimal
rules_loop zero i from = some []
rules_loop (suc left) i from = do
  shown ← show_lines labels from
  rest ← rules_loop left (i + 1) shown.1
  some (
      listing ((codes "index:", decimal i) ∷ [])
      ++ (shown.0 ++ ((if ltb 0 left then b'\n' ∷ [] else []) ++ rest)))

-- `cmd_rule_list`: what is printed of the answer.
unfoldable pub cmd_rule_list : Input → Option Bytes
unfolding answered rules_loop scan_size
cmd_rule_list i = do r ← answered i; num ← scan_size r.0; rules_loop num 0 r.1
