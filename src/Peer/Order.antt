-- ===== src/Peer/Order.antt =====
-- irccd/peer.c: the commands RULE-LIST, RULE-MOVE and RULE-REMOVE.
use irccd.Base.{
  ℕ, Option, none, some, List, [], ◌∷◌, ◌++◌, leb, if◌then◌else◌, Bytes, codes, einval, emsgsize,
  erange, ok, err,
}
use irccd.Memory.{◌>>=◌}
use irccd.Rule.{Action, accept, drop as drop_action, Rule}
use irccd.Bot.Rules
use irccd.Util.{parse}
use irccd.Peer.{State, Outcome, done, push, succeed, fail, buf_len}
use irccd.Peer.Numbers.{is_negative, stoi, decimal}

-- `rule_list_to_string`
unfoldable pub rule_list_to_string : Option (List Bytes) → Bytes
rule_list_to_string none = b'\n' ∷ []
rule_list_to_string (some []) = b'\n' ∷ []
rule_list_to_string (some (c ∷ [])) = c ++ b'\n' ∷ []
rule_list_to_string (some (c ∷ d ∷ rest)) = c ++ b' ' ∷ rule_list_to_string (some (d ∷ rest))

abbrev pub action_text : Action → Bytes
action_text accept = codes "accept"
action_text drop_action = codes "drop"

unfoldable pub rules_text : List Rule → Bytes
unfolding rule_list_to_string
rules_text [] = []
rules_text (r ∷ rest) =
    action_text r.action
    ++ b'\n'
      ∷ (rule_list_to_string r.servers
          ++ (rule_list_to_string r.channels
              ++ (rule_list_to_string r.origins
                  ++ (rule_list_to_string r.plugins
                      ++ (rule_list_to_string r.events ++ rules_text rest)))))

-- A text that is written to the stream of a buffer of `size` bytes: what the buffer has as a
-- string when the stream is closed, or none when the stream has an error before.
module _ (held : ℕ → Bytes → Option Bytes) where
  unfoldable pub cmd_rule_list : State → Option Outcome
  unfolding push rules_text decimal Rules.size
  cmd_rule_list p =
      elim (held buf_len
        (codes "OK " ++ (decimal (Rules.size p.rules) ++ b'\n' ∷ rules_text p.rules))) [
          | none ↦ fail p emsgsize
          | some out ↦ some (done (push p out))
        ]

-- An index that RULE-MOVE and RULE-REMOVE take.
abbrev pub index : Bytes → Option ℕ
index text = elim (stoi text) [ err e ↦ none | ok i ↦ if is_negative i then none else some i ]

abbrev pub move_from : State → ℕ → ℕ → Option Outcome
move_from p from to =
    if leb (Rules.size p.rules) from
    then fail p erange
    else (Rules.move p.rules from to >>= λ rules. succeed (record p { rules = rules }))

abbrev pub move_args : State → List Bytes → Option Outcome
move_args p (a ∷ b ∷ []) = elim (index a) [
  | none ↦ fail p erange
  | some from ↦ elim (index b) [ none ↦ fail p erange | some to ↦ move_from p from to ]
]
move_args p _ = fail p einval

unfoldable pub cmd_rule_move : State → Bytes → Option Outcome
unfolding stoi Rules.size Rules.move succeed parse
cmd_rule_move p line = move_args p (parse line 2)

abbrev pub remove_args : State → List Bytes → Option Outcome
remove_args p (a ∷ []) = elim (index a) [
  | none ↦ fail p erange
  | some i ↦
      if leb (Rules.size p.rules) i
      then fail p erange
      else (Rules.remove p.rules i >>= λ rules. succeed (record p { rules = rules }))
]
remove_args p _ = fail p einval

unfoldable pub cmd_rule_remove : State → Bytes → Option Outcome
unfolding stoi Rules.size Rules.remove succeed parse
cmd_rule_remove p line = remove_args p (parse line 1)
