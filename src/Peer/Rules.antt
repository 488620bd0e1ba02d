-- ===== src/Peer/Rules.antt =====
-- irccd/peer.c: the commands RULE-ADD and RULE-EDIT, which read criteria.
pub mod Kept
pub mod Tokens
use irccd.Base.{
  ℕ, zero, suc, ◌-◌, ◌^◌, Bool, ◌&&◌, Option, none, some, List, [], ◌∷◌, leb, ◌==◌, if◌then◌else◌,
  drop, all, Bytes, codes, has_prefix, is_space, Errno, einval, erange, Result, ok, err,
}
use irccd.Memory.{◌>>=◌}
use irccd.Rule
use irccd.Rule.{Action, accept, drop as drop_action, Rule}
use irccd.Bot.Rules
use irccd.Util.{parse}
use irccd.Server.Handlers.{tokens}
use irccd.Peer.{State, Outcome, done, failed, push, succeed, error, fail, buf_len}
use irccd.Peer.Numbers.{skip_spaces, scan_size, is_negative, stoi, decimal}

-- The criteria, each with its functions irc_rule_add_* and irc_rule_remove_*.
pub data Kind : Type 0 where
  channel event origin plugin server : Kind

unfoldable pub add : Kind → Rule → Bytes → Rule
unfolding Rule.add_channel Rule.add_event Rule.add_origin Rule.add_plugin Rule.add_server
add channel r value = Rule.add_channel r value
add event r value = Rule.add_event r value
add origin r value = Rule.add_origin r value
add plugin r value = Rule.add_plugin r value
add server r value = Rule.add_server r value

unfoldable pub remove : Kind → Rule → Bytes → Rule
unfolding Rule.remove_channel Rule.remove_event Rule.remove_origin Rule.remove_plugin
    Rule.remove_server
remove channel r value = Rule.remove_channel r value
remove event r value = Rule.remove_event r value
remove origin r value = Rule.remove_origin r value
remove plugin r value = Rule.remove_plugin r value
remove server r value = Rule.remove_server r value

-- The labels of the two switches that choose a criterion.
unfoldable pub kind : ℕ → Option Kind
kind c =
    if c == b'c'
    then some channel
    else if c == b'e'
    then some event
    else if c == b'o'
    then some origin
    else if c == b'p'
    then some plugin
    else if c == b's'
    then some server
    else none

unfoldable pub skip_word : Bytes → Bytes
unfolding is_space
skip_word [] = []
skip_word (c ∷ s) = let rest = skip_word s in if is_space c then c ∷ s else rest

-- Skip a word and the spaces behind it.
abbrev pub behind_word : Bytes → Bytes
behind_word line = skip_spaces (skip_word line)

unfoldable pub action : Bytes → Option Action
unfolding has_prefix
action s =
    if has_prefix (codes "accept") s
    then some accept
    else if has_prefix (codes "drop") s
    then some drop_action
    else none

-- token + 2, which is behind the end of a token of one byte.
abbrev pub value : Bytes → Option Bytes
value (k ∷ c ∷ v) = some v
value _ = none

-- The variable `add` of RULE-ADD: not yet written, NULL, or a function.
pub data Slot : Type 0 where
  unset null : Slot
  adds : Kind → Slot

-- if (add) add(rule, token + 2), where an unset pointer is a fault.
unfoldable pub call : Slot → Rule → Bytes → Option Rule
unfolding add
call unset r token = none
call null r token = some r
call (adds k) r token = do v ← value token; some (add k r v)

abbrev pub chosen : Option Kind → Slot
chosen none = null
chosen (some k) = adds k

-- How the loop over the tokens of RULE-ADD ends: with a rule and an index, or at `fail`.
pub data Added : Type 0 where
  added : Rule → ℕ → Added
  refused : Errno → Added

abbrev pub head : Bytes → ℕ
head [] = 0
head (c ∷ s) = c

-- if (irc_util_stoi(token + 2, &index) < 0) goto fail; and what follows with the index.
abbrev pub with_index : Result ℕ → (ℕ → Option Added) → Option Added
with_index (err e) next = some (refused e)
with_index (ok i) next = next i

-- The loop over the tokens. The directive %c takes a byte of any token, so its test never fails.
unfoldable pub add_loop : List Bytes → Slot → Rule → ℕ → Option Added
unfolding kind call
add_loop [] slot r index = some (added r index)
add_loop (token ∷ rest) slot r index =
    let indexed : Option Added = value token >>= λ v.
    with_index (stoi v) (λ i. call slot r token >>= λ r'. add_loop rest slot r' i) in
    let other : Option Added = call (chosen (kind (head token))) r token >>= λ r'.
    add_loop rest (chosen (kind (head token))) r' index in
    if head token == b'i' then indexed else other

-- sscanf(line, "RULE-ADD %*s") == EOF of a line with this command.
abbrev pub is_bare : Bytes → Bool
is_bare line = has_prefix (codes "RULE-ADD") line && all is_space (drop 8 line)

abbrev pub no_index : ℕ
no_index = 2 ^ 64 - 1

module _ (strerror : Errno → Bytes) where
  abbrev pub finish_add : State → Added → Option Outcome
  finish_add p (added r index) = succeed (record p { rules = Rules.insert p.rules r index })
  finish_add p (refused e) = error p (strerror e)

  -- `cmd_rule_add`
  unfoldable pub cmd_rule_add : State → Bytes → Option Outcome
  unfolding action skip_word skip_spaces tokens add_loop error succeed Rule.new Rules.insert
  cmd_rule_add p line = if is_bare line then fail p einval else elim (action (drop 9 line)) [
    | none ↦ error p (codes "invalid action")
    | some act ↦
        add_loop (tokens [] (behind_word (drop 9 line))) unset (Rule.new act) no_index
        >>= finish_add p
  ]

-- How the loop over the tokens of RULE-EDIT ends.
pub data Edited : Type 0 where
  edited invalid bad_action : Edited

-- One token: the rule, and whether the loop goes on.
unfoldable pub edit : Rule → Bytes → Rule × Edited
unfolding kind action add remove
edit r [] = (r, invalid)
edit r (key ∷ []) = (r, invalid)
edit r (key ∷ attr ∷ v) =
    let on_action : Rule × Edited = elim (action v) [
      | none ↦ (r, bad_action)
      | some act ↦ (record r { action = act }, edited)
    ] in
    let on_list : Rule × Edited = elim (kind key) [
      | none ↦ (r, invalid)
      | some k ↦
          if attr == b'+'
          then (add k r v, edited)
          else if attr == b'-'
          then (remove k r v, edited)
          else (r, invalid)
    ] in
    if key == b'a' then (if attr == b'=' then on_action else (r, invalid)) else on_list

unfoldable pub edit_loop : List Bytes → Rule → Rule × Edited
unfolding edit
edit_loop [] r = (r, edited)
edit_loop (token ∷ rest) r = elim (edit r token).1 [
  | edited ↦ edit_loop rest (edit r token).0
  | invalid ↦ ((edit r token).0, invalid)
  | bad_action ↦ ((edit r token).0, bad_action)
]

-- A write through the pointer to the rule at an index.
unfoldable pub set : List Rule → ℕ → Rule → List Rule
set [] n r = []
set (x ∷ rest) zero r = r ∷ rest
set (x ∷ rest) (suc n) r = x ∷ set rest n r

abbrev pub finish_edit : State → Edited → Option Outcome
finish_edit p edited = succeed p
finish_edit p invalid = fail p einval
finish_edit p bad_action = error p (codes "invalid action")

-- sscanf(line, "RULE-EDIT %zu", &index)
abbrev pub edit_index : Bytes → Option ℕ
edit_index line = if has_prefix (codes "RULE-EDIT") line then scan_size (drop 9 line) else none

unfoldable pub cmd_rule_edit : State → Bytes → Option Outcome
unfolding scan_size skip_word skip_spaces tokens edit_loop set error succeed Rules.size Rules.get
cmd_rule_edit p line = elim (edit_index line) [
  | none ↦ fail p einval
  | some index ↦ if leb (Rules.size p.rules) index then fail p erange else do
    r ← Rules.get p.rules index
    let result = edit_loop (tokens [] (behind_word (drop 10 line))) r
    finish_edit (record p { rules = set p.rules index result.0 }) result.1
]
