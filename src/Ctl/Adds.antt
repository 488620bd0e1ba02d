-- ===== src/Ctl/Adds.antt =====
-- The options of the command rule-add of irccdctl, and how the daemon reads them.
pub mod Applied
use irccd.Base.{
  ℕ, ◌≡◌, refl, ap, ◌∙◌, ◌≢◌, some, List, [], ◌∷◌, ◌++◌, map, append_assoc, arith, Bytes,
}
use irccd.Memory.{◌>>=◌}
use irccd.Util.Joined.{IsFree, join}
use irccd.Server.Handlers.{tokens, emit}
use irccd.Rule
use irccd.Rule.{Action, accept, drop as drop_action, Rule}
use irccd.Bot.Rules
use irccd.Bot.Rules.Order.{size-length}
use irccd.Peer.{State, done, push, succeed}
use irccd.Peer.Numbers.{skip_spaces, stoi}
use irccd.Peer.Rules.{
  Kind, channel, event, origin, plugin, server, add, kind, action, Slot, unset, null, adds, call,
  added, add_loop, no_index, is_bare, cmd_rule_add, behind_word, skip_word,
}
use irccd.Peer.Order.{action_text}
use irccd.Peer.Rules.Tokens.{tokens-word, tokens-last}
use irccd.Peer.Table
use irccd.Peer.Table.{Outside, Command, Row, row, find, first_word, invoke}
use irccd.Peer.Table.Found.{find-lookup, invoke-found}
use irccd.Ctl.Requests.{buf_len, Opt, add_opts, rule_add_words}
use irccd.Ctl.Edits.{small_letter}

-- A criterion that the user gives, with its value.
abbrev pub Criterion : Type 0
Criterion = Kind × Bytes

abbrev pub opt : Criterion → Opt
opt c = record { letter = small_letter c.0; optarg = c.1 }

abbrev pub add_all : Rule → List Criterion → Rule
add_all r [] = r
add_all r (c ∷ rest) = add_all (add c.0 r c.1) rest

abbrev pub AreWords : List Criterion → Type 0
AreWords [] = Unit
AreWords (c ∷ rest) = IsFree b' ' c.1 × AreWords rest

abbrev pub token : Criterion → Bytes
token c = small_letter c.0 ∷ b'=' ∷ c.1

letter-free : (k : Kind) → small_letter k ≢ b' '
letter-free channel = omega arith
letter-free event = omega arith
letter-free origin = omega arith
letter-free plugin = omega arith
letter-free server = omega arith

action-IsFree : (a : Action) → IsFree b' ' (action_text a)
action-IsFree accept = omega arith
action-IsFree drop_action = omega arith

emit-action : (a : Action) → emit (action_text a) [] ≡ action_text a ∷ []
emit-action accept = refl
emit-action drop_action = refl

-- The words of the options, with the action behind them.
pub tokens-add_opts :
    (cs : List Criterion) (a : Action)
    → AreWords cs
    → tokens [] (add_opts (map opt cs) ++ action_text a) ≡ map token cs ++ action_text a ∷ []
unfolding add_opts
tokens-add_opts [] a h = tokens-last (action_text a) [] (action-IsFree a) ∙ emit-action a
tokens-add_opts (c ∷ cs) a h =
    let free : IsFree b' ' (token c) = (letter-free c.0, (omega arith, h.0)) in
    let rest = add_opts (map opt cs) ++ action_text a in
    let split : (c.1 ++ b' ' ∷ add_opts (map opt cs)) ++ action_text a ≡ c.1 ++ b' ' ∷ rest =
      append_assoc c.1 (b' ' ∷ add_opts (map opt cs)) (action_text a) in
    rw split (
      tokens-word (token c) [] rest free
      ∙ ap (λ (l : List Bytes). token c ∷ l) (tokens-add_opts cs a h.1))

-- The loop adds all criteria; the action at the end is taken for an unknown criterion.
pub add_loop-token :
    (cs : List Criterion) (a : Action) (slot : Slot) (r : Rule) (index : ℕ)
    → add_loop (map token cs ++ action_text a ∷ []) slot r index ≡ some (added (add_all r cs) index)
unfolding add_loop call kind
add_loop-token [] accept slot r index = refl
add_loop-token [] drop_action slot r index = refl
add_loop-token ((channel, v) ∷ cs) a slot r index =
    add_loop-token cs a (adds channel) (add channel r v) index
add_loop-token ((event, v) ∷ cs) a slot r index =
    add_loop-token cs a (adds event) (add event r v) index
add_loop-token ((origin, v) ∷ cs) a slot r index =
    add_loop-token cs a (adds origin) (add origin r v) index
add_loop-token ((plugin, v) ∷ cs) a slot r index =
    add_loop-token cs a (adds plugin) (add plugin r v) index
add_loop-token ((server, v) ∷ cs) a slot r index =
    add_loop-token cs a (adds server) (add server r v) index
