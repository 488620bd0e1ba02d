-- ===== src/Peer/Table.antt =====
-- irccd/peer.c: the table of commands, `find`, `invoke` and the lines of a peer.
--
-- The commands that are not modelled are an argument of `invoke`.
pub mod Found
use irccd.Base.{
  ℕ, zero, suc, not, Option, none, some, List, [], ◌∷◌, if◌then◌else◌, length, take, Bytes, codes,
  is_space, Errno, Result,
}
use irccd.Memory.{◌>>=◌}
use irccd.Util.{strchr}
use irccd.Bsearch.{bsearch}
use irccd.Peer.{State, Outcome, done, failed, push}
use irccd.Peer.Numbers.{skip_spaces}
use irccd.Peer.Rules.{cmd_rule_add, cmd_rule_edit}
use irccd.Peer.Order.{cmd_rule_list, cmd_rule_move, cmd_rule_remove}
use irccd.Peer.Servers.{
  cmd_server_message, cmd_server_me, cmd_server_notice, cmd_server_invite, cmd_server_topic,
  cmd_server_mode, cmd_server_join, cmd_server_kick, cmd_server_part,
}
use irccd.Peer.Lists.{
  cmd_hook_add, cmd_hook_list, cmd_hook_remove, cmd_plugin_list, cmd_plugin_load, cmd_plugin_unload,
  cmd_server_list, cmd_watch,
}

-- The functions of the table.
pub data Command : Type 0 where
  hook_add hook_list hook_remove : Command
  plugin_config plugin_info plugin_list plugin_load plugin_path plugin_reload : Command
  plugin_template plugin_unload : Command
  rule_add rule_edit rule_list rule_move rule_remove : Command
  server_connect server_disconnect server_info server_invite server_join server_kick : Command
  server_list server_me server_message server_mode server_notice server_part : Command
  server_reconnect server_topic watch : Command

pub record Row : Type 0 where
  pub name : Bytes
  pub call : Command

abbrev pub row_name : Row → Bytes
row_name r = r.name

abbrev pub row : Bytes → Command → Row
row name call = record { name = name; call = call }

abbrev pub cmds : List Row
cmds =
    row (codes "HOOK-ADD") hook_add
    ∷ row (codes "HOOK-LIST") hook_list
    ∷ row (codes "HOOK-REMOVE") hook_remove
    ∷ row (codes "PLUGIN-CONFIG") plugin_config
    ∷ row (codes "PLUGIN-INFO") plugin_info
    ∷ row (codes "PLUGIN-LIST") plugin_list
    ∷ row (codes "PLUGIN-LOAD") plugin_load
    ∷ row (codes "PLUGIN-PATH") plugin_path
    ∷ row (codes "PLUGIN-RELOAD") plugin_reload
    ∷ row (codes "PLUGIN-TEMPLATE") plugin_template
    ∷ row (codes "PLUGIN-UNLOAD") plugin_unload
    ∷ row (codes "RULE-ADD") rule_add
    ∷ row (codes "RULE-EDIT") rule_edit
    ∷ row (codes "RULE-LIST") rule_list
    ∷ row (codes "RULE-MOVE") rule_move
    ∷ row (codes "RULE-REMOVE") rule_remove
    ∷ row (codes "SERVER-CONNECT") server_connect
    ∷ row (codes "SERVER-DISCONNECT") server_disconnect
    ∷ row (codes "SERVER-INFO") server_info
    ∷ row (codes "SERVER-INVITE") server_invite
    ∷ row (codes "SERVER-JOIN") server_join
    ∷ row (codes "SERVER-KICK") server_kick
    ∷ row (codes "SERVER-LIST") server_list
    ∷ row (codes "SERVER-ME") server_me
    ∷ row (codes "SERVER-MESSAGE") server_message
    ∷ row (codes "SERVER-MODE") server_mode
    ∷ row (codes "SERVER-NOTICE") server_notice
    ∷ row (codes "SERVER-PART") server_part
    ∷ row (codes "SERVER-RECONNECT") server_reconnect
    ∷ row (codes "SERVER-TOPIC") server_topic
    ∷ row (codes "WATCH") watch
    ∷ []

unfoldable pub first_word : Bytes → Bytes
unfolding is_space
first_word [] = []
first_word (c ∷ s) = let rest = first_word s in if is_space c then [] else c ∷ rest

-- `find`: sscanf(line, "%31s", cmd) and the search.
unfoldable pub find : Bytes → Option Row
unfolding skip_spaces first_word bsearch
find line = bsearch row_name (length cmds) (take 31 (first_word (skip_spaces line))) cmds

-- What a command asks of other code: a stream on a buffer, the search of a plugin, the texts of the
-- error numbers, and the commands that are not modelled.
pub record Outside : Type 0 where
  pub held : ℕ → Bytes → Option Bytes
  pub search : Bytes → Result ℕ
  pub strerror : Errno → Bytes
  pub other : Command → State → Bytes → Option Outcome

module _ (o : Outside) where
  unfoldable pub run : Command → State → Bytes → Option Outcome
  unfolding cmd_rule_add cmd_rule_edit cmd_rule_list cmd_rule_move cmd_rule_remove
      cmd_server_message cmd_server_me cmd_server_notice cmd_server_invite cmd_server_topic
      cmd_server_mode cmd_server_join cmd_server_kick cmd_server_part cmd_hook_add cmd_hook_list
      cmd_hook_remove cmd_plugin_list cmd_plugin_load cmd_plugin_unload cmd_server_list cmd_watch
  run hook_add p line = cmd_hook_add p line
  run hook_list p line = cmd_hook_list o.held p
  run hook_remove p line = cmd_hook_remove p line
  run plugin_list p line = cmd_plugin_list o.held p
  run plugin_load p line = cmd_plugin_load o.search o.strerror p line
  run plugin_unload p line = cmd_plugin_unload p line
  run rule_add p line = cmd_rule_add o.strerror p line
  run rule_edit p line = cmd_rule_edit p line
  run rule_list p line = cmd_rule_list o.held p
  run rule_move p line = cmd_rule_move p line
  run rule_remove p line = cmd_rule_remove p line
  run server_invite p line = cmd_server_invite p line
  run server_join p line = cmd_server_join p line
  run server_kick p line = cmd_server_kick p line
  run server_list p line = cmd_server_list o.held p
  run server_me p line = cmd_server_me p line
  run server_message p line = cmd_server_message p line
  run server_mode p line = cmd_server_mode p line
  run server_notice p line = cmd_server_notice p line
  run server_part p line = cmd_server_part p line
  run server_topic p line = cmd_server_topic p line
  run watch p line = cmd_watch p
  run c p line = o.other c p line

  abbrev pub reported : Outcome → State
  reported (done p) = p
  reported (failed e p) = push p (o.strerror e)

  -- `invoke`
  unfoldable pub invoke : State → Bytes → Option State
  unfolding push find run
  invoke p line = elim (find line) [
    | none ↦ some (push p (codes "command not found"))
    | some c ↦ run c.call p line >>= λ r. some (reported r)
  ]

  -- The loop of `peer_stream_entry` over the lines of the input: the state, and what is left in the
  -- buffer. Each line takes a byte at least, so the length of the input is fuel enough.
  unfoldable pub lines : ℕ → State → Bytes → Option (State × Bytes)
  unfolding strchr invoke
  lines zero p input = some (p, input)
  lines (suc fuel) p input = elim (strchr input b'\n') [
    | none ↦ some (p, input)
    | some ([], rest) ↦ lines fuel p rest
    | some (c ∷ line, rest) ↦ invoke p (c ∷ line) >>= λ p'. lines fuel p' rest
  ]
