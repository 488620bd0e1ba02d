-- ===== src/Peer/Lists.antt =====
-- irccd/peer.c: the commands HOOK-*, the lists of plugins and of servers, PLUGIN-LOAD,
-- PLUGIN-UNLOAD and WATCH.
use irccd.Base.{
  ℕ, ◌-◌, true, Option, none, some, List, [], ◌∷◌, ◌++◌, map, if◌then◌else◌, Bytes, codes, str_eq,
  Errno, eexist, einval, Result, ok, err,
}
use irccd.Memory.{◌>>=◌}
use irccd.Bot.Registry
use irccd.Server.{Server}
use irccd.Util.{parse}
use irccd.Hook
use irccd.Hook.{Hook}
use irccd.Peer.{State, Outcome, done, push, succeed, fail, buf_len}

abbrev pub hook_names : List Hook → List Bytes
hook_names hooks = map (λ (h : Hook). h.name) hooks

abbrev pub server_names : List Server → List Bytes
server_names servers = map (λ (s : Server). s.name) servers

-- The loop that prints each name, and a space unless it is the last.
unfoldable pub names_text : List Bytes → Bytes
names_text [] = []
names_text (n ∷ []) = n
names_text (n ∷ m ∷ rest) = n ++ b' ' ∷ names_text (m ∷ rest)

-- `held` is as for RULE-LIST, but no error of the stream is looked for: `none` is a buffer that is
-- not a string.
module _ (held : ℕ → Bytes → Option Bytes) where
  unfoldable pub list_names : ℕ → State → List Bytes → Option Outcome
  unfolding push names_text
  list_names size p names = do
    out ← held size (codes "OK " ++ names_text names)
    some (done (push p out))

  unfoldable pub cmd_hook_list : State → Option Outcome
  unfolding list_names
  cmd_hook_list p = list_names (buf_len - 1) p (hook_names p.hooks)

  unfoldable pub cmd_plugin_list : State → Option Outcome
  unfolding list_names
  cmd_plugin_list p = list_names (buf_len - 1) p p.plugins

  unfoldable pub cmd_server_list : State → Option Outcome
  unfolding list_names
  cmd_server_list p = list_names buf_len p (server_names p.servers)

-- `irc_bot_hook_add` and `irc_bot_hook_remove` of hooks with their paths.
unfoldable pub hook_unlink : List Hook → Bytes → List Hook
hook_unlink [] name = []
hook_unlink (h ∷ rest) name =
    let later = hook_unlink rest name in if str_eq h.name name then rest else h ∷ later

abbrev pub add_hook : State → List Bytes → Option Outcome
add_hook p (name ∷ path ∷ []) = elim (Registry.get (hook_names p.hooks) name) [
  | some h ↦ fail p eexist
  | none ↦ succeed (record p { hooks = Hook.new name path ∷ p.hooks })
]
add_hook p _ = fail p einval

unfoldable pub cmd_hook_add : State → Bytes → Option Outcome
unfolding parse succeed Registry.get Hook.new
cmd_hook_add p line = add_hook p (parse line 2)

abbrev pub remove_hook : State → List Bytes → Option Outcome
remove_hook p (name ∷ []) = succeed (record p { hooks = hook_unlink p.hooks name })
remove_hook p _ = fail p einval

unfoldable pub cmd_hook_remove : State → Bytes → Option Outcome
unfolding parse succeed hook_unlink
cmd_hook_remove p line = remove_hook p (parse line 1)

abbrev pub unload : State → List Bytes → Option Outcome
unload p [] = succeed (record p { plugins = [] })
unload p (name ∷ rest) = succeed (record p { plugins = Registry.remove p.plugins name })

unfoldable pub cmd_plugin_unload : State → Bytes → Option Outcome
unfolding parse succeed Registry.remove
cmd_plugin_unload p line = unload p (parse line 1)

-- What the search of a plugin gives: the result of its loading, or an error number.
module _ (search : Bytes → Result ℕ) (strerror : Errno → Bytes) where
  abbrev pub load : State → List Bytes → Option Outcome
  load p (name ∷ rest) = elim (search name) [
    | err e ↦ succeed (push p (codes "could not load plugin: " ++ strerror e))
    | ok rc ↦ succeed (record p { plugins = (Registry.plugin_add p.plugins name rc).1 })
  ]
  load p [] = fail p einval

  unfoldable pub cmd_plugin_load : State → Bytes → Option Outcome
  unfolding parse succeed push Registry.plugin_add
  cmd_plugin_load p line = load p (parse line 1)

unfoldable pub cmd_watch : State → Option Outcome
unfolding succeed
cmd_watch p = succeed (record p { is_watching = true })
