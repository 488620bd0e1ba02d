-- ===== src/Bot/Registry.antt =====
-- lib/irccd/irccd.c: the registries of the bot, which hold servers, plugins and hooks by their names.
--
-- An element is its name. What a plugin answers when it is loaded is a parameter, since the code of
-- a plugin is its own. The log is left out.
pub mod Names
use irccd.Base.{
  ℕ, ◌-◌, ◌^◌, Bool, true, false, Option, none, some, List, [], ◌∷◌, ◌++◌, ◌==◌, if◌then◌else◌,
  Bytes, str_eq,
}

-- The loop of `irc_bot_server_get`, `irc_bot_plugin_get` and `irc_bot_hook_get`.
unfoldable pub get : List Bytes → Bytes → Option Bytes
get [] name = none
get (x ∷ rest) name = if str_eq x name then some x else get rest name

-- LL_DELETE of the node that `get` returned.
unfoldable pub delete : List Bytes → Bytes → List Bytes
delete [] name = []
delete (x ∷ rest) name = let later = delete rest name in if str_eq x name then rest else x ∷ later

-- `irc_bot_server_add`: 0 or -1, here true or false, and the registry.
unfoldable pub server_add : List Bytes → Bytes → Bool × List Bytes
unfolding get
server_add servers s = elim (get servers s) [
  | some x ↦ (false, servers)
  | none ↦ (true, servers ++ s ∷ [])
]

-- `irc_bot_plugin_add`, with what `irc_plugin_load` returns as an unsigned word, in which -1 is
-- 2 ^ 32 - 1.
unfoldable pub plugin_add : List Bytes → Bytes → ℕ → ℕ × List Bytes
unfolding get
plugin_add plugins p rc = elim (get plugins p) [
  | some x ↦ (2 ^ 32 - 1, plugins)
  | none ↦ (rc, if rc == 0 then p ∷ plugins else plugins)
]

-- `irc_bot_hook_add`
unfoldable pub hook_add : List Bytes → Bytes → Bool × List Bytes
unfolding get
hook_add hooks h = elim (get hooks h) [ some x ↦ (false, hooks) | none ↦ (true, h ∷ hooks) ]

-- `irc_bot_hook_remove` and `irc_bot_plugin_remove`.
unfoldable pub remove : List Bytes → Bytes → List Bytes
unfolding get delete
remove elements name = elim (get elements name) [ none ↦ elements | some x ↦ delete elements x ]
