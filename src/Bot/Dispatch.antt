-- ===== src/Bot/Dispatch.antt =====
-- lib/irccd/irccd.c: `irc_bot_dispatch` and the helpers it is made of.
--
-- The result is the calls that are made, in their order, or `none` where a rule reads a NULL string.
-- Hooks and plugins are their names; what they do is their own. `prefix` is the command prefix of
-- the server of the event.
pub mod Calls
use irccd.Base.{
  ◌+◌, Bool, true, false, ◌&&◌, Option, none, some, List, [], ◌∷◌, ◌++◌, if◌then◌else◌, length,
  drop, Bytes, codes, has_prefix, is_space,
}
use irccd.Memory.{◌>>=◌}
use irccd.Event
use irccd.Event.{Event}
use irccd.Rule.{Rule, Query, matchlist}

pub data Call : Type 0 where
  invoke handle : Bytes → Event → Call
  observe : Event → Call

unfoldable pub is_command : Bytes → Bytes → Event → Bool
unfolding has_prefix
is_command prefix p (Event.message server origin channel text) =
    has_prefix prefix text && has_prefix p (drop (length prefix) text)
is_command prefix p _ = false

-- The loop that skips spaces.
unfoldable pub skip_spaces : Bytes → Bytes
unfolding is_space
skip_spaces [] = []
skip_spaces (c ∷ s) = let rest = skip_spaces s in if is_space c then rest else c ∷ s

unfoldable pub to_command : Bytes → Bytes → Event → Event
unfolding skip_spaces
to_command prefix p (Event.message server origin channel text) =
    Event.command server origin channel (skip_spaces (drop (length prefix + length p) text))
to_command prefix p ev = ev

abbrev pub ask : Bytes → Option Bytes → Option Bytes → Bytes → Bytes → Query
ask server channel origin plugin event = record {
  server = some server;
  channel = channel;
  origin = origin;
  plugin = some plugin;
  event = some event;
}

unfoldable pub invokable : List Rule → Bytes → Event → Option Bool
unfolding matchlist
invokable rules p (Event.command s o c _) =
    matchlist rules (ask s (some c) (some o) p (codes "onCommand"))
invokable rules p (Event.connect s) = matchlist rules (ask s none none p (codes "onConnect"))
invokable rules p (Event.disconnect s) = matchlist rules (ask s none none p (codes "onDisconnect"))
invokable rules p (Event.invite s o c) =
    matchlist rules (ask s (some c) (some o) p (codes "onInvite"))
invokable rules p (Event.join s o c) = matchlist rules (ask s (some c) (some o) p (codes "onJoin"))
invokable rules p (Event.kick s o c _ _) =
    matchlist rules (ask s (some c) (some o) p (codes "onKick"))
invokable rules p (Event.me s o c _) = matchlist rules (ask s (some c) (some o) p (codes "onMe"))
invokable rules p (Event.message s o c _) =
    matchlist rules (ask s (some c) (some o) p (codes "onMessage"))
invokable rules p (Event.mode s o c _ _) =
    matchlist rules (ask s (some c) (some o) p (codes "onMode"))
invokable rules p (Event.names s c _) = matchlist rules (ask s (some c) none p (codes "onNames"))
invokable rules p (Event.nick s o _) = matchlist rules (ask s none (some o) p (codes "onNick"))
invokable rules p (Event.notice s o c _) =
    matchlist rules (ask s (some c) (some o) p (codes "onNotice"))
invokable rules p (Event.part s o c _) =
    matchlist rules (ask s (some c) (some o) p (codes "onPart"))
invokable rules p (Event.topic s o c _) =
    matchlist rules (ask s (some c) (some o) p (codes "onTopic"))
invokable rules p (Event.whois s) = matchlist rules (ask s none none p (codes "onWhois"))
invokable rules p (Event.unknown s) = some true

abbrev pub hook_loop : List Bytes → Event → List Call
hook_loop [] ev = []
hook_loop (h ∷ hooks) ev = invoke h ev ∷ hook_loop hooks ev

-- The loop over the plugins, with `plgcmd`: its last value, and the calls.
unfoldable pub plugin_loop :
    Bytes → List Rule → List Bytes → Event → Option Bytes → Option (Option Bytes × List Call)
unfolding is_command invokable
plugin_loop prefix rules [] ev plgcmd = some (plgcmd, [])
plugin_loop prefix rules (p ∷ plugins) ev plgcmd =
    let as_command = plugin_loop prefix rules plugins ev (some p) in
    let verbatim = plugin_loop prefix rules plugins ev plgcmd in
    if is_command prefix p ev then as_command else do
      allowed ← invokable rules p ev
      rest ← verbatim
      some (rest.0, if allowed then handle p ev ∷ rest.1 else rest.1)

-- The call of the plugin whose command it is.
unfoldable pub command_call : Bytes → List Rule → Option Bytes → Event → Option (List Call)
unfolding invokable to_command
command_call prefix rules none ev = some []
command_call prefix rules (some p) ev = do
  allowed ← invokable rules p ev
  some (if allowed then handle p (to_command prefix p ev) ∷ [] else [])

-- `irc_bot_dispatch`, with an observer or without.
unfoldable pub dispatch :
    Bytes → List Rule → List Bytes → List Bytes → Bool → Event → Option (List Call)
unfolding plugin_loop command_call
dispatch prefix rules hooks plugins observer ev = do
  looped ← plugin_loop prefix rules plugins ev none
  called ← command_call prefix rules looped.0 ev
  some (hook_loop hooks ev ++ looped.1 ++ called ++ (if observer then observe ev ∷ [] else []))
