-- ===== src/Bot/Dispatch/Calls.antt =====
-- Which calls a dispatch makes, and how the text of a command is cut out of a message.
use irccd.Base.{
  ◌≡◌, refl, inl, inr, Bool, not, ◌&&◌, Option, none, some, List, [], ◌∷◌, ◌++◌, if◌then◌else◌,
  Bool-cases, Bytes,
}
use irccd.Event.{Event}
use irccd.Rule.{Rule}
use irccd.Bot.Dispatch.{
  Call, handle, observe, is_command, to_command, invokable, hook_loop, plugin_loop, command_call,
  dispatch,
}

module _ (prefix : Bytes) (allowed : Bytes → Bool) (ev : Event) where
  -- The plugins that get the event as it is: the rules let them, and it is no command of theirs.
  abbrev pub verbatim : List Bytes → List Call
  verbatim [] = []
  verbatim (p ∷ plugins) =
      let rest = verbatim plugins in
      if not (is_command prefix p ev) && allowed p then handle p ev ∷ rest else rest

  -- The last plugin whose command it is.
  abbrev pub last_command : List Bytes → Option Bytes → Option Bytes
  last_command [] found = found
  last_command (p ∷ plugins) found =
      let other = last_command plugins found in
      if is_command prefix p ev then last_command plugins (some p) else other

  abbrev pub commanded : Option Bytes → List Call
  commanded none = []
  commanded (some p) = if allowed p then handle p (to_command prefix p ev) ∷ [] else []

  plugin_loop_lem :
      (rules : List Rule) (plugins : List Bytes) (found : Option Bytes)
      → ((p : Bytes) → invokable rules p ev ≡ some (allowed p))
      → plugin_loop prefix rules plugins ev found
        ≡ some (last_command plugins found, verbatim plugins)
  unfolding plugin_loop
  plugin_loop_lem rules [] found h = refl
  plugin_loop_lem rules (p ∷ plugins) found h = elim (Bool-cases (is_command prefix p ev)) [
    | inl e ↦ rw e (plugin_loop_lem rules plugins (some p) h)
    | inr e ↦ elim (Bool-cases (allowed p)) [
      | inl a ↦ rw (e, h p, plugin_loop_lem rules plugins found h, a)
      | inr a ↦ rw (e, h p, plugin_loop_lem rules plugins found h, a)
    ]
  ]

  command_call_lem :
      (rules : List Rule) (found : Option Bytes)
      → ((p : Bytes) → invokable rules p ev ≡ some (allowed p))
      → command_call prefix rules found ev ≡ some (commanded found)
  unfolding command_call
  command_call_lem rules none h = refl
  command_call_lem rules (some p) h = rw (h p)

-- When the rules do not fault on the event, a dispatch calls every hook, then every plugin that
-- the rules let have the event and that it is no command of, then the last plugin whose command
-- it is, with the text of the command and if the rules let it have the event, then the observer.
pub dispatch_lem :
    (prefix : Bytes) (allowed : Bytes → Bool) (ev : Event) (rules : List Rule)
    (hooks plugins : List Bytes) (observer : Bool)
    → ((p : Bytes) → invokable rules p ev ≡ some (allowed p))
    → dispatch prefix rules hooks plugins observer ev
      ≡ some (
          hook_loop hooks ev
          ++ verbatim prefix allowed ev plugins
          ++ commanded prefix allowed ev (last_command prefix allowed ev plugins none)
          ++ (if observer then observe ev ∷ [] else []))
unfolding dispatch
dispatch_lem prefix allowed ev rules hooks plugins observer h = rw (
  plugin_loop_lem prefix allowed ev rules plugins none h,
  command_call_lem prefix allowed ev rules (last_command prefix allowed ev plugins none) h,
)
