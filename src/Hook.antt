-- ===== src/Hook.antt =====
-- lib/irccd/hook.c: the arguments that a hook's process is started with.
--
-- An array is its elements before the NULL at its end; an element may be NULL too.
pub mod Arguments
use irccd.Base.{Option, none, some, List, [], ◌∷◌, ◌++◌, map, Bytes, codes}
use irccd.Event
use irccd.Event.{Event}

-- `irc_hook_new`
pub record Hook : Type 0 where
  pub name : Bytes
  pub path : Bytes

unfoldable pub new : Bytes → Bytes → Hook
new name path = record { name = name; path = path }

-- `alloc` of values that are not NULL.
abbrev pub alloc : Hook → List Bytes → List (Option Bytes)
alloc h values = some h.path ∷ map (λ (v : Bytes). some v) values

-- `alloc_mode`: the loop puts each argument of the mode behind the others.
unfoldable pub alloc_mode : List (Option Bytes) → List Bytes → List (Option Bytes)
alloc_mode ret [] = ret
alloc_mode ret (mode ∷ args) = alloc_mode (ret ++ some mode ∷ []) args

unfoldable pub make_args : Hook → Event → Option (List (Option Bytes))
unfolding alloc_mode
make_args h (Event.connect s) = some (alloc h (codes "onConnect" ∷ s ∷ []))
make_args h (Event.disconnect s) = some (alloc h (codes "onDisconnect" ∷ s ∷ []))
make_args h (Event.invite s o c) = some (alloc h (codes "onInvite" ∷ s ∷ o ∷ c ∷ []))
make_args h (Event.join s o c) = some (alloc h (codes "onJoin" ∷ s ∷ o ∷ c ∷ []))
make_args h (Event.kick s o c t r) = some (alloc h (codes "onKick" ∷ s ∷ o ∷ c ∷ t ∷ []) ++ r ∷ [])
make_args h (Event.me s o c m) = some (alloc h (codes "onMe" ∷ s ∷ o ∷ c ∷ m ∷ []))
make_args h (Event.message s o c m) = some (alloc h (codes "onMessage" ∷ s ∷ o ∷ c ∷ m ∷ []))
make_args h (Event.mode s o c m args) =
    some (alloc_mode (alloc h (codes "onMode" ∷ s ∷ o ∷ c ∷ m ∷ [])) args)
make_args h (Event.nick s o n) = some (alloc h (codes "onNick" ∷ s ∷ o ∷ n ∷ []))
make_args h (Event.notice s o c n) = some (alloc h (codes "onNotice" ∷ s ∷ o ∷ c ∷ n ∷ []))
make_args h (Event.part s o c r) = some (alloc h (codes "onPart" ∷ s ∷ o ∷ c ∷ []) ++ r ∷ [])
make_args h (Event.topic s o c t) = some (alloc h (codes "onTopic" ∷ s ∷ o ∷ c ∷ t ∷ []))
make_args h (Event.command s o c m) = none
make_args h (Event.names s c users) = none
make_args h (Event.whois s) = none
make_args h (Event.unknown s) = none

-- What a process sees of its arguments: those before the first NULL.
unfoldable pub argv : List (Option Bytes) → List Bytes
argv [] = []
argv (none ∷ rest) = []
argv (some a ∷ rest) = a ∷ argv rest

-- `irc_hook_invoke`: the file that is executed and its arguments, or none when there is no process.
unfoldable pub invoke : Hook → Event → Option (Bytes × List Bytes)
unfolding make_args argv
invoke h ev = elim (make_args h ev) [ none ↦ none | some args ↦ some (h.path, argv args) ]
