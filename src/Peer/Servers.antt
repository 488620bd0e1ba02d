-- ===== src/Peer/Servers.antt =====
-- irccd/peer.c: the commands SERVER-* that send a request to a server.
--
-- Each reads the arguments of its line, and one that is not there is NULL.
use irccd.Base.{Option, none, some, List, [], ◌∷◌, Bytes, einval}
use irccd.Server.{join}
use irccd.Server.Requests.{Request, request}
use irccd.Util.{parse}
use irccd.Peer.{State, Outcome, server_get, with_server, fail}

-- args[i][0] ? args[i] : NULL of an argument that is not NULL.
abbrev pub some_text : Bytes → Option Bytes
some_text [] = none
some_text (c ∷ s) = some (c ∷ s)

-- The commands with exactly three arguments: server, target and text.
abbrev pub three : (Bytes → Bytes → Request) → State → List Bytes → Option Outcome
three make p (id ∷ a ∷ b ∷ []) = with_server p id (λ s. request s (make a b))
three make p _ = fail p einval

unfoldable pub cmd_server_message : State → Bytes → Option Outcome
unfolding with_server parse request
cmd_server_message p line = three Request.message p (parse line 3)

unfoldable pub cmd_server_me : State → Bytes → Option Outcome
unfolding with_server parse request
cmd_server_me p line = three Request.me p (parse line 3)

unfoldable pub cmd_server_notice : State → Bytes → Option Outcome
unfolding with_server parse request
cmd_server_notice p line = three Request.notice p (parse line 3)

unfoldable pub cmd_server_invite : State → Bytes → Option Outcome
unfolding with_server parse request
cmd_server_invite p line = three Request.invite p (parse line 3)

unfoldable pub cmd_server_topic : State → Bytes → Option Outcome
unfolding with_server parse request
cmd_server_topic p line = three Request.topic p (parse line 3)

abbrev pub mode_args : State → List Bytes → Option Outcome
mode_args p (id ∷ c ∷ m ∷ []) = with_server p id (λ s. request s (Request.mode c m none))
mode_args p (id ∷ c ∷ m ∷ a ∷ []) = with_server p id (λ s. request s (Request.mode c m (some a)))
mode_args p _ = fail p einval

unfoldable pub cmd_server_mode : State → Bytes → Option Outcome
unfolding with_server parse request
cmd_server_mode p line = mode_args p (parse line 4)

abbrev pub join_args : State → List Bytes → Option Outcome
join_args p (id ∷ c ∷ []) = with_server p id (λ s. join s c none)
join_args p (id ∷ c ∷ pass ∷ []) = with_server p id (λ s. join s c (some pass))
join_args p _ = fail p einval

unfoldable pub cmd_server_join : State → Bytes → Option Outcome
unfolding with_server parse join
cmd_server_join p line = join_args p (parse line 3)

-- A read through args[3] when it is NULL, unless the server is not found.
abbrev pub without : State → Bytes → Option Outcome
without p id = elim (server_get p.servers id) [ none ↦ with_server p id (λ s. s) | some s ↦ none ]

abbrev pub kick_args : State → List Bytes → Option Outcome
kick_args p (id ∷ c ∷ t ∷ []) = without p id
kick_args p (id ∷ c ∷ t ∷ r ∷ []) =
    with_server p id (λ s. request s (Request.kick c t (some_text r)))
kick_args p _ = fail p einval

unfoldable pub cmd_server_kick : State → Bytes → Option Outcome
unfolding with_server server_get parse request
cmd_server_kick p line = kick_args p (parse line 4)

abbrev pub part_args : State → List Bytes → Option Outcome
part_args p (id ∷ c ∷ []) = without p id
part_args p (id ∷ c ∷ r ∷ []) = with_server p id (λ s. request s (Request.part c (some_text r)))
part_args p _ = fail p einval

unfoldable pub cmd_server_part : State → Bytes → Option Outcome
unfolding with_server server_get parse request
cmd_server_part p line = part_args p (parse line 3)
