-- ===== src/Peer.antt =====
-- irccd/peer.c: a control connection and its commands.
--
-- The state is what the commands read and write of the bot, with the flag of the peer and the texts
-- that were given to `peer_push`, whose result no command reads. The stream library frames and
-- sends them. A plugin is its name.
pub mod Numbers
pub mod Rules
pub mod Order
pub mod Servers
pub mod Lists
pub mod Table
use irccd.Base.{
  ℕ, ◌-◌, Bool, not, Option, none, some, List, [], ◌∷◌, ◌++◌, if◌then◌else◌, take, Bytes, codes,
  str_eq, Errno,
}
use irccd.Memory.{◌>>=◌}
use irccd.Rule.{Rule}
use irccd.Hook.{Hook}
use irccd.Server.{Server}

pub record State : Type 0 where
  pub rules : List Rule
  pub hooks : List Hook
  pub plugins : List Bytes
  pub servers : List Server
  pub is_watching : Bool
  pub pushed : List Bytes

-- What a command returns: 0, or an error number. `none` of an option around it is a fault.
pub data Outcome : Type 0 where
  done : State → Outcome
  failed : Errno → State → Outcome

abbrev pub buf_len : ℕ
buf_len = 512

-- `peer_push`
unfoldable pub push : State → Bytes → State
push p text = record p { pushed = p.pushed ++ text ∷ [] }

-- The static `ok`.
unfoldable pub succeed : State → Option Outcome
unfolding push
succeed p = some (done (push p (codes "OK")))

-- `error` with its formatted text, which `vsnprintf` cuts.
unfoldable pub error : State → Bytes → Option Outcome
unfolding push
error p text = elim (take (buf_len - 1) text) [
  | [] ↦ some (done p)
  | c ∷ rest ↦ some (done (push p (codes "ERROR " ++ c ∷ rest)))
]

-- A command that returns an error number.
abbrev pub fail : State → Errno → Option Outcome
fail p e = some (failed e p)

-- `irc_bot_server_get`
unfoldable pub server_get : List Server → Bytes → Option Server
server_get [] id = none
server_get (s ∷ rest) id = if str_eq s.name id then some s else server_get rest id

-- A write through the pointer that it returned.
unfoldable pub server_set : List Server → Bytes → Server → List Server
server_set [] id new = []
server_set (s ∷ rest) id new =
    let later = server_set rest id new in if str_eq s.name id then new ∷ rest else s ∷ later

-- `require_server`, and what the caller does with the server.
unfoldable pub with_server : State → Bytes → (Server → Server) → Option Outcome
unfolding push succeed server_get server_set
with_server p id f = elim (server_get p.servers id) [
  | none ↦ some (done (push p (codes "server " ++ (id ++ codes " not found"))))
  | some s ↦ succeed (record p { servers = server_set p.servers id (f s) })
]
