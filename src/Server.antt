-- ===== src/Server.antt =====
-- lib/irccd/server.c: the state of a server and the operations on it. The handlers of its messages
-- are in a child.
--
-- The linked list of channels is the list of its nodes from the head. A channel is found by its
-- name, so a write through a pointer that a search returned is a write to the first such channel.
pub mod Prefixes
pub mod Handlers
pub mod Requests
use irccd.Base.{
  ℕ, ◌+◌, bit_or, Bool, true, false, ◌&&◌, Option, none, some, List, [], ◌∷◌, ◌++◌, map, ◌==◌,
  if◌then◌else◌, Bytes, codes, to_lower, str_case_eq, has_flag, ok, err,
}
use irccd.Channel
use irccd.Channel.{Channel, flags_none, flags_joined}
use irccd.Conn.Output

pub record Prefix : Type 0 where
  pub mode : ℕ
  pub symbol : ℕ

pub record Server : Type 0 where
  pub name : Bytes
  pub flags : ℕ
  pub nickname : Bytes
  pub ctcp_version : Option Bytes
  pub ctcp_source : Option Bytes
  pub prefixes : List Prefix
  pub channels : List Channel
  -- irc__conn_ready of its connection, and that connection's output buffer
  pub ready : Bool
  pub out : Bytes

abbrev pub flags_auto_rejoin : ℕ
flags_auto_rejoin = 2

abbrev pub flags_join_invite : ℕ
flags_join_invite = 4

-- strncasecmp(prefix, s, strlen(prefix)) == 0
unfoldable pub has_prefix_nocase : Bytes → Bytes → Bool
has_prefix_nocase [] s = true
has_prefix_nocase (x ∷ p) [] = false
has_prefix_nocase (x ∷ p) (y ∷ s) = to_lower x == to_lower y && has_prefix_nocase p s

-- `irc_server_is_self`
unfoldable pub is_self : Server → Bytes → Bool
unfolding has_prefix_nocase
is_self s nickname = has_prefix_nocase s.nickname nickname

-- The loop of `irc_server_modes_find`, with its index.
unfoldable pub modes_find_loop : List Prefix → ℕ → ℕ → ℕ
modes_find_loop [] i mode = 0
modes_find_loop (p ∷ rest) i mode =
    let later = modes_find_loop rest (i + 1) mode in if p.mode == mode then i else later

unfoldable pub modes_find : Server → ℕ → ℕ
unfolding modes_find_loop
modes_find s mode = modes_find_loop s.prefixes 0 mode

unfoldable pub find_loop : List Channel → Bytes → Option Channel
find_loop [] name = none
find_loop (ch ∷ rest) name = if str_case_eq ch.name name then some ch else find_loop rest name

-- `irc_server_channels_find`
unfoldable pub channels_find : Server → Bytes → Option Channel
unfolding find_loop
channels_find s name = find_loop s.channels name

-- A write through the pointer to the first channel of that name.
unfoldable pub update_loop : List Channel → Bytes → (Channel → Channel) → List Channel
update_loop [] name f = []
update_loop (ch ∷ rest) name f =
    let later = update_loop rest name f in
    if str_case_eq ch.name name then f ch ∷ rest else ch ∷ later

unfoldable pub update_channel : Server → Bytes → (Channel → Channel) → Server
unfolding update_loop
update_channel s name f = record s { channels = update_loop s.channels name f }

-- `irc_server_channels_add`
unfoldable pub channels_add : Server → Bytes → Option Bytes → ℕ → Server
unfolding channels_find update_channel Channel.new
channels_add s name password flags = elim (channels_find s name) [
  | some ch ↦ update_channel s name (λ c. record c { flags = bit_or c.flags flags })
  | none ↦ record s { channels = Channel.new name password flags ∷ s.channels }
]

unfoldable pub unlink_loop : List Channel → Bytes → List Channel
unlink_loop [] name = []
unlink_loop (ch ∷ rest) name =
    let later = unlink_loop rest name in if str_case_eq ch.name name then rest else ch ∷ later

-- `irc_server_channels_remove` of the channel that a search by this name returned, if any.
unfoldable pub channels_remove : Server → Bytes → Server
unfolding unlink_loop
channels_remove s name = record s { channels = unlink_loop s.channels name }

-- `irc_server_channels_clear`
unfoldable pub channels_clear : Server → Server
unfolding Channel.clear
channels_clear s = record s { channels = map Channel.clear s.channels }

-- `irc_server_send` of a formatted text.
unfoldable pub send : Server → Bytes → Server
unfolding Output.send_va
send s text = elim (Output.send_va s.ready s.out text) [
  | ok out ↦ record s { out = out }
  | err e ↦ s
]

abbrev pub join_text : Bytes → Option Bytes → Bytes
join_text name none = codes "JOIN " ++ name
join_text name (some pass) = codes "JOIN " ++ (name ++ b' ' ∷ pass)

abbrev pub is_joined : Option Channel → Bool
is_joined none = false
is_joined (some ch) = has_flag ch.flags flags_joined

-- `irc_server_join`
unfoldable pub join : Server → Bytes → Option Bytes → Server
unfolding channels_find channels_add send
join s name pass =
    let added : Server = elim (channels_find s name) [
      | some ch ↦ s
      | none ↦ channels_add s name pass flags_none
    ] in
    if is_joined (channels_find added name)
    then added
    else if added.ready
    then send added (join_text name pass)
    else added
