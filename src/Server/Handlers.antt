-- ===== src/Server/Handlers.antt =====
-- lib/irccd/server.c: the handlers of the messages of a server, `irc_server_handle_*`.
--
-- A handler returns the server and the events that it dispatches, or `none` where it reads memory
-- that is not there: `msg->args` has exactly `argsz` elements and no sentinel, and `prefix` is NULL
-- when the message has none.
pub mod Complete
pub mod Membership
pub mod Talk
pub mod Table
pub mod Sound
use irccd.Base.{
  ℕ, zero, suc, ◌+◌, ◌-◌, ◌^◌, bit_and, bit_or, Bool, ◌||◌, Option, none, some, List, [], ◌∷◌, ◌++◌,
  ◌==◌, if◌then◌else◌, drop, Bytes, codes, has_flag,
}
use irccd.Memory.{◌>>=◌, read}
use irccd.Event
use irccd.Event.{Event, NamesUser}
use irccd.Channel
use irccd.Channel.{Channel, User, flags_joined}
use irccd.Conn.Message.{Msg}
use irccd.Server.Prefixes.{strip}
use irccd.Server.{
  Server, is_self, modes_find, channels_find, update_channel, channels_add, channels_remove, send,
  join, flags_auto_rejoin, flags_join_invite,
}

abbrev pub Handled : Type 0
Handled = Option (Server × List Event)

-- The loop of `irc_server_handle_connect` over the channels of the server.
unfoldable pub join_loop : Server → List Channel → Server
unfolding join
join_loop s [] = s
join_loop s (ch ∷ rest) = join_loop (join s ch.name ch.password) rest

unfoldable pub handle_connect : Server → Msg → Handled
unfolding join_loop
handle_connect s msg = some (join_loop s s.channels, Event.connect s.name ∷ [])

unfoldable pub handle_disconnect : Server → Msg → Handled
handle_disconnect s msg = some (s, Event.disconnect s.name ∷ [])

unfoldable pub handle_invite : Server → Msg → Handled
unfolding join
handle_invite s msg = do
  origin ← msg.prefix
  channel ← read msg.args 1
  some (
    if has_flag s.flags flags_join_invite then join s channel none else s,
    Event.invite s.name origin channel ∷ [],
  )

unfoldable pub handle_join : Server → Msg → Handled
unfolding channels_add
handle_join s msg = do
  origin ← msg.prefix
  channel ← read msg.args 0
  some (channels_add s channel none flags_joined, Event.join s.name origin channel ∷ [])

-- The channel as it is after the bot itself was kicked.
abbrev pub kicked : Channel → Channel
kicked ch = Channel.clear (record ch { flags = bit_and ch.flags flags_joined })

-- The rejoin uses the name and the password that the channel has.
unfoldable pub rejoin : Server → Bytes → Server
unfolding join channels_find
rejoin s channel = elim (channels_find s channel) [
  | none ↦ s
  | some ch ↦ if has_flag s.flags flags_auto_rejoin then join s ch.name ch.password else s
]

unfoldable pub handle_kick : Server → Msg → Handled
unfolding channels_add is_self update_channel rejoin Channel.clear Channel.remove
handle_kick s msg = do
  origin ← msg.prefix
  channel ← read msg.args 0
  target ← read msg.args 1
  reason ← read msg.args 2
  let added = channels_add s channel none flags_joined
  some (
    if is_self s target
        then rejoin (update_channel added channel kicked) channel
        else update_channel added channel (λ ch. Channel.remove ch target),
    Event.kick s.name origin channel target (some reason) ∷ [],
  )

-- The modes that take an argument that is not used.
abbrev pub is_skipped : ℕ → Bool
is_skipped c = c == b'b' || c == b'k' || c == b'l' || c == b'e' || c == b'I'

-- u->modes | (1 << mode), or u->modes & ~(1 << mode), on 32 bits.
abbrev pub change : ℕ → ℕ → ℕ → ℕ
change action modes mode =
    if action == b'+' then bit_or modes (2 ^ mode) else bit_and modes (2 ^ 32 - 1 - 2 ^ mode)

-- One letter that is a mode of the server: the user of the argument, if there is one, is changed.
unfoldable pub mode_letter : Channel → Bytes → ℕ → ℕ → Channel
unfolding Channel.get Channel.set
mode_letter ch nickname action mode = elim (Channel.get ch nickname) [
  | none ↦ ch
  | some u ↦ Channel.set ch u.nickname (change action u.modes mode)
]

-- The loop over the letters, with the sign and the index of the next argument.
unfoldable pub mode_loop : Server → List Bytes → ℕ → ℕ → Bytes → Channel → Option Channel
unfolding modes_find mode_letter
mode_loop s args action argindex [] ch = some ch
mode_loop s args action argindex (c ∷ p) ch =
    let signed = mode_loop s args c argindex p ch in
    let skipped = mode_loop s args action (argindex + 1) p ch in
    let changed = (do
      nickname ← read args argindex
      mode_loop s args action (argindex + 1) p (mode_letter ch nickname action (modes_find s c))) in
    if c == b'+' || c == b'-'
    then signed
    else if is_skipped c
    then skipped
    else if modes_find s c == 0
    then skipped
    else changed

unfoldable pub handle_mode : Server → Msg → Handled
unfolding mode_loop channels_find update_channel
handle_mode s msg = do
  origin ← msg.prefix
  channel ← read msg.args 0
  mode ← read msg.args 1
  let event = Event.mode s.name origin channel mode (drop 2 msg.args)
  elim (channels_find s channel) [
    | none ↦ some (s, event ∷ [])
    | some ch ↦ do
      changed ← mode_loop s msg.args 0 2 mode ch
      some (update_channel s channel (λ _. changed), event ∷ [])
  ]

-- `irc_channel_remove` on the channel that was searched, which must not be NULL.
unfoldable pub part_user : Server → Bytes → Bytes → Option Server
unfolding channels_find update_channel Channel.remove
part_user s channel origin = elim (channels_find s channel) [
  | none ↦ none
  | some ch ↦ some (update_channel s channel (λ c. Channel.remove c origin))
]

unfoldable pub handle_part : Server → Msg → Handled
unfolding is_self channels_remove part_user
handle_part s msg = do
  origin ← msg.prefix
  channel ← read msg.args 0
  reason ← read msg.args 1
  left ← if is_self s origin then some (channels_remove s channel) else part_user s channel origin
  some (left, Event.part s.name origin channel (some reason) ∷ [])

unfoldable pub handle_nick : Server → Msg → Handled
unfolding is_self
handle_nick s msg = do
  origin ← msg.prefix
  nickname ← read msg.args 0
  some (
    if is_self s origin then record s { nickname = nickname } else s,
    Event.nick s.name origin nickname ∷ [],
  )

unfoldable pub handle_notice : Server → Msg → Handled
handle_notice s msg = do
  origin ← msg.prefix
  channel ← read msg.args 0
  notice ← read msg.args 1
  some (s, Event.notice s.name origin channel notice ∷ [])

unfoldable pub handle_topic : Server → Msg → Handled
handle_topic s msg = do
  origin ← msg.prefix
  channel ← read msg.args 0
  topic ← read msg.args 1
  some (s, Event.topic s.name origin channel topic ∷ [])

unfoldable pub handle_ping : Server → Msg → Handled
unfolding send
handle_ping s msg = elim (read msg.args 0) [
  | none ↦ some (s, [])
  | some text ↦ some (send s (codes "PONG :" ++ text), [])
]

-- A word that was read, if it is not empty.
abbrev pub emit : Bytes → List Bytes → List Bytes
emit [] rest = rest
emit (x ∷ current) rest = (x ∷ current) ∷ rest

-- strtok_r(s, " ", &s) until it returns NULL: the words between spaces, `current` being read.
unfoldable pub tokens : Bytes → Bytes → List Bytes
tokens current [] = emit current []
tokens current (c ∷ s) =
    let ended = emit current (tokens [] s) in
    let longer = tokens (current ++ c ∷ []) s in if c == b' ' then ended else longer

unfoldable pub names_loop : Server → List Bytes → Channel → Channel
unfolding strip Channel.add
names_loop s [] ch = ch
names_loop s (token ∷ rest) ch =
    names_loop s rest (Channel.add ch (strip s token).1 (strip s token).0)

unfoldable pub handle_names : Server → Msg → Handled
unfolding channels_add names_loop tokens update_channel
handle_names s msg = do
  channel ← read msg.args 2
  list ← read msg.args 3
  some (
    update_channel (channels_add s channel none flags_joined) channel
        (names_loop s (tokens [] list)),
    [],
  )

abbrev pub null_user : NamesUser
null_user = record { nickname = none; modes = 0 }

-- irc_util_calloc of one entry for each user.
abbrev pub calloc_users : List User → List NamesUser
calloc_users [] = []
calloc_users (u ∷ users) = null_user ∷ calloc_users users

-- users[i] = …, within the bounds.
abbrev pub write : List NamesUser → ℕ → NamesUser → List NamesUser
write [] i v = []
write (x ∷ array) zero v = v ∷ array
write (x ∷ array) (suc i) v = x ∷ write array i v

-- The loop that copies the users, with its index `i`, which no round changes.
unfoldable pub copy_loop : List User → ℕ → List NamesUser → List NamesUser
copy_loop [] i array = array
copy_loop (u ∷ users) i array =
    copy_loop users i (write array i (record { nickname = some u.nickname; modes = u.modes }))

unfoldable pub names_array : List User → List NamesUser
unfolding copy_loop
names_array users = copy_loop users 0 (calloc_users users)

unfoldable pub handle_endofnames : Server → Msg → Handled
unfolding channels_find names_array
handle_endofnames s msg = do
  channel ← read msg.args 1
  elim (channels_find s channel) [
    | none ↦ some (s, [])
    | some ch ↦ some (s, Event.names s.name channel (names_array ch.users) ∷ [])
  ]
