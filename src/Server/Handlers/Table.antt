-- ===== src/Server/Handlers/Table.antt =====
-- lib/irccd/server.c: the table of handlers, `irc_server_handle`, and the loop of
-- `irc_server_consumer_entry` over the messages of a server.
--
-- The limits and the names that a 005 announces, which no other function reads, are left out, and so
-- are the details of a whois event.
pub mod Keepers
pub mod Sound
pub mod Whois
use irccd.Base.{
  ℕ, Bool, true, false, not, Option, none, some, List, [], ◌∷◌, ◌++◌, ◌==◌, if◌then◌else◌, length,
  Bytes, codes, str_eq,
}
use irccd.Memory.{◌>>=◌, read}
use irccd.Event
use irccd.Event.{Event}
use irccd.Conn.Message.{Msg}
use irccd.Bsearch.{bsearch}
use irccd.Server.{Server}
use irccd.Server.Prefixes.{span, word, literal, nonempty, modes_parse}
use irccd.Server.Handlers.{
  Handled, handle_connect, handle_disconnect, handle_invite, handle_join, handle_kick, handle_mode,
  handle_nick, handle_notice, handle_part, handle_topic, handle_ping, handle_names,
  handle_endofnames,
}
use irccd.Server.Handlers.Talk.{handle_msg}

abbrev pub is_key : ℕ → Bool
is_key c = not (c == b'=')

abbrev pub key_value : Bytes × Bytes → Option (Bytes × Bytes)
key_value (key, rest) = do
  k ← nonempty key
  after ← literal b'=' rest
  v ← word 63 after
  some (k, v)

-- sscanf(arg, "%63[^=]=%63s", key, value)
unfoldable pub scan_support : Bytes → Option (Bytes × Bytes)
unfolding span word
scan_support arg = key_value (span 63 is_key arg)

-- One argument of a 005.
unfoldable pub support : Server → Bytes → Server
unfolding scan_support modes_parse
support s arg = elim (scan_support arg) [
  | none ↦ s
  | some (key, value) ↦ if str_eq key (codes "PREFIX") then modes_parse s value else s
]

unfoldable pub support_loop : Server → List Bytes → Server
unfolding support
support_loop s [] = s
support_loop s (arg ∷ args) = support_loop (support s arg) args

unfoldable pub handle_support : Server → Msg → Handled
unfolding support_loop
handle_support s msg = some (support_loop s msg.args, [])

unfoldable pub handle_nicknameinuse : Server → Msg → Handled
handle_nicknameinuse s msg = some (s, [])

unfoldable pub handle_error : Server → Msg → Handled
handle_error s msg = do text ← read msg.args 0; some (s, [])

-- What a handler does: it ends, or it waits for the end of a whois.
pub data Handler : Type 0 where
  ends : (Server → Msg → Handled) → Handler
  waits : Handler

pub record Row : Type 0 where
  pub command : Bytes
  pub handle : Handler

abbrev pub row : Bytes → (Server → Msg → Handled) → Row
row command handle = record { command = command; handle = ends handle }

abbrev pub row_name : Row → Bytes
row_name r = r.command

-- The arguments of a 311 that are read.
abbrev pub reads_user : Msg → Option Bytes
reads_user msg = do
  nickname ← read msg.args 1
  username ← read msg.args 2
  hostname ← read msg.args 3
  read msg.args 5

-- h->handle(server, msg): whether it waits for the end of a whois, and what it gives.
abbrev pub call : Handler → Server → Msg → Option (Bool × Server × List Event)
call (ends h) s msg = h s msg >>= λ done. some (false, done.0, done.1)
call waits s msg = reads_user msg >>= λ realname. some (true, s, [])

module _ (nick_of : Bytes → Option Bytes) (now : Bytes) where
  abbrev pub handlers : List Row
  handlers =
      row (codes "000") handle_disconnect
      ∷ row (codes "001") handle_connect
      ∷ row (codes "005") handle_support
      ∷ record { command = codes "311"; handle = waits }
      ∷ row (codes "353") handle_names
      ∷ row (codes "366") handle_endofnames
      ∷ row (codes "433") handle_nicknameinuse
      ∷ row (codes "ERROR") handle_error
      ∷ row (codes "INVITE") handle_invite
      ∷ row (codes "JOIN") handle_join
      ∷ row (codes "KICK") handle_kick
      ∷ row (codes "MODE") handle_mode
      ∷ row (codes "NICK") handle_nick
      ∷ row (codes "NOTICE") handle_notice
      ∷ row (codes "PART") handle_part
      ∷ row (codes "PING") handle_ping
      ∷ row (codes "PRIVMSG") (handle_msg nick_of now)
      ∷ row (codes "TOPIC") handle_topic
      ∷ []

  unfoldable pub find : Bytes → Option Row
  unfolding bsearch
  find cmd = bsearch row_name (length handlers) cmd handlers

  -- `irc_server_handle`
  unfoldable pub handle : Server → Msg → Option (Bool × Server × List Event)
  unfolding find
  handle s msg = elim (find msg.cmd) [ none ↦ some (false, s, []) | some r ↦ call r.handle s msg ]

  -- A message that is pulled while a whois waits: whether it still waits, and its event.
  unfoldable pub wait : Server → Msg → Option (Bool × Server × List Event)
  unfolding str_eq
  wait s msg =
      if str_eq msg.cmd (codes "319")
      then (read msg.args 2 >>= λ names. some (true, s, []))
      else if str_eq msg.cmd (codes "318")
      then some (false, s, Event.whois s.name ∷ [])
      else some (true, s, [])

  -- The loop over the messages that arrive, in a whois or not.
  unfoldable pub consume : Bool → Server → List Msg → Option (Bool × Server × List Event)
  unfolding handle wait
  consume waiting s [] = some (waiting, s, [])
  consume waiting s (msg ∷ rest) = do
    now ← (if waiting then wait s msg else handle s msg)
    later ← consume now.0 now.1 rest
    some (later.0, later.1, now.2 ++ later.2)
