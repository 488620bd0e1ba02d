-- ===== src/Server/Handlers/Complete.antt =====
-- What a message needs for its handler to go through without a fault.
pub mod Exact
use irccd.Base.{
  ℕ, ◌+◌, Bool, true, false, ◌&&◌, ◌||◌, Option, none, some, List, [], ◌∷◌, ltb, leb, ◌==◌,
  if◌then◌else◌, length, Bytes,
}
use irccd.Conn.Message.{Msg}
use irccd.Server.{Server, is_self, channels_find, modes_find}
use irccd.Server.Handlers.{
  Handled, handle_invite, handle_join, handle_kick, handle_mode, handle_part, handle_nick,
  handle_notice, handle_topic, handle_names, handle_endofnames, is_skipped,
}

abbrev pub is_done {ℓ} : {A : Type ℓ} → Option A → Bool
is_done none = false
is_done (some a) = true

-- The messages whose handlers read arguments.
pub data Kind : Type 0 where
  invite join kick mode names endofnames nick notice part topic : Kind

abbrev pub handler : Kind → Server → Msg → Handled
handler invite = handle_invite
handler join = handle_join
handler kick = handle_kick
handler mode = handle_mode
handler names = handle_names
handler endofnames = handle_endofnames
handler nick = handle_nick
handler notice = handle_notice
handler part = handle_part
handler topic = handle_topic

abbrev pub has_origin : Msg → Bool
has_origin msg = is_done msg.prefix

-- Of `n` arguments, each one that a letter of a mode stands for is there: the letters behind the
-- signs count the arguments up from `index`, and those of the users' modes need theirs.
abbrev pub has_nicknames : Server → ℕ → ℕ → Bytes → Bool
has_nicknames s n index [] = true
has_nicknames s n index (c ∷ text) =
    let sign = has_nicknames s n index text in
    let letter = has_nicknames s n (index + 1) text in
    if c == b'+' || c == b'-'
    then sign
    else if is_skipped c || modes_find s c == 0
    then letter
    else ltb index n && letter

abbrev pub has_modes : Server → List Bytes → Bool
has_modes s (channel ∷ text ∷ rest) =
    if is_done (channels_find s channel)
    then has_nicknames s (length (channel ∷ text ∷ rest)) 2 text
    else true
has_modes s _ = false

abbrev pub has_channel : Server → Option Bytes → List Bytes → Bool
has_channel s (some origin) (channel ∷ reason ∷ rest) =
    is_self s origin || is_done (channels_find s channel)
has_channel s _ _ = false

-- What a message needs: an origin, the arguments that are read, for a MODE on a channel that is
-- known the nicknames, and for a PART of another user a channel that is known.
abbrev pub is_complete : Kind → Server → Msg → Bool
is_complete invite s msg = has_origin msg && leb 2 (length msg.args)
is_complete join s msg = has_origin msg && leb 1 (length msg.args)
is_complete kick s msg = has_origin msg && leb 3 (length msg.args)
is_complete mode s msg = has_origin msg && has_modes s msg.args
is_complete names s msg = leb 4 (length msg.args)
is_complete endofnames s msg = leb 2 (length msg.args)
is_complete nick s msg = has_origin msg && leb 1 (length msg.args)
is_complete notice s msg = has_origin msg && leb 2 (length msg.args)
is_complete part s msg = has_channel s msg.prefix msg.args
is_complete topic s msg = has_origin msg && leb 2 (length msg.args)
