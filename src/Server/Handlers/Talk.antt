-- ===== src/Server/Handlers/Talk.antt =====
-- lib/irccd/server.c: `irc_server_handle_msg`, which answers CTCP requests and dispatches the rest.
--
-- `nick_of` is the nickname that `irc_util_user_split` finds by a regular expression, or `none` when
-- that does not compile, and `now` what `ctime` writes of the current time.
use irccd.Base.{
  ◌≡◌, false, Option, none, some, List, [], ◌∷◌, ◌++◌, if◌then◌else◌, Bytes, codes, str_eq,
  has_prefix,
}
use irccd.Memory.{◌>>=◌, read}
use irccd.Event.{Event}
use irccd.Conn.Message.{Msg, is_ctcp, ctcp}
use irccd.Conn.Message.RoundTrip.{Without, ctcp-action}
use irccd.Server.{Server, send}
use irccd.Server.Handlers.{Handled}

-- A text between two 0x01.
abbrev pub quoted : Bytes → Bytes
quoted body = 1 ∷ (body ++ 1 ∷ [])

abbrev pub notice_text : Bytes → Bytes → Bytes
notice_text nickname body = codes "NOTICE " ++ (nickname ++ b' ' ∷ b':' ∷ quoted body)

module _ (nick_of : Bytes → Option Bytes) (now : Bytes) where
  -- The branch of a CTCP request, with the nickname that asks for it.
  unfoldable pub handle_ctcp : Server → Bytes → Bytes → Bytes → Bytes → Server × Event
  unfolding send str_eq has_prefix ctcp
  handle_ctcp s origin channel text nickname =
      let unknown = Event.unknown s.name in
      let answer : Bytes → Server × Event = λ body. (send s (notice_text nickname body), unknown) in
      let action : Server × Event =
        if has_prefix (1 ∷ codes "ACTION") text
        then (s, Event.me s.name origin channel (ctcp text))
        else (s, unknown) in
      let version : Server × Event =
        if str_eq text (quoted (codes "VERSION"))
        then elim s.ctcp_version [ some v ↦ answer (codes "VERSION " ++ v) | none ↦ action ]
        else action in
      let time : Server × Event =
        if str_eq text (quoted (codes "TIME")) then answer (codes "TIME " ++ now) else version in
      let source : Server × Event =
        if str_eq text (quoted (codes "SOURCE"))
        then elim s.ctcp_source [ some v ↦ answer (codes "SOURCE " ++ v) | none ↦ time ]
        else time in
      if str_eq text (quoted (codes "CLIENTINFO"))
      then answer (codes "CLIENTINFO ACTION CLIENTINFO SOURCE TIME VERSION")
      else source

  unfoldable pub handle_msg : Server → Msg → Handled
  unfolding is_ctcp handle_ctcp
  handle_msg s msg = do
    text ← read msg.args 1
    origin ← msg.prefix
    channel ← read msg.args 0
    let message : Server × List Event = (s, Event.message s.name origin channel text ∷ [])
    let answers : Server × List Event =
        if is_ctcp text
        then elim (nick_of origin) [
          | none ↦ message
          | some nickname ↦
              let answered = handle_ctcp s origin channel text nickname in
              (answered.0, answered.1 ∷ [])
        ]
        else message
    some answers

  -- The text of an action, as `irc_server_me` sends it, is dispatched as an action with the
  -- message that was given, and nothing is sent. The message has no 0x01, and the origin has a
  -- nickname.
  pub handle_msg-action :
      (s : Server) (msg : Msg) (origin channel body nickname : Bytes)
      → msg.prefix ≡ some origin
      → read msg.args 0 ≡ some channel
      → read msg.args 1 ≡ some (quoted (codes "ACTION " ++ body))
      → nick_of origin ≡ some nickname
      → Without 1 body
      → handle_msg s msg ≡ some (s, Event.me s.name origin channel body ∷ [])
  unfolding handle_msg handle_ctcp str_eq has_prefix
  handle_msg-action s msg origin channel body nickname eo ec et en w =
      rw (eo, ec, et, (ctcp-action body w).0, en) (rw (ctcp-action body w).1)

  -- Every message that is no CTCP text is dispatched as it is.
  pub handle_msg-plain :
      (s : Server) (msg : Msg) (origin channel text : Bytes)
      → msg.prefix ≡ some origin
      → read msg.args 0 ≡ some channel
      → read msg.args 1 ≡ some text
      → is_ctcp text ≡ false
      → handle_msg s msg ≡ some (s, Event.message s.name origin channel text ∷ [])
  unfolding handle_msg
  handle_msg-plain s msg origin channel text eo ec et n = rw (eo, ec, et, n)
