-- ===== src/Server/Handlers/Table/Keepers.antt =====
-- The handlers that change no channel keep channels and users distinct.
use irccd.Base.{
  ◌≡◌, refl, sym, ◌∙◌, subst, inl, inr, Bool, true, false, Option, none, some, List, [], ◌∷◌, ◌++◌,
  ◌==◌, if◌then◌else◌, Bool-cases, Option-cases, length, Bytes, codes, str_eq, has_prefix,
  Result-cases,
}
use irccd.Memory.{read}
use irccd.Event.{Event}
use irccd.Conn.Message.{Msg}
use irccd.Conn.Output
use irccd.Server.{Server, send, is_self, channels_find}
use irccd.Server.Prefixes.{scan_prefix, modes_parse}
use irccd.Server.Handlers.{
  Handled, handle_nick, handle_notice, handle_topic, handle_ping, handle_endofnames,
}
use irccd.Conn.Message.{is_ctcp, ctcp}
use irccd.Server.Handlers.Talk.{quoted, notice_text, handle_ctcp, handle_msg}
use irccd.Server.Handlers.Sound.{AreDistinct, Keeps, bind-Keeps}
use irccd.Server.Handlers.Table.{scan_support, support, support_loop, handle_support, handle_error}

send-channels : (s : Server) (text : Bytes) → (send s text).channels ≡ s.channels
unfolding send
send-channels s text = elim (Result-cases (Output.send_va s.ready s.out text)) [
  | inl (out, e) ↦ rw (send, e) refl
  | inr (n, e) ↦ rw (send, e) refl
]

modes_parse-channels : (s : Server) (value : Bytes) → (modes_parse s value).channels ≡ s.channels
unfolding modes_parse
modes_parse-channels s value = elim (Option-cases (scan_prefix value)) [
  | inl e ↦ rw (modes_parse, e) refl
  | inr (p, e) ↦ elim (Bool-cases (length p.0 == length p.1)) [
    | inl u ↦ rw (modes_parse, e, u) refl
    | inr u ↦ rw (modes_parse, e, u) refl
  ]
]

support-channels : (s : Server) (arg : Bytes) → (support s arg).channels ≡ s.channels
unfolding support
support-channels s arg = elim (Option-cases (scan_support arg)) [
  | inl e ↦ rw (support, e) refl
  | inr (p, e) ↦ elim (Bool-cases (str_eq p.0 (codes "PREFIX"))) [
    | inl u ↦ rw (support, e, u) (modes_parse-channels s p.1)
    | inr u ↦ rw (support, e, u) refl
  ]
]

support_loop-channels :
    (s : Server) (args : List Bytes) → (support_loop s args).channels ≡ s.channels
unfolding support_loop
support_loop-channels s [] = refl
support_loop-channels s (arg ∷ args) =
    support_loop-channels (support s arg) args ∙ support-channels s arg

-- A handler whose server has the channels that it had.
same-Keeps :
    (s t : Server) (events : List Event)
    → t.channels ≡ s.channels
    → AreDistinct s.channels
    → Keeps (some (t, events))
same-Keeps s t events e d = subst AreDistinct (sym e) d

abbrev pub IsKeeper : (Server → Msg → Handled) → Type 0
IsKeeper h = (s : Server) (msg : Msg) → AreDistinct s.channels → Keeps (h s msg)

pub handle_support-IsKeeper : IsKeeper handle_support
unfolding handle_support
handle_support-IsKeeper s msg d =
    same-Keeps s (support_loop s msg.args) [] (support_loop-channels s msg.args) d

pub handle_error-IsKeeper : IsKeeper handle_error
unfolding handle_error
handle_error-IsKeeper s msg d = bind-Keeps (read msg.args 0) _ (λ text. d)

pub handle_nick-IsKeeper : IsKeeper handle_nick
unfolding handle_nick
handle_nick-IsKeeper s msg d = bind-Keeps msg.prefix _ (λ origin.
    bind-Keeps (read msg.args 0) _
      (λ nickname. elim (Bool-cases (is_self s origin)) [ inl u ↦ rw u d | inr u ↦ rw u d ]))

pub handle_notice-IsKeeper : IsKeeper handle_notice
unfolding handle_notice
handle_notice-IsKeeper s msg d = bind-Keeps msg.prefix _ (λ origin.
    bind-Keeps (read msg.args 0) _ (λ channel. bind-Keeps (read msg.args 1) _ (λ notice. d)))

pub handle_topic-IsKeeper : IsKeeper handle_topic
unfolding handle_topic
handle_topic-IsKeeper s msg d = bind-Keeps msg.prefix _ (λ origin.
    bind-Keeps (read msg.args 0) _ (λ channel. bind-Keeps (read msg.args 1) _ (λ topic. d)))

pub handle_ping-IsKeeper : IsKeeper handle_ping
unfolding handle_ping
handle_ping-IsKeeper s msg d = elim (Option-cases (read msg.args 0)) [
  | inl e ↦ rw (handle_ping, e) d
  | inr (text, e) ↦
      rw (handle_ping, e)
        (same-Keeps s (send s (codes "PONG :" ++ text)) []
          (send-channels s (codes "PONG :" ++ text)) d)
]

pub handle_endofnames-IsKeeper : IsKeeper handle_endofnames
unfolding handle_endofnames
handle_endofnames-IsKeeper s msg d = bind-Keeps (read msg.args 1) _ (λ channel.
    elim (Option-cases (channels_find s channel)) [ inl e ↦ rw e d | inr (c, e) ↦ rw e d ])

-- The answers to a CTCP request.
abbrev pub IsSame : Server → Server × Event → Type 0
IsSame s x = x.0.channels ≡ s.channels

if-IsSame :
    (s : Server) (b : Bool) (x y : Server × Event)
    → IsSame s x
    → IsSame s y
    → IsSame s (if b then x else y)
if-IsSame s true x y h k = h
if-IsSame s false x y h k = k

elim-IsSame :
    (s : Server) (o : Option Bytes) (f : Bytes → Server × Event) (y : Server × Event)
    → ((v : Bytes) → IsSame s (f v))
    → IsSame s y
    → IsSame s (elim o [ some v ↦ f v | none ↦ y ])
elim-IsSame s none f y h k = k
elim-IsSame s (some v) f y h k = h v

module _ (nick_of : Bytes → Option Bytes) (now : Bytes) where
  handle_ctcp-IsSame :
      (s : Server) (origin channel text nickname : Bytes)
      → IsSame s (handle_ctcp nick_of now s origin channel text nickname)
  unfolding handle_ctcp send
  handle_ctcp-IsSame s origin channel text nickname =
      let unknown = Event.unknown s.name in
      let answer : Bytes → Server × Event = λ body. (send s (notice_text nickname body), unknown) in
      let same : (body : Bytes) → IsSame s (answer body) =
        λ body. send-channels s (notice_text nickname body) in
      let action : Server × Event =
        if has_prefix (1 ∷ codes "ACTION") text
        then (s, Event.me s.name origin channel (ctcp text))
        else (s, unknown) in
      let version : Server × Event =
        if str_eq text (quoted (codes "VERSION"))
        then elim s.ctcp_version [ some v ↦ answer (codes "VERSION " ++ v) | none ↦ action ]
        else action in
      let time : Server × Event =
        if str_eq text (quoted (codes "TIME")) then answer (codes "TIME " ++ now) else version in
      let source : Server × Event =
        if str_eq text (quoted (codes "SOURCE"))
        then elim s.ctcp_source [ some v ↦ answer (codes "SOURCE " ++ v) | none ↦ time ]
        else time in
      let clientinfo : Server × Event =
        answer (codes "CLIENTINFO ACTION CLIENTINFO SOURCE TIME VERSION") in
      let h_action : IsSame s action =
        if-IsSame s (has_prefix (1 ∷ codes "ACTION") text)
          (s, Event.me s.name origin channel (ctcp text)) (s, unknown) refl refl in
      let h_version : IsSame s version =
        if-IsSame s (str_eq text (quoted (codes "VERSION")))
          (elim s.ctcp_version [ some v ↦ answer (codes "VERSION " ++ v) | none ↦ action ]) action
          (elim-IsSame s s.ctcp_version (λ v. answer (codes "VERSION " ++ v)) action
            (λ v. same (codes "VERSION " ++ v)) h_action)
          h_action in
      let h_time : IsSame s time =
        if-IsSame s (str_eq text (quoted (codes "TIME"))) (answer (codes "TIME " ++ now)) version
          (same (codes "TIME " ++ now)) h_version in
      let h_source : IsSame s source =
        if-IsSame s (str_eq text (quoted (codes "SOURCE")))
          (elim s.ctcp_source [ some v ↦ answer (codes "SOURCE " ++ v) | none ↦ time ]) time
          (elim-IsSame s s.ctcp_source (λ v. answer (codes "SOURCE " ++ v)) time
            (λ v. same (codes "SOURCE " ++ v)) h_time)
          h_time in
      if-IsSame s (str_eq text (quoted (codes "CLIENTINFO"))) clientinfo source
        (same (codes "CLIENTINFO ACTION CLIENTINFO SOURCE TIME VERSION")) h_source

  pub handle_msg-IsKeeper : IsKeeper (handle_msg nick_of now)
  unfolding handle_msg
  handle_msg-IsKeeper s msg d = bind-Keeps (read msg.args 1) _ (λ text.
      bind-Keeps msg.prefix _ (λ origin. bind-Keeps (read msg.args 0) _ (λ channel.
        elim (Bool-cases (is_ctcp text)) [
          | inr u ↦ rw u d
          | inl u ↦ elim (Option-cases (nick_of origin)) [
            | inl e ↦ rw (u, e) d
            | inr (nickname, e) ↦
                rw (u, e)
                  (subst AreDistinct (sym (handle_ctcp-IsSame s origin channel text nickname)) d)
          ]
        ])))
