-- ===== src/Server/Handlers/Table/Sound.antt =====
-- Whatever messages a server gets, its channels and users stay distinct.
use irccd.Base.{
  ◌≡◌, refl, subst, inl, inr, Bool, true, false, Option, none, some, List, [], ◌∷◌, arith,
  if◌then◌else◌, Bool-cases, Option-cases, length, Bytes, codes, str_eq,
}
use irccd.Memory.{◌>>=◌, read}
use irccd.Event.{Event}
use irccd.Conn.Message.{Msg}
use irccd.Bsearch.{str_lt}
use irccd.Bsearch.Sorted.{lookup, is_sorted, bsearch-lookup}
use irccd.Server.{Server}
use irccd.Server.Handlers.{Handled, handle_disconnect}
use irccd.Server.Handlers.Sound.{AreDistinct, Keeps}
use irccd.Server.Handlers.Sound.Steps.{handlers-AreDistinct}
use irccd.Server.Handlers.Table.{
  Handler, ends, waits, Row, row_name, handlers, find, handle, wait, consume, reads_user, call,
  handle_nicknameinuse,
}
use irccd.Server.Handlers.Table.Keepers.{
  IsKeeper, handle_support-IsKeeper, handle_error-IsKeeper, handle_nick-IsKeeper,
  handle_notice-IsKeeper, handle_topic-IsKeeper, handle_ping-IsKeeper, handle_endofnames-IsKeeper,
  handle_msg-IsKeeper,
}

-- What a message leaves, if nothing faults.
abbrev pub Leaves : Option (Bool × Server × List Event) → Type 0
Leaves none = Unit
Leaves (some result) = AreDistinct result.1.channels

bind-Leaves :
    (o : Option (Bool × Server × List Event))
    (f : Bool × Server × List Event → Option (Bool × Server × List Event))
    → Leaves o
    → ((now : Bool × Server × List Event) → AreDistinct now.1.channels → Leaves (f now))
    → Leaves (o >>= f)
bind-Leaves none f k h = tt
bind-Leaves (some now) f k h = h now k

ends-Leaves : (done : Handled) → Keeps done → Leaves (done >>= λ d. some (false, d.0, d.1))
ends-Leaves none k = tt
ends-Leaves (some (t, events)) k = k

abbrev pub IsGood : Handler → Type 0
IsGood (ends h) = IsKeeper h
IsGood waits = Unit

call-Leaves :
    (h : Handler) (s : Server) (msg : Msg)
    → IsGood h
    → AreDistinct s.channels
    → Leaves (call h s msg)
call-Leaves (ends h) s msg k d = ends-Leaves (h s msg) (k s msg d)
call-Leaves waits s msg k d = elim (Option-cases (reads_user msg)) [
  | inl e ↦ rw e tt
  | inr (realname, e) ↦ rw e d
]

-- The handlers of a table keep channels and users distinct.
abbrev pub AreGood : List Row → Type 0
AreGood [] = Unit
AreGood (r ∷ rest) = IsGood r.handle × AreGood rest

lookup-IsGood :
    (cmd : Bytes) (t : List Row) (r : Row)
    → AreGood t
    → lookup row_name cmd t ≡ some r
    → IsGood r.handle
lookup-IsGood cmd [] r k e = cc
lookup-IsGood cmd (x ∷ t) r k e = elim (Bool-cases (str_eq cmd x.command)) [
  | inl u ↦
      let same : ◌≡◌ {A = Option Row} (some x) (some r) = rw u at e in
      let first : x ≡ r = cc same in subst (λ (y : Row). IsGood y.handle) first k.0
  | inr u ↦ lookup-IsGood cmd t r k.1 (rw u at e)
]

module _ (nick_of : Bytes → Option Bytes) (now : Bytes) where
  -- The handlers are in the order of their commands, as the table asks for.
  handlers-is_sorted : is_sorted row_name (handlers nick_of now) ≡ true
  unfolding is_sorted str_lt
  handlers-is_sorted = refl

  -- A handler is found by its command.
  pub find-handlers :
      (cmd : Bytes) → find nick_of now cmd ≡ lookup row_name cmd (handlers nick_of now)
  unfolding find
  find-handlers cmd =
      bsearch-lookup row_name (length (handlers nick_of now)) cmd (handlers nick_of now)
        (omega arith) handlers-is_sorted

  handlers-AreGood : AreGood (handlers nick_of now)
  unfolding handle_disconnect handle_nicknameinuse
  handlers-AreGood = (
    (λ s msg d. d),
    (
      (λ s msg d. (handlers-AreDistinct s msg d).0),
      (
        handle_support-IsKeeper,
        (
          tt,
          (
            (λ s msg d. (handlers-AreDistinct s msg d).6),
            (
              handle_endofnames-IsKeeper,
              (
                (λ s msg d. d),
                (
                  handle_error-IsKeeper,
                  (
                    (λ s msg d. (handlers-AreDistinct s msg d).1),
                    (
                      (λ s msg d. (handlers-AreDistinct s msg d).2),
                      (
                        (λ s msg d. (handlers-AreDistinct s msg d).3),
                        (
                          (λ s msg d. (handlers-AreDistinct s msg d).4),
                          (
                            handle_nick-IsKeeper,
                            (
                              handle_notice-IsKeeper,
                              (
                                (λ s msg d. (handlers-AreDistinct s msg d).5),
                                (
                                  handle_ping-IsKeeper,
                                  (handle_msg-IsKeeper nick_of now, (handle_topic-IsKeeper, tt)),
                                ),
                              ),
                            ),
                          ),
                        ),
                      ),
                    ),
                  ),
                ),
              ),
            ),
          ),
        ),
      ),
    ),
  )

  handle-Leaves :
      (s : Server) (msg : Msg) → AreDistinct s.channels → Leaves (handle nick_of now s msg)
  unfolding handle
  handle-Leaves s msg d =
      rw (handle, find-handlers msg.cmd)
        (elim (Option-cases (lookup row_name msg.cmd (handlers nick_of now))) [
          | inl e ↦ rw e d
          | inr (r, e) ↦ rw e (
              call-Leaves r.handle s msg
                (lookup-IsGood msg.cmd (handlers nick_of now) r handlers-AreGood e) d)
        ])

  wait-Leaves : (s : Server) (msg : Msg) → AreDistinct s.channels → Leaves (wait nick_of now s msg)
  unfolding wait
  wait-Leaves s msg d = elim (Bool-cases (str_eq msg.cmd (codes "319"))) [
    | inl u ↦ elim (Option-cases (read msg.args 2)) [
      | inl e ↦ rw (u, e) tt
      | inr (names, e) ↦ rw (u, e) d
    ]
    | inr u ↦ elim (Bool-cases (str_eq msg.cmd (codes "318"))) [
      | inl v ↦ rw (u, v) d
      | inr v ↦ rw (u, v) d
    ]
  ]

  first :
      (waiting : Bool) (s : Server) (msg : Msg)
      → AreDistinct s.channels
      → Leaves (if waiting then wait nick_of now s msg else handle nick_of now s msg)
  first true s msg d = wait-Leaves s msg d
  first false s msg d = handle-Leaves s msg d

  -- However many messages a server gets, and in whatever order, from a state in which its channels
  -- have distinct names and the users of each channel distinct nicknames, up to case, they are so
  -- afterwards too, unless a handler reads memory that is not there; also while it waits for the
  -- end of a whois.
  pub consume-AreDistinct :
      (waiting : Bool) (s : Server) (msgs : List Msg)
      → AreDistinct s.channels
      → Leaves (consume nick_of now waiting s msgs)
  unfolding consume
  consume-AreDistinct waiting s [] d = d
  consume-AreDistinct waiting s (msg ∷ rest) d =
      bind-Leaves _ _ (first waiting s msg d)
        (λ now k. bind-Leaves _ _ (consume-AreDistinct now.0 now.1 rest k) (λ later m. m))
