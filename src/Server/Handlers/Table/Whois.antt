-- ===== src/Server/Handlers/Table/Whois.antt =====
-- What a server does with the messages that arrive before the end of a whois.
use irccd.Base.{
  ◌≡◌, refl, ◌∙◌, inl, inr, Bool, true, false, Option, some, List, [], ◌∷◌, ◌++◌, Option-cases,
  Bytes, codes, str_eq,
}
use irccd.Memory.{◌>>=◌}
use irccd.Event.{Event}
use irccd.Conn.Message.{Msg}
use irccd.Server.{Server}
use irccd.Server.Handlers.Table.{waits, find, handle, wait, consume, reads_user}
use irccd.Server.Handlers.Table.Sound.{find-handlers}

-- No message of the list is about a whois.
abbrev pub AreOthers : List Msg → Type 0
AreOthers [] = Unit
AreOthers (msg ∷ rest) =
    (str_eq msg.cmd (codes "319") ≡ false) × (str_eq msg.cmd (codes "318") ≡ false) × AreOthers rest

module _ (nick_of : Bytes → Option Bytes) (now : Bytes) where
  consume-other :
      (s : Server) (msg : Msg) (rest : List Msg)
      → str_eq msg.cmd (codes "319") ≡ false
      → str_eq msg.cmd (codes "318") ≡ false
      → consume nick_of now true s (msg ∷ rest) ≡ consume nick_of now true s rest
  unfolding consume wait
  consume-other s msg rest h k = elim (Option-cases (consume nick_of now true s rest)) [
    | inl e ↦ rw (consume, wait, h, k, e) refl
    | inr (r, e) ↦ rw (consume, wait, h, k, e) refl
  ]

  consume-others :
      (s : Server) (lost rest : List Msg)
      → AreOthers lost
      → consume nick_of now true s (lost ++ rest) ≡ consume nick_of now true s rest
  consume-others s [] rest h = refl
  consume-others s (msg ∷ lost) rest h =
      consume-other s msg (lost ++ rest) h.0 h.1 ∙ consume-others s lost rest h.2

  find-whois :
      (cmd : Bytes)
      → cmd ≡ codes "311"
      → find nick_of now cmd ≡ some (record { command = codes "311"; handle = waits })
  unfolding str_eq
  find-whois cmd e = rw e (find-handlers nick_of now (codes "311"))

  -- With this event before them, the events and the server that later messages give.
  abbrev pub behind :
      Event → Option (Bool × Server × List Event) → Option (Bool × Server × List Event)
  behind event later = later >>= λ l. some (l.0, l.1, event ∷ l.2)

  consume-end :
      (s : Server) (end : Msg) (rest : List Msg)
      → end.cmd ≡ codes "318"
      → consume nick_of now true s (end ∷ rest)
        ≡ behind (Event.whois s.name) (consume nick_of now false s rest)
  unfolding consume wait str_eq
  consume-end s end rest e = rw (consume, wait, e) refl

  consume-whois :
      (s : Server) (whois : Msg) (realname : Bytes) (rest : List Msg)
      → whois.cmd ≡ codes "311"
      → reads_user whois ≡ some realname
      → consume nick_of now false s (whois ∷ rest) ≡ consume nick_of now true s rest
  unfolding consume handle
  consume-whois s whois realname rest e r = elim (Option-cases (consume nick_of now true s rest)) [
    | inl k ↦ rw (consume, handle, find-whois whois.cmd e, r, k) refl
    | inr (later, k) ↦ rw (consume, handle, find-whois whois.cmd e, r, k) refl
  ]

  -- Messages between a 311 and the next 318 that are no 319 are lost: whatever they are, the server
  -- goes on behind the 318 as it was before the 311, and has dispatched the event of the whois
  -- alone. The 311 has the arguments that are read.
  pub consume-lost :
      (s : Server) (whois end : Msg) (realname : Bytes) (lost rest : List Msg)
      → whois.cmd ≡ codes "311"
      → reads_user whois ≡ some realname
      → AreOthers lost
      → end.cmd ≡ codes "318"
      → consume nick_of now false s (whois ∷ (lost ++ end ∷ rest))
        ≡ behind (Event.whois s.name) (consume nick_of now false s rest)
  consume-lost s whois end realname lost rest e r h d =
      consume-whois s whois realname (lost ++ end ∷ rest) e r
      ∙ (consume-others s lost (end ∷ rest) h ∙ consume-end s end rest d)
