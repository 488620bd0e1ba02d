-- ===== src/Event/Text.antt =====
-- lib/irccd/event.c: the text of an event, `irc_event_str`.
--
-- `none` is the answer -1, after which no caller reads the buffer.
use irccd.Base.{
  ℕ, ◌+◌, ◌-◌, Option, none, some, List, [], ◌∷◌, ◌++◌, ◌==◌, if◌then◌else◌, length, take, Bytes,
  codes,
}
use irccd.Event.{Event}
use irccd.Util.Joined.{join}

-- "%s %s ...": the words with one space between each two.
abbrev pub spaced : Bytes → List Bytes → Bytes
spaced = join b' '

abbrev pub or_empty : Option Bytes → Bytes
or_empty none = []
or_empty (some s) = s

-- irc_util_strlcat(str, arg, strsz) for each argument of a mode: the text, and the last result.
unfoldable pub cat_loop : ℕ → Bytes → List Bytes → ℕ → Bytes × ℕ
cat_loop strsz str [] written = (str, written)
cat_loop strsz str (arg ∷ args) written =
    cat_loop strsz (take (strsz - 1) (str ++ arg)) args (length str + length arg)

-- The result of snprintf with a whole text that is not empty.
abbrev pub printed : ℕ → Bytes → Option Bytes
printed strsz text = some (take (strsz - 1) text)

abbrev pub checked : Bytes × ℕ → Option Bytes
checked (str, written) = if written == 0 then none else some str

unfoldable pub event_str : Event → ℕ → Option Bytes
unfolding cat_loop
event_str (Event.connect s) n = printed n (spaced (codes "EVENT-CONNECT") (s ∷ []))
event_str (Event.disconnect s) n = printed n (spaced (codes "EVENT-DISCONNECT") (s ∷ []))
event_str (Event.invite s o c) n = printed n (spaced (codes "EVENT-INVITE") (s ∷ o ∷ c ∷ []))
event_str (Event.join s o c) n = printed n (spaced (codes "EVENT-JOIN") (s ∷ o ∷ c ∷ []))
event_str (Event.kick s o c t r) n =
    printed n (spaced (codes "EVENT-KICK") (s ∷ o ∷ c ∷ t ∷ or_empty r ∷ []))
event_str (Event.me s o c m) n = printed n (spaced (codes "EVENT-ME") (s ∷ o ∷ c ∷ m ∷ []))
event_str (Event.message s o c m) n =
    printed n (spaced (codes "EVENT-MESSAGE") (s ∷ o ∷ c ∷ m ∷ []))
event_str (Event.mode s o c m args) n =
    checked
      (cat_loop n (take (n - 1) (spaced (codes "EVENT-MODE") (s ∷ o ∷ c ∷ m ∷ [] ∷ []))) args 0)
event_str (Event.nick s o k) n = printed n (spaced (codes "EVENT-NICK") (s ∷ o ∷ k ∷ []))
event_str (Event.notice s o c t) n = printed n (spaced (codes "EVENT-NOTICE") (s ∷ o ∷ c ∷ t ∷ []))
event_str (Event.part s o c r) n =
    printed n (spaced (codes "EVENT-PART") (s ∷ o ∷ c ∷ or_empty r ∷ []))
event_str (Event.topic s o c t) n = printed n (spaced (codes "EVENT-TOPIC") (s ∷ o ∷ c ∷ t ∷ []))
event_str (Event.whois s) n = none
event_str (Event.command s o c m) n = none
event_str (Event.names s c users) n = none
event_str (Event.unknown s) n = none
