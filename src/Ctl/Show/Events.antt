-- ===== src/Ctl/Show/Events.antt =====
-- What irccdctl prints of the text that the daemon makes of an event.
use irccd.Base.{
  ℕ, suc, ◌-◌, ◌<◌, ◌≡◌, refl, ap, Option, some, List, [], ◌∷◌, ◌++◌, arith, length, take, take-all,
  Bytes, codes, has_prefix,
}
use irccd.Memory.{◌>>=◌}
use irccd.Event.{Event}
use irccd.Event.Text.{spaced, or_empty, event_str}
use irccd.Util.{split}
use irccd.Util.Joined.{IsFree, split-join}
use irccd.Ctl.Show.{
  listing, heading, on_channel, show_join, show_kick, show_me, show_message, show_nick, show_notice,
  show_part, show_topic, show_loop, show, watchtable, show_invite,
}

abbrev pub NoSpace : Bytes → Type 0
NoSpace = IsFree b' '

-- The events that are printed in full, whose words have no space. The last one is a text.
abbrev pub IsPlain : Event → Type 0
IsPlain (Event.join s o c) = NoSpace s × NoSpace o
IsPlain (Event.kick s o c t r) = NoSpace s × NoSpace o × NoSpace c × NoSpace t
IsPlain (Event.me s o c m) = NoSpace s × NoSpace o × NoSpace c
IsPlain (Event.message s o c m) = NoSpace s × NoSpace o × NoSpace c
IsPlain (Event.nick s o k) = NoSpace s × NoSpace o
IsPlain (Event.notice s o c t) = NoSpace s × NoSpace o × NoSpace c
IsPlain (Event.part s o c r) = NoSpace s × NoSpace o × NoSpace c
IsPlain (Event.topic s o c t) = NoSpace s × NoSpace o × NoSpace c
IsPlain _ = ⊥

-- The words of the text behind its first.
abbrev pub words : Event → List Bytes
words (Event.join s o c) = s ∷ o ∷ c ∷ []
words (Event.kick s o c t r) = s ∷ o ∷ c ∷ t ∷ or_empty r ∷ []
words (Event.me s o c m) = s ∷ o ∷ c ∷ m ∷ []
words (Event.message s o c m) = s ∷ o ∷ c ∷ m ∷ []
words (Event.nick s o k) = s ∷ o ∷ k ∷ []
words (Event.notice s o c t) = s ∷ o ∷ c ∷ t ∷ []
words (Event.part s o c r) = s ∷ o ∷ c ∷ or_empty r ∷ []
words (Event.topic s o c t) = s ∷ o ∷ c ∷ t ∷ []
words _ = []

abbrev pub title : Event → Bytes
title (Event.join s o c) = codes "EVENT-JOIN"
title (Event.kick s o c t r) = codes "EVENT-KICK"
title (Event.me s o c m) = codes "EVENT-ME"
title (Event.message s o c m) = codes "EVENT-MESSAGE"
title (Event.nick s o k) = codes "EVENT-NICK"
title (Event.notice s o c t) = codes "EVENT-NOTICE"
title (Event.part s o c r) = codes "EVENT-PART"
title (Event.topic s o c t) = codes "EVENT-TOPIC"
title _ = []

-- A label and a value for each part of an event.
abbrev pub details : Event → List (Bytes × Bytes)
details (Event.join s o c) = heading (codes "onJoin") s (on_channel o c [])
details (Event.kick s o c t r) =
    heading (codes "onKick") s
      (on_channel o c ((codes "target:", t) ∷ (codes "reason:", or_empty r) ∷ []))
details (Event.me s o c m) = heading (codes "onMe") s (on_channel o c ((codes "message:", m) ∷ []))
details (Event.message s o c m) =
    heading (codes "onMessage") s (on_channel o c ((codes "message:", m) ∷ []))
details (Event.nick s o k) =
    heading (codes "onNick") s ((codes "origin:", o) ∷ (codes "nickname:", k) ∷ [])
details (Event.notice s o c t) =
    heading (codes "onNotice") s (on_channel o c ((codes "message:", t) ∷ []))
details (Event.part s o c r) =
    heading (codes "onPart") s (on_channel o c ((codes "reason:", or_empty r) ∷ []))
details (Event.topic s o c t) =
    heading (codes "onTopic") s (on_channel o c ((codes "topic:", t) ∷ []))
details _ = []

take-fits : (n : ℕ) (s : Bytes) → length s < n → some (take (n - 1) s) ≡ some s
take-fits n s l = ap {B = Option Bytes} some (take-all (n - 1) s (omega (arith, l)))

-- The text of such an event that fits in the buffer is its words, with spaces between.
event_str-words :
    (ev : Event) (n : ℕ)
    → IsPlain ev
    → length (spaced (title ev) (words ev)) < n
    → event_str ev n ≡ some (spaced (title ev) (words ev))
unfolding event_str
event_str-words (Event.join s o c) n h l = take-fits n _ l
event_str-words (Event.kick s o c t r) n h l = take-fits n _ l
event_str-words (Event.me s o c m) n h l = take-fits n _ l
event_str-words (Event.message s o c m) n h l = take-fits n _ l
event_str-words (Event.nick s o k) n h l = take-fits n _ l
event_str-words (Event.notice s o c t) n h l = take-fits n _ l
event_str-words (Event.part s o c r) n h l = take-fits n _ l
event_str-words (Event.topic s o c t) n h l = take-fits n _ l
event_str-words (Event.connect s) n h l = absurd h
event_str-words (Event.disconnect s) n h l = absurd h
event_str-words (Event.invite s o c) n h l = absurd h
event_str-words (Event.mode s o c m args) n h l = absurd h
event_str-words (Event.whois s) n h l = absurd h
event_str-words (Event.command s o c m) n h l = absurd h
event_str-words (Event.names s c users) n h l = absurd h
event_str-words (Event.unknown s) n h l = absurd h

split-words :
    (ev : Event)
    → IsPlain ev
    → split (spaced (title ev) (words ev)) (suc (length (words ev))) b' ' ≡ title ev ∷ words ev
split-words (Event.join s o c) h = split-join b' ' 4 _ _ (omega arith, (h.0, (h.1, tt))) (λ e. cc)
split-words (Event.kick s o c t r) h =
    split-join b' ' 6 _ _ (omega arith, (h.0, (h.1, (h.2, (h.3, tt))))) (λ e. cc)
split-words (Event.me s o c m) h =
    split-join b' ' 5 _ _ (omega arith, (h.0, (h.1, (h.2, tt)))) (λ e. cc)
split-words (Event.message s o c m) h =
    split-join b' ' 5 _ _ (omega arith, (h.0, (h.1, (h.2, tt)))) (λ e. cc)
split-words (Event.nick s o k) h = split-join b' ' 4 _ _ (omega arith, (h.0, (h.1, tt))) (λ e. cc)
split-words (Event.notice s o c t) h =
    split-join b' ' 5 _ _ (omega arith, (h.0, (h.1, (h.2, tt)))) (λ e. cc)
split-words (Event.part s o c r) h =
    split-join b' ' 5 _ _ (omega arith, (h.0, (h.1, (h.2, tt)))) (λ e. cc)
split-words (Event.topic s o c t) h =
    split-join b' ' 5 _ _ (omega arith, (h.0, (h.1, (h.2, tt)))) (λ e. cc)
split-words (Event.connect s) h = absurd h
split-words (Event.disconnect s) h = absurd h
split-words (Event.invite s o c) h = absurd h
split-words (Event.mode s o c m args) h = absurd h
split-words (Event.whois s) h = absurd h
split-words (Event.command s o c m) h = absurd h
split-words (Event.names s c users) h = absurd h
split-words (Event.unknown s) h = absurd h

-- The row of the table whose name the text begins with prints the words.
show-words :
    (ev : Event)
    → IsPlain ev
    → show (spaced (title ev) (words ev)) ≡ some (listing (details ev) ++ b'\n' ∷ [])
unfolding show show_loop watchtable has_prefix show_join show_kick show_me show_message show_nick
    show_notice show_part show_topic
show-words (Event.join s o c) h = rw (split-words (Event.join s o c) h) refl
show-words (Event.kick s o c t r) h = rw (split-words (Event.kick s o c t r) h) refl
show-words (Event.me s o c m) h = rw (split-words (Event.me s o c m) h) refl
show-words (Event.message s o c m) h = rw (split-words (Event.message s o c m) h) refl
show-words (Event.nick s o k) h = rw (split-words (Event.nick s o k) h) refl
show-words (Event.notice s o c t) h = rw (split-words (Event.notice s o c t) h) refl
show-words (Event.part s o c r) h = rw (split-words (Event.part s o c r) h) refl
show-words (Event.topic s o c t) h = rw (split-words (Event.topic s o c t) h) refl
show-words (Event.connect s) h = absurd h
show-words (Event.disconnect s) h = absurd h
show-words (Event.invite s o c) h = absurd h
show-words (Event.mode s o c m args) h = absurd h
show-words (Event.whois s) h = absurd h
show-words (Event.command s o c m) h = absurd h
show-words (Event.names s c users) h = absurd h
show-words (Event.unknown s) h = absurd h

-- The text that the daemon makes of the joining of a channel, a kick, an action, a message, a nick,
-- a notice, a leave or a topic is printed by irccdctl as the parts of the event, each behind its
-- label. The text fits in the buffer, and no word before the last has a space.
pub show-event_str :
    (ev : Event) (n : ℕ)
    → IsPlain ev
    → length (spaced (title ev) (words ev)) < n
    → (event_str ev n >>= show) ≡ some (listing (details ev) ++ b'\n' ∷ [])
show-event_str ev n h l = rw (event_str-words ev n h l) (show-words ev h)

-- An invitation is not shown by irccdctl, since its row wants a word more than the text has: only
-- an empty line is printed. The text fits in the buffer, and the words have no space.
pub show-invite :
    (s o c : Bytes) (n : ℕ)
    → NoSpace s
    → NoSpace o
    → NoSpace c
    → length (spaced (codes "EVENT-INVITE") (s ∷ o ∷ c ∷ [])) < n
    → (event_str (Event.invite s o c) n >>= show) ≡ some (b'\n' ∷ [])
unfolding event_str show show_loop watchtable has_prefix show_invite
show-invite s o c n hs ho hc l =
    rw (take-all (n - 1) (spaced (codes "EVENT-INVITE") (s ∷ o ∷ c ∷ [])) (omega (arith, l))) (
      rw
        (split-join b' ' 5 (codes "EVENT-INVITE") (s ∷ o ∷ c ∷ []) (omega arith, (hs, (ho, hc)))
          (λ e. cc))
        refl)
