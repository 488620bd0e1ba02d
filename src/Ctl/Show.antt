-- ===== src/Ctl/Show.antt =====
-- irccdctl/irccdctl.c: what the command `watch` prints of an event, `show` and the `show_*`.
--
-- The result is the text that is printed; `none` is a NULL string given to printf.
pub mod Events
use irccd.Base.{
  ℕ, zero, suc, Option, none, some, List, [], ◌∷◌, ◌++◌, if◌then◌else◌, Bytes, codes, has_prefix,
}
use irccd.Util.{split}

-- %-16s
abbrev pub pad : ℕ → Bytes → Bytes
pad zero s = s
pad (suc n) [] = b' ' ∷ pad n []
pad (suc n) (c ∷ s) = c ∷ pad n s

-- printf("%-16s%s\n", label, value) for each pair.
abbrev pub listing : List (Bytes × Bytes) → Bytes
listing [] = []
listing ((label, value) ∷ rest) = pad 16 label ++ (value ++ b'\n' ∷ listing rest)

-- The first lines, of which most events have the same.
abbrev pub heading : Bytes → Bytes → List (Bytes × Bytes) → List (Bytes × Bytes)
heading event server rest = (codes "event:", event) ∷ (codes "server:", server) ∷ rest

abbrev pub on_channel : Bytes → Bytes → List (Bytes × Bytes) → List (Bytes × Bytes)
on_channel origin channel rest = (codes "origin:", origin) ∷ (codes "channel:", channel) ∷ rest

unfoldable pub show_connect : List Bytes → Option Bytes
show_connect (a ∷ s ∷ []) = some (listing (heading (codes "onConnect") a []))
show_connect _ = some []

unfoldable pub show_disconnect : List Bytes → Option Bytes
show_disconnect (a ∷ s ∷ []) = some (listing (heading (codes "onDisonnect") a []))
show_disconnect _ = some []

unfoldable pub show_invite : List Bytes → Option Bytes
show_invite (a ∷ s ∷ o ∷ c ∷ n ∷ []) =
    some (listing (heading (codes "onInvite") s (on_channel o c ((codes "nickname:", n) ∷ []))))
show_invite _ = some []

unfoldable pub show_join : List Bytes → Option Bytes
show_join (a ∷ s ∷ o ∷ c ∷ []) = some (listing (heading (codes "onJoin") s (on_channel o c [])))
show_join _ = some []

abbrev pub kicked : Bytes → Bytes → Bytes → Bytes → Bytes → Bytes
kicked s o c t r =
    listing (
      heading (codes "onKick") s
        (on_channel o c ((codes "target:", t) ∷ (codes "reason:", r) ∷ [])))

unfoldable pub show_kick : List Bytes → Option Bytes
show_kick (a ∷ s ∷ o ∷ c ∷ t ∷ []) = some (kicked s o c t [])
show_kick (a ∷ s ∷ o ∷ c ∷ t ∷ r ∷ []) = some (kicked s o c t r)
show_kick _ = some []

unfoldable pub show_me : List Bytes → Option Bytes
show_me (a ∷ s ∷ o ∷ c ∷ m ∷ []) =
    some (listing (heading (codes "onMe") s (on_channel o c ((codes "message:", m) ∷ []))))
show_me _ = some []

unfoldable pub show_message : List Bytes → Option Bytes
show_message (a ∷ s ∷ o ∷ c ∷ m ∷ []) =
    some (listing (heading (codes "onMessage") s (on_channel o c ((codes "message:", m) ∷ []))))
show_message _ = some []

-- printf("%s ", args[i])
abbrev pub each_mode : List Bytes → Bytes
each_mode [] = []
each_mode (m ∷ rest) = m ++ b' ' ∷ each_mode rest

unfoldable pub show_mode : List Bytes → Option Bytes
show_mode (a ∷ s ∷ o ∷ c ∷ m ∷ modes) = some (
    listing (heading (codes "onMode") s (on_channel o c []))
    ++ (pad 16 (codes "mode: ") ++ (each_mode (m ∷ modes) ++ b'\n' ∷ [])))
show_mode _ = some []

unfoldable pub show_nick : List Bytes → Option Bytes
show_nick (a ∷ s ∷ o ∷ n ∷ []) =
    some (listing (heading (codes "onNick") s ((codes "origin:", o) ∷ (codes "nickname:", n) ∷ [])))
show_nick _ = some []

unfoldable pub show_notice : List Bytes → Option Bytes
show_notice (a ∷ s ∷ o ∷ c ∷ m ∷ []) =
    some (listing (heading (codes "onNotice") s (on_channel o c ((codes "message:", m) ∷ []))))
show_notice _ = some []

unfoldable pub show_part : List Bytes → Option Bytes
show_part (a ∷ s ∷ o ∷ c ∷ []) =
    some (listing (heading (codes "onPart") s (on_channel o c ((codes "reason:", []) ∷ []))))
show_part (a ∷ s ∷ o ∷ c ∷ r ∷ []) =
    some (listing (heading (codes "onPart") s (on_channel o c ((codes "reason:", r) ∷ []))))
show_part _ = some []

-- Without a topic args[4] is NULL.
unfoldable pub show_topic : List Bytes → Option Bytes
show_topic (a ∷ s ∷ o ∷ c ∷ []) = none
show_topic (a ∷ s ∷ o ∷ c ∷ t ∷ []) =
    some (listing (heading (codes "onTopic") s (on_channel o c ((codes "topic:", t) ∷ []))))
show_topic _ = some []

unfoldable pub show_whois : List Bytes → Option Bytes
show_whois (a ∷ s ∷ n ∷ u ∷ []) = none
show_whois (a ∷ s ∷ n ∷ u ∷ h ∷ []) = none
show_whois (a ∷ s ∷ n ∷ u ∷ h ∷ r ∷ []) = some (
    listing (
      heading (codes "onWhois") s (
        (codes "nickname:", n)
        ∷ (codes "username:", u)
        ∷ (codes "hostname:", h)
        ∷ (codes "username:", r)
        ∷ [])))
show_whois _ = some []

-- A row of the table, with the size of the array of arguments of its function.
pub record Watch : Type 0 where
  pub event : Bytes
  pub size : ℕ
  pub show : List Bytes → Option Bytes

abbrev pub watch : Bytes → ℕ → (List Bytes → Option Bytes) → Watch
watch event size show = record { event = event; size = size; show = show }

unfoldable pub watchtable : List Watch
unfolding show_connect show_disconnect show_invite show_join show_kick show_me show_message
    show_mode show_nick show_notice show_part show_topic show_whois
watchtable =
    watch (codes "EVENT-CONNECT") 2 show_connect
    ∷ watch (codes "EVENT-DISCONNECT") 2 show_disconnect
    ∷ watch (codes "EVENT-INVITE") 5 show_invite
    ∷ watch (codes "EVENT-JOIN") 4 show_join
    ∷ watch (codes "EVENT-KICK") 6 show_kick
    ∷ watch (codes "EVENT-MESSAGE") 5 show_message
    ∷ watch (codes "EVENT-ME") 5 show_me
    ∷ watch (codes "EVENT-MODE") 8 show_mode
    ∷ watch (codes "EVENT-NICK") 4 show_nick
    ∷ watch (codes "EVENT-NOTICE") 5 show_notice
    ∷ watch (codes "EVENT-PART") 5 show_part
    ∷ watch (codes "EVENT-TOPIC") 5 show_topic
    ∷ watch (codes "EVENT-WHOIS") 6 show_whois
    ∷ []

-- printf("\n")
abbrev pub ended : Option Bytes → Option Bytes
ended none = none
ended (some s) = some (s ++ b'\n' ∷ [])

-- The first row whose name the text begins with.
unfoldable pub show_loop : List Watch → Bytes → Option Bytes
unfolding has_prefix split
show_loop [] ev = some []
show_loop (w ∷ rest) ev =
    if has_prefix w.event ev then ended (w.show (split ev w.size b' ')) else show_loop rest ev

unfoldable pub show : Bytes → Option Bytes
unfolding show_loop watchtable
show ev = show_loop watchtable ev
