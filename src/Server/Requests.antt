-- ===== src/Server/Requests.antt =====
-- lib/irccd/server.c: the requests of the bot, `irc_server_invite`, `irc_server_kick` and those that
-- follow. Each formats a line and gives it to `irc_server_send`.
pub mod Parsed
use irccd.Base.{Option, none, some, [], ◌∷◌, ◌++◌, Bytes, codes}
use irccd.Server.{Server, send}

-- The functions, with their arguments in the order of the source.
pub data Request : Type 0 where
  invite topic message me notice : Bytes → Bytes → Request
  kick : Bytes → Bytes → Option Bytes → Request
  part : Bytes → Option Bytes → Request
  mode : Bytes → Bytes → Option Bytes → Request
  names whois : Bytes → Request

-- "%s :%s"
abbrev pub trailing : Bytes → Bytes → Bytes
trailing a b = a ++ b' ' ∷ b':' ∷ b

-- The text that the format strings give.
unfoldable pub text : Request → Bytes
text (invite channel target) = codes "INVITE " ++ (target ++ b' ' ∷ channel)
text (kick channel target (some reason)) =
    codes "KICK " ++ (channel ++ b' ' ∷ trailing target reason)
text (kick channel target none) = codes "KICK " ++ (channel ++ b' ' ∷ target)
text (part channel (some (c ∷ reason))) = codes "PART " ++ trailing channel (c ∷ reason)
text (part channel (some [])) = codes "PART " ++ channel
text (part channel none) = codes "PART " ++ channel
text (topic channel msg) = codes "TOPIC " ++ trailing channel msg
text (message chan msg) = codes "PRIVMSG " ++ trailing chan msg
text (me chan msg) = codes "PRIVMSG " ++ trailing chan (1 ∷ (codes "ACTION " ++ (msg ++ 1 ∷ [])))
text (mode channel modes none) = codes "MODE " ++ (channel ++ b' ' ∷ (modes ++ b' ' ∷ []))
text (mode channel modes (some args)) = codes "MODE " ++ (channel ++ b' ' ∷ (modes ++ b' ' ∷ args))
text (names channel) = codes "NAMES " ++ channel
text (notice channel msg) = codes "NOTICE " ++ trailing channel msg
text (whois target) = codes "WHOIS " ++ target

unfoldable pub request : Server → Request → Server
unfolding text send
request s r = send s (text r)
