-- ===== src/Witness/Server.antt =====
-- Inputs for the theorems on a server, its channels and its handlers.
use irccd.Base.{
  ◌+◌, ◌<◌, ◌≡◌, refl, true, false, Option, none, some, List, [], ◌∷◌, ◌++◌, arith, length, Bytes,
  codes, str_eq, to_lower, str_case_eq,
}
use irccd.Event.{Event}
use irccd.Channel
use irccd.Channel.{Channel, User}
use irccd.Channel.Users
use irccd.Channel.Users.{
  apply_all-IsUnique, modes_at-remove, modes_at-set, modes_at, add_op, remove_op, set_op,
}
use irccd.Conn.Message.{Msg}
use irccd.Conn.Message.RoundTrip.{Without}
use irccd.Server.{Server, send, channels_find, find_loop}
use irccd.Server.Prefixes.{strip}
use irccd.Server.Prefixes.Strip.{strip-chosen}
use irccd.Server.Requests
use irccd.Server.Requests.{text, request}
use irccd.Server.Requests.Parsed.{request-received}
use irccd.Conn.Output.{send_va, push}
use irccd.Conn.Input.{produce_all}
use irccd.Conn.Input.Framing.{concat}
use irccd.Conn.Input.Lines.{crlf}
use irccd.Server.Handlers.{handle_mode}
use irccd.Server.Handlers.Complete
use irccd.Server.Handlers.Complete.{is_done, handler}
use irccd.Server.Handlers.Complete.Exact.{handler-is_done}
use irccd.Server.Handlers.Membership.{handle_mode-first}
use irccd.Server.Handlers.Talk.{handle_msg, handle_msg-action, quoted}
use irccd.Server.Handlers.Sound.{AreDistinct}
use irccd.Server.Handlers.Table.{consume}
use irccd.Server.Handlers.Table.Sound.{Leaves, consume-AreDistinct}
use irccd.Server.Handlers.Table.Whois.{behind, consume-lost}

abbrev jean : User
jean = record { nickname = codes "jean"; modes = 0 }

abbrev anna : User
anna = record { nickname = codes "anna"; modes = 2 }

abbrev games : Channel
games = record { name = codes "#games"; password = none; flags = 1; users = jean ∷ anna ∷ [] }

abbrev libera : Server
libera = record {
  name = codes "libera";
  flags = 0;
  nickname = codes "bot";
  ctcp_version = none;
  ctcp_source = none;
  prefixes = record { mode = b'o'; symbol = b'@' } ∷ record { mode = b'v'; symbol = b'+' } ∷ [];
  channels = games ∷ [];
  ready = true;
  out = [];
}

users-IsUnique : Users.IsUnique games.users
unfolding Channel.find_loop str_case_eq to_lower
users-IsUnique = (refl, (refl, tt))

apply_all-IsUnique_example :
    Users.IsUnique
      (Users.apply_all games (add_op (codes "JEAN") 1 ∷ remove_op (codes "anna") ∷ [])).users
apply_all-IsUnique_example =
    apply_all-IsUnique (add_op (codes "JEAN") 1 ∷ remove_op (codes "anna") ∷ []) games
      users-IsUnique

modes_at-set_example : modes_at (Channel.set games (codes "Anna") 1) (codes "anna") ≡ some 1
unfolding Channel.get Channel.find_loop str_case_eq to_lower
modes_at-set_example = modes_at-set games (codes "Anna") 1 (codes "anna")

strip-chosen_example : strip libera (codes "+anna") ≡ (2, codes "anna")
strip-chosen_example = strip-chosen libera (false ∷ true ∷ []) (codes "anna") (omega arith)

abbrev hello : Requests.Request
hello = Requests.message (codes "#games") (codes "hello you")

hello-Without : Without 0 (text hello) × Without b'\r' (text hello)
unfolding text
hello-Without = (omega arith, omega arith)

-- The bytes of the output in two pieces.
abbrev hello_pieces : List Bytes
hello_pieces = codes "PRIVMSG #ga" ∷ (codes "mes :hello you" ++ crlf) ∷ []

hello-sent : concat hello_pieces ≡ (request libera hello).out
unfolding request text send send_va push
hello-sent = refl

hello-short : length (text hello) < 512
unfolding text
hello-short = omega arith

hello-room : 0 + length (text hello) + 2 < 65536
unfolding text
hello-room = omega arith

request-received_example :
    (produce_all [] none hello_pieces).pushed
    ≡ some (record {
      prefix = none;
      cmd = codes "PRIVMSG";
      args = codes "#games" ∷ codes "hello you" ∷ [];
    })
      ∷ []
request-received_example =
    request-received libera hello [] hello_pieces refl refl tt tt (omega arith) hello-Without.0
      hello-Without.1 hello-short hello-room hello-sent

abbrev op_anna : Msg
op_anna = record {
  prefix = some (codes "chan!serv@host");
  cmd = codes "MODE";
  args = codes "#games" ∷ codes "+o" ∷ codes "anna" ∷ [];
}

handle_mode-first_example :
    handle_mode libera op_anna
    ≡ some (
      libera,
      Event.mode
            (codes "libera")
            (codes "chan!serv@host")
            (codes "#games")
            (codes "+o")
            (codes "anna" ∷ [])
          ∷ [],
    )
handle_mode-first_example =
    handle_mode-first libera op_anna (record { mode = b'o'; symbol = b'@' })
      (record { mode = b'v'; symbol = b'+' } ∷ []) (codes "chan!serv@host") (codes "#games")
      (codes "+o") refl refl refl refl (refl, (refl, tt))

games-channels_find : channels_find libera (codes "#games") ≡ some games
unfolding channels_find find_loop str_case_eq to_lower
games-channels_find = refl

abbrev anna_nick : Bytes → Option Bytes
anna_nick _ = some (codes "anna")

abbrev anna_waves : Msg
anna_waves = record {
  prefix = some (codes "anna!a@host");
  cmd = codes "PRIVMSG";
  args = codes "#games" ∷ quoted (codes "ACTION waves") ∷ [];
}

handle_msg-action_example :
    handle_msg anna_nick [] libera anna_waves
    ≡ some (
      libera,
      Event.me (codes "libera") (codes "anna!a@host") (codes "#games") (codes "waves") ∷ [],
    )
handle_msg-action_example =
    handle_msg-action anna_nick [] libera anna_waves (codes "anna!a@host") (codes "#games")
      (codes "waves") (codes "anna") refl refl refl refl (omega arith)

-- A KICK that has no reason.
abbrev kick_anna : Msg
kick_anna = record {
  prefix = some (codes "chan!serv@host");
  cmd = codes "KICK";
  args = codes "#games" ∷ codes "anna" ∷ [];
}

handler-is_done_example : is_done (handler Complete.kick libera kick_anna) ≡ false
handler-is_done_example = handler-is_done Complete.kick libera kick_anna

libera-AreDistinct : AreDistinct libera.channels
unfolding find_loop
libera-AreDistinct = (refl, users-IsUnique, tt)

consume-AreDistinct_example :
    Leaves (consume anna_nick (codes "now") false libera (anna_waves ∷ anna_waves ∷ []))
consume-AreDistinct_example =
    consume-AreDistinct anna_nick (codes "now") false libera (anna_waves ∷ anna_waves ∷ [])
      libera-AreDistinct

abbrev end_of_whois : Msg
end_of_whois = record { prefix = none; cmd = codes "318"; args = [] }

waves-AreOthers :
    (str_eq (codes "PRIVMSG") (codes "319") ≡ false)
    × (str_eq (codes "PRIVMSG") (codes "318") ≡ false)
unfolding str_eq
waves-AreOthers = (refl, refl)

abbrev anna_whois : Msg
anna_whois = record {
  prefix = none;
  cmd = codes "311";
  args = codes "bot" ∷ codes "anna" ∷ codes "a" ∷ codes "host" ∷ codes "*" ∷ codes "Anna" ∷ [];
}

consume-lost_example :
    consume anna_nick
      (codes "now")
      false
      libera
      (anna_whois ∷ (anna_waves ∷ []) ++ end_of_whois ∷ anna_waves ∷ [])
    ≡ behind anna_nick
        (codes "now")
        (Event.whois (codes "libera"))
        (consume anna_nick (codes "now") false libera (anna_waves ∷ []))
consume-lost_example =
    consume-lost anna_nick (codes "now") libera anna_whois end_of_whois (codes "Anna")
      (anna_waves ∷ []) (anna_waves ∷ []) refl refl (waves-AreOthers.0, waves-AreOthers.1, tt) refl
