-- ===== src/Ctl/Talk.antt =====
-- A command of irccdctl that sends a text to a channel, through the daemon.
use irccd.Base.{
  ℕ, ◌+◌, ◌<◌, ◌≡◌, refl, ◌≢◌, Option, some, List, [], ◌∷◌, ◌++◌, arith, length, Bytes, codes,
  str_eq, is_space,
}
use irccd.Memory.{◌>>=◌}
use irccd.Util.{parse}
use irccd.Util.Joined.{IsFree, join, IsCommand, peer-parse}
use irccd.Server.{Server}
use irccd.Server.Requests.{Request, request}
use irccd.Bsearch.{str_lt}
use irccd.Peer.{State, done, push, succeed, server_get, server_set, with_server}
use irccd.Peer.Numbers.{skip_spaces}
use irccd.Peer.Servers.{
  cmd_server_message, cmd_server_me, cmd_server_notice, cmd_server_topic, three,
}
use irccd.Peer.Table
use irccd.Peer.Table.{Outside, Command, Row, row, find, first_word, invoke, lines}
use irccd.Peer.Table.Found.{find-lookup, invoke-found}
use irccd.Ctl.Sent.{lines-req}
use irccd.Ctl.Requests.{buf_len, Opt, req, words, cmds, run}

pub data Talk : Type 0 where
  message me notice topic : Talk

abbrev pub ctl_name : Talk → Bytes
ctl_name message = codes "server-message"
ctl_name me = codes "server-me"
ctl_name notice = codes "server-notice"
ctl_name topic = codes "server-topic"

abbrev pub peer_name : Talk → Bytes
peer_name message = codes "SERVER-MESSAGE"
peer_name me = codes "SERVER-ME"
peer_name notice = codes "SERVER-NOTICE"
peer_name topic = codes "SERVER-TOPIC"

abbrev pub made : Talk → Bytes → Bytes → Request
made message a b = Request.message a b
made me a b = Request.me a b
made notice a b = Request.notice a b
made topic a b = Request.topic a b

abbrev pub line : Talk → Bytes → Bytes → Bytes → Bytes
line k id target msg = join b' ' (peer_name k) (id ∷ target ∷ msg ∷ [])

-- The server has got the request, and the peer an answer.
abbrev pub told : Talk → State → Bytes → Server → Bytes → Bytes → State
told k p id s target msg =
    push (record p { servers = server_set p.servers id (request s (made k target msg)) })
      (codes "OK")

IsFree-append : (x : ℕ) (s t : Bytes) → IsFree x s → IsFree x t → IsFree x (s ++ t)
IsFree-append x [] t h k = k
IsFree-append x (c ∷ s) t h k = (h.0, IsFree-append x s t h.1 k)

join-nonempty : (f g : Bytes) (fs : List Bytes) → join b' ' f (g ∷ fs) ≢ []
join-nonempty [] g fs e = cc
join-nonempty (c ∷ f) g fs e = cc

line-IsFree :
    (k : Talk) (id target msg : Bytes)
    → IsFree b'\n' id
    → IsFree b'\n' target
    → IsFree b'\n' msg
    → IsFree b'\n' (line k id target msg)
line-IsFree k id target msg h1 h2 h3 =
    IsFree-append b'\n' (peer_name k) (b' ' ∷ join b' ' id (target ∷ msg ∷ [])) (name k) (
      omega arith,
      IsFree-append b'\n' id (b' ' ∷ join b' ' target (msg ∷ [])) h1
          (omega arith, IsFree-append b'\n' target (b' ' ∷ msg) h2 (omega arith, h3)),
    )
  where
    name : (k : Talk) → IsFree b'\n' (peer_name k)
    name message = omega arith
    name me = omega arith
    name notice = omega arith
    name topic = omega arith

-- What irccdctl sends.
sent :
    (held : ℕ → Bytes → Option Bytes) (getopt : Bytes → List Bytes → List Opt × List Bytes)
    (k : Talk) (id target msg : Bytes)
    → run held getopt (ctl_name k) (id ∷ target ∷ msg ∷ []) ≡ req (line k id target msg)
unfolding run cmds words str_lt str_eq
sent held getopt message id target msg = refl
sent held getopt me id target msg = refl
sent held getopt notice id target msg = refl
sent held getopt topic id target msg = refl

three-told :
    (k : Talk) (p : State) (id target msg : Bytes) (s : Server)
    → server_get p.servers id ≡ some s
    → three (made k) p (id ∷ target ∷ msg ∷ []) ≡ some (done (told k p id s target msg))
unfolding with_server succeed
three-told k p id target msg s e = rw (with_server, e) refl

parse-line :
    (k : Talk) (id target msg : Bytes)
    → IsFree b' ' id
    → IsFree b' ' target
    → parse (line k id target msg) 3 ≡ id ∷ target ∷ msg ∷ []
unfolding is_space
parse-line k id target msg h1 h2 =
    (peer-parse (peer_name k) 3 id (target ∷ msg ∷ []) (name k) (h1, (h2, tt))
      (join-nonempty id target (msg ∷ []))).0
  where
    name : (k : Talk) → IsCommand (peer_name k)
    name message = ground arith
    name me = ground arith
    name notice = ground arith
    name topic = ground arith

abbrev pub command : Talk → Command
command message = Command.server_message
command me = Command.server_me
command notice = Command.server_notice
command topic = Command.server_topic

found :
    (k : Talk) (id target msg : Bytes)
    → find (line k id target msg) ≡ some (row (peer_name k) (command k))
unfolding first_word skip_spaces is_space str_eq
found message id target msg = find-lookup (line message id target msg)
found me id target msg = find-lookup (line me id target msg)
found notice id target msg = find-lookup (line notice id target msg)
found topic id target msg = find-lookup (line topic id target msg)

line-nonempty : (k : Talk) (id target msg : Bytes) → line k id target msg ≢ []
line-nonempty message id target msg e = cc
line-nonempty me id target msg e = cc
line-nonempty notice id target msg e = cc
line-nonempty topic id target msg e = cc

module _ (o : Outside) where
  run-told :
      (k : Talk) (p : State) (id target msg : Bytes) (s : Server)
      → server_get p.servers id ≡ some s
      → IsFree b' ' id
      → IsFree b' ' target
      → Table.run o (command k) p (line k id target msg) ≡ some (done (told k p id s target msg))
  unfolding Table.run cmd_server_message cmd_server_me cmd_server_notice cmd_server_topic
  run-told message p id target msg s e h1 h2 =
      rw (parse-line message id target msg h1 h2) (three-told message p id target msg s e)
  run-told me p id target msg s e h1 h2 =
      rw (parse-line me id target msg h1 h2) (three-told me p id target msg s e)
  run-told notice p id target msg s e h1 h2 =
      rw (parse-line notice id target msg h1 h2) (three-told notice p id target msg s e)
  run-told topic p id target msg s e h1 h2 =
      rw (parse-line topic id target msg h1 h2) (three-told topic p id target msg s e)

  invoke-line :
      (k : Talk) (p : State) (id target msg : Bytes) (s : Server)
      → server_get p.servers id ≡ some s
      → IsFree b' ' id
      → IsFree b' ' target
      → invoke o p (line k id target msg) ≡ some (told k p id s target msg)
  invoke-line k p id target msg s e h1 h2 =
      rw
        (
          invoke-found o p (line k id target msg) (row (peer_name k) (command k))
              (found k id target msg),
          run-told k p id target msg s e h1 h2,
        )
        refl

  -- A message, an action, a notice or a topic that is given to irccdctl is sent to the daemon, which
  -- takes the line whole, makes the request on the server of that name and answers OK. The server
  -- is known, its name and the channel have no space, the three have no line end, and the line is
  -- shorter than the client's buffer less the line end and the NUL.
  pub ctl-told :
      (held : ℕ → Bytes → Option Bytes) (getopt : Bytes → List Bytes → List Opt × List Bytes)
      (k : Talk) (p : State) (id target msg : Bytes) (s : Server)
      → server_get p.servers id ≡ some s
      → IsFree b' ' id
      → IsFree b' ' target
      → IsFree b'\n' id
      → IsFree b'\n' target
      → IsFree b'\n' msg
      → length (line k id target msg) + 1 < buf_len
      → (run held getopt (ctl_name k) (id ∷ target ∷ msg ∷ []) >>= λ bytes.
          lines o (length bytes) p bytes)
        ≡ some (told k p id s target msg, [])
  ctl-told held getopt k p id target msg s e h1 h2 n1 n2 n3 l =
      rw (sent held getopt k id target msg) (
        lines-req o (line k id target msg) p (told k p id s target msg)
          (line-nonempty k id target msg) l (line-IsFree k id target msg n1 n2 n3)
          (invoke-line k p id target msg s e h1 h2))
