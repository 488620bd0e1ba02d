-- ===== src/Ctl/Requests.antt =====
-- irccdctl/irccdctl.c: what a command sends, `req`, `run` and the `cmd_*`.
--
-- A command gets the arguments behind its name. `none` is an exit of the client, or a fault.
use irccd.Base.{
  ℕ, ◌+◌, ◌-◌, ◌^◌, Bool, true, false, ◌&&◌, Option, none, some, List, [], ◌∷◌, ◌++◌, leb, ◌==◌,
  if◌then◌else◌, length, take, Bytes, codes, to_lower, ok, err,
}
use irccd.Memory.{◌>>=◌}
use irccd.Util.Joined.{join}
use irccd.Bsearch.{bsearch}
use irccd.Peer.Numbers.{is_negative, stoi, decimal}

abbrev pub buf_len : ℕ
buf_len = 512

-- `req` of a formatted text: the bytes that are sent.
unfoldable pub req : Bytes → Option Bytes
req text =
    if leb buf_len (length (take (buf_len - 1) text) + 1)
    then none
    else some (take (buf_len - 1) text ++ b'\n' ∷ [])

-- "CMD %s %s ..." with as many arguments as there are.
unfoldable pub words : Bytes → List Bytes → Option Bytes
words cmd args = some (join b' ' cmd args)

-- "SERVER-MODE %s %s %s%c%s", where the NUL that %c may write ends the text.
unfoldable pub mode_words : List Bytes → Option Bytes
mode_words (s ∷ c ∷ m ∷ []) = some (join b' ' (codes "SERVER-MODE") (s ∷ c ∷ m ∷ []))
mode_words (s ∷ c ∷ m ∷ a ∷ rest) = some (join b' ' (codes "SERVER-MODE") (s ∷ c ∷ m ∷ a ∷ []))
mode_words _ = none

unfoldable pub part_words : List Bytes → Option Bytes
part_words (s ∷ c ∷ []) =
    some (join b' ' (codes "SERVER-PART") (s ∷ c ∷ codes "irccd is shutting down" ∷ []))
part_words (s ∷ c ∷ r ∷ rest) = some (join b' ' (codes "SERVER-PART") (s ∷ c ∷ r ∷ []))
part_words _ = none

-- %lld
abbrev pub signed : ℕ → Bytes
signed word = if is_negative word then b'-' ∷ decimal (2 ^ 64 - word) else decimal word

abbrev pub converted : Bytes → Option ℕ
converted text = elim (stoi text) [ err e ↦ none | ok word ↦ some word ]

unfoldable pub move_words : List Bytes → Option Bytes
unfolding stoi decimal
move_words (a ∷ b ∷ rest) = do
  from ← converted a
  to ← converted b
  some (join b' ' (codes "RULE-MOVE") (signed from ∷ signed to ∷ []))
move_words _ = none

-- `plugin_list_set` with at most three arguments; without any, argv[0] is NULL.
unfoldable pub plugin_words : Bytes → List Bytes → Option Bytes
plugin_words cmd [] = none
plugin_words cmd (a ∷ args) = some (join b' ' cmd (a ∷ args))

-- The name of the command in place of the server, which is argv[1].
unfoldable pub info_words : List Bytes → Option Bytes
info_words args = some (join b' ' (codes "SERVER-INFO") (codes "server-info" ∷ []))

-- An option of getopt: its letter and its argument.
pub record Opt : Type 0 where
  pub letter : ℕ
  pub optarg : Bytes

-- fprintf(fp, "%c=%s ", ch, optarg) for each.
unfoldable pub add_opts : List Opt → Bytes
add_opts [] = []
add_opts (o ∷ rest) = o.letter ∷ b'=' ∷ (o.optarg ++ b' ' ∷ add_opts rest)

abbrev pub is_upper : ℕ → Bool
is_upper c = leb b'A' c && leb c b'Z'

unfoldable pub edit_opts : List Opt → Bytes
unfolding to_lower
edit_opts [] = []
edit_opts (o ∷ rest) =
    if o.letter == b'a'
    then b'a' ∷ b'=' ∷ (o.optarg ++ b' ' ∷ edit_opts rest)
    else to_lower o.letter
      ∷ (if is_upper o.letter then b'-' else b'+')
      ∷ (o.optarg ++ b' ' ∷ edit_opts rest)

-- The variables of `cmd_server_connect`.
pub record Connect : Type 0 where
  pub ssl : Bool
  pub nickname : Bytes
  pub realname : Bytes
  pub username : Bytes
  pub port : Bytes

abbrev pub connect_default : Connect
connect_default = record {
  ssl = false;
  nickname = codes "irccd";
  realname = codes "IRC Client Daemon";
  username = codes "irccd";
  port = codes "6667";
}

unfoldable pub connect_loop : Connect → List Opt → Connect
connect_loop c [] = c
connect_loop c (o ∷ rest) =
    connect_loop
      (if o.letter == b's'
        then record c { ssl = true }
        else if o.letter == b'n'
        then record c { nickname = o.optarg }
        else if o.letter == b'r'
        then record c { realname = o.optarg }
        else if o.letter == b'u'
        then record c { username = o.optarg }
        else if o.letter == b'p'
        then record c { port = o.optarg }
        else c)
      rest

abbrev pub connect_words : Connect → List Bytes → Option Bytes
connect_words c (id ∷ host ∷ rest) = some (
    join b' ' (codes "SERVER-CONNECT") (
      id
      ∷ host
      ∷ ((if c.ssl then b'+' ∷ [] else []) ++ c.port)
      ∷ c.nickname
      ∷ c.username
      ∷ c.realname
      ∷ []))
connect_words c _ = none

-- A row of the table: the least and the largest number of arguments, which are none for -1, and
-- the text of the request.
pub record Row : Type 0 where
  pub name : Bytes
  pub bounds : Option (ℕ × ℕ)
  pub text : List Bytes → Option Bytes

abbrev pub row_name : Row → Bytes
row_name r = r.name

abbrev pub row : Bytes → ℕ → ℕ → (List Bytes → Option Bytes) → Row
row name minargs maxargs text = record {
  name = name;
  bounds = some (minargs, maxargs);
  text = text;
}

abbrev pub free_row : Bytes → (List Bytes → Option Bytes) → Row
free_row name text = record { name = name; bounds = none; text = text }

abbrev pub is_within : Option (ℕ × ℕ) → ℕ → Bool
is_within none n = true
is_within (some (least, most)) n = leb least n && leb n most

-- `held` gives the string that a stream on a buffer has when it is closed, and `getopt` the options
-- and the arguments behind them, for the letters that are asked for.
module _ (held : ℕ → Bytes → Option Bytes)
    (getopt : Bytes → List Bytes → List Opt × List Bytes) where
  unfoldable pub rule_add_words : List Opt → List Bytes → Option Bytes
  unfolding add_opts
  rule_add_words opts [] = none
  rule_add_words opts (act ∷ rest) = do
    out ← held (buf_len - 1) (add_opts opts ++ act)
    some (join b' ' (codes "RULE-ADD") (act ∷ out ∷ []))

  unfoldable pub rule_edit_words : List Opt → List Bytes → Option Bytes
  unfolding edit_opts
  rule_edit_words opts [] = none
  rule_edit_words opts (index ∷ rest) = do
    out ← held (buf_len - 1) (edit_opts opts)
    some (join b' ' (codes "RULE-EDIT") (index ∷ out ∷ []))

  abbrev pub rule_add : List Bytes → Option Bytes
  rule_add args = let (opts, rest) = getopt (codes "c:e:i:o:p:s:") args in rule_add_words opts rest

  abbrev pub rule_edit : List Bytes → Option Bytes
  rule_edit args =
      let (opts, rest) = getopt (codes "a:C:c:E:e:O:o:P:p:S:s:") args in rule_edit_words opts rest

  abbrev pub server_connect : List Bytes → Option Bytes
  server_connect args =
      let (opts, rest) = getopt (codes "sn:r:u:p:") args in
      connect_words (connect_loop connect_default opts) rest

  unfoldable pub cmds : List Row
  unfolding words mode_words part_words move_words plugin_words info_words rule_add_words
      rule_edit_words connect_loop
  cmds =
      row (codes "hook-add") 2 2 (words (codes "HOOK-ADD"))
      ∷ row (codes "hook-list") 0 0 (words (codes "HOOK-LIST"))
      ∷ row (codes "hook-remove") 1 1 (words (codes "HOOK-REMOVE"))
      ∷ row (codes "plugin-config") 1 3 (plugin_words (codes "PLUGIN-CONFIG"))
      ∷ row (codes "plugin-info") 1 1 (words (codes "PLUGIN-INFO"))
      ∷ row (codes "plugin-list") 0 0 (words (codes "PLUGIN-LIST"))
      ∷ row (codes "plugin-load") 1 1 (words (codes "PLUGIN-LOAD"))
      ∷ row (codes "plugin-path") 0 3 (plugin_words (codes "PLUGIN-PATH"))
      ∷ row (codes "plugin-reload") 0 1 (words (codes "PLUGIN-RELOAD"))
      ∷ row (codes "plugin-template") 1 3 (plugin_words (codes "PLUGIN-TEMPLATE"))
      ∷ row (codes "plugin-unload") 0 1 (words (codes "PLUGIN-UNLOAD"))
      ∷ free_row (codes "rule-add") rule_add
      ∷ free_row (codes "rule-edit") rule_edit
      ∷ row (codes "rule-list") 0 0 (words (codes "RULE-LIST"))
      ∷ row (codes "rule-move") 2 2 move_words
      ∷ row (codes "rule-remove") 1 1 (words (codes "RULE-REMOVE"))
      ∷ free_row (codes "server-connect") server_connect
      ∷ row (codes "server-disconnect") 0 1 (words (codes "SERVER-DISCONNECT"))
      ∷ row (codes "server-info") 1 1 info_words
      ∷ row (codes "server-join") 2 3 (words (codes "SERVER-JOIN"))
      ∷ row (codes "server-list") 0 0 (words (codes "SERVER-LIST"))
      ∷ row (codes "server-me") 3 3 (words (codes "SERVER-ME"))
      ∷ row (codes "server-message") 3 3 (words (codes "SERVER-MESSAGE"))
      ∷ row (codes "server-mode") 3 4 mode_words
      ∷ row (codes "server-nick") 2 2 (words (codes "SERVER-NICK"))
      ∷ row (codes "server-notice") 3 3 (words (codes "SERVER-NOTICE"))
      ∷ row (codes "server-part") 2 3 part_words
      ∷ row (codes "server-reconnect") 0 1 (words (codes "SERVER-RECONNECT"))
      ∷ row (codes "server-topic") 3 3 (words (codes "SERVER-TOPIC"))
      ∷ row (codes "watch") 0 0 (words (codes "WATCH"))
      ∷ []

  -- `run`: the first request of a command with its arguments.
  unfoldable pub run : Bytes → List Bytes → Option Bytes
  unfolding bsearch cmds req
  run name args = do
    r ← bsearch row_name (length cmds) name cmds
    text ← (if is_within r.bounds (length args) then r.text args else none)
    req text
