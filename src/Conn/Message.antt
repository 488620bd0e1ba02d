-- ===== src/Conn/Message.antt =====
-- lib/irccd/conn.c: the parser of an IRC line, `irc__conn_msg_*`.
--
-- A line is what `strndup` copies of it: the bytes before the first NUL. The fields of a message
-- point into that copy; here they are the strings found there.
pub mod RoundTrip
use irccd.Base.{
  ℕ, zero, suc, Bool, false, ◌&&◌, Option, none, some, List, [], ◌∷◌, ◌==◌, if◌then◌else◌, length,
  drop, Bytes, codes, has_prefix,
}

pub record Msg : Type 0 where
  pub prefix : Option Bytes
  pub cmd : Bytes
  pub args : List Bytes

-- strndup(line, linesz), or what a C string shows of the bytes.
unfoldable pub strndup : Bytes → Bytes
strndup [] = []
strndup (c ∷ line) = let rest = strndup line in if c == 0 then [] else c ∷ rest

-- `irc__conn_msg_scan`: the word up to a space, and what follows the space.
unfoldable pub scan : Bytes → Bytes × Bytes
scan [] = ([], [])
scan (c ∷ line) = let (word, rest) = scan line in if c == b' ' then ([], line) else (c ∷ word, rest)

-- The loop over the arguments. Each round leaves a shorter text, so the length is fuel enough.
unfoldable pub args_loop : ℕ → Bytes → List Bytes
unfolding scan
args_loop fuel [] = []
args_loop zero (c ∷ ptr) = []
args_loop (suc fuel) (c ∷ ptr) =
    let (word, next) = scan (c ∷ ptr) in
    let rest = args_loop fuel next in if c == b':' then ptr ∷ [] else word ∷ rest

-- Behind the prefix: the command and the arguments.
unfoldable pub parse_command : Option Bytes → Bytes → Msg
unfolding scan args_loop
parse_command prefix ptr =
    let (cmd, next) = scan ptr in
    record { prefix = prefix; cmd = cmd; args = args_loop (length next) next }

unfoldable pub parse_text : Bytes → Msg
unfolding scan parse_command
parse_text [] = parse_command none []
parse_text (c ∷ ptr) =
    let (prefix, next) = scan ptr in
    if c == b':' then parse_command (some prefix) next else parse_command none (c ∷ ptr)

-- `irc__conn_msg_parse`. The command is never NULL, so its error is never returned.
unfoldable pub parse : Bytes → Msg
unfolding strndup parse_text
parse line = parse_text (strndup line)

abbrev pub last_is : ℕ → Bytes → Bool
last_is x [] = false
last_is x (c ∷ []) = c == x
last_is x (c ∷ d ∷ line) = last_is x (d ∷ line)

-- `irc__conn_msg_is_ctcp`
unfoldable pub is_ctcp : Bytes → Bool
is_ctcp [] = false
is_ctcp (c ∷ []) = false
is_ctcp (c ∷ d ∷ line) = c == 1 && last_is 1 (d ∷ line)

-- The bytes before the first 0x01.
unfoldable pub cut : Bytes → Bytes
cut [] = []
cut (c ∷ line) = let rest = cut line in if c == 1 then [] else c ∷ rest

abbrev pub skip_first : Bytes → Bytes
skip_first [] = []
skip_first (c ∷ line) = if c == 1 then line else c ∷ line

-- `irc__conn_msg_ctcp`
unfoldable pub ctcp : Bytes → Bytes
unfolding cut has_prefix
ctcp line =
    let body = cut (skip_first line) in
    if has_prefix (codes "ACTION ") body then drop 7 body else body
