-- ===== src/Server/Requests/Parsed.antt =====
-- What a server that reads a line by the grammar of the protocol gets of a request.
use irccd.Base.{
  ◌+◌, ◌-◌, ◌<◌, ◌≡◌, refl, sym, ap, ◌∙◌, subst, true, false, Option, none, some, List, [], ◌∷◌,
  ◌++◌, map, append_assoc, append-nil, arith, leb, length, take, take-all, Bytes, codes,
}
use irccd.Conn.Message.{Msg, parse}
use irccd.Conn.Input.{produce_all}
use irccd.Conn.Input.Framing.{concat}
use irccd.Conn.Input.Lines.{crlf, IsLine, AllLines, sent, produce_all-sent}
use irccd.Conn.Output.{out_size, message_len, push, send_va}
use irccd.Server.{Server, send}
use irccd.Conn.Message.RoundTrip.{Without, IsWord, AllWords, render, all_args, parse-render}
use irccd.Server.Requests.{
  Request, invite, topic, message, me, notice, kick, part, mode, names, whois, text, request,
}

abbrev pub command : Request → Bytes
command (invite _ _) = codes "INVITE"
command (kick _ _ _) = codes "KICK"
command (part _ _) = codes "PART"
command (topic _ _) = codes "TOPIC"
command (message _ _) = codes "PRIVMSG"
command (me _ _) = codes "PRIVMSG"
command (mode _ _ _) = codes "MODE"
command (names _) = codes "NAMES"
command (notice _ _) = codes "NOTICE"
command (whois _) = codes "WHOIS"

-- The arguments that are words.
abbrev pub words : Request → List Bytes
words (invite channel target) = target ∷ channel ∷ []
words (kick channel target _) = channel ∷ target ∷ []
words (part channel _) = channel ∷ []
words (topic channel _) = channel ∷ []
words (message chan _) = chan ∷ []
words (me chan _) = chan ∷ []
words (mode channel modes (some args)) = channel ∷ modes ∷ args ∷ []
words (mode channel modes none) = channel ∷ modes ∷ []
words (names channel) = channel ∷ []
words (notice channel _) = channel ∷ []
words (whois target) = target ∷ []

-- The text at the end, if there is one. An empty reason of a PART is none.
abbrev pub ending : Request → Option Bytes
ending (kick _ _ reason) = reason
ending (part _ (some (c ∷ reason))) = some (c ∷ reason)
ending (topic _ t) = some t
ending (message _ msg) = some msg
ending (me _ msg) = some (1 ∷ (codes "ACTION " ++ (msg ++ 1 ∷ [])))
ending (notice _ msg) = some msg
ending _ = none

-- What a reader of the protocol makes of a line, and of a request.
abbrev pub read_line : Bytes → Option Msg
read_line line = some (parse line)

abbrev pub message_of : Request → Msg
message_of r = record { prefix = none; cmd = command r; args = all_args (words r) (ending r) }

-- A MODE without arguments ends in a space, and is not of this form.
abbrev pub IsPlain : Request → Type 0
IsPlain (mode _ _ none) = ⊥
IsPlain _ = Unit

text-render : (r : Request) → IsPlain r → text r ≡ render none (command r) (words r) (ending r)
unfolding text
text-render (invite channel target) h = rw append-nil
text-render (kick channel target none) h = rw append-nil
text-render (kick channel target (some reason)) h = refl
text-render (part channel none) h = rw append-nil
text-render (part channel (some [])) h = rw append-nil
text-render (part channel (some (c ∷ reason))) h = refl
text-render (topic channel t) h = refl
text-render (message chan msg) h = refl
text-render (me chan msg) h = refl
text-render (mode channel modes none) h = absurd h
text-render (mode channel modes (some args)) h = rw append-nil
text-render (names channel) h = rw append-nil
text-render (notice channel msg) h = refl
text-render (whois target) h = rw append-nil

command-IsWord : (r : Request) → IsWord (command r)
command-IsWord (invite _ _) = omega arith
command-IsWord (kick _ _ _) = omega arith
command-IsWord (part _ _) = omega arith
command-IsWord (topic _ _) = omega arith
command-IsWord (message _ _) = omega arith
command-IsWord (me _ _) = omega arith
command-IsWord (mode _ _ _) = omega arith
command-IsWord (names _) = omega arith
command-IsWord (notice _ _) = omega arith
command-IsWord (whois _) = omega arith

parse-text :
    (r : Request)
    → IsPlain r
    → AllWords (words r)
    → Without 0 (text r)
    → parse (text r) ≡ message_of r
parse-text r h w z =
    let e = text-render r h in
    ap parse e
    ∙ parse-render none (command r) (words r) (ending r) tt (command-IsWord r) w
        (subst (Without 0) e z)

text-nonempty : (r : Request) → 0 < length (text r)
unfolding text
text-nonempty (invite _ _) = omega arith
text-nonempty (kick _ _ none) = omega arith
text-nonempty (kick _ _ (some _)) = omega arith
text-nonempty (part _ none) = omega arith
text-nonempty (part _ (some [])) = omega arith
text-nonempty (part _ (some (c ∷ _))) = omega arith
text-nonempty (topic _ _) = omega arith
text-nonempty (message _ _) = omega arith
text-nonempty (me _ _) = omega arith
text-nonempty (mode _ _ none) = omega arith
text-nonempty (mode _ _ (some _)) = omega arith
text-nonempty (names _) = omega arith
text-nonempty (notice _ _) = omega arith
text-nonempty (whois _) = omega arith

-- A short text is put behind the output whole.
send-whole :
    (s : Server) (line : Bytes)
    → s.ready ≡ true
    → length line < message_len
    → length s.out + length line + 2 < out_size
    → (send s line).out ≡ s.out ++ (line ++ crlf)
unfolding send send_va push
send-whole s line ready short room =
    let whole : take (message_len - 1) line ≡ line = take-all 511 line (omega (arith, short)) in
    let fits : leb (out_size - length s.out) (length line + 2) ≡ false = ground (arith, room) in
    rw (send, ready, whole, fits) refl

sent-append :
    (lines : List Bytes) (line : Bytes) → sent (lines ++ line ∷ []) ≡ sent lines ++ (line ++ crlf)
sent-append [] line = rw append-nil
sent-append (l ∷ lines) line =
    ap (λ (x : Bytes). l ++ (crlf ++ x)) (sent-append lines line)
    ∙ (ap (λ (x : Bytes). l ++ x) (sym (append_assoc crlf (sent lines) (line ++ crlf)))
        ∙ sym (append_assoc l (crlf ++ sent lines) (line ++ crlf)))

AllLines-append :
    (lines : List Bytes) (line : Bytes)
    → AllLines lines
    → IsLine line
    → AllLines (lines ++ line ∷ [])
AllLines-append [] line h k = (k, tt)
AllLines-append (l ∷ lines) line h k = (h.0, AllLines-append lines line h.1 k)

map-last :
    (lines : List Bytes) (line : Bytes)
    → map read_line (lines ++ line ∷ []) ≡ map read_line lines ++ read_line line ∷ []
map-last [] line = refl
map-last (l ∷ lines) line = ap (λ (x : List (Option Msg)). read_line l ∷ x) (map-last lines line)

-- A request that a server makes reaches its peer: when the bytes of the output come to a reader of
-- the protocol that ends lines at CR LF, as irccd does, cut into any pieces, it reads the lines that
-- were in the output before, and then the command of the request with its words and its text at the
-- end, such as `PRIVMSG` with the target and the message. The server is ready and its output is lines; the words are words, and the
-- text has no NUL, no carriage return, less than 512 bytes and room in the output with one byte
-- left. A MODE without arguments is left out.
pub request-received :
    (s : Server) (r : Request) (lines pieces : List Bytes)
    → s.ready ≡ true
    → s.out ≡ sent lines
    → AllLines lines
    → IsPlain r
    → AllWords (words r)
    → Without 0 (text r)
    → Without b'\r' (text r)
    → length (text r) < message_len
    → length s.out + length (text r) + 2 < out_size
    → concat pieces ≡ (request s r).out
    → (produce_all [] none pieces).pushed ≡ map read_line lines ++ some (message_of r) ∷ []
unfolding request
request-received s r lines pieces ready out h plain w z cr short room cut =
    let line = text r in
    let all : concat pieces ≡ sent (lines ++ line ∷ []) =
      cut
      ∙ (send-whole s line ready short room
          ∙ (ap (λ (x : Bytes). x ++ (line ++ crlf)) out ∙ sym (sent-append lines line))) in
    let good = AllLines-append lines line h (text-nonempty r, short, cr) in
    (produce_all-sent (lines ++ line ∷ []) pieces good all).0
    ∙ (map-last lines line
        ∙ ap (λ (m : Msg). map read_line lines ++ some m ∷ []) (parse-text r plain w z))
