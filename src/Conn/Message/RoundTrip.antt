-- ===== src/Conn/Message/RoundTrip.antt =====
-- A message that is written by the grammar of the protocol is parsed back.
use irccd.Base.{
  ℕ, zero, suc, ◌≤◌, ◌≡◌, refl, ◌≢◌, true, false, Option, none, some, List, [], ◌∷◌, ◌++◌,
  append-nil, arith, ◌==◌, length, drop, length-append, length-drop, Bytes, codes,
}
use irccd.Conn.Message.{
  strndup, scan, args_loop, parse_command, parse_text, parse, is_ctcp, cut, ctcp, last_is,
}

-- The byte is nowhere in the text.
abbrev pub Without : ℕ → Bytes → Type 0
Without x [] = Unit
Without x (c ∷ s) = (c ≢ x) × Without x s

-- A word: not empty, with no space, and no colon in front.
abbrev pub IsWord : Bytes → Type 0
IsWord [] = ⊥
IsWord (c ∷ s) = (c ≢ b':') × Without b' ' (c ∷ s)

abbrev pub AllWords : List Bytes → Type 0
AllWords [] = Unit
AllWords (w ∷ ws) = IsWord w × AllWords ws

-- The arguments and the trailing one, each behind a space.
abbrev pub spaced : List Bytes → Option Bytes → Bytes
spaced [] none = []
spaced [] (some trailing) = b' ' ∷ b':' ∷ trailing
spaced (a ∷ args) trailing = b' ' ∷ (a ++ spaced args trailing)

abbrev pub all_args : List Bytes → Option Bytes → List Bytes
all_args args none = args
all_args args (some trailing) = args ++ trailing ∷ []

abbrev pub render : Option Bytes → Bytes → List Bytes → Option Bytes → Bytes
render none cmd args trailing = cmd ++ spaced args trailing
render (some prefix) cmd args trailing = b':' ∷ (prefix ++ b' ' ∷ (cmd ++ spaced args trailing))

all_args-cons :
    (a : Bytes) (args : List Bytes) (t : Option Bytes) → a ∷ all_args args t ≡ all_args (a ∷ args) t
all_args-cons a args none = refl
all_args-cons a args (some t) = refl

scan_space : (w rest : Bytes) → Without b' ' w → scan (w ++ b' ' ∷ rest) ≡ (w, rest)
unfolding scan
scan_space [] rest h = refl
scan_space (c ∷ w) rest h = ground (arith, scan_space w rest h.1)

scan_end : (w : Bytes) → Without b' ' w → scan w ≡ (w, [])
unfolding scan
scan_end [] h = refl
scan_end (c ∷ w) h = ground (arith, scan_end w h.1)

-- A word is scanned up to the space before the next argument, or to the end.
scan_word :
    (w : Bytes) (args : List Bytes) (trailing : Option Bytes)
    → Without b' ' w
    → scan (w ++ spaced args trailing) ≡ (w, drop 1 (spaced args trailing))
scan_word w [] none h = rw append-nil (scan_end w h)
scan_word w [] (some t) h = scan_space w (b':' ∷ t) h
scan_word w (a ∷ args) t h = scan_space w (a ++ spaced args t) h

args_loop-word :
    (fuel c : ℕ) (ptr : Bytes)
    → c ≢ b':'
    → args_loop (suc fuel) (c ∷ ptr) ≡ (scan (c ∷ ptr)).0 ∷ args_loop fuel (scan (c ∷ ptr)).1
unfolding args_loop
args_loop-word fuel c ptr h = let other : (c == b':') ≡ false = ground arith in rw other

length-drop-spaced :
    (args : List Bytes) (t : Option Bytes)
    → length (drop 1 (spaced args t)) ≤ length (spaced args t)
length-drop-spaced args t = omega (arith, length-drop 1 (spaced args t))

args_loop-spaced :
    (fuel : ℕ) (args : List Bytes) (trailing : Option Bytes)
    → AllWords args
    → length (drop 1 (spaced args trailing)) ≤ fuel
    → args_loop fuel (drop 1 (spaced args trailing)) ≡ all_args args trailing
unfolding args_loop
args_loop-spaced fuel [] none w h = refl
args_loop-spaced zero [] (some t) w h = absurd (omega arith)
args_loop-spaced (suc fuel) [] (some t) w h = refl
args_loop-spaced fuel ([] ∷ args) t w h = absurd w.0
args_loop-spaced zero ((c ∷ a) ∷ args) t w h = absurd (omega arith)
args_loop-spaced (suc fuel) ((c ∷ a) ∷ args) t w h =
    let fits : length (drop 1 (spaced args t)) ≤ fuel =
      omega (arith, length-append a (spaced args t), length-drop-spaced args t) in
    rw
      (
        args_loop-word fuel c (a ++ spaced args t) w.0.0,
        scan_word (c ∷ a) args t w.0.1,
        args_loop-spaced fuel args t w.1 fits,
      )
      (all_args-cons (c ∷ a) args t)

parse_command-render :
    (prefix : Option Bytes) (cmd : Bytes) (args : List Bytes) (t : Option Bytes)
    → Without b' ' cmd
    → AllWords args
    → parse_command prefix (cmd ++ spaced args t)
      ≡ record { prefix = prefix; cmd = cmd; args = all_args args t }
unfolding parse_command
parse_command-render prefix cmd args t c w =
    rw (scan_word cmd args t c)
      (rw (args_loop-spaced (length (drop 1 (spaced args t))) args t w (omega arith)))

-- The prefix has no space.
abbrev pub IsPrefix : Option Bytes → Type 0
IsPrefix none = Unit
IsPrefix (some p) = Without b' ' p

parse_text-render :
    (prefix : Option Bytes) (cmd : Bytes) (args : List Bytes) (t : Option Bytes)
    → IsPrefix prefix
    → IsWord cmd
    → AllWords args
    → parse_text (render prefix cmd args t)
      ≡ record { prefix = prefix; cmd = cmd; args = all_args args t }
unfolding parse_text
parse_text-render none [] args t p c w = absurd c
parse_text-render none (x ∷ cmd) args t p c w =
    let other : (x == b':') ≡ false = ground (arith, c.0) in
    rw other (parse_command-render none (x ∷ cmd) args t c.1 w)
parse_text-render (some p) [] args t s c w = absurd c
parse_text-render (some p) (x ∷ cmd) args t s c w =
    rw (scan_space p ((x ∷ cmd) ++ spaced args t) s)
      (parse_command-render (some p) (x ∷ cmd) args t c.1 w)

-- What the copy of a line keeps when it has no NUL.
strndup-Without : (line : Bytes) → Without 0 line → strndup line ≡ line
unfolding strndup
strndup-Without [] h = refl
strndup-Without (c ∷ line) h = ground (arith, strndup-Without line h.1)

-- A message that is rendered with an optional prefix, a command, words and an optional trailing
-- argument is parsed back field by field. The prefix has no space, the command and the words are
-- not empty, have no space and do not begin with a colon, and nothing has a NUL.
pub parse-render :
    (prefix : Option Bytes) (cmd : Bytes) (args : List Bytes) (t : Option Bytes)
    → IsPrefix prefix
    → IsWord cmd
    → AllWords args
    → Without 0 (render prefix cmd args t)
    → parse (render prefix cmd args t)
      ≡ record { prefix = prefix; cmd = cmd; args = all_args args t }
unfolding parse
parse-render prefix cmd args t p c w z =
    rw (strndup-Without (render prefix cmd args t) z) (parse_text-render prefix cmd args t p c w)

Without-append : (x : ℕ) (a b : Bytes) → Without x a → Without x b → Without x (a ++ b)
Without-append x [] b p q = q
Without-append x (c ∷ a) b p q = (p.0, Without-append x a b p.1 q)

cut-Without : (body rest : Bytes) → Without 1 body → cut (body ++ 1 ∷ rest) ≡ body
unfolding cut
cut-Without [] rest h = refl
cut-Without (c ∷ body) rest h = ground (arith, cut-Without body rest h.1)

last_is-append : (x : ℕ) (s : Bytes) → last_is x (s ++ x ∷ []) ≡ true
last_is-append x [] = ground arith
last_is-append x (c ∷ []) = ground arith
last_is-append x (c ∷ d ∷ s) = last_is-append x (d ∷ s)

-- A text between two 0x01 is a CTCP message.
pub is_ctcp-quoted : (body : Bytes) → is_ctcp (1 ∷ (body ++ 1 ∷ [])) ≡ true
unfolding is_ctcp
is_ctcp-quoted [] = refl
is_ctcp-quoted (c ∷ body) = last_is-append 1 (c ∷ body)

-- The text of an ACTION comes back without its quotes and its tag.
pub ctcp-action :
    (body : Bytes)
    → Without 1 body
    → (is_ctcp (1 ∷ (codes "ACTION " ++ (body ++ 1 ∷ []))) ≡ true)
      × (ctcp (1 ∷ (codes "ACTION " ++ (body ++ 1 ∷ []))) ≡ body)
unfolding ctcp
ctcp-action body h =
    let tagged : Without 1 (codes "ACTION " ++ body) =
      Without-append 1 (codes "ACTION ") body (omega arith) h in
    (is_ctcp-quoted (codes "ACTION " ++ body), rw (cut-Without (codes "ACTION " ++ body) [] tagged))
