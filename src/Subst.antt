-- ===== src/Subst.antt =====
-- lib/irccd/subst.c: the substitution of `#{keyword}`, `${variable}`, `@{attributes}` and `!{command}`.
--
-- The output pointer and the size that is left are one buffer. A `none` is a write behind the four
-- places of `attrs`. What the environment, a shell and `strftime` answer are parameters: `getenv`
-- of a name, the output of a command that could be started, and the date text, which is `none`
-- when `strftime` returns 0.
pub mod Attributes
pub mod Escape
pub mod Bounds
pub mod Fuel
use irccd.Base.{
  ℕ, zero, suc, ◌-◌, Bool, not, ◌||◌, Option, none, some, List, [], ◌∷◌, ◌++◌, ltb, leb, ◌==◌,
  if◌then◌else◌, length, take, Bytes, str_eq, has_flag, einval, enomem, Result, ok, err, ◌>>=◌,
}
use irccd.Util.{strchr}
use irccd.Subst.Attributes.{Buf, scat, ccat, bind, subst_irc_attrs, subst_shell_attrs}

pub record Subst : Type 0 where
  pub flags : ℕ
  pub keywords : List (Bytes × Bytes)
  pub getenv : Bytes → Option Bytes
  pub popen : Bytes → Option Bytes
  pub strftime : ℕ → Bytes → Option Bytes

abbrev pub flag_date : ℕ
flag_date = 1

abbrev pub flag_keywords : ℕ
flag_keywords = 2

abbrev pub flag_env : ℕ
flag_env = 4

abbrev pub flag_shell : ℕ
flag_shell = 8

abbrev pub flag_irc_attrs : ℕ
flag_irc_attrs = 16

abbrev pub flag_shell_attrs : ℕ
flag_shell_attrs = 32

unfoldable pub is_reserved : ℕ → Bool
is_reserved c = c == b'#' || c == b'@' || c == b'$' || c == b'!'

-- scat of a value, if there is one.
abbrev pub scat_found : Buf → Option Bytes → Option (Result Buf)
scat_found b none = some (ok b)
scat_found b (some value) = some (scat b value)

-- The loop over the keywords.
unfoldable pub keyword_loop : List (Bytes × Bytes) → Bytes → Option Bytes
keyword_loop [] key = none
keyword_loop ((k, value) ∷ rest) key = if str_eq k key then some value else keyword_loop rest key

unfoldable pub subst_keyword : Subst → Bytes → Buf → Option (Result Buf)
unfolding keyword_loop
subst_keyword s key b = scat_found b (keyword_loop s.keywords key)

unfoldable pub subst_env : Subst → Bytes → Buf → Option (Result Buf)
subst_env s key b = scat_found b (s.getenv key)

-- Up to the first '\r', or without any up to the first '\n'.
unfoldable pub first_line : Bytes → Bytes
unfolding strchr
first_line text = elim (strchr text 13) [
  | some (before, after) ↦ before
  | none ↦ elim (strchr text 10) [ some (before, after) ↦ before | none ↦ text ]
]

unfoldable pub subst_shell : Subst → Bytes → Buf → Buf
unfolding first_line
subst_shell s key b = elim (s.popen key) [
  | none ↦ b
  | some output ↦
      let line = first_line (take (b.room - 1) output) in
      record { text = b.text ++ line; room = b.room - length line }
]

-- The token verbatim.
unfoldable pub subst_default : ℕ → Bytes → Buf → Result Buf
unfolding scat ccat
subst_default token key b = do t ← ccat b token; u ← ccat t b'{'; v ← scat u key; ccat v b'}'

-- The switch of `substitute` on the token.
unfoldable pub replace : Subst → ℕ → Bytes → Buf → Option (Result Buf)
unfolding subst_irc_attrs subst_shell_attrs subst_keyword subst_env subst_shell subst_default
replace s token key b =
    if token == b'@'
    then (if has_flag s.flags flag_irc_attrs
        then subst_irc_attrs key b
        else if has_flag s.flags flag_shell_attrs
        then subst_shell_attrs key b
        else some (subst_default token key b))
    else if token == b'#'
    then (if has_flag s.flags flag_keywords
        then subst_keyword s key b
        else some (subst_default token key b))
    else if token == b'$'
    then (if has_flag s.flags flag_env then subst_env s key b else some (subst_default token key b))
    else if has_flag s.flags flag_shell
    then some (ok (subst_shell s key b))
    else some (subst_default token key b)

-- `substitute` behind "token{": what is left of the input, and the buffer.
unfoldable pub substitute : Subst → ℕ → Bytes → Buf → Option (Result (Bytes × Buf))
unfolding strchr replace
substitute s token [] b = some (ok ([], b))
substitute s token (c ∷ i) b = elim (strchr (c ∷ i) b'}') [
  | none ↦ some (err einval)
  | some (key, rest) ↦
      if leb 64 (length key)
      then some (err enomem)
      else bind (replace s token key b) (λ filled. some (ok (rest, filled)))
]

-- `irc_subst` behind the date: the loop, whose every round takes a byte of the input at least.
unfoldable pub loop : ℕ → Subst → Bytes → Buf → Option (Result Buf)
unfolding is_reserved substitute ccat
loop fuel s [] b = some (ok b)
loop zero s (c ∷ i) b = some (ok b)
loop (suc fuel) s (c ∷ []) b =
    if b.room == 0 then some (ok b) else bind (some (ccat b c)) (loop fuel s [])
loop (suc fuel) s (c ∷ d ∷ i) b =
    let copied = bind (some (ccat b c)) (loop fuel s (d ∷ i)) in
    let escaped = bind (some (ccat b c)) (loop fuel s i) in
    let constructed = bind (substitute s c i b) (λ r. loop fuel s r.0 r.1) in
    if b.room == 0
    then some (ok b)
    else if not (is_reserved c)
    then copied
    else if d == b'{'
    then constructed
    else if d == c
    then escaped
    else copied

-- The end of `irc_subst`: there must be room for the NUL.
unfoldable pub finish : Buf → Result Bytes
finish b = if ltb b.room 1 then err enomem else ok b.text

-- strftime, if it is wanted.
unfoldable pub dated : Subst → ℕ → Bytes → Result Bytes
dated s outsz i =
    if has_flag s.flags flag_date
    then elim (s.strftime outsz i) [ none ↦ err enomem | some text ↦ ok text ]
    else ok i

-- `irc_subst`: the text that is put in `out`, which is empty after an error.
unfoldable pub irc_subst : Subst → ℕ → Bytes → Option (Result Bytes)
unfolding loop finish dated
irc_subst s zero i = some (ok [])
irc_subst s (suc n) i = bind (some (dated s (suc n) i)) (λ text.
    bind (loop (length text) s text (record { text = []; room = suc n })) (λ b. some (finish b)))
