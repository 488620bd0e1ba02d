-- ===== src/Conf/Lexer.antt =====
-- irccd/conf.c: the lexer of the configuration, `conf_lex_*`.
--
-- The coroutine yields its tokens to the parser; here they are a list, with how the lexer ends. The
-- parser reads the data of a token before the lexer goes on.
pub mod Layout
use irccd.Base.{
  ℕ, zero, suc, ◌+◌, Bool, not, ◌&&◌, ◌||◌, Option, none, some, List, [], ◌∷◌, ◌==◌, if◌then◌else◌,
  Bytes, is_space,
}

pub data Token : Type 0 where
  blk_begin blk_end comma : Token
  string : Bytes → Token

-- conf->line and conf->column
pub record Pos : Type 0 where
  pub line : ℕ
  pub column : ℕ

-- TOKEN_EOF, `conf_fatal` with "unterminated string", or the failure of the assertion.
pub data Ending : Type 0 where
  eof unterminated : Pos → Ending
  aborted : Ending

-- What one of the functions below leaves: the text it has read, the text at `off`, and the position.
pub record Rest : Type 0 where
  pub read : Bytes
  pub off : Bytes
  pub pos : Pos

abbrev pub at : Bytes → Bytes → Pos → Rest
at read off pos = record { read = read; off = off; pos = pos }

-- `conf_lex_advance` over a byte.
unfoldable pub advance : ℕ → Pos → Pos
advance c p =
    if c == b'\n'
    then record { line = p.line + 1; column = 1 }
    else record p { column = p.column + 1 }

-- The loops that advance while a byte is of a kind.
unfoldable pub advance_while : (ℕ → Bool) → Bytes → Pos → Rest
unfolding advance
advance_while test [] p = at [] [] p
advance_while test (c ∷ s) p =
    let more = advance_while test s (advance c p) in
    if test c then at (c ∷ more.read) more.off more.pos else at [] (c ∷ s) p

-- `conf_lex_bskip`
unfoldable pub bskip : Bytes → Pos → Rest
unfolding advance_while
bskip = advance_while is_space

-- `conf_lex_istoken`
abbrev pub is_token : ℕ → Bool
is_token c = c == b'{' || c == b'}' || c == b',' || c == b'#' || c == b'"'

abbrev pub is_word : ℕ → Bool
is_word c = not (is_space c) && not (is_token c)

-- One round of `conf_lex_entry` at a byte: a token or none, and where it goes on; or the end.
pub data Lexed : Type 0 where
  lexed : Option Token → Bytes → Pos → Lexed
  stopped : Ending → Lexed

-- `conf_lex_yield0` behind a byte.
abbrev pub punct : Token → ℕ → Bytes → Pos → Lexed
punct t c s p = let blank = bskip s (advance c p) in lexed (some t) blank.off blank.pos

-- `conf_lex_comment`
abbrev pub comment : ℕ → Bytes → Pos → Lexed
comment c s p =
    let text = advance_while (λ x. not (x == b'\n')) s (advance c p) in
    let blank = bskip text.off text.pos in lexed none blank.off blank.pos

-- What follows the text of a quoted string.
abbrev pub closed : Rest → Lexed
closed text = elim text.off [
  | [] ↦ stopped (unterminated text.pos)
  | quote ∷ rest ↦
      let blank = bskip rest (record text.pos { column = text.pos.column + 1 }) in
      lexed (some (string text.read)) blank.off blank.pos
]

-- `conf_lex_qstring`, whose first quote does not count as a column.
abbrev pub qstring : Bytes → Pos → Lexed
qstring s p = closed (advance_while (λ x. not (x == b'"')) s p)

-- `conf_lex_string`
abbrev pub plain : Bytes → Pos → Lexed
plain s p =
    let text = advance_while is_word s p in
    let blank = bskip text.off text.pos in lexed (some (string text.read)) blank.off blank.pos

unfoldable pub lex_one : ℕ → Bytes → Pos → Lexed
lex_one c s p =
    if c == b'{'
    then punct blk_begin c s p
    else if c == b'}'
    then punct blk_end c s p
    else if c == b','
    then punct comma c s p
    else if c == b'#'
    then comment c s p
    else if c == b'"'
    then qstring s p
    else if is_space c
    then stopped aborted
    else plain (c ∷ s) p

abbrev pub put : Option Token → List Token × Ending → List Token × Ending
put none more = more
put (some t) more = (t ∷ more.0, more.1)

-- `conf_lex_entry`. Each round takes a byte at least, so the length of the text is fuel enough.
unfoldable pub lex : ℕ → Bytes → Pos → List Token × Ending
lex fuel [] p = ([], eof p)
lex zero (c ∷ s) p = ([], aborted)
lex (suc fuel) (c ∷ s) p = elim (lex_one c s p) [
  | stopped e ↦ ([], e)
  | lexed t off pos ↦ put t (lex fuel off pos)
]
