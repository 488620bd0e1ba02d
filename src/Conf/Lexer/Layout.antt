-- ===== src/Conf/Lexer/Layout.antt =====
-- A configuration is read as its tokens, however they are written and spaced.
use irccd.Base.{
  ℕ, zero, suc, ◌+◌, ◌≤◌, ◌<◌, ◌≡◌, refl, ◌≢◌, Bool, true, false, not, Option, none, some, List, [],
  ◌∷◌, ◌++◌, arith, ◌==◌, length, length-append, Bytes, is_space,
}
use irccd.Conf.Lexer.{
  Token, blk_begin, blk_end, comma, string, Pos, Ending, eof, at, advance, advance_while, bskip,
  is_word, Lexed, lexed, lex_one, put, lex,
}

-- All bytes are of a kind.
abbrev pub Are : (ℕ → Bool) → Bytes → Type 0
Are test [] = Unit
Are test (c ∷ s) = (test c ≡ true) × Are test s

abbrev pub stops : (ℕ → Bool) → Bytes → Bool
stops test [] = true
stops test (c ∷ s) = not (test c)

-- The text that is read is all of the kind, up to a byte that is not.
advance_while-append :
    (test : ℕ → Bool) (s rest : Bytes) (p : Pos)
    → Are test s
    → stops test rest ≡ true
    → (q : Pos) × (advance_while test (s ++ rest) p ≡ at s rest q)
unfolding advance_while
advance_while-append test [] [] p h k = (p, refl)
advance_while-append test [] (c ∷ rest) p h k =
    let off : test c ≡ false = ground (arith, k) in (p, rw (advance_while, off) refl)
advance_while-append test (c ∷ s) rest p h k =
    let (q, e) = advance_while-append test s rest (advance c p) h.1 k in
    (q, rw (advance_while, h.0, e) refl)

bskip-append :
    (s rest : Bytes) (p : Pos)
    → Are is_space s
    → stops is_space rest ≡ true
    → (q : Pos) × (bskip (s ++ rest) p ≡ at s rest q)
unfolding bskip
bskip-append = advance_while-append is_space

pub data Mark : Type 0 where
  open_mark close_mark comma_mark : Mark

-- A piece of a configuration, with the blanks behind it; a comment has its line end too.
pub data Item : Type 0 where
  mark : Mark → Bytes → Item
  quoted word remark : Bytes → Bytes → Item

abbrev pub letter : Mark → ℕ
letter open_mark = b'{'
letter close_mark = b'}'
letter comma_mark = b','

abbrev pub mark_token : Mark → Token
mark_token open_mark = blk_begin
mark_token close_mark = blk_end
mark_token comma_mark = comma

-- The text of the piece with what follows.
abbrev pub written : Item → Bytes → Bytes
written (mark m blank) rest = letter m ∷ (blank ++ rest)
written (quoted s blank) rest = b'"' ∷ (s ++ b'"' ∷ (blank ++ rest))
written (word s blank) rest = s ++ (blank ++ rest)
written (remark s blank) rest = b'#' ∷ (s ++ b'\n' ∷ (blank ++ rest))

abbrev pub text : List Item → Bytes
text [] = []
text (i ∷ items) = written i (text items)

abbrev pub token : Item → Option Token
token (mark m blank) = some (mark_token m)
token (quoted s blank) = some (string s)
token (word s blank) = some (string s)
token (remark s blank) = none

abbrev pub tokens : List Item → List Token
tokens [] = []
tokens (i ∷ items) = elim (token i) [ none ↦ tokens items | some t ↦ t ∷ tokens items ]

abbrev pub is_not : ℕ → ℕ → Bool
is_not c x = not (x == c)

-- A quoted string has no quote, a comment no line end, a word no blank and no mark and it is not
-- empty, and what is behind a piece is blank; a word has a blank behind it.
abbrev pub IsWritten : Item → Type 0
IsWritten (mark m blank) = Are is_space blank
IsWritten (quoted s blank) = Are (is_not b'"') s × Are is_space blank
IsWritten (word s blank) = Are is_word s × (s ≢ []) × (blank ≢ []) × Are is_space blank
IsWritten (remark s blank) = Are (is_not b'\n') s × Are is_space blank

abbrev pub AreWritten : List Item → Type 0
AreWritten [] = Unit
AreWritten (i ∷ items) = IsWritten i × AreWritten items

-- A piece does not begin with a blank.
text-stops : (items : List Item) → AreWritten items → stops is_space (text items) ≡ true
unfolding is_space
text-stops [] h = refl
text-stops (mark open_mark blank ∷ items) h = refl
text-stops (mark close_mark blank ∷ items) h = refl
text-stops (mark comma_mark blank ∷ items) h = refl
text-stops (quoted s blank ∷ items) h = refl
text-stops (remark s blank ∷ items) h = refl
text-stops (word [] blank ∷ items) h = absurd (h.0.1 refl)
text-stops (word (c ∷ s) blank ∷ items) h = ground (arith, h.0.0.0)

-- The first round over the text takes the first piece.
abbrev pub Takes : Lexed → Option Token → Bytes → Type 0
Takes result t rest = (q : Pos) × (result ≡ lexed t rest q)

mark-Takes :
    (m : Mark) (blank rest : Bytes) (p : Pos)
    → Are is_space blank
    → stops is_space rest ≡ true
    → Takes (lex_one (letter m) (blank ++ rest) p) (some (mark_token m)) rest
unfolding lex_one
mark-Takes open_mark blank rest p h k =
    let (q, e) = bskip-append blank rest (advance b'{' p) h k in (q, rw e refl)
mark-Takes close_mark blank rest p h k =
    let (q, e) = bskip-append blank rest (advance b'}' p) h k in (q, rw e refl)
mark-Takes comma_mark blank rest p h k =
    let (q, e) = bskip-append blank rest (advance b',' p) h k in (q, rw e refl)

quoted-Takes :
    (s blank rest : Bytes) (p : Pos)
    → Are (is_not b'"') s
    → Are is_space blank
    → stops is_space rest ≡ true
    → Takes (lex_one b'"' (s ++ b'"' ∷ (blank ++ rest)) p) (some (string s)) rest
unfolding lex_one
quoted-Takes s blank rest p f h k =
    let (q, e) = advance_while-append (is_not b'"') s (b'"' ∷ (blank ++ rest)) p f refl in
    let (r, g) = bskip-append blank rest (record q { column = q.column + 1 }) h k in
    (r, rw (e, g) refl)

remark-Takes :
    (s blank rest : Bytes) (p : Pos)
    → Are (is_not b'\n') s
    → Are is_space blank
    → stops is_space rest ≡ true
    → Takes (lex_one b'#' (s ++ b'\n' ∷ (blank ++ rest)) p) none rest
unfolding lex_one is_space
remark-Takes s blank rest p f h k =
    let (q, e) =
      advance_while-append (is_not b'\n') s (b'\n' ∷ (blank ++ rest)) (advance b'#' p) f refl in
    let (r, g) = bskip-append (b'\n' ∷ blank) rest q (refl, h) k in (r, rw (e, g) refl)

blank-stops :
    (blank rest : Bytes) → blank ≢ [] → Are is_space blank → stops is_word (blank ++ rest) ≡ true
blank-stops [] rest n h = absurd (n refl)
blank-stops (c ∷ blank) rest n h = ground (arith, h.0)

word-Takes :
    (c : ℕ) (s blank rest : Bytes) (p : Pos)
    → Are is_word (c ∷ s)
    → blank ≢ []
    → Are is_space blank
    → stops is_space rest ≡ true
    → Takes (lex_one c (s ++ (blank ++ rest)) p) (some (string (c ∷ s))) rest
unfolding lex_one
word-Takes c s blank rest p f n h k =
    let (q, e) =
      advance_while-append is_word (c ∷ s) (blank ++ rest) p f (blank-stops blank rest n h) in
    let (r, g) = bskip-append blank rest q h k in
    let b1 : (c == b'{') ≡ false = ground (arith, f.0) in
    let b2 : (c == b'}') ≡ false = ground (arith, f.0) in
    let b3 : (c == b',') ≡ false = ground (arith, f.0) in
    let b4 : (c == b'#') ≡ false = ground (arith, f.0) in
    let b5 : (c == b'"') ≡ false = ground (arith, f.0) in
    let b6 : is_space c ≡ false = ground (arith, f.0) in
    (r, rw (b1, b2, b3, b4, b5, b6) (rw (e, g) refl))

item-Takes :
    (i : Item) (rest : Bytes) (p : Pos)
    → IsWritten i
    → stops is_space rest ≡ true
    → (c : ℕ) × (s : Bytes) × (written i rest ≡ c ∷ s) × Takes (lex_one c s p) (token i) rest
item-Takes (mark m blank) rest p h k =
    (letter m, blank ++ rest, refl, mark-Takes m blank rest p h k)
item-Takes (quoted s blank) rest p h k =
    (b'"', s ++ b'"' ∷ (blank ++ rest), refl, quoted-Takes s blank rest p h.0 h.1 k)
item-Takes (remark s blank) rest p h k =
    (b'#', s ++ b'\n' ∷ (blank ++ rest), refl, remark-Takes s blank rest p h.0 h.1 k)
item-Takes (word [] blank) rest p h k = absurd (h.1 refl)
item-Takes (word (c ∷ s) blank) rest p h k =
    (c, s ++ (blank ++ rest), refl, word-Takes c s blank rest p h.0 h.2 h.3 k)

put-tokens :
    (i : Item) (items : List Item) (e : Ending)
    → put (token i) (tokens items, e) ≡ (tokens (i ∷ items), e)
put-tokens (mark m blank) items e = refl
put-tokens (quoted s blank) items e = refl
put-tokens (word s blank) items e = refl
put-tokens (remark s blank) items e = refl

lex-items :
    (items : List Item) (fuel : ℕ) (p : Pos)
    → AreWritten items
    → length items ≤ fuel
    → (q : Pos) × (lex fuel (text items) p ≡ (tokens items, eof q))
unfolding lex
lex-items [] fuel p h l = (p, refl)
lex-items (i ∷ items) zero p h l = absurd (omega (arith, l))
lex-items (i ∷ items) (suc fuel) p h l =
    let (c, s, e, taken) = item-Takes i (text items) p h.0 (text-stops items h.1) in
    let (q, f) = taken in
    let (r, g) = lex-items items fuel q h.1 (omega (arith, l)) in
    (r, rw (e, lex, f, g) (put-tokens i items (eof r)))

written-length : (i : Item) (rest : Bytes) → IsWritten i → length rest < length (written i rest)
written-length (mark m blank) rest h = omega (arith, length-append blank rest)
written-length (quoted s blank) rest h =
    omega (arith, length-append blank rest, length-append s (b'"' ∷ (blank ++ rest)))
written-length (remark s blank) rest h =
    omega (arith, length-append blank rest, length-append s (b'\n' ∷ (blank ++ rest)))
written-length (word [] blank) rest h = absurd (h.1 refl)
written-length (word (c ∷ s) blank) rest h =
    omega (arith, length-append blank rest, length-append s (blank ++ rest))

items-length : (items : List Item) → AreWritten items → length items ≤ length (text items)
items-length [] h = omega arith
items-length (i ∷ items) h =
    omega (arith, items-length items h.1, written-length i (text items) h.0)

-- A configuration that is made of marks, quoted strings, words and comments, each with blanks behind
-- it, is read as its marks and strings in their order, up to its end: the lexer neither stops
-- before, nor runs out of fuel. A quoted string has no quote, a comment no line end, and a word is
-- not empty, has no blank and no mark, and has a blank behind it.
pub lex-tokens :
    (items : List Item) (p : Pos)
    → AreWritten items
    → (q : Pos) × (lex (length (text items)) (text items) p ≡ (tokens items, eof q))
lex-tokens items p h = lex-items items (length (text items)) p h (items-length items h)
