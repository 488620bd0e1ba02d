-- ===== src/Unicode.antt =====
-- irccd/unicode.c: the conversions between UTF-8 and code points.
--
-- A `uint8_t` string is the list of its bytes before the NUL; a read at its end gives the NUL. The
-- `(size_t)-1` of an error is the number left in `errno`.
pub mod Tables
pub mod Search
pub mod Classes
pub mod RoundTrip
pub mod Strings
use irccd.Base.{
  ℕ, zero, suc, ◌+◌, ◌-◌, ◌*◌, ◌/◌, ◌^◌, bit_and, bit_or, Bool, true, false, not, List, [], ◌∷◌,
  ◌++◌, ltb, leb, ◌==◌, if◌then◌else◌, length, drop, Bytes, eilseq, erange, Result, ok, err, ◌>>=◌,
}

-- src[i], and the NUL behind the last byte.
unfoldable pub at : Bytes → ℕ → ℕ
at [] i = 0
at (c ∷ src) zero = c
at (c ∷ src) (suc i) = at src i

unfoldable pub sizeof32 : ℕ → Result ℕ
sizeof32 c =
    if leb c 0x7f
    then ok 1
    else if leb c 0x7ff
    then ok 2
    else if leb c 0xffff
    then ok 3
    else if leb c 0x1fffff
    then ok 4
    else err eilseq

unfoldable pub sizeof8 : ℕ → Result ℕ
sizeof8 c =
    if leb c 127
    then ok 1
    else if bit_and c 0xe0 == 0xc0
    then ok 2
    else if bit_and c 0xf0 == 0xe0
    then ok 3
    else if bit_and c 0xf8 == 0xf0
    then ok 4
    else err eilseq

-- 0x80 | ((point >> shift) & 0x3F), a continuation byte; `unit` is `2 ^ shift`.
abbrev pub continuation : ℕ → ℕ → ℕ
continuation point unit = bit_or 0x80 (bit_and (point / unit) 0x3f)

-- The bytes that `uni8_encode` writes for a size of 1 to 4.
unfoldable pub encoding : ℕ → ℕ → Bytes
encoding point size =
    if size == 1
    then point ∷ []
    else if size == 2
    then bit_or 0xc0 (bit_and (point / 2 ^ 6) 0x1f) ∷ continuation point 1 ∷ []
    else if size == 3
    then bit_or 0xe0 (bit_and (point / 2 ^ 12) 0xf)
      ∷ continuation point (2 ^ 6)
      ∷ continuation point 1
      ∷ []
    else bit_or 0xf0 (bit_and (point / 2 ^ 18) 0x7)
      ∷ continuation point (2 ^ 12)
      ∷ continuation point (2 ^ 6)
      ∷ continuation point 1
      ∷ []

-- `uni8_encode`: the bytes written to a buffer of `dstsz` bytes.
unfoldable pub encode8 : ℕ → ℕ → Result Bytes
unfolding sizeof32 encoding
encode8 dstsz point = do
  size ← sizeof32 point
  if ltb dstsz size then err erange else ok (encoding point size)

-- The code point of a sequence of 1 to 4 bytes, with the shifts of the source.
unfoldable pub decoding : Bytes → ℕ → ℕ
unfolding at
decoding src size =
    if size == 1
    then at src 0
    else if size == 2
    then bit_or (bit_and (at src 0) 0x1f * 2 ^ 6) (bit_and (at src 1) 0x3f)
    else if size == 3
    then bit_or (bit_or (bit_and (at src 0) 0xf * 2 ^ 12) (bit_and (at src 1) 0x3f * 2 ^ 6))
        (bit_and (at src 2) 0x3f)
    else bit_or
        (bit_or (bit_or (bit_and (at src 0) 0x7 * 2 ^ 16) (bit_and (at src 1) 0x3f * 2 ^ 12))
          (bit_and (at src 2) 0x3f * 2 ^ 6))
        (bit_and (at src 3) 0x3f)

-- The tests of the bytes behind the first for a NUL, up to the size.
unfoldable pub is_complete : Bytes → ℕ → Bool
unfolding at
is_complete src size =
    if leb size 1
    then true
    else if at src 1 == 0
    then false
    else if leb size 2
    then true
    else if at src 2 == 0
    then false
    else if leb size 3
    then true
    else not (at src 3 == 0)

-- `uni8_decode`: the code point and the bytes it takes.
unfoldable pub decode8 : Bytes → Result (ℕ × ℕ)
unfolding sizeof8 is_complete decoding
decode8 src = do
  size ← sizeof8 (at src 0)
  if is_complete src size then ok (decoding src size, size) else err eilseq

-- `uni8_length`: the loop over the sequences, `fuel` bounding their number.
unfoldable pub length8_loop : ℕ → Bytes → ℕ → Result ℕ
unfolding sizeof8
length8_loop fuel [] total = ok total
length8_loop zero (c ∷ src) total = ok total
length8_loop (suc fuel) (c ∷ src) total = do
  gap ← sizeof8 c
  length8_loop fuel (drop gap (c ∷ src)) (total + gap)

unfoldable pub length8 : Bytes → Result ℕ
unfolding length8_loop
length8 src = length8_loop (length src) src 0

-- `uni32_length` on a list of code points before the NUL.
unfoldable pub length32 : List ℕ → ℕ
length32 [] = 0
length32 (c ∷ src) = length32 src + 1

abbrev pub size_max : ℕ
size_max = 2 ^ 64 - 1

-- `uni32_requires`: the bytes that the encoding of the code points takes.
unfoldable pub requires_loop : List ℕ → ℕ → Result ℕ
unfolding sizeof32
requires_loop [] total = ok total
requires_loop (c ∷ src) total = do
  gap ← sizeof32 c
  if leb (size_max - total) gap then err erange else requires_loop src (total + gap)

unfoldable pub requires32 : List ℕ → Result ℕ
unfolding requires_loop
requires32 src = requires_loop src 0

-- `uni32_to8`: the bytes written before the NUL, for a buffer of `dstsz` bytes. A full buffer has
-- no room for the NUL.
unfoldable pub to8 : List ℕ → ℕ → Result Bytes
unfolding encode8
to8 [] dstsz = if dstsz == 0 then err erange else ok []
to8 (c ∷ src) zero = err erange
to8 (c ∷ src) (suc n) = do
  written ← encode8 (suc n) c
  rest ← to8 src (suc n - length written)
  ok (written ++ rest)

-- `uni8_to32`: the code points written before the NUL. The recursion is on the room left, which
-- each round makes smaller by one.
unfoldable pub to32 : Bytes → ℕ → Result (List ℕ)
unfolding decode8
to32 src zero = err erange
to32 [] (suc room) = ok []
to32 (c ∷ src) (suc room) = do
  r ← decode8 (c ∷ src)
  rest ← to32 (drop r.1 (c ∷ src)) room
  ok (r.0 ∷ rest)
