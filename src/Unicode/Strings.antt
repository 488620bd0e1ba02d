-- ===== src/Unicode/Strings.antt =====
-- Whole strings of code points: `uni32_to8`, `uni8_to32` and `uni32_requires`.
use irccd.Base.{
  ℕ, zero, suc, ◌+◌, ◌-◌, ◌≤◌, ◌<◌, ◌≡◌, refl, ap, false, List, [], ◌∷◌, ◌++◌, arith, leb, length,
  drop, length-append, drop-append_self, Bytes, Result, ok, ◌>>=◌, >>=-eq-ok,
}
use irccd.Unicode.{
  sizeof32, encode8, encoding, decode8, to8, to32, requires_loop, requires32, size_max,
}
use irccd.Unicode.RoundTrip.{decode8-encode8}

-- Every code point is below 2 ^ 18.
abbrev pub AllLow : List ℕ → Type 0
AllLow [] = Unit
AllLow (p ∷ src) = (p < 0x40000) × AllLow src

-- A string that was written leaves room for the NUL, and its first sequence was encoded into the
-- whole buffer.
to8-cons :
    (p : ℕ) (src : List ℕ) (n : ℕ) (out : Bytes)
    → to8 (p ∷ src) n ≡ ok out
    → (first : Bytes) × (rest : Bytes) × (encode8 n p ≡ ok first)
      × (to8 src (n - length first) ≡ ok rest)
      × (out ≡ first ++ rest)
unfolding to8
to8-cons p src zero out h = cc
to8-cons p src (suc n) out h =
    let (first, e, k) =
      >>=-eq-ok (encode8 (suc n) p) (λ w. to8 src (suc n - length w) >>= λ r. ok (w ++ r)) h in
    let (rest, t, l) = >>=-eq-ok (to8 src (suc n - length first)) (λ r. ok (first ++ r)) k in
    (first, rest, e, t, ground arith)

to8-nil : (n : ℕ) (out : Bytes) → to8 [] n ≡ ok out → (0 < n) × (out ≡ [])
unfolding to8
to8-nil n out h = ground arith

encode8-length :
    (n p : ℕ) (out : Bytes)
    → encode8 n p ≡ ok out
    → (sizeof32 p ≡ ok (length out)) × (0 < length out) × (length out ≤ n)
unfolding encode8 encoding sizeof32
encode8-length n p out h = ground arith

-- What was written leaves room for the NUL, and its size is what `uni32_requires` computes.
requires_loop-to8 :
    (src : List ℕ) (n total : ℕ) (out : Bytes)
    → total + n < size_max
    → to8 src n ≡ ok out
    → (requires_loop src total ≡ ok (total + length out)) × (length out < n)
unfolding requires_loop
requires_loop-to8 [] n total out b h =
    let (some_room, e) = to8-nil n out h in rw e (ap {B = Result ℕ} ok (omega arith), some_room)
requires_loop-to8 (p ∷ src) n total out b h =
    let (first, rest, e, t, whole) = to8-cons p src n out h in
    let (size, pos, fits) = encode8-length n p first e in
    let ih = requires_loop-to8 src (n - length first) (total + length first) rest (omega arith) t in
    let l : length out ≡ length first + length rest = rw whole (length-append first rest) in
    let small : leb (size_max - total) (length first) ≡ false = ground arith in
    let sum : total + length first + length rest ≡ total + length out = omega arith in
    (rw (size, small, ih.0, sum), omega (arith, ih.1))

to32-step :
    (src : Bytes) (room : ℕ)
    → 0 < length src
    → to32 src (suc room)
      ≡ (decode8 src >>= λ r. to32 (drop r.1 src) room >>= λ rest. ok (r.0 ∷ rest))
unfolding to32
to32-step [] room h = absurd (omega arith)
to32-step (c ∷ src) room h = refl

-- Decoding what was written gives the code points back, when there is room for them and the NUL.
to32-to8_room :
    (src : List ℕ) (n room : ℕ) (out : Bytes)
    → AllLow src
    → to8 src n ≡ ok out
    → length src < room
    → to32 out room ≡ ok src
unfolding to32
to32-to8_room [] n zero out l h r = absurd (omega arith)
to32-to8_room [] n (suc room) out l h r = rw (to8-nil n out h).1
to32-to8_room (p ∷ src) n zero out l h r = absurd (omega arith)
to32-to8_room (p ∷ src) n (suc room) out l h r =
    let (first, rest, e, t, whole) = to8-cons p src n out h in
    let (size, pos, fits) = encode8-length n p first e in
    let ih = to32-to8_room src (n - length first) room rest l.1 t (omega arith) in
    rw (whole, to32-step (first ++ rest) room (omega (arith, length-append first rest)))
      (rw (decode8-encode8 n p rest first l.0 e, drop-append_self first rest, ih))

-- Code points below 2 ^ 18 that were written as UTF-8 are read back, when the second buffer has
-- room for them and the NUL.
pub to32-to8 :
    (src : List ℕ) (n : ℕ) (out : Bytes)
    → AllLow src
    → to8 src n ≡ ok out
    → to32 out (length src + 1) ≡ ok src
to32-to8 src n out l h = to32-to8_room src n (length src + 1) out l h (omega arith)

-- A string that was written to a buffer, whose size is below the largest number of its type,
-- takes the bytes that `uni32_requires` announces, and one more for the NUL fits.
pub requires32-to8 :
    (src : List ℕ) (n : ℕ) (out : Bytes)
    → n < size_max
    → to8 src n ≡ ok out
    → (requires32 src ≡ ok (length out)) × (length out < n)
unfolding requires32
requires32-to8 src n out b h =
    let zero_first : 0 + length out ≡ length out = omega arith in
    rw zero_first at (requires_loop-to8 src n 0 out (omega arith) h)
