-- ===== src/Unicode/RoundTrip.antt =====
-- Encoding and decoding undo one another, below 2 ^ 18.
pub mod Shapes
use irccd.Base.{
  ℕ, ◌+◌, ◌*◌, ◌/◌, ◌%◌, ◌^◌, ◌≤◌, ◌<◌, ◌≡◌, ◌⊎◌, inl, inr, ◌++◌, arith, ltb, if◌then◌else◌, length,
  Bytes, bit_or-fields, erange, ok, err, >>=-eq-ok,
}
use irccd.Unicode.{sizeof32, encoding, encode8, decode8}
use irccd.Unicode.RoundTrip.Shapes.{
  overlap, overlap_bound, encoding_two, encoding_three, encoding_four, decode8_one, decode8_two,
  decode8_three, decode8_four,
}

-- An encoding that was written has the size of its code point, which fits the buffer.
encode8-ok :
    (n p : ℕ) {out : Bytes}
    → encode8 n p ≡ ok out
    → (size : ℕ) × (sizeof32 p ≡ ok size) × (size ≤ n) × (out ≡ encoding p size)
unfolding encode8
encode8-ok n p h =
    let (size, s, w) =
      >>=-eq-ok (sizeof32 p) (λ z. if ltb n z then err erange else ok (encoding p z)) h in
    (size, s, ground arith, ground arith)

-- The sizes by ranges.
sizeof32-cases :
    (p size : ℕ)
    → sizeof32 p ≡ ok size
    → ((p < 0x80) × (size ≡ 1))
      ⊎ ((p < 0x800) × (size ≡ 2))
      ⊎ ((p < 0x10000) × (size ≡ 3))
      ⊎ ((0x10000 ≤ p) × (p < 0x200000) × (size ≡ 4))
unfolding sizeof32
sizeof32-cases p size h = ground arith

decode8-encoding_two :
    (p : ℕ) (rest : Bytes) → p < 0x800 → decode8 (encoding p 2 ++ rest) ≡ ok (p, 2)
decode8-encoding_two p rest h =
    let e : p / 64 * 64 + p % 64 ≡ p = omega arith in
    rw (encoding_two p h, decode8_two (p / 64) (p % 64) rest (omega arith) (omega arith), e)

decode8-encoding_three :
    (p : ℕ) (rest : Bytes) → p < 0x10000 → decode8 (encoding p 3 ++ rest) ≡ ok (p, 3)
decode8-encoding_three p rest h =
    let e : p / 4096 * 4096 + p / 64 % 64 * 64 + p % 64 ≡ p = omega arith in
    let d =
      decode8_three (p / 4096) (p / 64 % 64) (p % 64) rest (omega arith) (omega arith)
        (omega arith) in
    rw (encoding_three p h, d, e)

-- Four bytes are decoded with the two upper fields overlapping.
decode8-encoding_four :
    (p : ℕ) (rest : Bytes)
    → p < 0x200000
    → decode8 (encoding p 4 ++ rest)
      ≡ ok (overlap (p / 262144) (p / 4096 % 64) + p / 64 % 64 * 64 + p % 64, 4)
decode8-encoding_four p rest h = rw (encoding_four p h) (
    decode8_four (p / 262144) (p / 4096 % 64) (p / 64 % 64) (p % 64) rest (omega arith)
      (omega arith) (omega arith) (omega arith))

overlap_zero : (m : ℕ) → m < 64 → overlap 0 m ≡ m * 2 ^ 12
overlap_zero m h = omega (arith, bit_or-fields 18 0 (m * 2 ^ 12) (omega arith))

-- A code point below 2 ^ 18 that was encoded is decoded again from the bytes written, whatever
-- follows them, and the decoder takes exactly those bytes.
pub decode8-encode8 :
    (n p : ℕ) (rest out : Bytes)
    → p < 0x40000
    → encode8 n p ≡ ok out
    → decode8 (out ++ rest) ≡ ok (p, length out)
decode8-encode8 n p rest out h e =
    let (size, s, fits, written) = encode8-ok n p e in
    rw written (sized size (sizeof32-cases p size s))
  where
    sized :
        (size : ℕ)
        → ((p < 0x80) × (size ≡ 1))
          ⊎ ((p < 0x800) × (size ≡ 2))
          ⊎ ((p < 0x10000) × (size ≡ 3))
          ⊎ ((0x10000 ≤ p) × (p < 0x200000) × (size ≡ 4))
        → decode8 (encoding p size ++ rest) ≡ ok (p, length (encoding p size))
    sized size (inl (a, b)) = rw b (unfold encoding in decode8_one p rest a)
    sized size (inr (inl (a, b))) = rw (b, decode8-encoding_two p rest a, encoding_two p a)
    sized size (inr (inr (inl (a, b)))) =
        rw (b, decode8-encoding_three p rest a, encoding_three p a)
    sized size (inr (inr (inr (l, a, b)))) =
        let zero_top : p / 262144 ≡ 0 = omega arith in
        let same : p / 4096 % 64 * 2 ^ 12 + p / 64 % 64 * 64 + p % 64 ≡ p = omega arith in
        rw (b, decode8-encoding_four p rest a, encoding_four p a, zero_top)
          (rw (overlap_zero (p / 4096 % 64) (omega arith)) (ground (arith, same)))

-- A code point from 2 ^ 18 on that was encoded is decoded as a smaller one.
decode8-encode8_high :
    (n p : ℕ) (rest out : Bytes)
    → 0x40000 ≤ p
    → encode8 n p ≡ ok out
    → (q : ℕ) × (decode8 (out ++ rest) ≡ ok (q, 4)) × (q < p)
decode8-encode8_high n p rest out h e =
    let (size, s, fits, written) = encode8-ok n p e in
    let range : (p < 0x200000) × (size ≡ 4) = ground (arith, sizeof32-cases p size s) in
    let bound = overlap_bound (p / 262144) (p / 4096 % 64) (omega arith) (omega arith) in
    (
      overlap (p / 262144) (p / 4096 % 64) + p / 64 % 64 * 64 + p % 64,
      rw (written, range.1) (decode8-encoding_four p rest range.0),
      omega (arith, bound.1),
    )
