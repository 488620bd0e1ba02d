-- ===== src/Unicode/RoundTrip/Shapes.antt =====
-- The bytes of an encoding, and their fields, as arithmetic: tables over the values of a byte.
use irccd.Base.{
  ℕ, zero, suc, ◌+◌, ◌-◌, ◌*◌, ◌/◌, ◌%◌, ◌^◌, ◌≤◌, ◌<◌, bit_and, bit_or, ◌≡◌, refl, Bool, true,
  false, ◌&&◌, [], ◌∷◌, arith, leb, ◌==◌, Bytes, bit_and-mod, bit_or-fields, ok, err,
}
use native.Mathlib.Nat.{mod-eq_of_lt}
use irccd.Unicode.{sizeof8, continuation, encoding, decode8}

passes : (ℕ → Bool) → ℕ → Bool
passes test zero = true
passes test (suc top) = passes test top && test top

-- A test that all numbers below a bound pass is passed by each of them.
passes-each : (test : ℕ → Bool) (bound i : ℕ) → i < bound → passes test bound ≡ true → test i ≡ true
unfolding passes
passes-each test zero i below all = absurd (omega (arith, below))
passes-each test (suc top) i below all = ground (arith, passes-each test top i)

-- A lead byte with the field `f` below its marker: its bytes, its field and its size.
is_lead : ℕ → ℕ → ℕ → ℕ → Bool
is_lead marker mask size f =
    bit_or marker f == marker + f
    && bit_and (marker + f) mask == f
    && elim (sizeof8 (marker + f)) [ ok n ↦ n == size | err _ ↦ false ]

is_continuation : ℕ → Bool
is_continuation f = bit_or 0x80 f == 0x80 + f && bit_and (0x80 + f) 0x3f == f

continuation_table : passes is_continuation 64 ≡ true
unfolding passes is_continuation
continuation_table = refl

two_table : passes (is_lead 0xc0 0x1f 2) 32 ≡ true
unfolding passes is_lead sizeof8
two_table = refl

three_table : passes (is_lead 0xe0 0xf 3) 16 ≡ true
unfolding passes is_lead sizeof8
three_table = refl

four_table : passes (is_lead 0xf0 0x7 4) 8 ≡ true
unfolding passes is_lead sizeof8
four_table = refl

-- What the tables say of one field.
pub IsLead : ℕ → ℕ → ℕ → ℕ → Type 0
IsLead marker mask size f =
    (bit_or marker f ≡ marker + f)
    × (bit_and (marker + f) mask ≡ f)
    × (sizeof8 (marker + f) ≡ ok size)

is_lead-IsLead :
    (marker mask size f : ℕ) → is_lead marker mask size f ≡ true → IsLead marker mask size f
unfolding is_lead IsLead
is_lead-IsLead marker mask size f h = ground arith

pub IsLead-two : (f : ℕ) → f < 32 → IsLead 0xc0 0x1f 2 f
IsLead-two f h = is_lead-IsLead _ _ _ f (passes-each _ 32 f h two_table)

pub IsLead-three : (f : ℕ) → f < 16 → IsLead 0xe0 0xf 3 f
IsLead-three f h = is_lead-IsLead _ _ _ f (passes-each _ 16 f h three_table)

pub IsLead-four : (f : ℕ) → f < 8 → IsLead 0xf0 0x7 4 f
IsLead-four f h = is_lead-IsLead _ _ _ f (passes-each _ 8 f h four_table)

pub continuation_field :
    (f : ℕ) → f < 64 → (bit_or 0x80 f ≡ 0x80 + f) × (bit_and (0x80 + f) 0x3f ≡ f)
unfolding is_continuation
continuation_field f h = ground (arith, passes-each is_continuation 64 f h continuation_table)

continuation-sum : (p unit : ℕ) → continuation p unit ≡ 0x80 + p / unit % 64
continuation-sum p unit =
    rw (bit_and-mod 6 (p / unit)) (continuation_field (p / unit % 64) (omega arith)).0

-- A lead field that needs no mask.
lead-sum :
    (marker mask size k f : ℕ)
    → 2 ^ k - 1 ≡ mask
    → f < 2 ^ k
    → IsLead marker mask size f
    → bit_or marker (bit_and f mask) ≡ marker + f
unfolding IsLead
lead-sum marker mask size k f m h l =
    let same : bit_and f mask ≡ f = rw (← m, bit_and-mod k f) (mod-eq_of_lt h) in rw same l.0

-- The bytes of each size, for a code point of that size.
pub encoding_two : (p : ℕ) → p < 0x800 → encoding p 2 ≡ (0xc0 + p / 64) ∷ (0x80 + p % 64) ∷ []
unfolding encoding
encoding_two p h = ground (
  arith,
  lead-sum 0xc0 0x1f 2 5 (p / 64) refl (omega arith) (IsLead-two (p / 64) (omega arith)),
  continuation-sum p 1,
)

pub encoding_three :
    (p : ℕ)
    → p < 0x10000
    → encoding p 3 ≡ (0xe0 + p / 4096) ∷ (0x80 + p / 64 % 64) ∷ (0x80 + p % 64) ∷ []
unfolding encoding
encoding_three p h = ground (
  arith,
  lead-sum 0xe0 0xf 3 4 (p / 4096) refl (omega arith) (IsLead-three (p / 4096) (omega arith)),
  continuation-sum p 64,
  continuation-sum p 1,
)

pub encoding_four :
    (p : ℕ)
    → p < 0x200000
    → encoding p 4
      ≡ (0xf0 + p / 262144) ∷ (0x80 + p / 4096 % 64) ∷ (0x80 + p / 64 % 64) ∷ (0x80 + p % 64) ∷ []
unfolding encoding
encoding_four p h = ground (
  arith,
  lead-sum 0xf0 0x7 4 3 (p / 262144) refl (omega arith) (IsLead-four (p / 262144) (omega arith)),
  continuation-sum p 4096,
  continuation-sum p 64,
  continuation-sum p 1,
)

-- What is decoded from bytes with given fields.
pub decode8_one : (c : ℕ) (rest : Bytes) → c < 128 → decode8 (c ∷ rest) ≡ ok (c, 1)
unfolding decode8
decode8_one c rest h = ground arith

pub decode8_two :
    (f g : ℕ) (rest : Bytes)
    → f < 32
    → g < 64
    → decode8 ((0xc0 + f) ∷ (0x80 + g) ∷ rest) ≡ ok (f * 64 + g, 2)
unfolding decode8 IsLead
decode8_two f g rest p q =
    rw (IsLead-two f p).2
      (ground (arith, (IsLead-two f p).1, (continuation_field g q).1, bit_or-fields 6 f g q))

pub decode8_three :
    (f g h : ℕ) (rest : Bytes)
    → f < 16
    → g < 64
    → h < 64
    → decode8 ((0xe0 + f) ∷ (0x80 + g) ∷ (0x80 + h) ∷ rest) ≡ ok (f * 4096 + g * 64 + h, 3)
unfolding decode8 IsLead
decode8_three f g h rest p q r =
    let inner : f * 4096 + g * 64 ≡ (f * 64 + g) * 64 = omega arith in
    rw (IsLead-three f p).2 (
      ground (
        arith,
        (IsLead-three f p).1,
        (continuation_field g q).1,
        (continuation_field h r).1,
        bit_or-fields 12 f (g * 64) (omega arith),
        rw (← inner) at (bit_or-fields 6 (f * 64 + g) h r),
      ))

-- The two upper fields of four bytes, which the decoder shifts so that they overlap.
abbrev pub overlap : ℕ → ℕ → ℕ
overlap h m = bit_or (h * 2 ^ 16) (m * 2 ^ 12)

is_overlap : ℕ → ℕ → Bool
is_overlap h m = overlap h m % 4096 == 0 && leb (overlap h m) (h * 2 ^ 16 + m * 2 ^ 12)

overlap_table : passes (λ h. passes (is_overlap h) 64) 8 ≡ true
unfolding passes is_overlap
overlap_table = refl

pub overlap_bound :
    (h m : ℕ) → h < 8 → m < 64 → (overlap h m % 4096 ≡ 0) × (overlap h m ≤ h * 2 ^ 16 + m * 2 ^ 12)
unfolding is_overlap
overlap_bound h m p q =
    let row = passes-each (λ (k : ℕ). passes (is_overlap k) 64) 8 h p overlap_table in
    ground (arith, passes-each (is_overlap h) 64 m q row)

pub decode8_four :
    (h m n o : ℕ) (rest : Bytes)
    → h < 8
    → m < 64
    → n < 64
    → o < 64
    → decode8 ((0xf0 + h) ∷ (0x80 + m) ∷ (0x80 + n) ∷ (0x80 + o) ∷ rest)
      ≡ ok (overlap h m + n * 64 + o, 4)
unfolding decode8 IsLead
decode8_four h m n o rest p q r s =
    let x = overlap h m / 4096 in
    let whole : x * 2 ^ 12 ≡ overlap h m = omega (arith, (overlap_bound h m p q).0) in
    let inner : overlap h m + n * 64 ≡ (x * 64 + n) * 2 ^ 6 = omega (arith, whole) in
    rw (IsLead-four h p).2 (
      ground (
        arith,
        (IsLead-four h p).1,
        (continuation_field m q).1,
        (continuation_field n r).1,
        (continuation_field o s).1,
        rw whole at (bit_or-fields 12 x (n * 64) (omega arith)),
        rw (← inner) at (bit_or-fields 6 (x * 64 + n) o s),
      ))
