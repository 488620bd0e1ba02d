-- ===== src/Base/Bits.antt =====
-- Flag words, and the laws of `&` and `|` on fields of bits.
use Prim.Native.Nat.{
  bit_and-bitwise, bit_or-bitwise, digits, max, min, ◌^◌, ◌-◌, ◌<◌, ◌≤◌, ◌%◌, ◌/◌, ◌*◌, ◌+◌, suc,
  zero, ℕ, bit_or, bit_and,
}
use native.Mathlib.Nat.{pow-suc}
use native.Mathlib.Omega.{arith}
use mathlib.Core.Path.{◌≡◌, refl, ap}
use mathlib.Core.Bool.{Bool, not}
use irccd.Base.Tests.{◌==◌}

-- (flags & mask) != 0
abbrev pub has_flag : ℕ → ℕ → Bool
has_flag flags mask = not (bit_and flags mask == 0)

module _ (last : ℕ → ℕ) (op : ℕ → ℕ → ℕ) where
  -- Two fuels that both cover the first number give the same digits.
  enough_fuel : (f g x y : ℕ) → x ≤ f → x ≤ g → digits last op f x y ≡ digits last op g x y
  enough_fuel zero zero x y p q = refl
  enough_fuel (suc f) (suc g) (suc x) y p q =
      ap (λ (higher : ℕ). higher * 2 + op (suc x % 2) (y % 2))
        (enough_fuel f g (suc x / 2) (y / 2) (omega arith) (omega arith))
  enough_fuel zero (suc g) zero y p q = refl
  enough_fuel (suc f) zero zero y p q = refl
  enough_fuel (suc f) (suc g) zero y p q = refl
  enough_fuel f g x y p q = absurd (omega arith)

-- The lowest binary digit of a conjunction and of a disjunction.
and_digit : (x y : ℕ) → bit_and x y ≡ min (x % 2) (y % 2) + 2 * bit_and (x / 2) (y / 2)
and_digit zero y = rw bit_and-bitwise (rw bit_and-bitwise (omega arith))
and_digit (suc x) y =
    let half = suc x / 2 in
    let fuels = enough_fuel (λ _. 0) min x half half (y / 2) (omega arith) (omega arith) in
    omega (arith, fuels, bit_and-bitwise half (y / 2), bit_and-bitwise (suc x) y)

or_digit : (x y : ℕ) → bit_or x y ≡ max (x % 2) (y % 2) + 2 * bit_or (x / 2) (y / 2)
or_digit zero y = rw bit_or-bitwise (rw bit_or-bitwise (omega arith))
or_digit (suc x) y =
    let half = suc x / 2 in
    let fuels = enough_fuel (λ d. d) max x half half (y / 2) (omega arith) (omega arith) in
    omega (arith, fuels, bit_or-bitwise half (y / 2), bit_or-bitwise (suc x) y)

-- Laws by halving, for numbers up to `n`.
and_zero_upto : (n a : ℕ) → a ≤ n → bit_and a 0 ≡ 0
and_zero_upto zero a h = let e : a ≡ 0 = omega arith in rw e
and_zero_upto (suc n) a h = omega (arith, and_digit a 0, and_zero_upto n (a / 2) (omega arith))

or_zero_upto : (n a : ℕ) → a ≤ n → bit_or a 0 ≡ a
or_zero_upto zero a h = let e : a ≡ 0 = omega arith in rw e
or_zero_upto (suc n) a h = omega (arith, or_digit a 0, or_zero_upto n (a / 2) (omega arith))

or_comm_upto : (n a b : ℕ) → a ≤ n → b ≤ n → bit_or a b ≡ bit_or b a
or_comm_upto zero a b p q = let x : a ≡ 0 = omega arith in let y : b ≡ 0 = omega arith in rw (x, y)
or_comm_upto (suc n) a b p q =
    omega (
      arith,
      or_digit a b,
      or_digit b a,
      or_comm_upto n (a / 2) (b / 2) (omega arith) (omega arith),
    )

pub bit_or_comm : (a b : ℕ) → bit_or a b ≡ bit_or b a
bit_or_comm a b = or_comm_upto (max a b) a b (omega arith) (omega arith)

pub one-le-pow : (k : ℕ) → 1 ≤ 2 ^ k
one-le-pow zero = omega arith
one-le-pow (suc k) = omega (arith, pow-suc 2 k, one-le-pow k)

-- Halving a number that ends in `suc k` bits below a field.
half_fields : (k q r : ℕ) → (q * 2 ^ suc k + r) / 2 ≡ q * 2 ^ k + r / 2
half_fields k q r = omega (arith, ap (λ (t : ℕ). q * t) (pow-suc 2 k))

half_mask : (k : ℕ) → (2 ^ suc k - 1) / 2 ≡ 2 ^ k - 1
half_mask k = omega (arith, pow-suc 2 k, one-le-pow k)

-- `&` with the `k` low bits keeps the field below them.
pub bit_and-fields : (k q r : ℕ) → r < 2 ^ k → bit_and (q * 2 ^ k + r) (2 ^ k - 1) ≡ r
bit_and-fields zero q r h =
    omega (arith, and_zero_upto (q * 2 ^ 0 + r) (q * 2 ^ 0 + r) (omega arith))
bit_and-fields (suc k) q r h =
    let top = ap (λ (t : ℕ). q * t) (pow-suc 2 k) in
    rw (and_digit (q * 2 ^ suc k + r) (2 ^ suc k - 1), half_fields, half_mask)
      (rw (bit_and-fields k q (r / 2) (omega (arith, pow-suc 2 k)))
        (omega (arith, top, pow-suc 2 k, one-le-pow k)))

-- `&` with the `k` low bits is the remainder.
pub bit_and-mod : (k x : ℕ) → bit_and x (2 ^ k - 1) ≡ x % 2 ^ k
bit_and-mod k x =
    let parts : x / 2 ^ k * 2 ^ k + x % 2 ^ k ≡ x = grind arith in
    rw parts at (bit_and-fields k (x / 2 ^ k) (x % 2 ^ k) (grind (arith, one-le-pow k)))

-- `|` of a shifted field and a field below it is their sum.
pub bit_or-fields : (k q r : ℕ) → r < 2 ^ k → bit_or (q * 2 ^ k) r ≡ q * 2 ^ k + r
bit_or-fields zero q r h =
    let e : r ≡ 0 = omega arith in rw e (omega (arith, or_zero_upto (q * 2 ^ 0) (q * 2 ^ 0)))
bit_or-fields (suc k) q r h =
    let top = ap (λ (t : ℕ). q * t) (pow-suc 2 k) in
    let half : q * 2 ^ suc k / 2 ≡ q * 2 ^ k = omega (arith, top) in
    rw (or_digit (q * 2 ^ suc k) r, half)
      (rw (bit_or-fields k q (r / 2) (omega (arith, pow-suc 2 k))) (omega (arith, top)))

-- `|` with a single bit above a number adds it.
pub bit_or-bit : (k r : ℕ) → r < 2 ^ k → bit_or r (2 ^ k) ≡ r + 2 ^ k
bit_or-bit k r h =
    let one : 1 * 2 ^ k ≡ 2 ^ k = omega arith in
    omega (arith, bit_or_comm r (2 ^ k), rw one at (bit_or-fields k 1 r h))
