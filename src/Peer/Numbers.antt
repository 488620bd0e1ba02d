-- ===== src/Peer/Numbers.antt =====
-- The numbers that the commands of irccd/peer.c read and print: `irc_util_stoi` of lib/irccd/util.c,
-- which is strtonum over the whole range of a long long, and the directive %zu.
--
-- A long long is its word of 64 bits: -1 is 2 ^ 64 - 1.
pub mod Printed
use irccd.Base.{
  ℕ, zero, suc, ◌+◌, ◌-◌, ◌*◌, ◌/◌, ◌%◌, ◌^◌, Bool, true, false, not, ◌&&◌, Option, none, some, [],
  ◌∷◌, leb, ◌==◌, if◌then◌else◌, Bytes, is_space, einval, erange, Result, ok, err,
}

abbrev pub is_digit : ℕ → Bool
is_digit c = leb b'0' c && leb c b'9'

-- The value of the digits at the start, after `n`, and the text behind them.
unfoldable pub digits : ℕ → Bytes → ℕ × Bytes
digits n [] = (n, [])
digits n (c ∷ s) =
    let more = digits (10 * n + (c - b'0')) s in if is_digit c then more else (n, c ∷ s)

unfoldable pub skip_spaces : Bytes → Bytes
unfolding is_space
skip_spaces [] = []
skip_spaces (c ∷ s) = let rest = skip_spaces s in if is_space c then rest else c ∷ s

-- A sign, if there is one: whether it is a minus, and the text behind it.
unfoldable pub sign : Bytes → Bool × Bytes
sign [] = (false, [])
sign (c ∷ s) = if c == b'-' then (true, s) else (false, if c == b'+' then s else c ∷ s)

abbrev pub starts_digit : Bytes → Bool
starts_digit [] = false
starts_digit (c ∷ s) = is_digit c

-- The number of strtoull at the start, its sign, and the text behind; none without a digit.
unfoldable pub scan : Bytes → Option (Bool × ℕ × Bytes)
unfolding skip_spaces sign digits
scan s =
    let signed = sign (skip_spaces s) in
    let read = digits 0 signed.1 in
    if starts_digit signed.1 then some (signed.0, read.0, read.1) else none

-- sscanf with %zu: the number is that of the largest word when it is too large, and one with a
-- minus is negated in the word.
unfoldable pub scan_size : Bytes → Option ℕ
unfolding scan
scan_size s = elim (scan s) [
  | none ↦ none
  | some (minus, n, rest) ↦
      some (if leb (2 ^ 64) n then 2 ^ 64 - 1 else if minus then (2 ^ 64 - n) % 2 ^ 64 else n)
]

abbrev pub is_negative : ℕ → Bool
is_negative word = leb (2 ^ 63) word

abbrev pub is_empty : Bytes → Bool
is_empty [] = true
is_empty (c ∷ s) = false

-- `irc_util_stoi`
unfoldable pub stoi : Bytes → Result ℕ
unfolding scan
stoi s = elim (scan s) [
  | none ↦ err einval
  | some (minus, n, rest) ↦
      if not (is_empty rest)
      then err einval
      else if leb n (if minus then 2 ^ 63 else 2 ^ 63 - 1)
      then ok (if minus then (2 ^ 64 - n) % 2 ^ 64 else n)
      else err erange
]

-- %zu: the digits in front of `after`.
unfoldable pub print_loop : ℕ → ℕ → Bytes → Bytes
print_loop zero n after = after
print_loop (suc fuel) n after =
    let rest = print_loop fuel (n / 10) ((b'0' + n % 10) ∷ after) in
    if n / 10 == 0 then (b'0' + n % 10) ∷ after else rest

unfoldable pub decimal : ℕ → Bytes
unfolding print_loop
decimal n = print_loop (n + 1) n []
