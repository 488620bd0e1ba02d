-- ===== src/Peer/Rules/Tokens.antt =====
-- The words of a line, as strtok_r cuts them.
use irccd.Base.{
  ℕ, zero, suc, ◌+◌, ◌/◌, ◌%◌, ◌<◌, ◌≡◌, refl, inl, inr, true, false, [], ◌∷◌, ◌++◌, append_assoc,
  append-nil, arith, ◌==◌, Bool-cases, Bytes, is_space,
}
use irccd.Util.Joined.{IsFree}
use irccd.Server.Handlers.{tokens, emit}
use irccd.Peer.Numbers.{skip_spaces, is_digit, print_loop, decimal}
use irccd.Peer.Rules.{skip_word, behind_word}

pub tokens-word :
    (word current rest : Bytes)
    → IsFree b' ' word
    → tokens current (word ++ b' ' ∷ rest) ≡ emit (current ++ word) (tokens [] rest)
unfolding tokens
tokens-word [] current rest h = rw append-nil refl
tokens-word (c ∷ word) current rest h =
    let plain : (c == b' ') ≡ false = ground (arith, h.0) in
    rw (plain, tokens-word word (current ++ c ∷ []) rest h.1) (rw append_assoc refl)

-- All bytes are digits.
abbrev pub AreDigits : Bytes → Type 0
AreDigits [] = Unit
AreDigits (c ∷ s) = (is_digit c ≡ true) × AreDigits s

print_loop-AreDigits :
    (fuel n : ℕ) (after : Bytes) → AreDigits after → n < fuel → AreDigits (print_loop fuel n after)
unfolding print_loop
print_loop-AreDigits zero n after h l = absurd (omega (arith, l))
print_loop-AreDigits (suc fuel) n after h l =
    let ten : n % 10 < 10 = omega arith in
    let digit : is_digit (b'0' + n % 10) ≡ true = ground (arith, ten) in
    elim (Bool-cases (n / 10 == 0)) [
      | inl u ↦ rw u (digit, h)
      | inr u ↦
          let less : n / 10 < fuel = ground (arith, u, l) in
          rw u (print_loop-AreDigits fuel (n / 10) ((b'0' + n % 10) ∷ after) (digit, h) less)
    ]

pub decimal-AreDigits : (n : ℕ) → AreDigits (decimal n)
unfolding decimal
decimal-AreDigits n = print_loop-AreDigits (n + 1) n [] tt (omega arith)

skip_word-digits : (s rest : Bytes) → AreDigits s → skip_word (s ++ b' ' ∷ rest) ≡ b' ' ∷ rest
unfolding skip_word is_space
skip_word-digits [] rest h = refl
skip_word-digits (c ∷ s) rest h =
    let plain : is_space c ≡ false = ground (arith, h.0) in rw plain (skip_word-digits s rest h.1)

-- The text behind a printed number and a space, which is no space at its start.
pub behind_word-decimal :
    (n : ℕ) (rest : Bytes) → skip_spaces rest ≡ rest → behind_word (decimal n ++ b' ' ∷ rest) ≡ rest
unfolding skip_spaces is_space
behind_word-decimal n rest h = rw (skip_word-digits (decimal n) rest (decimal-AreDigits n)) h

pub tokens-last :
    (word current : Bytes) → IsFree b' ' word → tokens current word ≡ emit (current ++ word) []
unfolding tokens
tokens-last [] current h = rw append-nil refl
tokens-last (c ∷ word) current h =
    let plain : (c == b' ') ≡ false = ground (arith, h.0) in
    rw (plain, tokens-last word (current ++ c ∷ []) h.1) (rw append_assoc refl)
