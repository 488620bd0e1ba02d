-- ===== src/Peer/Numbers/Printed.antt =====
-- A printed number is read back.
use irccd.Base.{
  ℕ, zero, suc, ◌+◌, ◌*◌, ◌/◌, ◌%◌, ◌^◌, ◌<◌, ◌≡◌, refl, ap, ◌∙◌, subst, inl, inr, true, false,
  some, [], ◌∷◌, ◌++◌, append-nil, arith, ◌==◌, Bool-cases, Bytes, is_space, ok,
}
use irccd.Peer.Numbers.{
  is_digit, digits, skip_spaces, sign, starts_digit, scan, scan_size, stoi, print_loop, decimal,
}

digits-step :
    (m n : ℕ) (after : Bytes) → digits m ((b'0' + n % 10) ∷ after) ≡ digits (10 * m + n % 10) after
unfolding digits
digits-step m n after =
    let ten : n % 10 < 10 = omega arith in
    let digit : is_digit (b'0' + n % 10) ≡ true = ground (arith, ten) in
    rw digit (ap (λ (k : ℕ). digits k after) (omega arith))

digits-print_loop :
    (fuel n : ℕ) (after : Bytes) → n < fuel → digits 0 (print_loop fuel n after) ≡ digits n after
unfolding print_loop
digits-print_loop zero n after h = absurd (omega (arith, h))
digits-print_loop (suc fuel) n after h = elim (Bool-cases (n / 10 == 0)) [
  | inl u ↦
      let small : 10 * 0 + n % 10 ≡ n = ground (arith, u) in
      rw u (digits-step 0 n after ∙ ap (λ (k : ℕ). digits k after) small)
  | inr u ↦
      let less : n / 10 < fuel = ground (arith, u, h) in
      let whole : 10 * (n / 10) + n % 10 ≡ n = omega arith in
      rw u (
        digits-print_loop fuel (n / 10) ((b'0' + n % 10) ∷ after) less
        ∙ digits-step (n / 10) n after
        ∙ ap (λ (k : ℕ). digits k after) whole)
]

starts_digit-print_loop :
    (fuel n : ℕ) (after : Bytes) → n < fuel → starts_digit (print_loop fuel n after) ≡ true
unfolding print_loop
starts_digit-print_loop zero n after h = absurd (omega (arith, h))
starts_digit-print_loop (suc fuel) n after h =
    let ten : n % 10 < 10 = omega arith in
    let digit : is_digit (b'0' + n % 10) ≡ true = ground (arith, ten) in
    elim (Bool-cases (n / 10 == 0)) [
      | inl u ↦ rw u digit
      | inr u ↦
          let less : n / 10 < fuel = ground (arith, u, h) in
          rw u (starts_digit-print_loop fuel (n / 10) ((b'0' + n % 10) ∷ after) less)
    ]

-- Digits are neither spaces nor signs.
pub skip_spaces-digits : (s : Bytes) → starts_digit s ≡ true → skip_spaces s ≡ s
unfolding skip_spaces is_space
skip_spaces-digits [] h = refl
skip_spaces-digits (c ∷ s) h = let plain : is_space c ≡ false = ground (arith, h) in rw plain refl

sign-digits : (s : Bytes) → starts_digit s ≡ true → sign s ≡ (false, s)
unfolding sign
sign-digits [] h = refl
sign-digits (c ∷ s) h =
    let minus : (c == b'-') ≡ false = ground (arith, h) in
    let plus : (c == b'+') ≡ false = ground (arith, h) in rw (minus, plus) refl

scan-digits :
    (s : Bytes) → starts_digit s ≡ true → scan s ≡ some (false, (digits 0 s).0, (digits 0 s).1)
unfolding scan
scan-digits s h = rw (scan, skip_spaces-digits s h, sign-digits s h, h) refl

print_loop-append :
    (fuel n : ℕ) (after rest : Bytes)
    → n < fuel
    → print_loop fuel n after ++ rest ≡ print_loop fuel n (after ++ rest)
unfolding print_loop
print_loop-append zero n after rest h = absurd (omega (arith, h))
print_loop-append (suc fuel) n after rest h = elim (Bool-cases (n / 10 == 0)) [
  | inl u ↦ rw u refl
  | inr u ↦
      let less : n / 10 < fuel = ground (arith, u, h) in
      rw u (print_loop-append fuel (n / 10) ((b'0' + n % 10) ∷ after) rest less)
]

digits-stop : (n : ℕ) (rest : Bytes) → starts_digit rest ≡ false → digits n rest ≡ (n, rest)
unfolding digits
digits-stop n [] h = refl
digits-stop n (c ∷ rest) h = rw h refl

-- A printed number with another text behind it, which does not begin with a digit, is scanned as
-- the number and the text.
pub scan-decimal :
    (n : ℕ) (rest : Bytes)
    → starts_digit rest ≡ false
    → scan (decimal n ++ rest) ≡ some (false, n, rest)
unfolding decimal
scan-decimal n rest h =
    let more : n < n + 1 = omega arith in
    let text : print_loop (n + 1) n [] ++ rest ≡ print_loop (n + 1) n rest =
      print_loop-append (n + 1) n [] rest more in
    let read : digits 0 (print_loop (n + 1) n rest) ≡ (n, rest) =
      digits-print_loop (n + 1) n rest more ∙ digits-stop n rest h in
    rw text (
      scan-digits (print_loop (n + 1) n rest) (starts_digit-print_loop (n + 1) n rest more)
      ∙ ap (λ (d : ℕ × Bytes). some (false, d.0, d.1)) read)

pub scan_size-decimal :
    (n : ℕ) (rest : Bytes)
    → n < 2 ^ 64
    → starts_digit rest ≡ false
    → scan_size (decimal n ++ rest) ≡ some n
unfolding scan_size
scan_size-decimal n rest l h = rw (scan_size, scan-decimal n rest h) (ground (arith, l))

-- A printed number below 2 ^ 63 is converted back.
pub stoi-decimal : (n : ℕ) → n < 2 ^ 63 → stoi (decimal n) ≡ ok n
unfolding stoi
stoi-decimal n l =
    let read : scan (decimal n) ≡ some (false, n, []) =
      subst (λ (s : Bytes). scan s ≡ some (false, n, [])) (append-nil (decimal n))
        (scan-decimal n [] refl) in
    rw (stoi, read) (ground (arith, l))

pub starts_digit-decimal : (n : ℕ) (rest : Bytes) → starts_digit (decimal n ++ rest) ≡ true
unfolding decimal
starts_digit-decimal n rest =
    let more : n < n + 1 = omega arith in
    rw (print_loop-append (n + 1) n [] rest more) (starts_digit-print_loop (n + 1) n rest more)

pub skip_spaces-decimal : (n : ℕ) → skip_spaces (decimal n) ≡ decimal n
skip_spaces-decimal n =
    let start : starts_digit (decimal n) ≡ true =
      subst (λ (s : Bytes). starts_digit s ≡ true) (append-nil (decimal n))
        (starts_digit-decimal n []) in
    skip_spaces-digits (decimal n) start
