-- ===== src/Unicode/Search.antt =====
-- irccd/unicode.c: the search of the class tables, `search`.
--
-- A table is the list of its rows; a row of `ne` numbers is what `key` and the callers read of it,
-- so `t + m * ne` is the table without its first `m` rows.
pub mod Order
use irccd.Base.{
  ℕ, zero, suc, ◌-◌, ◌/◌, Bool, false, Option, none, some, List, [], ◌∷◌, ltb, leb, if◌then◌else◌,
  drop,
}

module _ {ℓ} {A : Type ℓ} (key : A → ℕ) where
  -- The row at the pointer, if `n` is not 0 and the row is not behind `c`.
  abbrev pub at_head : ℕ → List A → ℕ → Option A
  at_head c [] n = none
  at_head c (row ∷ t) zero = none
  at_head c (row ∷ t) (suc n) = if leb (key row) c then some row else none

  abbrev pub is_upto : ℕ → List A → Bool
  is_upto c [] = false
  is_upto c (row ∷ t) = leb (key row) c

  -- The loop, which at least halves `n` rounded up in each round: `n` is fuel enough.
  unfoldable pub search_loop : ℕ → ℕ → List A → ℕ → Option A
  search_loop zero c t n = at_head c t n
  search_loop (suc fuel) c t n =
      let right = search_loop fuel c (drop (n / 2) t) (n - n / 2) in
      let left = search_loop fuel c t (n / 2) in
      if ltb 1 n then (if is_upto c (drop (n / 2) t) then right else left) else at_head c t n

  unfoldable pub search : ℕ → List A → ℕ → Option A
  unfolding search_loop
  search c t n = search_loop n c t n
