-- ===== src/Unicode/Classes.antt =====
-- irccd/unicode.c: the character classes `uni_is*` and the case conversions `uni_to*`.
pub mod Rows
pub mod Members
pub mod Casing
use irccd.Base.{
  ℕ, ◌+◌, ◌-◌, ◌%◌, ◌^◌, Bool, true, false, ◌&&◌, Option, none, some, List, leb, ◌==◌,
  if◌then◌else◌, length,
}
use irccd.Unicode.Search.{search}
use irccd.Unicode.Tables.Space.{isspacer}
use irccd.Unicode.Tables.Digit.{isdigitr}
use irccd.Unicode.Tables.Alpha.{isalphar, isalphas}
use irccd.Unicode.Tables.Upper.{isupperr, isuppers}
use irccd.Unicode.Tables.Lower.{islowerr, islowers}
use irccd.Unicode.Tables.Title.{istitler, istitles}
use irccd.Unicode.Tables.ToUpper.{toupperr, touppers}
use irccd.Unicode.Tables.ToLower.{tolowerr, tolowers}
use irccd.Unicode.Tables.ToTitle.{totitler, totitles}

-- p && c >= p[0] && c <= p[1]
abbrev pub in_row : ℕ → Option (ℕ × ℕ) → Bool
in_row c none = false
in_row c (some p) = leb p.0 c && leb c p.1

-- p && c == p[0]
abbrev pub is_row : ℕ → Option ℕ → Bool
is_row c none = false
is_row c (some p) = c == p

-- The search of a table of ranges, and of one of single characters.
unfoldable pub in_ranges : List (ℕ × ℕ) → ℕ → Bool
unfolding search
in_ranges t c = in_row c (search (λ p. p.0) c t (length t))

unfoldable pub in_singles : List ℕ → ℕ → Bool
unfolding search
in_singles t c = is_row c (search (λ p. p) c t (length t))

unfoldable pub uni_isspace : ℕ → Bool
unfolding in_ranges
uni_isspace c = in_ranges isspacer c

unfoldable pub uni_isdigit : ℕ → Bool
unfolding in_ranges
uni_isdigit c = in_ranges isdigitr c

unfoldable pub uni_isalpha : ℕ → Bool
unfolding in_ranges in_singles
uni_isalpha c = if in_ranges isalphar c then true else in_singles isalphas c

unfoldable pub uni_isupper : ℕ → Bool
unfolding in_ranges in_singles
uni_isupper c = if in_ranges isupperr c then true else in_singles isuppers c

unfoldable pub uni_islower : ℕ → Bool
unfolding in_ranges in_singles
uni_islower c = if in_ranges islowerr c then true else in_singles islowers c

unfoldable pub uni_istitle : ℕ → Bool
unfolding in_ranges in_singles
uni_istitle c = if in_ranges istitler c then true else in_singles istitles c

-- c + delta - 1048576 on 32 bits.
abbrev pub shifted : ℕ → ℕ → ℕ
shifted c delta = (c + delta + (2 ^ 32 - 1048576)) % 2 ^ 32

abbrev pub shift_range : ℕ → Option (ℕ × ℕ × ℕ) → Option ℕ
shift_range c none = none
shift_range c (some p) = if leb p.0 c && leb c p.1 then some (shifted c p.2) else none

abbrev pub shift_single : ℕ → Option (ℕ × ℕ) → ℕ
shift_single c none = c
shift_single c (some p) = if c == p.0 then shifted c p.1 else c

abbrev pub or_else : Option ℕ → ℕ → ℕ
or_else (some n) d = n
or_else none d = d

-- The two searches of a conversion.
unfoldable pub convert : List (ℕ × ℕ × ℕ) → List (ℕ × ℕ) → ℕ → ℕ
unfolding search
convert ranges singles c =
    or_else (shift_range c (search (λ p. p.0) c ranges (length ranges)))
      (shift_single c (search (λ p. p.0) c singles (length singles)))

unfoldable pub uni_toupper : ℕ → ℕ
unfolding convert
uni_toupper c = convert toupperr touppers c

unfoldable pub uni_tolower : ℕ → ℕ
unfolding convert
uni_tolower c = convert tolowerr tolowers c

unfoldable pub uni_totitle : ℕ → ℕ
unfolding convert
uni_totitle c = convert totitler totitles c
