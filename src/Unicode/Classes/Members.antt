-- ===== src/Unicode/Classes/Members.antt =====
-- The classes and the conversions are those of the tables: each table is in order.
use irccd.Base.{
  ℕ, ◌≡◌, refl, ap, ◌∙◌, Bool, true, false, ◌&&◌, ◌||◌, Option, none, some, List, [], ◌∷◌, arith,
  leb, ◌==◌, if◌then◌else◌, any,
}
use mathlib.Core.Path.{fun_ext}
use irccd.Unicode.Classes.{
  in_row, is_row, in_ranges, in_singles, uni_isspace, uni_isdigit, uni_isalpha, uni_isupper,
  uni_islower, uni_istitle,
}
use irccd.Unicode.Classes.Rows.{is_ordered, hits, find_hit, keep, search-find_hit}
use irccd.Unicode.Tables.Space.{isspacer}
use irccd.Unicode.Tables.Digit.{isdigitr}
use irccd.Unicode.Tables.Alpha.{isalphar, isalphas}
use irccd.Unicode.Tables.Upper.{isupperr, isuppers}
use irccd.Unicode.Tables.Lower.{islowerr, islowers}
use irccd.Unicode.Tables.Title.{istitler, istitles}

abbrev pub first2 : ℕ × ℕ → ℕ
first2 p = p.0

abbrev pub last2 : ℕ × ℕ → ℕ
last2 p = p.1

abbrev pub self : ℕ → ℕ
self p = p

-- A range of the table has the number, and a number of the table is the number.
abbrev pub any_range : List (ℕ × ℕ) → ℕ → Bool
any_range t c = any (λ p. leb p.0 c && leb c p.1) t

abbrev pub any_single : List ℕ → ℕ → Bool
any_single t c = any (λ p. c == p) t

is_some : {A : Type 0} → Option A → Bool
is_some none = false
is_some (some a) = true

find_hit-any :
    {A : Type 0} (lo hi : A → ℕ) (c : ℕ) (t : List A)
    → is_some (find_hit lo hi c t) ≡ any (hits lo hi c) t
unfolding is_some
find_hit-any lo hi c [] = refl
find_hit-any lo hi c (r ∷ t) = ground (arith, find_hit-any lo hi c t)

in_row-keep : (c : ℕ) (o : Option (ℕ × ℕ)) → in_row c o ≡ is_some (keep first2 last2 c o)
unfolding is_some
in_row-keep c none = refl
in_row-keep c (some p) = ground arith

is_row-keep : (c : ℕ) (o : Option ℕ) → is_row c o ≡ is_some (keep self self c o)
unfolding is_some
is_row-keep c none = refl
is_row-keep c (some p) = ground arith

hits-self : (c p : ℕ) → hits self self c p ≡ (c == p)
hits-self c p = ground arith

in_ranges-any :
    (t : List (ℕ × ℕ)) (c : ℕ) → is_ordered first2 last2 t ≡ true → in_ranges t c ≡ any_range t c
unfolding in_ranges
in_ranges-any t c h =
    in_row-keep c _
    ∙ ap is_some (search-find_hit first2 last2 c t h)
    ∙ find_hit-any first2 last2 c t

in_singles-any :
    (t : List ℕ) (c : ℕ) → is_ordered self self t ≡ true → in_singles t c ≡ any_single t c
unfolding in_singles
in_singles-any t c h =
    is_row-keep c _
    ∙ ap is_some (search-find_hit self self c t h)
    ∙ find_hit-any self self c t
    ∙ ap (λ (f : ℕ → Bool). any f t) (fun_ext (hits-self c))

either-any :
    (r : List (ℕ × ℕ)) (s : List ℕ) (c : ℕ)
    → is_ordered first2 last2 r ≡ true
    → is_ordered self self s ≡ true
    → (if in_ranges r c then true else in_singles s c) ≡ (any_range r c || any_single s c)
either-any r s c h k = rw (in_ranges-any r c h, in_singles-any s c k) (ground arith)

isspacer-is_ordered : is_ordered first2 last2 isspacer ≡ true
unfolding is_ordered
isspacer-is_ordered = refl

isdigitr-is_ordered : is_ordered first2 last2 isdigitr ≡ true
unfolding is_ordered
isdigitr-is_ordered = refl

isalphar-is_ordered : is_ordered first2 last2 isalphar ≡ true
unfolding is_ordered
isalphar-is_ordered = refl

isalphas-is_ordered : is_ordered self self isalphas ≡ true
unfolding is_ordered
isalphas-is_ordered = refl

isupperr-is_ordered : is_ordered first2 last2 isupperr ≡ true
unfolding is_ordered
isupperr-is_ordered = refl

isuppers-is_ordered : is_ordered self self isuppers ≡ true
unfolding is_ordered
isuppers-is_ordered = refl

islowerr-is_ordered : is_ordered first2 last2 islowerr ≡ true
unfolding is_ordered
islowerr-is_ordered = refl

islowers-is_ordered : is_ordered self self islowers ≡ true
unfolding is_ordered
islowers-is_ordered = refl

istitler-is_ordered : is_ordered first2 last2 istitler ≡ true
unfolding is_ordered
istitler-is_ordered = refl

istitles-is_ordered : is_ordered self self istitles ≡ true
unfolding is_ordered
istitles-is_ordered = refl

-- A character is of a class exactly when it lies in one of the ranges of the class's table or is
-- one of its single characters: for the classes space, digit, alpha, upper, lower and title.
pub uni_is-any :
    (c : ℕ)
    → (uni_isspace c ≡ any_range isspacer c)
      × (uni_isdigit c ≡ any_range isdigitr c)
      × (uni_isalpha c ≡ (any_range isalphar c || any_single isalphas c))
      × (uni_isupper c ≡ (any_range isupperr c || any_single isuppers c))
      × (uni_islower c ≡ (any_range islowerr c || any_single islowers c))
      × (uni_istitle c ≡ (any_range istitler c || any_single istitles c))
unfolding uni_isspace uni_isdigit uni_isalpha uni_isupper uni_islower uni_istitle
uni_is-any c = (
  in_ranges-any isspacer c isspacer-is_ordered,
  in_ranges-any isdigitr c isdigitr-is_ordered,
  either-any isalphar isalphas c isalphar-is_ordered isalphas-is_ordered,
  either-any isupperr isuppers c isupperr-is_ordered isuppers-is_ordered,
  either-any islowerr islowers c islowerr-is_ordered islowers-is_ordered,
  either-any istitler istitles c istitler-is_ordered istitles-is_ordered,
)
