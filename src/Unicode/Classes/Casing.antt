-- ===== src/Unicode/Classes/Casing.antt =====
-- The case conversions: the shift of the row that has the character, and its bound.
use irccd.Base.{
  ℕ, ◌+◌, ◌<◌, ◌≡◌, refl, ap, ◌∙◌, inl, inr, Bool, true, ◌&&◌, Option, none, some, List, [], ◌∷◌,
  arith, ltb, leb, Bool-cases, length, all,
}
use irccd.Unicode.Search.{search}
use irccd.Unicode.Classes.{
  shifted, shift_range, shift_single, or_else, convert, uni_toupper, uni_tolower, uni_totitle,
}
use irccd.Unicode.Classes.Rows.{is_ordered, hits, find_hit, keep, search-find_hit}
use irccd.Unicode.Tables.ToUpper.{toupperr, touppers}
use irccd.Unicode.Tables.ToLower.{tolowerr, tolowers}
use irccd.Unicode.Tables.ToTitle.{totitler, totitles}

abbrev pub first3 : ℕ × ℕ × ℕ → ℕ
first3 p = p.0

abbrev pub last3 : ℕ × ℕ × ℕ → ℕ
last3 p = p.1

abbrev pub only : ℕ × ℕ → ℕ
only p = p.0

-- The shift of the range that has the character, else that of the single row that has it, else the
-- character itself.
abbrev pub moved_range : ℕ → Option (ℕ × ℕ × ℕ) → Option ℕ
moved_range c none = none
moved_range c (some p) = some (shifted c p.2)

abbrev pub moved_single : ℕ → Option (ℕ × ℕ) → ℕ
moved_single c none = c
moved_single c (some p) = shifted c p.1

abbrev pub moved : List (ℕ × ℕ × ℕ) → List (ℕ × ℕ) → ℕ → ℕ
moved ranges singles c =
    or_else (moved_range c (find_hit first3 last3 c ranges))
      (moved_single c (find_hit only only c singles))

shift_range-keep :
    (c : ℕ) (o : Option (ℕ × ℕ × ℕ)) → shift_range c o ≡ moved_range c (keep first3 last3 c o)
shift_range-keep c none = refl
shift_range-keep c (some p) = ground arith

shift_single-keep :
    (c : ℕ) (o : Option (ℕ × ℕ)) → shift_single c o ≡ moved_single c (keep only only c o)
shift_single-keep c none = refl
shift_single-keep c (some p) = ground arith

convert-moved :
    (r : List (ℕ × ℕ × ℕ)) (s : List (ℕ × ℕ)) (c : ℕ)
    → is_ordered first3 last3 r ≡ true
    → is_ordered only only s ≡ true
    → convert r s c ≡ moved r s c
unfolding convert
convert-moved r s c h k =
    let range =
      shift_range-keep c (search first3 c r (length r))
      ∙ ap (moved_range c) (search-find_hit first3 last3 c r h) in
    let single =
      shift_single-keep c (search only c s (length s))
      ∙ ap (moved_single c) (search-find_hit only only c s k) in
    λ i. or_else (range i) (single i)

-- The shift of a row takes its characters neither below 0 nor out of the code space.
abbrev pub is_inside : ℕ → ℕ → ℕ → Bool
is_inside lo hi delta = leb 1048576 (lo + delta) && ltb (hi + delta) (0x110000 + 1048576)

shifted-bound :
    (lo hi delta c : ℕ)
    → is_inside lo hi delta ≡ true
    → leb lo c && leb c hi ≡ true
    → shifted c delta < 0x110000
shifted-bound lo hi delta c h k = ground (arith, h, k)

ranges-bound :
    (c : ℕ) (t : List (ℕ × ℕ × ℕ)) (d : ℕ)
    → all (λ (p : ℕ × ℕ × ℕ). is_inside p.0 p.1 p.2) t ≡ true
    → d < 0x110000
    → or_else (moved_range c (find_hit first3 last3 c t)) d < 0x110000
ranges-bound c [] d h l = l
ranges-bound c (p ∷ t) d h l = elim (Bool-cases (hits first3 last3 c p)) [
  | inl u ↦ rw u (shifted-bound p.0 p.1 p.2 c (ground (arith, h)) u)
  | inr u ↦ rw u (ranges-bound c t d (ground (arith, h)) l)
]

singles-bound :
    (c : ℕ) (t : List (ℕ × ℕ))
    → all (λ (p : ℕ × ℕ). is_inside p.0 p.0 p.1) t ≡ true
    → c < 0x110000
    → moved_single c (find_hit only only c t) < 0x110000
singles-bound c [] h l = l
singles-bound c (p ∷ t) h l = elim (Bool-cases (hits only only c p)) [
  | inl u ↦ rw u (shifted-bound p.0 p.0 p.1 c (ground (arith, h)) u)
  | inr u ↦ rw u (singles-bound c t (ground (arith, h)) l)
]

moved-bound :
    (r : List (ℕ × ℕ × ℕ)) (s : List (ℕ × ℕ)) (c : ℕ)
    → all (λ (p : ℕ × ℕ × ℕ). is_inside p.0 p.1 p.2) r ≡ true
    → all (λ (p : ℕ × ℕ). is_inside p.0 p.0 p.1) s ≡ true
    → c < 0x110000
    → moved r s c < 0x110000
moved-bound r s c h k l =
    ranges-bound c r (moved_single c (find_hit only only c s)) h (singles-bound c s k l)

-- A conversion answers with the character shifted by the range of the table that has it, else by
-- the single row that has it, else with the character itself: for upper, lower and title case.
pub uni_to-moved :
    (c : ℕ)
    → (uni_toupper c ≡ moved toupperr touppers c)
      × (uni_tolower c ≡ moved tolowerr tolowers c)
      × (uni_totitle c ≡ moved totitler totitles c)
unfolding uni_toupper uni_tolower uni_totitle is_ordered
uni_to-moved c = (
  convert-moved toupperr touppers c refl refl,
  convert-moved tolowerr tolowers c refl refl,
  convert-moved totitler totitles c refl refl,
)

abbrev pub Cased : ℕ → ℕ → Type 0
Cased result expected = (result ≡ expected) × (result < 0x110000)

-- A conversion of a code point below 0x110000 answers with the code point shifted by the range of
-- the table that has it, else by the single row that has it, else with the code point itself, and
-- the answer is below 0x110000 too: for upper, lower and title case.
pub uni_to-Cased :
    (c : ℕ)
    → c < 0x110000
    → Cased (uni_toupper c) (moved toupperr touppers c)
      × Cased (uni_tolower c) (moved tolowerr tolowers c)
      × Cased (uni_totitle c) (moved totitler totitles c)
uni_to-Cased c l =
    let (upper, low, title) = uni_to-moved c in
    (
      (upper, rw upper (moved-bound toupperr touppers c refl refl l)),
      (low, rw low (moved-bound tolowerr tolowers c refl refl l)),
      (title, rw title (moved-bound totitler totitles c refl refl l)),
    )
