-- ===== src/Subst/Attributes.antt =====
-- lib/irccd/subst.c: the output buffer, and the attributes of `@{}`.
use irccd.Base.{
  ℕ, zero, suc, ◌-◌, Bool, true, false, not, ◌||◌, Option, none, some, List, [], ◌∷◌, ◌++◌, leb,
  ◌==◌, if◌then◌else◌, length, take, Bytes, codes, str_eq, enomem, Result, ok, err, ◌>>=◌,
}
use irccd.Util.{strchr}
use irccd.Server.Prefixes.{span, nonempty, literal, word}

pub record Buf : Type 0 where
  pub text : Bytes
  pub room : ℕ

-- A step that may fault, fail, or go on.
abbrev pub bind {ℓ κ} :
    {A : Type ℓ} {B : Type κ} → Option (Result A) → (A → Option (Result B)) → Option (Result B)
bind none f = none
bind (some (err e)) f = some (err e)
bind (some (ok a)) f = f a

unfoldable pub scat : Buf → Bytes → Result Buf
scat b value =
    if leb b.room (length value)
    then err enomem
    else ok (record { text = b.text ++ value; room = b.room - length value })

unfoldable pub ccat : Buf → ℕ → Result Buf
ccat b c =
    if b.room == 0 then err enomem else ok (record { text = b.text ++ c ∷ []; room = b.room - 1 })

abbrev pub Pairs : Type 0
Pairs = List (Bytes × Bytes)

abbrev pub irc_colors : Pairs
irc_colors =
    (codes "white", codes "0")
    ∷ (codes "black", codes "1")
    ∷ (codes "blue", codes "2")
    ∷ (codes "green", codes "3")
    ∷ (codes "red", codes "4")
    ∷ (codes "brown", codes "5")
    ∷ (codes "purple", codes "6")
    ∷ (codes "orange", codes "7")
    ∷ (codes "yellow", codes "8")
    ∷ (codes "lightgreen", codes "9")
    ∷ (codes "cyan", codes "10")
    ∷ (codes "lightcyan", codes "11")
    ∷ (codes "lightblue", codes "12")
    ∷ (codes "pink", codes "13")
    ∷ (codes "grey", codes "14")
    ∷ (codes "lightgrey", codes "15")
    ∷ []

abbrev pub irc_attrs : Pairs
irc_attrs =
    (codes "bold", 2 ∷ [])
    ∷ (codes "italic", 9 ∷ [])
    ∷ (codes "reverse", 22 ∷ [])
    ∷ (codes "strike", 19 ∷ [])
    ∷ (codes "underline", 21 ∷ [])
    ∷ (codes "underline2", 31 ∷ [])
    ∷ []

-- `shell_fg` and `shell_bg`, whose values differ in the first digit.
abbrev pub shell_colors : ℕ → Pairs
shell_colors digit =
    (codes "black", digit ∷ b'0' ∷ [])
    ∷ (codes "red", digit ∷ b'1' ∷ [])
    ∷ (codes "green", digit ∷ b'2' ∷ [])
    ∷ (codes "orange", digit ∷ b'3' ∷ [])
    ∷ (codes "blue", digit ∷ b'4' ∷ [])
    ∷ (codes "purple", digit ∷ b'5' ∷ [])
    ∷ (codes "cyan", digit ∷ b'6' ∷ [])
    ∷ (codes "white", digit ∷ b'7' ∷ [])
    ∷ (codes "default", digit ∷ b'9' ∷ [])
    ∷ []

abbrev pub shell_attrs : Pairs
shell_attrs =
    (codes "bold", codes "1")
    ∷ (codes "dim", codes "2")
    ∷ (codes "underline", codes "4")
    ∷ (codes "blink", codes "5")
    ∷ (codes "reverse", codes "7")
    ∷ (codes "hidden", codes "8")
    ∷ []

unfoldable pub find : Pairs → Bytes → Option Bytes
find [] key = none
find ((k, value) ∷ rest) key = if str_eq k key then some value else find rest key

pub record Attributes : Type 0 where
  pub fg : Bytes
  pub bg : Bytes
  pub attrs : List Bytes

-- %15[^,] and the comma behind it, if there is one.
abbrev pub field : Bytes → Bytes × Option Bytes
field s =
    let (taken, rest) = span 15 (λ c. not (c == b',')) s in
    elim (nonempty taken) [ none ↦ ([], none) | some t ↦ (t, literal b',' rest) ]

abbrev pub or_empty : Option Bytes → Bytes
or_empty none = []
or_empty (some s) = s

-- sscanf(key, "%15[^,],%15[^,],%63s", fg, bg, attributes): what a conversion that is not reached
-- leaves is empty.
unfoldable pub scan_attributes : Bytes → Bytes × Bytes × Bytes
unfolding span word
scan_attributes key =
    let (fg, after) = field key in
    elim after [
      | none ↦ (fg, [], [])
      | some rest ↦
          let (bg, behind) = field rest in
          elim behind [ none ↦ (fg, bg, []) | some more ↦ (fg, bg, or_empty (word 63 more)) ]
    ]

-- The loop that cuts the attributes at the commas, with the text as fuel: a place holds 15 bytes.
unfoldable pub attr_loop : ℕ → Bytes → List Bytes
unfolding strchr
attr_loop fuel [] = []
attr_loop zero (c ∷ s) = []
attr_loop (suc fuel) (c ∷ s) = elim (strchr (c ∷ s) b',') [
  | none ↦ take 15 (c ∷ s) ∷ []
  | some (before, after) ↦ take 15 before ∷ attr_loop fuel after
]

-- `attributes_parse`: a fifth attribute is written behind the array.
unfoldable pub attributes_parse : Bytes → Option Attributes
unfolding scan_attributes attr_loop
attributes_parse key =
    let (fg, bg, text) = scan_attributes key in
    let attrs = attr_loop (length text) text in
    if leb (length attrs) 4 then some (record { fg = fg; bg = bg; attrs = attrs }) else none

abbrev pub is_set : Bytes → Bool
is_set [] = false
is_set (c ∷ s) = true

-- `(value = find(…)) && scat(…)`: nothing is written for a word that is not in the table.
unfoldable pub scat_pair : Pairs → Bytes → Buf → Result Buf
unfolding find scat
scat_pair pairs key b = elim (find pairs key) [ none ↦ ok b | some value ↦ scat b value ]

-- The loop over the attributes of a message.
unfoldable pub irc_loop : List Bytes → Buf → Result Buf
unfolding scat_pair
irc_loop [] b = ok b
irc_loop (a ∷ attrs) b = scat_pair irc_attrs a b >>= irc_loop attrs

abbrev pub first_set : List Bytes → Bool
first_set [] = false
first_set (a ∷ attrs) = is_set a

-- The part of `subst_irc_attrs` behind the parse.
unfoldable pub irc_codes : Attributes → Buf → Result Buf
unfolding ccat scat_pair irc_loop
irc_codes a b =
    if is_set a.fg || first_set a.attrs
    then (do
      t ← ccat b 3
      u ← scat_pair irc_colors a.fg t
      v ← (if is_set a.bg then ccat u b',' >>= scat_pair irc_colors a.bg else ok u)
      irc_loop a.attrs v)
    else ok b

unfoldable pub subst_irc_attrs : Bytes → Buf → Option (Result Buf)
unfolding ccat attributes_parse irc_codes
subst_irc_attrs [] b = some (ccat b 3)
subst_irc_attrs (c ∷ key) b = elim (attributes_parse (c ∷ key)) [
  | none ↦ none
  | some a ↦ some (irc_codes a b)
]

-- The loop over the attributes of a terminal. `i < attrs.attrsz` holds in each round, so each
-- attribute is followed by a semicolon.
unfoldable pub shell_loop : List Bytes → Buf → Result Buf
unfolding scat_pair ccat
shell_loop [] b = ok b
shell_loop (a ∷ attrs) b = do t ← scat_pair shell_attrs a b; u ← ccat t b';'; shell_loop attrs u

unfoldable pub shell_codes : Attributes → Buf → Result Buf
unfolding scat ccat scat_pair shell_loop
shell_codes a b = do
  t ← scat b (27 ∷ b'[' ∷ [])
  u ← shell_loop a.attrs t
  v ←
      (if is_set a.fg
        then scat_pair (shell_colors b'3') a.fg u
          >>= (λ x. if is_set a.bg then ccat x b';' else ok x)
        else ok u)
  w ← (if is_set a.bg then scat_pair (shell_colors b'4') a.bg v else ok v)
  ccat w b'm'

unfoldable pub subst_shell_attrs : Bytes → Buf → Option (Result Buf)
unfolding scat attributes_parse shell_codes
subst_shell_attrs [] b = some (scat b (27 ∷ b'[' ∷ b'0' ∷ b'm' ∷ []))
subst_shell_attrs (c ∷ key) b = elim (attributes_parse (c ∷ key)) [
  | none ↦ none
  | some a ↦ some (shell_codes a b)
]
