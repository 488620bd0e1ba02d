-- ===== src/Util/Joined.antt =====
-- Fields that are joined by a delimiter are split again.
use irccd.Base.{
  ℕ, zero, suc, ◌≡◌, refl, ◌∙◌, ◌≢◌, false, none, some, List, [], ◌∷◌, ◌++◌, arith, Bytes, is_space,
}
use irccd.Util.{strchr, split_loop, split, skip_command, parse}

-- The byte is nowhere in the text.
abbrev pub IsFree : ℕ → Bytes → Type 0
IsFree x [] = Unit
IsFree x (c ∷ s) = (c ≢ x) × IsFree x s

-- The first field and those that follow, each behind the delimiter.
abbrev pub join : ℕ → Bytes → List Bytes → Bytes
join delim f [] = f
join delim f (g ∷ fs) = f ++ delim ∷ join delim g fs

-- The fields fit in `max`; no field has the delimiter, except the last one when it is the one that
-- fills the array.
abbrev pub AreFields : ℕ → ℕ → Bytes → List Bytes → Type 0
AreFields delim zero f fs = ⊥
AreFields delim (suc zero) f [] = Unit
AreFields delim (suc zero) f (g ∷ fs) = ⊥
AreFields delim (suc (suc n)) f [] = IsFree delim f
AreFields delim (suc (suc n)) f (g ∷ fs) = IsFree delim f × AreFields delim (suc n) g fs

strchr-none : (f : Bytes) (delim : ℕ) → IsFree delim f → strchr f delim ≡ none
unfolding strchr
strchr-none [] delim h = refl
strchr-none (c ∷ f) delim h = ground (arith, strchr-none f delim h.1)

pub strchr-first :
    (f rest : Bytes) (delim : ℕ)
    → IsFree delim f
    → strchr (f ++ delim ∷ rest) delim ≡ some (f, rest)
unfolding strchr
strchr-first [] rest delim h = ground arith
strchr-first (c ∷ f) rest delim h = ground (arith, strchr-first f rest delim h.1)

split_loop-join :
    (delim n : ℕ) (f : Bytes) (fs : List Bytes)
    → AreFields delim n f fs
    → split_loop delim n (join delim f fs) ≡ f ∷ fs
unfolding split_loop
split_loop-join delim zero f fs h = absurd h
split_loop-join delim (suc zero) f [] h = refl
split_loop-join delim (suc zero) f (g ∷ fs) h = absurd h
split_loop-join delim (suc (suc n)) f [] h = rw (split_loop, strchr-none f delim h)
split_loop-join delim (suc (suc n)) f (g ∷ fs) h =
    rw (
      split_loop,
      strchr-first f (join delim g fs) delim h.0,
      split_loop-join delim (suc n) g fs h.1,
    )

split-nonempty :
    (line : Bytes) (max delim : ℕ) → line ≢ [] → split line max delim ≡ split_loop delim max line
unfolding split
split-nonempty [] max delim h = absurd (h refl)
split-nonempty (c ∷ line) max delim h = refl

-- Fields that are joined by the delimiter are split into themselves, when there are at most `max`,
-- the text is not empty, and only a field that fills the array has the delimiter.
pub split-join :
    (delim max : ℕ) (f : Bytes) (fs : List Bytes)
    → AreFields delim max f fs
    → join delim f fs ≢ []
    → split (join delim f fs) max delim ≡ f ∷ fs
split-join delim max f fs h e =
    split-nonempty (join delim f fs) max delim e ∙ split_loop-join delim max f fs h

-- No byte of the command is a space.
abbrev pub IsCommand : Bytes → Type 0
IsCommand [] = Unit
IsCommand (c ∷ s) = (is_space c ≡ false) × IsCommand s

skip_command-word : (cmd rest : Bytes) → IsCommand cmd → skip_command (cmd ++ b' ' ∷ rest) ≡ rest
unfolding skip_command is_space
skip_command-word [] rest h = refl
skip_command-word (c ∷ cmd) rest h = ground (arith, h.0, skip_command-word cmd rest h.1)

skip_command-all : (cmd : Bytes) → IsCommand cmd → skip_command cmd ≡ []
unfolding skip_command
skip_command-all [] h = refl
skip_command-all (c ∷ cmd) h = ground (arith, h.0, skip_command-all cmd h.1)

-- The line of a peer gives its arguments back behind its command, and none when it is the command
-- alone. The command has no space; the arguments are at most as many as the array has places, are
-- not all empty, and have no space, except the one that fills the array.
pub peer-parse :
    (cmd : Bytes) (max : ℕ) (f : Bytes) (fs : List Bytes)
    → IsCommand cmd
    → AreFields b' ' max f fs
    → join b' ' f fs ≢ []
    → (parse (cmd ++ b' ' ∷ join b' ' f fs) max ≡ f ∷ fs) × (parse cmd max ≡ [])
unfolding parse split
peer-parse cmd max f fs c h e = (
  rw (skip_command-word cmd (join b' ' f fs) c) (split-join b' ' max f fs h e),
  rw (skip_command-all cmd c),
)
