-- ===== src/Util.antt =====
-- lib/irccd/util.c: `irc_util_split`, and the copy of its loop in irccd/peer.c, `parse`.
pub mod Joined
use irccd.Base.{
  ℕ, zero, suc, Option, none, some, List, [], ◌∷◌, ◌==◌, if◌then◌else◌, Bytes, is_space,
}

-- strchr(line, delim): the text before the first `delim` and the text after it.
unfoldable pub strchr : Bytes → ℕ → Option (Bytes × Bytes)
strchr [] delim = none
strchr (c ∷ line) delim =
    let later : Option (Bytes × Bytes) = elim (strchr line delim) [
      | none ↦ none
      | some (before, after) ↦ some (c ∷ before, after)
    ] in
    if c == delim then some ([], line) else later

-- The loop, with max - idx rounds left.
unfoldable pub split_loop : ℕ → ℕ → Bytes → List Bytes
unfolding strchr
split_loop delim zero line = []
split_loop delim (suc zero) line = line ∷ []
split_loop delim (suc (suc n)) line = elim (strchr line delim) [
  | none ↦ line ∷ []
  | some (before, after) ↦ before ∷ split_loop delim (suc n) after
]

-- `irc_util_split`: the arguments that are set.
unfoldable pub split : Bytes → ℕ → ℕ → List Bytes
unfolding split_loop
split [] max delim = []
split (c ∷ line) max delim = split_loop delim max (c ∷ line)

-- while (*line && !isspace(*line++)) of the command of a peer.
unfoldable pub skip_command : Bytes → Bytes
unfolding is_space
skip_command [] = []
skip_command (c ∷ line) = let rest = skip_command line in if is_space c then line else rest

-- `parse` of irccd/peer.c
unfoldable pub parse : Bytes → ℕ → List Bytes
unfolding split skip_command
parse line max = split (skip_command line) max b' '
