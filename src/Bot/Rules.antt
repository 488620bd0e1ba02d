-- ===== src/Bot/Rules.antt =====
-- lib/irccd/irccd.c: the ordered list of rules of the bot, `irc_bot_rule_*`.
--
-- A node of the doubly linked list is its position. A walk that runs off the end is at NULL, after
-- which `DL_APPEND_ELEM` appends.
pub mod Order
use irccd.Base.{
  ℕ, zero, suc, ◌+◌, ◌-◌, Option, none, some, List, [], ◌∷◌, ◌++◌, leb, ◌==◌, if◌then◌else◌,
  get_elem?,
}
use irccd.Rule.{Rule}

abbrev pub Rules : Type 0
Rules = List Rule

-- The loop of `irc_bot_rule_size`.
unfoldable pub size_loop : Rules → ℕ → ℕ
size_loop [] total = total
size_loop (r ∷ rest) total = size_loop rest (total + 1)

unfoldable pub size : Rules → ℕ
unfolding size_loop
size rules = size_loop rules 0

-- Walk `n` nodes on from the head and put `rule` after the node reached.
unfoldable pub append_elem : Rules → ℕ → Rule → Rules
append_elem [] n rule = rule ∷ []
append_elem (x ∷ rest) zero rule = x ∷ rule ∷ rest
append_elem (x ∷ rest) (suc n) rule = x ∷ append_elem rest n rule

-- Unlink the node at a position; there is none past the end.
unfoldable pub delete : Rules → ℕ → Rules
delete [] n = []
delete (x ∷ rest) zero = rest
delete (x ∷ rest) (suc n) = x ∷ delete rest n

unfoldable pub insert : Rules → Rule → ℕ → Rules
unfolding append_elem size
insert rules rule index =
    if index == 0
    then rule ∷ rules
    else if leb (size rules) index
    then rules ++ rule ∷ []
    else append_elem rules (index - 1) rule

-- `none` is the failure of the assertion on the index.
unfoldable pub get : Rules → ℕ → Option Rule
get rules index = get_elem? rules index

-- Both walks of `irc_bot_rule_move` start at the old head. When that is the rule `f` itself, it is
-- unlinked, but its `next` still leads to the rest, so one step of the walk is spent on leaving it.
unfoldable pub move_to : Rules → Rule → ℕ → ℕ → Rules
unfolding append_elem
move_to rest f from to =
    if to == 0
    then f ∷ rest
    else if from == 0
    then append_elem rest (to - 1) f
    else append_elem rest to f

-- `none` is the failure of the assertion on `from`.
unfoldable pub move : Rules → ℕ → ℕ → Option Rules
unfolding move_to delete
move rules from to = elim (get_elem? rules from) [
  | none ↦ none
  | some f ↦ some (if from == to then rules else move_to (delete rules from) f from to)
]

-- `none` is the failure of the assertion on the index.
unfoldable pub remove : Rules → ℕ → Option Rules
unfolding size delete
remove rules index = if leb (size rules) index then none else some (delete rules index)

unfoldable pub clear : Rules → Rules
clear rules = []
