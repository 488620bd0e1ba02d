-- ===== src/Bsearch.antt =====
-- bsearch of the C library over tables that are sorted by a name, with strcmp, as irccd/peer.c,
-- lib/irccd/server.c and irccdctl/irccdctl.c call it.
pub mod Sorted
use irccd.Base.{
  ℕ, zero, suc, ◌/◌, Bool, true, false, ◌&&◌, ◌||◌, Option, none, some, List, [], ◌∷◌, ltb, ◌==◌,
  if◌then◌else◌, length, take, drop, Bytes, str_eq,
}

-- strcmp(a, b) < 0
unfoldable pub str_lt : Bytes → Bytes → Bool
str_lt a [] = false
str_lt [] (y ∷ b) = true
str_lt (x ∷ a) (y ∷ b) = ltb x y || (x == y && str_lt a b)

module _ {A : Type 0} (name : A → Bytes) where
  -- bsearch of a row by its name: the row in the middle, or the search of one half. The length of the
  -- table is fuel enough.
  unfoldable pub bsearch : ℕ → Bytes → List A → Option A
  unfolding str_lt
  bsearch zero key t = none
  bsearch (suc fuel) key t = elim (drop (length t / 2) t) [
    | [] ↦ none
    | r ∷ after ↦
        let left = bsearch fuel key (take (length t / 2) t) in
        let right = bsearch fuel key after in
        if str_eq key (name r) then some r else if str_lt key (name r) then left else right
  ]
