-- ===== src/Bot/Rules/Order.antt =====
-- Where the operations leave each rule of the list.
use irccd.Base.{
  ℕ, zero, suc, ◌+◌, ◌-◌, ◌≤◌, ◌<◌, ◌≡◌, refl, sym, ap, ◌∙◌, subst, ◌≢◌, ◌⊎◌, inl, inr, false, none,
  some, [], ◌∷◌, ◌++◌, arith, ◌==◌, Bool-cases, Option-cases, length, get_elem?, take, drop,
  take-append-drop,
}
use mathlib.Core.List.{Perm, perm_middle}
use mathlib.Core.List.Perm
use irccd.Rule.{Rule}
use irccd.Bot.Rules.{
  Rules, size_loop, size, append_elem, delete, insert, get, move_to, move, remove,
}

size_loop-length : (rules : Rules) (n : ℕ) → size_loop rules n ≡ n + length rules
unfolding size_loop
size_loop-length [] n = omega arith
size_loop-length (r ∷ rules) n = omega (arith, size_loop-length rules (n + 1))

pub size-length : (rules : Rules) → size rules ≡ length rules
unfolding size
size-length rules = omega (arith, size_loop-length rules 0)

-- The list with one more rule at a position; at the end, if the position is past it.
abbrev pub put : Rules → ℕ → Rule → Rules
put rules n r = take n rules ++ r ∷ drop n rules

append_elem-put : (rules : Rules) (n : ℕ) (r : Rule) → append_elem rules n r ≡ put rules (suc n) r
unfolding append_elem
append_elem-put [] n r = refl
append_elem-put (x ∷ rules) zero r = refl
append_elem-put (x ∷ rules) (suc n) r = ap (◌∷◌ x) (append_elem-put rules n r)

put-past : (rules : Rules) (n : ℕ) (r : Rule) → length rules ≤ n → put rules n r ≡ rules ++ r ∷ []
put-past [] zero r h = refl
put-past [] (suc n) r h = refl
put-past (x ∷ rules) zero r h = absurd (omega arith)
put-past (x ∷ rules) (suc n) r h = ap (◌∷◌ x) (put-past rules n r (omega arith))

-- An insertion puts the rule at the index, or at the end when the index is past it, and keeps the
-- other rules in their order.
pub insert-put : (rules : Rules) (r : Rule) (i : ℕ) → insert rules r i ≡ put rules i r
unfolding insert
insert-put rules r zero = refl
insert-put rules r (suc i) =
    ground (arith, size-length rules, put-past rules (suc i) r, append_elem-put rules (suc i - 1) r)

-- A removal inside the list leaves the other rules in their order.
pub remove-inside :
    (rules : Rules) (i : ℕ) → i < length rules → remove rules i ≡ some (delete rules i)
unfolding remove
remove-inside rules i h = ground (arith, h, size-length rules)

put-length : (l : Rules) (n : ℕ) (r : Rule) → n ≤ length l → n < length (put l n r)
put-length l zero r h = omega arith
put-length [] (suc n) r h = absurd (omega arith)
put-length (x ∷ l) (suc n) r h = omega (arith, put-length l n r (omega (arith, h)))

-- The rule that was put inside a list is found there, and its removal restores the list.
get-put :
    (l : Rules) (n : ℕ) (r : Rule)
    → n ≤ length l
    → (get (put l n r) n ≡ some r) × (delete (put l n r) n ≡ l)
unfolding get delete
get-put l zero r k = (refl, refl)
get-put [] (suc n) r k = absurd (omega arith)
get-put (x ∷ l) (suc n) r k = let (g, d) = get-put l n r (omega arith) in (g, ap (◌∷◌ x) d)

put-found :
    (l : Rules) (n : ℕ) (r : Rule)
    → n ≤ length l
    → (get (put l n r) n ≡ some r) × (remove (put l n r) n ≡ some l)
put-found l n r h =
    let (g, d) = get-put l n r h in
    (g, remove-inside (put l n r) n (put-length l n r h) ∙ ap (λ (m : Rules). some m) d)

-- A rule that was inserted inside the list is found at its index, and its removal restores the
-- list.
pub insert-remove :
    (rules : Rules) (r : Rule) (i : ℕ)
    → i ≤ length rules
    → (get (insert rules r i) i ≡ some r) × (remove (insert rules r i) i ≡ some rules)
insert-remove rules r i h = rw insert-put (put-found rules i r h)

move_to-head :
    (rest : Rules) (f : Rule) (from to : ℕ)
    → (from ≡ 0) ⊎ (to ≡ 0)
    → move_to rest f from to ≡ put rest to f
unfolding move_to
move_to-head rest f from zero e = refl
move_to-head rest f from (suc n) (inr e) = absurd (omega arith)
move_to-head rest f from (suc n) (inl e) =
    let one : suc n - 1 ≡ n = omega arith in
    let more : (suc n == 0) ≡ false = ground arith in rw (e, one, more) (append_elem-put rest n f)

move_to-late :
    (rest : Rules) (f : Rule) (from to : ℕ)
    → 0 < from
    → 0 < to
    → move_to rest f from to ≡ put rest (suc to) f
unfolding move_to
move_to-late rest f from to p q = ground (arith, append_elem-put rest to f)

below-length : (l : Rules) (n : ℕ) (f : Rule) → get l n ≡ some f → n < length l
unfolding get
below-length [] n f e = cc
below-length (x ∷ l) zero f e = omega arith
below-length (x ∷ l) (suc n) f e = omega (arith, below-length l n f e)

delete-length : (l : Rules) (n : ℕ) → n < length l → suc (length (delete l n)) ≡ length l
unfolding delete
delete-length [] n h = absurd (omega (arith, h))
delete-length (x ∷ l) zero h = refl
delete-length (x ∷ l) (suc n) h = ap suc (delete-length l n (omega (arith, h)))

move-move_to :
    (rules : Rules) (f : Rule) (from to : ℕ)
    → get rules from ≡ some f
    → from ≢ to
    → move rules from to ≡ some (move_to (delete rules from) f from to)
unfolding move get
move-move_to rules f from to found ne = ground arith

-- A rule that is asked to move between two different positions other than the head, the new one
-- before the last, comes to stand one position behind the one asked for, and the other rules keep
-- their order.
pub move-late :
    (rules : Rules) (f : Rule) (from to : ℕ)
    → get rules from ≡ some f
    → from ≢ to
    → 0 < from
    → 0 < to
    → suc to < length rules
    → (moved : Rules) × (move rules from to ≡ some moved)
      × (get moved (suc to) ≡ some f)
      × (remove moved (suc to) ≡ remove rules from)
move-late rules f from to found ne p q inside =
    let rest = delete rules from in
    let there : from < length rules = below-length rules from f found in
    let room : suc to ≤ length rest = omega (arith, inside, delete-length rules from there) in
    let (g, d) = put-found rest (suc to) f room in
    let late : some (move_to rest f from to) ≡ some (put rest (suc to) f) =
      ap (λ (l : Rules). some l) (move_to-late rest f from to p q) in
    (
      put rest (suc to) f,
      move-move_to rules f from to found ne ∙ late,
      g,
      d ∙ sym (remove-inside rules from there),
    )

put-perm : (rules : Rules) (n : ℕ) (f : Rule) → Perm (put rules n f) (f ∷ rules)
put-perm rules n f =
    subst (λ l. Perm (put rules n f) (f ∷ l)) (take-append-drop n rules)
      (perm_middle (take n rules) (drop n rules))

move_to-perm : (rest : Rules) (f : Rule) (from to : ℕ) → Perm (move_to rest f from to) (f ∷ rest)
move_to-perm rest f from zero = rw (move_to-head rest f from 0 (inr refl)) (put-perm rest 0 f)
move_to-perm rest f zero (suc n) =
    rw (move_to-head rest f 0 (suc n) (inl refl)) (put-perm rest (suc n) f)
move_to-perm rest f (suc m) (suc n) =
    rw (move_to-late rest f (suc m) (suc n) (omega arith) (omega arith))
      (put-perm rest (suc (suc n)) f)

delete-perm :
    (rules : Rules) (i : ℕ) (f : Rule)
    → get_elem? rules i ≡ some f
    → Perm (f ∷ delete rules i) rules
unfolding delete
delete-perm [] i f h = cc
delete-perm (x ∷ rules) zero f h =
    let e : f ≡ x = ground arith in
    subst (λ y. Perm (f ∷ rules) (y ∷ rules)) e (Perm.refl (f ∷ rules))
delete-perm (x ∷ rules) (suc i) f h =
    Perm.trans (Perm.swap x f (delete rules i)) (Perm.cons x (delete-perm rules i f h))

get-none : (l : Rules) (n : ℕ) → get_elem? l n ≡ none → length l ≤ n
get-none [] n e = omega arith
get-none (x ∷ l) zero e = cc
get-none (x ∷ l) (suc n) e = omega (arith, get-none l n e)

-- A move from inside the list gives a list with the same rules, each as often, whatever the new
-- position; any other move fails the assertion.
pub move-perm :
    (rules : Rules) (from to : ℕ)
    → ((from < length rules)
        × (moved : Rules) × (move rules from to ≡ some moved)
        × Perm moved rules)
      ⊎ ((length rules ≤ from) × (move rules from to ≡ none))
unfolding get move
move-perm rules from to = elim (Option-cases (get_elem? rules from)) [
  | inl e ↦ inr (get-none rules from e, rw (move, e) refl)
  | inr (f, e) ↦ elim (Bool-cases (from == to)) [
    | inl same ↦ inl (below-length rules from f e, rules, rw (move, e, same) refl, Perm.refl rules)
    | inr ne ↦ inl (
      below-length rules from f e,
      move_to (delete rules from) f from to,
      rw (move, e, ne) refl,
      Perm.trans (move_to-perm (delete rules from) f from to) (delete-perm rules from f e),
    )
  ]
]
