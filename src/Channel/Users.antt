-- ===== src/Channel/Users.antt =====
-- The users of a channel as a map from nicknames, up to case, to modes.
use irccd.Base.{
  ℕ, ◌+◌, ◌≡◌, refl, inl, inr, true, Option, none, some, List, [], ◌∷◌, arith, if◌then◌else◌,
  Bool-cases, length, Bytes, str_case_eq, str_case_eq_iff,
}
use irccd.Channel.{
  User, Channel, find_loop, get, add, set_loop, set, clear, count_loop, count, remove_loop, remove,
}

-- What is known of a nickname: its modes, if it is there.
abbrev pub modes_of : Option User → Option ℕ
modes_of none = none
modes_of (some u) = some u.modes

abbrev pub modes_at : Channel → Bytes → Option ℕ
modes_at ch nickname = modes_of (get ch nickname)

-- No two users have the same nickname up to case.
abbrev pub IsUnique : List User → Type 0
IsUnique [] = Unit
IsUnique (u ∷ users) = (find_loop users u.nickname ≡ none) × IsUnique users

find_loop-case :
    (users : List User) (a b : Bytes)
    → str_case_eq a b ≡ true
    → find_loop users a ≡ find_loop users b
unfolding find_loop
find_loop-case [] a b h = refl
find_loop-case (u ∷ users) a b h = ground (
  arith,
  find_loop-case users a b h,
  str_case_eq_iff a b,
  str_case_eq_iff u.nickname a,
  str_case_eq_iff u.nickname b,
)

abbrev or_else : Option ℕ → ℕ → ℕ
or_else none d = d
or_else (some m) d = m

find_loop-set_loop :
    (users : List User) (nickname : Bytes) (modes : ℕ) (other : Bytes)
    → modes_of (find_loop (set_loop users nickname modes) other) ≡ elim (find_loop users other) [
      | none ↦ none
      | some u ↦ if str_case_eq nickname other then some modes else some u.modes
    ]
unfolding find_loop set_loop
find_loop-set_loop [] nickname modes other = refl
find_loop-set_loop (u ∷ users) nickname modes other = ground (
  arith,
  find_loop-set_loop users nickname modes other,
  str_case_eq_iff u.nickname nickname,
  str_case_eq_iff u.nickname other,
  str_case_eq_iff nickname other,
)

find_loop-remove_loop :
    (users : List User) (nickname other : Bytes)
    → IsUnique users
    → find_loop (remove_loop users nickname) other
      ≡ (if str_case_eq nickname other then none else find_loop users other)
unfolding find_loop remove_loop
find_loop-remove_loop [] nickname other h = ground arith
find_loop-remove_loop (u ∷ users) nickname other h = ground (
  arith,
  h.0,
  find_loop-remove_loop users nickname other h.1,
  find_loop-case users u.nickname nickname,
  find_loop-case users u.nickname other,
  str_case_eq_iff u.nickname nickname,
  str_case_eq_iff u.nickname other,
  str_case_eq_iff nickname other,
)

count_loop-length : (users : List User) (rc : ℕ) → count_loop users rc ≡ rc + length users
unfolding count_loop
count_loop-length [] rc = omega arith
count_loop-length (u ∷ users) rc = omega (arith, count_loop-length users (rc + 1))

-- `irc_channel_count` is the number of users.
pub count-length : (ch : Channel) → count ch ≡ length ch.users
unfolding count
count-length ch = omega (arith, count_loop-length ch.users 0)

-- What an addition leaves under each nickname: one that was there keeps its modes.
pub modes_at-add :
    (ch : Channel) (nickname : Bytes) (modes : ℕ) (other : Bytes)
    → modes_at (add ch nickname modes) other ≡ (
        if str_case_eq nickname other
        then some (or_else (modes_at ch other) modes)
        else modes_at ch other)
unfolding add find_loop get
modes_at-add ch nickname modes other = ground (arith, find_loop-case ch.users nickname other)

-- After a change of modes the named user, if it is on the channel, has the new ones, up to case,
-- and every other nickname has what it had.
pub modes_at-set :
    (ch : Channel) (nickname : Bytes) (modes : ℕ) (other : Bytes)
    → modes_at (set ch nickname modes) other ≡ (
        if str_case_eq nickname other
        then elim (modes_at ch other) [ none ↦ none | some old ↦ some modes ]
        else modes_at ch other)
unfolding set get
modes_at-set ch nickname modes other =
    ground (arith, find_loop-set_loop ch.users nickname modes other)

-- After a removal the removed nickname has no modes, and every other keeps its own, up to case,
-- when no nickname is on the channel twice.
pub modes_at-remove :
    (ch : Channel) (nickname other : Bytes)
    → IsUnique ch.users
    → modes_at (remove ch nickname) other
      ≡ (if str_case_eq nickname other then none else modes_at ch other)
unfolding remove get
modes_at-remove ch nickname other h =
    ground (arith, find_loop-remove_loop ch.users nickname other h)

-- The calls that the handlers make on a channel.
pub data Op : Type 0 where
  add_op set_op : Bytes → ℕ → Op
  remove_op : Bytes → Op
  clear_op : Op

abbrev pub apply : Channel → Op → Channel
apply ch (add_op nickname modes) = add ch nickname modes
apply ch (set_op nickname modes) = set ch nickname modes
apply ch (remove_op nickname) = remove ch nickname
apply ch clear_op = clear ch

abbrev pub apply_all : Channel → List Op → Channel
apply_all ch [] = ch
apply_all ch (op ∷ ops) = apply_all (apply ch op) ops

set_loop-IsUnique :
    (users : List User) (nickname : Bytes) (modes : ℕ)
    → IsUnique users
    → IsUnique (set_loop users nickname modes)
unfolding set_loop
set_loop-IsUnique [] nickname modes h = tt
set_loop-IsUnique (u ∷ users) nickname modes h =
    let away : find_loop (set_loop users nickname modes) u.nickname ≡ none =
      ground (arith, find_loop-set_loop users nickname modes u.nickname, h.0) in
    elim (Bool-cases (str_case_eq u.nickname nickname)) [
      | inl e ↦ rw e h
      | inr e ↦ rw e (away, set_loop-IsUnique users nickname modes h.1)
    ]

remove_loop-IsUnique :
    (users : List User) (nickname : Bytes) → IsUnique users → IsUnique (remove_loop users nickname)
unfolding remove_loop
remove_loop-IsUnique [] nickname h = tt
remove_loop-IsUnique (u ∷ users) nickname h = elim (Bool-cases (str_case_eq u.nickname nickname)) [
  | inl e ↦ rw e h.1
  | inr e ↦ rw e (
    ground (arith, find_loop-remove_loop users nickname u.nickname h.1, h.0),
    remove_loop-IsUnique users nickname h.1,
  )
]

apply-IsUnique : (ch : Channel) (op : Op) → IsUnique ch.users → IsUnique (apply ch op).users
apply-IsUnique ch (add_op nickname modes) h = unfold add get in ground arith
apply-IsUnique ch (set_op nickname modes) h =
    unfold set in set_loop-IsUnique ch.users nickname modes h
apply-IsUnique ch (remove_op nickname) h = unfold remove in remove_loop-IsUnique ch.users nickname h
apply-IsUnique ch clear_op h = unfold clear in tt

-- Whatever is added to a channel, changed on it, removed from it or cleared, no nickname comes to
-- stand in it twice, up to case, when none does before.
pub apply_all-IsUnique :
    (ops : List Op) (ch : Channel) → IsUnique ch.users → IsUnique (apply_all ch ops).users
apply_all-IsUnique [] ch h = h
apply_all-IsUnique (op ∷ ops) ch h = apply_all-IsUnique ops (apply ch op) (apply-IsUnique ch op h)
