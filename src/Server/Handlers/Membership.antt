-- ===== src/Server/Handlers/Membership.antt =====
-- What the handlers do to the channels of a server and to the users on them.
use irccd.Base.{
  ℕ, ◌+◌, ◌≡◌, refl, inl, inr, Bool, true, false, ◌||◌, some, List, [], ◌∷◌, arith, ◌==◌,
  Bool-cases, Option-cases, drop, any, Bytes, to_lower, str_case_eq,
}
use irccd.Memory.{read}
use irccd.Event.{Event, NamesUser}
use irccd.Channel
use irccd.Channel.{Channel, User}
use irccd.Conn.Message.{Msg}
use irccd.Server.{
  Prefix, Server, modes_find, modes_find_loop, find_loop, channels_find, update_loop, is_self,
  update_channel,
}
use irccd.Server.Handlers.{
  mode_loop, handle_mode, is_skipped, copy_loop, calloc_users, names_array, handle_part, part_user,
}

-- The entry of a user in the array of the names.
abbrev pub entry : User → NamesUser
entry u = record { nickname = some u.nickname; modes = u.modes }

abbrev pub last_user : User → List User → User
last_user u [] = u
last_user u (v ∷ users) = last_user v users

copy_loop-first :
    (users : List User) (u : User) (array : List NamesUser)
    → copy_loop users 0 (entry u ∷ array) ≡ entry (last_user u users) ∷ array
unfolding copy_loop
copy_loop-first [] u array = refl
copy_loop-first (v ∷ users) u array = copy_loop-first users v array

-- The array of names of a channel with users has the last user in front, and behind it, for each
-- other user, an entry whose nickname is NULL.
pub names_array-last :
    (u : User) (users : List User)
    → names_array (u ∷ users) ≡ entry (last_user u users) ∷ calloc_users users
unfolding names_array copy_loop
names_array-last u users = copy_loop-first users u (calloc_users users)

-- A write that does not change the channel that it is on changes nothing.
update_loop-same :
    (cs : List Channel) (name : Bytes) (ch : Channel) (f : Channel → Channel)
    → find_loop cs name ≡ some ch
    → f ch ≡ ch
    → update_loop cs name f ≡ cs
unfolding find_loop update_loop
update_loop-same [] name ch f h g = refl
update_loop-same (c ∷ cs) name ch f h g = elim (Bool-cases (str_case_eq c.name name)) [
  | inl e ↦ ground (arith, h, e, g)
  | inr e ↦ ground (arith, h, e, update_loop-same cs name ch f)
]

-- Every letter is a sign, a mode that is not one of users, or the mode of the first prefix.
abbrev pub AreFirst : ℕ → Bytes → Type 0
AreFirst first [] = Unit
AreFirst first (c ∷ p) =
    (((c == b'+' || c == b'-') || is_skipped c || first == c) ≡ true) × AreFirst first p

mode_loop-first :
    (s : Server) (q : Prefix) (prefixes : List Prefix) (args : List Bytes) (text : Bytes)
    (action argindex : ℕ) (ch : Channel)
    → s.prefixes ≡ q ∷ prefixes
    → AreFirst q.mode text
    → mode_loop s args action argindex text ch ≡ some ch
unfolding mode_loop modes_find modes_find_loop
mode_loop-first s q prefixes args [] action argindex ch e h = refl
mode_loop-first s q prefixes args (c ∷ p) action argindex ch e h = ground (
  arith,
  h.0,
  e,
  mode_loop-first s q prefixes args p c argindex ch e h.1,
  mode_loop-first s q prefixes args p action (argindex + 1) ch e h.1,
)

-- A complete MODE message whose letters are signs, modes with an argument that is not used, and
-- the mode of the first prefix that the server announced, such as `o`, changes nothing but to
-- dispatch its event.
pub handle_mode-first :
    (s : Server) (msg : Msg) (q : Prefix) (prefixes : List Prefix) (origin channel text : Bytes)
    → s.prefixes ≡ q ∷ prefixes
    → msg.prefix ≡ some origin
    → read msg.args 0 ≡ some channel
    → read msg.args 1 ≡ some text
    → AreFirst q.mode text
    → handle_mode s msg ≡ some (s, Event.mode s.name origin channel text (drop 2 msg.args) ∷ [])
unfolding handle_mode channels_find update_channel
handle_mode-first s msg q prefixes origin channel text e eo ec et h =
    elim (Option-cases (find_loop s.channels channel)) [
      | inl n ↦ rw (eo, ec, et, n)
      | inr (ch, f) ↦ rw (
        eo,
        ec,
        et,
        f,
        mode_loop-first s q prefixes msg.args text 0 2 ch e h,
        update_loop-same s.channels channel ch (λ _. ch) f refl,
      )
    ]

abbrev pub has_bang : Bytes → Bool
has_bang = any (λ c. c == b'!')

has_bang-case : (a b : Bytes) → str_case_eq a b ≡ true → has_bang a ≡ has_bang b
unfolding str_case_eq to_lower
has_bang-case [] [] h = refl
has_bang-case [] (y ∷ b) h = ground (arith, h)
has_bang-case (x ∷ a) [] h = ground (arith, h)
has_bang-case (x ∷ a) (y ∷ b) h = ground (arith, h, has_bang-case a b)

-- No nickname has a `!`.
abbrev pub AreNicknames : List User → Type 0
AreNicknames [] = Unit
AreNicknames (u ∷ users) = (has_bang u.nickname ≡ false) × AreNicknames users

remove_loop-mask :
    (users : List User) (origin : Bytes)
    → has_bang origin ≡ true
    → AreNicknames users
    → Channel.remove_loop users origin ≡ users
unfolding Channel.remove_loop
remove_loop-mask [] origin h n = refl
remove_loop-mask (u ∷ users) origin h n =
    ground (arith, h, n.0, has_bang-case u.nickname origin, remove_loop-mask users origin h n.1)

-- When another user leaves a channel that is known, with a reason, and the origin has a `!`, as
-- in `nickname!user@host`, while no nickname on the channel has one, the users of the channel
-- stay as they are.
pub handle_part-mask :
    (s : Server) (msg : Msg) (ch : Channel) (origin channel reason : Bytes)
    → msg.prefix ≡ some origin
    → read msg.args 0 ≡ some channel
    → read msg.args 1 ≡ some reason
    → is_self s origin ≡ false
    → channels_find s channel ≡ some ch
    → has_bang origin ≡ true
    → AreNicknames ch.users
    → handle_part s msg ≡ some (s, Event.part s.name origin channel (some reason) ∷ [])
unfolding handle_part part_user channels_find update_channel Channel.remove
handle_part-mask s msg ch origin channel reason eo ec er es ef h n =
    let same : Channel.remove ch origin ≡ ch = rw (remove_loop-mask ch.users origin h n) in
    rw (eo, ec, er, es, part_user, channels_find, ef)
      (rw (update_loop-same s.channels channel ch (λ c. Channel.remove c origin) ef same))
