-- ===== src/Channel.antt =====
-- lib/irccd/channel.c: a channel and the users that are on it.
--
-- The linked list of users is the list of its nodes from the head. `LL_DELETE` unlinks the node that
-- `find` returned, which is the first with that nickname.
pub mod Users
use irccd.Base.{ℕ, ◌+◌, Option, none, some, List, [], ◌∷◌, if◌then◌else◌, Bytes, lower, str_case_eq}

pub record User : Type 0 where
  pub nickname : Bytes
  pub modes : ℕ

pub record Channel : Type 0 where
  pub name : Bytes
  pub password : Option Bytes
  pub flags : ℕ
  pub users : List User

abbrev pub flags_none : ℕ
flags_none = 0

abbrev pub flags_joined : ℕ
flags_joined = 1

-- The loop of the static `find`.
unfoldable pub find_loop : List User → Bytes → Option User
find_loop [] nickname = none
find_loop (u ∷ users) nickname =
    if str_case_eq u.nickname nickname then some u else find_loop users nickname

-- `irc_channel_new`: the name is kept in lower case.
unfoldable pub new : Bytes → Option Bytes → ℕ → Channel
new name password flags = record {
  name = lower name;
  password = password;
  flags = flags;
  users = [];
}

-- `irc_channel_get`
unfoldable pub get : Channel → Bytes → Option User
unfolding find_loop
get ch nickname = find_loop ch.users nickname

-- `irc_channel_add`
unfoldable pub add : Channel → Bytes → ℕ → Channel
unfolding get
add ch nickname modes = elim (get ch nickname) [
  | some u ↦ ch
  | none ↦ record ch { users = record { nickname = nickname; modes = modes } ∷ ch.users }
]

-- The write through the pointer that `find` returned.
unfoldable pub set_loop : List User → Bytes → ℕ → List User
set_loop [] nickname modes = []
set_loop (u ∷ users) nickname modes =
    let later = set_loop users nickname modes in
    if str_case_eq u.nickname nickname then record u { modes = modes } ∷ users else u ∷ later

-- `irc_channel_set`
unfoldable pub set : Channel → Bytes → ℕ → Channel
unfolding set_loop
set ch nickname modes = record ch { users = set_loop ch.users nickname modes }

-- `irc_channel_clear`
unfoldable pub clear : Channel → Channel
clear ch = record ch { users = []; flags = flags_none }

-- `irc_channel_count`
unfoldable pub count_loop : List User → ℕ → ℕ
count_loop [] rc = rc
count_loop (u ∷ users) rc = count_loop users (rc + 1)

unfoldable pub count : Channel → ℕ
unfolding count_loop
count ch = count_loop ch.users 0

unfoldable pub remove_loop : List User → Bytes → List User
remove_loop [] nickname = []
remove_loop (u ∷ users) nickname =
    let later = remove_loop users nickname in
    if str_case_eq u.nickname nickname then users else u ∷ later

-- `irc_channel_remove`
unfoldable pub remove : Channel → Bytes → Channel
unfolding remove_loop
remove ch nickname = record ch { users = remove_loop ch.users nickname }
