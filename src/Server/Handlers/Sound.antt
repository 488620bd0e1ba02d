-- ===== src/Server/Handlers/Sound.antt =====
-- The handlers keep the channels of a server apart by their names, and the users of each channel by
-- their nicknames.
pub mod Kept
pub mod Steps
use irccd.Base.{
  ℕ, bit_or, ◌≡◌, refl, sym, ap, ◌∙◌, subst, inl, inr, Bool, true, false, Option, none, some, List,
  [], ◌∷◌, arith, if◌then◌else◌, Bool-cases, Option-cases, Bytes, lower, str_case_eq,
  str_case_eq_iff, lower_idem, has_flag, Result, ok, err,
}
use irccd.Memory.{◌>>=◌, read}
use irccd.Event
use irccd.Event.{Event}
use irccd.Channel
use irccd.Channel.{Channel, User, flags_joined, flags_none}
use irccd.Channel.Users
use irccd.Channel.Users.{Op, add_op, set_op, remove_op, clear_op}
use irccd.Conn.Message.{Msg}
use irccd.Conn.Output
use irccd.Server.Prefixes.{strip}
use irccd.Server.{
  Server, is_self, flags_auto_rejoin, find_loop, channels_find, update_loop, update_channel,
  channels_add, unlink_loop, channels_remove, send, join, is_joined, modes_find, join_text,
}
use irccd.Server.Handlers.{
  Handled, join_loop, handle_connect, handle_invite, handle_join, kicked, rejoin, handle_kick,
  mode_loop, mode_letter, handle_mode, part_user, handle_part, handle_names, names_loop, tokens,
}

-- No two channels have the same name up to case, and no two users of a channel the same nickname.
abbrev pub AreDistinct : List Channel → Type 0
AreDistinct [] = Unit
AreDistinct (c ∷ cs) = (find_loop cs c.name ≡ none) × Users.IsUnique c.users × AreDistinct cs

-- What a handler leaves, if it does not fault.
abbrev pub Keeps : Handled → Type 0
Keeps none = Unit
Keeps (some (t, events)) = AreDistinct t.channels

-- The write keeps the name of the channel that it is on, and its users apart.
abbrev pub IsKeeping : List Channel → Bytes → (Channel → Channel) → Type 0
IsKeeping cs name f =
    (c : Channel)
    → find_loop cs name ≡ some c
    → Users.IsUnique c.users
    → ((f c).name ≡ c.name) × Users.IsUnique (f c).users

IsKeeping-here :
    (c : Channel) (cs : List Channel) (name : Bytes) (f : Channel → Channel)
    → str_case_eq c.name name ≡ true
    → IsKeeping (c ∷ cs) name f
    → Users.IsUnique c.users
    → ((f c).name ≡ c.name) × Users.IsUnique (f c).users
unfolding find_loop
IsKeeping-here c cs name f e k u = k c (rw e) u

IsKeeping-later :
    (c : Channel) (cs : List Channel) (name : Bytes) (f : Channel → Channel)
    → str_case_eq c.name name ≡ false
    → IsKeeping (c ∷ cs) name f
    → IsKeeping cs name f
unfolding find_loop
IsKeeping-later c cs name f e k d g = k d (rw e g)

find_loop-case :
    (cs : List Channel) (a b : Bytes) → str_case_eq a b ≡ true → find_loop cs a ≡ find_loop cs b
unfolding find_loop
find_loop-case [] a b h = refl
find_loop-case (c ∷ cs) a b h = ground (
  arith,
  find_loop-case cs a b h,
  str_case_eq_iff a b,
  str_case_eq_iff c.name a,
  str_case_eq_iff c.name b,
)

find_loop-update_loop :
    (cs : List Channel) (name : Bytes) (f : Channel → Channel) (other : Bytes)
    → IsKeeping cs name f
    → AreDistinct cs
    → find_loop cs other ≡ none
    → find_loop (update_loop cs name f) other ≡ none
unfolding find_loop update_loop
find_loop-update_loop [] name f other k d h = refl
find_loop-update_loop (c ∷ cs) name f other k d h = elim (Bool-cases (str_case_eq c.name name)) [
  | inl e ↦
      let same = ap (λ n. str_case_eq n other) (IsKeeping-here c cs name f e k d.1).0 in
      ground (arith, h, same, e)
  | inr e ↦
      let later = find_loop-update_loop cs name f other (IsKeeping-later c cs name f e k) d.2 in
      ground (arith, h, later, e)
]

pub update_loop-AreDistinct :
    (cs : List Channel) (name : Bytes) (f : Channel → Channel)
    → IsKeeping cs name f
    → AreDistinct cs
    → AreDistinct (update_loop cs name f)
unfolding update_loop
update_loop-AreDistinct [] name f k d = tt
update_loop-AreDistinct (c ∷ cs) name f k d = elim (Bool-cases (str_case_eq c.name name)) [
  | inl e ↦
      let kept = IsKeeping-here c cs name f e k d.1 in
      rw e (subst (λ n. find_loop cs n ≡ none) (sym kept.0) d.0, kept.1, d.2)
  | inr e ↦
      let later = IsKeeping-later c cs name f e k in
      rw e (
        find_loop-update_loop cs name f c.name later d.2 d.0,
        d.1,
        update_loop-AreDistinct cs name f later d.2,
      )
]

find_loop-unlink_loop :
    (cs : List Channel) (name other : Bytes)
    → find_loop cs other ≡ none
    → find_loop (unlink_loop cs name) other ≡ none
unfolding find_loop unlink_loop
find_loop-unlink_loop [] name other h = refl
find_loop-unlink_loop (c ∷ cs) name other h = ground (arith, h, find_loop-unlink_loop cs name other)

pub unlink_loop-AreDistinct :
    (cs : List Channel) (name : Bytes) → AreDistinct cs → AreDistinct (unlink_loop cs name)
unfolding unlink_loop
unlink_loop-AreDistinct [] name d = tt
unlink_loop-AreDistinct (c ∷ cs) name d = elim (Bool-cases (str_case_eq c.name name)) [
  | inl e ↦ rw e d.2
  | inr e ↦
      rw e (find_loop-unlink_loop cs name c.name d.0, d.1, unlink_loop-AreDistinct cs name d.2)
]

new-channels :
    (s : Server) (name : Bytes) (password : Option Bytes) (flags : ℕ)
    → find_loop s.channels name ≡ none
    → (channels_add s name password flags).channels ≡ Channel.new name password flags ∷ s.channels
unfolding channels_add channels_find
new-channels s name password flags e = rw (channels_add, channels_find, e)

old-channels :
    (s : Server) (name : Bytes) (password : Option Bytes) (flags : ℕ) (ch : Channel)
    → find_loop s.channels name ≡ some ch
    → (channels_add s name password flags).channels
      ≡ update_loop s.channels name (λ c. record c { flags = bit_or c.flags flags })
unfolding channels_add channels_find update_channel
old-channels s name password flags ch e = rw (channels_add, channels_find, e)

new-AreDistinct :
    (cs : List Channel) (name : Bytes) (password : Option Bytes) (flags : ℕ)
    → find_loop cs name ≡ none
    → AreDistinct cs
    → AreDistinct (Channel.new name password flags ∷ cs)
unfolding Channel.new
new-AreDistinct cs name password flags e d =
    let same : str_case_eq (lower name) name ≡ true =
      ground (arith, str_case_eq_iff (lower name) name, lower_idem name) in
    (find_loop-case cs (lower name) name same ∙ e, tt, d)

pub channels_add-AreDistinct :
    (s : Server) (name : Bytes) (password : Option Bytes) (flags : ℕ)
    → AreDistinct s.channels
    → AreDistinct (channels_add s name password flags).channels
channels_add-AreDistinct s name password flags d = elim (Option-cases (find_loop s.channels name)) [
  | inl e ↦
      subst AreDistinct (sym (new-channels s name password flags e))
        (new-AreDistinct s.channels name password flags e d)
  | inr (ch, e) ↦ subst AreDistinct (sym (old-channels s name password flags ch e)) (
      update_loop-AreDistinct s.channels name (λ c. record c { flags = bit_or c.flags flags })
        (λ c g u. (refl, u)) d)
]

sent-channels :
    (s : Server) (r : Result Bytes)
    → (elim r as (λ _. Server) [ ok out ↦ record s { out = out } | err e ↦ s ]).channels
      ≡ s.channels
sent-channels s (ok out) = refl
sent-channels s (err e) = refl

send-channels : (s : Server) (text : Bytes) → (send s text).channels ≡ s.channels
unfolding send
send-channels s text = sent-channels s (Output.send_va s.ready s.out text)

elim-AreDistinct :
    (o : Option Channel) (s t : Server)
    → AreDistinct s.channels
    → AreDistinct t.channels
    → AreDistinct (elim o as (λ _. Server) [ none ↦ t | some ch ↦ s ]).channels
elim-AreDistinct none s t d g = g
elim-AreDistinct (some ch) s t d g = d

if-channels :
    (b c : Bool) (t u : Server)
    → u.channels ≡ t.channels
    → AreDistinct t.channels
    → AreDistinct (if b then t else if c then u else t).channels
if-channels true c t u e d = d
if-channels false true t u e d = subst AreDistinct (sym e) d
if-channels false false t u e d = d

pub join-AreDistinct :
    (s : Server) (name : Bytes) (pass : Option Bytes)
    → AreDistinct s.channels
    → AreDistinct (join s name pass).channels
unfolding join
join-AreDistinct s name pass d =
    let added : Server = elim (channels_find s name) [
      | some ch ↦ s
      | none ↦ channels_add s name pass flags_none
    ] in
    if-channels (is_joined (channels_find added name)) added.ready added
      (send added (join_text name pass)) (send-channels added (join_text name pass))
      (elim-AreDistinct (channels_find s name) s (channels_add s name pass flags_none) d
        (channels_add-AreDistinct s name pass flags_none d))

pub if-AreDistinct :
    (b : Bool) (s t : Server)
    → AreDistinct s.channels
    → AreDistinct t.channels
    → AreDistinct (if b then s else t).channels
if-AreDistinct true s t d g = d
if-AreDistinct false s t d g = g

pub join_loop-AreDistinct :
    (cs : List Channel) (s : Server)
    → AreDistinct s.channels
    → AreDistinct (join_loop s cs).channels
unfolding join_loop
join_loop-AreDistinct [] s d = d
join_loop-AreDistinct (c ∷ cs) s d =
    join_loop-AreDistinct cs (join s c.name c.password) (join-AreDistinct s c.name c.password d)

pub rejoin-AreDistinct :
    (s : Server) (name : Bytes) → AreDistinct s.channels → AreDistinct (rejoin s name).channels
unfolding rejoin
rejoin-AreDistinct s name d = go (channels_find s name)
  where
    go :
        (o : Option Channel)
        → AreDistinct
            (elim o as (λ _. Server) [
              | none ↦ s
              | some ch ↦
                  if has_flag s.flags flags_auto_rejoin then join s ch.name ch.password else s
            ]).channels
    go none = d
    go (some ch) =
        if-AreDistinct (has_flag s.flags flags_auto_rejoin) (join s ch.name ch.password) s
          (join-AreDistinct s ch.name ch.password d) d

pub bind-Keeps {ℓ} :
    {A : Type ℓ} (o : Option A) (f : A → Handled) → ((a : A) → Keeps (f a)) → Keeps (o >>= f)
bind-Keeps none f h = tt
bind-Keeps (some a) f h = h a
