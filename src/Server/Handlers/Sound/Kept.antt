-- ===== src/Server/Handlers/Sound/Kept.antt =====
-- What is done to one channel keeps its name, and its users apart.
use irccd.Base.{
  ℕ, ◌+◌, ◌≡◌, refl, ap, ◌∙◌, subst, inl, inr, Bool, true, false, ◌||◌, Option, none, some, List,
  [], ◌∷◌, arith, ◌==◌, if◌then◌else◌, Bool-cases, Option-cases, Bytes, str_case_eq,
}
use irccd.Memory.{◌>>=◌, read}
use irccd.Channel
use irccd.Channel.{Channel, User, flags_joined, flags_none}
use irccd.Channel.Users
use irccd.Channel.Users.{Op, add_op, set_op, remove_op, clear_op}
use irccd.Server.Prefixes.{strip}
use irccd.Server.{Server, find_loop, update_channel, modes_find}
use irccd.Server.Handlers.{
  Handled, kicked, mode_loop, mode_letter, names_loop, tokens, change, is_skipped,
}
use irccd.Server.Handlers.Sound.{AreDistinct, Keeps, IsKeeping, update_loop-AreDistinct}

-- Every call on a channel keeps its name, and its users apart.
pub kick_self-IsKeeping : (cs : List Channel) (name : Bytes) → IsKeeping cs name kicked
unfolding Channel.clear
kick_self-IsKeeping cs name c g u = (refl, tt)

pub remove-IsKeeping :
    (cs : List Channel) (name nickname : Bytes) → IsKeeping cs name (λ c. Channel.remove c nickname)
unfolding Channel.remove
remove-IsKeeping cs name nickname c g u =
    (refl, Users.apply_all-IsUnique (remove_op nickname ∷ []) c u)

-- The second channel has the name of the first, and its users are apart.
abbrev pub Kept : Channel → Channel → Type 0
Kept c e = (e.name ≡ c.name) × Users.IsUnique e.users

abbrev pub KeptIf : Channel → Option Channel → Type 0
KeptIf c none = Unit
KeptIf c (some e) = Kept c e

KeptIf-trans : (c e : Channel) (o : Option Channel) → Kept c e → KeptIf e o → KeptIf c o
KeptIf-trans c e none k h = tt
KeptIf-trans c e (some x) k h = (h.0 ∙ k.0, h.1)

if-KeptIf :
    (b : Bool) (c : Channel) (x y : Option Channel)
    → KeptIf c x
    → KeptIf c y
    → KeptIf c (if b then x else y)
if-KeptIf true c x y h k = h
if-KeptIf false c x y h k = k

add-same :
    (c : Channel) (nickname : Bytes) (modes : ℕ) → (Channel.add c nickname modes).name ≡ c.name
unfolding Channel.add
add-same c nickname modes = elim (Option-cases (Channel.get c nickname)) [
  | inl e ↦ rw (Channel.add, e)
  | inr (u, e) ↦ rw (Channel.add, e)
]

pub names_loop-Kept :
    (s : Server) (tokens : List Bytes) (c : Channel)
    → Users.IsUnique c.users
    → Kept c (names_loop s tokens c)
unfolding names_loop
names_loop-Kept s [] c u = (refl, u)
names_loop-Kept s (token ∷ tokens) c u =
    let stripped = strip s token in
    let added = Channel.add c stripped.1 stripped.0 in
    let kept =
      names_loop-Kept s tokens added
        (Users.apply_all-IsUnique (add_op stripped.1 stripped.0 ∷ []) c u) in
    (kept.0 ∙ add-same c stripped.1 stripped.0, kept.1)

set-Kept :
    (c : Channel) (nickname : Bytes) (modes : ℕ)
    → Users.IsUnique c.users
    → Kept c (Channel.set c nickname modes)
unfolding Channel.set
set-Kept c nickname modes u = (refl, Users.apply_all-IsUnique (set_op nickname modes ∷ []) c u)

mode_letter-Kept :
    (c : Channel) (nickname : Bytes) (action mode : ℕ)
    → Users.IsUnique c.users
    → Kept c (mode_letter c nickname action mode)
unfolding mode_letter
mode_letter-Kept c nickname action mode u = go (Channel.get c nickname)
  where
    go :
        (o : Option User)
        → Kept c (elim o as (λ _. Channel) [
          | none ↦ c
          | some v ↦ Channel.set c v.nickname (change action v.modes mode)
        ])
    go none = (refl, u)
    go (some v) = set-Kept c v.nickname (change action v.modes mode) u

bind-KeptIf {ℓ} :
    {A : Type ℓ} (c : Channel) (o : Option A) (f : A → Option Channel)
    → ((a : A) → KeptIf c (f a))
    → KeptIf c (o >>= f)
bind-KeptIf c none f h = tt
bind-KeptIf c (some a) f h = h a

pub mode_loop-Kept :
    (s : Server) (args : List Bytes) (text : Bytes) (action argindex : ℕ) (c : Channel)
    → Users.IsUnique c.users
    → KeptIf c (mode_loop s args action argindex text c)
unfolding mode_loop
mode_loop-Kept s args [] action argindex c u = (refl, u)
mode_loop-Kept s args (x ∷ p) action argindex c u =
    let skipped = mode_loop-Kept s args p action (argindex + 1) c u in
    if-KeptIf (x == b'+' || x == b'-') c _ _ (mode_loop-Kept s args p x argindex c u) (
      if-KeptIf (is_skipped x) c _ _ skipped (
        if-KeptIf (modes_find s x == 0) c _ _ skipped (
          bind-KeptIf c (read args argindex) _ (λ nickname.
            let changed = mode_letter c nickname action (modes_find s x) in
            let kept = mode_letter-Kept c nickname action (modes_find s x) u in
            KeptIf-trans c changed _ kept
              (mode_loop-Kept s args p action (argindex + 1) changed kept.1)))))

pub update_channel-AreDistinct :
    (s : Server) (name : Bytes) (f : Channel → Channel)
    → IsKeeping s.channels name f
    → AreDistinct s.channels
    → AreDistinct (update_channel s name f).channels
unfolding update_channel
update_channel-AreDistinct s name f k d = update_loop-AreDistinct s.channels name f k d

pub found-IsUnique :
    (cs : List Channel) (name : Bytes) (c : Channel)
    → AreDistinct cs
    → find_loop cs name ≡ some c
    → Users.IsUnique c.users
unfolding find_loop
found-IsUnique [] name c d h = absurd (ground (arith, h))
found-IsUnique (e ∷ cs) name c d h = elim (Bool-cases (str_case_eq e.name name)) [
  | inl t ↦
      let same : e ≡ c = ground (arith, t, h) in
      subst (λ (x : Channel). Users.IsUnique x.users) same d.1
  | inr t ↦ found-IsUnique cs name c d.2 (ground (arith, t, h))
]

pub bind-Kept :
    (c : Channel) (o : Option Channel) (f : Channel → Handled)
    → KeptIf c o
    → ((e : Channel) → Kept c e → Keeps (f e))
    → Keeps (o >>= f)
bind-Kept c none f k h = tt
bind-Kept c (some e) f k h = h e k

-- The channel that was found is replaced by one of its name.
pub replaced-AreDistinct :
    (s : Server) (name : Bytes) (c e : Channel)
    → find_loop s.channels name ≡ some c
    → Kept c e
    → AreDistinct s.channels
    → AreDistinct (update_channel s name (λ _. e)).channels
replaced-AreDistinct s name c e h k d =
    update_channel-AreDistinct s name (λ _. e)
      (λ x g u.
        let same : c ≡ x = ground (arith, g, h) in (k.0 ∙ ap (λ (y : Channel). y.name) same, k.1))
      d
