-- ===== src/Server/Handlers/Complete/Exact.antt =====
-- A handler goes through exactly when its message is complete.
use irccd.Base.{
  ℕ, zero, suc, ◌+◌, ◌≡◌, refl, ap, ◌∙◌, inl, inr, Bool, true, false, ◌&&◌, ◌||◌, Option, none,
  some, List, [], ◌∷◌, arith, ltb, ◌==◌, if◌then◌else◌, Bool-cases, Option-cases, length, Bytes,
}
use irccd.Memory.{◌>>=◌, read}
use irccd.Channel.{Channel}
use irccd.Conn.Message.{Msg}
use irccd.Server.{Server, is_self, channels_find, modes_find}
use irccd.Server.Handlers.{
  handle_invite, handle_join, handle_kick, mode_loop, mode_letter, handle_mode, part_user,
  handle_part, handle_nick, handle_notice, handle_topic, handle_names, handle_endofnames,
  is_skipped,
}
use irccd.Server.Handlers.Complete.{
  is_done, Kind, invite, join, kick, mode, names, endofnames, nick, notice, part, topic, handler,
  has_nicknames, is_complete,
}

is_done-read : (args : List Bytes) (n : ℕ) → is_done (read args n) ≡ ltb n (length args)
is_done-read [] n = ground arith
is_done-read (a ∷ args) zero = ground arith
is_done-read (a ∷ args) (suc n) = ground (arith, is_done-read args n)

-- A read in front of what follows.
is_done-bind {ℓ κ} :
    {A : Type ℓ} {B : Type κ} (o : Option A) (f : A → Option B) (b : Bool)
    → ((x : A) → is_done (f x) ≡ b)
    → is_done (o >>= f) ≡ (is_done o && b)
is_done-bind none f b h = refl
is_done-bind (some x) f b h = h x

is_done-if {ℓ} :
    {A : Type ℓ} (a b d : Bool) (x y z : Option A) (u v w : Bool)
    → is_done x ≡ u
    → is_done y ≡ v
    → is_done z ≡ w
    → is_done (if a then x else if b then y else if d then y else z)
      ≡ (if a then u else if b || d then v else w)
is_done-if true b d x y z u v w e f g = e
is_done-if false true d x y z u v w e f g = f
is_done-if false false true x y z u v w e f g = f
is_done-if false false false x y z u v w e f g = g

mode_loop-is_done :
    (s : Server) (args : List Bytes) (action index : ℕ) (text : Bytes) (ch : Channel)
    → is_done (mode_loop s args action index text ch) ≡ has_nicknames s (length args) index text
unfolding mode_loop
mode_loop-is_done s args action index [] ch = refl
mode_loop-is_done s args action index (c ∷ p) ch =
    let signed = mode_loop-is_done s args c index p ch in
    let skipped = mode_loop-is_done s args action (index + 1) p ch in
    let changed =
      is_done-bind (read args index) _ (has_nicknames s (length args) (index + 1) p) (λ nickname.
        mode_loop-is_done s args action (index + 1) p
          (mode_letter ch nickname action (modes_find s c))) in
    is_done-if (c == b'+' || c == b'-') (is_skipped c) (modes_find s c == 0) _ _ _ _ _ _ signed
      skipped
      (changed
        ∙ ap (λ (b : Bool). b && has_nicknames s (length args) (index + 1) p)
            (is_done-read args index))

-- A message of its parts.
abbrev pub message : Option Bytes → Bytes → List Bytes → Msg
message prefix cmd args = record { prefix = prefix; cmd = cmd; args = args }

invite-is_done :
    (s : Server) (p : Option Bytes) (cmd : Bytes) (args : List Bytes)
    → is_done (handle_invite s (message p cmd args)) ≡ is_complete invite s (message p cmd args)
unfolding handle_invite
invite-is_done s none cmd args = refl
invite-is_done s (some o) cmd [] = ground arith
invite-is_done s (some o) cmd (a ∷ []) = ground arith
invite-is_done s (some o) cmd (a ∷ b ∷ rest) = ground arith

join-is_done :
    (s : Server) (p : Option Bytes) (cmd : Bytes) (args : List Bytes)
    → is_done (handle_join s (message p cmd args)) ≡ is_complete join s (message p cmd args)
unfolding handle_join
join-is_done s none cmd args = refl
join-is_done s (some o) cmd [] = ground arith
join-is_done s (some o) cmd (a ∷ rest) = ground arith

kick-is_done :
    (s : Server) (p : Option Bytes) (cmd : Bytes) (args : List Bytes)
    → is_done (handle_kick s (message p cmd args)) ≡ is_complete kick s (message p cmd args)
unfolding handle_kick
kick-is_done s none cmd args = refl
kick-is_done s (some o) cmd [] = ground arith
kick-is_done s (some o) cmd (a ∷ []) = ground arith
kick-is_done s (some o) cmd (a ∷ b ∷ []) = ground arith
kick-is_done s (some o) cmd (a ∷ b ∷ c ∷ rest) = ground arith

nick-is_done :
    (s : Server) (p : Option Bytes) (cmd : Bytes) (args : List Bytes)
    → is_done (handle_nick s (message p cmd args)) ≡ is_complete nick s (message p cmd args)
unfolding handle_nick
nick-is_done s none cmd args = refl
nick-is_done s (some o) cmd [] = ground arith
nick-is_done s (some o) cmd (a ∷ rest) = ground arith

notice-is_done :
    (s : Server) (p : Option Bytes) (cmd : Bytes) (args : List Bytes)
    → is_done (handle_notice s (message p cmd args)) ≡ is_complete notice s (message p cmd args)
unfolding handle_notice
notice-is_done s none cmd args = refl
notice-is_done s (some o) cmd [] = ground arith
notice-is_done s (some o) cmd (a ∷ []) = ground arith
notice-is_done s (some o) cmd (a ∷ b ∷ rest) = ground arith

topic-is_done :
    (s : Server) (p : Option Bytes) (cmd : Bytes) (args : List Bytes)
    → is_done (handle_topic s (message p cmd args)) ≡ is_complete topic s (message p cmd args)
unfolding handle_topic
topic-is_done s none cmd args = refl
topic-is_done s (some o) cmd [] = ground arith
topic-is_done s (some o) cmd (a ∷ []) = ground arith
topic-is_done s (some o) cmd (a ∷ b ∷ rest) = ground arith

names-is_done :
    (s : Server) (p : Option Bytes) (cmd : Bytes) (args : List Bytes)
    → is_done (handle_names s (message p cmd args)) ≡ is_complete names s (message p cmd args)
unfolding handle_names
names-is_done s p cmd [] = ground arith
names-is_done s p cmd (a ∷ []) = ground arith
names-is_done s p cmd (a ∷ b ∷ []) = ground arith
names-is_done s p cmd (a ∷ b ∷ c ∷ []) = ground arith
names-is_done s p cmd (a ∷ b ∷ c ∷ d ∷ rest) = ground arith

endofnames-is_done :
    (s : Server) (p : Option Bytes) (cmd : Bytes) (args : List Bytes)
    → is_done (handle_endofnames s (message p cmd args))
      ≡ is_complete endofnames s (message p cmd args)
unfolding handle_endofnames
endofnames-is_done s p cmd [] = ground arith
endofnames-is_done s p cmd (a ∷ []) = ground arith
endofnames-is_done s p cmd (a ∷ b ∷ rest) = elim (Option-cases (channels_find s b)) [
  | inl e ↦ rw (is_done, handle_endofnames, e) (ground arith)
  | inr (ch, e) ↦ rw (is_done, handle_endofnames, e) (ground arith)
]

and_true : (b : Bool) → (b && true) ≡ b
and_true true = refl
and_true false = refl

mode-is_done :
    (s : Server) (p : Option Bytes) (cmd : Bytes) (args : List Bytes)
    → is_done (handle_mode s (message p cmd args)) ≡ is_complete mode s (message p cmd args)
unfolding handle_mode
mode-is_done s none cmd args = refl
mode-is_done s (some o) cmd [] = refl
mode-is_done s (some o) cmd (a ∷ []) = refl
mode-is_done s (some o) cmd (a ∷ text ∷ rest) = elim (Option-cases (channels_find s a)) [
  | inl e ↦ rw (handle_mode, e) refl
  | inr (ch, e) ↦
      let all = mode_loop-is_done s (a ∷ text ∷ rest) 0 2 text ch in
      rw (handle_mode, e)
        (is_done-bind (mode_loop s (a ∷ text ∷ rest) 0 2 text ch) _ true (λ _. refl)
          ∙ (and_true (is_done (mode_loop s (a ∷ text ∷ rest) 0 2 text ch)) ∙ all))
]

part-is_done :
    (s : Server) (p : Option Bytes) (cmd : Bytes) (args : List Bytes)
    → is_done (handle_part s (message p cmd args)) ≡ is_complete part s (message p cmd args)
unfolding handle_part part_user
part-is_done s none cmd args = refl
part-is_done s (some o) cmd [] = refl
part-is_done s (some o) cmd (a ∷ []) = refl
part-is_done s (some o) cmd (a ∷ b ∷ rest) = elim (Bool-cases (is_self s o)) [
  | inl t ↦ rw (handle_part, t) refl
  | inr t ↦ elim (Option-cases (channels_find s a)) [
    | inl e ↦ rw (handle_part, t, part_user, e) refl
    | inr (ch, e) ↦ rw (handle_part, t, part_user, e) refl
  ]
]

-- The handlers of INVITE, JOIN, KICK, MODE, NICK, NOTICE, PART, TOPIC, of a list of names and of its
-- end go through exactly when their message has what they read, and fault otherwise: an origin,
-- except for the last two; one argument for a JOIN and a NICK, two for an INVITE, a MODE, a NOTICE, a
-- PART, a TOPIC and an end of names, three for a KICK and four for a list of names; for a MODE on a
-- known channel, an argument at the place of each letter of a user's mode that the search of modes
-- finds, where each letter but the signs has a place; and for a PART of another user a channel that
-- is known.
pub handler-is_done :
    (k : Kind) (s : Server) (msg : Msg) → is_done (handler k s msg) ≡ is_complete k s msg
handler-is_done invite s msg = invite-is_done s msg.prefix msg.cmd msg.args
handler-is_done join s msg = join-is_done s msg.prefix msg.cmd msg.args
handler-is_done kick s msg = kick-is_done s msg.prefix msg.cmd msg.args
handler-is_done mode s msg = mode-is_done s msg.prefix msg.cmd msg.args
handler-is_done names s msg = names-is_done s msg.prefix msg.cmd msg.args
handler-is_done endofnames s msg = endofnames-is_done s msg.prefix msg.cmd msg.args
handler-is_done nick s msg = nick-is_done s msg.prefix msg.cmd msg.args
handler-is_done notice s msg = notice-is_done s msg.prefix msg.cmd msg.args
handler-is_done part s msg = part-is_done s msg.prefix msg.cmd msg.args
handler-is_done topic s msg = topic-is_done s msg.prefix msg.cmd msg.args
