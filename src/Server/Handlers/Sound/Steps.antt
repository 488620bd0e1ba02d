-- ===== src/Server/Handlers/Sound/Steps.antt =====
-- Each handler, on a server whose channels and users are apart.
use irccd.Base.{
  inl, inr, Bool, true, false, Option, none, some, List, [], ◌∷◌, if◌then◌else◌, Option-cases, drop,
  Bytes,
}
use irccd.Memory.{◌>>=◌, read}
use irccd.Event.{Event}
use irccd.Channel
use irccd.Channel.{Channel, User, flags_joined, flags_none}
use irccd.Conn.Message.{Msg}
use irccd.Server.{
  Server, is_self, find_loop, channels_find, update_channel, channels_add, channels_remove, join,
}
use irccd.Server.Handlers.{
  Handled, handle_connect, handle_invite, handle_join, kicked, handle_kick, mode_loop, handle_mode,
  part_user, handle_part, handle_names, names_loop, tokens,
}
use irccd.Server.Handlers.Sound.{
  AreDistinct, Keeps, unlink_loop-AreDistinct, channels_add-AreDistinct, join-AreDistinct,
  join_loop-AreDistinct, rejoin-AreDistinct, if-AreDistinct, bind-Keeps,
}
use irccd.Server.Handlers.Sound.Kept.{
  kick_self-IsKeeping, remove-IsKeeping, names_loop-Kept, mode_loop-Kept,
  update_channel-AreDistinct, found-IsUnique, bind-Kept, replaced-AreDistinct,
}

handle_kick-Keeps : (s : Server) (msg : Msg) → AreDistinct s.channels → Keeps (handle_kick s msg)
unfolding handle_kick
handle_kick-Keeps s msg d = bind-Keeps msg.prefix _ (λ origin.
    bind-Keeps (read msg.args 0) _ (λ channel. bind-Keeps (read msg.args 1) _ (λ target.
      bind-Keeps (read msg.args 2) _ (λ reason.
        let added = channels_add s channel none flags_joined in
        let sound = channels_add-AreDistinct s channel none flags_joined d in
        if-AreDistinct (is_self s target) _ _
          (rejoin-AreDistinct (update_channel added channel kicked) channel (
            update_channel-AreDistinct added channel kicked
              (kick_self-IsKeeping added.channels channel) sound))
          (update_channel-AreDistinct added channel (λ c. Channel.remove c target)
            (remove-IsKeeping added.channels channel target) sound)))))

handle_names-Keeps : (s : Server) (msg : Msg) → AreDistinct s.channels → Keeps (handle_names s msg)
unfolding handle_names
handle_names-Keeps s msg d = bind-Keeps (read msg.args 2) _ (λ channel.
    bind-Keeps (read msg.args 3) _ (λ list.
      update_channel-AreDistinct (channels_add s channel none flags_joined) channel
        (names_loop s (tokens [] list)) (λ c g u. names_loop-Kept s (tokens [] list) c u)
        (channels_add-AreDistinct s channel none flags_joined d)))

handle_join-Keeps : (s : Server) (msg : Msg) → AreDistinct s.channels → Keeps (handle_join s msg)
unfolding handle_join
handle_join-Keeps s msg d = bind-Keeps msg.prefix _ (λ origin.
    bind-Keeps (read msg.args 0) _
      (λ channel. channels_add-AreDistinct s channel none flags_joined d))

handle_invite-Keeps :
    (s : Server) (msg : Msg) → AreDistinct s.channels → Keeps (handle_invite s msg)
unfolding handle_invite
handle_invite-Keeps s msg d = bind-Keeps msg.prefix _ (λ origin.
    bind-Keeps (read msg.args 1) _
      (λ channel. if-AreDistinct _ (join s channel none) s (join-AreDistinct s channel none d) d))

handle_connect-Keeps :
    (s : Server) (msg : Msg) → AreDistinct s.channels → Keeps (handle_connect s msg)
unfolding handle_connect
handle_connect-Keeps s msg d = join_loop-AreDistinct s.channels s d

handle_mode-Keeps : (s : Server) (msg : Msg) → AreDistinct s.channels → Keeps (handle_mode s msg)
unfolding handle_mode channels_find
handle_mode-Keeps s msg d = bind-Keeps msg.prefix _ (λ origin.
    bind-Keeps (read msg.args 0) _
      (λ channel. bind-Keeps (read msg.args 1) _ (λ mode. found origin channel mode)))
  where
    found :
        (origin channel mode : Bytes)
        → Keeps (elim (find_loop s.channels channel) as (λ _. Handled) [
          | none ↦ some (s, Event.mode s.name origin channel mode (drop 2 msg.args) ∷ [])
          | some ch ↦ mode_loop s msg.args 0 2 mode ch >>= (λ changed. some (
            update_channel s channel (λ _. changed),
            Event.mode s.name origin channel mode (drop 2 msg.args) ∷ [],
          ))
        ])
    found origin channel mode = elim (Option-cases (find_loop s.channels channel)) [
      | inl e ↦ rw e d
      | inr (ch, e) ↦ rw e (
          bind-Kept ch (mode_loop s msg.args 0 2 mode ch) _
            (mode_loop-Kept s msg.args mode 0 2 ch (found-IsUnique s.channels channel ch d e))
            (λ changed k. replaced-AreDistinct s channel ch changed e k d))
    ]

abbrev KeepsIf : Option Server → Type 0
KeepsIf none = Unit
KeepsIf (some t) = AreDistinct t.channels

part_user-KeepsIf :
    (s : Server) (channel origin : Bytes)
    → AreDistinct s.channels
    → KeepsIf (part_user s channel origin)
unfolding part_user
part_user-KeepsIf s channel origin d = go (channels_find s channel)
  where
    go :
        (o : Option Channel)
        → KeepsIf (elim o as (λ _. Option Server) [
          | none ↦ none
          | some ch ↦ some (update_channel s channel (λ c. Channel.remove c origin))
        ])
    go none = tt
    go (some ch) =
        update_channel-AreDistinct s channel (λ c. Channel.remove c origin)
          (remove-IsKeeping s.channels channel origin) d

bind-KeepsIf :
    (b : Bool) (t : Server) (o : Option Server) (events : List Event)
    → AreDistinct t.channels
    → KeepsIf o
    → Keeps ((if b then some t else o) >>= (λ left. some (left, events)))
bind-KeepsIf true t o events d h = d
bind-KeepsIf false t none events d h = tt
bind-KeepsIf false t (some u) events d h = h

handle_part-Keeps : (s : Server) (msg : Msg) → AreDistinct s.channels → Keeps (handle_part s msg)
unfolding handle_part channels_remove
handle_part-Keeps s msg d = bind-Keeps msg.prefix _ (λ origin.
    bind-Keeps (read msg.args 0) _ (λ channel. bind-Keeps (read msg.args 1) _ (λ reason.
      bind-KeepsIf (is_self s origin) (channels_remove s channel) (part_user s channel origin)
        (Event.part s.name origin channel (some reason) ∷ [])
        (unlink_loop-AreDistinct s.channels channel d) (part_user-KeepsIf s channel origin d))))

-- On a server whose channels have distinct names and whose channels have users with distinct
-- nicknames, up to case, each handler that changes channels or users leaves them so, unless it
-- reads memory that is not there.
pub handlers-AreDistinct :
    (s : Server) (msg : Msg)
    → AreDistinct s.channels
    → Keeps (handle_connect s msg)
      × Keeps (handle_invite s msg)
      × Keeps (handle_join s msg)
      × Keeps (handle_kick s msg)
      × Keeps (handle_mode s msg)
      × Keeps (handle_part s msg)
      × Keeps (handle_names s msg)
handlers-AreDistinct s msg d = (
  handle_connect-Keeps s msg d,
  handle_invite-Keeps s msg d,
  handle_join-Keeps s msg d,
  handle_kick-Keeps s msg d,
  handle_mode-Keeps s msg d,
  handle_part-Keeps s msg d,
  handle_names-Keeps s msg d,
)
