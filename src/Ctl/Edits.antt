-- ===== src/Ctl/Edits.antt =====
-- The options of the command rule-edit of irccdctl, and how the daemon reads them.
pub mod Applied
use irccd.Base.{
  ℕ, ◌≡◌, refl, false, List, [], ◌∷◌, ◌++◌, map, arith, Bytes, to_lower, has_prefix, is_space,
}
use irccd.Memory.{◌>>=◌}
use irccd.Util.Joined.{IsFree, join}
use irccd.Server.Handlers.{tokens, emit}
use irccd.Rule.{Action, accept, drop as drop_action, Rule}
use irccd.Bot.Rules
use irccd.Bot.Rules.Order.{size-length}
use irccd.Peer.{State, done, push, succeed}
use irccd.Peer.Numbers.{skip_spaces, scan, scan_size, decimal}
use irccd.Peer.Numbers.Printed.{scan_size-decimal}
use irccd.Peer.Rules.{
  Kind, channel, event, origin, plugin, server, add, remove, kind, action, edited, edit, edit_loop,
  set, edit_index, cmd_rule_edit, behind_word,
}
use irccd.Peer.Order.{action_text}
use irccd.Peer.Rules.Tokens.{tokens-word, behind_word-decimal}
use irccd.Peer.Table
use irccd.Peer.Table.{Outside, Command, Row, row, find, first_word, invoke}
use irccd.Peer.Table.Found.{find-lookup, invoke-found}
use irccd.Ctl.Requests.{buf_len, Opt, edit_opts, rule_edit_words}

-- What the user asks for.
pub data Edit : Type 0 where
  becomes : Action → Edit
  plus minus : Kind → Bytes → Edit

abbrev pub small_letter : Kind → ℕ
small_letter channel = b'c'
small_letter event = b'e'
small_letter origin = b'o'
small_letter plugin = b'p'
small_letter server = b's'

abbrev pub big_letter : Kind → ℕ
big_letter channel = b'C'
big_letter event = b'E'
big_letter origin = b'O'
big_letter plugin = b'P'
big_letter server = b'S'

-- The option of irccdctl for it.
abbrev pub opt : Edit → Opt
opt (becomes a) = record { letter = b'a'; optarg = action_text a }
opt (plus k v) = record { letter = small_letter k; optarg = v }
opt (minus k v) = record { letter = big_letter k; optarg = v }

-- Its effect on a rule.
abbrev pub apply : Rule → Edit → Rule
apply r (becomes a) = record r { action = a }
apply r (plus k v) = add k r v
apply r (minus k v) = remove k r v

abbrev pub apply_all : Rule → List Edit → Rule
apply_all r [] = r
apply_all r (e ∷ rest) = apply_all (apply r e) rest

-- No value has a space.
abbrev pub AreWords : List Edit → Type 0
AreWords [] = Unit
AreWords (becomes a ∷ rest) = AreWords rest
AreWords (plus k v ∷ rest) = IsFree b' ' v × AreWords rest
AreWords (minus k v ∷ rest) = IsFree b' ' v × AreWords rest

abbrev pub token : Edit → Bytes
token (becomes a) = b'a' ∷ b'=' ∷ action_text a
token (plus k v) = small_letter k ∷ b'+' ∷ v
token (minus k v) = small_letter k ∷ b'-' ∷ v

edit_opts-token :
    (e : Edit) (rest : List Edit)
    → edit_opts (map opt (e ∷ rest)) ≡ token e ++ b' ' ∷ edit_opts (map opt rest)
unfolding edit_opts to_lower
edit_opts-token (becomes accept) rest = refl
edit_opts-token (becomes drop_action) rest = refl
edit_opts-token (plus channel v) rest = refl
edit_opts-token (plus event v) rest = refl
edit_opts-token (plus origin v) rest = refl
edit_opts-token (plus plugin v) rest = refl
edit_opts-token (plus server v) rest = refl
edit_opts-token (minus channel v) rest = refl
edit_opts-token (minus event v) rest = refl
edit_opts-token (minus origin v) rest = refl
edit_opts-token (minus plugin v) rest = refl
edit_opts-token (minus server v) rest = refl

edit-token : (e : Edit) (r : Rule) → edit r (token e) ≡ (apply r e, edited)
unfolding edit kind action has_prefix
edit-token (becomes accept) r = refl
edit-token (becomes drop_action) r = refl
edit-token (plus channel v) r = refl
edit-token (plus event v) r = refl
edit-token (plus origin v) r = refl
edit-token (plus plugin v) r = refl
edit-token (plus server v) r = refl
edit-token (minus channel v) r = refl
edit-token (minus event v) r = refl
edit-token (minus origin v) r = refl
edit-token (minus plugin v) r = refl
edit-token (minus server v) r = refl

token-IsFree : (e : Edit) (rest : List Edit) → AreWords (e ∷ rest) → IsFree b' ' (token e)
token-IsFree (becomes accept) rest h = omega arith
token-IsFree (becomes drop_action) rest h = omega arith
token-IsFree (plus channel v) rest h = (omega arith, (omega arith, h.0))
token-IsFree (plus event v) rest h = (omega arith, (omega arith, h.0))
token-IsFree (plus origin v) rest h = (omega arith, (omega arith, h.0))
token-IsFree (plus plugin v) rest h = (omega arith, (omega arith, h.0))
token-IsFree (plus server v) rest h = (omega arith, (omega arith, h.0))
token-IsFree (minus channel v) rest h = (omega arith, (omega arith, h.0))
token-IsFree (minus event v) rest h = (omega arith, (omega arith, h.0))
token-IsFree (minus origin v) rest h = (omega arith, (omega arith, h.0))
token-IsFree (minus plugin v) rest h = (omega arith, (omega arith, h.0))
token-IsFree (minus server v) rest h = (omega arith, (omega arith, h.0))

AreWords-tail : (e : Edit) (rest : List Edit) → AreWords (e ∷ rest) → AreWords rest
AreWords-tail (becomes a) rest h = h
AreWords-tail (plus k v) rest h = h.1
AreWords-tail (minus k v) rest h = h.1

emit-token : (e : Edit) (rest : List Bytes) → emit (token e) rest ≡ token e ∷ rest
emit-token (becomes a) rest = refl
emit-token (plus k v) rest = refl
emit-token (minus k v) rest = refl

pub tokens-edit_opts :
    (es : List Edit) → AreWords es → tokens [] (edit_opts (map opt es)) ≡ map token es
unfolding tokens edit_opts
tokens-edit_opts [] h = refl
tokens-edit_opts (e ∷ es) h =
    rw
      (
        edit_opts-token e es,
        tokens-word (token e) [] (edit_opts (map opt es)) (token-IsFree e es h),
      )
      (rw (tokens-edit_opts es (AreWords-tail e es h)) (emit-token e (map token es)))

-- The loop applies all edits.
pub edit_loop-token :
    (es : List Edit) (r : Rule) → edit_loop (map token es) r ≡ (apply_all r es, edited)
unfolding edit_loop
edit_loop-token [] r = refl
edit_loop-token (e ∷ es) r =
    rw (edit_loop, edit-token e r) (rw (edit-token e r) (edit_loop-token es (apply r e)))

skip_spaces-letter : (c : ℕ) (s : Bytes) → is_space c ≡ false → skip_spaces (c ∷ s) ≡ c ∷ s
unfolding skip_spaces
skip_spaces-letter c s h = rw h refl

letter-plain : (k : Kind) → is_space (small_letter k) ≡ false
unfolding is_space
letter-plain channel = refl
letter-plain event = refl
letter-plain origin = refl
letter-plain plugin = refl
letter-plain server = refl

skip_spaces-token : (e : Edit) (rest : Bytes) → skip_spaces (token e ++ rest) ≡ token e ++ rest
skip_spaces-token (becomes a) rest = skip_spaces-letter b'a' _ (unfold is_space in refl)
skip_spaces-token (plus k v) rest = skip_spaces-letter (small_letter k) _ (letter-plain k)
skip_spaces-token (minus k v) rest = skip_spaces-letter (small_letter k) _ (letter-plain k)

-- The options begin with a letter, if there are any.
pub skip_spaces-edit_opts :
    (es : List Edit) → skip_spaces (edit_opts (map opt es)) ≡ edit_opts (map opt es)
unfolding edit_opts skip_spaces
skip_spaces-edit_opts [] = refl
skip_spaces-edit_opts (e ∷ es) =
    rw (edit_opts-token e es) (skip_spaces-token e (b' ' ∷ edit_opts (map opt es)))
