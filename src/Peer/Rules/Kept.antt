-- ===== src/Peer/Rules/Kept.antt =====
-- What RULE-EDIT changes, whatever its line is.
use irccd.Base.{
  ℕ, zero, suc, ◌<◌, ◌≡◌, refl, ap, ◌∙◌, ◌≢◌, inl, inr, Option, some, List, [], ◌∷◌, ◌++◌, arith,
  leb, Bool-cases, Option-cases, length, get_elem?, drop, Bytes, codes, einval, erange,
}
use irccd.Rule.{Rule}
use irccd.Bot.Rules
use irccd.Bot.Rules.Order.{size-length}
use irccd.Server.Handlers.{tokens}
use irccd.Peer.{State, Outcome, done, failed, push, succeed, error}
use irccd.Peer.Rules.{
  Edited, edited, invalid, bad_action, edit_loop, behind_word, set, finish_edit, edit_index,
  cmd_rule_edit,
}

pub set-length : (l : List Rule) (n : ℕ) (r : Rule) → length (set l n r) ≡ length l
unfolding set
set-length [] n r = refl
set-length (x ∷ l) zero r = refl
set-length (x ∷ l) (suc n) r = ap suc (set-length l n r)

set-other : (l : List Rule) (n j : ℕ) (r : Rule) → n ≢ j → get_elem? (set l n r) j ≡ get_elem? l j
unfolding set
set-other [] n j r h = refl
set-other (x ∷ l) zero zero r h = absurd (h refl)
set-other (x ∷ l) zero (suc j) r h = refl
set-other (x ∷ l) (suc n) zero r h = refl
set-other (x ∷ l) (suc n) (suc j) r h = set-other l n j r (λ e. h (ap suc e))

pub get-below : (l : List Rule) (n : ℕ) → n < length l → (r : Rule) × (get_elem? l n ≡ some r)
get-below [] n h = absurd (omega (arith, h))
get-below (x ∷ l) zero h = (x, refl)
get-below (x ∷ l) (suc n) h = get-below l n (omega (arith, h))

-- The state that a command leaves.
abbrev pub state : Outcome → State
state (done p) = p
state (failed e p) = p

-- Only the rule at the index is another, and texts may have been pushed.
abbrev pub KeepsOthers : ℕ → State → State → Type 0
KeepsOthers j p q =
    (get_elem? q.rules j ≡ get_elem? p.rules j)
    × (length q.rules ≡ length p.rules)
    × (q.hooks ≡ p.hooks)
    × (q.plugins ≡ p.plugins)
    × (q.servers ≡ p.servers)
    × (q.is_watching ≡ p.is_watching)

abbrev pub Ends : ℕ → State → Option Outcome → Type 0
Ends j p result = (o : Outcome) × (result ≡ some o) × KeepsOthers j p (state o)

-- The state with the rule changed and perhaps a text pushed keeps the others.
set-KeepsOthers :
    (p : State) (n j : ℕ) (r : Rule) (texts : List Bytes)
    → n ≢ j
    → KeepsOthers j p (record p { rules = set p.rules n r; pushed = texts })
set-KeepsOthers p n j r texts h =
    (set-other p.rules n j r h, set-length p.rules n r, refl, refl, refl, refl)

finish_edit-Ends :
    (p : State) (n j : ℕ) (r : Rule) (e : Edited)
    → n ≢ j
    → Ends j p (finish_edit (record p { rules = set p.rules n r }) e)
unfolding succeed push error
finish_edit-Ends p n j r edited h =
    (_, refl, set-KeepsOthers p n j r (p.pushed ++ codes "OK" ∷ []) h)
finish_edit-Ends p n j r invalid h = (_, refl, set-KeepsOthers p n j r p.pushed h)
finish_edit-Ends p n j r bad_action h =
    (_, refl, set-KeepsOthers p n j r (p.pushed ++ codes "ERROR invalid action" ∷ []) h)

-- RULE-EDIT always ends without a fault, and leaves each rule that is not at the index of the line,
-- the number of rules, the hooks, the plugins, the servers and the watching as they are, also when
-- it answers with an error after some of its edits.
pub cmd_rule_edit-Ends :
    (p : State) (line : Bytes) (j : ℕ) → edit_index line ≢ some j → Ends j p (cmd_rule_edit p line)
unfolding cmd_rule_edit Rules.get
cmd_rule_edit-Ends p line j h = elim (Option-cases (edit_index line)) [
  | inl e ↦ rw e (failed einval p, refl, (refl, refl, refl, refl, refl, refl))
  | inr (n, e) ↦ elim (Bool-cases (leb (Rules.size p.rules) n)) [
    | inl u ↦ rw (e, u) (failed erange p, refl, (refl, refl, refl, refl, refl, refl))
    | inr u ↦
        let (r, g) = get-below p.rules n (ground (arith, u, size-length p.rules)) in
        let result = edit_loop (tokens [] (behind_word (drop 10 line))) r in
        rw (e, u, g)
          (finish_edit-Ends p n j result.0 result.1 (λ q. h (e ∙ ap (λ (k : ℕ). some k) q)))
  ]
]
