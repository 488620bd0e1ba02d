-- ===== src/Conf/Parser.antt =====
-- irccd/conf.c: the parser of the configuration over the tokens of the lexer: the functions that
-- pull tokens, and the rules.
--
-- The queue of the parser and the tokens that the lexer has still to yield are one list, which ends
-- where TOKEN_EOF comes.
pub mod Blocks
pub mod Cut
pub mod Read
pub mod Applied
use irccd.Base.{
  ℕ, zero, suc, ◌-◌, ◌^◌, Bool, true, false, Option, none, some, List, [], ◌∷◌, ◌++◌, if◌then◌else◌,
  length, Bytes, codes, str_eq,
}
use irccd.Conf.Lexer.{Token, blk_begin, blk_end, comma, string}
use irccd.Rule.{Action, accept, drop as drop_action, Rule}
use irccd.Rule
use irccd.Bot.Rules as BotRules
use irccd.Hook.{Hook}
use irccd.Hook as HookFile
use irccd.Peer.Rules
use irccd.Peer.Rules.{Kind}

-- A result with the tokens that are left; or `conf_fatal`; or the coroutine is stopped at the end.
pub data Parsed {ℓ} (A : Type ℓ) : Type ℓ where
  parsed : A → List Token → Parsed A
  fatal off : Parsed A

-- `conf_next`
unfoldable pub next : List Token → Parsed Token
next [] = off
next (t ∷ rest) = parsed t rest

abbrev pub then_parse {ℓ κ} :
    {A : Type ℓ} {B : Type κ} → Parsed A → (A → List Token → Parsed B) → Parsed B
then_parse (parsed x rest) f = f x rest
then_parse fatal f = fatal
then_parse off f = off

-- `conf_string_is`: the tokens behind the string, or none where it is not the next token.
unfoldable pub string_is : List Token → Bytes → Option (List Token)
string_is [] what = none
string_is (blk_begin ∷ rest) what = none
string_is (blk_end ∷ rest) what = none
string_is (comma ∷ rest) what = none
string_is (string s ∷ rest) what = if str_eq s what then some rest else none

-- `conf_begin`
unfoldable pub begin : List Token → Parsed Token
unfolding next
begin tokens = then_parse (next tokens) (λ t rest. elim t [
  | blk_begin ↦ parsed blk_begin rest
  | blk_end ↦ fatal
  | comma ↦ fatal
  | string s ↦ fatal
])

-- `conf_end`
unfoldable pub end_block : List Token → Parsed Token
unfolding next
end_block tokens = then_parse (next tokens) (λ t rest. elim t [
  | blk_begin ↦ fatal
  | blk_end ↦ parsed blk_end rest
  | comma ↦ fatal
  | string s ↦ fatal
])

-- The choice of `adder`.
unfoldable pub adder : Bytes → Option Kind
adder criteria =
    if str_eq criteria (codes "servers")
    then some Kind.server
    else if str_eq criteria (codes "channels")
    then some Kind.channel
    else if str_eq criteria (codes "origins")
    then some Kind.origin
    else if str_eq criteria (codes "plugins")
    then some Kind.plugin
    else if str_eq criteria (codes "events")
    then some Kind.event
    else none

-- The loop over the strings: it goes on behind a comma.
unfoldable pub values_loop : Kind → Rule → List Token → Rule × List Token
values_loop k r [] = (r, [])
values_loop k r (blk_begin ∷ rest) = (r, blk_begin ∷ rest)
values_loop k r (blk_end ∷ rest) = (r, blk_end ∷ rest)
values_loop k r (comma ∷ rest) = (r, comma ∷ rest)
values_loop k r (string s ∷ []) = (Rules.add k r s, [])
values_loop k r (string s ∷ blk_begin ∷ rest) = (Rules.add k r s, blk_begin ∷ rest)
values_loop k r (string s ∷ blk_end ∷ rest) = (Rules.add k r s, blk_end ∷ rest)
values_loop k r (string s ∷ comma ∷ rest) = values_loop k (Rules.add k r s) rest
values_loop k r (string s ∷ string t ∷ rest) = (Rules.add k r s, string t ∷ rest)

-- `conf_parse_rule_criteria`
unfoldable pub rule_criteria : Rule → Bytes → List Token → Parsed Rule
unfolding adder begin end_block values_loop
rule_criteria r criteria tokens = elim (adder criteria) [
  | none ↦ fatal
  | some k ↦ then_parse (begin tokens) (λ _ rest.
      let more = values_loop k r rest in
      then_parse (end_block more.1) (λ _ left. parsed more.0 left))
]

-- The loop over the criteria of a block. Each round takes a token at least, so the number of tokens
-- is fuel enough.
unfoldable pub block_loop : ℕ → Rule → List Token → Parsed Rule
unfolding next rule_criteria
block_loop zero r tokens = fatal
block_loop (suc fuel) r tokens = then_parse (next tokens) (λ t rest. elim t [
  | blk_begin ↦ fatal
  | blk_end ↦ parsed r rest
  | comma ↦ fatal
  | string s ↦ then_parse (rule_criteria r s rest) (block_loop fuel)
])

abbrev pub block : Rule → List Token → Parsed Rule
block r [] = parsed r []
block r (blk_begin ∷ rest) = block_loop (suc (length rest)) r rest
block r (blk_end ∷ rest) = parsed r (blk_end ∷ rest)
block r (comma ∷ rest) = parsed r (comma ∷ rest)
block r (string s ∷ rest) = parsed r (string s ∷ rest)

-- The action with the tokens behind it.
unfoldable pub action : List Token → Option (Action × List Token)
unfolding string_is
action tokens = elim (string_is tokens (codes "accept")) [
  | some rest ↦ some (accept, rest)
  | none ↦ elim (string_is tokens (codes "drop")) [
    | some rest ↦ some (drop_action, rest)
    | none ↦ none
  ]
]

-- `conf_parse_rule` with the rules of the configuration.
unfoldable pub rule : List Rule → List Token → Parsed (List Rule)
unfolding action block_loop Rule.new
rule rules tokens = elim (action tokens) [
  | none ↦ fatal
  | some (a, rest) ↦ then_parse (block (Rule.new a) rest) (λ r left. parsed (rules ++ r ∷ []) left)
]

-- `conf_string`
unfoldable pub text : List Token → Parsed Bytes
unfolding next
text tokens = then_parse (next tokens) (λ t rest. elim t [
  | blk_begin ↦ fatal
  | blk_end ↦ fatal
  | comma ↦ fatal
  | string s ↦ parsed s rest
])

-- `conf_keyword`
unfoldable pub keyword : Bytes → List Token → Parsed Bytes
unfolding string_is
keyword what tokens = elim (string_is tokens what) [ none ↦ fatal | some rest ↦ parsed what rest ]

unfoldable pub has_hook : List Hook → Bytes → Bool
has_hook [] name = false
has_hook (h ∷ hooks) name = if str_eq h.name name then true else has_hook hooks name

-- `conf_parse_hook` with the hooks of the configuration.
unfoldable pub hook : List Hook → List Token → Parsed (List Hook)
unfolding text keyword has_hook
hook hooks tokens = then_parse (text tokens) (λ name rest.
    if has_hook hooks name
    then fatal
    else then_parse (keyword (codes "to") rest) (λ _ more.
      then_parse (text more) (λ path left. parsed (hooks ++ HookFile.new name path ∷ []) left)))

-- The loop of `conf_apply_rules` over the rules of the bot; the index is -1.
unfoldable pub apply_rules : List Rule → List Rule → List Rule
unfolding BotRules.insert
apply_rules rules [] = rules
apply_rules rules (r ∷ rest) = apply_rules (BotRules.insert rules r (2 ^ 64 - 1)) rest
