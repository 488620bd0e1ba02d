-- ===== src/Conf/Parser/Blocks.antt =====
-- The rules of a configuration are read as they are written.
use irccd.Base.{
  ℕ, zero, suc, ◌≤◌, ◌<◌, ◌≡◌, refl, some, List, [], ◌∷◌, ◌++◌, arith, length, Bytes, codes, str_eq,
}
use irccd.Conf.Lexer.{Token, blk_begin, blk_end, comma, string}
use irccd.Rule.{Action, accept, drop as drop_action, Rule}
use irccd.Rule
use irccd.Peer.Rules
use irccd.Peer.Rules.{Kind, channel, event, origin, plugin, server}
use irccd.Conf.Parser.{
  parsed, next, string_is, begin, end_block, adder, values_loop, rule_criteria, block_loop, action,
  rule,
}

-- A criterion as it is written, with its values.
pub record Criterion : Type 0 where
  pub kind : Kind
  pub values : List Bytes

abbrev pub name : Kind → Bytes
name channel = codes "channels"
name event = codes "events"
name origin = codes "origins"
name plugin = codes "plugins"
name server = codes "servers"

abbrev pub values_tokens : List Bytes → List Token → List Token
values_tokens [] rest = rest
values_tokens (s ∷ []) rest = string s ∷ rest
values_tokens (s ∷ t ∷ values) rest = string s ∷ comma ∷ values_tokens (t ∷ values) rest

abbrev pub criterion_tokens : Criterion → List Token → List Token
criterion_tokens c rest = string (name c.kind) ∷ blk_begin ∷ values_tokens c.values (blk_end ∷ rest)

abbrev pub block_tokens : List Criterion → List Token → List Token
block_tokens [] rest = blk_end ∷ rest
block_tokens (c ∷ criteria) rest = criterion_tokens c (block_tokens criteria rest)

abbrev pub action_name : Action → Bytes
action_name accept = codes "accept"
action_name drop_action = codes "drop"

abbrev pub rule_tokens : Action → List Criterion → List Token → List Token
rule_tokens a criteria rest = string (action_name a) ∷ blk_begin ∷ block_tokens criteria rest

-- The rule with the values added in their order.
abbrev pub add_values : Kind → Rule → List Bytes → Rule
add_values k r [] = r
add_values k r (s ∷ values) = add_values k (Rules.add k r s) values

abbrev pub add_criteria : Rule → List Criterion → Rule
add_criteria r [] = r
add_criteria r (c ∷ criteria) = add_criteria (add_values c.kind r c.values) criteria

values_loop-tokens :
    (k : Kind) (r : Rule) (values : List Bytes) (rest : List Token)
    → values_loop k r (values_tokens values (blk_end ∷ rest))
      ≡ (add_values k r values, blk_end ∷ rest)
unfolding values_loop
values_loop-tokens k r [] rest = refl
values_loop-tokens k r (s ∷ []) rest = refl
values_loop-tokens k r (s ∷ t ∷ values) rest =
    values_loop-tokens k (Rules.add k r s) (t ∷ values) rest

pub adder-name : (k : Kind) → adder (name k) ≡ some k
unfolding adder str_eq
adder-name channel = refl
adder-name event = refl
adder-name origin = refl
adder-name plugin = refl
adder-name server = refl

pub rule_criteria-tokens :
    (r : Rule) (c : Criterion) (rest : List Token)
    → rule_criteria r (name c.kind) (blk_begin ∷ values_tokens c.values (blk_end ∷ rest))
      ≡ parsed (add_values c.kind r c.values) rest
unfolding rule_criteria begin end_block next
rule_criteria-tokens r c rest =
    rw (rule_criteria, adder-name c.kind, values_loop-tokens c.kind r c.values rest) refl

block_loop-tokens :
    (fuel : ℕ) (r : Rule) (criteria : List Criterion) (rest : List Token)
    → length criteria < fuel
    → block_loop fuel r (block_tokens criteria rest) ≡ parsed (add_criteria r criteria) rest
unfolding block_loop next
block_loop-tokens zero r criteria rest h = absurd (omega (arith, h))
block_loop-tokens (suc fuel) r [] rest h = refl
block_loop-tokens (suc fuel) r (c ∷ criteria) rest h =
    rw (rule_criteria-tokens r c (block_tokens criteria rest))
      (block_loop-tokens fuel (add_values c.kind r c.values) criteria rest (omega (arith, h)))

values-length :
    (values : List Bytes) (rest : List Token) → length rest ≤ length (values_tokens values rest)
values-length [] rest = omega arith
values-length (s ∷ []) rest = omega arith
values-length (s ∷ t ∷ values) rest = omega (arith, values-length (t ∷ values) rest)

block-length :
    (criteria : List Criterion) (rest : List Token)
    → length criteria < length (block_tokens criteria rest)
block-length [] rest = omega arith
block-length (c ∷ criteria) rest = omega (
  arith,
  block-length criteria rest,
  values-length c.values (blk_end ∷ block_tokens criteria rest),
)

pub action-name :
    (a : Action) (rest : List Token) → action (string (action_name a) ∷ rest) ≡ some (a, rest)
unfolding action string_is str_eq
action-name accept rest = refl
action-name drop_action rest = refl

-- The tokens of a rule, an action and a block of criteria with their values between commas, are
-- read as the rule of that action with the values added in their order, behind the rules that were
-- read before, and the tokens behind the block are left; the criteria may be in any order, repeated
-- or without values.
pub rule-tokens :
    (rules : List Rule) (a : Action) (criteria : List Criterion) (rest : List Token)
    → rule rules (rule_tokens a criteria rest)
      ≡ parsed (rules ++ add_criteria (Rule.new a) criteria ∷ []) rest
unfolding rule
rule-tokens rules a criteria rest =
    let fuel : length criteria < suc (length (block_tokens criteria rest)) =
      omega (arith, block-length criteria rest) in
    rw
      (
        rule,
        action-name a (blk_begin ∷ block_tokens criteria rest),
        block_loop-tokens (suc (length (block_tokens criteria rest))) (Rule.new a) criteria rest
            fuel,
      )
      refl
