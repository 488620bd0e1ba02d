-- ===== src/Conf/Parser/Cut.antt =====
-- A configuration that ends inside the block of a rule.
use irccd.Base.{
  ℕ, zero, suc, ◌+◌, ◌≤◌, ◌<◌, ◌≡◌, refl, ap, ◌⊎◌, inl, inr, List, [], ◌∷◌, arith, length, take,
  length-take, Bytes,
}
use irccd.Conf.Lexer.{Token, blk_begin, blk_end, comma, string}
use irccd.Rule
use irccd.Rule.{Action, Rule}
use irccd.Peer.Rules
use irccd.Peer.Rules.{Kind}
use irccd.Conf.Parser.{off, next, begin, end_block, values_loop, rule_criteria, block_loop, rule}
use irccd.Conf.Parser.Blocks.{
  Criterion, name, values_tokens, block_tokens, action_name, add_values, adder-name,
  rule_criteria-tokens, action-name,
}

-- No token is left when the values are cut, up to the end of the block.
values_loop-cut :
    (k : Kind) (r : Rule) (values : List Bytes) (rest : List Token) (n : ℕ)
    → n ≤ length (values_tokens values [])
    → (values_loop k r (take n (values_tokens values rest))).1 ≡ []
unfolding values_loop
values_loop-cut k r values rest zero h = refl
values_loop-cut k r [] rest (suc n) h = absurd (omega (arith, h))
values_loop-cut k r (s ∷ []) rest (suc zero) h = refl
values_loop-cut k r (s ∷ []) rest (suc (suc n)) h = absurd (omega (arith, h))
values_loop-cut k r (s ∷ t ∷ values) rest (suc zero) h = refl
values_loop-cut k r (s ∷ t ∷ values) rest (suc (suc n)) h =
    values_loop-cut k (Rules.add k r s) (t ∷ values) rest n (omega (arith, h))

rule_criteria-cut :
    (r : Rule) (c : Criterion) (rest : List Token) (n : ℕ)
    → n ≤ length (values_tokens c.values [])
    → rule_criteria r (name c.kind) (blk_begin ∷ take n (values_tokens c.values rest)) ≡ off
unfolding rule_criteria begin end_block next
rule_criteria-cut r c rest n h =
    rw (rule_criteria, adder-name c.kind, values_loop-cut c.kind r c.values rest n h) refl

-- A cut behind the values.
take-values :
    (values : List Bytes) (rest : List Token) (n m : ℕ)
    → m ≡ length (values_tokens values []) + n
    → take m (values_tokens values rest) ≡ values_tokens values (take n rest)
take-values [] rest n m e = let same : m ≡ n = omega (arith, e) in rw same refl
take-values (s ∷ []) rest n zero e = absurd (omega (arith, e))
take-values (s ∷ []) rest n (suc m) e = let same : m ≡ n = omega (arith, e) in rw same refl
take-values (s ∷ t ∷ values) rest n zero e = absurd (omega (arith, e))
take-values (s ∷ t ∷ values) rest n (suc zero) e = absurd (omega (arith, e))
take-values (s ∷ t ∷ values) rest n (suc (suc m)) e =
    ap (λ (l : List Token). string s ∷ comma ∷ l)
      (take-values (t ∷ values) rest n m (omega (arith, e)))

length-values :
    (values : List Bytes) (rest : List Token)
    → length (values_tokens values rest) ≡ length (values_tokens values []) + length rest
length-values [] rest = omega arith
length-values (s ∷ []) rest = omega arith
length-values (s ∷ t ∷ values) rest = omega (arith, length-values (t ∷ values) rest)

le-cases : (m n : ℕ) → (n ≤ m) ⊎ ((d : ℕ) × (n ≡ m + suc d))
le-cases m zero = inl (omega arith)
le-cases zero (suc n) = inr (n, omega arith)
le-cases (suc m) (suc n) = elim (le-cases m n) [
  | inl h ↦ inl (omega (arith, h))
  | inr (d, h) ↦ inr (d, omega (arith, h))
]

block_loop-cut :
    (fuel : ℕ) (r : Rule) (criteria : List Criterion) (rest : List Token) (n : ℕ)
    → n < length (block_tokens criteria [])
    → n < fuel
    → block_loop fuel r (take n (block_tokens criteria rest)) ≡ off
unfolding block_loop next
block_loop-cut zero r criteria rest n h f = absurd (omega (arith, f))
block_loop-cut (suc fuel) r criteria rest zero h f = refl
block_loop-cut (suc fuel) r [] rest (suc n) h f = absurd (omega (arith, h))
block_loop-cut (suc fuel) r (c ∷ criteria) rest (suc zero) h f =
    rw (block_loop, rule_criteria, adder-name c.kind) refl
block_loop-cut (suc fuel) r (c ∷ criteria) rest (suc (suc n)) h f =
    let tail = block_tokens criteria rest in
    elim (le-cases (length (values_tokens c.values [])) n) [
      | inl k ↦ rw (rule_criteria-cut r c (blk_end ∷ tail) n k) refl
      | inr (d, e) ↦
          let size = length-values c.values (blk_end ∷ block_tokens criteria []) in
          let whole : take n (values_tokens c.values (blk_end ∷ tail))
              ≡ values_tokens c.values (blk_end ∷ take d tail) =
            take-values c.values (blk_end ∷ tail) (suc d) n e in
          rw (whole, rule_criteria-tokens r c (take d tail))
            (block_loop-cut fuel (add_values c.kind r c.values) criteria rest d
              (omega (arith, h, e, size)) (omega (arith, f, e)))
    ]

-- Wherever behind its opening brace the configuration ends before the block of a rule is closed,
-- also inside a criterion, the parser is stopped: the rule is not taken, and no error is told. The
-- tokens up to the end are those of a rule that would be read.
pub rule-cut :
    (rules : List Rule) (a : Action) (criteria : List Criterion) (n : ℕ)
    → n < length (block_tokens criteria [])
    → rule rules (string (action_name a) ∷ blk_begin ∷ take n (block_tokens criteria [])) ≡ off
unfolding rule
rule-cut rules a criteria n h =
    let cut = take n (block_tokens criteria []) in
    let fuel : n < suc (length cut) = omega (arith, length-take n (block_tokens criteria [])) in
    rw
      (
        rule,
        action-name a (blk_begin ∷ cut),
        block_loop-cut (suc (length cut)) (Rule.new a) criteria [] n h fuel,
      )
      refl
