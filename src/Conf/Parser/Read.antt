-- ===== src/Conf/Parser/Read.antt =====
-- The text of a rule in a configuration, from the lexer to the rules of the bot.
use irccd.Base.{◌+◌, ◌^◌, ◌<◌, ◌≡◌, refl, List, [], ◌∷◌, ◌++◌, arith, length, length-append, Bytes}
use irccd.Rule.{Action, Rule}
use irccd.Rule
use irccd.Conf.Lexer.{Pos, lex}
use irccd.Conf.Lexer.Layout.{Item, text, tokens, AreWritten, lex-tokens}
use irccd.Conf.Parser.{Parsed, parsed, rule, apply_rules, then_parse}
use irccd.Conf.Parser.Blocks.{Criterion, rule_tokens, add_criteria, rule-tokens}
use irccd.Conf.Parser.Applied.{apply_rules-append}

-- The rules of the bot when a section of a rule has been read behind the rules of the configuration.
abbrev pub started : List Rule → List Rule → Bytes → Pos → Parsed (List Rule)
started bot rules source p =
    then_parse (rule rules (lex (length source) source p).0)
      (λ all left. parsed (apply_rules bot all) left)

-- A rule of a configuration, with any blanks and comments between its marks and strings, becomes
-- the last rule of the bot, behind the rules that the bot had and the rules of the configuration
-- that were read before it, with its action and the values added to its criteria in their order;
-- the criteria may be in any order, repeated or without values. The rules are fewer than 2 ^ 64,
-- and the text is written with blanks behind its words.
pub rule-started :
    (bot rules : List Rule) (a : Action) (criteria : List Criterion) (items : List Item) (p : Pos)
    → AreWritten items
    → tokens items ≡ rule_tokens a criteria []
    → length bot + length rules + 1 < 2 ^ 64
    → started bot rules (text items) p
      ≡ parsed (bot ++ (rules ++ add_criteria (Rule.new a) criteria ∷ [])) []
rule-started bot rules a criteria items p h e short =
    let (q, f) = lex-tokens items p h in
    let r = add_criteria (Rule.new a) criteria in
    let size : length bot + length (rules ++ r ∷ []) < 2 ^ 64 =
      omega (arith, short, length-append rules (r ∷ [])) in
    rw (f, e, rule-tokens rules a criteria [], apply_rules-append bot (rules ++ r ∷ []) size) refl
