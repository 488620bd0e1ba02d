-- ===== src/Witness/Configuration.antt =====
-- Inputs for the theorem on the rules of a configuration.
use irccd.Base.{◌≡◌, refl, some, List, [], ◌∷◌, arith, codes, to_lower, str_case_eq, is_space}
use irccd.Rule
use irccd.Rule.{Action, drop as drop_action, Rule}
use irccd.Peer.Rules.{plugin, add}
use irccd.Conf.Lexer.Layout.{
  Item, mark, quoted, word, remark, open_mark, close_mark, comma_mark, AreWritten, text,
}
use irccd.Conf.Parser.{parsed, off}
use irccd.Conf.Lexer.{blk_begin, string}
use irccd.Conf.Parser
use irccd.Conf.Parser.Cut.{rule-cut}
use irccd.Conf.Parser.Read
use irccd.Conf.Parser.Read.{rule-started}

abbrev deny_all : Rule
deny_all = Rule.new drop_action

abbrev section : List Item
section =
    word (codes "drop") (b' ' ∷ [])
    ∷ mark open_mark (b'\n' ∷ [])
    ∷ remark (codes " no games") []
    ∷ word (codes "plugins") (b' ' ∷ [])
    ∷ mark open_mark (b' ' ∷ [])
    ∷ quoted (codes "ask") []
    ∷ mark comma_mark (b' ' ∷ [])
    ∷ quoted (codes "a b") (b' ' ∷ [])
    ∷ mark close_mark (b'\n' ∷ [])
    ∷ mark close_mark (b'\n' ∷ [])
    ∷ []

section-AreWritten : AreWritten section
unfolding is_space
section-AreWritten = (
  (ground arith, (λ e. cc e), (λ e. cc e), (refl, tt)),
  (
    (refl, tt),
    (
      (ground arith, tt),
      (
        (ground arith, (λ e. cc e), (λ e. cc e), (refl, tt)),
        (
          (refl, tt),
          (
            (ground arith, tt),
            ((refl, tt), ((ground arith, (refl, tt)), ((refl, tt), ((refl, tt), tt)))),
          ),
        ),
      ),
    ),
  ),
)

rule-started_example :
    Read.started (deny_all ∷ []) [] (text section) (record { line = 1; column = 5 })
    ≡ parsed
        (deny_all ∷ record deny_all { plugins = some (codes "ask" ∷ codes "a b" ∷ []) } ∷ [])
        []
unfolding Rule.new Rule.add_plugin Rule.list_add Rule.list_contains add str_case_eq to_lower
rule-started_example =
    rule-started (deny_all ∷ []) [] drop_action
      (record { kind = plugin; values = codes "ask" ∷ codes "a b" ∷ [] } ∷ []) section
      (record { line = 1; column = 5 }) section-AreWritten refl (omega arith)

rule-cut_example :
    Parser.rule (deny_all ∷ []) (
      string (codes "drop")
      ∷ blk_begin
      ∷ string (codes "plugins")
      ∷ blk_begin
      ∷ string (codes "ask")
      ∷ [])
    ≡ off
rule-cut_example =
    rule-cut (deny_all ∷ []) drop_action (record { kind = plugin; values = codes "ask" ∷ [] } ∷ [])
      3 (omega arith)
