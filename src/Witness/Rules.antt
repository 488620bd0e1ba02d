-- ===== src/Witness/Rules.antt =====
-- Inputs for the theorems on rules, on the registries and on the dispatch.
use irccd.Base.{
  ◌≤◌, ◌<◌, ◌≡◌, refl, ◌≢◌, ◌⊎◌, true, false, Option, none, some, List, [], ◌∷◌, arith, length,
  Bytes, codes, to_lower, str_case_eq, has_prefix, is_space,
}
use mathlib.Core.List.{Perm}
use irccd.Event.{Event}
use irccd.Rule.{
  accept, drop, Rule, Query, contains_loop, list_match, list_contains, list_add, list_remove,
  rule_match, matchlist_loop, matchlist, accepts,
}
use irccd.Rule.Match.{query, matchlist-last, matchlist-null_channel}
use irccd.Rule.Criteria.{list_contains-edited}
use irccd.Bot.Rules
use irccd.Bot.Rules.Order.{insert-remove, move-perm, move-late}
use irccd.Bot.Registry.Names
use irccd.Bot.Registry.Names.{names-IsUnique, get-remove, server_op, plugin_op, hook_op, remove_op}
use irccd.Bot.Dispatch
use irccd.Bot.Dispatch.{Call, handle, invoke, observe, dispatch, invokable}
use irccd.Bot.Dispatch.Calls.{dispatch_lem}

abbrev deny_all : Rule
deny_all = record {
  action = drop;
  servers = none;
  channels = none;
  origins = none;
  plugins = none;
  events = none;
}

-- Accepts on one channel.
abbrev on_games : Rule
on_games = record {
  action = accept;
  servers = none;
  channels = some (codes "#games" ∷ []);
  origins = none;
  plugins = none;
  events = none;
}

abbrev in_games : Query
in_games =
    query (codes "libera") (codes "#Games") (codes "jean!j@host") (codes "ask") (codes "onMessage")

in_games-match : rule_match on_games in_games ≡ some true
unfolding rule_match list_match contains_loop str_case_eq to_lower
in_games-match = refl

deny_all-match : rule_match deny_all in_games ≢ none
unfolding rule_match list_match
deny_all-match h = ground (arith, h)

matchlist-last_example : matchlist (deny_all ∷ on_games ∷ []) in_games ≡ some true
unfolding accepts
matchlist-last_example =
    matchlist-last (deny_all ∷ []) on_games [] in_games (deny_all-match, tt) in_games-match tt

abbrev connecting : Query
connecting = record {
  server = some (codes "libera");
  channel = none;
  origin = none;
  plugin = some (codes "ask");
  event = some (codes "onConnect");
}

matchlist-null_channel_example : matchlist (on_games ∷ []) connecting ≡ none
matchlist-null_channel_example =
    matchlist-null_channel [] on_games [] connecting (codes "libera") (codes "#games") [] refl refl
      refl refl

abbrev three : List Rule
three = deny_all ∷ on_games ∷ deny_all ∷ []

insert-remove_example :
    (Rules.get (Rules.insert three on_games 2) 2 ≡ some on_games)
    × (Rules.remove (Rules.insert three on_games 2) 2 ≡ some three)
insert-remove_example = insert-remove three on_games 2 (omega arith)

move-perm_example :
    ((2 < length three)
      × (moved : List Rule) × (Rules.move three 2 1 ≡ some moved)
      × Perm moved three)
    ⊎ ((length three ≤ 2) × (Rules.move three 2 1 ≡ none))
move-perm_example = move-perm three 2 1

abbrev four : List Rule
four = deny_all ∷ on_games ∷ deny_all ∷ deny_all ∷ []

move-late_example :
    (moved : List Rule) × (Rules.move four 1 2 ≡ some moved)
    × (Rules.get moved 3 ≡ some on_games)
    × (Rules.remove moved 3 ≡ Rules.remove four 1)
unfolding Rules.get
move-late_example =
    move-late four on_games 1 2 refl (ground arith) (omega arith) (omega arith) (omega arith)

names-IsUnique_example :
    Names.IsUnique (
      Names.apply_all [] (hook_op (codes "a") ∷ hook_op (codes "a") ∷ plugin_op (codes "b") 0 ∷ []))
names-IsUnique_example =
    names-IsUnique (hook_op (codes "a") ∷ hook_op (codes "a") ∷ plugin_op (codes "b") 0 ∷ []) [] tt

abbrev asking : Event
asking = Event.message (codes "libera") (codes "jean!j@host") (codes "#games") (codes "!ask  why")

no_rules-invokable : (p : Bytes) → invokable [] p asking ≡ some true
unfolding invokable matchlist matchlist_loop
no_rules-invokable p = refl

dispatch_lem_example :
    dispatch (codes "!") [] (codes "hook" ∷ []) (codes "ask" ∷ codes "logger" ∷ []) false asking
    ≡ some (
        invoke (codes "hook") asking
        ∷ handle (codes "logger") asking
        ∷ handle
            (codes "ask")
            (Event.command (codes "libera") (codes "jean!j@host") (codes "#games") (codes "why"))
        ∷ [])
unfolding Dispatch.is_command Dispatch.to_command Dispatch.skip_spaces has_prefix is_space
dispatch_lem_example =
    dispatch_lem (codes "!") (λ _. true) asking [] (codes "hook" ∷ [])
      (codes "ask" ∷ codes "logger" ∷ []) false no_rules-invokable

abbrev two : Option (List Bytes)
two = some (codes "#a" ∷ codes "#b" ∷ [])

list_contains-edited_example :
    (list_contains (list_add two (codes "#C")) (codes "#c") ≡ true)
    × (list_contains (list_remove two (codes "#C")) (codes "#c") ≡ false)
unfolding list_contains contains_loop str_case_eq to_lower
list_contains-edited_example = list_contains-edited two (codes "#C") (codes "#c")
