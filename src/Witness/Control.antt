-- ===== src/Witness/Control.antt =====
-- Inputs for the theorems on control connections, their client and the events that are printed.
use irccd.Base.{
  ℕ, ◌+◌, ◌-◌, ◌<◌, ◌≡◌, refl, ap, ◌≢◌, true, false, Option, none, some, List, [], ◌∷◌, ◌++◌, map,
  arith, length, take, drop, take-all, Bytes, codes, str_eq, to_lower, has_prefix, is_space, enoent,
  ok, err,
}
use irccd.Util.Joined.{IsFree}
use irccd.Memory.{◌>>=◌}
use irccd.Event.{Event}
use irccd.Event.Text.{event_str}
use irccd.Rule
use irccd.Rule.{Action, accept, drop as drop_action, Rule}
use irccd.Server.{Server}
use irccd.Bsearch.Sorted.{lookup}
use irccd.Peer.{State, done, push, server_get}
use irccd.Peer.Numbers.{skip_spaces, stoi, decimal, scan, scan_size, sign, digits, print_loop}
use irccd.Peer.Order.{rules_text, rule_list_to_string}
use irccd.Peer.Rules.{channel, plugin, edit_index, cmd_rule_edit, cmd_rule_add}
use irccd.Peer.Rules.Kept.{Ends, cmd_rule_edit-Ends}
use irccd.Peer.Order
use irccd.Peer.Lists.{names_text}
use irccd.Peer.Table.{Outside, find, row_name, cmds, first_word, lines}
use irccd.Peer.Table.Found.{find-lookup}
use irccd.Ctl.Requests.{Opt, add_opts, edit_opts, run}
use irccd.Ctl.Show.{show, listing, heading, on_channel}
use irccd.Ctl.Show.Events.{show-event_str}
use irccd.Ctl.Talk.{Talk, told, ctl-told}
use irccd.Ctl.Edits
use irccd.Ctl.Edits.Applied as EditsApplied
use irccd.Ctl.Edits.Applied.{ctl-edited}
use irccd.Ctl.Adds
use irccd.Ctl.Adds.Applied as AddsApplied
use irccd.Ctl.Adds.Applied.{ctl-added, rule_add-index}
use irccd.Ctl.Listing.{Input, input, cmd_rule_list}
use irccd.Ctl.Listing.Lines.{Holds}
use irccd.Ctl.Listing.Rules.{ArePrintable, reply, printed, rule_list-printed}

abbrev joins : Event
joins = Event.join (codes "libera") (codes "jean!j@host") (codes "#games")

show-event_str_example :
    (event_str joins 512 >>= show)
    ≡ some (
        listing (
          heading
            (codes "onJoin")
            (codes "libera")
            (on_channel (codes "jean!j@host") (codes "#games") []))
        ++ b'\n' ∷ [])
show-event_str_example = show-event_str joins 512 (omega arith, omega arith) (omega arith)

find-lookup_example :
    find (codes "RULE-LIST")
    ≡ lookup row_name (take 31 (first_word (skip_spaces (codes "RULE-LIST")))) cmds
find-lookup_example = find-lookup (codes "RULE-LIST")

-- A stream that keeps what its buffer has room for.
abbrev held : ℕ → Bytes → Option Bytes
held size text = some (take (size - 1) text)

held-short : (size : ℕ) (text : Bytes) → length text < size → held size text ≡ some text
held-short size text h = ap {B = Option Bytes} some (take-all (size - 1) text (omega (arith, h)))

abbrev outside : Outside
outside = record {
  held = held;
  search = λ name. err enoent;
  strerror = λ e. codes "error";
  other = λ c p line. none;
}

abbrev no_options : Bytes → List Bytes → List Opt × List Bytes
no_options letters args = ([], args)

abbrev libera : Server
libera = record {
  name = codes "libera";
  flags = 0;
  nickname = codes "irccd";
  ctcp_version = none;
  ctcp_source = none;
  prefixes = [];
  channels = [];
  ready = true;
  out = [];
}

abbrev deny_all : Rule
deny_all = Rule.new drop_action

abbrev start : State
start = record {
  rules = deny_all ∷ deny_all ∷ [];
  hooks = [];
  plugins = [];
  servers = libera ∷ [];
  is_watching = false;
  pushed = [];
}

libera-get : server_get start.servers (codes "libera") ≡ some libera
unfolding server_get str_eq
libera-get = refl

ctl-told_example :
    (run held no_options
        (codes "server-message")
        (codes "libera" ∷ codes "#games" ∷ codes "hi all" ∷ [])
      >>= λ bytes. lines outside (length bytes) start bytes)
    ≡ some (told Talk.message start (codes "libera") libera (codes "#games") (codes "hi all"), [])
ctl-told_example =
    ctl-told outside held no_options Talk.message start (codes "libera") (codes "#games")
      (codes "hi all") libera libera-get (omega arith) (omega arith) (omega arith) (omega arith)
      (omega arith) (omega arith)

first-index : edit_index (codes "RULE-EDIT 0 c+#a x") ≢ some 1
unfolding has_prefix scan_size scan skip_spaces is_space sign digits
first-index e = cc e

cmd_rule_edit-Ends_example : Ends 1 start (cmd_rule_edit start (codes "RULE-EDIT 0 c+#a x"))
cmd_rule_edit-Ends_example = cmd_rule_edit-Ends start (codes "RULE-EDIT 0 c+#a x") 1 first-index

abbrev edits : List Edits.Edit
edits = Edits.Edit.plus channel (codes "#games") ∷ Edits.Edit.becomes accept ∷ []

-- The options that getopt finds on the line `rule-edit -c #games -a accept 1`.
abbrev edit_options : Bytes → List Bytes → List Opt × List Bytes
edit_options letters args = (map Edits.opt edits, decimal 1 ∷ [])

abbrev edit_args : List Bytes
edit_args = codes "-c" ∷ codes "#games" ∷ codes "-a" ∷ codes "accept" ∷ codes "1" ∷ []

edit-IsFree : IsFree b'\n' (EditsApplied.line 1 edits)
unfolding decimal edit_opts to_lower print_loop
edit-IsFree = omega arith

edit-short : length (EditsApplied.line 1 edits) + 1 < 512
unfolding decimal edit_opts to_lower print_loop
edit-short = omega arith

ctl-edited_example :
    (run held edit_options (codes "rule-edit") edit_args >>= λ bytes.
    lines outside (length bytes) start bytes)
    ≡ some (EditsApplied.after start 1 deny_all edits, [])
ctl-edited_example =
    ctl-edited held edit_options outside edit_args start 1 deny_all edits held-short refl
      (omega arith) refl (omega arith, tt) edit-IsFree edit-short

abbrev criteria : List Adds.Criterion
criteria = (channel, codes "#games") ∷ (plugin, codes "ask") ∷ []

-- The options that getopt finds on the line `rule-add -c #games -p ask accept`.
abbrev add_options : Bytes → List Bytes → List Opt × List Bytes
add_options letters args = (map Adds.opt criteria, codes "accept" ∷ [])

abbrev add_args : List Bytes
add_args = codes "-c" ∷ codes "#games" ∷ codes "-p" ∷ codes "ask" ∷ codes "accept" ∷ []

add-IsFree : IsFree b'\n' (AddsApplied.line accept (add_opts (map Adds.opt criteria)))
unfolding add_opts
add-IsFree = omega arith

add-short : length (AddsApplied.line accept (add_opts (map Adds.opt criteria))) + 1 < 512
unfolding add_opts
add-short = omega arith

ctl-added_example :
    (run held add_options (codes "rule-add") add_args >>= λ bytes.
    lines outside (length bytes) start bytes)
    ≡ some (AddsApplied.after start accept criteria, [])
ctl-added_example =
    ctl-added held add_options outside add_args start accept criteria held-short refl (omega arith)
      (omega arith, (omega arith, tt)) add-IsFree add-short

first-stoi : stoi (codes "0") ≡ ok 0
unfolding stoi scan skip_spaces is_space sign digits
first-stoi = refl

rule_add-index_example :
    cmd_rule_add
      (λ e. codes "error")
      start
      (AddsApplied.line accept (b'i' ∷ b'=' ∷ (codes "0" ++ b' ' ∷ codes "c=#a ")))
    ≡ none
rule_add-index_example =
    rule_add-index (λ e. codes "error") start accept (codes "0") (codes "c=#a ") 0 (omega arith)
      first-stoi

abbrev answer : Bytes
answer =
    codes "OK 1" ++ b'\n' ∷ (codes "drop" ++ b'\n' ∷ b'\n' ∷ b'\n' ∷ b'\n' ∷ b'\n' ∷ b'\n' ∷ [])

abbrev one_rule : State
one_rule = record start { rules = deny_all ∷ [] }

-- The answer in two pieces.
abbrev pieces : Input
pieces = input [] (take 7 (answer ++ b'\n' ∷ []) ∷ drop 7 (answer ++ b'\n' ∷ []) ∷ [])

pieces-Holds : Holds pieces (reply one_rule.rules ++ b'\n' ∷ [])
unfolding decimal print_loop rules_text rule_list_to_string Rule.new
pieces-Holds = record { whole = refl; fits = omega arith }

one_rule-ArePrintable : ArePrintable one_rule.rules
unfolding Rule.new names_text
one_rule-ArePrintable = ((omega arith, (tt, (tt, (tt, (tt, (tt, tt)))))), tt)

rule_list-printed_example :
    (Order.cmd_rule_list held one_rule ≡ some (done (push one_rule (reply one_rule.rules))))
    × (cmd_rule_list pieces ≡ some (printed 0 one_rule.rules))
rule_list-printed_example =
    rule_list-printed held one_rule pieces held-short one_rule-ArePrintable pieces-Holds
