-- ===== src/Ctl/Adds/Applied.antt =====
-- The command rule-add of irccdctl, through the daemon.
use irccd.Base.{
  ℕ, ◌+◌, ◌-◌, ◌<◌, ◌≡◌, refl, ap, ◌∙◌, ◌≢◌, true, false, Option, none, some, List, [], ◌∷◌, ◌++◌,
  map, append_assoc, arith, leb, length, drop, length-append, Bytes, codes, str_eq, has_prefix,
  is_space, Errno, ok,
}
use irccd.Memory.{◌>>=◌}
use irccd.Util.Joined.{IsFree, join}
use irccd.Server.Handlers.{tokens}
use irccd.Rule
use irccd.Rule.{Action, accept, drop as drop_action, Rule}
use irccd.Bot.Rules
use irccd.Bot.Rules.Order.{size-length}
use irccd.Peer.{State, done, push, succeed}
use irccd.Peer.Numbers.{skip_spaces, stoi}
use irccd.Peer.Rules.{
  Kind, channel, event, origin, plugin, server, action, unset, call, add_loop, no_index, is_bare,
  cmd_rule_add, behind_word, skip_word,
}
use irccd.Peer.Order.{action_text}
use irccd.Peer.Rules.Tokens.{tokens-word}
use irccd.Peer.Table
use irccd.Peer.Table.{Outside, Command, Row, row, find, first_word, invoke, lines}
use irccd.Peer.Table.Found.{find-lookup, invoke-found}
use irccd.Ctl.Requests.{buf_len, Opt, add_opts, rule_add_words, rule_add, run, cmds, req}
use irccd.Ctl.Sent.{lines-req}
use irccd.Bsearch.{str_lt}
use irccd.Ctl.Edits.{small_letter}
use irccd.Ctl.Adds.{Criterion, opt, add_all, AreWords, tokens-add_opts, add_loop-token}

abbrev pub line : Action → Bytes → Bytes
line a options = join b' ' (codes "RULE-ADD") (action_text a ∷ (options ++ action_text a) ∷ [])

line-is_bare : (a : Action) (options : Bytes) → is_bare (line a options) ≡ false
unfolding has_prefix is_space
line-is_bare accept options = refl
line-is_bare drop_action options = refl

line-action : (a : Action) (options : Bytes) → action (drop 9 (line a options)) ≡ some a
unfolding action has_prefix
line-action accept options = refl
line-action drop_action options = refl

-- Options begin with a letter.
line-behind :
    (a : Action) (options : Bytes)
    → skip_spaces (options ++ action_text a) ≡ options ++ action_text a
    → behind_word (drop 9 (line a options)) ≡ options ++ action_text a
unfolding skip_word skip_spaces is_space
line-behind accept options h = h
line-behind drop_action options h = h

letter-plain : (k : Kind) (s : Bytes) → skip_spaces (small_letter k ∷ s) ≡ small_letter k ∷ s
unfolding skip_spaces is_space
letter-plain channel s = refl
letter-plain event s = refl
letter-plain origin s = refl
letter-plain plugin s = refl
letter-plain server s = refl

options-plain :
    (cs : List Criterion) (a : Action)
    → skip_spaces (add_opts (map opt cs) ++ action_text a) ≡ add_opts (map opt cs) ++ action_text a
unfolding add_opts skip_spaces is_space
options-plain [] accept = refl
options-plain [] drop_action = refl
options-plain (c ∷ cs) a = letter-plain c.0 _

found :
    (a : Action) (options : Bytes)
    → find (line a options) ≡ some (row (codes "RULE-ADD") Command.rule_add)
unfolding first_word skip_spaces is_space str_eq
found a options = find-lookup (line a options)

-- The rule is the last one, with the criteria, and the peer has an answer.
abbrev pub after : State → Action → List Criterion → State
after p a cs = push (record p { rules = p.rules ++ add_all (Rule.new a) cs ∷ [] }) (codes "OK")

insert-last :
    (rules : List Rule) (r : Rule)
    → length rules < no_index
    → Rules.insert rules r no_index ≡ rules ++ r ∷ []
unfolding Rules.insert
insert-last rules r h =
    let late : leb (Rules.size rules) no_index ≡ true = ground (arith, size-length rules, h) in
    rw late refl

cmd_rule_add-line :
    (strerror : Errno → Bytes) (p : State) (a : Action) (cs : List Criterion)
    → length p.rules < no_index
    → AreWords cs
    → cmd_rule_add strerror p (line a (add_opts (map opt cs))) ≡ some (done (after p a cs))
unfolding cmd_rule_add succeed
cmd_rule_add-line strerror p a cs few h =
    let options = add_opts (map opt cs) in
    rw (cmd_rule_add, line-is_bare a options, line-action a options)
      (rw (line-behind a options (options-plain cs a), tokens-add_opts cs a h)
        (rw
          (
            add_loop-token cs a unset (Rule.new a) no_index,
            insert-last p.rules (add_all (Rule.new a) cs) few,
          )
          refl))

-- The text fits the buffer of the options when it fits that of the request.
line-longer :
    (a : Action) (options : Bytes)
    → length (options ++ action_text a) + 10 < length (line a options)
line-longer accept options =
    omega (arith, length-append (codes "accept") (options ++ codes "accept"))
line-longer drop_action options =
    omega (arith, length-append (codes "drop") (options ++ codes "drop"))

line-nonempty : (a : Action) (options : Bytes) → line a options ≢ []
line-nonempty a options e = cc

module _ (held : ℕ → Bytes → Option Bytes)
    (getopt : Bytes → List Bytes → List Opt × List Bytes) where
  run-rule_add :
      (args : List Bytes)
      → run held getopt (codes "rule-add") args ≡ (rule_add held getopt args >>= req)
  unfolding run cmds str_lt str_eq
  run-rule_add args = refl

  run-line :
      (args : List Bytes) (a : Action) (cs : List Criterion)
      → ((size : ℕ) (text : Bytes) → length text < size → held size text ≡ some text)
      → getopt (codes "c:e:i:o:p:s:") args ≡ (map opt cs, action_text a ∷ [])
      → length (line a (add_opts (map opt cs))) + 1 < buf_len
      → run held getopt (codes "rule-add") args ≡ req (line a (add_opts (map opt cs)))
  unfolding rule_add_words
  run-line args a cs holds options short =
      let all = add_opts (map opt cs) in
      let fits : length (all ++ action_text a) < buf_len - 1 =
        omega (arith, short, line-longer a all) in
      run-rule_add args
      ∙ (ap (λ (x : List Opt × List Bytes). rule_add_words held getopt x.0 x.1 >>= req) options
          ∙ rw (rule_add_words, holds (buf_len - 1) (all ++ action_text a) fits) refl)

  -- The command rule-add of irccdctl, with an action and options with criteria, is sent to the
  -- daemon, which takes the line whole, adds as its last rule the rule of that action with these
  -- criteria, and answers OK. There are fewer rules than the largest index, no value has a space,
  -- the request has no line end and is shorter than the client's buffer less the line end and the
  -- NUL, and the stream on the buffer holds a text that is shorter than the buffer.
  pub ctl-added :
      (o : Outside) (args : List Bytes) (p : State) (a : Action) (cs : List Criterion)
      → ((size : ℕ) (text : Bytes) → length text < size → held size text ≡ some text)
      → getopt (codes "c:e:i:o:p:s:") args ≡ (map opt cs, action_text a ∷ [])
      → length p.rules < no_index
      → AreWords cs
      → IsFree b'\n' (line a (add_opts (map opt cs)))
      → length (line a (add_opts (map opt cs))) + 1 < buf_len
      → (run held getopt (codes "rule-add") args >>= λ bytes. lines o (length bytes) p bytes)
        ≡ some (after p a cs, [])
  unfolding Table.run
  ctl-added o args p a cs holds options few h free short =
      let text = line a (add_opts (map opt cs)) in
      let done : invoke o p text ≡ some (after p a cs) =
        rw
          (
            invoke-found o p text (row (codes "RULE-ADD") Command.rule_add)
                (found a (add_opts (map opt cs))),
            cmd_rule_add-line o.strerror p a cs few h,
          )
          refl in
      rw (run-line args a cs holds options short) (
        lines-req o text p (after p a cs) (line-nonempty a (add_opts (map opt cs))) short free done)

add_loop-index :
    (text : Bytes) (rest : List Bytes) (r : Rule) (index i : ℕ)
    → stoi text ≡ ok i
    → add_loop ((b'i' ∷ b'=' ∷ text) ∷ rest) unset r index ≡ none
unfolding add_loop call
add_loop-index text rest r index i e = rw (add_loop, e) refl

-- A request for an index makes the daemon call a pointer that it has not set, when the index is the
-- first option and is a number.
pub rule_add-index :
    (strerror : Errno → Bytes) (p : State) (a : Action) (text options : Bytes) (i : ℕ)
    → IsFree b' ' text
    → stoi text ≡ ok i
    → cmd_rule_add strerror p (line a (b'i' ∷ b'=' ∷ (text ++ b' ' ∷ options))) ≡ none
unfolding cmd_rule_add skip_spaces is_space
rule_add-index strerror p a text options i free e =
    let all = b'i' ∷ b'=' ∷ (text ++ b' ' ∷ options) in
    let split : (text ++ b' ' ∷ options) ++ action_text a
        ≡ text ++ b' ' ∷ (options ++ action_text a) =
      append_assoc text (b' ' ∷ options) (action_text a) in
    rw (cmd_rule_add, line-is_bare a all, line-action a all)
      (rw (line-behind a all refl) (
        rw
          (
            split,
            tokens-word (b'i' ∷ b'=' ∷ text) [] (options ++ action_text a)
                (omega arith, (omega arith, free)),
          )
          (rw (add_loop-index text (tokens [] (options ++ action_text a)) (Rule.new a) no_index i e)
            refl)))
