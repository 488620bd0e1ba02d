-- ===== src/Ctl/Edits/Applied.antt =====
-- The command rule-edit of irccdctl, through the daemon.
use irccd.Base.{
  ℕ, zero, suc, ◌+◌, ◌-◌, ◌^◌, ◌<◌, ◌≡◌, refl, ap, ◌∙◌, ◌≢◌, false, Option, some, List, [], ◌∷◌,
  ◌++◌, map, arith, leb, length, get_elem?, drop, length-append, Bytes, codes, str_eq, has_prefix,
  is_space,
}
use irccd.Memory.{◌>>=◌}
use irccd.Util.Joined.{IsFree, join}
use irccd.Rule.{Rule}
use irccd.Bot.Rules
use irccd.Bot.Rules.Order.{size-length}
use irccd.Peer.{State, done, push, succeed}
use irccd.Peer.Numbers.{skip_spaces, scan, scan_size, decimal}
use irccd.Peer.Numbers.Printed.{scan_size-decimal}
use irccd.Peer.Rules.{set, edit_index, cmd_rule_edit, behind_word}
use irccd.Peer.Rules.Tokens.{behind_word-decimal}
use irccd.Peer.Table
use irccd.Peer.Table.{Outside, Command, Row, row, find, first_word, invoke, lines}
use irccd.Peer.Table.Found.{find-lookup, invoke-found}
use irccd.Ctl.Requests.{buf_len, Opt, edit_opts, rule_edit_words, rule_edit, run, cmds, req}
use irccd.Ctl.Sent.{lines-req}
use irccd.Bsearch.{str_lt}
use irccd.Ctl.Edits.{
  Edit, opt, apply_all, AreWords, tokens-edit_opts, edit_loop-token, skip_spaces-edit_opts,
}

abbrev pub line : ℕ → List Edit → Bytes
line n es = join b' ' (codes "RULE-EDIT") (decimal n ∷ edit_opts (map opt es) ∷ [])

scan_size-space : (s : Bytes) → scan_size (b' ' ∷ s) ≡ scan_size s
unfolding scan_size scan skip_spaces is_space
scan_size-space s = refl

edit_index-line : (n : ℕ) (es : List Edit) → n < 2 ^ 64 → edit_index (line n es) ≡ some n
unfolding has_prefix
edit_index-line n es l =
    scan_size-space (decimal n ++ b' ' ∷ edit_opts (map opt es))
    ∙ scan_size-decimal n (b' ' ∷ edit_opts (map opt es)) l refl

-- The rule at the index with the edits, and the answer.
abbrev pub after : State → ℕ → Rule → List Edit → State
after p n r es = push (record p { rules = set p.rules n (apply_all r es) }) (codes "OK")

below-size : (l : List Rule) (n : ℕ) (r : Rule) → get_elem? l n ≡ some r → n < length l
below-size [] n r e = cc
below-size (x ∷ l) zero r e = omega arith
below-size (x ∷ l) (suc n) r e = omega (arith, below-size l n r e)

cmd_rule_edit-line :
    (p : State) (n : ℕ) (r : Rule) (es : List Edit)
    → n < 2 ^ 64
    → get_elem? p.rules n ≡ some r
    → AreWords es
    → cmd_rule_edit p (line n es) ≡ some (done (after p n r es))
unfolding Rules.get succeed cmd_rule_edit
cmd_rule_edit-line p n r es l g h =
    let inside : leb (Rules.size p.rules) n ≡ false =
      ground (arith, size-length p.rules, below-size p.rules n r g) in
    let behind : behind_word (drop 10 (line n es)) ≡ edit_opts (map opt es) =
      behind_word-decimal n (edit_opts (map opt es)) (skip_spaces-edit_opts es) in
    rw (cmd_rule_edit, edit_index-line n es l, inside, g)
      (rw (behind, tokens-edit_opts es h) (rw (edit_loop-token es r) refl))

found :
    (n : ℕ) (es : List Edit) → find (line n es) ≡ some (row (codes "RULE-EDIT") Command.rule_edit)
unfolding first_word skip_spaces is_space str_eq
found n es = find-lookup (line n es)

-- The text fits the buffer of the options when it fits that of the request.
line-longer : (n : ℕ) (es : List Edit) → length (edit_opts (map opt es)) + 10 < length (line n es)
line-longer n es = omega (arith, length-append (decimal n) (b' ' ∷ edit_opts (map opt es)))

line-nonempty : (n : ℕ) (es : List Edit) → line n es ≢ []
line-nonempty n es e = cc

module _ (held : ℕ → Bytes → Option Bytes)
    (getopt : Bytes → List Bytes → List Opt × List Bytes) where
  run-rule_edit :
      (args : List Bytes)
      → run held getopt (codes "rule-edit") args ≡ (rule_edit held getopt args >>= req)
  unfolding run cmds str_lt str_eq
  run-rule_edit args = refl

  run-line :
      (args : List Bytes) (n : ℕ) (es : List Edit)
      → ((size : ℕ) (text : Bytes) → length text < size → held size text ≡ some text)
      → getopt (codes "a:C:c:E:e:O:o:P:p:S:s:") args ≡ (map opt es, decimal n ∷ [])
      → length (line n es) + 1 < buf_len
      → run held getopt (codes "rule-edit") args ≡ req (line n es)
  unfolding rule_edit_words
  run-line args n es holds options short =
      let fits : length (edit_opts (map opt es)) < buf_len - 1 =
        omega (arith, short, line-longer n es) in
      run-rule_edit args
      ∙ (ap (λ (x : List Opt × List Bytes). rule_edit_words held getopt x.0 x.1 >>= req) options
          ∙ rw (rule_edit_words, holds (buf_len - 1) (edit_opts (map opt es)) fits) refl)

  -- The command rule-edit of irccdctl, with an index and options that ask for edits of a rule, is
  -- sent to the daemon, which takes the line whole, applies the edits to that rule in their order,
  -- and answers OK. The rule is there, no value has a space, the request has no line end and is
  -- shorter than the client's buffer less the line end and the NUL, and the stream on the buffer
  -- holds a text that is shorter than the buffer.
  pub ctl-edited :
      (o : Outside) (args : List Bytes) (p : State) (n : ℕ) (r : Rule) (es : List Edit)
      → ((size : ℕ) (text : Bytes) → length text < size → held size text ≡ some text)
      → getopt (codes "a:C:c:E:e:O:o:P:p:S:s:") args ≡ (map opt es, decimal n ∷ [])
      → n < 2 ^ 64
      → get_elem? p.rules n ≡ some r
      → AreWords es
      → IsFree b'\n' (line n es)
      → length (line n es) + 1 < buf_len
      → (run held getopt (codes "rule-edit") args >>= λ bytes. lines o (length bytes) p bytes)
        ≡ some (after p n r es, [])
  unfolding Table.run
  ctl-edited o args p n r es holds options l g h free short =
      let done : invoke o p (line n es) ≡ some (after p n r es) =
        rw
          (
            invoke-found o p (line n es) (row (codes "RULE-EDIT") Command.rule_edit) (found n es),
            cmd_rule_edit-line p n r es l g h,
          )
          refl in
      rw (run-line args n es holds options short)
        (lines-req o (line n es) p (after p n r es) (line-nonempty n es) short free done)
