-- ===== src/Ctl/Listing/Rules.antt =====
-- irccdctl prints the rules that the daemon has.
use irccd.Base.{
  ℕ, ◌+◌, ◌^◌, ◌≤◌, ◌<◌, ◌≡◌, refl, sym, ap, ◌∙◌, subst, Option, none, some, List, [], ◌∷◌, ◌++◌,
  map, append_assoc, append-nil, arith, ltb, if◌then◌else◌, length, length-append, Bytes, codes,
  has_prefix, is_space,
}
use irccd.Util.Joined.{IsFree}
use irccd.Rule.{Rule}
use irccd.Peer.Numbers.{skip_spaces, scan_size, decimal}
use irccd.Peer.Order.{rule_list_to_string, action_text, rules_text}
use irccd.Ctl.Requests.{buf_len}
use irccd.Ctl.Show.{pad, listing}
use irccd.Ctl.Listing.{Input, answered, show_lines, rules_loop, cmd_rule_list}
use irccd.Rule.{entries}
use irccd.Peer.{State, done, push}
use irccd.Peer.Order
use irccd.Peer.Lists.{names_text}
use irccd.Peer.Numbers.Printed.{scan_size-decimal, skip_spaces-decimal}
use irccd.Peer.Rules.Tokens.{AreDigits, decimal-AreDigits}
use irccd.Bot.Rules.Order.{size-length}
use irccd.Ctl.Listing.Lines.{Holds, Polls, poll-Polls}

-- The labels of a rule with what is printed behind them.
abbrev pub parts : Rule → List (Bytes × Bytes)
parts r =
    (codes "action:", action_text r.action)
    ∷ (codes "servers:", names_text (entries r.servers))
    ∷ (codes "channels:", names_text (entries r.channels))
    ∷ (codes "origins:", names_text (entries r.origins))
    ∷ (codes "plugins:", names_text (entries r.plugins))
    ∷ (codes "events:", names_text (entries r.events))
    ∷ []

abbrev pub AreLines : List (Bytes × Bytes) → Type 0
AreLines [] = Unit
AreLines (p ∷ rest) = IsFree b'\n' p.1 × AreLines rest

-- No value of a rule has a line end.
abbrev pub ArePrintable : List Rule → Type 0
ArePrintable [] = Unit
ArePrintable (r ∷ rest) = AreLines (parts r) × ArePrintable rest

abbrev pub printed : ℕ → List Rule → Bytes
printed i [] = []
printed i (r ∷ rest) =
    listing ((codes "index:", decimal i) ∷ [])
    ++ (listing (parts r)
        ++ ((if ltb 0 (length rest) then b'\n' ∷ [] else []) ++ printed (i + 1) rest))

-- The answer of the daemon.
abbrev pub reply : List Rule → Bytes
reply rules = codes "OK " ++ (decimal (length rules) ++ b'\n' ∷ rules_text rules)

abbrev pub line_texts : List (Bytes × Bytes) → Bytes → Bytes
line_texts [] rest = rest
line_texts (p ∷ ps) rest = p.1 ++ b'\n' ∷ line_texts ps rest

line_texts-append :
    (ps : List (Bytes × Bytes)) (s t : Bytes) → line_texts ps s ++ t ≡ line_texts ps (s ++ t)
line_texts-append [] s t = refl
line_texts-append (p ∷ ps) s t =
    append_assoc p.1 (b'\n' ∷ line_texts ps s) t
    ∙ ap (λ (u : Bytes). p.1 ++ b'\n' ∷ u) (line_texts-append ps s t)

rule_list_to_string-names :
    (v : Option (List Bytes)) (rest : Bytes)
    → rule_list_to_string v ++ rest ≡ names_text (entries v) ++ b'\n' ∷ rest
unfolding rule_list_to_string names_text
rule_list_to_string-names none rest = refl
rule_list_to_string-names (some []) rest = refl
rule_list_to_string-names (some (c ∷ [])) rest = append_assoc c (b'\n' ∷ []) rest
rule_list_to_string-names (some (c ∷ d ∷ l)) rest =
    append_assoc c (b' ' ∷ rule_list_to_string (some (d ∷ l))) rest
    ∙ ap (λ (t : Bytes). c ++ b' ' ∷ t) (rule_list_to_string-names (some (d ∷ l)) rest)
    ∙ sym (append_assoc c (b' ' ∷ names_text (d ∷ l)) (b'\n' ∷ rest))

rules_text-parts :
    (r : Rule) (rules : List Rule)
    → rules_text (r ∷ rules) ≡ line_texts (parts r) (rules_text rules)
unfolding rules_text
rules_text-parts r rules =
    rw
      (
        rule_list_to_string-names r.events (rules_text rules),
        rule_list_to_string-names r.plugins,
        rule_list_to_string-names r.origins,
        rule_list_to_string-names r.channels,
        rule_list_to_string-names r.servers,
      )
      refl

listing-cons :
    (p : Bytes × Bytes) (rest : List (Bytes × Bytes))
    → listing (p ∷ []) ++ listing rest ≡ listing (p ∷ rest)
listing-cons p rest =
    append_assoc (pad 16 p.0) (p.1 ++ b'\n' ∷ []) (listing rest)
    ∙ ap (λ (t : Bytes). pad 16 p.0 ++ t) (append_assoc p.1 (b'\n' ∷ []) (listing rest))

-- What reading lines answers with, and an input that holds the rest.
abbrev pub Shows : Option (Bytes × Input) → Bytes → Bytes → Type 0
Shows = Polls

show_lines-Shows :
    (ps : List (Bytes × Bytes)) (i : Input) (rest : Bytes)
    → AreLines ps
    → Holds i (line_texts ps rest)
    → Shows (show_lines (map (λ (p : Bytes × Bytes). p.0) ps) i) (listing ps) rest
unfolding show_lines
show_lines-Shows [] i rest free h = (i, refl, h)
show_lines-Shows (p ∷ ps) i rest free h =
    let (j, e, k) = poll-Polls i p.1 (line_texts ps rest) free.0 h in
    let (l, f, m) = show_lines-Shows ps j rest free.1 k in
    (l, rw (show_lines, e, f) (ap (λ (t : Bytes). some (t, l)) (listing-cons p ps)), m)

rules_loop-printed :
    (rules : List Rule) (i : Input) (n : ℕ) (rest : Bytes)
    → ArePrintable rules
    → Holds i (rules_text rules ++ rest)
    → rules_loop (length rules) n i ≡ some (printed n rules)
unfolding rules_loop
rules_loop-printed [] i n rest free h = refl
rules_loop-printed (r ∷ rules) i n rest free h =
    let text : rules_text (r ∷ rules) ++ rest ≡ line_texts (parts r) (rules_text rules ++ rest) =
      ap (λ (t : Bytes). t ++ rest) (rules_text-parts r rules)
      ∙ line_texts-append (parts r) (rules_text rules) rest in
    let (j, e, k) =
      show_lines-Shows (parts r) i (rules_text rules ++ rest) free.0
        (subst (λ (t : Bytes). Holds i t) text h) in
    rw (rules_loop, e, rules_loop-printed rules j (n + 1) rest free.1 k) refl

digits-IsFree : (s : Bytes) → AreDigits s → IsFree b'\n' s
digits-IsFree [] h = tt
digits-IsFree (c ∷ s) h = (ground (arith, h.0), digits-IsFree s h.1)

line_texts-length :
    (ps : List (Bytes × Bytes)) (rest : Bytes)
    → length rest + length ps ≤ length (line_texts ps rest)
line_texts-length [] rest = omega arith
line_texts-length (p ∷ ps) rest =
    omega (arith, line_texts-length ps rest, length-append p.1 (b'\n' ∷ line_texts ps rest))

-- There are at least as many bytes as rules.
rules_text-length : (rules : List Rule) → length rules ≤ length (rules_text rules)
rules_text-length [] = omega arith
rules_text-length (r ∷ rules) =
    rw (rules_text-parts r rules)
      (omega (arith, rules_text-length rules, line_texts-length (parts r) (rules_text rules)))

few_rules :
    (rules : List Rule) → length (reply rules ++ b'\n' ∷ []) < buf_len → length rules < 2 ^ 64
few_rules rules h =
    let text = decimal (length rules) ++ b'\n' ∷ rules_text rules in
    omega (
      arith,
      h,
      rules_text-length rules,
      length-append (decimal (length rules)) (b'\n' ∷ rules_text rules),
      length-append text (b'\n' ∷ []),
    )

behind_ok : (n : ℕ) → skip_spaces (b' ' ∷ decimal n) ≡ decimal n
unfolding skip_spaces is_space
behind_ok n = skip_spaces-decimal n

-- The answer begins with the number of rules.
answered-size :
    (i : Input) (rules : List Rule)
    → Holds i (reply rules ++ b'\n' ∷ [])
    → (j : Input) × (answered i ≡ some (decimal (length rules), j))
      × Holds j (rules_text rules ++ b'\n' ∷ [])
unfolding answered has_prefix
answered-size i rules h =
    let first = codes "OK " ++ decimal (length rules) in
    let rest = rules_text rules ++ b'\n' ∷ [] in
    let text : reply rules ++ b'\n' ∷ [] ≡ first ++ b'\n' ∷ rest =
      ap (λ (t : Bytes). codes "OK " ++ t)
        (append_assoc (decimal (length rules)) (b'\n' ∷ rules_text rules) (b'\n' ∷ [])) in
    let free : IsFree b'\n' first = (
      omega arith,
      (
        omega arith,
        (omega arith, digits-IsFree (decimal (length rules)) (decimal-AreDigits (length rules))),
      ),
    ) in
    let (j, e, k) = poll-Polls i first rest free (subst (λ (t : Bytes). Holds i t) text h) in
    (j, rw (answered, e) (ap (λ (t : Bytes). some (t, j)) (behind_ok (length rules))), k)

-- The answer of the daemon to RULE-LIST is its number of rules and all their values, and irccdctl
-- prints them in their order, however the network cuts the answer. The stream of the daemon holds a
-- text that is shorter than its buffer, the answer with its line end fits in the buffer of
-- irccdctl, and no value has a line end.
pub rule_list-printed :
    (held : ℕ → Bytes → Option Bytes) (p : State) (i : Input)
    → ((size : ℕ) (text : Bytes) → length text < size → held size text ≡ some text)
    → ArePrintable p.rules
    → Holds i (reply p.rules ++ b'\n' ∷ [])
    → (Order.cmd_rule_list held p ≡ some (done (push p (reply p.rules))))
      × (cmd_rule_list i ≡ some (printed 0 p.rules))
unfolding Order.cmd_rule_list cmd_rule_list
rule_list-printed held p i holds free h =
    let short : length (reply p.rules) < 512 =
      omega (arith, h.fits, length-append (reply p.rules) (b'\n' ∷ [])) in
    let (j, e, k) = answered-size i p.rules h in
    let number : scan_size (decimal (length p.rules)) ≡ some (length p.rules) =
      subst (λ (s : Bytes). scan_size s ≡ some (length p.rules))
        (append-nil (decimal (length p.rules)))
        (scan_size-decimal (length p.rules) [] (few_rules p.rules h.fits) refl) in
    (
      rw (Order.cmd_rule_list, size-length p.rules, holds 512 (reply p.rules) short) refl,
      rw (cmd_rule_list, e, number) (rules_loop-printed p.rules j 0 (b'\n' ∷ []) free k),
    )
