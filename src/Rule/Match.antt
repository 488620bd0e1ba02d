-- ===== src/Rule/Match.antt =====
-- When a rule matches, and which rule of a list decides.
use irccd.Base.{
  ◌≡◌, refl, ◌≢◌, inl, inr, Bool, true, false, ◌&&◌, Option, none, some, List, [], ◌∷◌, ◌++◌, arith,
  Option-cases, Bytes,
}
use irccd.Rule.{
  Rule, Query, list_match, list_contains, rule_match, accepts, matchlist_loop, matchlist,
}

-- A criterion accepts a value that is there: it is NULL, or it has the value up to case.
abbrev pub admits : Option (List Bytes) → Bytes → Bool
admits none v = true
admits (some l) v = list_contains (some l) v

list_match-admits :
    (l : Option (List Bytes)) (v : Bytes) → list_match l (some v) ≡ some (admits l v)
unfolding list_match list_contains
list_match-admits none v = refl
list_match-admits (some l) v = refl

-- A query with no NULL value.
abbrev pub query : Bytes → Bytes → Bytes → Bytes → Bytes → Query
query s c o p e = record {
  server = some s;
  channel = some c;
  origin = some o;
  plugin = some p;
  event = some e;
}

-- With no NULL among the values, the match of a rule never faults, and it succeeds exactly when
-- each criterion is NULL or has the value up to case.
pub rule_match_lem :
    (r : Rule) (s c o p e : Bytes)
    → rule_match r (query s c o p e)
      ≡ some (
          admits r.servers s
          && admits r.channels c
          && admits r.origins o
          && admits r.plugins p
          && admits r.events e)
unfolding rule_match
rule_match_lem r s c o p e = ground (
  arith,
  list_match-admits r.servers s,
  list_match-admits r.channels c,
  list_match-admits r.origins o,
  list_match-admits r.plugins p,
  list_match-admits r.events e,
)

-- No rule of the list matches, and none faults.
abbrev pub NoMatch : List Rule → Query → Type 0
NoMatch [] q = Unit
NoMatch (r ∷ rules) q = (rule_match r q ≡ some false) × NoMatch rules q

-- No rule of the list faults.
abbrev pub NoFault : List Rule → Query → Type 0
NoFault [] q = Unit
NoFault (r ∷ rules) q = (rule_match r q ≢ none) × NoFault rules q

loop-NoMatch :
    (rules : List Rule) (q : Query) (b : Bool) → NoMatch rules q → matchlist_loop b rules q ≡ some b
unfolding matchlist_loop
loop-NoMatch [] q b h = refl
loop-NoMatch (r ∷ rules) q b h = ground (arith, h.0, loop-NoMatch rules q b h.1)

loop-last :
    (pre : List Rule) (r : Rule) (post : List Rule) (q : Query) (b : Bool)
    → NoFault pre q
    → rule_match r q ≡ some true
    → NoMatch post q
    → matchlist_loop b (pre ++ r ∷ post) q ≡ some (accepts r.action)
unfolding matchlist_loop
loop-last [] r post q b f m n = ground (arith, loop-NoMatch post q (accepts r.action) n)
loop-last (x ∷ pre) r post q b f m n = elim (Option-cases (rule_match x q)) [
  | inl e ↦ absurd (f.0 e)
  | inr (true, e) ↦ rw (e, matchlist_loop) (loop-last pre r post q (accepts x.action) f.1 m n)
  | inr (false, e) ↦ rw (e, matchlist_loop) (loop-last pre r post q b f.1 m n)
]

-- A query that no rule of the list matches is accepted.
pub matchlist-default :
    (rules : List Rule) (q : Query) → NoMatch rules q → matchlist rules q ≡ some true
unfolding matchlist
matchlist-default rules q h = loop-NoMatch rules q true h

-- The action of the last rule that matches decides, whatever the rules before it answer: the
-- rules before it do not fault, and the rules behind it do not match.
pub matchlist-last :
    (pre : List Rule) (r : Rule) (post : List Rule) (q : Query)
    → NoFault pre q
    → rule_match r q ≡ some true
    → NoMatch post q
    → matchlist (pre ++ r ∷ post) q ≡ some (accepts r.action)
unfolding matchlist
matchlist-last pre r post q f m n = loop-last pre r post q true f m n

-- A rule of the list that faults makes the whole evaluation fault.
loop-fault :
    (pre : List Rule) (r : Rule) (post : List Rule) (q : Query) (b : Bool)
    → rule_match r q ≡ none
    → matchlist_loop b (pre ++ r ∷ post) q ≡ none
unfolding matchlist_loop
loop-fault [] r post q b m = rw (m, matchlist_loop)
loop-fault (x ∷ pre) r post q b m = elim (Option-cases (rule_match x q)) [
  | inl e ↦ rw (e, matchlist_loop)
  | inr (true, e) ↦ rw (e, matchlist_loop) (loop-fault pre r post q (accepts x.action) m)
  | inr (false, e) ↦ rw (e, matchlist_loop) (loop-fault pre r post q b m)
]

-- A query with a server and without a channel, such as that of a connection, faults on every list
-- with a rule that has a channel criterion and whose server criterion admits the server.
pub matchlist-null_channel :
    (pre : List Rule) (r : Rule) (post : List Rule) (q : Query) (s x : Bytes) (l : List Bytes)
    → q.server ≡ some s
    → q.channel ≡ none
    → admits r.servers s ≡ true
    → r.channels ≡ some (x ∷ l)
    → matchlist (pre ++ r ∷ post) q ≡ none
unfolding matchlist
matchlist-null_channel pre r post q s x l hs hc ha hr = loop-fault pre r post q true (
    unfold rule_match in
    rw (hs, hc, hr, list_match-admits r.servers s, ha) (unfold list_match in refl))
