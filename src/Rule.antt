-- ===== src/Rule.antt =====
-- lib/irccd/rule.c and rule.h: one filtering rule, its criteria lists and its match.
--
-- A criterion is a `char **`, which is `none` when it is NULL and otherwise the list of the strings
-- before the NULL sentinel. A value to match is a `char *` that may be NULL; a comparison with NULL
-- is a fault, which is `none` of `Option Bool`.
pub mod Criteria
pub mod Match
use irccd.Base.{
  Bool, true, false, Option, none, some, List, [], ◌∷◌, ◌++◌, if◌then◌else◌, Bytes, str_case_eq,
}

pub data Action : Type 0 where
  accept drop : Action

pub record Rule : Type 0 where
  pub action : Action
  pub servers : Option (List Bytes)
  pub channels : Option (List Bytes)
  pub origins : Option (List Bytes)
  pub plugins : Option (List Bytes)
  pub events : Option (List Bytes)

-- The loop of `list_match` and `list_contains` over the entries.
unfoldable pub contains_loop : List Bytes → Bytes → Bool
contains_loop [] value = false
contains_loop (i ∷ rest) value = if str_case_eq i value then true else contains_loop rest value

-- The first comparison with a NULL value faults; an empty list makes none.
unfoldable pub list_match : Option (List Bytes) → Option Bytes → Option Bool
unfolding contains_loop
list_match none value = some true
list_match (some l) (some value) = some (contains_loop l value)
list_match (some []) none = some false
list_match (some (i ∷ rest)) none = none

unfoldable pub list_contains : Option (List Bytes) → Bytes → Bool
unfolding contains_loop
list_contains none value = false
list_contains (some l) value = contains_loop l value

-- The entries before the sentinel; none for NULL.
abbrev pub entries : Option (List Bytes) → List Bytes
entries none = []
entries (some l) = l

unfoldable pub list_add : Option (List Bytes) → Bytes → Option (List Bytes)
unfolding list_contains
list_add list value = if list_contains list value then list else some (entries list ++ value ∷ [])

-- The loop of `list_remove`: `rc` is the new list.
unfoldable pub remove_loop : Option (List Bytes) → List Bytes → Bytes → Option (List Bytes)
unfolding list_add
remove_loop rc [] value = rc
remove_loop rc (i ∷ rest) value =
    remove_loop (if str_case_eq i value then rc else list_add rc i) rest value

unfoldable pub list_remove : Option (List Bytes) → Bytes → Option (List Bytes)
unfolding remove_loop
list_remove none value = none
list_remove (some l) value = remove_loop none l value

unfoldable pub new : Action → Rule
new a = record {
  action = a;
  servers = none;
  channels = none;
  origins = none;
  plugins = none;
  events = none;
}

unfoldable pub add_server : Rule → Bytes → Rule
unfolding list_add
add_server r value = record r { servers = list_add r.servers value }

unfoldable pub remove_server : Rule → Bytes → Rule
unfolding list_remove
remove_server r value = record r { servers = list_remove r.servers value }

unfoldable pub add_channel : Rule → Bytes → Rule
unfolding list_add
add_channel r value = record r { channels = list_add r.channels value }

unfoldable pub remove_channel : Rule → Bytes → Rule
unfolding list_remove
remove_channel r value = record r { channels = list_remove r.channels value }

unfoldable pub add_origin : Rule → Bytes → Rule
unfolding list_add
add_origin r value = record r { origins = list_add r.origins value }

unfoldable pub remove_origin : Rule → Bytes → Rule
unfolding list_remove
remove_origin r value = record r { origins = list_remove r.origins value }

unfoldable pub add_plugin : Rule → Bytes → Rule
unfolding list_add
add_plugin r value = record r { plugins = list_add r.plugins value }

unfoldable pub remove_plugin : Rule → Bytes → Rule
unfolding list_remove
remove_plugin r value = record r { plugins = list_remove r.plugins value }

unfoldable pub add_event : Rule → Bytes → Rule
unfolding list_add
add_event r value = record r { events = list_add r.events value }

unfoldable pub remove_event : Rule → Bytes → Rule
unfolding list_remove
remove_event r value = record r { events = list_remove r.events value }

-- What a rule is asked about. Channel and origin are NULL for some events.
pub record Query : Type 0 where
  pub server : Option Bytes
  pub channel : Option Bytes
  pub origin : Option Bytes
  pub plugin : Option Bytes
  pub event : Option Bytes

-- `&&` on tests that may fault: the right one is made only if the left one holds.
infixr 35 ◌and_then◌
abbrev pub ◌and_then◌ : Option Bool → Option Bool → Option Bool
none and_then q = none
(some false) and_then q = some false
(some true) and_then q = q

unfoldable pub rule_match : Rule → Query → Option Bool
unfolding list_match
rule_match r q =
    list_match r.servers q.server
    and_then list_match r.channels q.channel
    and_then list_match r.origins q.origin
    and_then list_match r.plugins q.plugin
    and_then list_match r.events q.event

unfoldable pub accepts : Action → Bool
accepts accept = true
accepts drop = false

-- The loop of `irc_rule_matchlist`: the answer of one rule, with what follows.
unfoldable pub matchlist_loop : Bool → List Rule → Query → Option Bool
unfolding accepts
matchlist_loop result [] q = some result
matchlist_loop result (r ∷ rest) q = elim (rule_match r q) [
  | none ↦ none
  | some m ↦ matchlist_loop (if m then accepts r.action else result) rest q
]

unfoldable pub matchlist : List Rule → Query → Option Bool
unfolding matchlist_loop
matchlist = matchlist_loop true
