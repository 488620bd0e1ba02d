-- ===== src/Peer/Table/Found.antt =====
-- The command of a line.
use irccd.Base.{◌≡◌, refl, true, some, arith, length, take, Bytes}
use irccd.Bsearch.{str_lt}
use irccd.Bsearch.Sorted.{lookup, is_sorted, bsearch-lookup}
use irccd.Memory.{◌>>=◌}
use irccd.Peer.{State}
use irccd.Peer.Table.{Row, row_name, cmds, first_word, find, Outside, run, reported, invoke}
use irccd.Peer.Numbers.{skip_spaces}

cmds-is_sorted : is_sorted row_name cmds ≡ true
unfolding is_sorted str_lt
cmds-is_sorted = refl

-- The command of a line is the row of the table whose name is the first word of the line, of which
-- 31 bytes count, and none when no row has this name.
pub find-lookup :
    (line : Bytes) → find line ≡ lookup row_name (take 31 (first_word (skip_spaces line))) cmds
unfolding find
find-lookup line = bsearch-lookup row_name (length cmds) _ cmds (omega arith) cmds-is_sorted

-- A line whose command is found runs it, and an error number is reported by its text.
pub invoke-found :
    (o : Outside) (p : State) (line : Bytes) (r : Row)
    → find line ≡ some r
    → invoke o p line ≡ (run o r.call p line >>= λ q. some (reported o q))
unfolding invoke
invoke-found o p line r e = rw (invoke, e) refl
