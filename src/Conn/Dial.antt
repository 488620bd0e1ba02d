-- ===== src/Conn/Dial.antt =====
-- lib/irccd/conn.c: reaching one of the resolved endpoints, `conn_socket`, `conn_dial` and
-- `conn_connect`, and the states of a connection.
pub mod Endpoints
use irccd.Base.{ℕ, Bool, true, false, not, ◌||◌, Option, none, some, List, [], ◌∷◌, if◌then◌else◌}

-- The answers for one endpoint. The socket can fail to open. connect(2) succeeds at once, fails, or
-- is in progress, after which SO_ERROR is the number read from the socket.
pub data Connect : Type 0 where
  connected failed : Connect
  in_progress : ℕ → Connect

pub record Endpoint : Type 0 where
  pub socket : Bool
  pub connect : Connect

-- `conn_dial`: `none` for -1, and otherwise its result.
unfoldable pub dial : Connect → Option ℕ
dial connected = some 0
dial failed = none
dial (in_progress so_error) = some so_error

-- conn_socket(conn) < 0 || conn_dial(conn) < 0
unfoldable pub is_down : Endpoint → Bool
unfolding dial
is_down e = if e.socket then elim (dial e.connect) [ none ↦ true | some rc ↦ false ] else true

-- The loop of `conn_connect`: `rc` is whether `rc` is -1 when the round begins, and the result is
-- whether it is 0 when the loop ends.
unfoldable pub connect_loop : Bool → Endpoint → List Endpoint → Bool
unfolding is_down
connect_loop rc e [] = not (rc || is_down e)
connect_loop rc e (next ∷ rest) =
    let later = connect_loop (rc || is_down e) next rest in if rc || is_down e then later else true

pub data State : Type 0 where
  resolve connect ident ready : State

-- The io coroutine: the state of the connection, and whether it runs. Once it was rescheduled it is
-- idle for good, with the state that it had, until the timer destroys it.
pub record Io : Type 0 where
  pub state : State
  pub running : Bool

-- What one round of `conn_io_entry` meets: the resolver's answer, the endpoints in their order,
-- whether the identification was written, and the end of the connection.
pub data Answer : Type 0 where
  unresolved resolved : Answer
  endpoints : Endpoint → List Endpoint → Answer
  written : Bool → Answer
  lost : Answer

abbrev pub reschedule : Io → Io
reschedule io = record io { running = false }

abbrev pub enter : Io → State → Io
enter io s = record io { state = s }

-- The switch of `conn_io_entry`, without TLS. An answer that the state does not ask for changes
-- nothing.
unfoldable pub dispatch : State → Answer → Io → Io
unfolding connect_loop
dispatch resolve unresolved io = reschedule io
dispatch resolve resolved io = enter io connect
dispatch connect (endpoints e rest) io =
    if connect_loop false e rest then enter io ident else reschedule io
dispatch ident (written true) io = enter io ready
dispatch ident (written false) io = reschedule io
dispatch ready lost io = reschedule io
dispatch s answer io = io

unfoldable pub io_round : Io → Answer → Io
unfolding dispatch
io_round io answer = if io.running then dispatch io.state answer io else io

-- `conn_io_entry` begins by a reset of the state.
unfoldable pub spawn : Io → Io
spawn io = record { state = resolve; running = true }

-- `nce_coro_destroy` of the io coroutine: the state is left as it is.
unfoldable pub destroy : Io → Io
destroy io = reschedule io

-- `irc__conn_ready` of a connection that is there.
unfoldable pub is_ready : State → Bool
is_ready ready = true
is_ready ident = true
is_ready _ = false
