-- ===== src/Conn/Dial/Endpoints.antt =====
-- Which endpoint decides, and how a connection becomes ready.
use irccd.Base.{
  ℕ, ◌≡◌, refl, subst, inl, inr, Bool, true, false, not, List, [], ◌∷◌, arith, if◌then◌else◌,
  Bool-cases,
}
use irccd.Conn.Dial.{
  Connect, connected, failed, in_progress, Endpoint, dial, is_down, connect_loop, State, Io, Answer,
  endpoints, lost, written, reschedule, enter, dispatch, io_round, spawn, destroy, is_ready,
}
use irccd.Conn.Dial

-- With `rc` at -1 when a round begins, no later endpoint makes it 0.
connect_loop-failed : (e : Endpoint) (rest : List Endpoint) → connect_loop true e rest ≡ false
unfolding connect_loop
connect_loop-failed e [] = refl
connect_loop-failed e (next ∷ rest) = connect_loop-failed next rest

-- A connection over a list of endpoints is made exactly when the first of them is up.
pub connect_loop-first :
    (e : Endpoint) (rest : List Endpoint) → connect_loop false e rest ≡ not (is_down e)
unfolding connect_loop
connect_loop-first e [] = refl
connect_loop-first e (next ∷ rest) = ground (arith, connect_loop-failed next rest)

-- An endpoint whose connection is in progress is up, whatever error the socket then reports.
pub is_down-in_progress :
    (e : Endpoint) (so_error : ℕ)
    → e.socket ≡ true
    → e.connect ≡ in_progress so_error
    → is_down e ≡ false
unfolding is_down
is_down-in_progress e so_error s c = rw (s, c)

-- What a round must have met to make a connection ready.
abbrev pub BecomesReady : State → Answer → Type 0
BecomesReady s answer =
    (e : Endpoint) × (rest : List Endpoint) × (s ≡ Dial.State.connect)
    × (answer ≡ endpoints e rest)
    × (is_down e ≡ false)

dispatch-ready :
    (s : State) (answer : Answer) (io : Io)
    → io.state ≡ s
    → is_ready s ≡ false
    → is_ready (dispatch s answer io).state ≡ true
    → BecomesReady s answer
unfolding dispatch is_ready
dispatch-ready Dial.State.connect (endpoints e rest) io s n r =
    (e, rest, refl, refl, ground (arith, connect_loop-first e rest))
dispatch-ready Dial.State.resolve Dial.resolved io s n r = cc
dispatch-ready Dial.State.resolve _ io s n r = absurd (ground (arith, s))
dispatch-ready Dial.State.connect _ io s n r = absurd (ground (arith, s))
dispatch-ready Dial.State.ident answer io s n r = cc
dispatch-ready Dial.State.ready answer io s n r = cc

-- A connection that is not ready becomes ready in a round in one way only: it runs, it dials its
-- endpoints, and the first of them is up.
pub io_round-ready :
    (io : Io) (answer : Answer)
    → is_ready io.state ≡ false
    → is_ready (io_round io answer).state ≡ true
    → (io.running ≡ true) × BecomesReady io.state answer
unfolding io_round
io_round-ready io answer n r = elim (Bool-cases io.running) [
  | inl runs ↦ (
    runs,
    dispatch-ready io.state answer io refl n
        (subst (λ b. is_ready (if b then dispatch io.state answer io else io).state ≡ true) runs r),
  )
  | inr stopped ↦ absurd (
      clash
        (subst (λ b. is_ready (if b then dispatch io.state answer io else io).state ≡ true) stopped
          r)
        n)
]
  where
    clash : {b : Bool} → b ≡ true → b ≡ false → ⊥
    clash p q = cc

-- The loss of the connection leaves it ready for senders until the coroutine is spawned again.
pub lost-is_ready :
    (io : Io)
    → io.state ≡ Dial.State.ready
    → io.running ≡ true
    → (is_ready (io_round io lost).state ≡ true) × ((io_round io lost).running ≡ false)
unfolding io_round is_ready
lost-is_ready io s r = rw (r, s) (refl, refl)
