-- ===== src/Conn/Socket/Loops.antt =====
-- The two retry loops.
use irccd.Base.{ℕ, zero, suc, ◌<◌, ◌≡◌, refl, ◌≢◌, none, some, arith}
use irccd.Conn.Socket.{Sent, Received, recv_loop, send_loop}

-- A read that is interrupted `n` times, and then answers something else, returns that answer,
-- with fuel for more than `n` rounds.
pub recv_loop-retry :
    (n fuel : ℕ) (answers : ℕ → Received)
    → n < fuel
    → ((i : ℕ) → i < n → answers i ≡ Received.eintr)
    → answers n ≢ Received.eintr
    → recv_loop fuel answers ≡ some (answers n)
unfolding recv_loop
recv_loop-retry n zero answers l h e = absurd (omega arith)
recv_loop-retry zero (suc fuel) answers l h e = ground (arith, e)
recv_loop-retry (suc n) (suc fuel) answers l h e =
    rw (h 0 (omega arith), recv_loop)
      (recv_loop-retry n fuel (λ i. answers (suc i)) (omega arith) (λ i k. h (suc i) (omega arith))
        e)

-- A write that cannot be done for now is retried without end.
pub send_loop-spins :
    (fuel : ℕ) (answers : ℕ → Sent)
    → ((i : ℕ) → i < fuel → answers i ≡ Sent.again)
    → send_loop fuel answers ≡ none
unfolding send_loop
send_loop-spins zero answers h = refl
send_loop-spins (suc fuel) answers h =
    rw (h 0 (omega arith), send_loop)
      (send_loop-spins fuel (λ i. answers (suc i)) (λ i k. h (suc i) (omega arith)))
