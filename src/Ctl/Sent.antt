-- ===== src/Ctl/Sent.antt =====
-- A request of irccdctl that fits its buffer, from `req` to the loop over the lines of the peer.
use irccd.Base.{
  ℕ, zero, suc, ◌+◌, ◌-◌, ◌<◌, ◌≡◌, refl, ◌≢◌, some, [], ◌∷◌, ◌++◌, arith, length, take,
  length-append, take-all, Bytes,
}
use irccd.Memory.{◌>>=◌}
use irccd.Util.{strchr}
use irccd.Util.Joined.{IsFree, strchr-first}
use irccd.Peer.{State}
use irccd.Peer.Table.{Outside, invoke, lines}
use irccd.Ctl.Requests.{buf_len, req}

-- A line that fits is sent whole.
req-short : (text : Bytes) → length text + 1 < buf_len → req text ≡ some (text ++ b'\n' ∷ [])
unfolding req
req-short text h =
    let whole : take (buf_len - 1) text ≡ text = take-all 511 text (omega (arith, h)) in
    rw whole (ground (arith, h))

module _ (o : Outside) where
  -- Two rounds of the loop over a line that is not empty.
  lines-one :
      (text : Bytes) (p q : State) (fuel : ℕ)
      → text ≢ []
      → 1 < fuel
      → IsFree b'\n' text
      → invoke o p text ≡ some q
      → lines o fuel p (text ++ b'\n' ∷ []) ≡ some (q, [])
  unfolding lines strchr
  lines-one [] p q fuel n f free e = absurd (n refl)
  lines-one (c ∷ text) p q zero n f free e = absurd (omega (arith, f))
  lines-one (c ∷ text) p q (suc zero) n f free e = absurd (omega (arith, f))
  lines-one (c ∷ text) p q (suc (suc fuel)) n f free e =
      rw (lines, strchr-first (c ∷ text) [] b'\n' free, e) refl

  -- What irccdctl sends of a text that fits is one line, which the peer takes whole.
  pub lines-req :
      (text : Bytes) (p q : State)
      → text ≢ []
      → length text + 1 < buf_len
      → IsFree b'\n' text
      → invoke o p text ≡ some q
      → (req text >>= λ bytes. lines o (length bytes) p bytes) ≡ some (q, [])
  lines-req [] p q n short free e = absurd (n refl)
  lines-req (c ∷ text) p q n short free e =
      let long : 1 < length ((c ∷ text) ++ b'\n' ∷ []) =
        omega (arith, length-append text (b'\n' ∷ [])) in
      rw (req-short (c ∷ text) short)
        (lines-one (c ∷ text) p q (length ((c ∷ text) ++ b'\n' ∷ [])) n long free e)
