-- ===== src/Ctl/Listing/Lines.antt =====
-- A line of an answer, however the network cuts the answer.
use irccd.Base.{
  ◌+◌, ◌<◌, ◌≡◌, refl, sym, ap, ◌∙◌, inl, inr, false, Option, none, some, List, [], ◌∷◌, ◌++◌,
  append_assoc, append-nil, arith, leb, ◌==◌, Bool-cases, Option-cases, length, length-append,
  Bytes,
}
use irccd.Util.{strchr}
use irccd.Util.Joined.{IsFree, strchr-first}
use irccd.Ctl.Requests.{buf_len}
use irccd.Ctl.Listing.{Input, input, poll_loop, poll}

abbrev pub concat : List Bytes → Bytes
concat [] = []
concat (s ∷ rest) = s ++ concat rest

-- The text is what is in the buffer and what is still to be received, and it fits in the buffer.
pub record Holds (i : Input) (text : Bytes) : Type 0 where
  pub whole : i.buffer ++ concat i.received ≡ text
  pub fits : length text < buf_len

-- A line end that is found is found in a longer text too.
strchr-append :
    (s t line rest : Bytes)
    → strchr s b'\n' ≡ some (line, rest)
    → strchr (s ++ t) b'\n' ≡ some (line, rest ++ t)
unfolding strchr
strchr-append [] t line rest h = cc
strchr-append (c ∷ s) t line rest h = elim (Bool-cases (c == b'\n')) [
  | inl u ↦
      let e : some ([], s) ≡ some (line, rest) = rw u at h in
      rw u (
        ap {B = Option (Bytes × Bytes)}
          (λ (o : Option (Bytes × Bytes)). elim o [ none ↦ none | some p ↦ some (p.0, p.1 ++ t) ])
          e)
  | inr u ↦ elim (Option-cases (strchr s b'\n')) [
    | inl e ↦ cc (rw (u, e) at h)
    | inr (p, e) ↦
        let k : some (c ∷ p.0, p.1) ≡ some (line, rest) = rw (u, e) at h in
        rw (u, strchr-append s t p.0 p.1 e)
          (ap {B = Option (Bytes × Bytes)}
            (λ (o : Option (Bytes × Bytes)). elim o [ none ↦ none | some q ↦ some (q.0, q.1 ++ t) ])
            k)
  ]
]

-- What poll answers with: the line, and an input that holds the rest.
abbrev pub Polls : Option (Bytes × Input) → Bytes → Bytes → Type 0
Polls result line rest = (i : Input) × (result ≡ some (line, i)) × Holds i rest

-- The line end is in the buffer already.
found-Polls :
    (buffer line rest l r : Bytes) (received : List Bytes)
    → IsFree b'\n' line
    → Holds (input buffer received) (line ++ b'\n' ∷ rest)
    → strchr buffer b'\n' ≡ some (l, r)
    → Polls (some (l, input r received)) line rest
found-Polls buffer line rest l r received free h e =
    let longer = strchr-append buffer (concat received) l r e in
    let same : ◌≡◌ {A = Option (Bytes × Bytes)} (some (l, r ++ concat received))
        (some (line, rest)) =
      sym longer ∙ ap (λ (t : Bytes). strchr t b'\n') h.whole ∙ strchr-first line rest b'\n' free in
    let first : l ≡ line = cc same in
    let behind : r ++ concat received ≡ rest = cc same in
    (
      input r received,
      rw first refl,
      record { whole = behind; fits = omega (arith, h.fits, length-append line (b'\n' ∷ rest)) },
    )

poll_loop-Polls :
    (buffer : Bytes) (received : List Bytes) (line rest : Bytes)
    → IsFree b'\n' line
    → Holds (input buffer received) (line ++ b'\n' ∷ rest)
    → Polls (poll_loop buffer received) line rest
unfolding poll_loop
poll_loop-Polls buffer [] line rest free h = elim (Option-cases (strchr buffer b'\n')) [
  | inl e ↦
      let text : strchr buffer b'\n' ≡ some (line, rest) =
        ap (λ (t : Bytes). strchr t b'\n') (sym (append-nil buffer) ∙ h.whole)
        ∙ strchr-first line rest b'\n' free in
      cc (e, text)
  | inr (p, e) ↦ rw (poll_loop, e) (found-Polls buffer line rest p.0 p.1 [] free h e)
]
poll_loop-Polls buffer (buf ∷ received) line rest free h =
    elim (Option-cases (strchr buffer b'\n')) [
      | inl e ↦
          let whole : (buffer ++ buf) ++ concat received ≡ line ++ b'\n' ∷ rest =
            append_assoc buffer buf (concat received) ∙ h.whole in
          let room : leb buf_len (length buffer + length buf) ≡ false = ground (
            arith,
            h.fits,
            ap length whole,
            length-append (buffer ++ buf) (concat received),
            length-append buffer buf,
          ) in
          rw (poll_loop, e, room)
            (poll_loop-Polls (buffer ++ buf) received line rest free
              (record { whole = whole; fits = h.fits }))
      | inr (p, e) ↦
          rw (poll_loop, e) (found-Polls buffer line rest p.0 p.1 (buf ∷ received) free h e)
    ]

pub poll-Polls :
    (i : Input) (line rest : Bytes)
    → IsFree b'\n' line
    → Holds i (line ++ b'\n' ∷ rest)
    → Polls (poll i) line rest
unfolding poll
poll-Polls i line rest free h =
    poll_loop-Polls i.buffer i.received line rest free (record { whole = h.whole; fits = h.fits })
