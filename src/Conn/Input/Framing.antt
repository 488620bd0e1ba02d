-- ===== src/Conn/Input/Framing.antt =====
-- The messages do not depend on the pieces in which their bytes arrive.
use irccd.Base.{
  ℕ, zero, suc, ◌+◌, ◌≤◌, ◌≡◌, refl, sym, ap, ◌∙◌, inl, inr, Option, none, some, List, [], ◌∷◌,
  ◌++◌, append_assoc, append-nil, arith, Option-cases, length, Bytes,
}
use irccd.Conn.Message.{Msg}
use irccd.Conn.Input.{split_crlf, fill, Pumped, push_first, pump, produce, produce_all}

-- Both sides of the split, and the length, by induction over the scan.
split_crlf-append :
    (s t : Bytes) (line rest : Bytes)
    → split_crlf s ≡ some (line, rest)
    → split_crlf (s ++ t) ≡ some (line, rest ++ t)
unfolding split_crlf
split_crlf-append [] t line rest h = cc
split_crlf-append (c ∷ []) t line rest h = cc
split_crlf-append (c ∷ d ∷ s) t line rest h = elim (Option-cases (split_crlf (d ∷ s))) [
  | inl e ↦ ground (arith, e)
  | inr ((l, r), e) ↦ ground (arith, e, split_crlf-append (d ∷ s) t l r e)
]

split_crlf-length :
    (s : Bytes) (line rest : Bytes)
    → split_crlf s ≡ some (line, rest)
    → length line + length rest + 2 ≡ length s
unfolding split_crlf
split_crlf-length [] line rest h = cc
split_crlf-length (c ∷ []) line rest h = cc
split_crlf-length (c ∷ d ∷ s) line rest h = elim (Option-cases (split_crlf (d ∷ s))) [
  | inl e ↦ ground (arith, e)
  | inr ((l, r), e) ↦ ground (arith, e, split_crlf-length (d ∷ s) l r e)
]

-- One round of the producer, with its two cases.
pump-none :
    (fuel : ℕ) (b : Bytes) (m : Option Msg)
    → split_crlf b ≡ none
    → pump (suc fuel) b m ≡ record { pushed = []; buffer = b; msg = m }
unfolding pump
pump-none fuel b m h = rw (h, pump)

pump-some :
    (fuel : ℕ) (b : Bytes) (m : Option Msg) (line rest : Bytes)
    → split_crlf b ≡ some (line, rest)
    → pump (suc fuel) b m ≡ push_first (fill line m) (pump fuel rest (fill line m))
unfolding pump
pump-some fuel b m line rest h = rw (h, pump)

-- A fuel that covers the buffer is as good as any other.
pump-fuel :
    (f g : ℕ) (b : Bytes) (m : Option Msg) → length b ≤ f → length b ≤ g → pump f b m ≡ pump g b m
pump-fuel zero zero b m p q = refl
pump-fuel zero (suc g) [] m p q = unfold pump in refl
pump-fuel zero (suc g) (c ∷ b) m p q = absurd (omega arith)
pump-fuel (suc f) zero [] m p q = unfold pump in refl
pump-fuel (suc f) zero (c ∷ b) m p q = absurd (omega arith)
pump-fuel (suc f) (suc g) b m p q = elim (Option-cases (split_crlf b)) [
  | inl e ↦ rw (pump-none f b m e, pump-none g b m e)
  | inr ((line, rest), e) ↦
      let l = split_crlf-length b line rest e in
      rw (pump-some f b m line rest e, pump-some g b m line rest e)
        (ap (push_first (fill line m))
          (pump-fuel f g rest (fill line m) (omega arith) (omega arith)))
]

-- The producer goes on where it stopped.
abbrev go_on : Pumped → Bytes → Pumped
go_on p t =
    let later = produce (p.buffer ++ t) p.msg in record later { pushed = p.pushed ++ later.pushed }

produce-pump : (f : ℕ) (b : Bytes) (m : Option Msg) → length b ≤ f → produce b m ≡ pump f b m
unfolding produce
produce-pump f b m h = pump-fuel (length b) f b m (omega arith) h

pub produce-some :
    (b : Bytes) (m : Option Msg) (line rest : Bytes)
    → split_crlf b ≡ some (line, rest)
    → produce b m ≡ push_first (fill line m) (produce rest (fill line m))
produce-some b m line rest h =
    let l = split_crlf-length b line rest h in
    rw (produce-pump (suc (length b)) b m (omega arith), pump-some (length b) b m line rest h)
      (ap (push_first (fill line m))
        (sym (produce-pump (length b) rest (fill line m) (omega arith))))

produce-append_fuel :
    (f : ℕ) (b t : Bytes) (m : Option Msg)
    → length b ≤ f
    → produce (b ++ t) m ≡ go_on (pump f b m) t
produce-append_fuel zero [] t m h = unfold pump in refl
produce-append_fuel zero (c ∷ b) t m h = absurd (omega arith)
produce-append_fuel (suc f) b t m h = elim (Option-cases (split_crlf b)) [
  | inl e ↦ rw (pump-none f b m e)
  | inr ((line, rest), e) ↦
      let l = split_crlf-length b line rest e in
      let first = produce-some (b ++ t) m line (rest ++ t) (split_crlf-append b t line rest e) in
      rw (pump-some f b m line rest e) (
        first
        ∙ ap (push_first (fill line m)) (produce-append_fuel f rest t (fill line m) (omega arith)))
]

produce-append : (b t : Bytes) (m : Option Msg) → produce (b ++ t) m ≡ go_on (produce b m) t
produce-append b t m =
    rw (produce-pump (length b) b m (omega arith))
      (produce-append_fuel (length b) b t m (omega arith))

abbrev pub concat : List Bytes → Bytes
concat [] = []
concat (b ∷ bs) = b ++ concat bs

pub produce-idle :
    (b : Bytes) (m : Option Msg)
    → split_crlf b ≡ none
    → produce b m ≡ record { pushed = []; buffer = b; msg = m }
produce-idle b m h =
    rw (produce-pump (suc (length b)) b m (omega arith)) (pump-none (length b) b m h)

pump-idle :
    (f : ℕ) (b : Bytes) (m : Option Msg) → length b ≤ f → split_crlf (pump f b m).buffer ≡ none
pump-idle zero [] m h = unfold pump split_crlf in refl
pump-idle zero (c ∷ b) m h = absurd (omega arith)
pump-idle (suc f) b m h = elim (Option-cases (split_crlf b)) [
  | inl e ↦ rw (pump-none f b m e) e
  | inr ((line, rest), e) ↦
      let l = split_crlf-length b line rest e in
      rw (pump-some f b m line rest e) (pump-idle f rest (fill line m) (omega arith))
]

pump-shorter : (f : ℕ) (b : Bytes) (m : Option Msg) → length (pump f b m).buffer ≤ length b
pump-shorter zero b m = unfold pump in omega arith
pump-shorter (suc f) b m = elim (Option-cases (split_crlf b)) [
  | inl e ↦ rw (pump-none f b m e) (omega arith)
  | inr ((line, rest), e) ↦
      let l = split_crlf-length b line rest e in
      rw (pump-some f b m line rest e) (omega (arith, pump-shorter f rest (fill line m)))
]

pub produce-shorter : (b : Bytes) (m : Option Msg) → length (produce b m).buffer ≤ length b
produce-shorter b m = rw (produce-pump (length b) b m (omega arith)) (pump-shorter (length b) b m)

-- Between two rounds the buffer holds no complete line, so none is left unread.
pub produce-idle_after : (b : Bytes) (m : Option Msg) → split_crlf (produce b m).buffer ≡ none
produce-idle_after b m =
    rw (produce-pump (length b) b m (omega arith)) (pump-idle (length b) b m (omega arith))

-- However the bytes are cut into pieces, the messages pushed, the bytes left and the last message
-- are those of the whole, when the buffer holds no complete line before.
pub produce_all-concat :
    (pieces : List Bytes) (b : Bytes) (m : Option Msg)
    → split_crlf b ≡ none
    → produce_all b m pieces ≡ produce (b ++ concat pieces) m
unfolding produce_all
produce_all-concat [] b m h = rw append-nil (sym (produce-idle b m h))
produce_all-concat (d ∷ pieces) b m h =
    let now = produce (b ++ d) m in
    let ih = produce_all-concat pieces now.buffer now.msg (produce-idle_after (b ++ d) m) in
    ap (λ (later : Pumped). record later { pushed = now.pushed ++ later.pushed }) ih
    ∙ sym (produce-append (b ++ d) (concat pieces) m)
    ∙ ap (λ (s : Bytes). produce s m) (append_assoc b d (concat pieces))
