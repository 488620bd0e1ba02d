-- ===== src/Conn/Output/Fifo.antt =====
-- The output buffer is a bounded queue of bytes between the pushes and the wire.
use irccd.Base.{
  ℕ, zero, suc, ◌+◌, ◌-◌, ◌≤◌, ◌<◌, ◌≡◌, refl, sym, ap, ◌∙◌, ◌↔◌, Bool, true, List, [], ◌∷◌, ◌++◌,
  append_assoc, arith, length, take, drop, length-append, take-append-drop, length-drop, Bytes,
  Errno, ok, err,
}
use irccd.Conn.Output.{out_size, message_len, terminator, push, send, send_va}

-- The buffer, the bytes that the transport took so far, and the messages that were accepted.
pub record Channel : Type 0 where
  pub out : Bytes
  pub wire : Bytes
  pub accepted : List Bytes

abbrev pub stream : List Bytes → Bytes
stream [] = []
stream (text ∷ rest) = text ++ (terminator ++ stream rest)

-- A push that is accepted, one that is refused, and a write of which the transport takes `n` bytes.
pub data Step : Channel → Channel → Type 0 where
  pushed :
      (c : Channel) (text out : Bytes)
      → push c.out text ≡ ok out
      → Step c (record c { out = out; accepted = c.accepted ++ text ∷ [] })
  refused : (c : Channel) (text : Bytes) (e : Errno) → push c.out text ≡ err e → Step c c
  written :
      (c : Channel) (n : ℕ)
      → n ≤ length c.out
      → Step c (record c { out = send c.out n; wire = c.wire ++ take n c.out })

pub data Reach (c : Channel) : Channel → Type 0 where
  here : Reach c c
  next : {d e : Channel} → Reach c d → Step d e → Reach c e

abbrev pub opened : Channel
opened = record { out = []; wire = []; accepted = [] }

-- Nothing is lost, doubled or reordered, and the buffer is never full.
pub record IsFifo (c : Channel) : Type 0 where
  pub order : c.wire ++ c.out ≡ stream c.accepted
  pub bounded : length c.out < out_size

drop-all : (n : ℕ) (out : Bytes) → length out ≤ n → drop n out ≡ []
drop-all zero [] h = refl
drop-all zero (x ∷ out) h = absurd (omega arith)
drop-all (suc n) [] h = refl
drop-all (suc n) (x ∷ out) h = drop-all n out (omega arith)

send-drop : (out : Bytes) (n : ℕ) → send out n ≡ drop n out
unfolding send
send-drop out zero = refl
send-drop out (suc n) = ground (arith, drop-all (suc n) out)

stream-append :
    (xs : List Bytes) (text : Bytes) → stream (xs ++ text ∷ []) ≡ stream xs ++ (text ++ terminator)
stream-append [] text = refl
stream-append (x ∷ xs) text =
    ap (λ (s : Bytes). x ++ (terminator ++ s)) (stream-append xs text)
    ∙ sym (append_assoc x (terminator ++ stream xs) (text ++ terminator))

push-ok :
    (out text : Bytes) {out' : Bytes}
    → push out text ≡ ok out'
    → (out' ≡ out ++ (text ++ terminator)) × (length text + 2 < out_size - length out)
unfolding push
push-ok out text h = ground arith

Step-IsFifo : {c d : Channel} → Step c d → IsFifo c → IsFifo d
Step-IsFifo (pushed c text out e) f =
    let (whole, room) = push-ok c.out text e in
    record {
      order =
          rw (whole, stream-append c.accepted text, ← f.order)
            (sym (append_assoc c.wire c.out (text ++ terminator)));
      bounded =
          rw whole (
            omega (arith, length-append c.out (text ++ terminator), length-append text terminator));
    }
Step-IsFifo (refused c text e p) f = f
Step-IsFifo (written c n l) f = record {
  order =
      rw (send-drop c.out n, append_assoc c.wire (take n c.out) (drop n c.out))
        (rw (take-append-drop n c.out) f.order);
  bounded = rw (send-drop c.out n) (omega (arith, length-drop n c.out, f.bounded));
}

-- With an output buffer that is not full, a message is accepted exactly when the connection is
-- ready and its first 511 bytes and the line end leave at least one byte of the buffer free.
pub send_va_iff :
    (ready : Bool) (out text : Bytes)
    → length out < out_size
    → ((out' : Bytes) × (send_va ready out text ≡ ok out'))
      ↔ ((ready ≡ true) × (length out + length (take (message_len - 1) text) + 2 < out_size))
unfolding send_va push
send_va_iff ready out text b = (
  (λ h. ground (arith, h.1)),
  (λ h. (out ++ (take (message_len - 1) text ++ terminator), ground arith)),
)

-- From an empty buffer, whatever is pushed and however the transport takes it, the bytes on the
-- wire and those still in the buffer are together the accepted messages in their order, each with
-- its line end, and the buffer never reaches its size.
pub Reach-IsFifo : {c : Channel} → Reach opened c → IsFifo c
Reach-IsFifo here = record { order = refl; bounded = omega arith }
Reach-IsFifo (next r s) = Step-IsFifo s (Reach-IsFifo r)
