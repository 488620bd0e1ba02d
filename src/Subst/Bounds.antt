-- ===== src/Subst/Bounds.antt =====
-- What is written stays within the output.
pub mod Writes
use irccd.Base.{
  ℕ, zero, suc, ◌+◌, ◌-◌, ◌≤◌, ◌<◌, ◌≡◌, inl, inr, not, Option, none, some, [], ◌∷◌, ◌++◌, arith,
  ltb, leb, ◌==◌, Bool-cases, Option-cases, length, take, length-append, length-take, Bytes,
  has_flag, Result, ok, err,
}
use irccd.Util.{strchr}
use irccd.Subst.Attributes.{
  Buf, Attributes, scat, ccat, bind, find, scat_pair, irc_loop, irc_codes, irc_attrs, irc_colors,
  subst_irc_attrs, shell_loop, shell_codes, shell_attrs, shell_colors, subst_shell_attrs,
  attributes_parse, is_set, first_set, Pairs,
}
use irccd.Subst.{
  Subst, is_reserved, scat_found, keyword_loop, subst_keyword, subst_env, subst_shell, first_line,
  subst_default, flag_irc_attrs, flag_shell_attrs, flag_keywords, flag_env, flag_shell, replace,
  substitute, loop, finish, dated, irc_subst,
}
use irccd.Subst.Bounds.Writes.{
  Fits, FitsAfter, FitsIf, bind-FitsIf, ccat-FitsIf, if-FitsAfter, if-FitsIf, irc_codes-FitsIf,
  irc_loop-FitsIf, scat-FitsIf, scat_pair-FitsIf, shell_codes-FitsIf, shell_loop-FitsIf,
}

attrs-FitsAfter :
    (n : ℕ) (o : Option Attributes) (f : Attributes → Result Buf)
    → ((a : Attributes) → FitsIf n (f a))
    → FitsAfter n (elim o as (λ _. Option (Result Buf)) [ none ↦ none | some a ↦ some (f a) ])
attrs-FitsAfter n none f h = tt
attrs-FitsAfter n (some a) f h = h a

irc-FitsAfter : (n : ℕ) (key : Bytes) (b : Buf) → Fits n b → FitsAfter n (subst_irc_attrs key b)
unfolding subst_irc_attrs
irc-FitsAfter n [] b h = ccat-FitsIf n b 3 h
irc-FitsAfter n (c ∷ key) b h =
    attrs-FitsAfter n (attributes_parse (c ∷ key)) (λ a. irc_codes a b)
      (λ a. irc_codes-FitsIf n a b h)

shell-FitsAfter : (n : ℕ) (key : Bytes) (b : Buf) → Fits n b → FitsAfter n (subst_shell_attrs key b)
unfolding subst_shell_attrs
shell-FitsAfter n [] b h = scat-FitsIf n b (27 ∷ b'[' ∷ b'0' ∷ b'm' ∷ []) h
shell-FitsAfter n (c ∷ key) b h =
    attrs-FitsAfter n (attributes_parse (c ∷ key)) (λ a. shell_codes a b)
      (λ a. shell_codes-FitsIf n a b h)

found-FitsAfter : (n : ℕ) (b : Buf) (o : Option Bytes) → Fits n b → FitsAfter n (scat_found b o)
found-FitsAfter n b none h = h
found-FitsAfter n b (some value) h = scat-FitsIf n b value h

-- What is before a byte is no longer than the text.
before-length :
    (s : Bytes) (c : ℕ) (before after : Bytes)
    → strchr s c ≡ some (before, after)
    → length before + suc (length after) ≡ length s
unfolding strchr
before-length [] c before after h = absurd (ground (arith, h))
before-length (d ∷ s) c before after h = elim (Bool-cases (d == c)) [
  | inl e ↦ ground (arith, e, h)
  | inr e ↦ elim (Option-cases (strchr s c)) [
    | inl m ↦ absurd (ground (arith, e, m, h))
    | inr ((x, y), m) ↦ let shorter = before-length s c x y m in ground (arith, e, m, h, shorter)
  ]
]

first_line-length : (s : Bytes) → length (first_line s) ≤ length s
unfolding first_line
first_line-length s = elim (Option-cases (strchr s 13)) [
  | inr ((x, y), m) ↦ rw (first_line, m) (omega (arith, before-length s 13 x y m))
  | inl m ↦ elim (Option-cases (strchr s 10)) [
    | inr ((x, y), k) ↦ rw (first_line, m, k) (omega (arith, before-length s 10 x y k))
    | inl k ↦ rw (first_line, m, k) (omega arith)
  ]
]

output-Fits : (n : ℕ) (s : Subst) (key : Bytes) (b : Buf) → Fits n b → Fits n (subst_shell s key b)
unfolding subst_shell
output-Fits n s key b h = go (s.popen key)
  where
    go :
        (o : Option Bytes)
        → Fits n (elim o as (λ _. Buf) [
          | none ↦ b
          | some output ↦
              let line = first_line (take (b.room - 1) output) in
              record { text = b.text ++ line; room = b.room - length line }
        ])
    go none = h
    go (some output) =
        let line = first_line (take (b.room - 1) output) in
        omega (
          arith,
          h,
          length-append b.text line,
          first_line-length (take (b.room - 1) output),
          length-take (b.room - 1) output,
        )

default-FitsIf :
    (n token : ℕ) (key : Bytes) (b : Buf) → Fits n b → FitsIf n (subst_default token key b)
unfolding subst_default
default-FitsIf n token key b h = bind-FitsIf n _ _ (ccat-FitsIf n b token h) (λ t ht.
    bind-FitsIf n _ _ (ccat-FitsIf n t b'{' ht)
      (λ u hu. bind-FitsIf n _ _ (scat-FitsIf n u key hu) (λ v hv. ccat-FitsIf n v b'}' hv)))

replace-FitsAfter :
    (n : ℕ) (s : Subst) (token : ℕ) (key : Bytes) (b : Buf)
    → Fits n b
    → FitsAfter n (replace s token key b)
unfolding replace subst_keyword subst_env
replace-FitsAfter n s token key b h =
    let verbatim = default-FitsIf n token key b h in
    if-FitsAfter n (token == b'@') _ _
      (if-FitsAfter n (has_flag s.flags flag_irc_attrs) _ _ (irc-FitsAfter n key b h) (
        if-FitsAfter n (has_flag s.flags flag_shell_attrs) _ (some (subst_default token key b))
          (shell-FitsAfter n key b h) verbatim))
      (if-FitsAfter n (token == b'#') _ _
        (if-FitsAfter n (has_flag s.flags flag_keywords) _ (some (subst_default token key b))
          (found-FitsAfter n b (keyword_loop s.keywords key) h) verbatim)
        (if-FitsAfter n (token == b'$') _ _
          (if-FitsAfter n (has_flag s.flags flag_env) _ (some (subst_default token key b))
            (found-FitsAfter n b (s.getenv key) h) verbatim)
          (if-FitsAfter n (has_flag s.flags flag_shell) (some (ok (subst_shell s key b)))
            (some (subst_default token key b)) (output-Fits n s key b h) verbatim)))

abbrev FitsRest : ℕ → Option (Result (Bytes × Buf)) → Type 0
FitsRest n none = Unit
FitsRest n (some (err e)) = Unit
FitsRest n (some (ok r)) = Fits n r.1

rest-FitsRest :
    (n : ℕ) (rest : Bytes) (o : Option (Result Buf))
    → FitsAfter n o
    → FitsRest n (bind o (λ filled. some (ok (rest, filled))))
rest-FitsRest n rest none h = tt
rest-FitsRest n rest (some (err e)) h = tt
rest-FitsRest n rest (some (ok b)) h = h

substitute-FitsRest :
    (n : ℕ) (s : Subst) (token : ℕ) (i : Bytes) (b : Buf)
    → Fits n b
    → FitsRest n (substitute s token i b)
unfolding substitute
substitute-FitsRest n s token [] b h = h
substitute-FitsRest n s token (c ∷ i) b h = elim (Option-cases (strchr (c ∷ i) b'}')) [
  | inl m ↦ rw (substitute, m) tt
  | inr ((key, rest), m) ↦ elim (Bool-cases (leb 64 (length key))) [
    | inl e ↦ rw (substitute, m, e) tt
    | inr e ↦
        rw (substitute, m, e)
          (rest-FitsRest n rest (replace s token key b) (replace-FitsAfter n s token key b h))
  ]
]

step-FitsAfter :
    (n : ℕ) (r : Result Buf) (f : Buf → Option (Result Buf))
    → FitsIf n r
    → ((b : Buf) → Fits n b → FitsAfter n (f b))
    → FitsAfter n (bind (some r) f)
step-FitsAfter n (err e) f h k = tt
step-FitsAfter n (ok b) f h k = k b h

rest-FitsAfter :
    (n : ℕ) (o : Option (Result (Bytes × Buf))) (f : Bytes × Buf → Option (Result Buf))
    → FitsRest n o
    → ((r : Bytes × Buf) → Fits n r.1 → FitsAfter n (f r))
    → FitsAfter n (bind o f)
rest-FitsAfter n none f h k = tt
rest-FitsAfter n (some (err e)) f h k = tt
rest-FitsAfter n (some (ok r)) f h k = k r h

loop-FitsAfter :
    (n fuel : ℕ) (s : Subst) (i : Bytes) (b : Buf) → Fits n b → FitsAfter n (loop fuel s i b)
unfolding loop
loop-FitsAfter n zero s [] b h = h
loop-FitsAfter n (suc fuel) s [] b h = h
loop-FitsAfter n zero s (c ∷ i) b h = h
loop-FitsAfter n (suc fuel) s (c ∷ []) b h =
    if-FitsAfter n (b.room == 0) (some (ok b)) _ h
      (step-FitsAfter n (ccat b c) _ (ccat-FitsIf n b c h) (loop-FitsAfter n fuel s []))
loop-FitsAfter n (suc fuel) s (c ∷ d ∷ i) b h =
    let put = ccat-FitsIf n b c h in
    let copied =
      step-FitsAfter n (ccat b c) (loop fuel s (d ∷ i)) put (loop-FitsAfter n fuel s (d ∷ i)) in
    let escaped = step-FitsAfter n (ccat b c) (loop fuel s i) put (loop-FitsAfter n fuel s i) in
    let constructed =
      rest-FitsAfter n (substitute s c i b) (λ r. loop fuel s r.0 r.1)
        (substitute-FitsRest n s c i b h) (λ r hr. loop-FitsAfter n fuel s r.0 r.1 hr) in
    if-FitsAfter n (b.room == 0) (some (ok b)) _ h (
      if-FitsAfter n (not (is_reserved c)) _ _ copied
        (if-FitsAfter n (d == b'{') _ _ constructed (if-FitsAfter n (d == c) _ _ escaped copied)))

-- The text, if there is one, has fewer than `n` bytes.
abbrev pub IsBelow : ℕ → Option (Result Bytes) → Type 0
IsBelow n none = Unit
IsBelow n (some (err e)) = Unit
IsBelow n (some (ok out)) = length out < n

finish-IsBelow :
    (n : ℕ) (o : Option (Result Buf)) → FitsAfter n o → IsBelow n (bind o (λ b. some (finish b)))
unfolding finish
finish-IsBelow n none h = tt
finish-IsBelow n (some (err e)) h = tt
finish-IsBelow n (some (ok b)) h = elim (Bool-cases (ltb b.room 1)) [
  | inl e ↦ rw e tt
  | inr e ↦ rw e (ground (arith, e, h))
]

-- Whatever the template, the keywords, the environment, the commands and the date, a substitution
-- that succeeds into a nonempty output has a text that fits in it with its end.
pub irc_subst-IsBelow : (s : Subst) (n : ℕ) (i : Bytes) → 0 < n → IsBelow n (irc_subst s n i)
unfolding irc_subst
irc_subst-IsBelow s zero i h = absurd (omega (arith, h))
irc_subst-IsBelow s (suc n) i h = go (dated s (suc n) i)
  where
    go :
        (r : Result Bytes)
        → IsBelow (suc n) (
            bind (some r) (λ text.
              bind
                (loop (length text) s text (record { text = []; room = suc n }))
                (λ b. some (finish b))))
    go (err e) = tt
    go (ok text) =
        finish-IsBelow (suc n) (loop (length text) s text (record { text = []; room = suc n })) (
          loop-FitsAfter (suc n) (length text) s text (record { text = []; room = suc n })
            (omega arith))
