-- ===== src/Subst/Fuel.antt =====
-- The fuel that `irc_subst` gives its loop, the length of its input, is enough.
use irccd.Base.{
  ℕ, zero, suc, ◌≤◌, ◌<◌, ◌≡◌, refl, ap, inl, inr, not, Option, none, some, [], ◌∷◌, arith, leb,
  ◌==◌, if◌then◌else◌, Bool-cases, Option-cases, length, Bytes, Result, ok, err,
}
use irccd.Util.{strchr}
use irccd.Subst.Attributes.{Buf, ccat, bind}
use irccd.Subst.{Subst, is_reserved, replace, substitute, loop}

-- What a construct leaves of the input is no longer than it.
before-shorter :
    (i : Bytes) (c : ℕ) (before after : Bytes)
    → strchr i c ≡ some (before, after)
    → length after < length i
unfolding strchr
before-shorter [] c before after h = absurd (ground (arith, h))
before-shorter (d ∷ i) c before after h = elim (Bool-cases (d == c)) [
  | inl e ↦ ground (arith, e, h)
  | inr e ↦ elim (Option-cases (strchr i c)) [
    | inl m ↦ absurd (ground (arith, e, m, h))
    | inr ((x, y), m) ↦ let shorter = before-shorter i c x y m in ground (arith, e, m, h, shorter)
  ]
]

-- Two continuations that agree on what is at most as long.
abbrev Agree :
    ℕ → (Bytes → Buf → Option (Result Buf)) → (Bytes → Buf → Option (Result Buf)) → Type 0
Agree n f g = (i : Bytes) (b : Buf) → length i ≤ n → f i b ≡ g i b

-- The end of `substitute`.
abbrev pub behind : Bytes → Option (Result Buf) → Option (Result (Bytes × Buf))
behind rest o = bind o (λ filled. some (ok (rest, filled)))

bind-agree :
    (o : Option (Result Buf)) (rest : Bytes) (f g : Bytes → Buf → Option (Result Buf))
    → ((b : Buf) → f rest b ≡ g rest b)
    → bind (behind rest o) (λ r. f r.0 r.1) ≡ bind (behind rest o) (λ r. g r.0 r.1)
bind-agree none rest f g h = refl
bind-agree (some (err e)) rest f g h = refl
bind-agree (some (ok b)) rest f g h = h b

substitute-Agree :
    (s : Subst) (token : ℕ) (i : Bytes) (b : Buf) (n : ℕ) (f g : Bytes → Buf → Option (Result Buf))
    → length i ≤ n
    → Agree n f g
    → bind (substitute s token i b) (λ r. f r.0 r.1)
      ≡ bind (substitute s token i b) (λ r. g r.0 r.1)
unfolding substitute
substitute-Agree s token [] b n f g l h = h [] b l
substitute-Agree s token (c ∷ i) b n f g l h = elim (Option-cases (strchr (c ∷ i) b'}')) [
  | inl m ↦ rw (substitute, m)
  | inr ((key, rest), m) ↦ elim (Bool-cases (leb 64 (length key))) [
    | inl e ↦ rw (substitute, m, e)
    | inr e ↦
        let shorter = before-shorter (c ∷ i) b'}' key rest m in
        let same = λ (x : Buf). h rest x (omega (arith, shorter, l)) in
        rw (substitute, m, e) (bind-agree (replace s token key b) rest f g same)
  ]
]

step-agree :
    (r : Result Buf) (f g : Buf → Option (Result Buf))
    → ((b : Buf) → f b ≡ g b)
    → bind (some r) f ≡ bind (some r) g
step-agree (err e) f g h = refl
step-agree (ok b) f g h = h b

tuple {ℓ} :
    {A : Type ℓ} {a b c d e f : A} → a ≡ b → c ≡ d → e ≡ f → Path (A × A × A) (a, c, e) (b, d, f)
tuple p q r = rw (p, q, r)

-- With fuel for each byte of the input, one more does not change what the loop gives: it does not
-- run out.
pub loop-fuel :
    (fuel : ℕ) (s : Subst) (i : Bytes) (b : Buf)
    → length i ≤ fuel
    → loop (suc fuel) s i b ≡ loop fuel s i b
unfolding loop
loop-fuel zero s [] b h = refl
loop-fuel (suc fuel) s [] b h = refl
loop-fuel zero s (c ∷ i) b h = absurd (omega (arith, h))
loop-fuel (suc fuel) s (c ∷ []) b h =
    let copied =
      step-agree (ccat b c) (loop (suc fuel) s []) (loop fuel s [])
        (λ x. loop-fuel fuel s [] x (omega arith)) in
    ap (λ x. if b.room == 0 then some (ok b) else x) copied
loop-fuel (suc fuel) s (c ∷ d ∷ i) b h =
    let copied =
      step-agree (ccat b c) (loop (suc fuel) s (d ∷ i)) (loop fuel s (d ∷ i))
        (λ x. loop-fuel fuel s (d ∷ i) x (omega (arith, h))) in
    let escaped =
      step-agree (ccat b c) (loop (suc fuel) s i) (loop fuel s i)
        (λ x. loop-fuel fuel s i x (omega (arith, h))) in
    let constructed =
      substitute-Agree s c i b (length i) (loop (suc fuel) s) (loop fuel s) (omega arith)
        (λ j x l. loop-fuel fuel s j x (omega (arith, h, l))) in
    ap
      (λ (t : Option (Result Buf) × Option (Result Buf) × Option (Result Buf)).
        if b.room == 0
        then some (ok b)
        else if not (is_reserved c)
        then t.0
        else if d == b'{'
        then t.1
        else if d == c
        then t.2
        else t.0)
      (tuple copied constructed escaped)
