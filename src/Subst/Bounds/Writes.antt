-- ===== src/Subst/Bounds/Writes.antt =====
-- Each write takes its bytes from the room that is left, in the codes of the attributes too.
use irccd.Base.{
  ℕ, ◌+◌, ◌<◌, ◌≡◌, inl, inr, Bool, true, false, ◌||◌, Option, none, some, List, [], ◌∷◌, arith,
  leb, ◌==◌, if◌then◌else◌, Bool-cases, length, length-append, Bytes, Result, ok, err, ◌>>=◌,
}
use irccd.Subst.Attributes.{
  Buf, Attributes, scat, ccat, find, scat_pair, irc_loop, irc_codes, irc_attrs, irc_colors,
  shell_loop, shell_codes, shell_attrs, shell_colors, is_set, first_set, Pairs,
}

-- What is written and what is left are the whole output.
abbrev pub Fits : ℕ → Buf → Type 0
Fits n b = length b.text + b.room ≡ n

abbrev pub FitsIf : ℕ → Result Buf → Type 0
FitsIf n (err e) = Unit
FitsIf n (ok b) = Fits n b

abbrev pub FitsAfter : ℕ → Option (Result Buf) → Type 0
FitsAfter n none = Unit
FitsAfter n (some r) = FitsIf n r

pub bind-FitsIf :
    (n : ℕ) (r : Result Buf) (f : Buf → Result Buf)
    → FitsIf n r
    → ((b : Buf) → Fits n b → FitsIf n (f b))
    → FitsIf n (r >>= f)
bind-FitsIf n (err e) f h k = tt
bind-FitsIf n (ok b) f h k = k b h

pub if-FitsIf :
    (n : ℕ) (c : Bool) (r t : Result Buf) → FitsIf n r → FitsIf n t → FitsIf n (if c then r else t)
if-FitsIf n true r t h k = h
if-FitsIf n false r t h k = k

pub if-FitsAfter :
    (n : ℕ) (c : Bool) (r t : Option (Result Buf))
    → FitsAfter n r
    → FitsAfter n t
    → FitsAfter n (if c then r else t)
if-FitsAfter n true r t h k = h
if-FitsAfter n false r t h k = k

pub scat-FitsIf : (n : ℕ) (b : Buf) (value : Bytes) → Fits n b → FitsIf n (scat b value)
unfolding scat
scat-FitsIf n b value h = elim (Bool-cases (leb b.room (length value))) [
  | inl e ↦ rw e tt
  | inr e ↦
      let big : length value < b.room = ground (arith, e) in
      rw e (omega (arith, h, big, length-append b.text value))
]

pub ccat-FitsIf : (n : ℕ) (b : Buf) (c : ℕ) → Fits n b → FitsIf n (ccat b c)
unfolding ccat
ccat-FitsIf n b c h = elim (Bool-cases (b.room == 0)) [
  | inl e ↦ rw e tt
  | inr e ↦
      let big : 0 < b.room = ground (arith, e) in
      rw e (omega (arith, h, big, length-append b.text (c ∷ [])))
]

pub scat_pair-FitsIf :
    (n : ℕ) (pairs : Pairs) (key : Bytes) (b : Buf) → Fits n b → FitsIf n (scat_pair pairs key b)
unfolding scat_pair
scat_pair-FitsIf n pairs key b h = go (find pairs key)
  where
    go :
        (o : Option Bytes)
        → FitsIf n (elim o as (λ _. Result Buf) [ none ↦ ok b | some value ↦ scat b value ])
    go none = h
    go (some value) = scat-FitsIf n b value h

pub irc_loop-FitsIf :
    (n : ℕ) (attrs : List Bytes) (b : Buf) → Fits n b → FitsIf n (irc_loop attrs b)
unfolding irc_loop
irc_loop-FitsIf n [] b h = h
irc_loop-FitsIf n (a ∷ attrs) b h =
    bind-FitsIf n _ _ (scat_pair-FitsIf n irc_attrs a b h) (irc_loop-FitsIf n attrs)

pub irc_codes-FitsIf : (n : ℕ) (a : Attributes) (b : Buf) → Fits n b → FitsIf n (irc_codes a b)
unfolding irc_codes
irc_codes-FitsIf n a b h =
    if-FitsIf n (is_set a.fg || first_set a.attrs) _ (ok b)
      (bind-FitsIf n _ _ (ccat-FitsIf n b 3 h) (λ t ht.
        bind-FitsIf n _ _ (scat_pair-FitsIf n irc_colors a.fg t ht) (λ u hu.
          bind-FitsIf n _ _
            (if-FitsIf n (is_set a.bg) _ (ok u)
              (bind-FitsIf n _ _ (ccat-FitsIf n u b',' hu) (scat_pair-FitsIf n irc_colors a.bg)) hu)
            (irc_loop-FitsIf n a.attrs))))
      h

pub shell_loop-FitsIf :
    (n : ℕ) (attrs : List Bytes) (b : Buf) → Fits n b → FitsIf n (shell_loop attrs b)
unfolding shell_loop
shell_loop-FitsIf n [] b h = h
shell_loop-FitsIf n (a ∷ attrs) b h =
    bind-FitsIf n _ _ (scat_pair-FitsIf n shell_attrs a b h)
      (λ t ht. bind-FitsIf n _ _ (ccat-FitsIf n t b';' ht) (shell_loop-FitsIf n attrs))

pub shell_codes-FitsIf : (n : ℕ) (a : Attributes) (b : Buf) → Fits n b → FitsIf n (shell_codes a b)
unfolding shell_codes
shell_codes-FitsIf n a b h = bind-FitsIf n _ _ (scat-FitsIf n b (27 ∷ b'[' ∷ []) h) (λ t ht.
    bind-FitsIf n _ _ (shell_loop-FitsIf n a.attrs t ht) (λ u hu.
      bind-FitsIf n _ _
        (if-FitsIf n (is_set a.fg) _ (ok u)
          (bind-FitsIf n _ _ (scat_pair-FitsIf n (shell_colors b'3') a.fg u hu)
            (λ x hx. if-FitsIf n (is_set a.bg) _ (ok x) (ccat-FitsIf n x b';' hx) hx))
          hu)
        (λ v hv.
          bind-FitsIf n _ _
            (if-FitsIf n (is_set a.bg) _ (ok v) (scat_pair-FitsIf n (shell_colors b'4') a.bg v hv)
              hv)
            (λ w hw. ccat-FitsIf n w b'm' hw))))
