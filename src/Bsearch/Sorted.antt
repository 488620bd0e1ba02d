-- ===== src/Bsearch/Sorted.antt =====
-- The search of a table that is sorted by its names finds the first row of a name.
use irccd.Base.{
  ℕ, zero, suc, ◌/◌, ◌≤◌, ◌≡◌, refl, sym, ap, ◌∙◌, subst, ◌⊎◌, inl, inr, Bool, true, false, ◌&&◌,
  Option, none, some, List, [], ◌∷◌, ◌++◌, arith, if◌then◌else◌, Bool-cases, length, take, drop,
  take-append-drop, length-take, length-drop, Bytes, str_eq, str_eq_iff,
}
use irccd.Bsearch.{str_lt, bsearch}

str_lt_trans : (a b c : Bytes) → str_lt a b ≡ true → str_lt b c ≡ true → str_lt a c ≡ true
unfolding str_lt
str_lt_trans a b [] h k = cc
str_lt_trans a [] (z ∷ c) h k = cc
str_lt_trans [] (y ∷ b) (z ∷ c) h k = refl
str_lt_trans (x ∷ a) (y ∷ b) (z ∷ c) h k = ground (arith, h, k, str_lt_trans a b c)

str_lt_irrefl : (a : Bytes) → str_lt a a ≡ false
unfolding str_lt
str_lt_irrefl [] = refl
str_lt_irrefl (x ∷ a) = ground (arith, str_lt_irrefl a)

-- Two names that are not equal are in one order or the other.
str_lt_total : (a b : Bytes) → str_eq a b ≡ false → str_lt a b ≡ false → str_lt b a ≡ true
unfolding str_lt str_eq
str_lt_total [] [] h k = cc
str_lt_total [] (y ∷ b) h k = cc
str_lt_total (x ∷ a) [] h k = refl
str_lt_total (x ∷ a) (y ∷ b) h k = ground (arith, h, k, str_lt_total a b)

lt-not_eq : (a b : Bytes) → str_lt a b ≡ true → str_eq a b ≡ false
lt-not_eq a b h = elim (Bool-cases (str_eq a b)) [
  | inl u ↦
      let same : a ≡ b = (str_eq_iff a b).0 u in
      let e : str_lt b b ≡ true = subst (λ (x : Bytes). str_lt x b ≡ true) same h in
      cc (e, str_lt_irrefl b)
  | inr u ↦ u
]

gt-not_eq : (a b : Bytes) → str_lt b a ≡ true → str_eq a b ≡ false
gt-not_eq a b h = elim (Bool-cases (str_eq a b)) [
  | inl u ↦
      let same : a ≡ b = (str_eq_iff a b).0 u in
      let e : str_lt b b ≡ true = subst (λ (x : Bytes). str_lt b x ≡ true) same h in
      cc (e, str_lt_irrefl b)
  | inr u ↦ u
]

and-true : (a b : Bool) → (a && b) ≡ true → (a ≡ true) × (b ≡ true)
and-true a b h = ground (arith, h)

module _ {A : Type 0} (name : A → Bytes) where
  -- The first row of the name.
  abbrev pub lookup : Bytes → List A → Option A
  lookup key [] = none
  lookup key (r ∷ t) = if str_eq key (name r) then some r else lookup key t

  abbrev pub all_behind : Bytes → List A → Bool
  all_behind key [] = true
  all_behind key (r ∷ t) = str_lt key (name r) && all_behind key t

  abbrev pub all_before : List A → Bytes → Bool
  all_before [] key = true
  all_before (r ∷ t) key = str_lt (name r) key && all_before t key

  unfoldable pub is_sorted : List A → Bool
  unfolding str_lt
  is_sorted [] = true
  is_sorted (r ∷ t) = all_behind (name r) t && is_sorted t

  lookup-behind : (key : Bytes) (t : List A) → all_behind key t ≡ true → lookup key t ≡ none
  lookup-behind key [] h = refl
  lookup-behind key (r ∷ t) h =
      let (first, rest) = and-true (str_lt key (name r)) (all_behind key t) h in
      rw (lt-not_eq key (name r) first) (lookup-behind key t rest)

  all_behind_trans :
      (a b : Bytes) (t : List A) → str_lt a b ≡ true → all_behind b t ≡ true → all_behind a t ≡ true
  all_behind_trans a b [] h k = refl
  all_behind_trans a b (r ∷ t) h k =
      let (first, rest) = and-true (str_lt b (name r)) (all_behind b t) k in
      rw (str_lt_trans a b (name r) h first) (all_behind_trans a b t h rest)

  -- Around a row of a sorted table.
  record IsSplit (l : List A) (r : A) (after : List A) : Type 0 where
    left : is_sorted l ≡ true
    before : all_before l (name r) ≡ true
    behind : all_behind (name r) after ≡ true
    right : is_sorted after ≡ true

  all_behind-middle :
      (key : Bytes) (l : List A) (r : A) (after : List A)
      → all_behind key (l ++ r ∷ after) ≡ true
      → (all_behind key l ≡ true) × (str_lt key (name r) ≡ true)
  all_behind-middle key [] r after h =
      (refl, (and-true (str_lt key (name r)) (all_behind key after) h).0)
  all_behind-middle key (x ∷ l) r after h =
      let (first, rest) = and-true (str_lt key (name x)) (all_behind key (l ++ r ∷ after)) h in
      let (within, mid) = all_behind-middle key l r after rest in (rw (first, within), mid)

  is_sorted-IsSplit :
      (l : List A) (r : A) (after : List A) → is_sorted (l ++ r ∷ after) ≡ true → IsSplit l r after
  unfolding is_sorted
  is_sorted-IsSplit [] r after h =
      let (first, rest) = and-true (all_behind (name r) after) (is_sorted after) h in
      record { left = refl; before = refl; behind = first; right = rest }
  is_sorted-IsSplit (x ∷ l) r after h =
      let (first, rest) =
        and-true (all_behind (name x) (l ++ r ∷ after)) (is_sorted (l ++ r ∷ after)) h in
      let ih = is_sorted-IsSplit l r after rest in
      let (within, mid) = all_behind-middle (name x) l r after first in
      record {
        left = rw (within, ih.left);
        before = rw (mid, ih.before);
        behind = ih.behind;
        right = ih.right;
      }

  lookup-left :
      (key : Bytes) (l d : List A) → lookup key d ≡ none → lookup key (l ++ d) ≡ lookup key l
  lookup-left key [] d h = h
  lookup-left key (x ∷ l) d h = rw (lookup-left key l d h)

  -- No row in front of a row that is not behind the key has the key.
  lookup-right :
      (key bound : Bytes) (l d : List A)
      → all_before l bound ≡ true
      → (str_eq key bound ≡ true) ⊎ (str_lt bound key ≡ true)
      → lookup key (l ++ d) ≡ lookup key d
  lookup-right key bound [] d h k = refl
  lookup-right key bound (x ∷ l) d h k =
      let (first, rest) = and-true (str_lt (name x) bound) (all_before l bound) h in
      let less : str_lt (name x) key ≡ true = elim k [
        | inl u ↦
            subst (λ (y : Bytes). str_lt (name x) y ≡ true) (sym ((str_eq_iff key bound).0 u)) first
        | inr u ↦ str_lt_trans (name x) bound key first u
      ] in
      rw (gt-not_eq key (name x) less) (lookup-right key bound l d rest k)

  -- One round of the search, whose halves are right.
  round :
      (fuel : ℕ) (key : Bytes) (l : List A) (r : A) (after : List A)
      → IsSplit l r after
      → bsearch name fuel key l ≡ lookup key l
      → bsearch name fuel key after ≡ lookup key after
      → (if str_eq key (name r)
          then some r
          else if str_lt key (name r)
          then bsearch name fuel key l
          else bsearch name fuel key after)
        ≡ lookup key (l ++ r ∷ after)
  round fuel key l r after s left right = elim (Bool-cases (str_eq key (name r))) [
    | inl u ↦ rw (lookup-right key (name r) l (r ∷ after) s.before (inl u), u) refl
    | inr u ↦ elim (Bool-cases (str_lt key (name r))) [
      | inl v ↦
          let gone : lookup key (r ∷ after) ≡ none =
            rw u (lookup-behind key after (all_behind_trans key (name r) after v s.behind)) in
          rw (u, v, lookup-left key l (r ∷ after) gone) left
      | inr v ↦
          let more = str_lt_total key (name r) u v in
          rw (lookup-right key (name r) l (r ∷ after) s.before (inr more), u, v) right
    ]
  ]

  -- The search of a table whose halves are searched right.
  bsearch-halves :
      (fuel : ℕ) (key : Bytes) (t d : List A)
      → length t ≤ suc fuel
      → is_sorted t ≡ true
      → drop (length t / 2) t ≡ d
      → ((u : List A)
          → length u ≤ fuel
          → is_sorted u ≡ true
          → bsearch name fuel key u ≡ lookup key u)
      → bsearch name (suc fuel) key t ≡ lookup key t
  unfolding bsearch
  bsearch-halves fuel key [] d l s e ih = refl
  bsearch-halves fuel key (x ∷ t) [] l s e ih =
      absurd (omega (arith, ap length e, length-drop (length (x ∷ t) / 2) (x ∷ t)))
  bsearch-halves fuel key (x ∷ t) (r ∷ after) l s e ih =
      let half = length (x ∷ t) / 2 in
      let front = take half (x ∷ t) in
      let whole : front ++ r ∷ after ≡ x ∷ t =
        ap (λ (u : List A). front ++ u) (sym e) ∙ take-append-drop half (x ∷ t) in
      let parts =
        is_sorted-IsSplit front r after
          (subst (λ (u : List A). is_sorted u ≡ true) (sym whole) s) in
      let short : length front ≤ fuel = omega (arith, length-take half (x ∷ t), l) in
      let rest : length after ≤ fuel = omega (arith, ap length e, length-drop half (x ∷ t), l) in
      rw (bsearch, e)
        (round fuel key front r after parts (ih front short parts.left) (ih after rest parts.right)
          ∙ ap (lookup key) whole)

  -- The search of a sorted table with fuel for its length finds the first row of the name.
  pub bsearch-lookup :
      (fuel : ℕ) (key : Bytes) (t : List A)
      → length t ≤ fuel
      → is_sorted t ≡ true
      → bsearch name fuel key t ≡ lookup key t
  unfolding bsearch
  bsearch-lookup zero key [] l s = refl
  bsearch-lookup zero key (x ∷ t) l s = absurd (omega (arith, l))
  bsearch-lookup (suc fuel) key t l s =
      bsearch-halves fuel key t (drop (length t / 2) t) l s refl (bsearch-lookup fuel key)
