-- ===== src/Unicode/Classes/Rows.antt =====
-- Tables of rows that do not overlap: what the binary search finds in them.
use irccd.Base.{
  ℕ, ◌≤◌, ◌<◌, ◌≡◌, refl, inl, inr, Bool, true, false, ◌&&◌, Option, none, some, List, [], ◌∷◌,
  arith, ltb, leb, if◌then◌else◌, Bool-cases, length,
}
use irccd.Unicode.Search.{search}
use irccd.Unicode.Search.Order.{AllAbove, IsAscending, scan, search-scan}

module _ {ℓ} {A : Type ℓ} (lo hi : A → ℕ) where
  -- Each row has its first number up to its last, and ends before the next row begins.
  unfoldable pub is_ordered : List A → Bool
  is_ordered [] = true
  is_ordered (r ∷ []) = leb (lo r) (hi r)
  is_ordered (r ∷ q ∷ t) = leb (lo r) (hi r) && ltb (hi r) (lo q) && is_ordered (q ∷ t)

  abbrev pub hits : ℕ → A → Bool
  hits c r = leb (lo r) c && leb c (hi r)

  -- The first row that has the number.
  abbrev pub find_hit : ℕ → List A → Option A
  find_hit c [] = none
  find_hit c (r ∷ t) = if hits c r then some r else find_hit c t

  abbrev pub keep : ℕ → Option A → Option A
  keep c none = none
  keep c (some r) = if hits c r then some r else none

  ordered-cons :
      (r : A) (t : List A) → is_ordered (r ∷ t) ≡ true → (lo r ≤ hi r) × (is_ordered t ≡ true)
  unfolding is_ordered
  ordered-cons r [] h = ground (arith, h)
  ordered-cons r (q ∷ t) h = ground (arith, h)

  ordered-next : (r q : A) (t : List A) → is_ordered (r ∷ q ∷ t) ≡ true → hi r < lo q
  unfolding is_ordered
  ordered-next r q t h = ground (arith, h)

  -- All rows of a table that begins above `k` are above `k`.
  ordered-AllAbove :
      (k : ℕ) (q : A) (t : List A) → k < lo q → is_ordered (q ∷ t) ≡ true → AllAbove lo k (q ∷ t)
  ordered-AllAbove k q [] l h = (l, tt)
  ordered-AllAbove k q (r ∷ t) l h =
      let (size, rest) = ordered-cons q (r ∷ t) h in
      (l, ordered-AllAbove k r t (omega (arith, l, size, ordered-next q r t h)) rest)

  ordered-IsAscending : (t : List A) → is_ordered t ≡ true → IsAscending lo t
  ordered-IsAscending [] h = tt
  ordered-IsAscending (r ∷ []) h = (tt, tt)
  ordered-IsAscending (r ∷ q ∷ t) h =
      let (size, rest) = ordered-cons r (q ∷ t) h in
      (
        ordered-AllAbove (lo r) q t (omega (arith, size, ordered-next r q t h)) rest,
        ordered-IsAscending (q ∷ t) rest,
      )

  -- No row of a table above the number has it.
  find_hit-above : (c : ℕ) (t : List A) → AllAbove lo c t → find_hit c t ≡ none
  find_hit-above c [] h = refl
  find_hit-above c (r ∷ t) h = ground (arith, h.0, find_hit-above c t h.1)

  -- Behind a row that the scan has passed.
  keep-scan :
      (c : ℕ) (r : A) (t : List A)
      → lo r ≤ c
      → is_ordered (r ∷ t) ≡ true
      → keep c (scan lo c t (length t) (some r)) ≡ find_hit c (r ∷ t)
  keep-scan c r [] l h = refl
  keep-scan c r (q ∷ t) l h =
      let (size, rest) = ordered-cons r (q ∷ t) h in
      let gap = ordered-next r q t h in
      elim (Bool-cases (leb (lo q) c)) [
        | inl u ↦
            let below : lo q ≤ c = ground (arith, u) in
            let passed : hits c r ≡ false = ground (arith, gap, below) in
            rw (u, passed) (rw u at (keep-scan c q t below rest))
        | inr u ↦
            let above : c < lo q = ground (arith, u) in
            rw (find_hit-above c (q ∷ t) (ordered-AllAbove c q t above rest), u) refl
      ]

  -- The row that a search finds, if it has the number, is the only row that has it, and otherwise
  -- none has it.
  pub search-find_hit :
      (c : ℕ) (t : List A) → is_ordered t ≡ true → keep c (search lo c t (length t)) ≡ find_hit c t
  search-find_hit c t h = rw (search-scan lo c t (ordered-IsAscending t h)) (top t h)
    where
      top : (t : List A) → is_ordered t ≡ true → keep c (scan lo c t (length t) none) ≡ find_hit c t
      top [] h = refl
      top (r ∷ t) h = elim (Bool-cases (leb (lo r) c)) [
        | inl u ↦ rw u (rw u at (keep-scan c r t (ground (arith, u)) h))
        | inr u ↦
            let above : c < lo r = ground (arith, u) in
            rw (find_hit-above c (r ∷ t) (ordered-AllAbove c r t above h), u) refl
      ]
