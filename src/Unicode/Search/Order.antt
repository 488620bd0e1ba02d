-- ===== src/Unicode/Search/Order.antt =====
-- On a table whose keys ascend the search finds what a scan of the table finds.
use irccd.Base.{
  ℕ, zero, suc, ◌+◌, ◌-◌, ◌/◌, ◌≤◌, ◌<◌, ◌≡◌, refl, sym, ap, ◌∙◌, inl, inr, true, false, Option,
  none, some, List, [], ◌∷◌, arith, ltb, leb, if◌then◌else◌, ltb→lt, Bool-cases, length, drop,
}
use irccd.Unicode.Search.{at_head, is_upto, search_loop, search}

module _ {ℓ} {A : Type ℓ} (key : A → ℕ) where
  -- All keys are above the number.
  abbrev pub AllAbove : ℕ → List A → Type 0
  AllAbove k [] = Unit
  AllAbove k (row ∷ t) = (k < key row) × AllAbove k t

  abbrev pub IsAscending : List A → Type 0
  IsAscending [] = Unit
  IsAscending (row ∷ t) = AllAbove (key row) t × IsAscending t

  -- A scan of the first `n` rows: the last one whose key is not above `c`.
  abbrev pub scan : ℕ → List A → ℕ → Option A → Option A
  scan c t zero found = found
  scan c [] (suc n) found = found
  scan c (row ∷ t) (suc n) found =
      let later = scan c t n (some row) in if leb (key row) c then later else found

  AllAbove-lower : (j k : ℕ) (t : List A) → j ≤ k → AllAbove k t → AllAbove j t
  AllAbove-lower j k [] h a = tt
  AllAbove-lower j k (row ∷ t) h a = (omega (arith, a.0), AllAbove-lower j k t h a.1)

  IsAscending-drop : (m : ℕ) (t : List A) → IsAscending t → IsAscending (drop m t)
  IsAscending-drop zero t h = h
  IsAscending-drop (suc m) [] h = tt
  IsAscending-drop (suc m) (row ∷ t) h = IsAscending-drop m t h.1

  -- The scan stops before a row that is above `c`, wherever it is.
  scan-stop :
      (c : ℕ) (t : List A) (m n : ℕ) (found : Option A)
      → m ≤ n
      → IsAscending t
      → is_upto key c (drop m t) ≡ false
      → scan c t n found ≡ scan c t m found
  scan-stop c [] zero zero found l h u = refl
  scan-stop c [] zero (suc n) found l h u = refl
  scan-stop c (row ∷ t) zero zero found l h u = refl
  scan-stop c (row ∷ t) zero (suc n) found l h u = rw u
  scan-stop c t (suc m) zero found l h u = absurd (omega (arith, l))
  scan-stop c [] (suc m) (suc n) found l h u = refl
  scan-stop c (row ∷ t) (suc m) (suc n) found l h u =
      let later = scan-stop c t m n (some row) (omega (arith, l)) h.1 u in
      ap (λ x. if leb (key row) c then x else found) later

  -- A row above `k` that is not above `c`.
  above-upto : (c k m : ℕ) (t : List A) → AllAbove k t → is_upto key c (drop m t) ≡ true → k < c
  above-upto c k zero [] a u = absurd (ground (arith, u))
  above-upto c k zero (row ∷ t) a u = ground (arith, a.0, u)
  above-upto c k (suc m) [] a u = absurd (ground (arith, u))
  above-upto c k (suc m) (row ∷ t) a u = above-upto c k m t a.1 u

  scan-jump :
      (c : ℕ) (t : List A) (m n : ℕ) (found : Option A)
      → m < n
      → IsAscending t
      → is_upto key c (drop m t) ≡ true
      → scan c t n found ≡ scan c (drop m t) (n - m) none
  scan-jump c t m zero found l h u = absurd (omega (arith, l))
  scan-jump c [] zero (suc n) found l h u = absurd (ground (arith, u))
  scan-jump c (row ∷ t) zero (suc n) found l h u =
      let whole : suc n - 0 ≡ suc n = omega arith in rw (whole, u)
  scan-jump c [] (suc m) (suc n) found l h u = absurd (ground (arith, u))
  scan-jump c (row ∷ t) (suc m) (suc n) found l h u =
      let less = above-upto c (key row) m t h.0 u in
      let first : leb (key row) c ≡ true = ground (arith, less) in
      let rest : suc n - suc m ≡ n - m = omega arith in
      rw (first, rest) (scan-jump c t m n (some row) (omega (arith, l)) h.1 u)

  -- One row is looked at as the scan looks at it.
  at_head-scan : (c : ℕ) (t : List A) (n : ℕ) → n < 2 → at_head key c t n ≡ scan c t n none
  at_head-scan c [] zero h = refl
  at_head-scan c [] (suc n) h = refl
  at_head-scan c (row ∷ t) zero h = refl
  at_head-scan c (row ∷ t) (suc zero) h = ground arith
  at_head-scan c (row ∷ t) (suc (suc n)) h = absurd (omega (arith, h))

  search_loop-scan :
      (fuel c : ℕ) (t : List A) (n : ℕ)
      → n ≤ fuel + 1
      → IsAscending t
      → search_loop key fuel c t n ≡ scan c t n none
  unfolding search_loop
  search_loop-scan zero c t n l h = at_head-scan c t n (omega (arith, l))
  search_loop-scan (suc fuel) c t n l h = elim (Bool-cases (ltb 1 n)) [
    | inr e ↦ rw e (at_head-scan c t n (ground (arith, e)))
    | inl e ↦
        let large = ltb→lt 1 n e in
        elim (Bool-cases (is_upto key c (drop (n / 2) t))) [
          | inl u ↦
              rw (e, u)
                (search_loop-scan fuel c (drop (n / 2) t) (n - n / 2) (omega (arith, l, large))
                    (IsAscending-drop (n / 2) t h)
                  ∙ sym (scan-jump c t (n / 2) n none (omega (arith, large)) h u))
          | inr u ↦
              rw (e, u)
                (search_loop-scan fuel c t (n / 2) (omega (arith, l, large)) h
                  ∙ sym (scan-stop c t (n / 2) n none (omega arith) h u))
        ]
  ]

  -- On a table whose keys ascend the binary search finds the row that a scan of the table finds:
  -- the last one whose key is not above the number.
  pub search-scan :
      (c : ℕ) (t : List A) → IsAscending t → search key c t (length t) ≡ scan c t (length t) none
  unfolding search
  search-scan c t h = search_loop-scan (length t) c t (length t) (omega arith) h
