-- ===== src/Subst/Escape.antt =====
-- Texts that are written so that they come out as they were meant.
use irccd.Base.{
  ℕ, zero, suc, ◌+◌, ◌-◌, ◌≤◌, ◌<◌, ◌≡◌, refl, sym, ap, ◌∙◌, ◌≢◌, inl, inr, true, false, some, [],
  ◌∷◌, ◌++◌, append_assoc, append-nil, arith, ltb, leb, ◌==◌, if◌then◌else◌, Bool-cases, length,
  length-append, Bytes, has_flag, ok,
}
use irccd.Util.{strchr}
use irccd.Util.Joined.{IsFree, strchr-first}
use irccd.Subst.Attributes.{Buf, scat}
use irccd.Subst.{
  Subst, is_reserved, keyword_loop, subst_keyword, replace, substitute, loop, finish, dated,
  irc_subst, flag_date, flag_keywords,
}

-- Each reserved byte is doubled.
abbrev pub escape : Bytes → Bytes
escape [] = []
escape (c ∷ s) = if is_reserved c then c ∷ c ∷ escape s else c ∷ escape s

abbrev pub appended : Buf → Bytes → Buf
appended b s = record { text = b.text ++ s; room = b.room - length s }

appended-append : (b : Buf) (s t : Bytes) → appended (appended b s) t ≡ appended b (s ++ t)
appended-append b s t =
    let texts : (b.text ++ s) ++ t ≡ b.text ++ (s ++ t) = append_assoc b.text s t in
    let rooms : b.room - length s - length t ≡ b.room - length (s ++ t) =
      omega (arith, length-append s t) in
    rw (texts, rooms)

reserved-brace : (c : ℕ) → is_reserved c ≡ true → (c == b'{') ≡ false
unfolding is_reserved
reserved-brace c r = ground (arith, r)

loop-plain :
    (e : Subst) (fuel c : ℕ) (x : Bytes) (b : Buf)
    → is_reserved c ≡ false
    → 0 < b.room
    → loop (suc fuel) e (c ∷ x) b ≡ loop fuel e x (appended b (c ∷ []))
unfolding loop
loop-plain e fuel c [] b r h = let z : (b.room == 0) ≡ false = ground (arith, h) in rw (z)
loop-plain e fuel c (d ∷ x) b r h = let z : (b.room == 0) ≡ false = ground (arith, h) in rw (z, r)

loop-twice :
    (e : Subst) (fuel c : ℕ) (x : Bytes) (b : Buf)
    → is_reserved c ≡ true
    → 0 < b.room
    → loop (suc fuel) e (c ∷ c ∷ x) b ≡ loop fuel e x (appended b (c ∷ []))
unfolding loop
loop-twice e fuel c x b r h =
    let z : (b.room == 0) ≡ false = ground (arith, h) in
    let same : (c == c) ≡ true = ground arith in rw (z, r, reserved-brace c r, same)

loop-escape :
    (s : Bytes) (e : Subst) (fuel : ℕ) (i : Bytes) (b : Buf)
    → length s < b.room
    → loop (length s + fuel) e (escape s ++ i) b ≡ loop fuel e i (appended b s)
loop-escape [] e fuel i b h =
    let room : b.room - 0 ≡ b.room = omega arith in
    let none_left : appended b [] ≡ b = rw (append-nil, room) in
    ap (λ f. loop f e i b) (omega arith) ∙ ap (loop fuel e i) (sym none_left)
loop-escape (c ∷ s) e fuel i b h =
    let later : loop (length s + fuel) e (escape s ++ i) (appended b (c ∷ []))
        ≡ loop fuel e i (appended b (c ∷ s)) =
      loop-escape s e fuel i (appended b (c ∷ [])) (omega (arith, h))
      ∙ ap (loop fuel e i) (appended-append b (c ∷ []) s) in
    let move : suc (length s) + fuel ≡ suc (length s + fuel) = omega arith in
    elim (Bool-cases (is_reserved c)) [
      | inl r ↦
          rw (r, move)
            (loop-twice e (length s + fuel) c (escape s ++ i) b r (omega (arith, h)) ∙ later)
      | inr r ↦
          rw (r, move)
            (loop-plain e (length s + fuel) c (escape s ++ i) b r (omega (arith, h)) ∙ later)
    ]

escape-length : (s : Bytes) → length s ≤ length (escape s)
escape-length [] = omega arith
escape-length (c ∷ s) = ground (arith, escape-length s)

replace-keyword :
    (e : Subst) (key value : Bytes) (b : Buf)
    → has_flag e.flags flag_keywords ≡ true
    → keyword_loop e.keywords key ≡ some value
    → length value < b.room
    → replace e b'#' key b ≡ some (ok (appended b value))
unfolding replace subst_keyword scat
replace-keyword e key value b f k h =
    let fits : leb b.room (length value) ≡ false = ground (arith, h) in rw (f, k, fits)

substitute-found :
    (e : Subst) (token : ℕ) (line key i : Bytes) (b filled : Buf)
    → line ≢ []
    → strchr line b'}' ≡ some (key, i)
    → length key < 64
    → replace e token key b ≡ some (ok filled)
    → substitute e token line b ≡ some (ok (i, filled))
unfolding substitute
substitute-found e token [] key i b filled n s l r = absurd (n refl)
substitute-found e token (c ∷ line) key i b filled n s l r =
    let short : leb 64 (length key) ≡ false = ground (arith, l) in rw (substitute, s, short, r)

key-nonempty : (key i : Bytes) → (key ++ b'}' ∷ i) ≢ []
key-nonempty [] i h = ground (arith, h)
key-nonempty (c ∷ key) i h = ground (arith, h)

-- A construct of a keyword that is defined.
loop-keyword :
    (e : Subst) (fuel : ℕ) (key value i : Bytes) (b : Buf)
    → has_flag e.flags flag_keywords ≡ true
    → keyword_loop e.keywords key ≡ some value
    → IsFree b'}' key
    → length key < 64
    → length value < b.room
    → loop (suc fuel) e (b'#' ∷ b'{' ∷ (key ++ b'}' ∷ i)) b ≡ loop fuel e i (appended b value)
unfolding loop
loop-keyword e fuel key value i b f k z l h =
    let room : (b.room == 0) ≡ false = ground (arith, h) in
    let done =
      substitute-found e b'#' (key ++ b'}' ∷ i) key i b (appended b value) (key-nonempty key i)
        (strchr-first key i b'}' z) l (replace-keyword e key value b f k h) in
    rw (room, done)

loop-end : (e : Subst) (fuel : ℕ) (b : Buf) → loop fuel e [] b ≡ some (ok b)
unfolding loop
loop-end e zero b = refl
loop-end e (suc fuel) b = refl

loop-all :
    (e : Subst) (s : Bytes) (fuel : ℕ) (b : Buf)
    → length s ≤ fuel
    → length s < b.room
    → loop fuel e (escape s) b ≡ some (ok (appended b s))
loop-all e s fuel b g h =
    let split : length s + (fuel - length s) ≡ fuel = omega (arith, g) in
    ap (λ f. loop f e (escape s) b) (sym split)
    ∙ (ap (λ t. loop (length s + (fuel - length s)) e t b) (sym (append-nil (escape s)))
        ∙ (loop-escape s e (fuel - length s) [] b h ∙ loop-end e (fuel - length s) (appended b s)))

loop-around :
    (e : Subst) (pre key value post : Bytes) (fuel : ℕ) (b : Buf)
    → has_flag e.flags flag_keywords ≡ true
    → keyword_loop e.keywords key ≡ some value
    → IsFree b'}' key
    → length key < 64
    → length pre + (length value + length post) < b.room
    → length pre + suc (length post) ≤ fuel
    → loop fuel e (escape pre ++ b'#' ∷ b'{' ∷ (key ++ b'}' ∷ escape post)) b
      ≡ some (ok (appended (appended (appended b pre) value) post))
loop-around e pre key value post fuel b f k z l h g =
    let rest = b'#' ∷ b'{' ∷ (key ++ b'}' ∷ escape post) in
    let left = fuel - length pre - 1 in
    let split : fuel ≡ length pre + suc left = omega (arith, g) in
    ap (λ n. loop n e (escape pre ++ rest) b) split
    ∙ (loop-escape pre e (suc left) rest b (omega (arith, h))
        ∙ (loop-keyword e left key value (escape post) (appended b pre) f k z l (omega (arith, h))
            ∙ loop-all e post left (appended (appended b pre) value) (omega (arith, g))
                (omega (arith, h))))

finish-text :
    (s : Bytes) (n : ℕ) → length s < n → finish (appended (record { text = []; room = n }) s) ≡ ok s
unfolding finish
finish-text s n h = let room : ltb (n - length s) 1 ≡ false = ground (arith, h) in rw room

-- A text whose reserved bytes are doubled comes out as it was meant, whatever else is
-- substituted, when no date is and the output has room for it and for its end.
pub subst-escape :
    (e : Subst) (s : Bytes) (n : ℕ)
    → has_flag e.flags flag_date ≡ false
    → length s < n
    → irc_subst e n (escape s) ≡ some (ok s)
unfolding irc_subst dated
subst-escape e s zero d h = absurd (omega (arith, h))
subst-escape e s (suc n) d h =
    rw
      (d, loop-all e s (length (escape s)) (record { text = []; room = suc n }) (escape-length s) h)
      (ap some (finish-text s (suc n) h))

text-length :
    (pre key post : Bytes)
    → length pre + suc (length post)
      ≤ length (escape pre ++ b'#' ∷ b'{' ∷ (key ++ b'}' ∷ escape post))
text-length pre key post = omega (
  arith,
  escape-length pre,
  escape-length post,
  length-append (escape pre) (b'#' ∷ b'{' ∷ (key ++ b'}' ∷ escape post)),
  length-append key (b'}' ∷ escape post),
)

-- A keyword between two texts whose reserved bytes are doubled is replaced by its value, and
-- these texts come out as they were meant. Keywords are substituted and no date is, the keyword
-- is defined and has fewer than 64 bytes and no `}`, and the output has room for the result and
-- for its end.
pub subst-keyword :
    (e : Subst) (pre key value post : Bytes) (n : ℕ)
    → has_flag e.flags flag_date ≡ false
    → has_flag e.flags flag_keywords ≡ true
    → keyword_loop e.keywords key ≡ some value
    → IsFree b'}' key
    → length key < 64
    → length (pre ++ (value ++ post)) < n
    → irc_subst e n (escape pre ++ b'#' ∷ b'{' ∷ (key ++ b'}' ∷ escape post))
      ≡ some (ok (pre ++ (value ++ post)))
unfolding irc_subst dated
subst-keyword e pre key value post zero d f k z l h = absurd (omega (arith, h))
subst-keyword e pre key value post (suc n) d f k z l h =
    let b : Buf = record { text = []; room = suc n } in
    let text = escape pre ++ b'#' ∷ b'{' ∷ (key ++ b'}' ∷ escape post) in
    let whole : appended (appended (appended b pre) value) post
        ≡ appended b (pre ++ (value ++ post)) =
      appended-append (appended b pre) value post ∙ appended-append b pre (value ++ post) in
    let sizes : length (pre ++ (value ++ post)) ≡ length pre + (length value + length post) =
      length-append pre (value ++ post) ∙ ap (λ m. length pre + m) (length-append value post) in
    let long : length pre + suc (length post) ≤ length text = text-length pre key post in
    rw (d, loop-around e pre key value post (length text) b f k z l (omega (arith, h, sizes)) long)
      (ap (λ x. some (finish x)) whole ∙ ap some (finish-text (pre ++ (value ++ post)) (suc n) h))
