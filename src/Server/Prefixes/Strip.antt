-- ===== src/Server/Prefixes/Strip.antt =====
-- What `irc_server_strip` reads off a nickname, and what a PREFIX announcement sets.
use irccd.Base.{
  ℕ, ◌+◌, ◌^◌, ◌<◌, bit_or, ◌≡◌, refl, ◌∙◌, ◌≢◌, Bool, true, false, List, [], ◌∷◌, ◌++◌, arith,
  Bytes, bit_or-bit,
}
use native.Mathlib.Nat.{pow-suc}
use native.Mathlib.Numerals.{add-one}
use irccd.Server.{Prefix, Server}
use irccd.Server.Prefixes.{strip_loop, strip}

-- The symbols of the prefixes that are chosen, in the order of the server.
abbrev pub chosen : List Prefix → List Bool → Bytes
chosen (p ∷ rest) (true ∷ sel) = p.symbol ∷ chosen rest sel
chosen (p ∷ rest) (false ∷ sel) = chosen rest sel
chosen _ _ = []

-- The sum of the bits of the indices that are chosen, from index `i`.
abbrev pub mask : ℕ → List Prefix → List Bool → ℕ
mask i (p ∷ rest) (true ∷ sel) = 2 ^ i + mask (i + 1) rest sel
mask i (p ∷ rest) (false ∷ sel) = mask (i + 1) rest sel
mask i _ _ = 0

-- The text does not begin with the byte.
abbrev pub NotAt : Bytes → ℕ → Type 0
NotAt [] c = Unit
NotAt (d ∷ s) c = d ≢ c

-- The symbol is not among those of the prefixes.
abbrev pub IsFresh : ℕ → List Prefix → Type 0
IsFresh c [] = Unit
IsFresh c (p ∷ rest) = (p.symbol ≢ c) × IsFresh c rest

-- The symbols differ from one another, and the nickname begins with none of them.
abbrev pub AreSymbols : List Prefix → Bytes → Type 0
AreSymbols [] nick = Unit
AreSymbols (p ∷ rest) nick = IsFresh p.symbol rest × NotAt nick p.symbol × AreSymbols rest nick

NotAt-chosen :
    (rest : List Prefix) (sel : List Bool) (nick : Bytes) (c : ℕ)
    → IsFresh c rest
    → NotAt nick c
    → NotAt (chosen rest sel ++ nick) c
NotAt-chosen [] sel nick c f n = n
NotAt-chosen (p ∷ rest) [] nick c f n = n
NotAt-chosen (p ∷ rest) (true ∷ sel) nick c f n = f.0
NotAt-chosen (p ∷ rest) (false ∷ sel) nick c f n = NotAt-chosen rest sel nick c f.1 n

-- A symbol that is not in front is passed over.
strip_loop-skip :
    (p : Prefix) (rest : List Prefix) (i modes : ℕ) (what : Bytes)
    → NotAt what p.symbol
    → strip_loop (p ∷ rest) i modes what ≡ strip_loop rest (i + 1) modes what
unfolding strip_loop
strip_loop-skip p [] i modes [] h = refl
strip_loop-skip p (q ∷ rest) i modes [] h = refl
strip_loop-skip p rest i modes (c ∷ what) h = ground arith

strip_loop-take :
    (p : Prefix) (rest : List Prefix) (i modes : ℕ) (what : Bytes)
    → strip_loop (p ∷ rest) i modes (p.symbol ∷ what)
      ≡ strip_loop rest (i + 1) (bit_or modes (2 ^ i)) what
unfolding strip_loop
strip_loop-take p rest i modes what = ground arith

strip_loop-all :
    (prefixes : List Prefix) (i modes : ℕ) (nick : Bytes)
    → AreSymbols prefixes nick
    → strip_loop prefixes i modes nick ≡ (modes, nick)
strip_loop-all [] i modes nick h = unfold strip_loop in refl
strip_loop-all (p ∷ rest) i modes nick h =
    strip_loop-skip p rest i modes nick h.1 ∙ strip_loop-all rest (i + 1) modes nick h.2

strip_loop-chosen :
    (prefixes : List Prefix) (sel : List Bool) (i modes : ℕ) (nick : Bytes)
    → modes < 2 ^ i
    → AreSymbols prefixes nick
    → strip_loop prefixes i modes (chosen prefixes sel ++ nick)
      ≡ (modes + mask i prefixes sel, nick)
strip_loop-chosen [] sel i modes nick b h =
    let e : modes + 0 ≡ modes = omega arith in rw e (unfold strip_loop in refl)
strip_loop-chosen (p ∷ rest) [] i modes nick b h =
    let e : modes + 0 ≡ modes = omega arith in rw e (strip_loop-all (p ∷ rest) i modes nick h)
strip_loop-chosen (p ∷ rest) (true ∷ sel) i modes nick b h =
    let e : modes + 2 ^ i + mask (i + 1) rest sel ≡ modes + (2 ^ i + mask (i + 1) rest sel) =
      omega arith in
    let fits : modes + 2 ^ i < 2 ^ (i + 1) = rw (add-one, pow-suc) (omega arith) in
    strip_loop-take p rest i modes (chosen rest sel ++ nick)
    ∙ rw (bit_or-bit i modes b)
        (strip_loop-chosen rest sel (i + 1) (modes + 2 ^ i) nick fits h.2 ∙ rw e)
strip_loop-chosen (p ∷ rest) (false ∷ sel) i modes nick b h =
    let fits : modes < 2 ^ (i + 1) = rw (add-one, pow-suc) (omega arith) in
    strip_loop-skip p rest i modes (chosen rest sel ++ nick)
      (NotAt-chosen rest sel nick p.symbol h.0 h.1)
    ∙ strip_loop-chosen rest sel (i + 1) modes nick fits h.2

-- A nickname behind the symbols of some modes, in the order in which the server announced them,
-- is stripped to itself, with one bit for each of these modes, when the symbols differ from one
-- another and the nickname begins with none of them.
pub strip-chosen :
    (s : Server) (sel : List Bool) (nick : Bytes)
    → AreSymbols s.prefixes nick
    → strip s (chosen s.prefixes sel ++ nick) ≡ (mask 0 s.prefixes sel, nick)
unfolding strip
strip-chosen s sel nick h =
    let e : 0 + mask 0 s.prefixes sel ≡ mask 0 s.prefixes sel = omega arith in
    rw e at (strip_loop-chosen s.prefixes sel 0 0 nick (omega arith) h)
