-- ===== src/Server/Prefixes.antt =====
-- lib/irccd/server.c: the nickname prefixes that a server announces,
-- `irc_server_modes_parse` and `irc_server_strip`.
pub mod Strip
use irccd.Base.{
  ℕ, zero, suc, ◌+◌, ◌^◌, bit_or, Bool, not, Option, none, some, List, [], ◌∷◌, ◌==◌, if◌then◌else◌,
  length, Bytes, is_space,
}
use irccd.Server.{Prefix, Server}

-- %<max>[^stop]: at most `max` bytes other than `stop`, and what is left.
unfoldable pub span : ℕ → (ℕ → Bool) → Bytes → Bytes × Bytes
span zero p s = ([], s)
span (suc max) p [] = ([], [])
span (suc max) p (c ∷ s) =
    let (taken, rest) = span max p s in if p c then (c ∷ taken, rest) else ([], c ∷ s)

unfoldable pub skip_space : Bytes → Bytes
unfolding is_space
skip_space [] = []
skip_space (c ∷ s) = let rest = skip_space s in if is_space c then rest else c ∷ s

-- A conversion of sscanf fails when it takes nothing.
abbrev pub nonempty : Bytes → Option Bytes
nonempty [] = none
nonempty (c ∷ s) = some (c ∷ s)

-- %<max>s
unfoldable pub word : ℕ → Bytes → Option Bytes
unfolding span skip_space
word max s = nonempty (span max (λ c. not (is_space c)) (skip_space s)).0

-- The literal `c` and the rest behind it.
abbrev pub literal : ℕ → Bytes → Option Bytes
literal c [] = none
literal c (d ∷ s) = if d == c then some s else none

-- sscanf(value, "(%15[^)])%15s", modes, syms), when both are read.
unfoldable pub scan_prefix : Bytes → Option (Bytes × Bytes)
unfolding span word
scan_prefix value = elim (literal b'(' value) [
  | none ↦ none
  | some inside ↦
      let (modes, rest) = span 15 (λ c. not (c == b')')) inside in
      elim (nonempty modes) [
        | none ↦ none
        | some m ↦ elim (literal b')' rest) [
          | none ↦ none
          | some after ↦ elim (word 15 after) [ none ↦ none | some syms ↦ some (modes, syms) ]
        ]
      ]
]

unfoldable pub pair_up : Bytes → Bytes → List Prefix
pair_up (m ∷ modes) (s ∷ syms) = record { mode = m; symbol = s } ∷ pair_up modes syms
pair_up _ _ = []

-- `irc_server_modes_parse`
unfoldable pub modes_parse : Server → Bytes → Server
unfolding scan_prefix pair_up
modes_parse s value = elim (scan_prefix value) [
  | none ↦ record s { prefixes = [] }
  | some (modes, syms) ↦
      if length modes == length syms
      then record s { prefixes = pair_up modes syms }
      else record s { prefixes = [] }
]

-- The loop of `irc_server_strip`: the index, the modes so far and the text left.
unfoldable pub strip_loop : List Prefix → ℕ → ℕ → Bytes → ℕ × Bytes
strip_loop [] i modes what = (modes, what)
strip_loop (p ∷ rest) i modes [] = (modes, [])
strip_loop (p ∷ rest) i modes (c ∷ what) =
    strip_loop rest (i + 1) (if c == p.symbol then bit_or modes (2 ^ i) else modes)
      (if c == p.symbol then what else c ∷ what)

unfoldable pub strip : Server → Bytes → ℕ × Bytes
unfolding strip_loop
strip s what = strip_loop s.prefixes 0 0 what
