-- ===== src/Memory.antt =====
-- Reads through pointers: `none` is a fault, such as a read behind the end of an array or through
-- NULL. A `do` block stops at the first fault.
use irccd.Base.{ℕ, Option, none, some, List, get_elem?}

infixl 5 ◌>>=◌
abbrev pub ◌>>=◌ {ℓ κ} : {A : Type ℓ} {B : Type κ} → Option A → (A → Option B) → Option B
some a >>= f = f a
none >>= f = none

-- a[i] of an array that has exactly these elements.
abbrev pub read {ℓ} : {A : Type ℓ} → List A → ℕ → Option A
read = get_elem?
