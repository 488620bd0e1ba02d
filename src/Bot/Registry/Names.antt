-- ===== src/Bot/Registry/Names.antt =====
-- No registry holds a name twice, and what a removal leaves.
use irccd.Base.{
  ℕ, ◌≡◌, refl, sym, subst, inl, inr, false, none, some, List, [], ◌∷◌, ◌++◌, arith, ◌==◌,
  if◌then◌else◌, Bool-cases, Option-cases, Bytes, str_eq, str_eq_iff,
}
use irccd.Bot.Registry.{get, delete, server_add, plugin_add, hook_add, remove}

-- No name stands in the registry twice.
abbrev pub IsUnique : List Bytes → Type 0
IsUnique [] = Unit
IsUnique (x ∷ rest) = (get rest x ≡ none) × IsUnique rest

-- What is done to a registry.
pub data Op : Type 0 where
  server_op hook_op remove_op : Bytes → Op
  plugin_op : Bytes → ℕ → Op

abbrev pub apply : List Bytes → Op → List Bytes
apply l (server_op s) = (server_add l s).1
apply l (hook_op h) = (hook_add l h).1
apply l (plugin_op p rc) = (plugin_add l p rc).1
apply l (remove_op name) = remove l name

abbrev pub apply_all : List Bytes → List Op → List Bytes
apply_all l [] = l
apply_all l (op ∷ ops) = apply_all (apply l op) ops

get-append :
    (l : List Bytes) (s name : Bytes)
    → get l name ≡ none
    → get (l ++ s ∷ []) name ≡ (if str_eq s name then some s else none)
unfolding get
get-append [] s name h = ground arith
get-append (x ∷ l) s name h = ground (arith, get-append l s name)

get-cons :
    (x : Bytes) (l : List Bytes) (s : Bytes)
    → get (x ∷ l) s ≡ none
    → (str_eq x s ≡ false) × (get l s ≡ none)
unfolding get
get-cons x l s g = ground (arith, g)

append-IsUnique :
    (l : List Bytes) (s : Bytes) → get l s ≡ none → IsUnique l → IsUnique (l ++ s ∷ [])
append-IsUnique [] s g h = unfold get in (refl, tt)
append-IsUnique (x ∷ l) s g h =
    let away = get-cons x l s g in
    (
      ground (arith, get-append l s x h.0, away.0, str_eq_iff x s, str_eq_iff s x),
      append-IsUnique l s away.1 h.1,
    )

-- A lookup after a removal, in a registry that holds no name twice.
get-delete :
    (l : List Bytes) (name other : Bytes)
    → IsUnique l
    → get (delete l name) other ≡ (if str_eq name other then none else get l other)
unfolding get delete
get-delete [] name other h = ground arith
get-delete (x ∷ l) name other h = ground (
  arith,
  h.0,
  get-delete l name other h.1,
  str_eq_iff x name,
  str_eq_iff x other,
  str_eq_iff name other,
)

delete-IsUnique : (l : List Bytes) (name : Bytes) → IsUnique l → IsUnique (delete l name)
unfolding delete
delete-IsUnique [] name h = tt
delete-IsUnique (x ∷ l) name h = elim (Bool-cases (str_eq x name)) [
  | inl e ↦ rw e h.1
  | inr e ↦ rw e (ground (arith, get-delete l name x h.1, h.0), delete-IsUnique l name h.1)
]

-- What a lookup finds has the name that was looked for.
get-name : (l : List Bytes) (name x : Bytes) → get l name ≡ some x → x ≡ name
unfolding get
get-name [] name x h = ground arith
get-name (y ∷ l) name x h = ground (arith, get-name l name x, str_eq_iff y name)

-- After a removal the name is gone from a registry that held it at most once, and every other name
-- is found as before.
pub get-remove :
    (l : List Bytes) (name other : Bytes)
    → IsUnique l
    → get (remove l name) other ≡ (if str_eq name other then none else get l other)
unfolding remove get str_eq
get-remove l name other h = elim (Option-cases (get l name)) [
  | inl e ↦ rw (remove, e) (ground (arith, e, str_eq_iff name other))
  | inr (x, e) ↦ rw (remove, e, get-name l name x e) (get-delete l name other h)
]

-- The registry after an addition, when the name is new (some) or there already (none).
server_add-eq :
    (l : List Bytes) (s : Bytes)
    → (server_add l s).1 ≡ elim (get l s) [ some x ↦ l | none ↦ l ++ s ∷ [] ]
unfolding server_add
server_add-eq l s = elim (Option-cases (get l s)) [
  | inl e ↦ rw (server_add, e)
  | inr (x, e) ↦ rw (server_add, e)
]

hook_add-eq :
    (l : List Bytes) (s : Bytes) → (hook_add l s).1 ≡ elim (get l s) [ some x ↦ l | none ↦ s ∷ l ]
unfolding hook_add
hook_add-eq l s = elim (Option-cases (get l s)) [
  | inl e ↦ rw (hook_add, e)
  | inr (x, e) ↦ rw (hook_add, e)
]

plugin_add-eq :
    (l : List Bytes) (s : Bytes) (rc : ℕ)
    → (plugin_add l s rc).1 ≡ elim (get l s) [ some x ↦ l | none ↦ if rc == 0 then s ∷ l else l ]
unfolding plugin_add
plugin_add-eq l s rc = elim (Option-cases (get l s)) [
  | inl e ↦ rw (plugin_add, e)
  | inr (x, e) ↦ rw (plugin_add, e)
]

remove-eq :
    (l : List Bytes) (s : Bytes) → remove l s ≡ elim (get l s) [ none ↦ l | some x ↦ delete l x ]
unfolding remove
remove-eq l s = elim (Option-cases (get l s)) [
  | inl e ↦ rw (remove, e)
  | inr (x, e) ↦ rw (remove, e)
]

apply-IsUnique : (l : List Bytes) (op : Op) → IsUnique l → IsUnique (apply l op)
apply-IsUnique l (server_op s) h = elim (Option-cases (get l s)) [
  | inl e ↦ subst IsUnique (sym (server_add-eq l s)) (rw e (append-IsUnique l s e h))
  | inr (x, e) ↦ subst IsUnique (sym (server_add-eq l s)) (rw e h)
]
apply-IsUnique l (hook_op s) h = elim (Option-cases (get l s)) [
  | inl e ↦ subst IsUnique (sym (hook_add-eq l s)) (rw e (e, h))
  | inr (x, e) ↦ subst IsUnique (sym (hook_add-eq l s)) (rw e h)
]
apply-IsUnique l (plugin_op s rc) h = elim (Option-cases (get l s)) [
  | inl e ↦
      subst IsUnique (sym (plugin_add-eq l s rc))
        (elim (Bool-cases (rc == 0)) [ inl z ↦ rw (e, z) (e, h) | inr z ↦ rw (e, z) h ])
  | inr (x, e) ↦ subst IsUnique (sym (plugin_add-eq l s rc)) (rw e h)
]
apply-IsUnique l (remove_op s) h = elim (Option-cases (get l s)) [
  | inl e ↦ subst IsUnique (sym (remove-eq l s)) (rw e h)
  | inr (x, e) ↦ subst IsUnique (sym (remove-eq l s)) (rw e (delete-IsUnique l x h))
]

-- Whatever is added to a registry and removed from it, no name comes to stand in it twice, when
-- none does before.
pub names-IsUnique : (ops : List Op) (l : List Bytes) → IsUnique l → IsUnique (apply_all l ops)
names-IsUnique [] l h = h
names-IsUnique (op ∷ ops) l h = names-IsUnique ops (apply l op) (apply-IsUnique l op h)
