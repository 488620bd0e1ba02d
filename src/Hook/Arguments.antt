-- ===== src/Hook/Arguments.antt =====
-- The arguments of a hook's process for a change of modes.
use irccd.Base.{
  ◌≡◌, refl, sym, ap, ◌∙◌, Option, some, List, [], ◌∷◌, ◌++◌, map, append_assoc, append-nil, Bytes,
  codes,
}
use irccd.Event.{Event}
use irccd.Hook.{Hook, alloc, alloc_mode, make_args, argv, invoke}

argv-some : (values : List Bytes) → argv (map (λ (v : Bytes). some v) values) ≡ values
unfolding argv
argv-some [] = refl
argv-some (v ∷ values) = ap (λ (l : List Bytes). v ∷ l) (argv-some values)

alloc_mode-append :
    (args : List Bytes) (ret : List (Option Bytes))
    → alloc_mode ret args ≡ ret ++ map (λ (v : Bytes). some v) args
unfolding alloc_mode
alloc_mode-append [] ret = sym (append-nil ret)
alloc_mode-append (mode ∷ args) ret =
    alloc_mode-append args (ret ++ some mode ∷ [])
    ∙ append_assoc ret (some mode ∷ []) (map (λ (v : Bytes). some v) args)

-- The process of a hook for a change of modes gets the path of the hook, the name of the event, its
-- server, origin, channel and mode, and all arguments of the mode in their order.
pub invoke-mode :
    (h : Hook) (s o c m : Bytes) (args : List Bytes)
    → invoke h (Event.mode s o c m args)
      ≡ some (h.path, h.path ∷ codes "onMode" ∷ s ∷ o ∷ c ∷ m ∷ args)
unfolding invoke make_args argv
invoke-mode h s o c m args =
    rw (alloc_mode-append args (alloc h (codes "onMode" ∷ s ∷ o ∷ c ∷ m ∷ [])))
      (rw (argv-some args) refl)
