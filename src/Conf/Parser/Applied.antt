-- ===== src/Conf/Parser/Applied.antt =====
-- The rules of the configuration become the rules of the bot, and its hooks have different names.
use irccd.Base.{
  ◌+◌, ◌-◌, ◌^◌, ◌<◌, ◌≡◌, refl, sym, ◌∙◌, subst, Bool, true, false, List, [], ◌∷◌, ◌++◌,
  append_assoc, append-nil, arith, if◌then◌else◌, length, length-append, Bytes, codes, str_eq,
  str_eq_iff,
}
use irccd.Rule.{Rule}
use irccd.Bot.Rules
use irccd.Bot.Rules.Order.{size-length}
use irccd.Hook.{Hook, new}
use irccd.Conf.Lexer.{Token}
use irccd.Conf.Parser.{
  Parsed, parsed, fatal, off, then_parse, text, keyword, has_hook, hook, apply_rules,
}

insert-last :
    (rules : List Rule) (r : Rule)
    → length rules < 2 ^ 64
    → Rules.insert rules r (2 ^ 64 - 1) ≡ rules ++ r ∷ []
unfolding Rules.insert
insert-last rules r h = ground (arith, h, size-length rules)

-- The rules of the configuration stand behind those of the bot, in their order, while their number
-- is below 2 ^ 64.
pub apply_rules-append :
    (rules more : List Rule)
    → length rules + length more < 2 ^ 64
    → apply_rules rules more ≡ rules ++ more
unfolding apply_rules
apply_rules-append rules [] h = sym (append-nil rules)
apply_rules-append rules (r ∷ more) h =
    let short : length (rules ++ r ∷ []) + length more < 2 ^ 64 =
      omega (arith, h, length-append rules (r ∷ [])) in
    rw (insert-last rules r (omega (arith, h)))
      (apply_rules-append (rules ++ r ∷ []) more short ∙ append_assoc rules (r ∷ []) more)

-- No two of the hooks have one name.
abbrev pub AreDistinct : List Hook → Type 0
AreDistinct [] = Unit
AreDistinct (h ∷ hooks) = (has_hook hooks h.name ≡ false) × AreDistinct hooks

str_eq_swap : (s t : Bytes) → str_eq s t ≡ false → str_eq t s ≡ false
str_eq_swap s t h =
    let same : (str_eq t s ≡ true) → str_eq s t ≡ true =
      λ e. (str_eq_iff s t).1 (sym ((str_eq_iff t s).0 e)) in
    ground (arith, same, h)

has_hook-last :
    (hooks : List Hook) (h : Hook) (name : Bytes)
    → has_hook hooks name ≡ false
    → str_eq h.name name ≡ false
    → has_hook (hooks ++ h ∷ []) name ≡ false
unfolding has_hook
has_hook-last [] h name f e = ground (arith, e)
has_hook-last (x ∷ hooks) h name f e = ground (arith, f, e, has_hook-last hooks h name)

append-AreDistinct :
    (hooks : List Hook) (h : Hook)
    → AreDistinct hooks
    → has_hook hooks h.name ≡ false
    → AreDistinct (hooks ++ h ∷ [])
unfolding has_hook
append-AreDistinct [] h d f = (refl, tt)
append-AreDistinct (x ∷ hooks) h d f =
    let apart : str_eq x.name h.name ≡ false = ground (arith, f) in
    let later : has_hook hooks h.name ≡ false = ground (arith, f) in
    (
      has_hook-last hooks h x.name d.0 (str_eq_swap x.name h.name apart),
      append-AreDistinct hooks h d.1 later,
    )

-- Where a chain gives a result, its first part does, and the rest gives it from there.
then_parse-parsed {ℓ κ} :
    {A : Type ℓ} {B : Type κ} (t : Parsed A) (f : A → List Token → Parsed B) (y : B)
    (left : List Token)
    → then_parse t f ≡ parsed y left
    → (x : A) × (rest : List Token) × (f x rest ≡ parsed y left)
then_parse-parsed (parsed x rest) f y left e = (x, rest, e)
then_parse-parsed fatal f y left e = absurd (cc e)
then_parse-parsed off f y left e = absurd (cc e)

guard-parsed {ℓ} :
    {A : Type ℓ} (b : Bool) (t : Parsed A) (y : A) (left : List Token)
    → (if b then fatal else t) ≡ parsed y left
    → (b ≡ false) × (t ≡ parsed y left)
guard-parsed true t y left e = absurd (cc e)
guard-parsed false t y left e = (refl, e)

-- A hook that is read is behind the hooks that were read before, and no two have one name when
-- none had before.
pub hook-AreDistinct :
    (hooks more : List Hook) (tokens rest : List Token)
    → AreDistinct hooks
    → hook hooks tokens ≡ parsed more rest
    → ((h : Hook) × (more ≡ hooks ++ h ∷ [])) × AreDistinct more
unfolding hook new
hook-AreDistinct hooks more tokens rest d e =
    let (name, behind, f) = then_parse-parsed (text tokens) _ more rest e in
    let (free, g) = guard-parsed (has_hook hooks name) _ more rest f in
    let (to, last, k) = then_parse-parsed (keyword (codes "to") behind) _ more rest g in
    let (path, left, m) = then_parse-parsed (text last) _ more rest k in
    let same : hooks ++ new name path ∷ [] ≡ more = cc m in
    (
      (new name path, sym same),
      subst AreDistinct same (append-AreDistinct hooks (new name path) d free),
    )
