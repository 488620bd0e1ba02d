-- ===== src/Witness/Text.antt =====
-- Inputs for the theorems on UTF-8, on the splitting of lines and on substitutions.
use irccd.Base.{◌≡◌, refl, true, false, none, some, [], ◌∷◌, arith, Bytes, codes, str_eq, ok}
use irccd.Unicode.{encode8, to8, to32, encoding, sizeof32}
use irccd.Unicode.Strings.{to32-to8}
use irccd.Unicode.Classes.{
  uni_isspace, uni_isdigit, uni_isalpha, uni_isupper, uni_islower, uni_istitle, uni_toupper,
  uni_tolower, uni_totitle,
}
use irccd.Unicode.Classes.Members.{uni_is-any}
use irccd.Unicode.Classes.Casing.{Cased, uni_to-Cased}
use irccd.Subst.{Subst, irc_subst, loop, is_reserved, keyword_loop}
use irccd.Subst.Escape.{subst-keyword}
use irccd.Subst.Bounds.{irc_subst-IsBelow, IsBelow}
use irccd.Subst.Fuel.{loop-fuel}

abbrev euros : Bytes
euros = 0xe2 ∷ 0x82 ∷ 0xac ∷ b'!' ∷ []

euros-to8 : to8 (0x20ac ∷ b'!' ∷ []) 5 ≡ ok euros
unfolding to8 encode8 encoding sizeof32
euros-to8 = refl

to32-to8_example : to32 euros 3 ≡ ok (0x20ac ∷ b'!' ∷ [])
to32-to8_example = to32-to8 (0x20ac ∷ b'!' ∷ []) 5 euros (omega arith) euros-to8

abbrev with_nick : Subst
with_nick = record {
  flags = 2;
  keywords = (codes "nick", codes "jean") ∷ [];
  getenv = λ _. none;
  popen = λ _. none;
  strftime = λ _ _. none;
}

nick-keyword_loop : keyword_loop with_nick.keywords (codes "nick") ≡ some (codes "jean")
unfolding keyword_loop str_eq
nick-keyword_loop = refl

subst-keyword_example : irc_subst with_nick 20 (codes "## #{nick}!!") ≡ some (ok (codes "# jean!"))
unfolding is_reserved
subst-keyword_example =
    subst-keyword with_nick (codes "# ") (codes "nick") (codes "jean") (codes "!") 20 refl refl
      nick-keyword_loop (omega arith) (omega arith) (omega arith)

irc_subst-IsBelow_example : IsBelow 8 (irc_subst with_nick 8 (codes "#{nick}"))
irc_subst-IsBelow_example = irc_subst-IsBelow with_nick 8 (codes "#{nick}") (omega arith)

loop-fuel_example :
    loop 8 with_nick (codes "#{nick}") (record { text = []; room = 8 })
    ≡ loop 7 with_nick (codes "#{nick}") (record { text = []; room = 8 })
loop-fuel_example =
    loop-fuel 7 with_nick (codes "#{nick}") (record { text = []; room = 8 }) (omega arith)

uni_is-any_example :
    (uni_isspace 32 ≡ true)
    × (uni_isdigit 32 ≡ false)
    × (uni_isalpha 32 ≡ false)
    × (uni_isupper 32 ≡ false)
    × (uni_islower 32 ≡ false)
    × (uni_istitle 32 ≡ false)
uni_is-any_example = uni_is-any 32

uni_to-Cased_example :
    Cased (uni_toupper 97) 65 × Cased (uni_tolower 97) 97 × Cased (uni_totitle 97) 65
uni_to-Cased_example = uni_to-Cased 97 (omega arith)
