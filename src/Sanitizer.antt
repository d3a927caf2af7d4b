-- ===== src/Sanitizer.antt =====
-- sanitizer.go: the pattern for bucket ids, key ids and url keys.
pub mod Accepted
use secure_store.Prelude.{Bool, String, [], codes, ◌∷◌}
use secure_store.Regexp.{Regexp, class, match_all, plus, seq, star}

pub record Matcher : Type 0 where
  pub reg : Regexp

abbrev pub lower : Regexp
lower = class ((b'a', b'z') ∷ [])

abbrev lower_or_digit : Regexp
lower_or_digit = class ((b'a', b'z') ∷ (b'0', b'9') ∷ [])

-- `^[a-z]+([-][a-z0-9]+)*[a-z]+$`
unfoldable pub regex_exp : Regexp
regex_exp =
    seq (plus lower)
      (seq (star (seq (class ((b'-', b'-') ∷ [])) (plus lower_or_digit))) (plus lower))

unfoldable pub new_matcher : Matcher
unfolding regex_exp
new_matcher = record { reg = regex_exp }

unfoldable pub match_string : Matcher → String → Bool
match_string m inp = match_all m.reg (codes inp)
