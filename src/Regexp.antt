-- ===== src/Regexp.antt =====
-- The part of Go's package regexp that sanitizer.go and users/users.go use: an anchored expression
-- `^r$` over classes, sequences, options and repetitions, and `MatchString`, on the code points of
-- the text. `Matches` is what such an expression means; `match_all` computes it by derivatives.
pub mod Correct
pub mod Within
use secure_store.Prelude.{
  Bool, List, [], false, if◌then◌else◌, leb, true, ℕ, ◌&&◌, ◌++◌, ◌||◌, ◌∷◌, ◌≡◌,
}

pub data Regexp : Type 0 where
  fail empty : Regexp
  -- `[a-zx-y]`, by its ranges
  class : List (ℕ × ℕ) → Regexp
  seq alt : Regexp → Regexp → Regexp
  star : Regexp → Regexp

-- `r+` and `r?`
abbrev pub plus : Regexp → Regexp
plus r = seq r (star r)

abbrev pub opt : Regexp → Regexp
opt r = alt empty r

unfoldable pub in_class : List (ℕ × ℕ) → ℕ → Bool
in_class [] c = false
in_class ((lo, hi) ∷ rs) c = (leb lo c && leb c hi) || in_class rs c

pub data Matches : Regexp → List ℕ → Type 0 where
  nothing : Matches empty []
  one : {rs : List (ℕ × ℕ)} (c : ℕ) → in_class rs c ≡ true → Matches (class rs) (c ∷ [])
  both :
      {r s : Regexp} {zs : List ℕ} (xs ys : List ℕ)
      → zs ≡ xs ++ ys
      → Matches r xs
      → Matches s ys
      → Matches (seq r s) zs
  left : {r s : Regexp} {xs : List ℕ} → Matches r xs → Matches (alt r s) xs
  right : {r s : Regexp} {xs : List ℕ} → Matches s xs → Matches (alt r s) xs
  stop : {r : Regexp} → Matches (star r) []
  again :
      {r : Regexp} {zs : List ℕ} (xs ys : List ℕ)
      → zs ≡ xs ++ ys
      → Matches r xs
      → Matches (star r) ys
      → Matches (star r) zs

nullable : Regexp → Bool
nullable fail = false
nullable empty = true
nullable (class rs) = false
nullable (seq r s) = nullable r && nullable s
nullable (alt r s) = nullable r || nullable s
nullable (star r) = true

-- What has to match the rest after a first character.
derivative : ℕ → Regexp → Regexp
derivative c fail = fail
derivative c empty = fail
derivative c (class rs) = if in_class rs c then empty else fail
derivative c (seq r s) =
    let skipped = derivative c s in
    let onward = seq (derivative c r) s in if nullable r then alt onward skipped else onward
derivative c (alt r s) = alt (derivative c r) (derivative c s)
derivative c (star r) = seq (derivative c r) (star r)

unfoldable pub match_all : Regexp → List ℕ → Bool
unfolding nullable derivative in_class
match_all r [] = nullable r
match_all r (c ∷ s) = match_all (derivative c r) s
