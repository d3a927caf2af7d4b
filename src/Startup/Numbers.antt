-- ===== src/Startup/Numbers.antt =====
-- `strconv.ParseInt` with base 10 and 32 bits, as main.go uses it.
use secure_store.Prelude.{
  Bool, Bool-cases, Option, [], arith, false, if◌then◌else◌, inl, inr, leb, leb→le, ltb, ltb→lt,
  nat_eq, none, some, subst, suc, sym, true, zero, ℕ, ◌&&◌, ◌*◌, ◌+◌, ◌-◌, ◌<◌, ◌^◌, ◌∷◌, ◌≡◌, ◌≤◌,
}
use secure_store.Prelude.Int.{negsuc, pos, ℤ}
use secure_store.Text.{Text}

abbrev digit_value : ℕ → Option ℕ
digit_value c = if leb b'0' c && leb c b'9' then some (c - b'0') else none

-- The number of the digits behind those that gave `n`.
unfoldable pub digits_value : ℕ → Text → Option ℕ
digits_value n [] = some n
digits_value n (c ∷ cs) = elim (digit_value c) [
  | none ↦ none
  | some d ↦ digits_value (n * 10 + d) cs
]

abbrev unsigned : Text → Option ℕ
unsigned [] = none
unsigned (c ∷ cs) = digits_value 0 (c ∷ cs)

abbrev negated : ℕ → ℤ
negated zero = pos 0
negated (suc n) = negsuc n

-- `cutoff` is 1 << 31; what is not in range is an error.
abbrev in_range : Bool → Option ℕ → Option ℤ
in_range minus none = none
in_range true (some n) = if leb n (2 ^ 31) then some (negated n) else none
in_range false (some n) = if ltb n (2 ^ 31) then some (pos n) else none

unfoldable pub parse_int : Text → Option ℤ
unfolding digits_value
parse_int [] = none
parse_int (c ∷ cs) =
    if nat_eq c b'-'
    then in_range true (unsigned cs)
    else if nat_eq c b'+'
    then in_range false (unsigned cs)
    else in_range false (unsigned (c ∷ cs))

abbrev pub InInt32 : ℤ → Type 0
InInt32 (pos n) = n < 2 ^ 31
InInt32 (negsuc n) = n < 2 ^ 31

below : (n : ℕ) (z : ℤ) → in_range false (some n) ≡ some z → (z ≡ pos n) × (n < 2 ^ 31)
below n z h = elim (Bool-cases (ltb n (2 ^ 31))) [
  | inl e ↦ (ground arith, ltb→lt n (2 ^ 31) e)
  | inr e ↦ cc
]

below_negated : (n : ℕ) (z : ℤ) → in_range true (some n) ≡ some z → (z ≡ negated n) × (n ≤ 2 ^ 31)
below_negated n z h = elim (Bool-cases (leb n (2 ^ 31))) [
  | inl e ↦ (ground arith, leb→le n (2 ^ 31) e)
  | inr e ↦ cc
]

negated-InInt32 : (n : ℕ) → n ≤ 2 ^ 31 → InInt32 (negated n)
negated-InInt32 zero h = ground arith
negated-InInt32 (suc n) h = h

in_range-InInt32 : (minus : Bool) (n : Option ℕ) (z : ℤ) → in_range minus n ≡ some z → InInt32 z
in_range-InInt32 minus none z h = cc
in_range-InInt32 true (some n) z h =
    let (e, l) = below_negated n z h in subst InInt32 (sym e) (negated-InInt32 n l)
in_range-InInt32 false (some n) z h = let (e, l) = below n z h in subst InInt32 (sym e) l

-- What `parse_int` returns without an error is in the range of 32 bits.
pub parse_int-InInt32 : (t : Text) (z : ℤ) → parse_int t ≡ some z → InInt32 z
unfolding parse_int
parse_int-InInt32 [] z h = cc
parse_int-InInt32 (c ∷ cs) z h = elim (Bool-cases (nat_eq c b'-')) [
  | inl m ↦ in_range-InInt32 true (unsigned cs) z (ground arith)
  | inr n ↦ elim (Bool-cases (nat_eq c b'+')) [
    | inl p ↦ in_range-InInt32 false (unsigned cs) z (ground arith)
    | inr q ↦ in_range-InInt32 false (unsigned (c ∷ cs)) z (ground arith)
  ]
]
