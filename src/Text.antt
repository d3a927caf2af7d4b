-- ===== src/Text.antt =====
-- Texts as lists of code points, as the client and the server send them.
use Prim.Native.String
use Prim.Native.Char.{Char, IsScalar, char, code}
use Prim.Native.Nat.{Ordering, compare}
use mathlib.Core.Logic.{dif_neg, dif_pos, dite}
use mathlib.Core.Path.{ap₂}
use native.Mathlib.Bridge.{le_prop}
use native.Mathlib.Decide.{dec_lt}
use secure_store.Prelude.{
  All, List, String, [], ap, arith, codes, inl, inr, refl, ℕ, ◌++◌, ◌<◌, ◌∷◌, ◌≡◌, ◌⊎◌,
}
use text.Mathlib.TextEquality.{Char-path}
use text.Mathlib.TextLemmas.{cons-append, nil-append}

abbrev pub Text : Type 0
Text = List ℕ

pub codes-append : (s t : String) → codes (String.◌++◌ s t) ≡ codes s ++ codes t
codes-append String.[] t = rw nil-append refl
codes-append (String.◌∷◌ c s) t = rw cons-append (ap (◌∷◌ (code c)) (codes-append s t))

pub codes-injective : (s t : String) → codes s ≡ codes t → s ≡ t
codes-injective String.[] String.[] e = refl
codes-injective String.[] (String.◌∷◌ d t) e = cc
codes-injective (String.◌∷◌ c s) String.[] e = cc
codes-injective (String.◌∷◌ c s) (String.◌∷◌ d t) e =
    ap₂ String.◌∷◌ (Char-path c d (cc)) (codes-injective s t (cc))

pub low-IsScalar : (n : ℕ) → n < 55296 → IsScalar n
low-IsScalar n h = let e : compare n 55296 ≡ Ordering.lt = ground arith in rw e tt

pub high-IsScalar : (n : ℕ) → 57343 < n → n < 1114112 → IsScalar n
high-IsScalar n h k =
    let e : compare n 55296 ≡ Ordering.gt = ground arith in
    let f : compare 57343 n ≡ Ordering.lt = ground arith in
    let g : compare n 1114112 ≡ Ordering.lt = ground arith in rw e (rw f (rw g tt))

-- A number that is no character reads as U+FFFD.
to_char : ℕ → Char
unfolding dec_lt
to_char n =
    dite (dec_lt n 55296) (λ h. char n (low-IsScalar n h))
      λ _.
        dite (dec_lt 57343 n)
          (λ h. dite (dec_lt n 1114112) (λ k. char n (high-IsScalar n h k)) (λ _. char 65533 tt))
          (λ _. char 65533 tt)

unfoldable pub from_codes : Text → String
unfolding to_char
from_codes [] = String.[]
from_codes (c ∷ cs) = String.◌∷◌ (to_char c) (from_codes cs)

low-to_char : (n : ℕ) → n < 55296 → code (to_char n) ≡ n
unfolding to_char
low-to_char n h = rw (dif_pos _ le_prop h) refl

high-to_char : (n : ℕ) → 57343 < n → n < 1114112 → code (to_char n) ≡ n
unfolding to_char
high-to_char n h k =
    let m : ¬ (n < 55296) = λ l. omega arith in
    rw (dif_neg _ m) (rw (dif_pos _ le_prop h) (rw (dif_pos _ le_prop k) refl))

IsScalar-ranges : (n : ℕ) → IsScalar n → (n < 55296) ⊎ ((57343 < n) × (n < 1114112))
IsScalar-ranges n p = ground arith

code-to_char : (c : Char) → code (to_char (code c)) ≡ code c
code-to_char (char n p) = elim (IsScalar-ranges n p) [
  | inl h ↦ low-to_char n h
  | inr (h, k) ↦ high-to_char n h k
]

pub from_codes-codes : (s : String) → from_codes (codes s) ≡ s
unfolding from_codes
from_codes-codes String.[] = refl
from_codes-codes (String.◌∷◌ c s) =
    ap₂ String.◌∷◌ (Char-path _ c (code-to_char c)) (from_codes-codes s)

-- Characters below the surrogates.
pub codes-from_codes : (t : Text) → All (λ c. c < 55296) t → codes (from_codes t) ≡ t
unfolding from_codes
codes-from_codes [] h = refl
codes-from_codes (c ∷ t) h = ap₂ ◌∷◌ (low-to_char c h.0) (codes-from_codes t h.1)
