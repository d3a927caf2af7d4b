-- ===== src/Sanitizer/Accepted.antt =====
-- The shape of an id that sanitizer.go accepts.
use mathlib.Core.List.{append_assoc}
use secure_store.Prelude.{
  Bool, List, String, [], all, all-append, ap, arith, codes, leb, nat_eq, refl, sym, true, ℕ, ◌&&◌,
  ◌++◌, ◌||◌, ◌∙◌, ◌∷◌, ◌≡◌,
}
use secure_store.Regexp.{Matches, class, in_class, plus}
use secure_store.Regexp.Correct.{class_inv, match_all_iff, seq_inv}
use secure_store.Regexp.Within.{Matches-within, within}
use secure_store.Sanitizer.{lower, match_string, new_matcher, regex_exp}

unfoldable pub id_char : ℕ → Bool
id_char c = (leb b'a' c && leb c b'z') || (leb b'0' c && leb c b'9') || nat_eq c b'-'

pub match_string-id_char :
    (inp : String) → match_string new_matcher inp ≡ true → all id_char (codes inp) ≡ true
unfolding match_string new_matcher within id_char
match_string-id_char inp h = Matches-within id_char ((match_all_iff regex_exp (codes inp)).0 h) refl

unfoldable pub small_letter : ℕ → Bool
small_letter c = leb b'a' c && leb c b'z'

-- One character that a part of the pattern takes first, and the rest.
plus_first :
    {rs : List (ℕ × ℕ)} {zs : List ℕ}
    → Matches (plus (class rs)) zs
    → (c : ℕ) × (xs : List ℕ) × (zs ≡ c ∷ xs) × (in_class rs c ≡ true)
plus_first m =
    let (xs, ys, p, first, rest) = seq_inv m in
    let (c, q, h) = class_inv first in (c, ys, p ∙ ap (λ x. x ++ ys) q, h)

split_last :
    (c : ℕ) (xs : List ℕ)
    → all small_letter (c ∷ xs) ≡ true
    → (ys : List ℕ) × (l : ℕ) × (c ∷ xs ≡ ys ++ (l ∷ [])) × (small_letter l ≡ true)
split_last c [] h = ([], c, refl, ground arith)
split_last c (x ∷ xs) h =
    let (ys, l, e, k) = split_last x xs (ground arith) in (c ∷ ys, l, ap (◌∷◌ c) e, k)

plus_last :
    {zs : List ℕ}
    → Matches (plus lower) zs
    → (ys : List ℕ) × (l : ℕ) × (zs ≡ ys ++ (l ∷ [])) × (small_letter l ≡ true)
unfolding within small_letter
plus_last m =
    let (c, xs, e, h) = plus_first m in
    let letters = Matches-within small_letter m refl in
    let (ys, l, q, k) = split_last c xs (ap (all small_letter) (sym e) ∙ letters) in
    (ys, l, e ∙ q, k)

parts_joined :
    (us ws ys : List ℕ) {zs xs rest vs : List ℕ} (c l : ℕ)
    → zs ≡ xs ++ rest
    → xs ≡ c ∷ ys
    → rest ≡ us ++ vs
    → vs ≡ ws ++ (l ∷ [])
    → zs ≡ c ∷ ((ys ++ (us ++ ws)) ++ (l ∷ []))
parts_joined us ws ys c l p e q f =
    let inner : us ++ (ws ++ (l ∷ [])) ≡ (us ++ ws) ++ (l ∷ []) =
      sym (append_assoc us ws (l ∷ [])) in
    let outer = ap (λ x. ys ++ x) inner ∙ sym (append_assoc ys (us ++ ws) (l ∷ [])) in
    p ∙ rw e (rw q (rw f (ap (◌∷◌ c) outer)))

-- An id that the sanitizer accepts has at least two characters, begins and ends with a small
-- letter, and has only small letters, digits and hyphens between them.
pub match_string-ends :
    (inp : String)
    → match_string new_matcher inp ≡ true
    → (first : ℕ) × (middle : List ℕ) × (last : ℕ) × (codes inp ≡ first ∷ (middle ++ (last ∷ [])))
      × (small_letter first ≡ true)
      × (all id_char middle ≡ true)
      × (small_letter last ≡ true)
unfolding match_string new_matcher regex_exp small_letter in_class
match_string-ends inp h =
    let (xs, rest, p, m1, m2) = seq_inv ((match_all_iff regex_exp (codes inp)).0 h) in
    let (us, vs, q, m3, m4) = seq_inv m2 in
    let (c, ys, e, k) = plus_first m1 in
    let (ws, l, f, j) = plus_last m4 in
    let shape : codes inp ≡ c ∷ ((ys ++ (us ++ ws)) ++ (l ∷ [])) =
      parts_joined us ws ys c l p e q f in
    let chars = match_string-id_char inp h in
    (
      c,
      ys ++ (us ++ ws),
      l,
      shape,
      ground arith,
      ground (
        arith,
        all-append id_char (ys ++ (us ++ ws)) (l ∷ []),
        ap (all id_char) (sym shape) ∙ chars,
      ),
      j,
    )
