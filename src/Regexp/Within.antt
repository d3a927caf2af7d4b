-- ===== src/Regexp/Within.antt =====
-- The characters that a text which matches can hold.
use secure_store.Prelude.{
  Bool, Bool-cases, List, [], all, all-append, arith, inl, inr, nat_eq, nat_eq_iff, refl, subst,
  suc, true, zero, ℕ, ◌&&◌, ◌+◌, ◌-◌, ◌<◌, ◌∷◌, ◌≡◌, ◌≤◌,
}
use secure_store.Regexp.{
  Matches, Regexp, again, alt, both, class, empty, fail, in_class, left, nothing, one, right, seq,
  star, stop,
}

all_of : (ℕ → Bool) → ℕ → ℕ → Bool
all_of p lo zero = true
all_of p lo (suc n) = p lo && all_of p (suc lo) n

-- Every character of every class of the expression passes the test.
unfoldable pub within : (ℕ → Bool) → Regexp → Bool
unfolding all_of
within p fail = true
within p empty = true
within p (class []) = true
within p (class ((lo, hi) ∷ rs)) = all_of p lo (suc hi - lo) && within p (class rs)
within p (seq r s) = within p r && within p s
within p (alt r s) = within p r && within p s
within p (star r) = within p r

all_of_sound : (p : ℕ → Bool) (lo n c : ℕ) → all_of p lo n ≡ true → lo ≤ c → c < lo + n → p c ≡ true
unfolding all_of
all_of_sound p lo zero c h a b = absurd (omega arith)
all_of_sound p lo (suc n) c h a b = elim (Bool-cases (nat_eq lo c)) [
  | inl e ↦ subst (λ x. p x ≡ true) ((nat_eq_iff lo c).0 e) (ground arith)
  | inr e ↦ all_of_sound p (suc lo) n c (ground arith) (ground arith) (omega arith)
]

class_within :
    (p : ℕ → Bool) (rs : List (ℕ × ℕ)) (c : ℕ)
    → within p (class rs) ≡ true
    → in_class rs c ≡ true
    → p c ≡ true
unfolding within in_class
class_within p [] c w h = cc
class_within p ((lo, hi) ∷ rs) c w h =
    ground (arith, all_of_sound p lo (suc hi - lo) c, class_within p rs c)

pub Matches-within :
    (p : ℕ → Bool) {r : Regexp} {xs : List ℕ} → Matches r xs → within p r ≡ true → all p xs ≡ true
unfolding within
Matches-within p nothing w = refl
Matches-within p (one {rs} c h) w = ground (arith, class_within p rs c w h)
Matches-within p (both xs ys e m n) w =
    rw (e, all-append) (ground (arith, Matches-within p m, Matches-within p n))
Matches-within p (left m) w = Matches-within p m (ground arith)
Matches-within p (right m) w = Matches-within p m (ground arith)
Matches-within p stop w = refl
Matches-within p (again xs ys e m n) w =
    rw (e, all-append) (ground (arith, Matches-within p m w, Matches-within p n w))
