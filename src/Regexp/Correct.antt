-- ===== src/Regexp/Correct.antt =====
-- `match_all` against `Matches`.
use secure_store.Prelude.{
  Bool-cases, List, [], ap, arith, inl, inr, refl, sym, true, ℕ, ◌++◌, ◌↔◌, ◌∙◌, ◌∷◌, ◌≡◌, ◌⊎◌,
}
use secure_store.Regexp.{
  Matches, Regexp, again, alt, both, class, derivative, empty, fail, in_class, left, match_all,
  nothing, nullable, one, right, seq, star, stop,
}

append_nil_parts : (xs ys : List ℕ) → [] ≡ xs ++ ys → (xs ≡ []) × (ys ≡ [])
append_nil_parts [] ys e = (refl, sym e)
append_nil_parts (x ∷ xs) ys e = cc

nullable-Matches : (r : Regexp) → nullable r ≡ true → Matches r []
unfolding nullable
nullable-Matches fail h = cc
nullable-Matches empty h = nothing
nullable-Matches (class rs) h = cc
nullable-Matches (seq r s) h =
    both [] [] refl (nullable-Matches r (ground arith)) (nullable-Matches s (ground arith))
nullable-Matches (alt r s) h = elim (Bool-cases (nullable r)) [
  | inl p ↦ left (nullable-Matches r p)
  | inr p ↦ right (nullable-Matches s (ground arith))
]
nullable-Matches (star r) h = stop

Matches-nullable : {r : Regexp} {xs : List ℕ} → Matches r xs → xs ≡ [] → nullable r ≡ true
unfolding nullable
Matches-nullable nothing e = refl
Matches-nullable (one c h) e = cc
Matches-nullable (both xs ys p m n) e =
    let (ex, ey) = append_nil_parts xs ys (sym e ∙ p) in
    ground (arith, Matches-nullable m ex, Matches-nullable n ey)
Matches-nullable (left m) e = ground (arith, Matches-nullable m e)
Matches-nullable (right m) e = ground (arith, Matches-nullable m e)
Matches-nullable stop e = refl
Matches-nullable (again xs ys p m n) e = refl

fail_inv : {s : List ℕ} → ¬ Matches fail s
fail_inv m = elim m [ ]

empty_inv : {s : List ℕ} → Matches empty s → s ≡ []
empty_inv nothing = refl

alt_inv : {r s : Regexp} {xs : List ℕ} → Matches (alt r s) xs → Matches r xs ⊎ Matches s xs
alt_inv (left m) = inl m
alt_inv (right m) = inr m

pub seq_inv :
    {r s : Regexp} {zs : List ℕ}
    → Matches (seq r s) zs
    → (xs : List ℕ) × (ys : List ℕ) × (zs ≡ xs ++ ys) × Matches r xs × Matches s ys
seq_inv (both xs ys p m n) = (xs, ys, p, m, n)

pub class_inv :
    {rs : List (ℕ × ℕ)} {xs : List ℕ}
    → Matches (class rs) xs
    → (c : ℕ) × (xs ≡ c ∷ []) × (in_class rs c ≡ true)
class_inv (one c h) = (c, refl, h)

derivative-Matches :
    (c : ℕ) (r : Regexp) (s : List ℕ) → Matches (derivative c r) s → Matches r (c ∷ s)
unfolding derivative
derivative-Matches c fail s m = absurd (fail_inv m)
derivative-Matches c empty s m = absurd (fail_inv m)
derivative-Matches c (class rs) s m = elim (Bool-cases (in_class rs c)) [
  | inl h ↦ rw (empty_inv (rw h at m)) (one c h)
  | inr h ↦ absurd (fail_inv (rw h at m))
]
derivative-Matches c (seq r q) s m = elim (Bool-cases (nullable r)) [
  | inl h ↦ elim (alt_inv (rw h at m)) [
    | inl a ↦
        let (xs, ys, p, a1, a2) = seq_inv a in
        both (c ∷ xs) ys (ap (◌∷◌ c) p) (derivative-Matches c r xs a1) a2
    | inr b ↦ both [] (c ∷ s) refl (nullable-Matches r h) (derivative-Matches c q s b)
  ]
  | inr h ↦
      let (xs, ys, p, a1, a2) = seq_inv (rw h at m) in
      both (c ∷ xs) ys (ap (◌∷◌ c) p) (derivative-Matches c r xs a1) a2
]
derivative-Matches c (alt r q) s m = elim (alt_inv m) [
  | inl a ↦ left (derivative-Matches c r s a)
  | inr b ↦ right (derivative-Matches c q s b)
]
derivative-Matches c (star r) s m =
    let (xs, ys, p, a1, a2) = seq_inv m in
    again (c ∷ xs) ys (ap (◌∷◌ c) p) (derivative-Matches c r xs a1) a2

-- A sequence may start with its first part or, if that may be empty, with its second.
seq_onward :
    (c : ℕ) (r q : Regexp) {s : List ℕ}
    → Matches (seq (derivative c r) q) s
    → Matches (derivative c (seq r q)) s
unfolding derivative
seq_onward c r q m = elim (Bool-cases (nullable r)) [ inl h ↦ rw h (left m) | inr h ↦ rw h m ]

seq_skip :
    (c : ℕ) (r q : Regexp) {s : List ℕ}
    → nullable r ≡ true
    → Matches (derivative c q) s
    → Matches (derivative c (seq r q)) s
unfolding derivative
seq_skip c r q h m = rw h (right m)

class_onward :
    (c d : ℕ) (rs : List (ℕ × ℕ)) (s : List ℕ)
    → in_class rs d ≡ true
    → d ∷ [] ≡ c ∷ s
    → Matches (derivative c (class rs)) s
unfolding derivative
class_onward c d rs [] h e = let h' : in_class rs c ≡ true = cc in rw h' nothing
class_onward c d rs (x ∷ s) h e = cc

Matches-derivative :
    (c : ℕ) {r : Regexp} {xs : List ℕ} (s : List ℕ)
    → Matches r xs
    → xs ≡ c ∷ s
    → Matches (derivative c r) s
unfolding derivative
Matches-derivative c s nothing e = cc
Matches-derivative c s (one {rs} d h) e = class_onward c d rs s h e
Matches-derivative c s (both [] ys p m n) e =
    seq_skip c _ _ (Matches-nullable m refl) (Matches-derivative c s n (sym p ∙ e))
Matches-derivative c s (both (x ∷ xs) ys p m n) e =
    seq_onward c _ _ (both xs ys (cc) (Matches-derivative c xs m (cc)) n)
Matches-derivative c s (left m) e = left (Matches-derivative c s m e)
Matches-derivative c s (right m) e = right (Matches-derivative c s m e)
Matches-derivative c s stop e = cc
Matches-derivative c s (again [] ys p m n) e = Matches-derivative c s n (sym p ∙ e)
Matches-derivative c s (again (x ∷ xs) ys p m n) e =
    both xs ys (cc) (Matches-derivative c xs m (cc)) n

-- `match_all` answers yes exactly on the texts that the expression describes, for every
-- expression built of classes, sequences, alternatives and repetitions.
pub match_all_iff : (r : Regexp) (s : List ℕ) → (match_all r s ≡ true) ↔ Matches r s
unfolding match_all
match_all_iff r [] = (nullable-Matches r, λ m. Matches-nullable m refl)
match_all_iff r (c ∷ s) =
    let (sound, complete) = match_all_iff (derivative c r) s in
    (λ h. derivative-Matches c r s (sound h), λ m. complete (Matches-derivative c s m refl))
