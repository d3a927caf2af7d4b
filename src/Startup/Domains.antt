-- ===== src/Startup/Domains.antt =====
-- The domains of main.go: `strings.Split` at commas, and the filter behind it.
use secure_store.Prelude.{
  All, Bool-cases, List, [], ap, false, if◌then◌else◌, inl, inr, nat_eq, refl, true, ℕ, ◌++◌, ◌∙◌,
  ◌∷◌, ◌≡◌,
}
use secure_store.Text.{Text}
use secure_store.Url.{is_nil, lacks}

abbrev onto_piece : ℕ → List Text → List Text
onto_piece c [] = (c ∷ []) ∷ []
onto_piece c (p ∷ ps) = (c ∷ p) ∷ ps

unfoldable pub split : ℕ → Text → List Text
split c [] = [] ∷ []
split c (x ∷ xs) = let rest = split c xs in if nat_eq x c then [] ∷ rest else onto_piece x rest

abbrev non_empty : List Text → List Text
non_empty [] = []
non_empty ([] ∷ ds) = non_empty ds
non_empty ((c ∷ d) ∷ ds) = (c ∷ d) ∷ non_empty ds

unfoldable pub domains_filtered : Text → List Text
unfolding split
domains_filtered domains_string = non_empty (split b',' domains_string)

abbrev pub joined : List Text → Text
joined [] = []
joined (d ∷ ds) = d ++ joined ds

unfoldable pub without : ℕ → Text → Text
without c [] = []
without c (x ∷ xs) = let rest = without c xs in if nat_eq x c then rest else x ∷ rest

-- A domain: a text that is not empty and has no comma.
pub IsDomain : Text → Type 0
IsDomain d = (is_nil d ≡ false) × (lacks b',' d ≡ true)

Lacks : ℕ → Text → Type 0
Lacks c d = lacks c d ≡ true

onto_piece-All :
    (c x : ℕ) (ps : List Text)
    → nat_eq x c ≡ false
    → All (Lacks c) ps
    → All (Lacks c) (onto_piece x ps)
unfolding Lacks
onto_piece-All c x [] n h = (rw n refl, tt)
onto_piece-All c x (p ∷ ps) n (h, t) = (rw n h, t)

split-All : (c : ℕ) (t : Text) → All (Lacks c) (split c t)
unfolding split Lacks
split-All c [] = (refl, tt)
split-All c (x ∷ xs) = elim (Bool-cases (nat_eq x c)) [
  | inl e ↦ rw e (refl, split-All c xs)
  | inr n ↦ rw n (onto_piece-All c x (split c xs) n (split-All c xs))
]

joined-onto_piece : (x : ℕ) (ps : List Text) → joined (onto_piece x ps) ≡ x ∷ joined ps
joined-onto_piece x [] = refl
joined-onto_piece x (p ∷ ps) = refl

joined-split : (c : ℕ) (t : Text) → joined (split c t) ≡ without c t
unfolding split without
joined-split c [] = refl
joined-split c (x ∷ xs) = elim (Bool-cases (nat_eq x c)) [
  | inl e ↦ rw e (joined-split c xs)
  | inr n ↦ rw n (joined-onto_piece x (split c xs) ∙ ap (◌∷◌ x) (joined-split c xs))
]

non_empty-IsDomain : (ds : List Text) → All (Lacks b',') ds → All IsDomain (non_empty ds)
unfolding IsDomain Lacks
non_empty-IsDomain [] h = tt
non_empty-IsDomain ([] ∷ ds) (h, t) = non_empty-IsDomain ds t
non_empty-IsDomain ((c ∷ d) ∷ ds) (h, t) = ((refl, h), non_empty-IsDomain ds t)

joined-non_empty : (ds : List Text) → joined (non_empty ds) ≡ joined ds
joined-non_empty [] = refl
joined-non_empty ([] ∷ ds) = joined-non_empty ds
joined-non_empty ((c ∷ d) ∷ ds) = ap (λ t. c ∷ (d ++ t)) (joined-non_empty ds)

-- The domains that main.go takes from DOMAINS are not empty and have no comma, and put together
-- they are the text of DOMAINS without its commas.
pub domains_filtered-IsDomain :
    (t : Text) → All IsDomain (domains_filtered t) × (joined (domains_filtered t) ≡ without b',' t)
unfolding domains_filtered
domains_filtered-IsDomain t = (
  non_empty-IsDomain (split b',' t) (split-All b',' t),
  joined-non_empty (split b',' t) ∙ joined-split b',' t,
)
