-- ===== src/Access/Memory/Entries.antt =====
-- The entries of the lists of goroutines.
use secure_store.Access.{AKey}
use secure_store.Prelude.{List, [], inl, inr, refl, ◌++◌, ◌∷◌, ◌≡◌, ◌⊎◌}

abbrev pub In : AKey → List AKey → Type 0
In k [] = ⊥
In k (x ∷ xs) = (x ≡ k) ⊎ In k xs

-- What is left of a list from which one entry was taken.
pub In-taken : (k x : AKey) (xs ys : List AKey) → In k (xs ++ (x ∷ ys)) → (x ≡ k) ⊎ In k (xs ++ ys)
In-taken k x [] ys i = i
In-taken k x (z ∷ xs) ys (inl e) = inr (inl e)
In-taken k x (z ∷ xs) ys (inr i) = elim (In-taken k x xs ys i) [
  | inl e ↦ inl e
  | inr j ↦ inr (inr j)
]

pub In-kept : (k x : AKey) (xs ys : List AKey) → In k (xs ++ ys) → In k (xs ++ (x ∷ ys))
In-kept k x [] ys i = inr i
In-kept k x (z ∷ xs) ys (inl e) = inl e
In-kept k x (z ∷ xs) ys (inr i) = inr (In-kept k x xs ys i)

pub In-middle : (k : AKey) (xs ys : List AKey) → In k (xs ++ (k ∷ ys))
In-middle k [] ys = inl refl
In-middle k (x ∷ xs) ys = inr (In-middle k xs ys)
