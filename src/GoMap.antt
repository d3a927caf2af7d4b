-- ===== src/GoMap.antt =====
-- Go's `map[K]V` as an association list without repeated keys. Reading a missing key gives
-- `none`, `delete` of a missing key does nothing, and the order in which `range` visits the keys,
-- which Go leaves open, is the order of the list.
use secure_store.Prelude.{
  Bool, List, Option, [], arith, if◌then◌else◌, is_some, none, refl, some, subst, ℕ, ◌+◌, ◌∷◌, ◌≡◌,
}
use secure_store.Prelude.Eq.{Eq, beq_refl, ◌==◌}

abbrev pub GoMap {ℓ κ} : Type ℓ → Type κ → Type (ℓ ⊔ κ)
GoMap K V = List (K × V)

module _ {ℓ κ} {K : Type ℓ} {V : Type κ} ⦃e : Eq K⦄ where
  unfoldable pub get : K → GoMap K V → Option V
  get k [] = none
  get k ((j, v) ∷ m) = if j == k then some v else get k m

  unfoldable pub remove : K → GoMap K V → GoMap K V
  remove k [] = []
  remove k ((j, v) ∷ m) = let rest = remove k m in if j == k then rest else (j, v) ∷ rest

  -- m[k] = v
  unfoldable pub put : K → V → GoMap K V → GoMap K V
  unfolding remove
  put k v m = (k, v) ∷ remove k m

  -- `_, ok := m[k]`
  unfoldable pub has : K → GoMap K V → Bool
  unfolding get
  has k m = is_some (get k m)

  pub get-remove :
      (k j : K) (m : GoMap K V) → get j (remove k m) ≡ (if k == j then none else get j m)
  unfolding get remove
  get-remove k j [] = ground arith
  get-remove k j ((i, v) ∷ m) =
      ground (arith, get-remove k j m, e.beq_iff i k, e.beq_iff i j, e.beq_iff k j)

  pub get-put :
      (k j : K) (v : V) (m : GoMap K V) → get j (put k v m) ≡ (if k == j then some v else get j m)
  unfolding get put
  get-put k j v m = ground (arith, get-remove k j m)

-- The keys that `range` visits.
abbrev pub keys {ℓ κ} : {K : Type ℓ} {V : Type κ} → GoMap K V → List K
keys [] = []
keys ((k, v) ∷ m) = k ∷ keys m

module _ {ℓ} {K : Type ℓ} ⦃e : Eq K⦄ where
  -- How often a key stands in a list of keys.
  abbrev pub occurrences : K → List K → ℕ
  occurrences k [] = 0
  occurrences k (j ∷ js) = (if j == k then 1 else 0) + occurrences k js

module _ {ℓ κ} {K : Type ℓ} {V : Type κ} ⦃e : Eq K⦄ where
  abbrev pub IsMap : GoMap K V → Type κ
  IsMap [] = Unit
  IsMap ((k, v) ∷ m) = (get k m ≡ none) × IsMap m

  pub remove-IsMap : (k : K) (m : GoMap K V) → IsMap m → IsMap (remove k m)
  unfolding remove
  remove-IsMap k [] h = tt
  remove-IsMap k ((j, v) ∷ m) h = ground (arith, remove-IsMap k m h.1, get-remove k j m)

  pub put-IsMap : (k : K) (v : V) (m : GoMap K V) → IsMap m → IsMap (put k v m)
  unfolding put
  put-IsMap k v m h = ground (arith, remove-IsMap k m h, get-remove k k m, beq_refl k)

  -- `range` visits each key once.
  pub occurrences-keys :
      (k : K) (m : GoMap K V) → IsMap m → occurrences k (keys m) ≡ (if has k m then 1 else 0)
  unfolding has get
  occurrences-keys k [] h = refl
  occurrences-keys k ((j, v) ∷ m) h = ground (
    arith,
    occurrences-keys k m h.1,
    e.beq_iff j k,
    λ (p : j ≡ k). subst (λ x. get x m ≡ none) p h.0,
  )
