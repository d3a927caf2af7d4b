-- ===== src/Access/ByteSet.antt =====
-- The `HashSet` of access/access.go: a pointer to a struct with a map, which is the nil map if the
-- struct was made by `new(HashSet)` alone. An entry of a nil map reads as missing, and an
-- assignment to one panics.
use secure_store.Effects.{Outcome, ok, panic}
use secure_store.Effects.Reader.{Bytes}
use secure_store.GoMap.{GoMap, get-put, has, put, remove}
use secure_store.Prelude.{
  Bool, Option, Option-cases, [], arith, false, inl, inr, length, none, some, ℕ, ◌||◌, ◌≡◌,
}
use secure_store.Prelude.Eq.{bytes_Eq, string_Eq, ◌==◌}

abbrev pub sha512_size : ℕ
sha512_size = 64

pub record HashSet : Type 0 where
  pub set : Option (GoMap Bytes (Unit {0}))

unfoldable pub new_hash_set : HashSet
new_hash_set = record { set = some [] }

unfoldable pub insert : Bytes → HashSet → Outcome HashSet
insert obj m = elim m.set [
  | none ↦ panic
  | some set ↦ ok (record m { set = some (put obj tt set) })
]

unfoldable pub contains : Bytes → HashSet → Bool
contains obj m = elim m.set [ none ↦ false | some set ↦ has obj set ]

unfoldable pub delete : Bytes → HashSet → HashSet
delete obj m = elim m.set [ none ↦ m | some set ↦ record m { set = some (remove obj set) } ]

unfoldable pub size : HashSet → ℕ
size m = elim m.set [ none ↦ 0 | some set ↦ length set ]

-- After an `insert` that did not panic, the set contains the inserted element and what it
-- contained before, and nothing else.
pub contains-insert :
    (k j : Bytes) (m m' : HashSet) → insert k m ≡ ok m' → contains j m' ≡ (k == j || contains j m)
unfolding insert contains has
contains-insert k j m m' e = elim (Option-cases m.set) [
  | inl n ↦ ground arith
  | inr (set, p) ↦ ground (arith, get-put k j tt set)
]
