-- ===== src/Security/Memory/Refinement.antt =====
-- Each method of `MemorySecurityStore` (security/memory.go) against the table of objects.
use secure_store.ObjectTable
use secure_store.Effects.{Outcome, ok}
use secure_store.GoMap.{get, has}
use secure_store.ObjectTable.{Agrees, Table}
use secure_store.ObjectTable.Nested.{
  SameTable-delete, SameTable-delete_bucket, SameTable-new_bucket, SameTable-refl, SameTable-store,
  has-none, has-some, lookup-some, view,
}
use secure_store.Prelude.{Bool-cases, Option-cases, String, inl, inr, refl, ◌≡◌}
use secure_store.Prelude.Eq.{bytes_Eq, string_Eq}
use secure_store.Security.{EncryptionKey}
use secure_store.Security.Memory.{
  MemorySecurityStore, delete_bucket, delete_key, new_bucket, read_key, write_key,
}

abbrev pub key_table : MemorySecurityStore → Table EncryptionKey
key_table m = view m.i

abbrev pub shown {ℓ} :
    {A : Type ℓ} → Outcome A × MemorySecurityStore → Outcome A × Table EncryptionKey
shown r = (r.0, key_table r.1)

pub new_bucket-Agrees :
    (bucket : String) (m : MemorySecurityStore)
    → Agrees (shown (new_bucket bucket m)) (ObjectTable.new_bucket bucket (key_table m))
unfolding new_bucket
new_bucket-Agrees bucket m = elim (Option-cases (get bucket m.i)) [
  | inl e ↦ rw (has-none bucket m.i e) (refl, SameTable-new_bucket bucket m.i e)
  | inr (inner, e) ↦ rw (has-some bucket m.i e) (refl, SameTable-refl _)
]

-- `write_key` returns, on every branch, the result that the table of objects prescribes for an
-- insertion, and leaves the table that it prescribes.
pub write_key-Agrees :
    (bucket key : String) (k : EncryptionKey) (m : MemorySecurityStore)
    → Agrees (shown (write_key bucket key k m)) (ObjectTable.insert bucket key (ok k) (key_table m))
unfolding write_key has ObjectTable.stored
write_key-Agrees bucket key k m = elim (Option-cases (get bucket m.i)) [
  | inl e ↦ rw (e, write_key) (refl, SameTable-refl _)
  | inr (inner, e) ↦ rw (lookup-some bucket m.i key e) (
      rw (e, write_key)
        (elim (Option-cases (get key inner)) [
          | inl n ↦ rw n (refl, unfold has in SameTable-store bucket m.i key k inner e)
          | inr (v, h) ↦ rw h (refl, SameTable-refl _)
        ]))
]

pub read_key-Agrees :
    (bucket key : String) (m : MemorySecurityStore)
    → ((read_key bucket key m).0 ≡ ObjectTable.find bucket key (key_table m))
      × ((read_key bucket key m).1 ≡ m)
unfolding read_key has
read_key-Agrees bucket key m = elim (Option-cases (get bucket m.i)) [
  | inl e ↦ rw (e, read_key) (refl, refl)
  | inr (inner, e) ↦ rw (lookup-some bucket m.i key e) (
      rw (e, read_key)
        (elim (Option-cases (get key inner)) [
          | inl n ↦ rw n (refl, refl)
          | inr (v, h) ↦ rw h (refl, refl)
        ]))
]

-- `delete_key` of the security store returns, on every branch, the result that the table of
-- objects prescribes for a deletion, and leaves the table that it prescribes.
pub delete_key-Agrees :
    (bucket key : String) (m : MemorySecurityStore)
    → Agrees (shown (delete_key bucket key m)) (ObjectTable.delete bucket key (key_table m))
unfolding delete_key has
delete_key-Agrees bucket key m = elim (Option-cases (get bucket m.i)) [
  | inl e ↦ rw (e, delete_key) (refl, SameTable-refl _)
  | inr (inner, e) ↦ rw (lookup-some bucket m.i key e) (
      rw (e, delete_key)
        (elim (Option-cases (get key inner)) [
          | inl n ↦ rw n (refl, SameTable-refl _)
          | inr (v, h) ↦ rw h (refl, unfold has in SameTable-delete bucket m.i key inner e)
        ]))
]

pub delete_bucket-Agrees :
    (bucket : String) (m : MemorySecurityStore)
    → Agrees (shown (delete_bucket bucket m)) (ObjectTable.delete_bucket bucket (key_table m))
unfolding delete_bucket
delete_bucket-Agrees bucket m = elim (Bool-cases (has bucket m.i)) [
  | inl h ↦ rw h (refl, SameTable-delete_bucket bucket m.i)
  | inr n ↦ rw n (refl, SameTable-refl _)
]
