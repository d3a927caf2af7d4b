-- ===== src/Security/Memory.antt =====
-- security/memory.go. Every method holds the mutex from its first line to its return.
pub mod Refinement
use secure_store.Effects.{
  Exec, Outcome, bucket_already_exists, bucket_does_not_exist, err, object_already_exists,
  object_does_not_exists, ok,
}
use secure_store.GoMap.{get, has, put, remove}
use secure_store.ObjectTable.Nested.{Nested}
use secure_store.Prelude.{Option, String, [], if◌then◌else◌, none, some}
use secure_store.Prelude.Eq.{bytes_Eq, string_Eq}
use secure_store.Security.{EncryptionKey, SecurityStore}

pub record MemorySecurityStore : Type 0 where
  pub i : Nested EncryptionKey

unfoldable pub new_memory_security_store : MemorySecurityStore
new_memory_security_store = record { i = [] }

unfoldable pub new_bucket : String → Exec MemorySecurityStore (Unit {0})
new_bucket bucket m =
    if has bucket m.i
    then (err (bucket_already_exists bucket), m)
    else (ok tt, record m { i = put bucket [] m.i })

unfoldable pub write_key : String → String → EncryptionKey → Exec MemorySecurityStore (Unit {0})
write_key bucket_id key_id key m = elim (get bucket_id m.i) [
  | none ↦ (err (bucket_does_not_exist bucket_id), m)
  | some bucket ↦
      if has key_id bucket
      then (err (object_already_exists key_id), m)
      else (ok tt, record m { i = put bucket_id (put key_id key bucket) m.i })
]

found_key : String → Option EncryptionKey → Outcome EncryptionKey
found_key key_id none = err (object_does_not_exists key_id)
found_key key_id (some key) = ok key

unfoldable pub read_key : String → String → Exec MemorySecurityStore EncryptionKey
unfolding found_key
read_key bucket_id key_id m = elim (get bucket_id m.i) [
  | none ↦ (err (bucket_does_not_exist bucket_id), m)
  | some bucket ↦ (found_key key_id (get key_id bucket), m)
]

unfoldable pub delete_key : String → String → Exec MemorySecurityStore (Unit {0})
delete_key bucket_id key_id m = elim (get bucket_id m.i) [
  | none ↦ (err (bucket_does_not_exist bucket_id), m)
  | some bucket ↦
      if has key_id bucket
      then (ok tt, record m { i = put bucket_id (remove key_id bucket) m.i })
      else (err (object_does_not_exists key_id), m)
]

unfoldable pub delete_bucket : String → Exec MemorySecurityStore (Unit {0})
delete_bucket bucket m =
    if has bucket m.i
    then (ok tt, record m { i = remove bucket m.i })
    else (err (bucket_does_not_exist bucket), m)

-- `*MemorySecurityStore` as a `SecurityStore`
abbrev pub memory_security_store : SecurityStore MemorySecurityStore
memory_security_store = record {
  new_bucket = new_bucket;
  write_key = write_key;
  read_key = read_key;
  delete_key = delete_key;
  delete_bucket = delete_bucket;
}
