-- ===== src/Security.antt =====
-- security/security.go: the interface `SecurityStore` and the making of keys; security/memory.go
-- is the child `Memory`.
pub mod Memory
pub mod Keys
use secure_store.Effects.{Exec}
use secure_store.Effects.Reader.{Bytes}
use secure_store.Prelude.{String}

pub record EncryptionKey : Type 0 where
  pub key : Bytes

pub record SecurityStore (S : Type 0) : Type 0 where
  pub new_bucket : String → Exec S (Unit {0})
  pub write_key : String → String → EncryptionKey → Exec S (Unit {0})
  pub read_key : String → String → Exec S EncryptionKey
  pub delete_key : String → String → Exec S (Unit {0})
  pub delete_bucket : String → Exec S (Unit {0})
