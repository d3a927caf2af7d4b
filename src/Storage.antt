-- ===== src/Storage.antt =====
-- storage/storage.go: the interface `Storage`, over the type of the objects that implement it, and
-- its two implementations, storage/memory.go and storage/fs.go.
pub mod Memory
pub mod Fs
use secure_store.Effects.{Exec}
use secure_store.Effects.Reader.{Reader}
use secure_store.Prelude.{List, String}

pub record Storage (S : Type 0) : Type 0 where
  pub new_bucket : String → Exec S (Unit {0})
  pub write : String → String → Reader → Exec S (Unit {0})
  pub read : String → String → Exec S Reader
  pub delete : String → String → Exec S (Unit {0})
  pub delete_bucket : String → Exec S (Unit {0})
  pub list_buckets : Exec S (List String)
