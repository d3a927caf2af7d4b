-- ===== src/Metadata.antt =====
-- metadata/metadata.go: the interface `MetadataStore`; metadata/memory.go is the child `Memory`.
-- The length is the `int64` that a request announces, -1 where it does not say.
pub mod Memory
pub mod Sql
use secure_store.Effects.{Exec}
use secure_store.Prelude.{List, String}
use secure_store.Prelude.Int.{ℤ}

pub record Metadata : Type 0 where
  pub length : ℤ
  pub filename : String

unfoldable pub new_metadata : ℤ → String → Metadata
new_metadata length filename = record { length = length; filename = filename }

pub record MetadataStore (S : Type 0) : Type 0 where
  pub new_bucket : String → Exec S (Unit {0})
  pub write : String → String → Metadata → Exec S (Unit {0})
  pub read : String → String → Exec S Metadata
  pub delete : String → String → Exec S (Unit {0})
  pub delete_bucket : String → Exec S (Unit {0})
  pub list_buckets : Exec S (List String)
