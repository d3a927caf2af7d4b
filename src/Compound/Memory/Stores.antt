-- ===== src/Compound/Memory/Stores.antt =====
-- `CompoundStore` over the three stores in memory, and the tables that it holds.
use secure_store.Compound
use secure_store.Metadata.Memory as MetadataMemory
use secure_store.Security.Memory as SecurityMemory
use secure_store.Storage.Memory as StorageMemory
use secure_store.Metadata.Memory.Refinement as MetadataRefinement
use secure_store.Security.Memory.Refinement as SecurityRefinement
use secure_store.Storage.Memory.Refinement as StorageRefinement
use secure_store.Compound.{CompoundStore}
use secure_store.Effects.{Exec}
use secure_store.Effects.Reader.{Bytes, Reader}
use secure_store.Metadata.{Metadata}
use secure_store.ObjectTable.{Table}
use secure_store.Prelude.{String}
use secure_store.Prelude.Eq.{bytes_Eq, string_Eq}
use secure_store.Security.{EncryptionKey}

abbrev pub MemoryCompound : Type 0
MemoryCompound =
    CompoundStore MetadataMemory.MemoryStore SecurityMemory.MemorySecurityStore
      StorageMemory.MemoryStorage

module _ (c : MemoryCompound) where
  abbrev pub metas : Table Metadata
  metas = MetadataRefinement.meta_table c.metadata

  abbrev pub encryption_keys : Table EncryptionKey
  encryption_keys = SecurityRefinement.key_table c.security

  abbrev pub objects : Table Bytes
  objects = StorageRefinement.table c.storage

module _ (encrypt : Bytes → Bytes → Bytes) where
  abbrev pub new_bucket : String → Exec MemoryCompound (Unit {0})
  new_bucket =
      Compound.new_bucket encrypt MetadataMemory.memory_store SecurityMemory.memory_security_store
        StorageMemory.memory_storage

  abbrev pub write :
      String → String → Metadata → EncryptionKey → Reader → Exec MemoryCompound (Unit {0})
  write =
      Compound.write encrypt MetadataMemory.memory_store SecurityMemory.memory_security_store
        StorageMemory.memory_storage

  abbrev pub delete : String → String → Exec MemoryCompound (Unit {0})
  delete =
      Compound.delete encrypt MetadataMemory.memory_store SecurityMemory.memory_security_store
        StorageMemory.memory_storage

  abbrev pub delete_bucket : String → Exec MemoryCompound (Unit {0})
  delete_bucket =
      Compound.delete_bucket encrypt MetadataMemory.memory_store
        SecurityMemory.memory_security_store StorageMemory.memory_storage

-- What `main` starts with.
unfoldable pub new_compound : MemoryCompound
new_compound = record {
  metadata = MetadataMemory.new_memory_store;
  security = SecurityMemory.new_memory_security_store;
  storage = StorageMemory.new_memory_storage;
}
