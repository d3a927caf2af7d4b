-- ===== src/Compound/Memory.antt =====
-- The stores that main.go composes for MEM_STORAGE, the three in memory, and the contracts of
-- `Compound.Contract` for them.
pub mod Stores
pub mod Consistent
pub mod History
pub mod Failures
use secure_store.Metadata.Memory as MetadataMemory
use secure_store.Security.Memory as SecurityMemory
use secure_store.Storage.Memory as StorageMemory
use secure_store.Compound.Contract.{MetadataContract, SecurityContract, StorageContract}
use secure_store.Effects.{Outcome, err, ok, panic}
use secure_store.Effects.Reader.{Bytes, Reader, new_reader, read_all}
use secure_store.GoMap.{GoMap, get, get-put, put}
use secure_store.Metadata.{Metadata}
use secure_store.ObjectTable.{stored}
use secure_store.Prelude.{Option-cases, String, arith, inl, inr, refl, some, ◌≡◌}
use secure_store.Prelude.Eq.{bytes_Eq, string_Eq}
use secure_store.Security.{EncryptionKey}
use text.Mathlib.TextPositions.{eq_refl}

metadata_written :
    (b k : String) (meta : Metadata) (m m' : MetadataMemory.MemoryStore)
    → MetadataMemory.write b k meta m ≡ (ok tt, m')
    → MetadataMemory.read b k m' ≡ (ok meta, m')
unfolding MetadataMemory.write MetadataMemory.read
metadata_written b k meta m m' w = elim (Option-cases (get b m.i)) [
  | inl e ↦ ground arith
  | inr (inner, e) ↦
      ground
        (arith, get-put b b (put k meta inner) m.i, get-put k k meta inner, eq_refl b, eq_refl k)
]

pub memory_MetadataContract : MetadataContract MetadataMemory.memory_store
memory_MetadataContract = record { write_read = metadata_written }

key_written :
    (b k : String) (key : EncryptionKey) (m m' : SecurityMemory.MemorySecurityStore)
    → SecurityMemory.write_key b k key m ≡ (ok tt, m')
    → SecurityMemory.read_key b k m' ≡ (ok key, m')
unfolding SecurityMemory.write_key SecurityMemory.read_key
key_written b k key m m' w = elim (Option-cases (get b m.i)) [
  | inl e ↦ ground arith
  | inr (inner, e) ↦
      ground (arith, get-put b b (put k key inner) m.i, get-put k k key inner, eq_refl b, eq_refl k)
]

pub memory_SecurityContract : SecurityContract SecurityMemory.memory_security_store
memory_SecurityContract = record { write_read = key_written }

object_written :
    (b k : String) (r : Reader) (m m' : StorageMemory.MemoryStorage)
    → StorageMemory.write b k r m ≡ (ok tt, m')
    → (stored : Bytes) × (read_all r ≡ ok stored)
      × (StorageMemory.read b k m' ≡ (ok (new_reader stored), m'))
unfolding StorageMemory.write StorageMemory.read
object_written b k r m m' w = elim (Option-cases (get b m.i)) [
  | inl e ↦ ground arith
  | inr (inner, e) ↦ stored_as (read_all r) refl inner e
]
  where
    stored_as :
        (o : Outcome Bytes)
        → read_all r ≡ o
        → (inner : GoMap String Bytes) → get b m.i ≡ some inner
        → (stored : Bytes) × (read_all r ≡ ok stored)
          × (StorageMemory.read b k m' ≡ (ok (new_reader stored), m'))
    stored_as (ok d) q inner e = (
      d,
      q,
      ground (arith, get-put b b (put k d inner) m.i, get-put k k d inner, eq_refl b, eq_refl k),
    )
    stored_as (err x) q inner e = ground arith
    stored_as panic q inner e = ground arith

pub memory_StorageContract : StorageContract StorageMemory.memory_storage
memory_StorageContract = record { write_read = object_written }
