-- ===== src/Compound/Memory/History.antt =====
-- Histories of calls on the `CompoundStore` of storeend.go over stores in memory.
use secure_store.Metadata.Memory as MetadataMemory
use secure_store.Security.Memory as SecurityMemory
use secure_store.Storage.Memory as StorageMemory
use secure_store.Cipher.{valid_key_size}
use secure_store.Cipher.RoundTrip.{create_stream_reader-ok}
use secure_store.Compound.Memory.Consistent.{
  Consistent, delete-Consistent, delete_bucket-Consistent, new_bucket-Consistent, write-Consistent,
}
use secure_store.Compound.Memory.Stores.{
  MemoryCompound, delete, delete_bucket, new_bucket, new_compound, write,
}
use secure_store.Effects.{ok}
use secure_store.Effects.Reader.{Bytes, Reader, read_all}
use secure_store.GoMap.{get, has}
use secure_store.Metadata.{Metadata}
use secure_store.ObjectTable.Nested.{lookup}
use secure_store.Prelude.{All, List, String, [], refl, true, ◌∷◌, ◌≡◌}
use secure_store.Prelude.Eq.{bytes_Eq, string_Eq}
use secure_store.Security.{EncryptionKey}

-- The calls that change a `CompoundStore`.
pub data Call : Type 0 where
  creates drops : String → Call
  writes : String → String → Metadata → EncryptionKey → Reader → Call
  deletes : String → String → Call

-- The data of every upload can be read to its end, and the keys are of a length that AES takes.
abbrev pub CanRead : Call → Type 0
CanRead (writes b k meta key r) =
    (valid_key_size key.key ≡ true) × ((plain : Bytes) × (read_all r ≡ ok plain))
CanRead _ = Unit

module _ (encrypt : Bytes → Bytes → Bytes) where
  unfoldable pub step : Call → MemoryCompound → MemoryCompound
  step (creates b) c = (new_bucket encrypt b c).1
  step (drops b) c = (delete_bucket encrypt b c).1
  step (writes b k meta key r) c = (write encrypt b k meta key r c).1
  step (deletes b k) c = (delete encrypt b k c).1

  unfoldable pub run : List Call → MemoryCompound → MemoryCompound
  unfolding step
  run [] c = c
  run (x ∷ xs) c = run xs (step x c)

  step-Consistent :
      (x : Call) (c : MemoryCompound) → CanRead x → Consistent c → Consistent (step x c)
  unfolding step
  step-Consistent (creates b) c q h = new_bucket-Consistent encrypt c h b
  step-Consistent (drops b) c q h = delete_bucket-Consistent encrypt c h b
  step-Consistent (deletes b k) c q h = delete-Consistent encrypt c h b k
  step-Consistent (writes b k meta key r) c (v, (plain, p)) h =
      let (kept, e) = create_stream_reader-ok encrypt key.key r plain v p in
      write-Consistent encrypt c h b k meta key r kept e

  -- After any history of calls on the compound of the stores in memory, failing calls included,
  -- in which the key of every upload has a length that AES takes and its data can be read to the
  -- end: if the three stores had the same buckets and keys before, then they have the same
  -- buckets and the same keys after.
  pub run-Consistent :
      (xs : List Call) (c : MemoryCompound) → All CanRead xs → Consistent c → Consistent (run xs c)
  unfolding run
  run-Consistent [] c q h = h
  run-Consistent (x ∷ xs) c q h = run-Consistent xs (step x c) q.1 (step-Consistent x c q.0 h)

pub new_compound-Consistent : Consistent new_compound
unfolding new_compound MetadataMemory.new_memory_store SecurityMemory.new_memory_security_store
    StorageMemory.new_memory_storage has lookup get
new_compound-Consistent = record {
  keys_buckets = λ b. refl;
  objects_buckets = λ b. refl;
  keys_objects = λ b k. refl;
  objects_objects = λ b k. refl;
}
