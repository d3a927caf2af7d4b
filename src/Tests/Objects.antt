-- ===== src/Tests/Objects.antt =====
-- The stores of objects.
use secure_store.Compound
use secure_store.Compound.Memory.Stores
use secure_store.Compound.Memory.History
use secure_store.Metadata.Memory as MetadataMemory
use secure_store.Security.Memory as SecurityMemory
use secure_store.Storage.Memory as StorageMemory
use secure_store.Cipher.{create_stream_reader, valid_key_size}
use secure_store.Cipher.RoundTrip.{decrypt-encrypt}
use secure_store.Compound.Memory.{
  memory_MetadataContract, memory_SecurityContract, memory_StorageContract,
}
use secure_store.Compound.Memory.Consistent.{Consistent, new_bucket-Consistent, write-Consistent}
use secure_store.Compound.Memory.Failures.{write_aborted, write_existing}
use secure_store.Compound.Memory.History.{new_compound-Consistent, run-Consistent}
use secure_store.Compound.Memory.Stores.{
  MemoryCompound, encryption_keys, metas, new_compound, objects,
}
use secure_store.Compound.RoundTrip.{read-write}
use secure_store.Effects.{Outcome, err, external, object_already_exists, ok}
use secure_store.Effects.Reader.{Bytes, Reader, new_reader, read_all}
use secure_store.GoMap.{has, put}
use secure_store.Metadata.{Metadata}
use secure_store.ObjectTable.{SameTable}
use secure_store.ObjectTable.Nested.{lookup}
use secure_store.Prelude.{
  All, List, [], false, is_some, length, none, refl, some, true, ℕ, ◌∷◌, ◌≡◌,
}
use secure_store.Prelude.Eq.{bytes_Eq, string_Eq}
use secure_store.Prelude.Int.{pos}
use secure_store.Security.Keys.{
  fill_buffer, make, new_encryption_key, valid_key_size-new_encryption_key,
}
use secure_store.Tests.Samples.{
  a_key, a_metadata, broken_body, bytes_of, one_block, one_block-IsByte, repeat, sent_bytes,
  upload_body, with_bucket, with_object,
}

abbrev history : List History.Call
history =
    History.creates "ab"
    ∷ History.writes "ab" "cd" a_metadata a_key upload_body
    ∷ History.deletes "ab" "x"
    ∷ []

abbrev other_metadata : Metadata
other_metadata = record { length = pos 9; filename = "other" }

pub write_succeeds :
    Stores.write one_block "ab" "cd" a_metadata a_key upload_body with_bucket ≡ (ok tt, with_object)
unfolding Compound.write Compound.new_bucket new_compound MetadataMemory.write
    SecurityMemory.write_key StorageMemory.write MetadataMemory.new_bucket SecurityMemory.new_bucket
    StorageMemory.new_bucket has put lookup create_stream_reader read_all
    MetadataMemory.new_memory_store SecurityMemory.new_memory_security_store
    StorageMemory.new_memory_storage
write_succeeds = refl

-- What the two stores have.
held_objects :
    ((metas with_bucket).bucket "zz" ≡ false)
    × ((metas with_bucket).bucket "ab" ≡ true)
    × ((metas with_bucket).object "ab" "cd" ≡ none)
    × ((metas with_object).bucket "ab" ≡ true)
    × (is_some ((metas with_object).object "ab" "cd") ≡ true)
unfolding Compound.write Compound.new_bucket new_compound MetadataMemory.write
    SecurityMemory.write_key StorageMemory.write MetadataMemory.new_bucket SecurityMemory.new_bucket
    StorageMemory.new_bucket has put lookup create_stream_reader read_all
    MetadataMemory.new_memory_store SecurityMemory.new_memory_security_store
    StorageMemory.new_memory_storage
held_objects = (refl, refl, refl, refl, refl)

read-write_example :
    (out : Reader) × (Compound.read one_block MetadataMemory.memory_store
        SecurityMemory.memory_security_store StorageMemory.memory_storage "ab" "cd" with_object
      ≡ (ok (a_metadata, out), with_object))
    × (read_all out ≡ ok sent_bytes)
unfolding read_all
read-write_example =
    read-write one_block one_block-IsByte MetadataMemory.memory_store
      SecurityMemory.memory_security_store StorageMemory.memory_storage memory_MetadataContract
      memory_SecurityContract memory_StorageContract "ab" "cd" a_metadata a_key upload_body
      sent_bytes with_bucket with_object (bytes_of sent_bytes refl) refl write_succeeds

decrypt-encrypt_example :
    read_all (create_stream_reader one_block a_key.key (new_reader (111 ∷ 104 ∷ 222 ∷ [])))
    ≡ ok sent_bytes
unfolding read_all create_stream_reader
decrypt-encrypt_example =
    decrypt-encrypt one_block one_block-IsByte a_key.key upload_body sent_bytes
      (111 ∷ 104 ∷ 222 ∷ []) (bytes_of sent_bytes refl) refl refl

history-CanRead : All History.CanRead history
unfolding read_all
history-CanRead = (tt, ((refl, (sent_bytes, refl)), (tt, tt)))

run-Consistent_example : Consistent (History.run one_block history new_compound)
run-Consistent_example =
    run-Consistent one_block history new_compound history-CanRead new_compound-Consistent

abbrev no_bucket : Outcome (Unit {0}) × MemoryCompound
no_bucket = Stores.write one_block "zz" "cd" a_metadata a_key upload_body with_bucket

with_bucket-Consistent : Consistent with_bucket
with_bucket-Consistent = new_bucket-Consistent one_block new_compound new_compound-Consistent "ab"

with_object-Consistent : Consistent with_object
unfolding read_all create_stream_reader
with_object-Consistent =
    write-Consistent one_block with_bucket with_bucket-Consistent "ab" "cd" a_metadata a_key
      upload_body (111 ∷ 104 ∷ 222 ∷ []) refl

abbrev second : Outcome (Unit {0}) × MemoryCompound
second = Stores.write one_block "ab" "cd" other_metadata a_key upload_body with_object

write_existing_example :
    (second.0 ≡ err (object_already_exists "cd"))
    × ((metas
            (Stores.write one_block "ab" "cd" other_metadata a_key upload_body
              with_object).1).object
          "ab" "cd"
        ≡ some other_metadata)
    × SameTable (encryption_keys second.1) (encryption_keys with_object)
    × SameTable (objects second.1) (objects with_object)
write_existing_example =
    write_existing one_block with_object "ab" "cd" other_metadata a_key upload_body
      with_object-Consistent (held_objects.3) (held_objects.4)

abbrev aborted : Outcome (Unit {0}) × MemoryCompound
aborted = Stores.write one_block "ab" "cd" a_metadata a_key broken_body with_bucket

write_aborted_example :
    (aborted.0 ≡ err (external 1))
    × ((metas aborted.1).object "ab" "cd" ≡ some a_metadata)
    × ((encryption_keys aborted.1).object "ab" "cd" ≡ some a_key)
    × ((objects aborted.1).object "ab" "cd" ≡ none)
unfolding read_all create_stream_reader
write_aborted_example =
    write_aborted one_block with_bucket "ab" "cd" a_metadata a_key broken_body (external 1)
      with_bucket-Consistent (held_objects.1) (held_objects.2) refl

abbrev seven_bytes : ℕ → Outcome (Bytes × ℕ)
seven_bytes n = ok (repeat n 7, n)

new_key_made : new_encryption_key seven_bytes ≡ ok (record { key = repeat 32 7 })
unfolding new_encryption_key
new_key_made = refl

valid_key_size-new_encryption_key_example :
    (read : Bytes) × (seven_bytes 32 ≡ ok (read, 32))
    × (repeat 32 7 ≡ fill_buffer (make 32) read)
    × (length (repeat 32 7) ≡ 32)
    × (valid_key_size (repeat 32 7) ≡ true)
valid_key_size-new_encryption_key_example =
    valid_key_size-new_encryption_key seven_bytes (record { key = repeat 32 7 }) new_key_made
