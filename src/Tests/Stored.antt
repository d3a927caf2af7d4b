-- ===== src/Tests/Stored.antt =====
-- The stores in memory, one by one.
use secure_store.ObjectTable
use secure_store.Metadata.Memory as MetadataMemory
use secure_store.Security.Memory as SecurityMemory
use secure_store.Storage.Memory as StorageMemory
use secure_store.Storage.Memory.Refinement as StorageRefinement
use secure_store.Effects.{
  bucket_does_not_exist, err, object_already_exists, object_does_not_exists, ok,
}
use secure_store.Effects.Reader.{read_all}
use secure_store.Prelude.{List, [], refl, ◌∷◌, ◌≡◌}
use secure_store.Tests.Samples.{sent_bytes, upload_body}

abbrev calls : List StorageRefinement.Call
calls =
    StorageRefinement.new_buckets "ab"
    ∷ StorageRefinement.writes "ab" "cd" upload_body
    ∷ StorageRefinement.writes "ab" "cd" upload_body
    ∷ StorageRefinement.reads "ab" "cd"
    ∷ StorageRefinement.deletes "ab" "cd"
    ∷ StorageRefinement.reads "ab" "cd"
    ∷ StorageRefinement.delete_buckets "zz"
    ∷ []

run-eq-spec_run_example :
    StorageRefinement.run calls StorageMemory.new_memory_storage
    ≡ StorageRefinement.spec_run calls StorageRefinement.empty_table
run-eq-spec_run_example = StorageRefinement.run-eq-spec_run calls

calls_answers :
    StorageRefinement.spec_run calls StorageRefinement.empty_table
    ≡ StorageRefinement.done (ok tt)
      ∷ StorageRefinement.done (ok tt)
      ∷ StorageRefinement.done (err (object_already_exists "cd"))
      ∷ StorageRefinement.given (ok sent_bytes)
      ∷ StorageRefinement.done (ok tt)
      ∷ StorageRefinement.given (err (object_does_not_exists "cd"))
      ∷ StorageRefinement.done (err (bucket_does_not_exist "zz"))
      ∷ []
unfolding StorageRefinement.spec_run StorageRefinement.spec_step read_all ObjectTable.stored
calls_answers = refl

abbrev two_buckets : StorageMemory.MemoryStorage
two_buckets =
    (StorageMemory.new_bucket "ab"
      (StorageMemory.new_bucket "cd" StorageMemory.new_memory_storage).1).1

abbrev some_metadata : MetadataMemory.MemoryStore
some_metadata = (MetadataMemory.new_bucket "ab" MetadataMemory.new_memory_store).1

abbrev some_keys : SecurityMemory.MemorySecurityStore
some_keys = (SecurityMemory.new_bucket "ab" SecurityMemory.new_memory_security_store).1
