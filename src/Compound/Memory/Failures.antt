-- ===== src/Compound/Memory/Failures.antt =====
-- What a `Write` of storeend.go that fails leaves behind in stores in memory.
use secure_store.Compound
use secure_store.ObjectTable
use secure_store.Metadata.Memory.Refinement as MetadataRefinement
use secure_store.Security.Memory.Refinement as SecurityRefinement
use secure_store.Storage.Memory.Refinement as StorageRefinement
use secure_store.Cipher.{create_stream_reader}
use secure_store.Compound.Memory.Consistent.{Consistent, held}
use secure_store.Compound.Memory.Stores.{MemoryCompound, encryption_keys, metas, objects, write}
use secure_store.Effects.{Error, Outcome, err, object_already_exists, panic}
use secure_store.Effects.Reader.{Bytes, Reader, read_all}
use secure_store.Metadata.{Metadata}
use secure_store.ObjectTable.{SameTable}
use secure_store.Prelude.{String, arith, false, is_some, none, some, true, ◌≡◌}
use secure_store.Prelude.Eq.{bytes_Eq, string_Eq}
use secure_store.Security.{EncryptionKey}
use text.Mathlib.TextPositions.{eq_refl}

module _ (encrypt : Bytes → Bytes → Bytes) (c : MemoryCompound) (b k : String) (meta : Metadata)
    (key : EncryptionKey) (r : Reader) where
  abbrev attempt : Outcome (Unit {0}) × MemoryCompound
  attempt = write encrypt b k meta key r c

  -- An upload into a bucket that the metadata store does not have panics, and leaves the tables
  -- of the three stores as they were.
  pub write_missing_bucket :
      (metas c).bucket b ≡ false
      → (attempt.0 ≡ panic)
        × SameTable (metas attempt.1) (metas c)
        × (attempt.1.security ≡ c.security)
        × (attempt.1.storage ≡ c.storage)
  unfolding Compound.write
  write_missing_bucket e =
      let m = MetadataRefinement.write-Agrees b k meta c.metadata in
      (
        ground arith,
        record {
          buckets = λ x. ground (arith, m.1.buckets x);
          objects = λ x j. ground (arith, m.1.objects x j);
        },
        ground arith,
        ground arith,
      )

  -- An upload of an object that exists, in stores that are consistent, fails with
  -- `object_already_exists`; the stored key and data stay, but the metadata of the object is that
  -- of the failed upload.
  pub write_existing :
      Consistent c
      → (metas c).bucket b ≡ true
      → is_some ((metas c).object b k) ≡ true
      → (attempt.0 ≡ err (object_already_exists k))
        × ((metas attempt.1).object b k ≡ some meta)
        × SameTable (encryption_keys attempt.1) (encryption_keys c)
        × SameTable (objects attempt.1) (objects c)
  unfolding Compound.write
  write_existing h e x =
      let m = MetadataRefinement.write-Agrees b k meta c.metadata in
      let s = SecurityRefinement.write_key-Agrees b k key c.security in
      let at_b = held encrypt c h b k in
      (
        ground arith,
        ground (arith, m.1.objects b k, eq_refl b, eq_refl k),
        record {
          buckets = λ y. ground (arith, s.1.buckets y);
          objects = λ y j. ground (arith, s.1.objects y j);
        },
        record { buckets = λ y. ground arith; objects = λ y j. ground arith },
      )

  -- An upload of a new object into a bucket that exists, whose enciphered data breaks off with an
  -- error, in stores that are consistent, returns that error and leaves metadata and a key of the
  -- object but no data.
  pub write_aborted :
      (e : Error)
      → Consistent c
      → (metas c).bucket b ≡ true
      → (metas c).object b k ≡ none
      → read_all (create_stream_reader encrypt key.key r) ≡ err e
      → (attempt.0 ≡ err e)
        × ((metas attempt.1).object b k ≡ some meta)
        × ((encryption_keys attempt.1).object b k ≡ some key)
        × ((objects attempt.1).object b k ≡ none)
  unfolding Compound.write ObjectTable.stored
  write_aborted e h x n q =
      let m = MetadataRefinement.write-Agrees b k meta c.metadata in
      let s = SecurityRefinement.write_key-Agrees b k key c.security in
      let t =
        StorageRefinement.write-Agrees b k (create_stream_reader encrypt key.key r) c.storage in
      let at_b = held encrypt c h b k in
      (
        ground arith,
        ground (arith, m.1.objects b k, eq_refl b, eq_refl k),
        ground (arith, s.1.objects b k, eq_refl b, eq_refl k),
        ground (arith, t.1.objects b k),
      )
