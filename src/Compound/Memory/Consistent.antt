-- ===== src/Compound/Memory/Consistent.antt =====
-- Whether the three stores of a `CompoundStore` hold the same buckets and the same keys, method
-- by method.
use secure_store.Compound
use secure_store.ObjectTable
use secure_store.Metadata.Memory.Refinement as MetadataRefinement
use secure_store.Security.Memory.Refinement as SecurityRefinement
use secure_store.Storage.Memory.Refinement as StorageRefinement
use secure_store.Cipher.{create_stream_reader}
use secure_store.Compound.Memory.Stores.{
  MemoryCompound, delete, delete_bucket, encryption_keys, metas, new_bucket, objects, write,
}
use secure_store.Effects.{ok}
use secure_store.Effects.Reader.{Bytes, Reader, read_all}
use secure_store.Metadata.{Metadata}
use secure_store.Prelude.{String, arith, is_some, ◌≡◌}
use secure_store.Security.{EncryptionKey}
use text.Mathlib.TextEquality.{eq_iff}

pub record Consistent (c : MemoryCompound) : Type 0 where
  pub keys_buckets : (b : String) → (encryption_keys c).bucket b ≡ (metas c).bucket b
  pub objects_buckets : (b : String) → (objects c).bucket b ≡ (metas c).bucket b
  pub keys_objects :
      (b k : String) → is_some ((encryption_keys c).object b k) ≡ is_some ((metas c).object b k)
  pub objects_objects :
      (b k : String) → is_some ((objects c).object b k) ≡ is_some ((metas c).object b k)

module _ (encrypt : Bytes → Bytes → Bytes) (c : MemoryCompound) (h : Consistent c) where
  -- What the call has to know of the bucket and of the key that it is about.
  pub here :
      (b : String)
      → ((encryption_keys c).bucket b ≡ (metas c).bucket b)
        × ((objects c).bucket b ≡ (metas c).bucket b)
  here b = (h.keys_buckets b, h.objects_buckets b)

  pub held :
      (b k : String)
      → ((encryption_keys c).bucket b ≡ (metas c).bucket b)
        × ((objects c).bucket b ≡ (metas c).bucket b)
        × (is_some ((encryption_keys c).object b k) ≡ is_some ((metas c).object b k))
        × (is_some ((objects c).object b k) ≡ is_some ((metas c).object b k))
  held b k = (h.keys_buckets b, h.objects_buckets b, h.keys_objects b k, h.objects_objects b k)

  pub new_bucket-Consistent : (b : String) → Consistent (new_bucket encrypt b c).1
  unfolding Compound.new_bucket
  new_bucket-Consistent b =
      let m = MetadataRefinement.new_bucket-Agrees b c.metadata in
      let s = SecurityRefinement.new_bucket-Agrees b c.security in
      let t = StorageRefinement.new_bucket-Agrees b c.storage in
      let at_b = here b in
      record {
        keys_buckets = λ x.
            ground (arith, at_b, m.1.buckets x, s.1.buckets x, t.1.buckets x, h.keys_buckets x);
        objects_buckets = λ x.
            ground (arith, at_b, m.1.buckets x, s.1.buckets x, t.1.buckets x, h.objects_buckets x);
        keys_objects = λ x j.
            ground
              (arith, at_b, m.1.objects x j, s.1.objects x j, t.1.objects x j, h.keys_objects x j);
        objects_objects = λ x j.
            ground (
              arith,
              at_b,
              m.1.objects x j,
              s.1.objects x j,
              t.1.objects x j,
              h.objects_objects x j,
            );
      }

  pub delete_bucket-Consistent : (b : String) → Consistent (delete_bucket encrypt b c).1
  unfolding Compound.delete_bucket
  delete_bucket-Consistent b =
      let m = MetadataRefinement.delete_bucket-Agrees b c.metadata in
      let s = SecurityRefinement.delete_bucket-Agrees b c.security in
      let t = StorageRefinement.delete_bucket-Agrees b c.storage in
      let at_b = here b in
      record {
        keys_buckets = λ x.
            ground (arith, at_b, m.1.buckets x, s.1.buckets x, t.1.buckets x, h.keys_buckets x);
        objects_buckets = λ x.
            ground (arith, at_b, m.1.buckets x, s.1.buckets x, t.1.buckets x, h.objects_buckets x);
        keys_objects = λ x j.
            ground
              (arith, at_b, m.1.objects x j, s.1.objects x j, t.1.objects x j, h.keys_objects x j);
        objects_objects = λ x j.
            ground (
              arith,
              at_b,
              m.1.objects x j,
              s.1.objects x j,
              t.1.objects x j,
              h.objects_objects x j,
            );
      }

  pub delete-Consistent : (b k : String) → Consistent (delete encrypt b k c).1
  unfolding Compound.delete
  delete-Consistent b k =
      let m = MetadataRefinement.delete-Agrees b k c.metadata in
      let s = SecurityRefinement.delete_key-Agrees b k c.security in
      let t = StorageRefinement.delete-Agrees b k c.storage in
      let at_b = held b k in
      record {
        keys_buckets = λ x.
            ground (arith, at_b, m.1.buckets x, s.1.buckets x, t.1.buckets x, h.keys_buckets x);
        objects_buckets = λ x.
            ground (arith, at_b, m.1.buckets x, s.1.buckets x, t.1.buckets x, h.objects_buckets x);
        keys_objects = λ x j.
            ground
              (arith, at_b, m.1.objects x j, s.1.objects x j, t.1.objects x j, h.keys_objects x j);
        objects_objects = λ x j.
            ground (
              arith,
              at_b,
              m.1.objects x j,
              s.1.objects x j,
              t.1.objects x j,
              h.objects_objects x j,
            );
      }

  pub write-Consistent :
      (b k : String) (meta : Metadata) (key : EncryptionKey) (r : Reader) (kept : Bytes)
      → read_all (create_stream_reader encrypt key.key r) ≡ ok kept
      → Consistent (write encrypt b k meta key r c).1
  unfolding Compound.write ObjectTable.stored
  write-Consistent b k meta key r kept q =
      let m = MetadataRefinement.write-Agrees b k meta c.metadata in
      let s = SecurityRefinement.write_key-Agrees b k key c.security in
      let t =
        StorageRefinement.write-Agrees b k (create_stream_reader encrypt key.key r) c.storage in
      let at_b = held b k in
      record {
        keys_buckets = λ x.
            ground (arith, at_b, m.1.buckets x, s.1.buckets x, t.1.buckets x, h.keys_buckets x);
        objects_buckets = λ x.
            ground (arith, at_b, m.1.buckets x, s.1.buckets x, t.1.buckets x, h.objects_buckets x);
        keys_objects = λ x j. ground (
          arith,
          at_b,
          m.1.objects x j,
          s.1.objects x j,
          t.1.objects x j,
          h.keys_objects x j,
          eq_iff b x,
          eq_iff k j,
        );
        objects_objects = λ x j. ground (
          arith,
          at_b,
          m.1.objects x j,
          s.1.objects x j,
          t.1.objects x j,
          h.objects_objects x j,
          eq_iff b x,
          eq_iff k j,
        );
      }
