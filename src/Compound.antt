-- ===== src/Compound.antt =====
-- `CompoundStore` of storeend.go, over any three stores that implement the interfaces. A method
-- stops at the first store that fails, and what the stores before it did stays.
pub mod Contract
pub mod RoundTrip
pub mod Memory
use secure_store.Cipher.{create_stream_reader}
use secure_store.Effects.{Exec, pure, ◌>>=◌, ◌>>◌}
use secure_store.Effects.Reader.{Bytes, Reader}
use secure_store.Metadata.{Metadata, MetadataStore}
use secure_store.Prelude.{List, String}
use secure_store.Security.{EncryptionKey, SecurityStore}
use secure_store.Storage.{Storage}

pub record CompoundStore (M S T : Type 0) : Type 0 where
  pub metadata : M
  pub security : S
  pub storage : T

module _ {M S T : Type 0} where
  -- A call on one of the three stores.
  abbrev on_metadata : {A : Type 0} → Exec M A → Exec (CompoundStore M S T) A
  on_metadata m c = ((m c.metadata).0, record c { metadata = (m c.metadata).1 })

  abbrev on_security : {A : Type 0} → Exec S A → Exec (CompoundStore M S T) A
  on_security m c = ((m c.security).0, record c { security = (m c.security).1 })

  abbrev on_storage : {A : Type 0} → Exec T A → Exec (CompoundStore M S T) A
  on_storage m c = ((m c.storage).0, record c { storage = (m c.storage).1 })

module _ {M S T : Type 0} (encrypt : Bytes → Bytes → Bytes) (ms : MetadataStore M)
    (ss : SecurityStore S) (ts : Storage T) where
  unfoldable pub new_bucket : String → Exec (CompoundStore M S T) (Unit {0})
  new_bucket bucket = do
    on_metadata (ms.new_bucket bucket)
    on_security (ss.new_bucket bucket)
    on_storage (ts.new_bucket bucket)

  unfoldable pub write :
      String → String → Metadata → EncryptionKey → Reader → Exec (CompoundStore M S T) (Unit {0})
  write bucket_id key_id metadata key data_reader = do
    on_metadata (ms.write bucket_id key_id metadata)
    on_security (ss.write_key bucket_id key_id key)
    on_storage (ts.write bucket_id key_id (create_stream_reader encrypt key.key data_reader))

  unfoldable pub read : String → String → Exec (CompoundStore M S T) (Metadata × Reader)
  read bucket_id key_id = do
    meta ← on_metadata (ms.read bucket_id key_id)
    key ← on_security (ss.read_key bucket_id key_id)
    data_reader ← on_storage (ts.read bucket_id key_id)
    pure (meta, create_stream_reader encrypt key.key data_reader)

  unfoldable pub delete : String → String → Exec (CompoundStore M S T) (Unit {0})
  delete bucket_id key_id = do
    on_metadata (ms.delete bucket_id key_id)
    on_security (ss.delete_key bucket_id key_id)
    on_storage (ts.delete bucket_id key_id)

  unfoldable pub delete_bucket : String → Exec (CompoundStore M S T) (Unit {0})
  delete_bucket bucket = do
    on_metadata (ms.delete_bucket bucket)
    on_security (ss.delete_bucket bucket)
    on_storage (ts.delete_bucket bucket)

  unfoldable pub list_buckets : Exec (CompoundStore M S T) (List String)
  list_buckets = on_metadata ms.list_buckets
