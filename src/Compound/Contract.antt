-- ===== src/Compound/Contract.antt =====
-- What `CompoundStore` of storeend.go relies on in each of its three stores.
use secure_store.Effects.{ok}
use secure_store.Effects.Reader.{Bytes, Reader, new_reader, read_all}
use secure_store.Metadata.{Metadata, MetadataStore}
use secure_store.Prelude.{String, ◌≡◌}
use secure_store.Prelude.Eq.{bytes_Eq, string_Eq}
use secure_store.Security.{EncryptionKey, SecurityStore}
use secure_store.Storage.{Storage}

pub record MetadataContract {M : Type 0} (ms : MetadataStore M) : Type 0 where
  pub write_read :
      (b k : String) (meta : Metadata) (m m' : M)
      → ms.write b k meta m ≡ (ok tt, m')
      → ms.read b k m' ≡ (ok meta, m')

pub record SecurityContract {S : Type 0} (ss : SecurityStore S) : Type 0 where
  pub write_read :
      (b k : String) (key : EncryptionKey) (s s' : S)
      → ss.write_key b k key s ≡ (ok tt, s')
      → ss.read_key b k s' ≡ (ok key, s')

-- A write that succeeds has read its reader to the end.
pub record StorageContract {T : Type 0} (ts : Storage T) : Type 0 where
  pub write_read :
      (b k : String) (r : Reader) (t t' : T)
      → ts.write b k r t ≡ (ok tt, t')
      → (stored : Bytes) × (read_all r ≡ ok stored)
        × (ts.read b k t' ≡ (ok (new_reader stored), t'))
