-- ===== src/Compound/RoundTrip.antt =====
-- `Write` and then `Read` of storeend.go, over any stores that keep the contracts.
use secure_store.Compound
use secure_store.Cipher.{create_stream_reader}
use secure_store.Cipher.RoundTrip.{IsByte, decrypt-encrypt}
use secure_store.Compound.{CompoundStore}
use secure_store.Compound.Contract.{MetadataContract, SecurityContract, StorageContract}
use secure_store.Effects.{ok}
use secure_store.Effects.Reader.{Bytes, Reader, new_reader, read_all}
use secure_store.Metadata.{Metadata, MetadataStore}
use secure_store.ObjectTable.{stored}
use secure_store.Prelude.{All, String, arith, ◌≡◌}
use secure_store.Prelude.Eq.{bytes_Eq, string_Eq}
use secure_store.Security.{EncryptionKey, SecurityStore}
use secure_store.Storage.{Storage}

module _ {M S T : Type 0} (encrypt : Bytes → Bytes → Bytes)
    (bytes : (k x : Bytes) → All IsByte (encrypt k x)) (ms : MetadataStore M) (ss : SecurityStore S)
    (ts : Storage T) (mc : MetadataContract ms) (sc : SecurityContract ss)
    (tc : StorageContract ts) where
  -- A write that succeeds succeeded in each store.
  record Written (b k : String) (meta : Metadata) (key : EncryptionKey) (r : Reader)
      (c c' : CompoundStore M S T) : Type 0 where
    in_metadata : ms.write b k meta c.metadata ≡ (ok tt, c'.metadata)
    in_security : ss.write_key b k key c.security ≡ (ok tt, c'.security)
    in_storage :
        ts.write b k (create_stream_reader encrypt key.key r) c.storage ≡ (ok tt, c'.storage)

  write-Written :
      (b k : String) (meta : Metadata) (key : EncryptionKey) (r : Reader)
      (c c' : CompoundStore M S T)
      → Compound.write encrypt ms ss ts b k meta key r c ≡ (ok tt, c')
      → Written b k meta key r c c'
  unfolding Compound.write
  write-Written b k meta key r c c' w = record {
    in_metadata = ground arith;
    in_security = ground arith;
    in_storage = ground arith;
  }

  read_parts :
      (b k : String) (meta : Metadata) (key : EncryptionKey) (out : Reader)
      (c : CompoundStore M S T)
      → ms.read b k c.metadata ≡ (ok meta, c.metadata)
      → ss.read_key b k c.security ≡ (ok key, c.security)
      → ts.read b k c.storage ≡ (ok out, c.storage)
      → Compound.read encrypt ms ss ts b k c
        ≡ (ok (meta, create_stream_reader encrypt key.key out), c)
  unfolding Compound.read
  read_parts b k meta key out c p q s = ground arith

  -- Over any three stores that give back what they were given (and any block cipher on bytes): if
  -- `write` of an object whose reader can be read to its end, to bytes, succeeds, then `read` of
  -- that object succeeds, changes nothing, and gives the metadata that was written and a reader
  -- from which exactly the written bytes are read.
  pub read-write :
      (b k : String) (meta : Metadata) (key : EncryptionKey) (r : Reader) (plain : Bytes)
      (c c' : CompoundStore M S T)
      → All IsByte plain
      → read_all r ≡ ok plain
      → Compound.write encrypt ms ss ts b k meta key r c ≡ (ok tt, c')
      → (out : Reader) × (Compound.read encrypt ms ss ts b k c' ≡ (ok (meta, out), c'))
        × (read_all out ≡ ok plain)
  read-write b k meta key r plain c c' h p w =
      let v = write-Written b k meta key r c c' w in
      let (stored, all_read, gives_back) = tc.write_read b k _ c.storage c'.storage v.in_storage in
      (
        create_stream_reader encrypt key.key (new_reader stored),
        read_parts b k meta key (new_reader stored) c'
            (mc.write_read b k meta c.metadata c'.metadata v.in_metadata)
            (sc.write_read b k key c.security c'.security v.in_security) gives_back,
        decrypt-encrypt encrypt bytes key.key r plain stored h p all_read,
      )
