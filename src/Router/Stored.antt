-- ===== src/Router/Stored.antt =====
-- What /upload and /download of router.go do for a request that is in order.
use secure_store.Compound
use secure_store.Router.Objects
use secure_store.Access.{AKey, valid_key}
use secure_store.Base64.{decode_raw_url}
use secure_store.Compound.{CompoundStore}
use secure_store.Effects.{Error, Outcome, err, ok}
use secure_store.Effects.Reader.{Bytes, Reader, read_all}
use secure_store.Metadata.{Metadata, MetadataStore, new_metadata}
use secure_store.Prelude.{
  Bool, String, arith, codes, inl, inr, length, refl, some, true, ℕ, ◌≡◌, ◌⊎◌,
}
use secure_store.Prelude.Int.{negsuc, pos, ℤ}
use secure_store.Router.{
  AccessStore, Handled, Request, UserStorage, abort, data_from_reader, reply, said, sends_all,
  status_internal_server_error, status_ok, string,
}
use secure_store.Router.Api.{World, api_download, given_key, upload_object, with_role}
use secure_store.Router.Roles.{Authorised}
use secure_store.Sanitizer.{match_string, new_matcher}
use secure_store.Security.{EncryptionKey, SecurityStore}
use secure_store.Security.Keys.{new_encryption_key}
use secure_store.Storage.{Storage}
use secure_store.Users.{Role}

abbrev pub stored_text : String → String → String
stored_text b k = said "Successfully uploaded to bucket-id: " (said b (said " with key-id: " k))

module _ {M S T A U : Type 0} (encrypt : Bytes → Bytes → Bytes) (ms : MetadataStore M)
    (ss : SecurityStore S) (ts : Storage T) (access_store : AccessStore A)
    (user_storage : UserStorage U) where
  abbrev W : Type 0
  W = World (CompoundStore M S T) A U

  pub upload_object-stored :
      (rand_read : ℕ → Outcome (Bytes × ℕ)) (c : Request) (w : W) (b k : String)
      (key : EncryptionKey) (objects : CompoundStore M S T)
      → c.query "bucketId" ≡ b
      → c.query "keyId" ≡ k
      → match_string new_matcher b ≡ true
      → match_string new_matcher k ≡ true
      → new_encryption_key rand_read ≡ ok key
      → Compound.write encrypt ms ss ts b k
          (new_metadata c.content_length (c.header "filename"))
          key
          c.body
          w.objects
        ≡ (ok tt, objects)
      → upload_object encrypt ms ss ts access_store user_storage rand_read c w
        ≡ reply (string status_ok (stored_text b k)) (record w { objects = objects })
  unfolding upload_object
  upload_object-stored rand_read c w b k key objects qb qk mb mk n s = ground arith

  -- What `with_role` leaves to do for an authorised user.
  pub with_role-Authorised :
      (allowed : Role → Bool) (c : Request) (w : W) (rest : W → Handled W)
      (a : Authorised encrypt ms ss ts access_store user_storage allowed c w)
      → with_role encrypt ms ss ts access_store user_storage allowed c w rest
        ≡ rest (record w { users = (user_storage.resolve_by_api_key a.api_key w.users).1 })
  unfolding with_role
  with_role-Authorised allowed c w rest a =
      ground (arith, a.decoded, a.resolved, a.verified, a.right)

  pub announced-sends_all :
      (n : ℤ) (out : Reader) (plain : Bytes)
      → read_all out ≡ ok plain
      → (n ≡ pos (length plain)) ⊎ (n ≡ negsuc 0)
      → sends_all n (read_all out) ≡ true
  unfolding sends_all
  announced-sends_all n out plain r (inl e) = rw e (rw r (ground arith))
  announced-sends_all n out plain r (inr e) = rw e (rw r refl)

  pub get_download-found :
      (c : Request) (s : CompoundStore M S T) (b k : String) (meta : Metadata) (out : Reader)
      → c.query "bucketId" ≡ b
      → c.query "keyId" ≡ k
      → match_string new_matcher b ≡ true
      → match_string new_matcher k ≡ true
      → Compound.read encrypt ms ss ts b k s ≡ (ok (meta, out), s)
      → sends_all meta.length (read_all out) ≡ true
      → Objects.get_download encrypt ms ss ts c s
        ≡ reply (data_from_reader status_ok meta.length out meta.filename) s
  unfolding Objects.get_download Objects.download
  get_download-found c s b k meta out qb qk mb mk r all_sent = ground arith

  pub with_role-unknown :
      (allowed : Role → Bool) (c : Request) (w : W) (rest : W → Handled W) (api_key : Bytes)
      (e : Error)
      → decode_raw_url (codes (c.query "apiKey")) ≡ some api_key
      → (user_storage.resolve_by_api_key api_key w.users).0 ≡ err e
      → with_role encrypt ms ss ts access_store user_storage allowed c w rest
        ≡ abort status_internal_server_error e
            (record w { users = (user_storage.resolve_by_api_key api_key w.users).1 })
  unfolding with_role
  with_role-unknown allowed c w rest api_key e d r = ground arith

  -- A key that asks for an unlock key, and a request that gives one of its valid keys.
  pub api_download-unlocked :
      (debug : Bool) (c : Request) (w : W) (u : String) (key : AKey) (access' : A) (unlock : Bytes)
      (meta : Metadata) (out : Reader)
      → c.query "urlKey" ≡ u
      → match_string new_matcher u ≡ true
      → access_store.access u w.access ≡ (ok key, access')
      → key.needs_key ≡ true
      → given_key encrypt ms ss ts access_store user_storage c key ≡ some unlock
      → valid_key key unlock ≡ ok true
      → Compound.read encrypt ms ss ts key.bucket_id key.key_id w.objects
        ≡ (ok (meta, out), w.objects)
      → sends_all meta.length (read_all out) ≡ true
      → (api_download encrypt ms ss ts access_store user_storage debug c w).handled
        ≡ reply
            (data_from_reader status_ok meta.length out meta.filename)
            (record w { access = access' })
  unfolding api_download
  api_download-unlocked debug c w u key access' unlock meta out q m f n g v r all_sent =
      ground arith
