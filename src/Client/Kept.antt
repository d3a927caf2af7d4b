-- ===== src/Client/Kept.antt =====
-- An object that a client uploads and then downloads.
use secure_store.Client
use secure_store.Compound
use secure_store.Cipher.RoundTrip.{IsByte}
use secure_store.Client.{download_url, upload_url}
use secure_store.Client.Downloaded.{download-read}
use secure_store.Client.EndToEnd.{Connected, Gin}
use secure_store.Client.Headers.{Told, header_text}
use secure_store.Client.Uploaded.{upload-write}
use secure_store.Compound.{CompoundStore}
use secure_store.Compound.Contract.{MetadataContract, SecurityContract, StorageContract}
use secure_store.Compound.RoundTrip.{read-write}
use secure_store.Effects.{ok}
use secure_store.Effects.Reader.{Bytes, Reader, read_all}
use secure_store.Http.{Http}
use secure_store.Metadata.{new_metadata}
use secure_store.Prelude.{All, String, codes, inl, inr, length, none, true, ◌≡◌, ◌⊎◌}
use secure_store.Prelude.Int.{negsuc, pos, ℤ}
use secure_store.Router.Api.{World}
use secure_store.Router.Routes.{Server}
use secure_store.Sanitizer.{match_string, new_matcher}
use secure_store.Security.{EncryptionKey}
use secure_store.Security.Keys.{new_encryption_key}
use secure_store.Url.Target.{IsAddress}
use secure_store.Users.{User, verify_api_key}

announced : (n : ℤ) (plain : Bytes) → Told n plain → (n ≡ pos (length plain)) ⊎ (n ≡ negsuc 0)
announced n plain (inl e) = inl e
announced n plain (inr (e, some_bytes)) = inr e

module _ {M S T A U : Type 0} (srv : Server M S T A U) (g : Gin (World (CompoundStore M S T) A U))
    (http : Http (World (CompoundStore M S T) A U)) (addr : String) (c : Connected srv g http addr)
    (mc : MetadataContract srv.metadata) (sc : SecurityContract srv.security)
    (tc : StorageContract srv.storage) (cipher : (k x : Bytes) → All IsByte (srv.encrypt k x)) where
  abbrev Everything : Type 0
  Everything = World (CompoundStore M S T) A U

  -- An upload that is in order: the address is a scheme and a host, net/http accepts the URLs of the
  -- upload and of the download, the sanitizer accepts the ids, the API key is that of a user who may
  -- upload data, the file name can be sent in a header, the data can be read to the end, with its
  -- length told, or none if it is not empty, and the compound store takes the object.
  pub record InOrder (b k filename : String) (content : Reader) (n : ℤ) (api_key plain : Bytes)
      (w : Everything) (after : CompoundStore M S T) : Type 0 where
    pub address : IsAddress (codes addr)
    pub bucket_accepted : match_string new_matcher b ≡ true
    pub key_accepted : match_string new_matcher k ≡ true
    pub user : User
    pub api_key_bytes : All IsByte api_key
    pub resolved : (srv.user_storage.resolve_by_api_key api_key w.users).0 ≡ ok user
    pub verified : verify_api_key user api_key ≡ true
    pub may_upload_data : user.role.can_upload_data ≡ true
    pub encryption_key : EncryptionKey
    pub made : new_encryption_key srv.rand_read ≡ ok encryption_key
    pub content_bytes : All IsByte plain
    pub all_read : read_all content ≡ ok plain
    pub length_told : Told n plain
    pub filename_sent : header_text (codes filename) ≡ true
    pub upload_accepted : http.url_error (upload_url addr b k api_key) ≡ none
    pub download_accepted : http.url_error (download_url addr b k) ≡ none
    pub taken :
        Compound.write srv.encrypt srv.metadata srv.security srv.storage b k
          (new_metadata n filename)
          encryption_key
          content
          w.objects
        ≡ (ok tt, after)

  -- Client and server together, over stores that give back what they were given, a block cipher
  -- on bytes, a gin that binds well-formed requests, and a network that brings those for the
  -- server's address to the handlers and their answers back. An upload is in order if the address
  -- is a scheme and a host, net/http accepts the URLs of the upload and of the download, the
  -- sanitizer accepts the ids, the API key is that of a user who may upload data, an encryption
  -- key is made, the file name is ASCII without control characters and without a space at either
  -- end, the data are bytes that can be read to the end, their length is told, or not told and
  -- they are not empty, and the compound store takes the object. Such an upload returns without
  -- an error, and a download of the same ids then returns a body from which exactly the uploaded
  -- bytes are read, with their length or the one that the upload told.
  pub download-upload :
      (b k filename : String) (content : Reader) (n : ℤ) (api_key plain : Bytes) (w : Everything)
      (after : CompoundStore M S T)
      → InOrder b k filename content n api_key plain w after
      → (w' : Everything) × (body : Reader) × (told : ℤ) × (Client.upload http addr b k content n
            filename api_key w
          ≡ (ok tt, w'))
        × (Client.download http addr b k w' ≡ (ok (body, told), w'))
        × (read_all body ≡ ok plain)
        × ((told ≡ pos (length plain)) ⊎ (told ≡ n))
  unfolding new_metadata
  download-upload b k filename content n api_key plain w after o =
      let (out, given_back, same) =
        read-write srv.encrypt cipher srv.metadata srv.security srv.storage mc sc tc b k
          (new_metadata n filename) o.encryption_key content plain w.objects after o.content_bytes
          o.all_read o.taken in
      let w' : Everything = record w {
        users = (srv.user_storage.resolve_by_api_key api_key w.users).1;
        objects = after;
      } in
      let (body, told, downloaded, whole, length_right) =
        download-read srv g http addr c b k o.address o.bucket_accepted o.key_accepted
          o.download_accepted (new_metadata n filename) out plain w' given_back same
          (announced n plain o.length_told) in
      (
        w',
        body,
        told,
        upload-write srv g http addr c b k filename content n api_key plain o.address
            o.bucket_accepted o.key_accepted o.api_key_bytes o.upload_accepted o.filename_sent
            o.all_read o.length_told o.user o.encryption_key w after o.resolved o.verified
            o.may_upload_data o.made o.taken,
        downloaded,
        whole,
        length_right,
      )
