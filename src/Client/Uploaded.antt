-- ===== src/Client/Uploaded.antt =====
-- `Upload` of client/client.go with the handlers of router.go behind them.
use secure_store.Client
use secure_store.Compound
use secure_store.Router.Api
use secure_store.Base64.{encode_raw_url}
use secure_store.Cipher.RoundTrip.{IsByte}
use secure_store.Client.{http_request, upload_url}
use secure_store.Client.Answers.{upload-answered}
use secure_store.Client.EndToEnd.{Connected, Gin, query_key, query_text, request-Reads}
use secure_store.Client.Headers.{Told, WellFormed, header_text}
use secure_store.Client.Requests.{upload_url-Reads}
use secure_store.Compound.{CompoundStore}
use secure_store.Effects.{Error, err, ok}
use secure_store.Effects.Reader.{Bytes, Reader, read_all}
use secure_store.Http.{Http, HttpRequest, http_post}
use secure_store.Metadata.{new_metadata}
use secure_store.Prelude.{All, String, [], codes, false, none, refl, true, ◌∙◌, ◌∷◌, ◌≡◌}
use secure_store.Prelude.Int.{ℤ}
use secure_store.Router.{Handled, reply, status_ok, string}
use secure_store.Router.Api.{World, upload_object}
use secure_store.Router.Roles.{Authorised}
use secure_store.Router.Routes.{Server, find_route, handle, upload_route}
use secure_store.Router.Stored.{
  stored_text, upload_object-stored, with_role-Authorised, with_role-unknown,
}
use secure_store.Sanitizer.{match_string, new_matcher}
use secure_store.Security.{EncryptionKey}
use secure_store.Security.Keys.{new_encryption_key}
use secure_store.Url.{value_under}
use secure_store.Url.Target.{IsAddress}
use secure_store.Users.{User, verify_api_key}

module _ {M S T A U : Type 0} (srv : Server M S T A U) (g : Gin (World (CompoundStore M S T) A U))
    (http : Http (World (CompoundStore M S T) A U)) (addr : String)
    (c : Connected srv g http addr) where
  abbrev Everything : Type 0
  Everything = World (CompoundStore M S T) A U

  abbrev uploaded : String → String → String → String → Reader → ℤ → Bytes → HttpRequest
  uploaded addr b k filename content n api_key =
      http_request http_post (upload_url addr b k api_key) (("filename", filename) ∷ []) content n

  abbrev MayUpload : HttpRequest → Everything → Type 0
  MayUpload r w =
      Authorised srv.encrypt srv.metadata srv.security srv.storage srv.access_store srv.user_storage
        (λ r. r.can_upload_data) (g.bind r) w

  module _ (b k filename : String) (content : Reader) (n : ℤ) (api_key plain : Bytes)
      (a : IsAddress (codes addr)) (hb : match_string new_matcher b ≡ true)
      (hk : match_string new_matcher k ≡ true) (bytes : All IsByte api_key)
      (accepted : http.url_error (upload_url addr b k api_key) ≡ none)
      (named : header_text (codes filename) ≡ true) (whole : read_all content ≡ ok plain)
      (told : Told n plain) where
    abbrev sent : HttpRequest
    sent = uploaded addr b k filename content n api_key

    formed : WellFormed sent
    formed = record {
      headers_sent = rw named refl;
      content = plain;
      content_read = whole;
      length_told = told;
    }

    answered :
        (w : Everything) (done : Handled Everything) (text : Bytes)
        → handle srv upload_route (g.bind sent) w ≡ done
        → done.panicked ≡ false
        → read_all (g.answer done).body ≡ ok text
        → Client.upload http addr b k content n filename api_key w ≡ (ok tt, done.world)
    unfolding find_route
    answered w done text h finished read =
        upload-answered http addr b k content n filename api_key text w _ _
          (request-Reads srv g http addr c http_post (upload_url addr b k api_key)
            (("filename", filename) ∷ []) content n _ _ _ upload_route w done refl accepted formed
            (upload_url-Reads addr a b k hb hk api_key) refl refl h finished)
          read

    may_upload :
        (user : User) (w : Everything)
        → (srv.user_storage.resolve_by_api_key api_key w.users).0 ≡ ok user
        → verify_api_key user api_key ≡ true
        → user.role.can_upload_data ≡ true
        → MayUpload sent w
    unfolding encode_raw_url value_under
    may_upload user w found verified rights = record {
      api_key = api_key;
      user = user;
      decoded =
          query_key srv g http addr c sent _ _ "apiKey" api_key
            (upload_url-Reads addr a b k hb hk api_key) refl bytes;
      resolved = found;
      verified = verified;
      right = rights;
    }

    handled :
        (user : User) (key : EncryptionKey) (w : Everything) (after : CompoundStore M S T)
        → (srv.user_storage.resolve_by_api_key api_key w.users).0 ≡ ok user
        → verify_api_key user api_key ≡ true
        → user.role.can_upload_data ≡ true
        → new_encryption_key srv.rand_read ≡ ok key
        → Compound.write srv.encrypt srv.metadata srv.security srv.storage b k
            (new_metadata n filename)
            key
            content
            w.objects
          ≡ (ok tt, after)
        → handle srv upload_route (g.bind sent) w
          ≡ reply (string status_ok (stored_text b k)) (record w {
            users = (srv.user_storage.resolve_by_api_key api_key w.users).1;
            objects = after;
          })
    unfolding handle Api.upload value_under may_upload
    handled user key w after found verified rights made kept =
        let found_world : Everything = record w {
          users = (srv.user_storage.resolve_by_api_key api_key w.users).1;
        } in
        let q = query_text srv g http addr c sent _ _ in
        let reads = upload_url-Reads addr a b k hb hk api_key in
        with_role-Authorised srv.encrypt srv.metadata srv.security srv.storage srv.access_store
          srv.user_storage (λ r. r.can_upload_data) (g.bind sent) w
          (upload_object srv.encrypt srv.metadata srv.security srv.storage srv.access_store
            srv.user_storage srv.rand_read (g.bind sent))
          (may_upload user w found verified rights)
        ∙ upload_object-stored srv.encrypt srv.metadata srv.security srv.storage srv.access_store
            srv.user_storage srv.rand_read (g.bind sent) found_world b k key after
            (q "bucketId" b reads refl) (q "keyId" k reads refl) hb hk made
            (rw (c.contract.length_bound sent formed) (
              rw (c.contract.header_bound sent "filename" formed refl)
                (rw (c.contract.body_bound sent formed) kept)))

    -- If the API key is that of a user who may upload data, a key is made, and the compound store
    -- takes the object, then `Upload` of the client returns without an error and leaves the server
    -- with what the compound store made of the object, its metadata being the length and the file
    -- name that the client gave; under the conditions on the request that the section names.
    pub upload-write :
        (user : User) (key : EncryptionKey) (w : Everything) (after : CompoundStore M S T)
        → (srv.user_storage.resolve_by_api_key api_key w.users).0 ≡ ok user
        → verify_api_key user api_key ≡ true
        → user.role.can_upload_data ≡ true
        → new_encryption_key srv.rand_read ≡ ok key
        → Compound.write srv.encrypt srv.metadata srv.security srv.storage b k
            (new_metadata n filename)
            key
            content
            w.objects
          ≡ (ok tt, after)
        → Client.upload http addr b k content n filename api_key w ≡ (
          ok tt,
          record w {
            users = (srv.user_storage.resolve_by_api_key api_key w.users).1;
            objects = after;
          },
        )
    upload-write user key w after found verified rights made kept =
        let (text, read) = c.contract.string_answered status_ok (stored_text b k) _ in
        answered w _ text (handled user key w after found verified rights made kept) refl read

    -- Over a gin that binds well-formed requests and a network that brings those for the server's
    -- address to the handlers and their answers back, the address being a scheme and a host and
    -- net/http accepting the URL: if the user store returns an error for the API key, which is
    -- bytes, so that the server refuses the upload, then `Upload` of the client returns without
    -- an error all the same, and the stored objects are as before. The ids are accepted by the
    -- sanitizer, the file name is ASCII without control characters and without a space at either
    -- end, and the data can be read to the end, with their length told, or not told if they are
    -- not empty.
    pub upload-unknown :
        (e : Error) (w : Everything)
        → (srv.user_storage.resolve_by_api_key api_key w.users).0 ≡ err e
        → (w' : Everything) × (Client.upload http addr b k content n filename api_key w
            ≡ (ok tt, w'))
          × (w'.objects ≡ w.objects)
    unfolding handle Api.upload value_under encode_raw_url
    upload-unknown e w unknown =
        let refused =
          with_role-unknown srv.encrypt srv.metadata srv.security srv.storage srv.access_store
            srv.user_storage (λ r. r.can_upload_data) (g.bind sent) w
            (upload_object srv.encrypt srv.metadata srv.security srv.storage srv.access_store
              srv.user_storage srv.rand_read (g.bind sent))
            api_key e
            (query_key srv g http addr c sent _ _ "apiKey" api_key
              (upload_url-Reads addr a b k hb hk api_key) refl bytes)
            unknown in
        let (text, read) = c.contract.abort_answered _ e _ in
        (_, answered w _ text refused refl read, refl)
