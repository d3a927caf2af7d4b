-- ===== src/Client/Downloaded.antt =====
-- `Download` of client/client.go with the handlers of router.go behind it.
use secure_store.Client
use secure_store.Compound
use secure_store.Client.{download_url, http_request}
use secure_store.Client.Answers.{download-answered}
use secure_store.Client.EndToEnd.{Connected, Gin, query_text, request-Reads}
use secure_store.Client.Headers.{WellFormed}
use secure_store.Client.Requests.{download_url-Reads}
use secure_store.Compound.{CompoundStore}
use secure_store.Effects.{ok}
use secure_store.Effects.Reader.{Bytes, Reader, eof, read_all}
use secure_store.Http.{Http, HttpRequest, http_get}
use secure_store.Metadata.{Metadata}
use secure_store.Prelude.{String, [], ap, codes, inl, length, none, refl, true, ◌≡◌, ◌⊎◌}
use secure_store.Prelude.Int.{negsuc, pos, ℤ}
use secure_store.Router.{data_from_reader, reply, sends_all, status_ok}
use secure_store.Router.Api.{World}
use secure_store.Router.Routes.{Server, download_route, find_route, handle}
use secure_store.Router.Stored.{announced-sends_all, get_download-found}
use secure_store.Sanitizer.{match_string, new_matcher}
use secure_store.Url.{value_under}
use secure_store.Url.Target.{IsAddress}

module _ {M S T A U : Type 0} (srv : Server M S T A U) (g : Gin (World (CompoundStore M S T) A U))
    (http : Http (World (CompoundStore M S T) A U)) (addr : String)
    (c : Connected srv g http addr) where
  abbrev Everything : Type 0
  Everything = World (CompoundStore M S T) A U

  module _ (b k : String) (a : IsAddress (codes addr)) (hb : match_string new_matcher b ≡ true)
      (hk : match_string new_matcher k ≡ true)
      (accepted : http.url_error (download_url addr b k) ≡ none) where
    abbrev asked : HttpRequest
    asked = http_request http_get (download_url addr b k) [] eof (pos 0)

    found :
        (meta : Metadata) (out : Reader) (w : Everything)
        → Compound.read srv.encrypt srv.metadata srv.security srv.storage b k w.objects
          ≡ (ok (meta, out), w.objects)
        → sends_all meta.length (read_all out) ≡ true
        → handle srv download_route (g.bind asked) w
          ≡ reply (data_from_reader status_ok meta.length out meta.filename) w
    unfolding handle value_under
    found meta out w r all_sent =
        let q = query_text srv g http addr c asked _ _ in
        let asks = download_url-Reads addr a b k hb hk in
        ap
          (λ h. record {
            world = record w { objects = h.world };
            replies = h.replies;
            panicked = h.panicked;
          })
          (get_download-found srv.encrypt srv.metadata srv.security srv.storage srv.access_store
            srv.user_storage (g.bind asked) w.objects b k meta out (q "bucketId" b asks refl)
            (q "keyId" k asks refl) hb hk r all_sent)

    formed : WellFormed asked
    unfolding read_all
    formed = record {
      headers_sent = refl;
      content = [];
      content_read = refl;
      length_told = inl refl;
    }

    -- If the compound store reads an object to its end, and its metadata tells its length or -1, then
    -- `Download` of the client changes nothing on the server and returns a body from which the
    -- object is read, and its length or the one of the metadata; under the conditions on the
    -- request that the section names.
    pub download-read :
        (meta : Metadata) (out : Reader) (plain : Bytes) (w : Everything)
        → Compound.read srv.encrypt srv.metadata srv.security srv.storage b k w.objects
          ≡ (ok (meta, out), w.objects)
        → read_all out ≡ ok plain
        → (meta.length ≡ pos (length plain)) ⊎ (meta.length ≡ negsuc 0)
        → (body : Reader) × (told : ℤ) × (Client.download http addr b k w ≡ (ok (body, told), w))
          × (read_all body ≡ ok plain)
          × ((told ≡ pos (length plain)) ⊎ (told ≡ meta.length))
    unfolding find_route
    download-read meta out plain w r all_read announced =
        let (ok_status, n_told, body_told) =
          c.contract.data_answered meta.length out plain meta.filename w all_read announced in
        let sent =
          request-Reads srv g http addr c http_get (download_url addr b k) [] eof (pos 0) _ _ _
            download_route w _ refl accepted formed (download_url-Reads addr a b k hb hk) refl refl
            (found meta out w r (
              announced-sends_all srv.encrypt srv.metadata srv.security srv.storage srv.access_store
                srv.user_storage meta.length out plain all_read announced))
            refl in
        (_, _, download-answered http addr b k w w _ _ sent refl, body_told, n_told)
