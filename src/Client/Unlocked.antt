-- ===== src/Client/Unlocked.antt =====
-- `DownloadFromKey` of client/client.go and the unlock key that /api/download of router.go reads.
use secure_store.Client
use secure_store.Compound
use secure_store.Access.{AKey, valid_key}
use secure_store.Base64.{decode_raw_url, encode_raw_url}
use secure_store.Base64.RoundTrip.{decode-encode_raw_url}
use secure_store.Cipher.RoundTrip.{IsByte}
use secure_store.Client.{from_key_url, http_request}
use secure_store.Client.Answers.{download_from_key-answered}
use secure_store.Client.EndToEnd.{Connected, Gin, query_key, query_text, request-Reads}
use secure_store.Client.Headers.{WellFormed, header_text-encode_raw_url}
use secure_store.Client.Requests.{encode_raw_url-low, from_key_url-Reads}
use secure_store.Compound.{CompoundStore}
use secure_store.Effects.{ok}
use secure_store.Effects.Reader.{Bytes, Reader, eof, read_all}
use secure_store.Http.{Http, HttpRequest, http_get}
use secure_store.Metadata.{Metadata}
use secure_store.Prelude.{
  All, Bool, Bool-cases, List, Option, String, [], ap, codes, false, if◌then◌else◌, inl, inr,
  length, none, refl, some, sym, true, ◌++◌, ◌∙◌, ◌∷◌, ◌≡◌, ◌⊎◌,
}
use secure_store.Prelude.Int.{negsuc, pos, ℤ}
use secure_store.Router.Api.{World, given_key}
use secure_store.Router.Routes.{Server, api_download_route, find_route, handle, is_in_debug_mode}
use secure_store.Router.Stored.{announced-sends_all, api_download-unlocked}
use secure_store.Sanitizer.{match_string, new_matcher}
use secure_store.Text.{Text, codes-from_codes, from_codes}
use secure_store.Url.{value_under}
use secure_store.Url.Target.{IsAddress}

module _ {M S T A U : Type 0} (srv : Server M S T A U) (g : Gin (World (CompoundStore M S T) A U))
    (http : Http (World (CompoundStore M S T) A U)) (addr : String)
    (c : Connected srv g http addr) where
  abbrev Everything : Type 0
  Everything = World (CompoundStore M S T) A U

  abbrev key_header : Bytes → Bool → List (String × String)
  key_header unlock in_url_key =
      if in_url_key then [] else ("unlockKey", from_codes (encode_raw_url unlock)) ∷ []

  abbrev pub key_request : String → String → Bytes → Bool → HttpRequest
  key_request addr u unlock in_url_key =
      http_request http_get (from_key_url addr u unlock in_url_key) (key_header unlock in_url_key)
        eof (pos 0)

  abbrev read_unlock_key : HttpRequest → AKey → Option Bytes
  read_unlock_key r key =
      given_key srv.encrypt srv.metadata srv.security srv.storage srv.access_store srv.user_storage
        (g.bind r) key

  module _ (u : String) (unlock : Bytes) (a : IsAddress (codes addr))
      (hu : match_string new_matcher u ≡ true) (bytes : All IsByte unlock) where
    formed : (in_url_key : Bool) → WellFormed (key_request addr u unlock in_url_key)
    unfolding read_all
    formed true = record {
      headers_sent = refl;
      content = [];
      content_read = refl;
      length_told = inl refl;
    }
    formed false = record {
      headers_sent = rw (header_text-encode_raw_url unlock) refl;
      content = [];
      content_read = refl;
      length_told = inl refl;
    }

    at_address :
        (in_url_key : Bool)
        → (target : Text) × (from_key_url addr u unlock in_url_key ≡ codes addr ++ target)
    at_address true = (_, refl)
    at_address false = (_, refl)

    in_url :
        decode_raw_url (codes ((g.bind (key_request addr u unlock true)).query "unlockKey"))
        ≡ some unlock
    unfolding value_under encode_raw_url
    in_url =
        query_key srv g http addr c (key_request addr u unlock true) _ _ "unlockKey" unlock
          (from_key_url-Reads addr a u unlock true hu) refl bytes

    not_in_url : (g.bind (key_request addr u unlock false)).query "unlockKey" ≡ ""
    unfolding value_under
    not_in_url =
        query_text srv g http addr c (key_request addr u unlock false) _ _ "unlockKey" ""
          (from_key_url-Reads addr a u unlock false hu) refl

    in_header :
        decode_raw_url (codes ((g.bind (key_request addr u unlock false)).header "unlockKey"))
        ≡ some unlock
    in_header =
        ap (λ t. decode_raw_url (codes t))
          (c.contract.header_bound (key_request addr u unlock false) "unlockKey" (formed false)
            refl)
        ∙ ap decode_raw_url (codes-from_codes (encode_raw_url unlock) (encode_raw_url-low unlock))
        ∙ decode-encode_raw_url unlock bytes

    not_in_header : (g.bind (key_request addr u unlock true)).header "unlockKey" ≡ ""
    not_in_header =
        c.contract.header_bound (key_request addr u unlock true) "unlockKey" (formed true) refl

    -- For a url key that the sanitizer accepts: if `DownloadFromKey` puts the unlock key where the access key has it looked for, then
    -- /api/download reads exactly this unlock key, and otherwise it reads the empty one.
    pub given_key-key_request :
        (key : AKey) (in_url_key : Bool)
        → read_unlock_key (key_request addr u unlock in_url_key) key
          ≡ some (
              if in_url_key
              then (if key.resolve_by_url_key then unlock else [])
              else (if key.resolve_by_url_key then [] else unlock))
    unfolding decode_raw_url
    given_key-key_request key true = elim (Bool-cases key.resolve_by_url_key) [
      | inl r ↦ rw r in_url
      | inr r ↦ rw r (ap (λ t. decode_raw_url (codes t)) not_in_header)
    ]
    given_key-key_request key false = elim (Bool-cases key.resolve_by_url_key) [
      | inl r ↦ rw r (ap (λ t. decode_raw_url (codes t)) not_in_url)
      | inr r ↦ rw r in_header
    ]

    url_key_read :
        (in_url_key : Bool) → (g.bind (key_request addr u unlock in_url_key)).query "urlKey" ≡ u
    unfolding value_under
    url_key_read true =
        query_text srv g http addr c (key_request addr u unlock true) _ _ "urlKey" u
          (from_key_url-Reads addr a u unlock true hu) refl
    url_key_read false =
        query_text srv g http addr c (key_request addr u unlock false) _ _ "urlKey" u
          (from_key_url-Reads addr a u unlock false hu) refl

    key_given :
        (key : AKey) (in_url_key : Bool)
        → in_url_key ≡ key.resolve_by_url_key
        → read_unlock_key (key_request addr u unlock in_url_key) key ≡ some unlock
    key_given key true e = given_key-key_request key true ∙ rw (sym e) refl
    key_given key false e = given_key-key_request key false ∙ rw (sym e) refl

    -- Over a gin that binds well-formed requests and a network that brings those for the server's
    -- address to the handlers and their answers back, the address being a scheme and a host and
    -- net/http accepting the URL: if the access store has a key under a url key that the
    -- sanitizer accepts, this key asks for an unlock key and accepts the one given, which are
    -- bytes, the compound store reads its object to the end and is left as it was, the metadata
    -- telling the length of the object or -1, and `DownloadFromKey` puts the unlock key where the
    -- access key has it looked for, then it returns a body from which the object is read, with
    -- its length or the one of the metadata, and changes nothing on the server but what `Access`
    -- does.
    pub download_from_key-access :
        (in_url_key : Bool) (key : AKey) (access' : A) (meta : Metadata) (out : Reader)
        (plain : Bytes) (w : Everything)
        → http.url_error (from_key_url addr u unlock in_url_key) ≡ none
        → in_url_key ≡ key.resolve_by_url_key
        → srv.access_store.access u w.access ≡ (ok key, access')
        → key.needs_key ≡ true
        → valid_key key unlock ≡ ok true
        → Compound.read srv.encrypt srv.metadata srv.security srv.storage key.bucket_id key.key_id
            w.objects
          ≡ (ok (meta, out), w.objects)
        → read_all out ≡ ok plain
        → (meta.length ≡ pos (length plain)) ⊎ (meta.length ≡ negsuc 0)
        → (body : Reader) × (told : ℤ) × (Client.download_from_key http addr u unlock in_url_key w
            ≡ (ok (body, told), record w { access = access' }))
          × (read_all body ≡ ok plain)
          × ((told ≡ pos (length plain)) ⊎ (told ≡ meta.length))
    unfolding find_route handle
    download_from_key-access in_url_key key access' meta out plain w accepted e found asks valid r
          all_read announced =
        let w' : Everything = record w { access = access' } in
        let h =
          api_download-unlocked srv.encrypt srv.metadata srv.security srv.storage srv.access_store
            srv.user_storage (is_in_debug_mode srv.gin_mode)
            (g.bind (key_request addr u unlock in_url_key)) w u key access' unlock meta out
            (url_key_read in_url_key) hu found asks (key_given key in_url_key e) valid r
            (announced-sends_all srv.encrypt srv.metadata srv.security srv.storage srv.access_store
              srv.user_storage meta.length out plain all_read announced) in
        let (ok_status, n_told, body_told) =
          c.contract.data_answered meta.length out plain meta.filename w' all_read announced in
        let sent =
          request-Reads srv g http addr c http_get (from_key_url addr u unlock in_url_key)
            (key_header unlock in_url_key) eof (pos 0) _ _ _ api_download_route w _
            (at_address in_url_key).1 accepted (formed in_url_key)
            (from_key_url-Reads addr a u unlock in_url_key hu) refl refl h refl in
        (
          _,
          _,
          download_from_key-answered http addr u unlock in_url_key w w' _ _ sent ok_status refl,
          body_told,
          n_told,
        )
