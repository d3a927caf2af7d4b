-- ===== src/Client/Answers.antt =====
-- What the calls of client/client.go return for a response.
use secure_store.Client
use secure_store.Base64.{encode_raw_url}
use secure_store.Client.{
  after_upload, download_url, expect_ok, from_key_url, http_request, upload_url,
}
use secure_store.Effects.{ok}
use secure_store.Effects.Reader.{Bytes, Reader, eof, read_all}
use secure_store.Http.{Http, HttpResponse, Method, http_get, http_post}
use secure_store.Prelude.{Bool, List, String, [], arith, if◌then◌else◌, length, none, ◌∷◌, ◌≡◌}
use secure_store.Prelude.Int.{pos, ℤ}
use secure_store.Text.{Text, from_codes}

module _ {N : Type 0} (http : Http N) where
  pub request-send :
      (method : Method) (url : Text) (headers : List (String × String)) (body : Reader)
      (body_length : ℤ) (n n' : N) (resp : HttpResponse)
      → http.url_error url ≡ none
      → http.send (http_request method url headers body body_length) n ≡ (ok resp, n')
      → Client.request http method url headers body body_length n ≡ (ok resp, n')
  request-send method url headers body body_length n n' resp u s = ground arith

  -- Whatever the status is, if the body of the response can be read.
  pub upload-answered :
      (addr bucket_id key_id : String) (content : Reader) (length : ℤ) (filename : String)
      (api_key text : Bytes) (n n' : N) (resp : HttpResponse)
      → Client.request http http_post
          (upload_url addr bucket_id key_id api_key)
          (("filename", filename) ∷ [])
          content
          length
          n
        ≡ (ok resp, n')
      → read_all resp.body ≡ ok text
      → Client.upload http addr bucket_id key_id content length filename api_key n ≡ (ok tt, n')
  unfolding Client.upload after_upload
  upload-answered addr b k content length filename api_key text n n' resp s t = ground arith

  pub download-answered :
      (addr bucket_id key_id : String) (n n' : N) (resp : HttpResponse) (told : ℤ)
      → Client.request http http_get (download_url addr bucket_id key_id) [] eof (pos 0) n
        ≡ (ok resp, n')
      → resp.content_length ≡ told
      → Client.download http addr bucket_id key_id n ≡ (ok (resp.body, told), n')
  unfolding Client.download
  download-answered addr b k n n' resp told s t = ground arith

  pub download_from_key-answered :
      (addr url_key : String) (unlock_key : Bytes) (in_url_key : Bool) (n n' : N)
      (resp : HttpResponse) (told : ℤ)
      → Client.request http http_get
          (from_key_url addr url_key unlock_key in_url_key)
          (if in_url_key then [] else ("unlockKey", from_codes (encode_raw_url unlock_key)) ∷ [])
          eof
          (pos 0)
          n
        ≡ (ok resp, n')
      → resp.status_code ≡ 200
      → resp.content_length ≡ told
      → Client.download_from_key http addr url_key unlock_key in_url_key n
        ≡ (ok (resp.body, told), n')
  unfolding Client.download_from_key expect_ok
  download_from_key-answered addr u k b n n' resp told s status t = ground arith
