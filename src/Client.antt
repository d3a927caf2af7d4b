-- ===== src/Client.antt =====
-- client/client.go: the requests that the client makes and what it makes of the responses. Package
-- net/http and the network are a parameter; so is the marshalling of JSON. Printing is left out,
-- and so is the body of a response that the code never closes.
pub mod Requests
pub mod Headers
pub mod Answers
pub mod EndToEnd
pub mod Uploaded
pub mod Downloaded
pub mod Kept
pub mod Unlocked
use secure_store.Access.{ExAccessKey}
use secure_store.Base64.{encode_raw_url}
use secure_store.Effects.{
  Exec, Outcome, err, lift, ok, panic, pure, unexpected_pong, unexpected_status, ◌>>=◌, ◌>>◌,
}
use secure_store.Effects.Reader.{Bytes, Reader, eof, new_reader, read_all}
use secure_store.Http.{Http, HttpRequest, HttpResponse, Method, http_delete, http_get, http_post}
use secure_store.Prelude.{
  Bool, List, String, [], codes, if◌then◌else◌, length, nat_eq, none, some, ◌++◌, ◌∷◌,
}
use secure_store.Prelude.Eq.{bytes_Eq, string_Eq, ◌==◌}
use secure_store.Prelude.Int.{pos, ℤ}
use secure_store.Text.{Text, from_codes}
use secure_store.Users.{UserJson}

-- `fmt.Sprintf("%v/path?name=%v&…", …)` from its parts, from right to left
abbrev pub new_bucket_url : String → String → Text
new_bucket_url addr bucket_id = codes addr ++ (codes "/new-bucket?bucketId=" ++ codes bucket_id)

abbrev pub upload_url : String → String → String → Bytes → Text
upload_url addr bucket_id key_id api_key =
    codes addr
    ++ (codes "/upload?bucketId="
        ++ (codes bucket_id
            ++ (codes "&keyId=" ++ (codes key_id ++ (codes "&apiKey=" ++ encode_raw_url api_key)))))

abbrev pub download_url : String → String → String → Text
download_url addr bucket_id key_id =
    codes addr
    ++ (codes "/download?bucketId=" ++ (codes bucket_id ++ (codes "&keyId=" ++ codes key_id)))

abbrev pub delete_url : String → String → String → Text
delete_url addr bucket_id key_id =
    codes addr
    ++ (codes "/delete?bucketId=" ++ (codes bucket_id ++ (codes "&keyId=" ++ codes key_id)))

abbrev pub delete_bucket_url : String → String → Text
delete_bucket_url addr bucket_id =
    codes addr ++ (codes "/delete-bucket?bucketId=" ++ codes bucket_id)

abbrev pub add_key_url : String → Bytes → Text
add_key_url addr api_key = codes addr ++ (codes "/api/add?apiKey=" ++ encode_raw_url api_key)

abbrev pub add_user_url : String → Bytes → Text
add_user_url addr api_key =
    codes addr ++ (codes "/api/user/create?apiKey=" ++ encode_raw_url api_key)

abbrev pub from_key_url : String → String → Bytes → Bool → Text
from_key_url addr url_key unlock_key in_url_key =
    if in_url_key
    then codes addr
      ++ (codes "/api/download?urlKey="
          ++ (codes url_key ++ (codes "&unlockKey=" ++ encode_raw_url unlock_key)))
    else codes addr ++ (codes "/api/download?urlKey=" ++ codes url_key)

abbrev pub http_request : Method → Text → List (String × String) → Reader → ℤ → HttpRequest
http_request method url headers body body_length = record {
  method = method;
  url = url;
  headers = headers;
  body = body;
  body_length = body_length;
}

module _ {N : Type 0} (http : Http N) where
  -- `http.NewRequest`, and `http.DefaultClient.Do` on what it made
  abbrev new_request : Method → Text → List (String × String) → Reader → ℤ → Outcome HttpRequest
  new_request method url headers body body_length = elim (http.url_error url) [
    | some e ↦ err e
    | none ↦ ok (http_request method url headers body body_length)
  ]

  abbrev pub request : Method → Text → List (String × String) → Reader → ℤ → Exec N HttpResponse
  request method url headers body body_length =
      lift (new_request method url headers body body_length) >>= http.send

  -- `if resp.StatusCode != http.StatusOK`
  expect_ok : HttpResponse → Exec N (Unit {0})
  expect_ok resp n = if nat_eq resp.status_code 200 then (ok tt, n) else (err unexpected_status, n)

  unfoldable pub create_bucket : String → String → Exec N (Unit {0})
  unfolding expect_ok
  create_bucket addr bucket_id =
      request http_get (new_bucket_url addr bucket_id) [] eof (pos 0) >>= expect_ok

  pong : Outcome Bytes → Exec N (Unit {0})
  pong (ok text) n = if text == codes "Pong" then (ok tt, n) else (err unexpected_pong, n)
  pong (err e) n = (err e, n)
  pong panic n = (panic, n)

  unfoldable pub ping : String → Exec N (Unit {0})
  unfolding expect_ok pong
  ping addr = do
    resp ← request http_get (codes addr ++ codes "/ping") [] eof (pos 0)
    expect_ok resp
    pong (read_all resp.body)

  -- The response is printed; neither its status nor an error of its body is looked at.
  after_upload : HttpResponse → Exec N (Unit {0})
  after_upload resp n = elim (read_all resp.body) [
    | ok text ↦ (ok tt, n)
    | err e ↦ (ok tt, n)
    | panic ↦ (panic, n)
  ]

  unfoldable pub upload : String → String → String → Reader → ℤ → String → Bytes → Exec N (Unit {0})
  unfolding after_upload
  upload addr bucket_id key_id content length filename api_key =
      request http_post (upload_url addr bucket_id key_id api_key) (("filename", filename) ∷ [])
        content length
      >>= after_upload

  -- The status is not looked at.
  unfoldable pub download : String → String → String → Exec N (Reader × ℤ)
  download addr bucket_id key_id = do
    resp ← request http_get (download_url addr bucket_id key_id) [] eof (pos 0)
    pure (resp.body, resp.content_length)

  unfoldable pub delete : String → String → String → Exec N (Unit {0})
  unfolding expect_ok
  delete addr bucket_id key_id =
      request http_delete (delete_url addr bucket_id key_id) [] eof (pos 0) >>= expect_ok

  unfoldable pub delete_bucket : String → String → Exec N (Unit {0})
  unfolding expect_ok
  delete_bucket addr bucket_id =
      request http_delete (delete_bucket_url addr bucket_id) [] eof (pos 0) >>= expect_ok

  -- The error of `http.NewRequest` is overwritten, and the request that it did not make is used:
  -- a panic.
  panicking : Outcome HttpRequest → Outcome HttpRequest
  panicking (ok r) = ok r
  panicking (err e) = panic
  panicking panic = panic

  -- `marshal` is `json.Marshal` of an access key.
  unfoldable pub add_key :
      (ExAccessKey → Outcome Bytes) → String → ExAccessKey → Bytes → Exec N (Unit {0})
  unfolding expect_ok panicking
  add_key marshal addr ex_key api_key = do
    json ← lift (marshal ex_key)
    r ← lift (
        panicking (
          new_request http_post (add_key_url addr api_key)
            (("Content-Type", "application/json") ∷ []) (new_reader json) (pos (length json))))
    resp ← http.send r
    expect_ok resp

  unfoldable pub download_from_key : String → String → Bytes → Bool → Exec N (Reader × ℤ)
  unfolding expect_ok
  download_from_key addr url_key unlock_key in_url_key = do
    resp ←
        request http_get (from_key_url addr url_key unlock_key in_url_key)
          (if in_url_key then [] else ("unlockKey", from_codes (encode_raw_url unlock_key)) ∷ [])
          eof (pos 0)
    expect_ok resp
    pure (resp.body, resp.content_length)

  unfoldable pub add_user :
      (UserJson → Outcome Bytes) → String → UserJson → Bytes → Exec N (Unit {0})
  unfolding expect_ok
  add_user marshal addr user_json api_key = do
    json ← lift (marshal user_json)
    resp ←
        request http_post (add_user_url addr api_key) (("Content-Type", "application/json") ∷ [])
          (new_reader json) (pos (length json))
    expect_ok resp
