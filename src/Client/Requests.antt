-- ===== src/Client/Requests.antt =====
-- The URLs of client/client.go and what a server reads of them.

use secure_store.Base64.{encode_raw_url, symbol}
use secure_store.Client.{
  add_key_url, add_user_url, delete_bucket_url, delete_url, download_url, from_key_url,
  new_bucket_url, upload_url,
}
use secure_store.Effects.Reader.{Bytes}
use secure_store.Prelude.{
  All, Bool, List, String, [], all, all-append, ap, arith, codes, false, if◌then◌else◌, nat_eq, not,
  refl, true, ℕ, ◌%◌, ◌&&◌, ◌*◌, ◌++◌, ◌+◌, ◌/◌, ◌<◌, ◌∙◌, ◌∷◌, ◌≡◌,
}
use secure_store.Sanitizer.{match_string, new_matcher}
use secure_store.Sanitizer.Accepted.{id_char, match_string-id_char}
use secure_store.Text.{Text}
use secure_store.Url.{lacks, parse_query, parse_url}
use secure_store.Url.Fields.{
  Unreserved, join_fields, lacks-written, parse_query-join_fields, piece_list, url_char,
}
use secure_store.Url.Target.{IsAddress, parse_url-target}

abbrev Accepted : String → Type 0
Accepted id = match_string new_matcher id ≡ true

id_char-url_char : (c : ℕ) → id_char c ≡ true → url_char c ≡ true
unfolding id_char
id_char-url_char c h = ground arith

all-url_char : (xs : Text) → all id_char xs ≡ true → all url_char xs ≡ true
all-url_char [] h = refl
all-url_char (x ∷ xs) h = ground (arith, id_char-url_char x, all-url_char xs)

-- An id that the sanitizer accepts needs no escape in a URL.
pub match_string-url_char :
    (id : String) → match_string new_matcher id ≡ true → all url_char (codes id) ≡ true
match_string-url_char id h = all-url_char (codes id) (match_string-id_char id h)

symbol-url_char : (v : ℕ) → url_char (symbol b'-' b'_' v) ≡ true
unfolding symbol
symbol-url_char v = ground arith

-- Nor does base64 of the URL alphabet.
pub encode_raw_url-url_char : (bs : Bytes) → all url_char (encode_raw_url bs) ≡ true
unfolding encode_raw_url
encode_raw_url-url_char [] = refl
encode_raw_url-url_char (a ∷ []) =
    rw (symbol-url_char (a / 4)) (rw (symbol-url_char ((a % 4) * 16)) refl)
encode_raw_url-url_char (a ∷ b ∷ []) =
    rw (symbol-url_char (a / 4))
      (rw (symbol-url_char ((a % 4) * 16 + b / 16)) (rw (symbol-url_char ((b % 16) * 4)) refl))
encode_raw_url-url_char (a ∷ b ∷ c ∷ rest) = rw (symbol-url_char (a / 4)) (
    rw (symbol-url_char ((a % 4) * 16 + b / 16)) (
      rw (symbol-url_char ((b % 16) * 4 + c / 64))
        (rw (symbol-url_char (c % 64)) (encode_raw_url-url_char rest))))

-- The fields of a query that need no escape.
abbrev pub unescaped : List (Text × Text) → Bool
unescaped = all (λ f. all url_char f.0 && all url_char f.1)

unescaped-All : (fs : List (Text × Text)) → unescaped fs ≡ true → All Unreserved fs
unescaped-All [] h = tt
unescaped-All ((k, v) ∷ fs) h = ((ground arith, ground arith), unescaped-All fs (ground arith))

all-low : (xs : Text) → all url_char xs ≡ true → All (λ c. c < 55296) xs
all-low [] h = tt
all-low (x ∷ xs) h = (ground arith, all-low xs (ground arith))

pub encode_raw_url-low : (bs : Bytes) → All (λ c. c < 55296) (encode_raw_url bs)
encode_raw_url-low bs = all-low (encode_raw_url bs) (encode_raw_url-url_char bs)

-- What a server reads of a URL: the path, and the query as names and values without escapes.
pub record Reads (url path : Text) (fs : List (Text × Text)) : Type 0 where
  pub no_escapes : unescaped fs ≡ true
  pub path_read : (parse_url url).0 ≡ path
  pub query_read : parse_query (parse_url url).1 ≡ fs

lacks-join_fields :
    (fs : List (Text × Text)) → All Unreserved fs → lacks b'#' (join_fields fs) ≡ true
lacks-join_fields [] h = refl
lacks-join_fields ((k, v) ∷ []) (h, t) = lacks-written b'#' k v refl refl h
lacks-join_fields ((k, v) ∷ f ∷ fs) (h, t) = rw (piece_list k v (join_fields (f ∷ fs))) (
    ground (
      arith,
      all-append (λ x. not (nat_eq x b'#')) (k ++ (b'=' ∷ v)) (b'&' ∷ join_fields (f ∷ fs)),
      lacks-written b'#' k v refl refl h,
      lacks-join_fields (f ∷ fs) t,
    ))

abbrev pub key_field : String → Bytes → List (Text × Text)
key_field name bs = (codes name, encode_raw_url bs) ∷ []

abbrev pub object_fields : String → String → List (Text × Text) → List (Text × Text)
object_fields b k rest = (codes "bucketId", codes b) ∷ (codes "keyId", codes k) ∷ rest

module _ (addr : String) (a : IsAddress (codes addr)) where
  url-Reads :
      (path : Text) (fs : List (Text × Text))
      → lacks b'?' path ≡ true
      → lacks b'#' path ≡ true
      → unescaped fs ≡ true
      → Reads (codes addr ++ (b'/' ∷ (path ++ (b'?' ∷ join_fields fs)))) (b'/' ∷ path) fs
  url-Reads path fs p p' h =
      let u = unescaped-All fs h in
      let target =
        parse_url-target (codes addr) a path (join_fields fs) p p' (lacks-join_fields fs u) in
      record {
        no_escapes = h;
        path_read = ap (λ t. t.0) target;
        query_read = ap (λ t. parse_query t.1) target ∙ parse_query-join_fields fs u;
      }

  module _ (b k : String) (hb : Accepted b) (hk : Accepted k) where
    bucket_plain : all url_char (codes b) ≡ true
    bucket_plain = match_string-url_char b hb

    key_plain : all url_char (codes k) ≡ true
    key_plain = match_string-url_char k hk

    pub new_bucket_url-Reads :
        Reads (new_bucket_url addr b) (codes "/new-bucket") ((codes "bucketId", codes b) ∷ [])
    new_bucket_url-Reads = url-Reads (codes "new-bucket") _ refl refl (rw bucket_plain refl)

    pub delete_bucket_url-Reads :
        Reads (delete_bucket_url addr b) (codes "/delete-bucket") ((codes "bucketId", codes b) ∷ [])
    delete_bucket_url-Reads = url-Reads (codes "delete-bucket") _ refl refl (rw bucket_plain refl)

    pub download_url-Reads :
        Reads (download_url addr b k) (codes "/download") (object_fields b k [])
    download_url-Reads =
        url-Reads (codes "download") (object_fields b k []) refl refl
          (rw bucket_plain (rw key_plain refl))

    pub delete_url-Reads : Reads (delete_url addr b k) (codes "/delete") (object_fields b k [])
    delete_url-Reads =
        url-Reads (codes "delete") (object_fields b k []) refl refl
          (rw bucket_plain (rw key_plain refl))

    -- From the URL of an upload a server reads the path /upload and, in the query, the ids and the
    -- API key in base64, if the ids are accepted by the sanitizer.
    pub upload_url-Reads :
        (api_key : Bytes)
        → Reads
            (upload_url addr b k api_key)
            (codes "/upload")
            (object_fields b k (key_field "apiKey" api_key))
    upload_url-Reads api_key =
        url-Reads (codes "upload") (object_fields b k (key_field "apiKey" api_key)) refl refl
          (rw bucket_plain (rw key_plain (rw (encode_raw_url-url_char api_key) refl)))

  pub add_key_url-Reads :
      (api_key : Bytes)
      → Reads (add_key_url addr api_key) (codes "/api/add") (key_field "apiKey" api_key)
  add_key_url-Reads api_key =
      url-Reads (codes "api/add") (key_field "apiKey" api_key) refl refl
        (rw (encode_raw_url-url_char api_key) refl)

  pub add_user_url-Reads :
      (api_key : Bytes)
      → Reads (add_user_url addr api_key) (codes "/api/user/create") (key_field "apiKey" api_key)
  add_user_url-Reads api_key =
      url-Reads (codes "api/user/create") (key_field "apiKey" api_key) refl refl
        (rw (encode_raw_url-url_char api_key) refl)

  pub from_key_url-Reads :
      (u : String) (unlock : Bytes) (in_url_key : Bool)
      → Accepted u
      → Reads
          (from_key_url addr u unlock in_url_key)
          (codes "/api/download")
          ((codes "urlKey", codes u) ∷ (if in_url_key then key_field "unlockKey" unlock else []))
  from_key_url-Reads u unlock true h =
      url-Reads (codes "api/download") ((codes "urlKey", codes u) ∷ key_field "unlockKey" unlock)
        refl refl (rw (match_string-url_char u h) (rw (encode_raw_url-url_char unlock) refl))
  from_key_url-Reads u unlock false h =
      url-Reads (codes "api/download") ((codes "urlKey", codes u) ∷ []) refl refl
        (rw (match_string-url_char u h) refl)
