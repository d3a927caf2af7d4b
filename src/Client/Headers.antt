-- ===== src/Client/Headers.antt =====
-- The headers that client/client.go writes, and the requests that net/http sends as they are.

use secure_store.Base64.{encode_raw_url}
use secure_store.Client.Requests.{encode_raw_url-low, encode_raw_url-url_char}
use secure_store.Effects.{ok}
use secure_store.Effects.Reader.{Bytes, read_all}
use secure_store.Http.{HttpRequest}
use secure_store.Prelude.{
  Bool, String, [], all, ap, arith, codes, leb, length, refl, true, ℕ, ◌&&◌, ◌<◌, ◌||◌, ◌∙◌, ◌∷◌,
  ◌≡◌, ◌⊎◌,
}
use secure_store.Prelude.Eq.{bytes_Eq, string_Eq, ◌==◌}
use secure_store.Prelude.Int.{negsuc, pos, ℤ}
use secure_store.Text.{Text, codes-from_codes, from_codes}
use secure_store.Url.Fields.{url_char}

-- The header names of `Upload` and `DownloadFromKey`.
abbrev pub own_name : String → Bool
own_name name = (name == "filename") || (name == "unlockKey")

visible : ℕ → Bool
visible c = leb 33 c && leb c 126

last_visible : Text → Bool
unfolding visible
last_visible [] = true
last_visible (c ∷ []) = visible c
last_visible (c ∷ d ∷ cs) = last_visible (d ∷ cs)

-- ASCII without control characters, and without a space at either end.
unfoldable pub header_text : Text → Bool
unfolding visible last_visible
header_text [] = true
header_text (c ∷ cs) = visible c && all (λ d. leb 32 d && leb d 126) cs && last_visible (c ∷ cs)

-- A length as net/http finds it for a body: the right one, or none for a body with something in it.
abbrev pub Told : ℤ → Bytes → Type 0
Told n content = (n ≡ pos (length content)) ⊎ ((n ≡ negsuc 0) × (0 < length content))

pub record WellFormed (r : HttpRequest) : Type 0 where
  pub headers_sent : all (λ h. own_name h.0 && header_text (codes h.1)) r.headers ≡ true
  pub content : Bytes
  pub content_read : read_all r.body ≡ ok content
  pub length_told : Told r.body_length content

url_char-visible : (c : ℕ) → url_char c ≡ true → visible c ≡ true
unfolding visible
url_char-visible c h = ground arith

visible-printable :
    (cs : Text) → all url_char cs ≡ true → all (λ d. leb 32 d && leb d 126) cs ≡ true
visible-printable [] h = refl
visible-printable (c ∷ cs) h = ground (arith, visible-printable cs (ground arith))

url_char-last_visible : (cs : Text) → all url_char cs ≡ true → last_visible cs ≡ true
unfolding last_visible
url_char-last_visible [] h = refl
url_char-last_visible (c ∷ []) h = url_char-visible c (ground arith)
url_char-last_visible (c ∷ d ∷ cs) h = url_char-last_visible (d ∷ cs) (ground arith)

url_char-header_text : (cs : Text) → all url_char cs ≡ true → header_text cs ≡ true
unfolding header_text
url_char-header_text [] h = refl
url_char-header_text (c ∷ cs) h =
    rw (url_char-visible c (ground arith))
      (rw (visible-printable cs (ground arith)) (url_char-last_visible (c ∷ cs) h))

pub header_text-encode_raw_url :
    (bs : Bytes) → header_text (codes (from_codes (encode_raw_url bs))) ≡ true
header_text-encode_raw_url bs =
    ap header_text (codes-from_codes (encode_raw_url bs) (encode_raw_url-low bs))
    ∙ url_char-header_text (encode_raw_url bs) (encode_raw_url-url_char bs)
