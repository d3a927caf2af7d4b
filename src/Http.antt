-- ===== src/Http.antt =====
-- What the program uses of net/http: requests and responses, and `http.DefaultClient`.

use secure_store.Effects.{Error, Exec}
use secure_store.Effects.Reader.{Reader}
use secure_store.Prelude.{List, Option, String, [], if◌then◌else◌, ℕ, ◌∷◌}
use secure_store.Prelude.Eq.{bytes_Eq, string_Eq, ◌==◌}
use secure_store.Prelude.Int.{ℤ}
use secure_store.Text.{Text}

pub data Method : Type 0 where
  http_get http_post http_delete : Method

-- The length of the body is the one that net/http finds: -1 where the type of the reader does not
-- tell.
pub record HttpRequest : Type 0 where
  pub method : Method
  pub url : Text
  pub headers : List (String × String)
  pub body : Reader
  pub body_length : ℤ

pub record HttpResponse : Type 0 where
  pub status_code : ℕ
  pub body : Reader
  pub content_length : ℤ

-- `url_error` is why `http.NewRequest` refuses a URL, if it does.
pub record Http (N : Type 0) : Type 0 where
  pub url_error : Text → Option Error
  pub send : HttpRequest → Exec N HttpResponse

-- `Header.Get`, for a name as the code writes it.
abbrev pub header_value : String → List (String × String) → String
header_value name [] = ""
header_value name ((n, v) ∷ hs) = let rest = header_value name hs in if n == name then v else rest
