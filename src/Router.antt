-- ===== src/Router.antt =====
-- router.go: what each route does to the stores and which calls it makes on `gin.Context`, in
-- their order. gin and net/http are libraries: a request is what the handlers read of it, and a
-- reply is a call on the context. Logging is left out.

pub mod Objects
pub mod Api
pub mod Gate
pub mod Roles
pub mod Routes
pub mod Stored
use Prim.Native.String
use secure_store.Access.{AKey, ExAccessKey}
use secure_store.Effects.{Error, Exec, Outcome, err, ok, panic}
use secure_store.Effects.Reader.{Bytes, Reader, read_all}
use secure_store.Prelude.{Bool, List, String, [], false, leb, length, not, true, ℕ, ◌∷◌}
use secure_store.Prelude.Int.{negsuc, pos, ℤ}
use secure_store.Users.{User, UserJson, UserSafeJson}

-- The interfaces `AccessStore` of access/access.go and `UserStorage` of users/users.go.
pub record AccessStore (A : Type 0) : Type 0 where
  pub add_key : AKey → Exec A (Unit {0})
  pub access : String → Exec A AKey
  pub delete_key : AKey → Exec A (Unit {0})

pub record UserStorage (U : Type 0) : Type 0 where
  pub create : User → Exec U (Unit {0})
  pub resolve_by_api_key : Bytes → Exec U User

-- `ShouldBindJSON` of the body as an access key and as a user is `json_key` and `json_user`.
pub record Request : Type 0 where
  pub query : String → String
  pub header : String → String
  pub body : Reader
  pub content_length : ℤ
  pub json_key : Outcome ExAccessKey
  pub json_user : Outcome UserJson

pub data Reply : Type 0 where
  abort_with_error : ℕ → Error → Reply
  string : ℕ → String → Reply
  -- `DataFromReader`, with the file name of its `Content-Disposition`
  data_from_reader : ℕ → ℤ → Reader → String → Reply
  secure_json : ℕ → UserSafeJson → Reply
  -- `HTML`, with the name of the template, and `StaticFile`
  html : ℕ → String → Reply
  file : String → Reply

-- How a handler left: its stores, its calls on the context, and whether it panicked.
pub record Handled (W : Type 0) : Type 0 where
  pub world : W
  pub replies : List Reply
  pub panicked : Bool

module _ {W : Type 0} where
  abbrev pub reply : Reply → W → Handled W
  reply r w = record { world = w; replies = r ∷ []; panicked = false }

  abbrev pub abort : ℕ → Error → W → Handled W
  abort status e w = reply (abort_with_error status e) w

  -- The two ends of a call that returns an error; a panic leaves the handler.
  abbrev pub either :
      {A : Type 0} → Outcome A × W → (A → W → Handled W) → (Error → W → Handled W) → Handled W
  either r f g = elim r.0 [
    | ok a ↦ f a r.1
    | err e ↦ g e r.1
    | panic ↦ record { world = r.1; replies = []; panicked = true }
  ]

abbrev pub status_ok : ℕ
status_ok = 200

-- Whether data can be sent with an announced length: they can be read to the end, and are not
-- longer than that. net/http refuses what is longer.
unfoldable pub sends_all : ℤ → Outcome Bytes → Bool
sends_all (pos n) (ok bytes) = leb (length bytes) n
sends_all (negsuc n) (ok bytes) = true
sends_all n (err e) = false
sends_all n panic = false

-- `DataFromReader` reads the data in the handler, and panics if they cannot be sent.
abbrev pub send_data : {W : Type 0} → ℤ → Reader → String → W → Handled W
send_data n content filename w = record {
  world = w;
  replies = data_from_reader status_ok n content filename ∷ [];
  panicked = not (sends_all n (read_all content));
}

abbrev pub status_bad_request : ℕ
status_bad_request = 400

abbrev pub status_forbidden : ℕ
status_forbidden = 403

abbrev pub status_internal_server_error : ℕ
status_internal_server_error = 500

-- Pieces of `c.String`'s format put together.
abbrev pub said : String → String → String
said a b = String.◌++◌ a b
