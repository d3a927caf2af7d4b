-- ===== src/Client/EndToEnd.antt =====
-- Calls of client/client.go answered by the handlers of router.go.

use secure_store.Client
use secure_store.Base64.{decode_raw_url, encode_raw_url}
use secure_store.Base64.RoundTrip.{decode-encode_raw_url}
use secure_store.Cipher.RoundTrip.{IsByte}
use secure_store.Client.{http_request}
use secure_store.Client.Answers.{request-send}
use secure_store.Client.Headers.{WellFormed, own_name}
use secure_store.Client.Requests.{Reads, encode_raw_url-low}
use secure_store.Compound.{CompoundStore}
use secure_store.Effects.{Error, ok}
use secure_store.Effects.Reader.{Bytes, Reader, read_all}
use secure_store.Http.{Http, HttpRequest, HttpResponse, Method, header_value}
use secure_store.Prelude.{
  All, Bool, List, String, ap, codes, false, length, none, some, true, ℕ, ◌++◌, ◌∙◌, ◌≡◌, ◌⊎◌,
}
use secure_store.Prelude.Int.{negsuc, pos, ℤ}
use secure_store.Router.{Handled, Request, abort, data_from_reader, reply, status_ok, string}
use secure_store.Router.Api.{World}
use secure_store.Router.Routes.{
  Route, Server, favicon_route, find_route, handle, index_route, teapot_route,
}
use secure_store.Text.{Text, codes-from_codes, from_codes, from_codes-codes}
use secure_store.Url.{value_under}

-- What gin makes of a request, and what net/http makes of the calls on the context.
pub record Gin (W : Type 0) : Type 0 where
  pub bind : HttpRequest → Request
  pub answer : Handled W → HttpResponse

pub record GinContract {W : Type 0} (g : Gin W) : Type 0 where
  pub query_bound :
      (r : HttpRequest) (path : Text) (fs : List (Text × Text)) (name : String)
      → Reads r.url path fs
      → (g.bind r).query name ≡ from_codes (value_under (codes name) fs)
  pub header_bound :
      (r : HttpRequest) (name : String)
      → WellFormed r
      → own_name name ≡ true
      → (g.bind r).header name ≡ header_value name r.headers
  pub body_bound : (r : HttpRequest) → WellFormed r → (g.bind r).body ≡ r.body
  pub length_bound : (r : HttpRequest) → WellFormed r → (g.bind r).content_length ≡ r.body_length
  -- After a call of `String` or of `AbortWithError` there is a body that can be read.
  pub string_answered :
      (status : ℕ) (text : String) (w : W)
      → (sent : Bytes) × (read_all (g.answer (reply (string status text) w)).body ≡ ok sent)
  pub abort_answered :
      (status : ℕ) (e : Error) (w : W)
      → (sent : Bytes) × (read_all (g.answer (abort status e w)).body ≡ ok sent)
  -- `DataFromReader` of a reader with as many bytes as announced, or without an announced length:
  -- net/http tells the length of a small body all the same.
  pub data_answered :
      (n : ℤ) (content : Reader) (plain : Bytes) (filename : String) (w : W)
      → read_all content ≡ ok plain
      → (n ≡ pos (length plain)) ⊎ (n ≡ negsuc 0)
      → ((g.answer (reply (data_from_reader status_ok n content filename) w)).status_code
          ≡ status_ok)
        × (((g.answer (reply (data_from_reader status_ok n content filename) w)).content_length
              ≡ pos (length plain))
            ⊎ ((g.answer (reply (data_from_reader status_ok n content filename) w)).content_length
                ≡ n))
        × (read_all (g.answer (reply (data_from_reader status_ok n content filename) w)).body
            ≡ ok plain)

-- The routes that the client calls; the others serve pages and files.
abbrev pub for_clients : Route → Bool
for_clients teapot_route = false
for_clients index_route = false
for_clients favicon_route = false
for_clients _ = true

module _ {M S T A U : Type 0} (srv : Server M S T A U) (g : Gin (World (CompoundStore M S T) A U))
    (http : Http (World (CompoundStore M S T) A U)) where
  abbrev Everything : Type 0
  Everything = World (CompoundStore M S T) A U

  -- The network brings a request for a URL at an address to the handler that is registered for it,
  -- and its answer back, if the handler does not panic.
  pub record Connected (addr : String) : Type 0 where
    pub contract : GinContract g
    pub sends :
        (r : HttpRequest) (target path : Text) (fs : List (Text × Text)) (x : Route)
        (w : Everything)
        → r.url ≡ codes addr ++ target
        → WellFormed r
        → Reads r.url path fs
        → find_route r.method path ≡ some x
        → for_clients x ≡ true
        → (handle srv x (g.bind r) w).panicked ≡ false
        → http.send r w
          ≡ (ok (g.answer (handle srv x (g.bind r) w)), (handle srv x (g.bind r) w).world)

  module _ (addr : String) (c : Connected addr) where
    -- A request that net/http accepts, for a URL that the server reads, and what its handler does.
    pub request-Reads :
        (method : Method) (url : Text) (headers : List (String × String)) (body : Reader) (n : ℤ)
        (target path : Text) (fs : List (Text × Text)) (x : Route) (w : Everything)
        (done : Handled Everything)
        → url ≡ codes addr ++ target
        → http.url_error url ≡ none
        → WellFormed (http_request method url headers body n)
        → Reads url path fs
        → find_route method path ≡ some x
        → for_clients x ≡ true
        → handle srv x (g.bind (http_request method url headers body n)) w ≡ done
        → done.panicked ≡ false
        → Client.request http method url headers body n w ≡ (ok (g.answer done), done.world)
    request-Reads method url headers body n target path fs x w done there accepted formed h f called
          e finished =
        request-send http method url headers body n w _ _ accepted (
          c.sends (http_request method url headers body n) target path fs x w there formed h f
            called (ap (λ d. d.panicked) e ∙ finished)
          ∙ ap (λ d. (ok (g.answer d), d.world)) e)

    -- The texts of a query come back from the code points.
    pub query_text :
        (r : HttpRequest) (path : Text) (fs : List (Text × Text)) (name text : String)
        → Reads r.url path fs
        → value_under (codes name) fs ≡ codes text
        → (g.bind r).query name ≡ text
    query_text r path fs name text h v =
        c.contract.query_bound r path fs name h ∙ ap from_codes v ∙ from_codes-codes text

    pub query_key :
        (r : HttpRequest) (path : Text) (fs : List (Text × Text)) (name : String) (key : Bytes)
        → Reads r.url path fs
        → value_under (codes name) fs ≡ encode_raw_url key
        → All IsByte key
        → decode_raw_url (codes ((g.bind r).query name)) ≡ some key
    query_key r path fs name key h v bytes =
        ap (λ t. decode_raw_url (codes t))
          (c.contract.query_bound r path fs name h ∙ ap from_codes v)
        ∙ ap decode_raw_url (codes-from_codes (encode_raw_url key) (encode_raw_url-low key))
        ∙ decode-encode_raw_url key bytes
