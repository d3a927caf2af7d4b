-- ===== src/Router/Routes.antt =====
-- `NewRouter` of router.go: which handler is registered for a method and a path, and the debug
-- mode. gin looks up the routes; a request for another path never gets to this code.

use secure_store.Router.Objects
use secure_store.Router.Api
use secure_store.Access.{AKey, ExAccessKey}
use secure_store.Compound.{CompoundStore}
use secure_store.Effects.{Exec, Outcome}
use secure_store.Effects.Reader.{Bytes}
use secure_store.Http.{Method, http_delete, http_get, http_post}
use secure_store.Metadata.{MetadataStore}
use secure_store.Prelude.{
  Bool, List, Option, String, [], codes, false, if◌then◌else◌, leb, map, none, some, true, ℕ, ◌&&◌,
  ◌+◌, ◌||◌, ◌∷◌,
}
use secure_store.Prelude.Eq.{bytes_Eq, string_Eq, ◌==◌}
use secure_store.Router.{
  AccessStore, Handled, Request, UserStorage, file, html, reply, status_ok, string,
}
use secure_store.Router.Api.{World}
use secure_store.Security.{SecurityStore}
use secure_store.Storage.{Storage}
use secure_store.Text.{Text}
use secure_store.Users.{User, UserJson, Uuid}

pub data Route : Type 0 where
  new_bucket_route upload_route download_route delete_route delete_bucket_route : Route
  add_key_route api_download_route create_user_route : Route
  teapot_route index_route favicon_route ping_route : Route

abbrev registered : List (Method × Text × Route)
registered =
    (http_get, codes "/new-bucket", new_bucket_route)
    ∷ (http_post, codes "/upload", upload_route)
    ∷ (http_get, codes "/download", download_route)
    ∷ (http_delete, codes "/delete", delete_route)
    ∷ (http_delete, codes "/delete-bucket", delete_bucket_route)
    ∷ (http_post, codes "/api/add", add_key_route)
    ∷ (http_get, codes "/api/download", api_download_route)
    ∷ (http_post, codes "/api/user/create", create_user_route)
    ∷ (http_get, codes "/teapot", teapot_route)
    ∷ (http_get, codes "/", index_route)
    ∷ (http_get, codes "/favicon.ico", favicon_route)
    ∷ (http_get, codes "/ping", ping_route)
    ∷ []

abbrev same_method : Method → Method → Bool
same_method http_get http_get = true
same_method http_post http_post = true
same_method http_delete http_delete = true
same_method _ _ = false

look_up : Method → Text → List (Method × Text × Route) → Option Route
look_up method path [] = none
look_up method path ((m, p, r) ∷ rs) =
    let rest = look_up method path rs in
    if same_method method m && (path == p) then some r else rest

unfoldable pub find_route : Method → Text → Option Route
unfolding look_up
find_route method path = look_up method path registered

-- `strings.ToLower` on capital letters; no other character has a lower case in "debug".
abbrev lower_case : Text → Text
lower_case = map (λ c. if leb b'A' c && leb c b'Z' then c + 32 else c)

-- `isInDebugMode`, from the environment variable GIN_MODE
unfoldable pub is_in_debug_mode : String → Bool
is_in_debug_mode gin_mode = (gin_mode == "") || (lower_case (codes gin_mode) == codes "debug")

-- What the handlers of `NewRouter` use.
pub record Server (M S T A U : Type 0) : Type 0 where
  pub encrypt : Bytes → Bytes → Bytes
  pub metadata : MetadataStore M
  pub security : SecurityStore S
  pub storage : Storage T
  pub access_store : AccessStore A
  pub user_storage : UserStorage U
  pub rand_read : ℕ → Outcome (Bytes × ℕ)
  pub make_key : ExAccessKey → Exec A AKey
  pub make_user : UserJson → Outcome User
  pub print_uuid : Uuid → String
  pub gin_mode : String

module _ {M S T A U : Type 0} (srv : Server M S T A U) where
  abbrev ServerWorld : Type 0
  ServerWorld = World (CompoundStore M S T) A U

  abbrev on_object_store :
      (CompoundStore M S T → Handled (CompoundStore M S T)) → ServerWorld → Handled ServerWorld
  on_object_store f w =
      let h = f w.objects in
      record { world = record w { objects = h.world }; replies = h.replies; panicked = h.panicked }

  unfoldable pub handle : Route → Request → ServerWorld → Handled ServerWorld
  handle new_bucket_route c w =
      on_object_store (Objects.get_new_bucket srv.encrypt srv.metadata srv.security srv.storage c) w
  handle upload_route c w =
      Api.upload srv.encrypt srv.metadata srv.security srv.storage srv.access_store srv.user_storage
        srv.rand_read c w
  handle download_route c w =
      on_object_store (Objects.get_download srv.encrypt srv.metadata srv.security srv.storage c) w
  handle delete_route c w =
      on_object_store (Objects.delete_object srv.encrypt srv.metadata srv.security srv.storage c) w
  handle delete_bucket_route c w =
      on_object_store (Objects.delete_bucket srv.encrypt srv.metadata srv.security srv.storage c) w
  handle add_key_route c w =
      Api.add_key srv.encrypt srv.metadata srv.security srv.storage srv.access_store
        srv.user_storage srv.make_key c w
  -- The message to the access store comes after the reply.
  handle api_download_route c w =
      (Api.api_download srv.encrypt srv.metadata srv.security srv.storage srv.access_store
        srv.user_storage (is_in_debug_mode srv.gin_mode) c w).handled
  handle create_user_route c w =
      Api.create_user srv.encrypt srv.metadata srv.security srv.storage srv.access_store
        srv.user_storage srv.make_user srv.print_uuid c w
  handle teapot_route c w = reply (html 418 "teapot.tmpl") w
  handle index_route c w = reply (html status_ok "index.tmpl") w
  handle favicon_route c w = reply (file "./static/favicon.ico") w
  handle ping_route c w = reply (string status_ok "Pong") w
