-- ===== src/Router/Api.antt =====
-- The routes of router.go that a user or an access key opens: /upload, /api/add, /api/download and
-- /api/user/create.
use secure_store.Compound
use secure_store.Router.Objects
use secure_store.Access.{AKey, ExAccessKey, valid_key}
use secure_store.Base64.{decode_raw_url}
use secure_store.Compound.{CompoundStore}
use secure_store.Effects.{
  Error, Exec, Outcome, access_forbidden, bucket_id_matching, err, external, key_doesnt_exist,
  key_id_matching, key_is_invalid, key_not_decoded, ok, panic, url_key_matching, wrong_content_type,
}
use secure_store.Effects.Reader.{Bytes}
use secure_store.Metadata.{MetadataStore, new_metadata}
use secure_store.Prelude.{
  Bool, Option, String, [], codes, false, if◌then◌else◌, none, not, some, true, ℕ, ◌||◌, ◌∷◌,
}
use secure_store.Prelude.Eq.{bytes_Eq, string_Eq, ◌==◌}
use secure_store.Router.{
  AccessStore, Handled, Request, UserStorage, abort, abort_with_error, either, reply, said,
  secure_json, status_bad_request, status_forbidden, status_internal_server_error, status_ok,
  string,
}
use secure_store.Sanitizer.{match_string, new_matcher}
use secure_store.Security.{SecurityStore}
use secure_store.Security.Keys.{make, new_encryption_key}
use secure_store.Storage.{Storage}
use secure_store.Users.{
  Role, User, UserJson, Uuid, is_valid, user_safe_json_from_user, verify_api_key,
}

-- The stores that `NewRouter` is given.
pub record World (O A U : Type 0) : Type 0 where
  pub objects : O
  pub access : A
  pub users : U

-- The back channel of /api/download gets a message when the handler returns, unless `Access`
-- failed: then the channel is nil, and the sender waits for ever.
pub record Served (W : Type 0) : Type 0 where
  pub handled : Handled W
  pub back_message : Option Bool

module _ {M S T A U : Type 0} (encrypt : Bytes → Bytes → Bytes) (ms : MetadataStore M)
    (ss : SecurityStore S) (ts : Storage T) (access_store : AccessStore A)
    (user_storage : UserStorage U) where
  abbrev Stores : Type 0
  Stores = World (CompoundStore M S T) A U

  abbrev on_users : {B : Type 0} → Exec U B → Exec Stores B
  on_users m w = ((m w.users).0, record w { users = (m w.users).1 })

  abbrev on_access : {B : Type 0} → Exec A B → Exec Stores B
  on_access m w = ((m w.access).0, record w { access = (m w.access).1 })

  abbrev on_objects : {B : Type 0} → Exec (CompoundStore M S T) B → Exec Stores B
  on_objects m w = ((m w.objects).0, record w { objects = (m w.objects).1 })

  -- The checks with which /upload and /api/add begin.
  unfoldable pub with_role :
      (Role → Bool) → Request → Stores → (Stores → Handled Stores) → Handled Stores
  with_role allowed c w rest = elim (decode_raw_url (codes (c.query "apiKey"))) [
    | none ↦ abort status_bad_request (external 0) w
    | some api_key_bytes ↦
        either (on_users (user_storage.resolve_by_api_key api_key_bytes) w)
          (λ user w'.
            if not (verify_api_key user api_key_bytes)
            then abort status_forbidden access_forbidden w'
            else if not (allowed user.role)
            then abort status_forbidden access_forbidden w'
            else rest w')
          (λ e w'. abort status_internal_server_error e w')
  ]

  unfoldable pub upload_object : (ℕ → Outcome (Bytes × ℕ)) → Request → Stores → Handled Stores
  upload_object rand_read c w' =
      let bucket_id = c.query "bucketId" in
      let key_id = c.query "keyId" in
      if not (match_string new_matcher bucket_id)
      then abort status_bad_request bucket_id_matching w'
      else if not (match_string new_matcher key_id)
      then abort status_bad_request key_id_matching w'
      else either (new_encryption_key rand_read, w')
          (λ key w''.
            either
              (on_objects
                (Compound.write encrypt ms ss ts bucket_id key_id
                  (new_metadata c.content_length (c.header "filename")) key c.body)
                w'')
              (λ _ v.
                reply
                  (string status_ok (
                    said "Successfully uploaded to bucket-id: "
                      (said bucket_id (said " with key-id: " key_id))))
                  v)
              (λ e v. abort status_internal_server_error e v))
          (λ e w''. abort status_internal_server_error e w'')

  unfoldable pub upload : (ℕ → Outcome (Bytes × ℕ)) → Request → Stores → Handled Stores
  upload rand_read c w = with_role (λ r. r.can_upload_data) c w (upload_object rand_read c)

  -- `make` is `FromExAccessKey`, which allocates the counter in the access store's heap.
  unfoldable pub add_made_key : (ExAccessKey → Exec A AKey) → Request → Stores → Handled Stores
  add_made_key make c w' =
      if not (c.header "Content-Type" == "application/json")
      then abort status_bad_request wrong_content_type w'
      else either (c.json_key, w')
          (λ ex_key w''.
            either (on_access (make ex_key) w'')
              (λ key v.
                either (on_access (access_store.add_key key) v)
                  (λ _ u. reply (string status_ok "access key was set") u)
                  (λ e u. abort status_bad_request e u))
              (λ e v. abort status_bad_request e v))
          (λ e w''. abort status_bad_request e w'')

  unfoldable pub add_key : (ExAccessKey → Exec A AKey) → Request → Stores → Handled Stores
  add_key make c w = with_role (λ r. r.can_add_keys) c w (add_made_key make c)

  -- A refusal of /api/download: outside the debug mode it does not say why.
  abbrev refuse : Bool → ℕ → Error → Stores → Handled Stores
  refuse debug status e w =
      if debug then abort status e w else abort status_forbidden access_forbidden w

  abbrev sent : Bool → Handled Stores → Served Stores
  sent b h = record { handled = h; back_message = some b }

  abbrev download_object : AKey → Stores → Handled Stores
  download_object key w =
      let h = Objects.download encrypt ms ss ts key.bucket_id key.key_id w.objects in
      record { world = record w { objects = h.world }; replies = h.replies; panicked = h.panicked }

  -- A download that panics ends the handler before `backMessage = true`.
  abbrev delivered : AKey → Stores → Served Stores
  delivered key w = let h = download_object key w in sent (not h.panicked) h

  unlock : Bool → AKey → Option Bytes → Stores → Served Stores
  unlock debug key none w = sent false (refuse debug status_bad_request key_not_decoded w)
  unlock debug key (some unlock_key) w = elim (valid_key key unlock_key) [
    | ok true ↦ delivered key w
    | ok false ↦ sent false (refuse debug status_forbidden key_is_invalid w)
    | err e ↦ sent false (refuse debug status_forbidden key_is_invalid w)
    | panic ↦ sent false (record { world = w; replies = []; panicked = true })
  ]

  -- The unlock key comes in the query or in a header.
  abbrev pub given_key : Request → AKey → Option Bytes
  given_key c key =
      decode_raw_url
        (codes (if key.resolve_by_url_key then c.query "unlockKey" else c.header "unlockKey"))

  opened : Bool → Request → AKey → Stores → Served Stores
  unfolding unlock
  opened debug c key w =
      if not key.needs_key then delivered key w else unlock debug key (given_key c key) w

  unfoldable pub api_download : Bool → Request → Stores → Served Stores
  unfolding opened Objects.download
  api_download debug c w =
      let url_key = c.query "urlKey" in
      let found = on_access (access_store.access url_key) w in
      if not (match_string new_matcher url_key)
      then record {
        handled = refuse debug status_bad_request url_key_matching w;
        back_message = none;
      }
      else elim found.0 [
        | err e ↦ record {
          handled = refuse debug status_internal_server_error (key_doesnt_exist url_key) found.1;
          back_message = none;
        }
        | panic ↦ record {
          handled = record { world = found.1; replies = []; panicked = true };
          back_message = none;
        }
        | ok key ↦ opened debug c key found.1
      ]

  valid_user : (UserJson → Outcome User) → (Uuid → String) → UserJson → Stores → Handled Stores
  valid_user make print user_json w = elim (is_valid user_json) [
    | some e ↦ abort status_bad_request e w
    | none ↦
        either (make user_json, w)
          (λ user w'.
            either (on_users (user_storage.create user) w')
              (λ _ v. reply (secure_json status_ok (user_safe_json_from_user print user)) v)
              (λ e v. abort status_internal_server_error e v))
          (λ e w'. abort status_internal_server_error e w')
  ]

  -- What /api/user/create does behind the check of the rights.
  unfoldable pub created :
      (UserJson → Outcome User) → (Uuid → String) → Request → Stores → Handled Stores
  unfolding valid_user
  created make print c w =
      if not (c.header "Content-Type" == "application/json")
      then abort status_bad_request wrong_content_type w
      else either (c.json_user, w) (λ user_json w'. valid_user make print user_json w')
          (λ e w'. abort status_bad_request e w')

  -- After the refusal of a user without the rights the handler goes on: there is no `return`.
  unfoldable pub create_user :
      (UserJson → Outcome User) → (Uuid → String) → Request → Stores → Handled Stores
  create_user make print c w = elim (decode_raw_url (codes (c.query "apiKey"))) [
    | none ↦ abort status_internal_server_error (external 0) w
    | some api_key_bytes ↦
        either (on_users (user_storage.resolve_by_api_key api_key_bytes) w)
          (λ root_user w'.
            let rest = created make print c w' in
            if not root_user.role.can_create_users || not root_user.role.root_user
            then record rest {
              replies = abort_with_error status_forbidden access_forbidden ∷ rest.replies;
            }
            else rest)
          (λ e w'. abort status_internal_server_error e w')
  ]
