-- ===== src/Router/Roles.antt =====
-- /upload, /api/add and /api/user/create of router.go, and the roles of users.
use secure_store.Access.{AKey, ExAccessKey}
use secure_store.Base64.{decode_raw_url}
use secure_store.Compound.{CompoundStore}
use secure_store.Effects.{Exec, Outcome, Outcome-cases, access_forbidden, ok}
use secure_store.Effects.Reader.{Bytes}
use secure_store.Metadata.{MetadataStore}
use secure_store.Prelude.{
  Bool, Bool-cases, Option-cases, String, [], arith, codes, false, inl, inr, none, some, true, ℕ,
  ◌&&◌, ◌∷◌, ◌≡◌, ◌⊎◌,
}
use secure_store.Prelude.Eq.{bytes_Eq, string_Eq, ◌==◌}
use secure_store.Router.{
  AccessStore, Handled, Request, UserStorage, abort_with_error, secure_json, status_forbidden,
  status_ok,
}
use secure_store.Router.Api.{
  World, add_key, add_made_key, create_user, created, upload, upload_object, with_role,
}
use secure_store.Security.{SecurityStore}
use secure_store.Storage.{Storage}
use secure_store.Users.{
  Role, User, UserJson, Uuid, is_valid, user_safe_json_from_user, verify_api_key,
}

module _ {M S T A U : Type 0} (encrypt : Bytes → Bytes → Bytes) (ms : MetadataStore M)
    (ss : SecurityStore S) (ts : Storage T) (access_store : AccessStore A)
    (user_storage : UserStorage U) where
  abbrev W : Type 0
  W = World (CompoundStore M S T) A U

  -- The API key of the request is that of a user with the right.
  pub record Authorised (allowed : Role → Bool) (c : Request) (w : W) : Type 0 where
    pub api_key : Bytes
    pub user : User
    pub decoded : decode_raw_url (codes (c.query "apiKey")) ≡ some api_key
    pub resolved : (user_storage.resolve_by_api_key api_key w.users).0 ≡ ok user
    pub verified : verify_api_key user api_key ≡ true
    pub right : allowed user.role ≡ true

  Unchanged : Handled W → W → Type 0
  Unchanged h w = (h.world.objects ≡ w.objects) × (h.world.access ≡ w.access)

  -- `with_role` behind the decoding of the API key and the search for its user.
  with_role_found :
      (allowed : Role → Bool) (c : Request) (w : W) (rest : W → Handled W) (api_key : Bytes)
      (user : User)
      → decode_raw_url (codes (c.query "apiKey")) ≡ some api_key
      → (user_storage.resolve_by_api_key api_key w.users).0 ≡ ok user
      → Unchanged (with_role encrypt ms ss ts access_store user_storage allowed c w rest) w
        ⊎ Authorised allowed c w
  unfolding with_role Unchanged
  with_role_found allowed c w rest api_key user d r =
      elim (Bool-cases (verify_api_key user api_key)) [
        | inl v ↦ elim (Bool-cases (allowed user.role)) [
          | inl a ↦ inr (record {
            api_key = api_key;
            user = user;
            decoded = d;
            resolved = r;
            verified = v;
            right = a;
          })
          | inr n ↦ inl (ground arith, ground arith)
        ]
        | inr n ↦ inl (ground arith, ground arith)
      ]

  with_role_cases :
      (allowed : Role → Bool) (c : Request) (w : W) (rest : W → Handled W)
      → Unchanged (with_role encrypt ms ss ts access_store user_storage allowed c w rest) w
        ⊎ Authorised allowed c w
  unfolding with_role Unchanged
  with_role_cases allowed c w rest =
      elim (Option-cases (decode_raw_url (codes (c.query "apiKey")))) [
        | inl n ↦ inl (ground arith, ground arith)
        | inr (k, d) ↦ elim (Outcome-cases (user_storage.resolve_by_api_key k w.users).0) [
          | inl (u, r) ↦ with_role_found allowed c w rest k u d r
          | inr e ↦ inl (ground arith, ground arith)
        ]
      ]

  -- /upload leaves the stored objects as they were, or its API key decodes to that of a user whom
  -- the user store finds, who verifies it, and whose role may upload data.
  pub upload-Authorised :
      (rand_read : ℕ → Outcome (Bytes × ℕ)) (c : Request) (w : W)
      → ((upload encrypt ms ss ts access_store user_storage rand_read c w).world.objects
          ≡ w.objects)
        ⊎ Authorised (λ r. r.can_upload_data) c w
  unfolding upload Unchanged
  upload-Authorised rand_read c w =
      elim (with_role_cases (λ r. r.can_upload_data) c w
        (upload_object encrypt ms ss ts access_store user_storage rand_read c)) [
          | inl u ↦ inl u.0
          | inr a ↦ inr a
        ]

  -- /api/add leaves the access store as it was, or its API key decodes to that of a user whom the
  -- user store finds, who verifies it, and whose role may add keys.
  pub add_key-Authorised :
      (make : ExAccessKey → Exec A AKey) (c : Request) (w : W)
      → ((add_key encrypt ms ss ts access_store user_storage make c w).world.access ≡ w.access)
        ⊎ Authorised (λ r. r.can_add_keys) c w
  unfolding add_key Unchanged
  add_key-Authorised make c w =
      elim (with_role_cases (λ r. r.can_add_keys) c w
        (add_made_key encrypt ms ss ts access_store user_storage make c)) [
          | inl u ↦ inl u.1
          | inr a ↦ inr a
        ]

  -- If the API key is that of a user without the right to create users, or who is not root, and
  -- the rest of the request is in order (content type, a JSON that is valid and makes a user whom
  -- the store accepts), then /api/user/create replies `forbidden` and yet stores the user and
  -- replies a second time, with the user.
  pub create_user_unprivileged :
      (make : UserJson → Outcome User) (print : Uuid → String) (c : Request) (w : W)
      (api_key : Bytes) (asker user : User) (json : UserJson)
      → decode_raw_url (codes (c.query "apiKey")) ≡ some api_key
      → (user_storage.resolve_by_api_key api_key w.users).0 ≡ ok asker
      → (asker.role.can_create_users && asker.role.root_user) ≡ false
      → (c.header "Content-Type" == "application/json") ≡ true
      → c.json_user ≡ ok json
      → is_valid json ≡ none
      → make json ≡ ok user
      → (user_storage.create user (user_storage.resolve_by_api_key api_key w.users).1).0 ≡ ok tt
      → ((create_user encrypt ms ss ts access_store user_storage make print c w).world.users
          ≡ (user_storage.create user (user_storage.resolve_by_api_key api_key w.users).1).1)
        × ((create_user encrypt ms ss ts access_store user_storage make print c w).replies
            ≡ abort_with_error status_forbidden access_forbidden
              ∷ secure_json status_ok (user_safe_json_from_user print user)
              ∷ [])
  unfolding create_user created
  create_user_unprivileged make print c w api_key asker user json d r n t j v m e =
      (ground arith, ground arith)
