-- ===== src/Startup/Root.antt =====
-- The root user of main.go. `sha512.New().Sum` appends a hash to its argument: the hash of the
-- empty text, which is a parameter.
use secure_store.Effects.{Outcome, ok}
use secure_store.Effects.Reader.{Bytes}
use secure_store.Prelude.{String, arith, codes, true, ℕ, ◌++◌, ◌≡◌}
use secure_store.Users.{Role, User, UserJson, Uuid, user_from_user_json}

abbrev pub root_password : Bytes
root_password = codes "password"

abbrev pub hashed_root_password : Bytes → Bytes
hashed_root_password empty_hash = root_password ++ empty_hash

abbrev pub root_rule : Role
root_rule = record {
  root_user = true;
  can_create_users = true;
  can_add_keys = true;
  can_upload_data = true;
  can_delete_keys = true;
}

abbrev pub root_api_key : Bytes
root_api_key = codes "root-api-key"

unfoldable pub root_user_json : Bytes → UserJson
root_user_json empty_hash = record {
  id = "83672c3d-bb08-4d65-9d71-1191dc11cb80";
  name = "Root";
  role = root_rule;
  username = "root";
  password_hash = hashed_root_password empty_hash;
  api_key = root_api_key;
}

-- `RootUser`
unfoldable pub root_user :
    (String → Outcome Uuid) → (ℕ → Outcome Bytes) → (Bytes → Bytes → Bytes) → Bytes → Outcome User
root_user parse rand_read id_key empty_hash =
    user_from_user_json parse rand_read id_key (root_user_json empty_hash)

pub root_user-role :
    (parse : String → Outcome Uuid) (rand_read : ℕ → Outcome Bytes) (id_key : Bytes → Bytes → Bytes)
    (empty_hash : Bytes) (user : User)
    → root_user parse rand_read id_key empty_hash ≡ ok user
    → (user.role ≡ root_rule) × (user.api_key ≡ root_api_key)
unfolding root_user user_from_user_json root_user_json
root_user-role parse rand_read id_key empty_hash user h = (ground arith, ground arith)
