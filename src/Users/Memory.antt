-- ===== src/Users/Memory.antt =====
-- users/memory.go. Each `sync.Map` is a map; API keys are looked up by their base64 text.
pub mod Index
use secure_store.Base64.{encode_std}
use secure_store.Effects.{
  Exec, Outcome, err, ok, user_already_exists, user_doesnt_exist, user_with_api_key_already_exists,
  user_with_api_key_doesnt_exist, user_with_username_already_exists,
  user_with_username_doesnt_exist,
}
use secure_store.Effects.Reader.{Bytes}
use secure_store.GoMap.{GoMap, get, has, put, remove}
use secure_store.Prelude.{List, String, [], if◌then◌else◌, none, some, ℕ}
use secure_store.Prelude.Eq.{bytes_Eq, string_Eq}
use secure_store.Users.{User, Uuid}

pub record MemoryStore : Type 0 where
  pub user_by_id : GoMap Uuid User
  pub uuid_by_api_key : GoMap (List ℕ) Uuid
  pub uuid_by_username : GoMap String Uuid

unfoldable pub new_memory_store : MemoryStore
new_memory_store = record { user_by_id = []; uuid_by_api_key = []; uuid_by_username = [] }

unfoldable pub create : User → Exec MemoryStore (Unit {0})
create user m =
    if has user.id m.user_by_id
    then (err user_already_exists, m)
    else if has (encode_std user.api_key) m.uuid_by_api_key
    then (err user_with_api_key_already_exists, m)
    else if has user.username m.uuid_by_username
    then (err user_with_username_already_exists, m)
    else (
      ok tt,
      record {
        user_by_id = put user.id user m.user_by_id;
        uuid_by_api_key = put (encode_std user.api_key) user.id m.uuid_by_api_key;
        uuid_by_username = put user.username user.id m.uuid_by_username;
      },
    )

unfoldable pub resolve_by_uuid : Uuid → MemoryStore → Outcome User
resolve_by_uuid id m = elim (get id m.user_by_id) [
  | none ↦ err user_doesnt_exist
  | some user ↦ ok user
]

unfoldable pub resolve_by_api_key : Bytes → MemoryStore → Outcome User
unfolding resolve_by_uuid
resolve_by_api_key api_key m = elim (get (encode_std api_key) m.uuid_by_api_key) [
  | none ↦ err user_with_api_key_doesnt_exist
  | some id ↦ resolve_by_uuid id m
]

unfoldable pub resolve_by_username : String → MemoryStore → Outcome User
unfolding resolve_by_uuid
resolve_by_username username m = elim (get username m.uuid_by_username) [
  | none ↦ err user_with_username_doesnt_exist
  | some id ↦ resolve_by_uuid id m
]

unfoldable pub delete : Uuid → Exec MemoryStore (Unit {0})
delete id m =
    if has id m.user_by_id
    then (ok tt, record m { user_by_id = remove id m.user_by_id })
    else (err user_doesnt_exist, m)
