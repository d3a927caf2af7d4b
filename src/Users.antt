-- ===== src/Users.antt =====
-- users/users.go: users, and the checks on them. Argon2 and the parsing and printing of a UUID are
-- libraries, and so parameters; a UUID is its bytes.
pub mod Memory
use secure_store.Access.{AKey}
use secure_store.Effects.{
  Error, Outcome, api_key_has_wrong_length, err, name_is_an_issue, ok, panic,
  password_hash_has_wrong_length, username_is_an_issue,
}
use secure_store.Effects.Reader.{Bytes}
use secure_store.Prelude.{
  Bool, List, Option, String, [], arith, codes, if◌then◌else◌, length, nat_eq, none, not, some,
  true, ℕ, ◌∷◌, ◌≡◌,
}
use secure_store.Prelude.Eq.{beq_refl, bytes_Eq, string_Eq, ◌==◌}
use secure_store.Regexp.{Regexp, class, match_all, opt, plus, seq, star}

abbrev pub Uuid : Type 0
Uuid = List ℕ

pub record Role : Type 0 where
  pub root_user : Bool
  pub can_create_users : Bool
  pub can_add_keys : Bool
  pub can_upload_data : Bool
  pub can_delete_keys : Bool

pub record User : Type 0 where
  pub id : Uuid
  pub name : String
  pub role : Role
  pub username : String
  pub password_hash : Bytes
  pub password_salt : Bytes
  pub api_key : Bytes
  pub belonging_keys : List AKey

pub record UserJson : Type 0 where
  pub id : String
  pub name : String
  pub role : Role
  pub username : String
  pub password_hash : Bytes
  pub api_key : Bytes

pub record UserSafeJson : Type 0 where
  pub id : String
  pub name : String
  pub role : Role
  pub username : String

abbrev pub password_hash_length : ℕ
password_hash_length = 64

abbrev pub password_salt_length : ℕ
password_salt_length = 64

abbrev pub api_key_length : ℕ
api_key_length = 64

abbrev letter : Regexp
letter = class ((b'a', b'z') ∷ (b'A', b'Z') ∷ [])

-- `^[a-zA-Z]+([ ]?[a-zA-Z]+)*$`
unfoldable pub name_exp : Regexp
name_exp = seq (plus letter) (star (seq (opt (class ((b' ', b' ') ∷ []))) (plus letter)))

-- `^[a-zA-Z]+([_]?[a-zA-Z]+)*$`
unfoldable pub username_exp : Regexp
username_exp = seq (plus letter) (star (seq (opt (class ((b'_', b'_') ∷ []))) (plus letter)))

-- `bytes.Compare(a, b) == 0`
unfoldable pub verify_api_key : User → Bytes → Bool
verify_api_key u api_key = api_key == u.api_key

-- `argon2.IDKey(password, salt, 1, 64 * 1024, 4, 64)`
unfoldable pub verify_password : (Bytes → Bytes → Bytes) → User → Bytes → Bool
verify_password id_key u password = id_key password u.password_salt == u.password_hash

-- `nil` is `none`.
unfoldable pub is_valid : UserJson → Option Error
is_valid u =
    if not (match_all name_exp (codes u.name))
    then some name_is_an_issue
    else if not (match_all username_exp (codes u.username))
    then some username_is_an_issue
    else if not (nat_eq (length u.password_hash) password_hash_length)
    then some password_hash_has_wrong_length
    else if not (nat_eq (length u.api_key) api_key_length)
    then some api_key_has_wrong_length
    else none

-- `parse` is `uuid.Parse`, `rand_read n` fills a buffer of n bytes.
module _ (parse : String → Outcome Uuid) (rand_read : ℕ → Outcome Bytes)
    (id_key : Bytes → Bytes → Bytes) where
  unfoldable pub user_from_user_json : UserJson → Outcome User
  user_from_user_json user_json = elim (parse user_json.id) [
    | err e ↦ err e
    | panic ↦ panic
    | ok id ↦ elim (rand_read password_salt_length) [
      | err e ↦ err e
      | panic ↦ panic
      | ok salt ↦ ok (record {
        id = id;
        name = user_json.name;
        role = user_json.role;
        username = user_json.username;
        password_hash = id_key user_json.password_hash salt;
        password_salt = salt;
        api_key = user_json.api_key;
        belonging_keys = [];
      })
    ]
  ]

  -- A user that `user_from_user_json` makes is verified by the password and by the API key that
  -- the JSON brought, for every salt, hash function and parser.
  pub verify_password-user_from_user_json :
      (user_json : UserJson) (user : User)
      → user_from_user_json user_json ≡ ok user
      → (verify_password id_key user user_json.password_hash ≡ true)
        × (verify_api_key user user_json.api_key ≡ true)
  unfolding user_from_user_json verify_password verify_api_key
  verify_password-user_from_user_json user_json user e =
      (ground (arith, beq_refl user.password_hash), ground (arith, beq_refl user.api_key))

-- `print` is `UUID.String`.
unfoldable pub user_safe_json_from_user : (Uuid → String) → User → UserSafeJson
user_safe_json_from_user print user = record {
  id = print user.id;
  name = user.name;
  role = user.role;
  username = user.username;
}
