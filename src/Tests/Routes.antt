-- ===== src/Tests/Routes.antt =====
-- The routes.
use secure_store.Access.Memory as AccessMemory
use secure_store.Compound
use secure_store.Access.ByteSet
use secure_store.Metadata.Memory as MetadataMemory
use secure_store.Security.Memory as SecurityMemory
use secure_store.Storage.Memory as StorageMemory
use secure_store.Users.Memory as UserMemory
use secure_store.Router.Objects
use secure_store.Access.{AKey, ExAccessKey, valid_key}
use secure_store.Access.Memory.{access}
use secure_store.Base64.{decode_raw_url, encode_std, symbol, value_of}
use secure_store.Cipher.{create_stream_reader}
use secure_store.Compound.Memory.Stores.{MemoryCompound, new_compound}
use secure_store.Effects.{Exec, Outcome, access_forbidden, err, external, ok}
use secure_store.Effects.Reader.{Bytes, new_reader, read_all}
use secure_store.GoMap.{get, has, put}
use secure_store.Prelude.{
  String, [], codes, false, if◌then◌else◌, inl, none, refl, some, ℕ, ◌∷◌, ◌≡◌, ◌⊎◌,
}
use secure_store.Prelude.Eq.{bytes_Eq, string_Eq, ◌==◌}
use secure_store.Prelude.Int.{pos}
use secure_store.Regexp.{match_all}
use secure_store.Router.{
  AccessStore, Handled, Request, UserStorage, abort_with_error, secure_json, sends_all,
  status_forbidden, status_ok,
}
use secure_store.Router.Api.{Served, World, add_key, api_download, create_user, upload}
use secure_store.Router.Gate.{
  MayOpen, Opens, api_download-MayOpen, api_download_uniform, gives_data,
}
use secure_store.Router.Roles.{
  Authorised, add_key-Authorised, create_user_unprivileged, upload-Authorised,
}
use secure_store.Sanitizer.{match_string, new_matcher}
use secure_store.Tests.Samples.{
  a_role, ann, one_block, ordered_key, repeat, upload_body, with_ann, with_object,
}
use secure_store.Users.{
  User, UserJson, Uuid, is_valid, name_exp, user_safe_json_from_user, username_exp,
}
use secure_store.Users.Memory.{create, resolve_by_api_key}

abbrev memory_access : AccessStore AccessMemory.MemoryStore
memory_access = record {
  add_key = AccessMemory.add_key;
  access = AccessMemory.access;
  delete_key = AccessMemory.delete_key;
}

abbrev memory_users : UserStorage UserMemory.MemoryStore
memory_users = record {
  create = UserMemory.create;
  resolve_by_api_key = λ api_key m. (UserMemory.resolve_by_api_key api_key m, m);
}

abbrev TestWorld : Type 0
TestWorld = World MemoryCompound AccessMemory.MemoryStore UserMemory.MemoryStore

abbrev world : TestWorld
world = record {
  objects = with_object;
  access = record {
    m = ("link", ordered_key) ∷ [];
    heap = record { next_pointer = 1; cells = λ p. 0 };
    watchers = [];
    kills = [];
    timers = [];
    clock = 10;
  };
  users = with_ann;
}

-- `unlock_key` in the base64 of URLs
abbrev unlock_text : String
unlock_text =
    "BQUFBQUFBQUFBQUFBQUFBQUFBQUFBQUFBQUFBQUFBQUFBQUFBQUFBQUFBQUFBQUFBQUFBQUFBQUFBQUFBQUFBQ"

abbrev query : String → String
query name =
    if name == "urlKey"
    then "link"
    else if name == "apiKey"
    then "BQY"
    else if name == "bucketId"
    then "ab"
    else if name == "keyId"
    then "ef"
    else ""

abbrev new_json : UserJson
new_json = record {
  id = "2";
  name = "Bob";
  role = a_role;
  username = "bob";
  password_hash = repeat 64 1;
  api_key = repeat 64 2;
}

abbrev request : Request
request = record {
  query = query;
  header = λ name. if name == "unlockKey" then unlock_text else "application/json";
  body = upload_body;
  content_length = pos 3;
  json_key = err (external 2);
  json_user = ok new_json;
}

link-Opens :
    Opens one_block MetadataMemory.memory_store SecurityMemory.memory_security_store
      StorageMemory.memory_storage memory_access memory_users false request world
unfolding api_download gives_data match_string new_matcher match_all AccessMemory.access get put
    valid_key decode_raw_url value_of ByteSet.contains has Compound.read MetadataMemory.read
    Compound.write MetadataMemory.write Compound.new_bucket MetadataMemory.new_bucket new_compound
    MetadataMemory.new_memory_store SecurityMemory.new_bucket
    SecurityMemory.new_memory_security_store SecurityMemory.write_key SecurityMemory.read_key
    StorageMemory.read StorageMemory.write StorageMemory.new_bucket read_all create_stream_reader
    StorageMemory.new_memory_storage Objects.download new_reader sends_all
link-Opens = inl refl

api_download-MayOpen_example :
    MayOpen one_block MetadataMemory.memory_store SecurityMemory.memory_security_store
      StorageMemory.memory_storage memory_access memory_users request world
api_download-MayOpen_example =
    api_download-MayOpen one_block MetadataMemory.memory_store SecurityMemory.memory_security_store
      StorageMemory.memory_storage memory_access memory_users false request world link-Opens

-- The same request without the unlock key.
abbrev locked_out : Request
locked_out = record request { header = λ name. "" }

abbrev refused : Served TestWorld
refused =
    api_download one_block MetadataMemory.memory_store SecurityMemory.memory_security_store
      StorageMemory.memory_storage memory_access memory_users false locked_out world

refusal : (refused.back_message ≡ some false) × (refused.handled.panicked ≡ false)
unfolding api_download match_string new_matcher match_all AccessMemory.access get put valid_key
    decode_raw_url
refusal = (refl, refl)

api_download_uniform_example :
    refused.handled.replies ≡ abort_with_error status_forbidden access_forbidden ∷ []
api_download_uniform_example =
    api_download_uniform one_block MetadataMemory.memory_store SecurityMemory.memory_security_store
      StorageMemory.memory_storage memory_access memory_users locked_out world (λ e. cc (refusal.0))
      refusal.1

abbrev random : ℕ → Outcome (Bytes × ℕ)
random n = ok (repeat 32 7, 32)

abbrev uploaded : Handled TestWorld
uploaded =
    upload one_block MetadataMemory.memory_store SecurityMemory.memory_security_store
      StorageMemory.memory_storage memory_access memory_users random request world

upload-Authorised_example :
    (uploaded.world.objects ≡ world.objects)
    ⊎ Authorised one_block MetadataMemory.memory_store SecurityMemory.memory_security_store
        StorageMemory.memory_storage memory_access memory_users
        (λ r. r.can_upload_data)
        request
        world
upload-Authorised_example =
    upload-Authorised one_block MetadataMemory.memory_store SecurityMemory.memory_security_store
      StorageMemory.memory_storage memory_access memory_users random request world

abbrev make_key : ExAccessKey → Exec AccessMemory.MemoryStore AKey
make_key ex s = (ok ordered_key, s)

add_key-Authorised_example :
    ((add_key one_block MetadataMemory.memory_store SecurityMemory.memory_security_store
        StorageMemory.memory_storage memory_access memory_users make_key request world).world.access
      ≡ world.access)
    ⊎ Authorised one_block MetadataMemory.memory_store SecurityMemory.memory_security_store
        StorageMemory.memory_storage memory_access memory_users
        (λ r. r.can_add_keys)
        request
        world
add_key-Authorised_example =
    add_key-Authorised one_block MetadataMemory.memory_store SecurityMemory.memory_security_store
      StorageMemory.memory_storage memory_access memory_users make_key request world

abbrev bob : User
bob = record ann { id = 2 ∷ []; name = "Bob"; username = "bob"; api_key = repeat 64 2 }

abbrev make_user : UserJson → Outcome User
make_user json = ok bob

abbrev print : Uuid → String
print id = "2"

abbrev with_bob : Handled TestWorld
with_bob =
    create_user one_block MetadataMemory.memory_store SecurityMemory.memory_security_store
      StorageMemory.memory_storage memory_access memory_users make_user print request world

asker_found :
    (decode_raw_url (codes (request.query "apiKey")) ≡ some (5 ∷ 6 ∷ []))
    × ((memory_users.resolve_by_api_key (5 ∷ 6 ∷ []) world.users).0 ≡ ok ann)
    × (is_valid new_json ≡ none)
    × ((memory_users.create bob (memory_users.resolve_by_api_key (5 ∷ 6 ∷ []) world.users).1).0
        ≡ ok tt)
unfolding decode_raw_url UserMemory.resolve_by_api_key UserMemory.create is_valid match_all has put
    encode_std symbol UserMemory.new_memory_store value_of name_exp username_exp
asker_found = (refl, refl, refl, refl)

create_user_unprivileged_example :
    (with_bob.world.users
      ≡ (memory_users.create bob (memory_users.resolve_by_api_key (5 ∷ 6 ∷ []) world.users).1).1)
    × (with_bob.replies
        ≡ abort_with_error status_forbidden access_forbidden
          ∷ secure_json status_ok (user_safe_json_from_user print bob)
          ∷ [])
create_user_unprivileged_example =
    create_user_unprivileged one_block MetadataMemory.memory_store
      SecurityMemory.memory_security_store StorageMemory.memory_storage memory_access memory_users
      make_user print request world (5 ∷ 6 ∷ []) ann bob new_json asker_found.0 asker_found.1 refl
      refl refl asker_found.2 refl asker_found.3
