-- ===== src/Tests/Starting.antt =====
-- Start-up with an environment, and the reader that can be interrupted.
use secure_store.IReader
use secure_store.Users.Memory as UserMemory
use secure_store.Metadata.Memory as MetadataMemory
use secure_store.Security.Memory as SecurityMemory
use secure_store.Storage.Memory as StorageMemory
use secure_store.Access.Memory as AccessMemory
use secure_store.Base64.{decode_raw_url, value_of}
use secure_store.Compound.Memory.Stores.{MemoryCompound}
use secure_store.Effects.{Outcome, err, external, ok, password_hash_has_wrong_length}
use secure_store.Effects.Reader.{Bytes}
use secure_store.IReader.{
  Event, IReader, ReaderResult, Run, begins, closed, closes, context_ended, context_ends, ends, go,
  goroutine_ends, new_ireader, pulls, read_begins, read_returns, stay,
}
use secure_store.IReader.Answers.{results, results-source, sizes, source_results}
use secure_store.IReader.Live.{Serves, new_ireader-Serves, new_ireader-stuck}
use secure_store.Prelude.{
  List, String, [], codes, if◌then◌else◌, none, refl, some, suc, ℕ, ◌∷◌, ◌≡◌,
}
use secure_store.Prelude.Eq.{bytes_Eq, string_Eq, ◌==◌}
use secure_store.Prelude.Int.{negsuc, pos}
use secure_store.Regexp.{match_all}
use secure_store.Router.{Handled, Request}
use secure_store.Router.Api.{World, upload_object, with_role}
use secure_store.Startup.{
  Outside, Running, choose_access, choose_storage, listen, main, mem_storage, memory_access_store,
  memory_user_storage, redis_access, redis_options, running, tls_listener,
}
use secure_store.Startup.Domains.{domains_filtered}
use secure_store.Startup.Numbers.{parse_int}
use secure_store.Startup.Root.{root_api_key, root_rule, root_user, root_user_json}
use secure_store.Startup.Started.{AccessChosen, StorageChosen, main-chosen, with_role-root_user}
use secure_store.Tests.Samples.{one_block, repeat, upload_body, with_bucket}
use secure_store.Users.{User, Uuid, is_valid, name_exp, user_from_user_json, username_exp}

abbrev environment : String → String
environment name =
    if name == "STORAGE_KIND"
    then "MEM_STORAGE"
    else if name == "ACCESS_KIND"
    then "REDIS_ACCESS"
    else if name == "REDIS_DB"
    then "-3"
    else if name == "DOMAINS"
    then "a.org,,b.org"
    else ""

abbrev outside : Outside
outside = record {
  getenv = environment;
  temp_dir = "/tmp/";
  new_uuid = "1";
  fs_fails = λ dir. none;
  redis_fails = λ options. none;
}

abbrev the_root : User
the_root = record {
  id = 3 ∷ [];
  name = "Root";
  role = root_rule;
  username = "root";
  password_hash = 4 ∷ [];
  password_salt = [];
  api_key = root_api_key;
  belonging_keys = [];
}

abbrev started : Running
started = record {
  port = "8080";
  storage = mem_storage;
  access = redis_access (record { addr = "0.0.0.0:6379"; password = ""; db = negsuc 2 });
  users = (UserMemory.create the_root UserMemory.new_memory_store).1;
  listener = tls_listener (codes "a.org" ∷ codes "b.org" ∷ []);
}

starts : main outside (ok the_root) ≡ running started
unfolding main choose_storage choose_access redis_options listen domains_filtered parse_int
starts = refl

main-chosen_example : StorageChosen outside started.storage × AccessChosen outside started.access
main-chosen_example = main-chosen outside the_root started starts

abbrev parse : String → Outcome Uuid
parse text = ok (3 ∷ [])

abbrev no_bytes : ℕ → Outcome Bytes
no_bytes n = ok []

abbrev id_key : Bytes → Bytes → Bytes
id_key password salt = 4 ∷ []

root_made : root_user parse no_bytes id_key (repeat 64 9) ≡ ok the_root
unfolding root_user user_from_user_json root_user_json
root_made = refl

-- The user of the server's own source is no valid user for its API.
root_refused : is_valid (root_user_json (repeat 64 9)) ≡ some password_hash_has_wrong_length
unfolding is_valid root_user_json match_all name_exp username_exp
root_refused = refl

abbrev root_request : Request
root_request = record {
  query = λ name. if name == "apiKey" then "cm9vdC1hcGkta2V5" else "";
  header = λ name. "";
  body = upload_body;
  content_length = pos 3;
  json_key = err (external 2);
  json_user = err (external 2);
}

abbrev root_world : World MemoryCompound AccessMemory.MemoryStore UserMemory.MemoryStore
root_world = record {
  objects = with_bucket;
  access = AccessMemory.new_memory_store (record { next_pointer = 0; cells = λ p. 0 }) 10;
  users = started.users;
}

abbrev RootWorld : Type 0
RootWorld = World MemoryCompound AccessMemory.MemoryStore UserMemory.MemoryStore

-- What is behind the check in `UploadObject`.
abbrev root_upload : RootWorld → Handled RootWorld
root_upload =
    upload_object one_block MetadataMemory.memory_store SecurityMemory.memory_security_store
      StorageMemory.memory_storage memory_access_store memory_user_storage (λ n. ok (repeat n 7, n))
      root_request

with_role-root_user_example :
    with_role one_block MetadataMemory.memory_store SecurityMemory.memory_security_store
      StorageMemory.memory_storage memory_access_store memory_user_storage
      (λ r. r.can_upload_data)
      root_request
      root_world
      root_upload
    ≡ root_upload root_world
unfolding decode_raw_url value_of
with_role-root_user_example =
    with_role-root_user outside the_root started starts parse no_bytes id_key (repeat 64 9)
      root_made one_block MetadataMemory.memory_store SecurityMemory.memory_security_store
      StorageMemory.memory_storage memory_access_store (λ r. r.can_upload_data) root_request
      root_world root_upload refl refl refl

-- A source that counts.
abbrev counting : ℕ → ℕ → ReaderResult × ℕ
counting p n = (record { bytes = n ∷ []; error = none }, suc n)

abbrev opened_reader : IReader ℕ
opened_reader = new_ireader 0 4096

abbrev closed_reader : IReader ℕ
closed_reader = IReader.close opened_reader

abbrev reading_reader : IReader ℕ
reading_reader = record closed_reader { waiting = 16 ∷ [] }

abbrev answered_reader : IReader ℕ
answered_reader = record closed_reader { source = 1 }

one_result : List Event
one_result =
    closes ∷ read_begins 16 ∷ read_returns 16 (record { bytes = 0 ∷ []; error = none }) ∷ []

one_read : Run counting opened_reader one_result answered_reader
unfolding one_result IReader.begin_read IReader.pull IReader.close new_ireader
one_read = go (closed opened_reader) (
    go (begins 16 closed_reader)
      (go (pulls [] 16 [] reading_reader refl refl) (stay answered_reader)))

results-source_example :
    results one_result ≡ source_results counting (sizes one_result) opened_reader.source
results-source_example = results-source counting one_read

new_ireader-Serves_example : Serves counting 8 closed_reader
unfolding IReader.close new_ireader
new_ireader-Serves_example =
    new_ireader-Serves counting 0 4096 8 (closes ∷ []) closed_reader
      (go (closed opened_reader) (stay closed_reader)) refl

abbrev ended_reader : IReader ℕ
ended_reader =
    IReader.end_goroutine (IReader.end_context (record opened_reader { waiting = 16 ∷ [] }))

how_it_ended :
    Run counting opened_reader (read_begins 16 ∷ context_ends ∷ goroutine_ends ∷ []) ended_reader
unfolding IReader.begin_read IReader.end_goroutine IReader.end_context new_ireader
how_it_ended =
    let waits : IReader ℕ = record opened_reader { waiting = 16 ∷ [] } in
    go (begins 16 opened_reader) (
      go (context_ended waits)
        (go (ends (IReader.end_context waits) refl refl) (stay ended_reader)))

new_ireader-stuck_example : (IReader.close ended_reader).waiting ≡ ended_reader.waiting
unfolding IReader.end_goroutine IReader.end_context new_ireader
new_ireader-stuck_example =
    new_ireader-stuck counting 0 4096 (read_begins 16 ∷ context_ends ∷ goroutine_ends ∷ [])
      (closes ∷ []) ended_reader (IReader.close ended_reader) how_it_ended refl
      (go (closed ended_reader) (stay (IReader.close ended_reader)))
