-- ===== src/Startup.antt =====
-- main.go: what the program does with its environment before it serves, and the root user. The
-- environment, the temporary directory, `uuid.NewString`, the file system and the Redis client are
-- parameters. Logging is left out.

pub mod Numbers
pub mod Domains
pub mod Root
pub mod Started
use secure_store.Access.Memory as AccessMemory
use secure_store.Users.Memory as UserMemory
use secure_store.Effects.{Error, Outcome, err, ok, panic}
use secure_store.Prelude.{List, Option, String, codes, if◌then◌else◌, none, some}
use secure_store.Prelude.Eq.{bytes_Eq, string_Eq, ◌==◌}
use secure_store.Prelude.Int.{ℤ}
use secure_store.Router.{AccessStore, UserStorage, said}
use secure_store.Startup.Domains.{domains_filtered}
use secure_store.Startup.Numbers.{parse_int}
use secure_store.Text.{Text}
use secure_store.Users.{User}

-- `NewMemoryStore` of access and of users, as the interfaces that `NewRouter` takes.
abbrev pub memory_access_store : AccessStore AccessMemory.MemoryStore
memory_access_store = record {
  add_key = AccessMemory.add_key;
  access = AccessMemory.access;
  delete_key = AccessMemory.delete_key;
}

abbrev pub memory_user_storage : UserStorage UserMemory.MemoryStore
memory_user_storage = record {
  create = UserMemory.create;
  resolve_by_api_key = λ api_key m. (UserMemory.resolve_by_api_key api_key m, m);
}

-- Why the process exits before it serves.
pub data Fatal : Type 0 where
  storage_env_invalid access_env_invalid : String → Fatal
  storage_failed access_failed : Error → Fatal
  redis_db_invalid : Fatal

pub data Start {ℓ} (A : Type ℓ) : Type ℓ where
  running : A → Start A
  fatal : Fatal → Start A
  -- A panic of the code.
  crashed : Start A

-- A choice of `storage.Storage`.
pub data StorageKind : Type 0 where
  fs_storage : String → StorageKind
  mem_storage : StorageKind

-- `redis.Options`
pub record RedisOptions : Type 0 where
  pub addr : String
  pub password : String
  pub db : ℤ

-- A choice of `access.AccessStore`.
pub data AccessKind : Type 0 where
  mem_access : AccessKind
  redis_access : RedisOptions → AccessKind

-- `r.Run` with an address, or `autotls.Run` with domains.
pub data Listener : Type 0 where
  plain_listener : String → Listener
  tls_listener : List Text → Listener

pub record Running : Type 0 where
  pub port : String
  pub storage : StorageKind
  pub access : AccessKind
  pub users : UserMemory.MemoryStore
  pub listener : Listener

-- `if value == "" { value = fallback }`
abbrev or_default : String → String → String
or_default value fallback = if value == "" then fallback else value

abbrev then_start {ℓ} : {A B : Type ℓ} → Start A → (A → Start B) → Start B
then_start (running a) f = f a
then_start (fatal e) f = fatal e
then_start crashed f = crashed

-- What the process finds outside: `getenv`, `os.TempDir`, `uuid.NewString`, and whether
-- `NewFsStorage` and `NewRedisStore` fail.
pub record Outside : Type 0 where
  pub getenv : String → String
  pub temp_dir : String
  pub new_uuid : String
  pub fs_fails : String → Option Error
  pub redis_fails : RedisOptions → Option Error

abbrev opened : {A : Type 0} → Option Error → (Error → Fatal) → A → Start A
opened none f a = running a
opened (some e) f a = fatal (f e)

module _ (o : Outside) where
  abbrev data_dir : String
  data_dir = or_default (o.getenv "DATA_DIR") (said o.temp_dir (said "data/" o.new_uuid))

  -- Before it exits, the default case sets the variable for the process itself.
  unfoldable pub choose_storage : Start StorageKind
  choose_storage =
      let kind = o.getenv "STORAGE_KIND" in
      if kind == "FS_STORAGE"
      then opened (o.fs_fails data_dir) storage_failed (fs_storage data_dir)
      else if kind == "MEM_STORAGE"
      then running mem_storage
      else fatal (storage_env_invalid kind)

  abbrev redis_addr : String
  redis_addr =
      said (or_default (o.getenv "REDIS_HOST") "0.0.0.0")
        (said ":" (or_default (o.getenv "REDIS_PORT") "6379"))

  unfoldable pub redis_options : Start RedisOptions
  redis_options = elim (parse_int (codes (or_default (o.getenv "REDIS_DB") "0"))) [
    | none ↦ fatal redis_db_invalid
    | some db ↦
        running (record { addr = redis_addr; password = o.getenv "REDIS_PASSWORD"; db = db })
  ]

  -- `NewRedisStore` of a client with these options.
  abbrev redis_store : Start AccessKind
  redis_store =
      then_start (redis_options)
        λ options. opened (o.redis_fails options) access_failed (redis_access options)

  unfoldable pub choose_access : Start AccessKind
  choose_access =
      let kind = o.getenv "ACCESS_KIND" in
      if kind == "MEM_ACCESS"
      then running mem_access
      else if kind == "REDIS_ACCESS"
      then redis_store
      else fatal (access_env_invalid kind)

  unfoldable pub listen : Listener
  unfolding domains_filtered
  listen =
      let domains_string = o.getenv "DOMAINS" in
      if domains_string == ""
      then plain_listener (said "0.0.0.0:" (or_default (o.getenv "PORT") "8080"))
      else tls_listener (domains_filtered (codes domains_string))

  -- An error of `Create` is logged only; without a root user, `Create` of nil panics. `RootUser`
  -- is made before `main` begins, and an error of its making is dropped.
  abbrev with_root : Outcome User → Start UserMemory.MemoryStore
  with_root (ok user) = running (UserMemory.create user UserMemory.new_memory_store).1
  with_root (err e) = crashed
  with_root panic = crashed

  unfoldable pub main : Outcome User → Start Running
  unfolding choose_storage choose_access listen
  main root_user = then_start choose_storage λ s. then_start choose_access λ a.
      then_start (with_root root_user) λ u. running (record {
        port = or_default (o.getenv "PORT") "8080";
        storage = s;
        access = a;
        users = u;
        listener = listen;
      })
