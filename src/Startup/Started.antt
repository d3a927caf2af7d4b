-- ===== src/Startup/Started.antt =====
-- What main.go serves once it has started.
use secure_store.Users.Memory as UserMemory
use secure_store.Base64.{decode_raw_url}
use secure_store.Compound.{CompoundStore}
use secure_store.Effects.{Error, Outcome, ok}
use secure_store.Effects.Reader.{Bytes}
use secure_store.GoMap.{has}
use secure_store.Metadata.{MetadataStore}
use secure_store.Prelude.{
  Bool, Bool-cases, Option, Option-cases, String, arith, codes, inl, inr, none, refl, some, subst,
  sym, true, ℕ, ◌≡◌,
}
use secure_store.Prelude.Eq.{beq_refl, bytes_Eq, string_Eq, ◌==◌}
use secure_store.Router.{AccessStore, Handled, Request}
use secure_store.Router.Api.{World, with_role}
use secure_store.Router.Roles.{Authorised}
use secure_store.Router.Stored.{with_role-Authorised}
use secure_store.Security.{SecurityStore}
use secure_store.Startup.{
  AccessKind, Fatal, Outside, RedisOptions, Running, Start, StorageKind, access_failed,
  choose_access, choose_storage, crashed, data_dir, fatal, fs_storage, main, mem_access,
  mem_storage, memory_user_storage, opened, or_default, redis_access, redis_addr, redis_options,
  redis_store, running, storage_failed, then_start,
}
use secure_store.Startup.Numbers.{InInt32, parse_int, parse_int-InInt32}
use secure_store.Startup.Root.{root_api_key, root_rule, root_user, root_user-role}
use secure_store.Storage.{Storage}
use secure_store.Users.{Role, User, Uuid, verify_api_key}
use secure_store.Users.Memory.Index.{resolve_by_uuid-create}
use text.Mathlib.TextEquality.{eq_iff}

module _ (o : Outside) where
  -- The storage that the environment asks for.
  pub StorageChosen : StorageKind → Type 0
  StorageChosen (fs_storage dir) =
      (o.getenv "STORAGE_KIND" ≡ "FS_STORAGE") × (o.fs_fails dir ≡ none)
  StorageChosen mem_storage = o.getenv "STORAGE_KIND" ≡ "MEM_STORAGE"

  -- The access store that it asks for; the number of a Redis database has 32 bits.
  pub AccessChosen : AccessKind → Type 0
  AccessChosen mem_access = o.getenv "ACCESS_KIND" ≡ "MEM_ACCESS"
  AccessChosen (redis_access options) =
      (o.getenv "ACCESS_KIND" ≡ "REDIS_ACCESS")
      × (o.redis_fails options ≡ none)
      × InInt32 options.db

  opened-running :
      {A : Type 0} (fails : Option Error) (f : Error → Fatal) (a b : A)
      → opened fails f a ≡ running b
      → (fails ≡ none) × (a ≡ b)
  opened-running none f a b h = (refl, ground arith)
  opened-running (some e) f a b h = cc

  storage_chosen : (k : StorageKind) → choose_storage o ≡ running k → StorageChosen k
  unfolding choose_storage StorageChosen
  storage_chosen k h = elim (Bool-cases (o.getenv "STORAGE_KIND" == "FS_STORAGE")) [
    | inl e ↦
        let (works, same) =
          opened-running (o.fs_fails (data_dir o)) storage_failed (fs_storage (data_dir o)) k
            (ground arith) in
        subst StorageChosen same ((eq_iff _ _).0 e, works)
    | inr n ↦ elim (Bool-cases (o.getenv "STORAGE_KIND" == "MEM_STORAGE")) [
      | inl e ↦
          let same : mem_storage ≡ k = ground arith in subst StorageChosen same ((eq_iff _ _).0 e)
      | inr m ↦ cc
    ]
  ]

  redis_chosen :
      (k : AccessKind)
      → o.getenv "ACCESS_KIND" ≡ "REDIS_ACCESS"
      → redis_store o ≡ running k
      → AccessChosen k
  unfolding AccessChosen redis_options
  redis_chosen k kind h =
      elim (Option-cases (parse_int (codes (or_default (o.getenv "REDIS_DB") "0")))) [
        | inl n ↦ cc
        | inr (db, e) ↦
            let options : RedisOptions = record {
              addr = redis_addr o;
              password = o.getenv "REDIS_PASSWORD";
              db = db;
            } in
            let (works, same) =
              opened-running (o.redis_fails options) access_failed (redis_access options) k
                (ground arith) in
            subst AccessChosen same (kind, works, parse_int-InInt32 _ db e)
      ]

  access_chosen : (k : AccessKind) → choose_access o ≡ running k → AccessChosen k
  unfolding choose_access AccessChosen
  access_chosen k h = elim (Bool-cases (o.getenv "ACCESS_KIND" == "MEM_ACCESS")) [
    | inl e ↦ let same : mem_access ≡ k = ground arith in subst AccessChosen same ((eq_iff _ _).0 e)
    | inr n ↦ elim (Bool-cases (o.getenv "ACCESS_KIND" == "REDIS_ACCESS")) [
      | inl e ↦ redis_chosen k ((eq_iff _ _).0 e) (ground arith)
      | inr m ↦ cc
    ]
  ]

  then_start-running :
      {A B : Type 0} (m : Start A) (f : A → Start B) (b : B)
      → then_start m f ≡ running b
      → (a : A) × (m ≡ running a) × (f a ≡ running b)
  then_start-running (running a) f b h = (a, refl, h)
  then_start-running (fatal e) f b h = cc
  then_start-running crashed f b h = cc

  module _ (root : User) (r : Running) (started : main o (ok root) ≡ running r) where
    Parts : Type 0
    Parts =
        (choose_storage o ≡ running r.storage)
        × (choose_access o ≡ running r.access)
        × (r.users ≡ (UserMemory.create root UserMemory.new_memory_store).1)

    parts : Parts
    unfolding main Parts
    parts =
        let (s, chosen_s, rest) = then_start-running (choose_storage o) _ r started in
        let (a, chosen_a, end) = then_start-running (choose_access o) _ r rest in
        (ground arith, ground arith, ground arith)

    -- If the program starts, then its storage and its access store are those that STORAGE_KIND
    -- and ACCESS_KIND name, and could be opened; the number of a Redis database is one of 32
    -- bits.
    pub main-chosen : StorageChosen r.storage × AccessChosen r.access
    unfolding Parts
    main-chosen = (storage_chosen r.storage parts.0, access_chosen r.access parts.1)

    root_found : UserMemory.resolve_by_api_key root.api_key r.users ≡ ok root
    unfolding Parts UserMemory.create UserMemory.new_memory_store has
    root_found = rw (parts.2) (resolve_by_uuid-create root UserMemory.new_memory_store _ refl).1

    module _ (parse : String → Outcome Uuid) (rand_read : ℕ → Outcome Bytes)
        (id_key : Bytes → Bytes → Bytes) (empty_hash : Bytes)
        (made : root_user parse rand_read id_key empty_hash ≡ ok root) {M S T A : Type 0}
        (encrypt : Bytes → Bytes → Bytes) (ms : MetadataStore M) (ss : SecurityStore S)
        (ts : Storage T) (access_store : AccessStore A) (allowed : Role → Bool) (c : Request)
        (w : World (CompoundStore M S T) A UserMemory.MemoryStore) where
      root-Authorised :
          allowed root_rule ≡ true
          → w.users ≡ r.users
          → decode_raw_url (codes (c.query "apiKey")) ≡ some root_api_key
          → Authorised encrypt ms ss ts access_store memory_user_storage allowed c w
      unfolding verify_api_key
      root-Authorised granted same presented =
          let (role, key) = root_user-role parse rand_read id_key empty_hash root made in
          record {
            api_key = root_api_key;
            user = root;
            decoded = presented;
            resolved = rw same (rw (sym key) root_found);
            verified = rw key (beq_refl root_api_key);
            right = rw role granted;
          }

      -- If the program starts with the root user that main.go makes, then over its user store and
      -- any other stores the check of /upload and /api/add lets a request with the API key
      -- root-api-key through, for every right that the root user has: the handler goes on with
      -- what is behind the check, and nothing has changed.
      pub with_role-root_user :
          (rest : World (CompoundStore M S T) A UserMemory.MemoryStore
            → Handled (World (CompoundStore M S T) A UserMemory.MemoryStore))
          → allowed root_rule ≡ true
          → w.users ≡ r.users
          → decode_raw_url (codes (c.query "apiKey")) ≡ some root_api_key
          → with_role encrypt ms ss ts access_store memory_user_storage allowed c w rest ≡ rest w
      with_role-root_user rest granted same presented =
          with_role-Authorised encrypt ms ss ts access_store memory_user_storage allowed c w rest
            (root-Authorised granted same presented)
