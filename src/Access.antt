-- ===== src/Access.antt =====
-- access/access.go: access keys, and how the API makes them. A key is shared by pointer, and the
-- one part of it that changes is the counter behind `usedTimes`, so the counters live on a heap
-- and all else is a value. Times are numbers on the clock of `time.Now`. The interface
-- `AccessStore` is implemented by the child `Memory` (access/memory.go) and by `Redis` (access/redis.go).

pub mod ByteSet
pub mod Made
pub mod Memory
pub mod Redis
pub mod Sql
use secure_store.Access.ByteSet
use secure_store.Access.ByteSet
use secure_store.Access.ByteSet.{HashSet, sha512_size}
use secure_store.Effects.{
  Exec, Outcome, err, lift, ok, panic, ttl_already_expired, wrong_key_length, ◌>>=◌, ◌>>◌,
}
use secure_store.Effects.Reader.{Bytes}
use secure_store.Prelude.{
  Bool, List, Option, String, [], false, if◌then◌else◌, is_some, length, ltb, nat_eq, none, not,
  some, suc, ℕ, ◌∷◌,
}

-- The counters: `next` is the first pointer that was not handed out.
pub record Heap : Type 0 where
  pub next_pointer : ℕ
  pub cells : ℕ → ℕ

pub record AKey : Type 0 where
  pub expires : Bool
  pub ttl : Option ℕ
  pub limited : Bool
  pub limit : ℕ
  pub used_times : Option ℕ
  pub bucket_id : String
  pub key_id : String
  pub url_key : String
  pub needs_key : Bool
  pub valid_keys : Option HashSet
  pub resolve_by_url_key : Bool

pub record ExAccessKey : Type 0 where
  pub ttl : Option ℕ
  pub limit : Option ℕ
  pub valid_keys : List Bytes
  pub resolve_by_url_key : Bool
  pub bucket_id : String
  pub key_id : String
  pub url_key : String

pub record KeyOptions : Type 0 where
  pub expires : Bool
  pub ttl : Option ℕ
  pub limited : Bool
  pub limit : ℕ
  pub needs_key : Bool
  pub valid_keys : Option HashSet
  pub resolve_by_url_key : Bool

-- `ttl != nil && time.Now().After(*ttl)`
pub expired : ℕ → Option ℕ → Bool
expired now none = false
expired now (some ttl) = ltb ttl now

limit_of : Option ℕ → ℕ
limit_of none = 0
limit_of (some limit) = limit

unfoldable pub new_key_options :
    ℕ → Option ℕ → Option ℕ → Option HashSet → Bool → Outcome KeyOptions
unfolding expired limit_of
new_key_options now ttl limit valid_keys resolve_by_url_key =
    if expired now ttl
    then err (ttl_already_expired now)
    else ok (record {
      expires = is_some ttl;
      ttl = ttl;
      limited = is_some limit;
      limit = limit_of limit;
      needs_key = is_some valid_keys;
      valid_keys = valid_keys;
      resolve_by_url_key = resolve_by_url_key;
    })

unfoldable pub new_access_key : String → String → String → KeyOptions → Heap → AKey × Heap
new_access_key bucket_id key_id url_key options h = (
  record {
    expires = options.expires;
    ttl = options.ttl;
    limited = options.limited;
    limit = options.limit;
    used_times = some h.next_pointer;
    bucket_id = bucket_id;
    key_id = key_id;
    url_key = url_key;
    needs_key = options.needs_key;
    valid_keys = options.valid_keys;
    resolve_by_url_key = options.resolve_by_url_key;
  },
  record {
    next_pointer = suc h.next_pointer;
    cells = λ p. if nat_eq p h.next_pointer then 0 else h.cells p;
  },
)

-- The loop over `ex.ValidKeys`; the copy of 64 bytes into an array is the same bytes.
insert_all : List Bytes → HashSet → Outcome HashSet
insert_all [] set = ok set
insert_all (e ∷ es) set =
    let rest : Outcome HashSet = elim (ByteSet.insert e set) [
      | ok more ↦ insert_all es more
      | err x ↦ err x
      | panic ↦ panic
    ] in
    if not (nat_eq (length e) sha512_size) then err wrong_key_length else rest

-- `validKeys = nil` for an empty list
collect : List Bytes → Outcome (Option HashSet)
collect [] = ok none
collect (e ∷ es) = elim (insert_all (e ∷ es) ByteSet.new_hash_set) [
  | ok set ↦ ok (some set)
  | err x ↦ err x
  | panic ↦ panic
]

unfoldable pub from_ex_access_key : ℕ → ExAccessKey → Exec Heap AKey
unfolding insert_all collect
from_ex_access_key now ex = do
  valid_keys ← lift (collect ex.valid_keys)
  key_opts ← lift (new_key_options now ex.ttl ex.limit valid_keys ex.resolve_by_url_key)
  λ h. let made = new_access_key ex.bucket_id ex.key_id ex.url_key key_opts h in (ok made.0, made.1)

unfoldable pub valid_key : AKey → Bytes → Outcome Bool
valid_key a key =
    if not (nat_eq (length key) sha512_size)
    then err wrong_key_length
    else elim a.valid_keys [ none ↦ panic | some set ↦ ok (ByteSet.contains key set) ]
