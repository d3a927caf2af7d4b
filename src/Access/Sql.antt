-- ===== src/Access/Sql.antt =====
-- access/sql.go: the two conversions between access keys and the rows of the database. The columns
-- that gorm adds, and the foreign key of the valid keys, are left out: the code does not read them.
pub mod Store
pub mod Steps
pub mod Uses
use secure_store.Access.ByteSet
use secure_store.Access.{AKey, Heap}
use secure_store.Access.ByteSet.{HashSet}
use secure_store.Effects.{Exec, Outcome, continue, err, ok, panic}
use secure_store.Effects.Reader.{Bytes}
use secure_store.GoMap.{GoMap, keys}
use secure_store.Prelude.{
  Bool, List, Option, String, [], arith, false, if◌then◌else◌, nat_eq, none, some, suc, true, ℕ,
  ◌&&◌, ◌∷◌, ◌≡◌,
}
use secure_store.Prelude.Eq.{bytes_Eq, string_Eq}

pub record DbaKey : Type 0 where
  pub expires : Bool
  pub ttl : Option ℕ
  pub limited : Bool
  pub limit : ℕ
  pub used_times : ℕ
  pub bucket_id : String
  pub key_id : String
  pub url_key : String
  pub needs_key : Bool
  pub valid_keys : List Bytes
  pub resolve_by_url_key : Bool

keys_in : HashSet → List Bytes
keys_in set = elim set.set [ none ↦ [] | some m ↦ keys m ]

dba_keys : AKey → Outcome (List Bytes)
unfolding keys_in
dba_keys key =
    if key.needs_key
    then elim key.valid_keys [ none ↦ panic | some set ↦ ok (keys_in set) ]
    else ok []

-- `*key.usedTimes` of a nil pointer panics.
unfoldable pub dba_key_from_akey : AKey → Heap → Outcome DbaKey
unfolding dba_keys
dba_key_from_akey key h = elim key.used_times [
  | none ↦ panic
  | some p ↦ elim (dba_keys key) [
    | err e ↦ err e
    | panic ↦ panic
    | ok valid_keys ↦ ok (record {
      expires = key.expires;
      ttl = key.ttl;
      limited = key.limited;
      limit = key.limit;
      used_times = h.cells p;
      bucket_id = key.bucket_id;
      key_id = key.key_id;
      url_key = key.url_key;
      needs_key = key.needs_key;
      valid_keys = valid_keys;
      resolve_by_url_key = key.resolve_by_url_key;
    })
  ]
]

insert_keys : List Bytes → HashSet → Outcome HashSet
insert_keys [] set = ok set
insert_keys (key ∷ keys) set = elim (ByteSet.insert key set) [
  | ok more ↦ insert_keys keys more
  | err e ↦ err e
  | panic ↦ panic
]

-- `new(HashSet)` has a nil map, and `usedTimes` points into the row, which is a new cell.
unfoldable pub akey_from_dba_key : DbaKey → Exec Heap AKey
unfolding insert_keys
akey_from_dba_key dba_key h = elim (insert_keys dba_key.valid_keys (record { set = none })) [
  | err e ↦ (err e, h)
  | panic ↦ (panic, h)
  | ok keys ↦ (
    ok (record {
      expires = dba_key.expires;
      ttl = dba_key.ttl;
      limited = dba_key.limited;
      limit = dba_key.limit;
      used_times = some h.next_pointer;
      bucket_id = dba_key.bucket_id;
      key_id = dba_key.key_id;
      url_key = dba_key.url_key;
      needs_key = dba_key.needs_key;
      valid_keys = some keys;
      resolve_by_url_key = dba_key.resolve_by_url_key;
    }),
    record {
      next_pointer = suc h.next_pointer;
      cells = λ p. if nat_eq p h.next_pointer then dba_key.used_times else h.cells p;
    },
  )
]

abbrev pub has_keys : GoMap Bytes (Unit {0}) → Bool
has_keys [] = false
has_keys ((k, t) ∷ m) = true

-- Converting a key with a counter and a set of valid keys to a row and back panics if the key
-- asks for an unlock key and the set is not empty; otherwise it gives the key with a fresh
-- counter and a set whose map is nil.
pub akey_from_dba_key-dba_key_from_akey :
    (key : AKey) (h : Heap) (p : ℕ) (m : GoMap Bytes (Unit {0}))
    → key.used_times ≡ some p
    → key.valid_keys ≡ some (record { set = some m })
    → (continue (dba_key_from_akey key h) akey_from_dba_key h).0 ≡ (
        if key.needs_key && has_keys m
        then panic
        else ok (record key {
          used_times = some h.next_pointer;
          valid_keys = some (record { set = none });
        }))
unfolding dba_key_from_akey akey_from_dba_key ByteSet.insert
akey_from_dba_key-dba_key_from_akey key h p [] u v = ground arith
akey_from_dba_key-dba_key_from_akey key h p ((k, t) ∷ m) u v = ground arith
