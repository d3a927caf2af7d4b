-- ===== src/Access/Redis.antt =====
-- access/redis.go: the two conversions between access keys and the messages that Redis keeps. A
-- message is what access.proto declares; a timestamp is the number of its instant.
pub mod Last
pub mod Store
pub mod Loaded
use secure_store.Access.ByteSet
use secure_store.Access.{AKey, Heap, valid_key}
use secure_store.Access.ByteSet.{HashSet, sha512_size}
use secure_store.Effects.{Exec, Outcome, err, ok, panic}
use secure_store.Effects.Reader.{Bytes}
use secure_store.GoMap.{GoMap, keys}
use secure_store.Prelude.{
  Bool, List, Option, String, [], if◌then◌else◌, nat_eq, none, some, suc, zero, ℕ, ◌∷◌,
}
use secure_store.Prelude.Eq.{bytes_Eq, string_Eq}

pub record ProtoAKey : Type 0 where
  pub expires : Bool
  pub ttl : Option ℕ
  pub limited : Bool
  pub limit : ℕ
  pub used_times : ℕ
  pub bucket_id : String
  pub key_id : String
  pub url_key : String
  pub needs_key : Bool
  pub valid_keys : List Bytes
  pub resolve_by_url_key : Bool

-- `for array := range set`: go.mod asks for Go 1.16, in which the loop has one variable `array`,
-- and all the slices `array[:]` are views of it. The number of the slices, and what `array` holds
-- at the end.
visit : GoMap Bytes (Unit {0}) → ℕ → Bytes → ℕ × Bytes
visit [] n array = (n, array)
visit ((k, t) ∷ m) n array = visit m (suc n) k

-- What n slices of one array read.
slices : ℕ → Bytes → List Bytes
slices zero array = []
slices (suc n) array = array ∷ slices n array

keys_in : HashSet → List Bytes
unfolding visit slices
keys_in set = elim set.set [ none ↦ [] | some m ↦ let v = visit m 0 [] in slices v.0 v.1 ]

proto_keys : AKey → Outcome (List Bytes)
unfolding keys_in
proto_keys key =
    if key.needs_key
    then elim key.valid_keys [ none ↦ panic | some set ↦ ok (keys_in set) ]
    else ok []

-- The counter is read from the heap, and 0 if there is none.
abbrev pub count_of : AKey → Heap → ℕ
count_of key h = elim key.used_times [ none ↦ 0 | some p ↦ h.cells p ]

unfoldable pub proto_key_from_akey : AKey → Heap → Outcome ProtoAKey
unfolding proto_keys
proto_key_from_akey key h = elim (proto_keys key) [
  | err e ↦ err e
  | panic ↦ panic
  | ok keys ↦ ok (record {
    expires = key.expires;
    ttl = key.ttl;
    limited = key.limited;
    limit = key.limit;
    used_times = count_of key h;
    bucket_id = key.bucket_id;
    key_id = key.key_id;
    url_key = key.url_key;
    needs_key = key.needs_key;
    valid_keys = keys;
    resolve_by_url_key = key.resolve_by_url_key;
  })
]

-- `validKey[i] = key[i]` for the n indices of an array: an index beyond `key` panics.
fill : ℕ → Bytes → Outcome Bytes
fill zero key = ok []
fill (suc n) [] = panic
fill (suc n) (b ∷ key) = elim (fill n key) [ ok bs ↦ ok (b ∷ bs) | err e ↦ err e | panic ↦ panic ]

insert_keys : List Bytes → HashSet → Outcome HashSet
unfolding fill
insert_keys [] set = ok set
insert_keys (key ∷ keys) set = elim (fill sha512_size key) [
  | err e ↦ err e
  | panic ↦ panic
  | ok valid_key ↦ elim (ByteSet.insert valid_key set) [
    | ok more ↦ insert_keys keys more
    | err e ↦ err e
    | panic ↦ panic
  ]
]

-- `usedTimes` points into the message, which is a new cell.
unfoldable pub akey_from_proto_key : ProtoAKey → Exec Heap AKey
unfolding insert_keys
akey_from_proto_key proto h = elim (insert_keys proto.valid_keys ByteSet.new_hash_set) [
  | err e ↦ (err e, h)
  | panic ↦ (panic, h)
  | ok keys ↦ (
    ok (record {
      expires = proto.expires;
      ttl = proto.ttl;
      limited = proto.limited;
      limit = proto.limit;
      used_times = some h.next_pointer;
      bucket_id = proto.bucket_id;
      key_id = proto.key_id;
      url_key = proto.url_key;
      needs_key = proto.needs_key;
      valid_keys = some keys;
      resolve_by_url_key = proto.resolve_by_url_key;
    }),
    record {
      next_pointer = suc h.next_pointer;
      cells = λ p. if nat_eq p h.next_pointer then proto.used_times else h.cells p;
    },
  )
]
