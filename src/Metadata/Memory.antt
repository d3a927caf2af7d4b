-- ===== src/Metadata/Memory.antt =====
-- metadata/memory.go. Every method holds the mutex from its first line to its return; the unlock
-- is deferred, so it also happens when `Write` panics.
pub mod Refinement
use secure_store.Effects.{
  Exec, Outcome, bucket_already_exists, bucket_does_not_exist, err, object_does_not_exists, ok,
  panic, there_is_no_bucket,
}
use secure_store.GoMap.{get, has, keys, put, remove}
use secure_store.Metadata.{Metadata, MetadataStore}
use secure_store.ObjectTable.Nested.{Nested}
use secure_store.Prelude.{List, Option, String, [], if◌then◌else◌, none, some}
use secure_store.Prelude.Eq.{bytes_Eq, string_Eq}

pub record MemoryStore : Type 0 where
  pub i : Nested Metadata

unfoldable pub new_memory_store : MemoryStore
new_memory_store = record { i = [] }

-- Without a bucket, `bucket` is the nil map, and an assignment to an entry of it panics.
unfoldable pub write : String → String → Metadata → Exec MemoryStore (Unit {0})
write bucket_id key_id metadata m = elim (get bucket_id m.i) [
  | none ↦ (panic, m)
  | some bucket ↦ (ok tt, record m { i = put bucket_id (put key_id metadata bucket) m.i })
]

found_meta : Option Metadata → Outcome Metadata
found_meta none = err there_is_no_bucket
found_meta (some meta) = ok meta

unfoldable pub read : String → String → Exec MemoryStore Metadata
unfolding found_meta
read bucket_id key_id m = elim (get bucket_id m.i) [
  | none ↦ (err there_is_no_bucket, m)
  | some bucket ↦ (found_meta (get key_id bucket), m)
]

unfoldable pub new_bucket : String → Exec MemoryStore (Unit {0})
new_bucket bucket m =
    if has bucket m.i
    then (err (bucket_already_exists bucket), m)
    else (ok tt, record m { i = put bucket [] m.i })

unfoldable pub delete : String → String → Exec MemoryStore (Unit {0})
delete bucket key m = elim (get bucket m.i) [
  | none ↦ (err (bucket_does_not_exist bucket), m)
  | some bucket_map ↦
      if has key bucket_map
      then (ok tt, record m { i = put bucket (remove key bucket_map) m.i })
      else (err (object_does_not_exists key), m)
]

unfoldable pub delete_bucket : String → Exec MemoryStore (Unit {0})
delete_bucket bucket m =
    if has bucket m.i
    then (ok tt, record m { i = remove bucket m.i })
    else (err (bucket_does_not_exist bucket), m)

unfoldable pub list_buckets : Exec MemoryStore (List String)
list_buckets m = (ok (keys m.i), m)

-- `*MemoryStore` as a `MetadataStore`
abbrev pub memory_store : MetadataStore MemoryStore
memory_store = record {
  new_bucket = new_bucket;
  write = write;
  read = read;
  delete = delete;
  delete_bucket = delete_bucket;
  list_buckets = list_buckets;
}
