-- ===== src/Storage/Memory.antt =====
-- storage/memory.go. Every method holds the mutex from its first line to its return, so a method
-- is one step on the maps.
pub mod Refinement
pub mod Listing
use secure_store.Effects.{
  Exec, Outcome, bucket_already_exists, bucket_does_not_exist, err, object_already_exists,
  object_does_not_exists, ok, panic,
}
use secure_store.Effects.Reader.{Bytes, Reader, new_reader, read_all}
use secure_store.GoMap.{GoMap, get, has, keys, put, remove}
use secure_store.ObjectTable.Nested.{Nested}
use secure_store.Prelude.{List, Option, String, [], if◌then◌else◌, none, some}
use secure_store.Prelude.Eq.{bytes_Eq, string_Eq}
use secure_store.Storage.{Storage}

pub record MemoryStorage : Type 0 where
  pub i : Nested Bytes

unfoldable pub new_memory_storage : MemoryStorage
new_memory_storage = record { i = [] }

unfoldable pub new_bucket : String → Exec MemoryStorage (Unit {0})
new_bucket bucket m =
    if has bucket m.i
    then (err (bucket_already_exists bucket), m)
    else (ok tt, record m { i = put bucket [] m.i })

-- `io.ReadAll` and the assignment after it
keep : String → String → GoMap String Bytes → Outcome Bytes → Exec MemoryStorage (Unit {0})
keep bucket key bucket_map (ok internal_data) m =
    (ok tt, record m { i = put bucket (put key internal_data bucket_map) m.i })
keep bucket key bucket_map (err e) m = (err e, m)
keep bucket key bucket_map panic m = (panic, m)

unfoldable pub write : String → String → Reader → Exec MemoryStorage (Unit {0})
unfolding keep
write bucket key data_reader m = elim (get bucket m.i) [
  | none ↦ (err (bucket_does_not_exist bucket), m)
  | some bucket_map ↦
      if has key bucket_map
      then (err (object_already_exists key), m)
      else keep bucket key bucket_map (read_all data_reader) m
]

-- The copy of the stored bytes is what the returned reader gives.
give : String → Option Bytes → Exec MemoryStorage Reader
give key none m = (err (object_does_not_exists key), m)
give key (some map_data) m = (ok (new_reader map_data), m)

unfoldable pub read : String → String → Exec MemoryStorage Reader
unfolding give
read bucket key m = elim (get bucket m.i) [
  | none ↦ (err (bucket_does_not_exist bucket), m)
  | some bucket_map ↦ give key (get key bucket_map) m
]

unfoldable pub delete : String → String → Exec MemoryStorage (Unit {0})
delete bucket key m = elim (get bucket m.i) [
  | none ↦ (err (bucket_does_not_exist bucket), m)
  | some bucket_map ↦
      if has key bucket_map
      then (ok tt, record m { i = put bucket (remove key bucket_map) m.i })
      else (err (object_does_not_exists key), m)
]

unfoldable pub delete_bucket : String → Exec MemoryStorage (Unit {0})
delete_bucket bucket m =
    if has bucket m.i
    then (ok tt, record m { i = remove bucket m.i })
    else (err (bucket_does_not_exist bucket), m)

unfoldable pub list_buckets : Exec MemoryStorage (List String)
list_buckets m = (ok (keys m.i), m)

-- `*MemoryStorage` as a `Storage`
abbrev pub memory_storage : Storage MemoryStorage
memory_storage = record {
  new_bucket = new_bucket;
  write = write;
  read = read;
  delete = delete;
  delete_bucket = delete_bucket;
  list_buckets = list_buckets;
}
