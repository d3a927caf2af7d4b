-- ===== src/Storage/Memory/Listing.antt =====
-- An invariant of `MemoryStorage` (storage/memory.go), that no map holds a key twice, and
-- `ListBuckets`.
use secure_store.Effects.{Outcome, err, ok, panic}
use secure_store.Effects.Reader.{Reader}
use secure_store.GoMap.{IsMap, occurrences, occurrences-keys, put-IsMap, remove-IsMap}
use secure_store.Prelude.{List, String, [], arith, if◌then◌else◌, ◌≡◌}
use secure_store.Prelude.Eq.{bytes_Eq, string_Eq}
use secure_store.Storage.Memory.{
  MemoryStorage, delete, delete_bucket, list_buckets, new_bucket, new_memory_storage, write,
}
use secure_store.Storage.Memory.Refinement.{table}

pub record IsWellFormed (m : MemoryStorage) : Type 0 where
  pub distinct : IsMap m.i

pub new_memory_storage-IsWellFormed : IsWellFormed new_memory_storage
unfolding new_memory_storage
new_memory_storage-IsWellFormed = record { distinct = tt }

module _ (m : MemoryStorage) (h : IsWellFormed m) (bucket key : String) where
  pub new_bucket-IsWellFormed : IsWellFormed (new_bucket bucket m).1
  unfolding new_bucket
  new_bucket-IsWellFormed = ground (arith, put-IsMap bucket [] m.i h.distinct)

  pub write-IsWellFormed : (r : Reader) → IsWellFormed (write bucket key r m).1
  unfolding write
  write-IsWellFormed r = grind (arith, put-IsMap, h.distinct)

  pub delete-IsWellFormed : IsWellFormed (delete bucket key m).1
  unfolding delete
  delete-IsWellFormed = grind (arith, put-IsMap, h.distinct)

  pub delete_bucket-IsWellFormed : IsWellFormed (delete_bucket bucket m).1
  unfolding delete_bucket
  delete_bucket-IsWellFormed = ground (arith, remove-IsMap bucket m.i h.distinct)

-- What `ListBuckets` returns.
abbrev pub names : Outcome (List String) → List String
names (ok bs) = bs
names (err e) = []
names panic = []

-- In a storage none of whose maps holds a key twice, `list_buckets` names a bucket once if it
-- exists and not at all if it does not.
pub list_buckets_once :
    (m : MemoryStorage) (bucket : String)
    → IsWellFormed m
    → occurrences bucket (names (list_buckets m).0) ≡ (if (table m).bucket bucket then 1 else 0)
unfolding list_buckets
list_buckets_once m bucket h = occurrences-keys bucket m.i h.distinct
