-- ===== src/Metadata/Memory/Refinement.antt =====
-- Each method of the metadata `MemoryStore` against the table of objects. `Write` overwrites, and
-- panics where there is no bucket.
use secure_store.ObjectTable
use secure_store.Effects.{Outcome, ok, panic}
use secure_store.GoMap.{get, has}
use secure_store.Metadata.{Metadata}
use secure_store.Metadata.Memory.{MemoryStore, delete, delete_bucket, new_bucket, read, write}
use secure_store.ObjectTable.{Agrees, Table}
use secure_store.ObjectTable.Nested.{
  SameTable-delete, SameTable-delete_bucket, SameTable-new_bucket, SameTable-refl, SameTable-store,
  has-none, has-some, lookup, lookup-none, lookup-some, view,
}
use secure_store.Prelude.{
  Bool-cases, Option-cases, String, arith, if◌then◌else◌, inl, inr, refl, some, ◌↔◌, ◌≡◌,
}
use secure_store.Prelude.Eq.{bytes_Eq, string_Eq}

abbrev pub meta_table : MemoryStore → Table Metadata
meta_table m = view m.i

abbrev pub shown {ℓ} : {A : Type ℓ} → Outcome A × MemoryStore → Outcome A × Table Metadata
shown r = (r.0, meta_table r.1)

pub new_bucket-Agrees :
    (bucket : String) (m : MemoryStore)
    → Agrees (shown (new_bucket bucket m)) (ObjectTable.new_bucket bucket (meta_table m))
unfolding new_bucket
new_bucket-Agrees bucket m = elim (Option-cases (get bucket m.i)) [
  | inl e ↦ rw (has-none bucket m.i e) (refl, SameTable-new_bucket bucket m.i e)
  | inr (inner, e) ↦ rw (has-some bucket m.i e) (refl, SameTable-refl _)
]

-- What `Write` does to a table.
abbrev pub overwrite :
    String → String → Metadata → Table Metadata → Outcome (Unit {0}) × Table Metadata
overwrite b k v t = if t.bucket b then (ok tt, ObjectTable.store b k v t) else (panic, t)

-- `write` of the metadata store agrees with overwriting an entry of the table: it panics and
-- changes nothing without the bucket, and otherwise succeeds and sets this entry only.
pub write-Agrees :
    (bucket key : String) (meta : Metadata) (m : MemoryStore)
    → Agrees (shown (write bucket key meta m)) (overwrite bucket key meta (meta_table m))
unfolding write has
write-Agrees bucket key meta m = elim (Option-cases (get bucket m.i)) [
  | inl e ↦ rw (e, write) (refl, SameTable-refl _)
  | inr (inner, e) ↦ rw (e, write) (refl, unfold has in SameTable-store bucket m.i key meta inner e)
]

pub read_same : (bucket key : String) (m : MemoryStore) → (read bucket key m).1 ≡ m
unfolding read
read_same bucket key m = ground arith

pub read-ok_iff :
    (bucket key : String) (meta : Metadata) (m : MemoryStore)
    → ((read bucket key m).0 ≡ ok meta) ↔ (lookup bucket key m.i ≡ some meta)
unfolding read
read-ok_iff bucket key meta m = elim (Option-cases (get bucket m.i)) [
  | inl e ↦ rw (lookup-none bucket m.i key e) (rw (e, read) (ground arith))
  | inr (inner, e) ↦ rw (lookup-some bucket m.i key e) (rw (e, read) (ground arith))
]

-- `delete` of the metadata store returns, on every branch, the result that the table of objects
-- prescribes for a deletion, and leaves the table that it prescribes.
pub delete-Agrees :
    (bucket key : String) (m : MemoryStore)
    → Agrees (shown (delete bucket key m)) (ObjectTable.delete bucket key (meta_table m))
unfolding delete has
delete-Agrees bucket key m = elim (Option-cases (get bucket m.i)) [
  | inl e ↦ rw (e, delete) (refl, SameTable-refl _)
  | inr (inner, e) ↦ rw (lookup-some bucket m.i key e) (
      rw (e, delete)
        (elim (Option-cases (get key inner)) [
          | inl n ↦ rw n (refl, SameTable-refl _)
          | inr (v, h) ↦ rw h (refl, unfold has in SameTable-delete bucket m.i key inner e)
        ]))
]

pub delete_bucket-Agrees :
    (bucket : String) (m : MemoryStore)
    → Agrees (shown (delete_bucket bucket m)) (ObjectTable.delete_bucket bucket (meta_table m))
unfolding delete_bucket
delete_bucket-Agrees bucket m = elim (Bool-cases (has bucket m.i)) [
  | inl h ↦ rw h (refl, SameTable-delete_bucket bucket m.i)
  | inr n ↦ rw n (refl, SameTable-refl _)
]
