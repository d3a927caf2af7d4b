-- ===== src/Storage/Memory/Refinement.antt =====
-- Each method of `MemoryStorage` (storage/memory.go), and histories of calls, against the table
-- of objects.
use secure_store.ObjectTable
use secure_store.Effects.{Outcome, err, ok, panic}
use secure_store.Effects.Reader.{Bytes, Reader, read_all, read_all-new_reader}
use secure_store.GoMap.{GoMap, get, has}
use secure_store.ObjectTable.{Agrees, SameTable, Table}
use secure_store.ObjectTable.History.{
  SameTable-trans, delete-SameTable, delete_bucket-SameTable, find-SameTable, insert-SameTable,
  new_bucket-SameTable,
}
use secure_store.ObjectTable.Nested.{
  SameTable-delete, SameTable-delete_bucket, SameTable-new_bucket, SameTable-refl, SameTable-store,
  has-none, has-some, lookup, lookup-some, view,
}
use secure_store.Prelude.{
  Bool-cases, List, Option-cases, String, [], ap, false, inl, inr, none, refl, some, ◌∙◌, ◌∷◌, ◌≡◌,
}
use secure_store.Prelude.Eq.{bytes_Eq, string_Eq}
use secure_store.Storage.Memory.{
  MemoryStorage, delete, delete_bucket, keep, new_bucket, new_memory_storage, read, write,
}

abbrev pub table : MemoryStorage → Table Bytes
table m = view m.i

abbrev pub shown {ℓ} : {A : Type ℓ} → Outcome A × MemoryStorage → Outcome A × Table Bytes
shown r = (r.0, table r.1)

-- What a reader gives, as the outcome of reading all of it.
abbrev pub contents : Outcome Reader → Outcome Bytes
contents (ok r) = read_all r
contents (err e) = err e
contents panic = panic

pub new_bucket-Agrees :
    (bucket : String) (m : MemoryStorage)
    → Agrees (shown (new_bucket bucket m)) (ObjectTable.new_bucket bucket (table m))
unfolding new_bucket
new_bucket-Agrees bucket m = elim (Option-cases (get bucket m.i)) [
  | inl e ↦ rw (has-none bucket m.i e) (refl, SameTable-new_bucket bucket m.i e)
  | inr (inner, e) ↦ rw (has-some bucket m.i e) (refl, SameTable-refl _)
]

keep-Agrees :
    (bucket key : String) (inner : GoMap String Bytes) (o : Outcome Bytes) (m : MemoryStorage)
    → get bucket m.i ≡ some inner
    → Agrees (shown (keep bucket key inner o m)) (ObjectTable.stored bucket key o (table m))
unfolding keep ObjectTable.stored
keep-Agrees bucket key inner (ok d) m e = (refl, SameTable-store bucket m.i key d inner e)
keep-Agrees bucket key inner (err x) m e = (refl, SameTable-refl _)
keep-Agrees bucket key inner panic m e = (refl, SameTable-refl _)

pub write-Agrees :
    (bucket key : String) (data_reader : Reader) (m : MemoryStorage)
    → Agrees
        (shown (write bucket key data_reader m))
        (ObjectTable.insert bucket key (read_all data_reader) (table m))
unfolding write has
write-Agrees bucket key data_reader m = elim (Option-cases (get bucket m.i)) [
  | inl e ↦ rw (e, write) (refl, SameTable-refl _)
  | inr (inner, e) ↦ rw (lookup-some bucket m.i key e) (
      rw (e, write)
        (elim (Option-cases (get key inner)) [
          | inl n ↦ rw n (keep-Agrees bucket key inner (read_all data_reader) m e)
          | inr (v, h) ↦ rw h (refl, SameTable-refl _)
        ]))
]

pub read-Agrees :
    (bucket key : String) (m : MemoryStorage)
    → (contents (read bucket key m).0 ≡ ObjectTable.find bucket key (table m))
      × ((read bucket key m).1 ≡ m)
unfolding read has
read-Agrees bucket key m = elim (Option-cases (get bucket m.i)) [
  | inl e ↦ rw (e, read) (refl, refl)
  | inr (inner, e) ↦ rw (lookup-some bucket m.i key e) (
      rw (e, read)
        (elim (Option-cases (get key inner)) [
          | inl n ↦ rw n (refl, refl)
          | inr (v, h) ↦ rw h (read_all-new_reader v, refl)
        ]))
]

pub delete-Agrees :
    (bucket key : String) (m : MemoryStorage)
    → Agrees (shown (delete bucket key m)) (ObjectTable.delete bucket key (table m))
unfolding delete has
delete-Agrees bucket key m = elim (Option-cases (get bucket m.i)) [
  | inl e ↦ rw (e, delete) (refl, SameTable-refl _)
  | inr (inner, e) ↦ rw (lookup-some bucket m.i key e) (
      rw (e, delete)
        (elim (Option-cases (get key inner)) [
          | inl n ↦ rw n (refl, SameTable-refl _)
          | inr (v, h) ↦ rw h (refl, unfold has in SameTable-delete bucket m.i key inner e)
        ]))
]

pub delete_bucket-Agrees :
    (bucket : String) (m : MemoryStorage)
    → Agrees (shown (delete_bucket bucket m)) (ObjectTable.delete_bucket bucket (table m))
unfolding delete_bucket
delete_bucket-Agrees bucket m = elim (Bool-cases (has bucket m.i)) [
  | inl h ↦ rw h (refl, SameTable-delete_bucket bucket m.i)
  | inr n ↦ rw n (refl, SameTable-refl _)
]

-- A call of a method, and what a client sees of the answer.
pub data Call : Type 0 where
  new_buckets delete_buckets : String → Call
  writes : String → String → Reader → Call
  reads deletes : String → String → Call

pub data Answer : Type 0 where
  done : Outcome (Unit {0}) → Answer
  given : Outcome Bytes → Answer

abbrev pub answer {ℓ} : {S : Type ℓ} → Outcome (Unit {0}) × S → Answer × S
answer r = (done r.0, r.1)

unfoldable pub step : Call → MemoryStorage → Answer × MemoryStorage
step (new_buckets b) m = answer (new_bucket b m)
step (delete_buckets b) m = answer (delete_bucket b m)
step (writes b k r) m = answer (write b k r m)
step (reads b k) m = let r = read b k m in (given (contents r.0), r.1)
step (deletes b k) m = answer (delete b k m)

-- The same call of the specification.
unfoldable pub spec_step : Call → Table Bytes → Answer × Table Bytes
spec_step (new_buckets b) t = answer (ObjectTable.new_bucket b t)
spec_step (delete_buckets b) t = answer (ObjectTable.delete_bucket b t)
spec_step (writes b k r) t = answer (ObjectTable.insert b k (read_all r) t)
spec_step (reads b k) t = (given (ObjectTable.find b k t), t)
spec_step (deletes b k) t = answer (ObjectTable.delete b k t)

abbrev Matches : Answer × MemoryStorage → Answer × Table Bytes → Type 0
Matches r q = (r.0 ≡ q.0) × SameTable (table r.1) q.1

module _ (m : MemoryStorage) (t : Table Bytes) (h : SameTable (table m) t) where
  via :
      (r : Outcome (Unit {0}) × MemoryStorage) (q w : Outcome (Unit {0}) × Table Bytes)
      → Agrees (shown r) q
      → Agrees q w
      → Matches (answer r) (answer w)
  via r q w a b = (ap done (a.0 ∙ b.0), SameTable-trans (table r.1) q.1 w.1 a.1 b.1)

  step-Matches : (c : Call) → Matches (step c m) (spec_step c t)
  unfolding step spec_step
  step-Matches (new_buckets b) =
      via _ _ _ (new_bucket-Agrees b m) (new_bucket-SameTable (table m) t h b)
  step-Matches (delete_buckets b) =
      via _ _ _ (delete_bucket-Agrees b m) (delete_bucket-SameTable (table m) t h b)
  step-Matches (writes b k r) =
      via _ _ _ (write-Agrees b k r m) (insert-SameTable (table m) t h b k (read_all r))
  step-Matches (reads b k) = (
    ap given ((read-Agrees b k m).0 ∙ find-SameTable (table m) t h b k),
    rw ((read-Agrees b k m).1) h,
  )
  step-Matches (deletes b k) = via _ _ _ (delete-Agrees b k m) (delete-SameTable (table m) t h b k)

unfoldable pub run : List Call → MemoryStorage → List Answer
run [] m = []
run (c ∷ cs) m = let r = step c m in r.0 ∷ run cs r.1

unfoldable pub spec_run : List Call → Table Bytes → List Answer
spec_run [] t = []
spec_run (c ∷ cs) t = let r = spec_step c t in r.0 ∷ spec_run cs r.1

run-eq-spec_run_from :
    (cs : List Call) (m : MemoryStorage) (t : Table Bytes)
    → SameTable (table m) t
    → run cs m ≡ spec_run cs t
unfolding run spec_run
run-eq-spec_run_from [] m t h = refl
run-eq-spec_run_from (c ∷ cs) m t h =
    let a = step-Matches m t h c in
    cc (a.0, run-eq-spec_run_from cs (step c m).1 (spec_step c t).1 a.1)

-- The table with no bucket.
abbrev pub empty_table : Table Bytes
empty_table = record { bucket = λ b. false; object = λ b k. none }

-- From a new `MemoryStorage`, every history of NewBucket, Write, Read, Delete and DeleteBucket
-- calls gets the answers, errors and read bytes included, that the table of objects prescribes
-- from the empty table.
pub run-eq-spec_run : (cs : List Call) → run cs new_memory_storage ≡ spec_run cs empty_table
unfolding new_memory_storage has lookup get
run-eq-spec_run cs =
    run-eq-spec_run_from cs _ _ (record { buckets = λ b. refl; objects = λ b k. refl })
