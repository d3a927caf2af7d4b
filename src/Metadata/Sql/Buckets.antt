-- ===== src/Metadata/Sql/Buckets.antt =====
-- The list of buckets of metadata/sql.go, over any history of calls.
use secure_store.Metadata.Sql
use mathlib.Core.List.{append-nil, append_assoc}
use secure_store.Effects.{ok}
use secure_store.Metadata.{Metadata}
use secure_store.Metadata.Sql.{Gorm, SqlStore, new_sql_store}
use secure_store.Prelude.{List, String, [], ap, arith, sym, ◌++◌, ◌∙◌, ◌∷◌, ◌≡◌}

pub data Call : Type 0 where
  creates deletes_bucket : String → Call
  writes : String → String → Metadata → Call
  reads deletes : String → String → Call

module _ {D : Type 0} (g : Gorm D) where
  unfoldable pub step : Call → SqlStore D → SqlStore D
  step (creates b) s = (Sql.new_bucket b s).1
  step (deletes_bucket b) s = (Sql.delete_bucket g b s).1
  step (writes b k meta) s = (Sql.write g b k meta s).1
  step (reads b k) s = (Sql.read g b k s).1
  step (deletes b k) s = (Sql.delete g b k s).1

  unfoldable pub run : List Call → SqlStore D → SqlStore D
  run [] s = s
  run (call ∷ calls) s = run calls (step call s)

abbrev pub created : List Call → List String
created [] = []
created (creates b ∷ calls) = b ∷ created calls
created (_ ∷ calls) = created calls

module _ {D : Type 0} (g : Gorm D) where
  write-buckets :
      (b k : String) (meta : Metadata) (s : SqlStore D)
      → (Sql.write g b k meta s).1.buckets ≡ s.buckets
  unfolding Sql.write
  write-buckets b k meta s = ground arith

  read-buckets : (b k : String) (s : SqlStore D) → (Sql.read g b k s).1.buckets ≡ s.buckets
  unfolding Sql.read
  read-buckets b k s = ground arith

  run-buckets :
      (calls : List Call) (s : SqlStore D) → (run g calls s).buckets ≡ s.buckets ++ created calls
  unfolding run step Sql.new_bucket Sql.delete_bucket Sql.delete
  run-buckets [] s = sym (append-nil s.buckets)
  run-buckets (creates b ∷ calls) s =
      run-buckets calls (step g (creates b) s) ∙ append_assoc s.buckets (b ∷ []) (created calls)
  run-buckets (deletes_bucket b ∷ calls) s = run-buckets calls (step g (deletes_bucket b) s)
  run-buckets (writes b k meta ∷ calls) s =
      run-buckets calls (step g (writes b k meta) s)
      ∙ ap (λ bs. bs ++ created calls) (write-buckets b k meta s)
  run-buckets (reads b k ∷ calls) s =
      run-buckets calls (step g (reads b k) s) ∙ ap (λ bs. bs ++ created calls) (read-buckets b k s)
  run-buckets (deletes b k ∷ calls) s = run-buckets calls (step g (deletes b k) s)

  -- After any history of calls on a new store, deletions of buckets included, `list_buckets`
  -- names every bucket that was ever created, in order, and as often as it was created.
  pub list_buckets-run :
      (calls : List Call) (db : D)
      → (Sql.list_buckets (run g calls (new_sql_store db))).0 ≡ ok (created calls)
  unfolding Sql.list_buckets new_sql_store
  list_buckets-run calls db = ap ok (run-buckets calls (new_sql_store db))
