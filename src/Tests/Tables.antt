-- ===== src/Tests/Tables.antt =====
-- The metadata store over SQL, on a table of rows.
use secure_store.Metadata.Sql
use secure_store.Effects.{Outcome, err, external, ok, record_not_found}
use secure_store.Metadata.{Metadata}
use secure_store.Metadata.Sql.{
  Gorm, SqlMetadata, SqlStore, metadata_from_sql_metadata, new_sql_store,
}
use secure_store.Metadata.Sql.Buckets.{
  Call, created, creates, deletes_bucket, list_buckets-run, run, writes,
}
use secure_store.Metadata.Sql.Rows.{GormContract, read-write_row, read-write_stale}
use secure_store.Prelude.{
  Bool, List, Option, String, [], arith, false, if◌then◌else◌, none, refl, some, true, ◌&&◌, ◌++◌,
  ◌∷◌, ◌≡◌,
}
use secure_store.Prelude.Eq.{bytes_Eq, string_Eq, ◌==◌}
use secure_store.Prelude.Int.{pos}
use secure_store.Tests.Samples.{a_metadata}
use text.Mathlib.TextPositions.{eq_refl}

-- A table of metadata; in a broken one every deletion fails.
record RowTable : Type 0 where
  rows : List SqlMetadata
  broken : Bool

abbrev here : String → String → SqlMetadata → Bool
here b k row = (row.bucket_id == b) && (row.key_id == k)

abbrev first_row : String → String → List SqlMetadata → Outcome SqlMetadata
first_row b k [] = err record_not_found
first_row b k (row ∷ rows) = let rest = first_row b k rows in if here b k row then ok row else rest

abbrev chosen : String → Option String → SqlMetadata → Bool
chosen b none row = row.bucket_id == b
chosen b (some k) row = here b k row

abbrev without_rows : String → Option String → List SqlMetadata → List SqlMetadata
without_rows b k [] = []
without_rows b k (row ∷ rows) =
    let rest = without_rows b k rows in if chosen b k row then rest else row ∷ rest

abbrev table : Gorm RowTable
table = record {
  first = λ b k d. (first_row b k d.rows, d);
  delete = λ b k d.
      if d.broken
      then (err (external 3), d)
      else (ok tt, record d { rows = without_rows b k d.rows });
  create = λ row d. (ok tt, record d { rows = d.rows ++ (row ∷ []) });
}

first_row-created :
    (row : SqlMetadata) (rows : List SqlMetadata)
    → first_row row.bucket_id row.key_id rows ≡ err record_not_found
    → first_row row.bucket_id row.key_id (rows ++ (row ∷ [])) ≡ ok row
first_row-created row [] h = ground (arith, eq_refl row.bucket_id, eq_refl row.key_id)
first_row-created row (r ∷ rows) h = ground (arith, first_row-created row rows)

first_row-stays :
    (row old : SqlMetadata) (rows : List SqlMetadata)
    → first_row row.bucket_id row.key_id rows ≡ ok old
    → first_row row.bucket_id row.key_id (rows ++ (row ∷ [])) ≡ ok old
first_row-stays row old [] h = cc
first_row-stays row old (r ∷ rows) h = ground (arith, first_row-stays row old rows)

first_row-deleted :
    (b k : String) (rows : List SqlMetadata)
    → first_row b k (without_rows b (some k) rows) ≡ err record_not_found
first_row-deleted b k [] = refl
first_row-deleted b k (r ∷ rows) = ground (arith, first_row-deleted b k rows)

first_row-bucket_deleted :
    (b k : String) (rows : List SqlMetadata)
    → first_row b k (without_rows b none rows) ≡ err record_not_found
first_row-bucket_deleted b k [] = refl
first_row-bucket_deleted b k (r ∷ rows) = ground (arith, first_row-bucket_deleted b k rows)

table-GormContract : GormContract table
table-GormContract = record {
  first_reads = λ b k d. refl;
  first_created = λ row d d' f c.
      let same : d' ≡ record d { rows = d.rows ++ (row ∷ []) } = ground arith in
      rw same (first_row-created row d.rows f);
  first_stays = λ row old d d' f c.
      let same : d' ≡ record d { rows = d.rows ++ (row ∷ []) } = ground arith in
      rw same (first_row-stays row old d.rows f);
  deleted = λ b k d o. ground (arith, first_row-deleted b k d.rows);
  bucket_deleted = λ b k d o. ground (arith, first_row-bucket_deleted b k d.rows);
  not_deleted = λ b k d e o. ground arith;
}

abbrev old_metadata : Metadata
old_metadata = record { length = pos 9; filename = "old.txt" }

abbrev empty_table : SqlStore RowTable
empty_table = new_sql_store (record { rows = []; broken = false })

abbrev one_row : SqlStore RowTable
one_row = (Sql.write table "ab" "cd" old_metadata empty_table).1

abbrev broken_table : SqlStore RowTable
broken_table = record {
  db = record {
    rows = record { length = pos 9; filename = "old.txt"; bucket_id = "ab"; key_id = "cd" } ∷ [];
    broken = true;
  };
  buckets = [];
}

abbrev rewritten : SqlStore RowTable → SqlStore RowTable
rewritten s = (Sql.write table "ab" "cd" a_metadata s).1

read-write_row_example :
    Sql.read table "ab" "cd" (rewritten one_row) ≡ (ok a_metadata, rewritten one_row)
unfolding Sql.write new_sql_store
read-write_row_example =
    read-write_row table table-GormContract "ab" "cd" a_metadata one_row (rewritten one_row) refl
      refl

read-write_stale_example :
    Sql.read table "ab" "cd" (rewritten broken_table) ≡ (ok old_metadata, rewritten broken_table)
unfolding Sql.write metadata_from_sql_metadata
read-write_stale_example =
    read-write_stale table table-GormContract "ab" "cd" a_metadata
      (record { length = pos 9; filename = "old.txt"; bucket_id = "ab"; key_id = "cd" })
      (external 3) broken_table (rewritten broken_table) refl refl refl

abbrev bucket_calls : List Call
bucket_calls = creates "ab" ∷ writes "ab" "cd" a_metadata ∷ creates "ab" ∷ deletes_bucket "ab" ∷ []

list_buckets-run_example :
    (Sql.list_buckets
      (run table bucket_calls (new_sql_store (record { rows = []; broken = false })))).0
    ≡ ok (created bucket_calls)
list_buckets-run_example =
    list_buckets-run table bucket_calls (record { rows = []; broken = false })
