-- ===== src/Metadata/Sql/Rows.antt =====
-- What metadata/sql.go keeps, over a database that keeps its rows.
use secure_store.Metadata.Sql
use secure_store.Effects.{Error, err, ok, record_not_found}
use secure_store.Metadata.{Metadata}
use secure_store.Metadata.Sql.{
  Gorm, SqlMetadata, SqlStore, metadata_from_sql_metadata, sql_metadata_from_metadata,
}
use secure_store.Prelude.{String, arith, inl, inr, none, some, subst, ◌≡◌, ◌⊎◌}

-- Documented behaviour of gorm on a table of rows: `First` reads and takes the row that was created
-- first, `Delete` deletes what its conditions choose.
pub record GormContract {D : Type 0} (g : Gorm D) : Type 0 where
  pub first_reads : (b k : String) (d : D) → (g.first b k d).1 ≡ d
  pub first_created :
      (row : SqlMetadata) (d d' : D)
      → (g.first row.bucket_id row.key_id d).0 ≡ err record_not_found
      → g.create row d ≡ (ok tt, d')
      → (g.first row.bucket_id row.key_id d').0 ≡ ok row
  pub first_stays :
      (row old : SqlMetadata) (d d' : D)
      → (g.first row.bucket_id row.key_id d).0 ≡ ok old
      → g.create row d ≡ (ok tt, d')
      → (g.first row.bucket_id row.key_id d').0 ≡ ok old
  pub deleted :
      (b k : String) (d : D)
      → (g.delete b (some k) d).0 ≡ ok tt
      → (g.first b k (g.delete b (some k) d).1).0 ≡ err record_not_found
  pub bucket_deleted :
      (b k : String) (d : D)
      → (g.delete b none d).0 ≡ ok tt
      → (g.first b k (g.delete b none d).1).0 ≡ err record_not_found
  -- A deletion that fails changes nothing.
  pub not_deleted :
      (b k : String) (d : D) (e : Error)
      → (g.delete b (some k) d).0 ≡ err e
      → (g.delete b (some k) d).1 ≡ d

module _ {D : Type 0} (g : Gorm D) (c : GormContract g) where
  read_row :
      (b k : String) (row : SqlMetadata) (s : SqlStore D)
      → (g.first b k s.db).0 ≡ ok row
      → Sql.read g b k s ≡ (ok (metadata_from_sql_metadata row), s)
  unfolding Sql.read
  read_row b k row s f = ground (arith, c.first_reads b k s.db)

  -- Over a database that keeps its rows: if the deletion with which `write` begins succeeds, then
  -- what a successful `write` wrote is what `read` gives, whether there was a row before or not.
  pub read-write_row :
      (b k : String) (meta : Metadata) (s s' : SqlStore D)
      → (g.delete b (some k) s.db).0 ≡ ok tt
      → Sql.write g b k meta s ≡ (ok tt, s')
      → Sql.read g b k s' ≡ (ok meta, s')
  unfolding Sql.write metadata_from_sql_metadata sql_metadata_from_metadata
  read-write_row b k meta s s' d w =
      let row = sql_metadata_from_metadata b k meta in
      let d' = (g.delete b (some k) s.db).1 in
      let made : g.create row d' ≡ (ok tt, s'.db) = ground arith in
      read_row b k row s' (c.first_created row d' s'.db (c.deleted b k s.db d) made)

  -- Over a database that keeps its rows: if the deletion with which `write` begins fails and
  -- there was a row, and `write` succeeds all the same, then `read` goes on to give the metadata
  -- of the old row.
  pub read-write_stale :
      (b k : String) (meta : Metadata) (old : SqlMetadata) (e : Error) (s s' : SqlStore D)
      → (g.delete b (some k) s.db).0 ≡ err e
      → (g.first b k s.db).0 ≡ ok old
      → Sql.write g b k meta s ≡ (ok tt, s')
      → Sql.read g b k s' ≡ (ok (metadata_from_sql_metadata old), s')
  unfolding Sql.write sql_metadata_from_metadata
  read-write_stale b k meta old e s s' d f w =
      let row = sql_metadata_from_metadata b k meta in
      let same = c.not_deleted b k s.db e d in
      let made : g.create row s.db ≡ (ok tt, s'.db) = ground arith in
      read_row b k old s' (c.first_stays row old s.db s'.db f made)

  read_missing :
      (b k : String) (s : SqlStore D)
      → (g.first b k s.db).0 ≡ err record_not_found
      → Sql.read g b k s ≡ (err record_not_found, s)
  unfolding Sql.read
  read_missing b k s f = ground (arith, c.first_reads b k s.db)

  -- After a successful `delete` of an object, and after a successful deletion of the rows of its
  -- bucket, `read` finds nothing.
  pub read-delete_row :
      (b k : String) (s s' : SqlStore D)
      → (Sql.delete g b k s ≡ (ok tt, s'))
        ⊎ ((g.delete b none s.db).0 ≡ ok tt) × (Sql.delete_bucket g b s ≡ (ok tt, s'))
      → Sql.read g b k s' ≡ (err record_not_found, s')
  unfolding Sql.delete Sql.delete_bucket
  read-delete_row b k s s' (inl d) =
      let same : (g.delete b (some k) s.db).1 ≡ s'.db = ground arith in
      read_missing b k s' (
        subst (λ d. (g.first b k d).0 ≡ err record_not_found) same
          (c.deleted b k s.db (ground arith)))
  read-delete_row b k s s' (inr (o, d)) =
      let same : (g.delete b none s.db).1 ≡ s'.db = ground arith in
      read_missing b k s'
        (subst (λ d. (g.first b k d).0 ≡ err record_not_found) same (c.bucket_deleted b k s.db o))
