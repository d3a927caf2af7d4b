-- ===== src/Metadata/Sql.antt =====
-- metadata/sql.go. gorm is a parameter: the calls on the database that the store makes. `NewSQLStore`
-- is such calls only. Each method holds the mutex from its first line to its return.
pub mod Rows
pub mod Buckets
use secure_store.Effects.{Exec, Outcome, err, ok, panic, pure, record_not_found, ◌>>=◌, ◌>>◌}
use secure_store.Metadata.{Metadata, MetadataStore}
use secure_store.Prelude.{List, Option, String, [], none, some, ◌++◌, ◌∷◌}
use secure_store.Prelude.Int.{ℤ}

pub record SqlMetadata : Type 0 where
  pub length : ℤ
  pub filename : String
  pub bucket_id : String
  pub key_id : String

-- `db.Where("bucket_id = ?", b).Where("key_id = ?", k)`, and then `First` or `Delete`; `Delete`
-- also without the second condition; and `db.Create`.
pub record Gorm (D : Type 0) : Type 0 where
  pub first : String → String → Exec D SqlMetadata
  pub delete : String → Option String → Exec D (Unit {0})
  pub create : SqlMetadata → Exec D (Unit {0})

pub record SqlStore (D : Type 0) : Type 0 where
  pub db : D
  pub buckets : List String

unfoldable pub metadata_from_sql_metadata : SqlMetadata → Metadata
metadata_from_sql_metadata sql_meta = record {
  length = sql_meta.length;
  filename = sql_meta.filename;
}

unfoldable pub sql_metadata_from_metadata : String → String → Metadata → SqlMetadata
sql_metadata_from_metadata bucket_id key_id meta = record {
  length = meta.length;
  filename = meta.filename;
  bucket_id = bucket_id;
  key_id = key_id;
}

module _ {D : Type 0} where
  abbrev on_db : {A : Type 0} → Exec D A → Exec (SqlStore D) A
  on_db m s = ((m s.db).0, record s { db = (m s.db).1 })

  unfoldable pub new_sql_store : D → SqlStore D
  new_sql_store db = record { db = db; buckets = [] }

  unfoldable pub new_bucket : String → Exec (SqlStore D) (Unit {0})
  new_bucket bucket s = (ok tt, record s { buckets = s.buckets ++ (bucket ∷ []) })

  unfoldable pub list_buckets : Exec (SqlStore D) (List String)
  list_buckets s = (ok s.buckets, s)

module _ {D : Type 0} (g : Gorm D) where
  -- The result of the deletion is not looked at.
  abbrev after_any :
      {A : Type 0}
      → Outcome A × SqlStore D
      → Exec (SqlStore D) (Unit {0})
      → Outcome (Unit {0}) × SqlStore D
  after_any (ok a, s) rest = rest s
  after_any (err e, s) rest = rest s
  after_any (panic, s) rest = (panic, s)

  unfoldable pub write : String → String → Metadata → Exec (SqlStore D) (Unit {0})
  write bucket_id key_id metadata s =
      after_any (on_db (g.delete bucket_id (some key_id)) s)
        (on_db (g.create (sql_metadata_from_metadata bucket_id key_id metadata)))

  unfoldable pub read : String → String → Exec (SqlStore D) Metadata
  read bucket_id key_id = do
    sql_meta ← on_db (g.first bucket_id key_id)
    pure (metadata_from_sql_metadata sql_meta)

  unfoldable pub delete : String → String → Exec (SqlStore D) (Unit {0})
  delete bucket key = on_db (g.delete bucket (some key))

  -- `errors.Is(result.Error, gorm.ErrRecordNotFound)`
  abbrev unless_not_found : Outcome (Unit {0}) → Outcome (Unit {0})
  unless_not_found (err record_not_found) = ok tt
  unless_not_found o = o

  unfoldable pub delete_bucket : String → Exec (SqlStore D) (Unit {0})
  delete_bucket bucket s = let r = on_db (g.delete bucket none) s in (unless_not_found r.0, r.1)

  abbrev pub sql_store : MetadataStore (SqlStore D)
  sql_store = record {
    new_bucket = new_bucket;
    write = write;
    read = read;
    delete = delete;
    delete_bucket = delete_bucket;
    list_buckets = list_buckets;
  }
