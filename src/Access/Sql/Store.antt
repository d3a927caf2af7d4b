-- ===== src/Access/Sql/Store.antt =====
-- `SQLStore` of access/sql.go: its methods, and what its goroutines do. gorm is a parameter. The
-- state has the goroutines: a watcher for each `Access`, a timer for each key that expires, the
-- watcher that holds the mutex while it waits to hand a key to the killer, and the key that the
-- killer got and has not deleted.
use secure_store.Access.{AKey, Heap}
use secure_store.Access.Sql.{DbaKey, akey_from_dba_key, dba_key_from_akey}
use secure_store.Effects.{
  Exec, Outcome, err, key_already_exists, key_doesnt_exist, ok, panic, ◌>>=◌, ◌>>◌,
}
use secure_store.Prelude.{
  Bool, List, Option, String, [], false, if◌then◌else◌, leb, none, some, ℕ, ◌%◌, ◌&&◌, ◌++◌, ◌+◌,
  ◌^◌, ◌∷◌,
}

-- `First` by url key and by id, `Create`, `Update` of the uses, and `Delete` by url key.
pub record KeyDb (D : Type 0) : Type 0 where
  pub first : String → Exec D (ℕ × DbaKey)
  pub first_id : ℕ → Exec D DbaKey
  pub create : DbaKey → Exec D (Unit {0})
  pub update_used_times : String → ℕ → Exec D (Unit {0})
  pub delete : String → Exec D (Unit {0})

pub record Watcher : Type 0 where
  pub id : ℕ
  pub url_key : String

pub record SqlStore (D : Type 0) : Type 0 where
  pub db : D
  pub heap : Heap
  pub watchers : List Watcher
  pub timers : List AKey
  pub holder : Option AKey
  pub killing : Option AKey

unfoldable pub new_sql_store : {D : Type 0} → D → Heap → SqlStore D
new_sql_store db heap = record {
  db = db;
  heap = heap;
  watchers = [];
  timers = [];
  holder = none;
  killing = none;
}

-- `DBAKey{}`
abbrev zero_key : DbaKey
zero_key = record {
  expires = false;
  ttl = none;
  limited = false;
  limit = 0;
  used_times = 0;
  bucket_id = "";
  key_id = "";
  url_key = "";
  needs_key = false;
  valid_keys = [];
  resolve_by_url_key = false;
}

abbrev row_or_zero : Outcome DbaKey → DbaKey
row_or_zero (ok row) = row
row_or_zero (err e) = zero_key
row_or_zero panic = zero_key

module _ {D : Type 0} (g : KeyDb D) where
  abbrev on_db : {A : Type 0} → Exec D A → Exec (SqlStore D) A
  on_db m s = ((m s.db).0, record s { db = (m s.db).1 })

  abbrev on_heap : {A : Type 0} → Exec Heap A → Exec (SqlStore D) A
  on_heap m s = ((m s.heap).0, record s { heap = (m s.heap).1 })

  abbrev start_timer : AKey → Exec (SqlStore D) (Unit {0})
  start_timer key s =
      (ok tt, record s { timers = if key.expires then key ∷ s.timers else s.timers })

  abbrev made_row : AKey → Exec (SqlStore D) DbaKey
  made_row key s = (dba_key_from_akey key s.heap, s)

  -- An error of `First` that is not a missing row goes on as well.
  unfoldable pub add_key : AKey → Exec (SqlStore D) (Unit {0})
  add_key key s =
      let found = on_db (g.first key.url_key) s in
      let stores : Exec (SqlStore D) (Unit {0}) = do
        row ← made_row key
        on_db (g.create row)
        start_timer key
      in elim found.0 [
        | ok row ↦ (err (key_already_exists key.url_key), found.1)
        | err e ↦ stores found.1
        | panic ↦ (panic, found.1)
      ]

  abbrev watch : Watcher → SqlStore D → SqlStore D
  watch w s = record s { watchers = w ∷ s.watchers }

  -- The watcher is started before the row is made a key.
  unfoldable pub access : String → Exec (SqlStore D) AKey
  access url_key s =
      let found = on_db (g.first url_key) s in
      elim found.0 [
        | err e ↦ (err (key_doesnt_exist url_key), found.1)
        | panic ↦ (panic, found.1)
        | ok row ↦
            on_heap (akey_from_dba_key row.1)
              (watch (record { id = row.0; url_key = url_key }) found.1)
      ]

  -- The result of the update is not looked at.
  abbrev counted : Watcher → Bool → DbaKey → SqlStore D → SqlStore D
  counted w resp row s =
      if resp
      then (on_db (g.update_used_times w.url_key ((row.used_times + 1) % 2 ^ 64)) s).1
      else s

  unfoldable pub hold : Outcome AKey × SqlStore D → Outcome (Unit {0}) × SqlStore D
  hold (ok key, s) = (ok tt, record s { holder = some key })
  hold (err e, s) = (err e, s)
  hold (panic, s) = (panic, s)

  -- What a watcher does with an answer, once it has the mutex, up to the send to the killer.
  unfoldable pub answered : Watcher → Bool → Exec (SqlStore D) (Unit {0})
  unfolding hold
  answered w resp s =
      let read = on_db (g.first_id w.id) s in
      let row = row_or_zero read.0 in
      let s' = counted w resp row read.1 in
      if leb row.limit row.used_times && row.limited
      then hold (on_heap (akey_from_dba_key row) s')
      else (ok tt, s')

  unfoldable pub delete_key : AKey → Exec (SqlStore D) (Unit {0})
  delete_key key = on_db (g.delete key.url_key)

-- The channel to the killer: it takes a key from the watcher with the mutex, or from a timer.
unfoldable pub hand_over : {D : Type 0} → AKey → SqlStore D → SqlStore D
hand_over key s = record s { holder = none; killing = some key }

unfoldable pub time_out : {D : Type 0} → List AKey → AKey → List AKey → SqlStore D → SqlStore D
time_out before key behind s = record s { timers = before ++ behind; killing = some key }
