-- ===== src/Tests/KeyTable.antt =====
-- The access store over SQL, on a table with one row.
use secure_store.Access.Sql.Store as KeyStores
use secure_store.Access.Sql.{DbaKey}
use secure_store.Access.Sql.Steps.{Stuck, answered-Stuck, stay}
use secure_store.Access.Sql.Store.{Watcher}
use secure_store.Access.Sql.Uses.{WorkingDb, access-use_times, use_times}
use secure_store.Effects.{err, ok, record_not_found, returns_ok}
use secure_store.Prelude.{
  Bool-cases, String, [], ap, arith, false, if◌then◌else◌, inl, inr, nat_eq, none, refl, some, sym,
  true, ℕ, ◌≡◌,
}
use secure_store.Prelude.Eq.{bytes_Eq, string_Eq, ◌==◌}
use secure_store.Tests.Samples.{ordered_key}

-- A table with one access key, under the url key "link".
abbrev link_table : KeyStores.KeyDb DbaKey
link_table = record {
  first = λ u row. (if u == "link" then ok (1, row) else err record_not_found, row);
  first_id = λ id row. (if nat_eq id 1 then ok row else err record_not_found, row);
  create = λ row d. (ok tt, d);
  update_used_times =
      λ u n row. (ok tt, if u == "link" then record row { used_times = n } else row);
  delete = λ u row. (ok tt, row);
}

link-one :
    (u : String) (id : ℕ) (row r : DbaKey)
    → (link_table.first u row).0 ≡ ok (id, r)
    → (1 ≡ id) × (row ≡ r) × ((u == "link") ≡ true)
link-one u id row r h = elim (Bool-cases (u == "link")) [
  | inl e ↦ (ground arith, ground arith, e)
  | inr e ↦ cc
]

link_table-WorkingDb : WorkingDb link_table
link_table-WorkingDb = record {
  first_reads = λ u d. refl;
  first_id_reads = λ id d. refl;
  same_row = λ u id r d f.
      let (first_row, same, e) = link-one u id d r f in rw (sym first_row) (ap ok same);
  updated = λ u n id r d f.
      let (first_row, same, e) = link-one u id d r f in
      rw e (rw (sym first_row) (ap (λ x. ok (1, record x { used_times = n })) same));
}

-- A key that may be used twice, and one that may not be used at all.
abbrev link_row : ℕ → DbaKey
link_row limit = record {
  expires = false;
  ttl = none;
  limited = true;
  limit = limit;
  used_times = 0;
  bucket_id = "ab";
  key_id = "cd";
  url_key = "link";
  needs_key = false;
  valid_keys = [];
  resolve_by_url_key = false;
}

abbrev link_store : KeyStores.SqlStore DbaKey
link_store = KeyStores.new_sql_store (link_row 2) (record { next_pointer = 0; cells = λ p. 0 })

abbrev link_watcher : Watcher
link_watcher = record { id = 1; url_key = "link" }

access-use_times_example :
    ((use_times link_table 2 "link" link_watcher link_store).holder ≡ none)
    × (returns_ok
          (KeyStores.access link_table "link"
            (use_times link_table 2 "link" link_watcher link_store)).0
        ≡ true)
unfolding KeyStores.new_sql_store
access-use_times_example =
    access-use_times link_table link_table-WorkingDb "link" 1 (link_row 2) link_store (ground arith)
      refl (refl, refl)

-- The killer has got a key, and a watcher answers.
abbrev busy_store : KeyStores.SqlStore DbaKey
busy_store =
    record (KeyStores.new_sql_store (link_row 0) (record { next_pointer = 0; cells = λ p. 0 })) {
      killing = some ordered_key;
    }

abbrev stuck_store : KeyStores.SqlStore DbaKey
stuck_store = (KeyStores.answered link_table link_watcher false busy_store).1

answered-Stuck_example : Stuck link_table stuck_store × (stuck_store.db ≡ stuck_store.db)
unfolding KeyStores.new_sql_store
answered-Stuck_example =
    answered-Stuck link_table link_watcher false (link_row 0) ordered_key busy_store stuck_store
      refl refl refl refl refl (stay stuck_store)
