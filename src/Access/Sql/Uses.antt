-- ===== src/Access/Sql/Uses.antt =====
-- How often a limited key of access/sql.go can be used.
use secure_store.Access.Sql.Store as SqlStores
use secure_store.Access.{AKey}
use secure_store.Access.Sql.{DbaKey, akey_from_dba_key}
use secure_store.Access.Sql.Steps.{made_key}
use secure_store.Access.Sql.Store.{KeyDb, SqlStore, Watcher}
use secure_store.Effects.{ok, returns_ok}
use secure_store.Prelude.{
  String, [], ap, arith, false, leb, none, refl, suc, true, zero, ℕ, ◌%◌, ◌+◌, ◌<◌, ◌^◌, ◌∙◌, ◌≡◌,
  ◌≤◌,
}

-- A database that does not fail: `First` reads, both queries find the same row, and an update of
-- the uses is seen by the next query.
pub record WorkingDb {D : Type 0} (g : KeyDb D) : Type 0 where
  pub first_reads : (u : String) (d : D) → (g.first u d).1 ≡ d
  pub first_id_reads : (id : ℕ) (d : D) → (g.first_id id d).1 ≡ d
  pub same_row :
      (u : String) (id : ℕ) (row : DbaKey) (d : D)
      → (g.first u d).0 ≡ ok (id, row)
      → (g.first_id id d).0 ≡ ok row
  pub updated :
      (u : String) (n id : ℕ) (row : DbaKey) (d : D)
      → (g.first u d).0 ≡ ok (id, row)
      → (g.first u (g.update_used_times u n d).1).0 ≡ ok (id, record row { used_times = n })

module _ {D : Type 0} (g : KeyDb D) where
  -- One use: an `Access`, and its watcher gets the answer that the object was delivered.
  unfoldable pub use_once : String → Watcher → SqlStore D → SqlStore D
  use_once url_key w s =
      let s' = (SqlStores.access g url_key s).1 in
      (SqlStores.answered g w true (record s' { watchers = s.watchers })).1

  unfoldable pub use_times : ℕ → String → Watcher → SqlStore D → SqlStore D
  use_times zero url_key w s = s
  use_times (suc n) url_key w s = use_once url_key w (use_times n url_key w s)

  -- The row under a url key, with a number of uses.
  abbrev HasUses : String → ℕ → DbaKey → ℕ → SqlStore D → Type 0
  HasUses url_key id row n s =
      ((g.first url_key s.db).0 ≡ ok (id, record row { used_times = n })) × (s.holder ≡ none)

  module _ (c : WorkingDb g) (url_key : String) (id : ℕ) (row : DbaKey) where
    access-db :
        (n : ℕ) (s : SqlStore D)
        → HasUses url_key id row n s
        → ((SqlStores.access g url_key s).1.db ≡ s.db)
          × ((SqlStores.access g url_key s).1.holder ≡ s.holder)
    unfolding SqlStores.access
    access-db n s (f, h) =
        (ground (arith, c.first_reads url_key s.db), ground (arith, c.first_reads url_key s.db))

    abbrev watcher : Watcher
    watcher = record { id = id; url_key = url_key }

    counted_once :
        (n : ℕ) (s : SqlStore D)
        → (g.first_id id s.db).0 ≡ ok (record row { used_times = n })
        → leb row.limit n ≡ false
        → (n + 1) % 2 ^ 64 ≡ suc n
        → SqlStores.answered g watcher true s
          ≡ (ok tt, record s { db = (g.update_used_times url_key (suc n) s.db).1 })
    unfolding SqlStores.answered
    counted_once n s found less wrap =
        rw (c.first_id_reads id s.db) (rw found (rw wrap (rw less refl)))

    answered-HasUses :
        (n : ℕ) (s : SqlStore D)
        → n < row.limit
        → row.limit < 2 ^ 64
        → HasUses url_key id row n s
        → HasUses url_key id row (suc n) (SqlStores.answered g watcher true s).1
    answered-HasUses n s less small (f, h) =
        let found = c.same_row url_key id (record row { used_times = n }) s.db f in
        let wrap : (n + 1) % 2 ^ 64 ≡ suc n = omega arith in
        rw (counted_once n s found (ground arith) wrap)
          (c.updated url_key (suc n) id (record row { used_times = n }) s.db f, h)

    use_times-HasUses :
        (n : ℕ) (s : SqlStore D)
        → n ≤ row.limit
        → row.limit < 2 ^ 64
        → HasUses url_key id row 0 s
        → HasUses url_key id row n (use_times n url_key watcher s)
    unfolding use_times use_once
    use_times-HasUses zero s less small h = h
    use_times-HasUses (suc n) s less small h =
        let before = use_times n url_key watcher s in
        let had = use_times-HasUses n s (omega arith) small h in
        let (same_db, same_holder) = access-db n before had in
        answered-HasUses n _ (omega arith) small (rw same_db had.0, same_holder ∙ had.1)

    accessed :
        (row' : DbaKey) (key : AKey) (s : SqlStore D)
        → (g.first url_key s.db).0 ≡ ok (id, row')
        → (akey_from_dba_key row' s.heap).0 ≡ ok key
        → (SqlStores.access g url_key s).0 ≡ ok key
    unfolding SqlStores.access
    accessed row' key s f made = ground arith

    -- Over a database that does not fail, for a limited row without valid keys and with a limit
    -- below 2^64, which is stored under its url key and was not used, while nobody holds the
    -- mutex: after as many uses of the key as its limit allows, no key was handed to the killer,
    -- and the key can be accessed once more: the store reaches the limit and does not stop.
    pub access-use_times :
        (s : SqlStore D)
        → row.limit < 2 ^ 64
        → row.valid_keys ≡ []
        → HasUses url_key id row 0 s
        → ((use_times row.limit url_key watcher s).holder ≡ none)
          × (returns_ok (SqlStores.access g url_key (use_times row.limit url_key watcher s)).0
              ≡ true)
    access-use_times s small no_keys h =
        let last = use_times row.limit url_key watcher s in
        let (f, free) = use_times-HasUses row.limit s (omega arith) small h in
        let used : DbaKey = record row { used_times = row.limit } in
        let (key, made) = made_key used last.heap no_keys in
        (free, ap returns_ok (accessed used key last f made))
