-- ===== src/Access/Sql/Steps.antt =====
-- The interleavings of the goroutines of access/sql.go. The methods and the watchers need the mutex;
-- the killer needs it to delete the key that it got, and takes no other key before.
use secure_store.Access.Sql.Store as SqlStores
use secure_store.Access.{AKey, Heap}
use secure_store.Access.Sql.{DbaKey, akey_from_dba_key}
use secure_store.Access.Sql.Store.{KeyDb, SqlStore, Watcher, hand_over, time_out}
use secure_store.Effects.{ok}
use secure_store.Prelude.{
  Bool, List, String, [], arith, false, leb, none, refl, some, true, ◌++◌, ◌∙◌, ◌∷◌, ◌≡◌,
}

pub made_key :
    (row : DbaKey) (h : Heap)
    → row.valid_keys ≡ []
    → (key : AKey) × ((akey_from_dba_key row h).0 ≡ ok key)
unfolding akey_from_dba_key
made_key row h v = (
  record {
    expires = row.expires;
    ttl = row.ttl;
    limited = row.limited;
    limit = row.limit;
    used_times = some h.next_pointer;
    bucket_id = row.bucket_id;
    key_id = row.key_id;
    url_key = row.url_key;
    needs_key = row.needs_key;
    valid_keys = some (record { set = none });
    resolve_by_url_key = row.resolve_by_url_key;
  },
  ground (arith, v),
)

module _ {D : Type 0} (g : KeyDb D) where
  pub data Step : SqlStore D → SqlStore D → Type 0 where
    adds : (key : AKey) (s : SqlStore D) → s.holder ≡ none → Step s (SqlStores.add_key g key s).1
    accesses :
        (url_key : String) (s : SqlStore D)
        → s.holder ≡ none
        → Step s (SqlStores.access g url_key s).1
    deletes :
        (key : AKey) (s : SqlStore D) → s.holder ≡ none → Step s (SqlStores.delete_key g key s).1
    answers :
        (before : List Watcher) (w : Watcher) (behind : List Watcher) (resp : Bool) (s : SqlStore D)
        → s.holder ≡ none
        → s.watchers ≡ before ++ (w ∷ behind)
        → Step s (SqlStores.answered g w resp (record s { watchers = before ++ behind })).1
    cancels :
        (before : List Watcher) (w : Watcher) (behind : List Watcher) (s : SqlStore D)
        → s.watchers ≡ before ++ (w ∷ behind)
        → Step s (record s { watchers = before ++ behind })
    hands_over :
        (key : AKey) (s : SqlStore D)
        → s.holder ≡ some key
        → s.killing ≡ none
        → Step s (hand_over key s)
    times_out :
        (before : List AKey) (key : AKey) (behind : List AKey) (s : SqlStore D)
        → s.timers ≡ before ++ (key ∷ behind)
        → s.killing ≡ none
        → Step s (time_out before key behind s)
    kills :
        (key : AKey) (s : SqlStore D)
        → s.killing ≡ some key
        → s.holder ≡ none
        → Step s (record (SqlStores.delete_key g key s).1 { killing = none })

  pub data Reach : SqlStore D → SqlStore D → Type 0 where
    stay : (s : SqlStore D) → Reach s s
    go : {s t u : SqlStore D} → Step s t → Reach t u → Reach s u

  -- A watcher has the mutex and waits for the killer, which waits for the mutex.
  pub record Stuck (s : SqlStore D) : Type 0 where
    pub held : AKey
    pub holds : s.holder ≡ some held
    pub got : AKey
    pub kills_later : s.killing ≡ some got

  stays_Stuck : {s t : SqlStore D} → Step s t → Stuck s → Stuck t × (t.db ≡ s.db)
  stays_Stuck (adds key s n) k = ground (arith, k.holds)
  stays_Stuck (accesses url_key s n) k = ground (arith, k.holds)
  stays_Stuck (deletes key s n) k = ground (arith, k.holds)
  stays_Stuck (answers before w behind resp s n h) k = ground (arith, k.holds)
  stays_Stuck (cancels before w behind s h) k =
      (record { held = k.held; holds = k.holds; got = k.got; kills_later = k.kills_later }, refl)
  stays_Stuck (hands_over key s h n) k = ground (arith, k.kills_later)
  stays_Stuck (times_out before key behind s h n) k = ground (arith, k.kills_later)
  stays_Stuck (kills key s h n) k = ground (arith, k.holds)

  remains_Stuck : {s t : SqlStore D} → Reach s t → Stuck s → Stuck t × (t.db ≡ s.db)
  remains_Stuck (stay s) k = (k, refl)
  remains_Stuck (go step r) k =
      let (k', same) = stays_Stuck step k in
      let (k'', rest) = remains_Stuck r k' in (k'', rest ∙ same)

  answered-holds :
      (w : Watcher) (resp : Bool) (row : DbaKey) (key : AKey) (s : SqlStore D)
      → (g.first_id w.id s.db).0 ≡ ok row
      → row.limited ≡ true
      → leb row.limit row.used_times ≡ true
      → (akey_from_dba_key row s.heap).0 ≡ ok key
      → ((SqlStores.answered g w resp s).1.holder ≡ some key)
        × ((SqlStores.answered g w resp s).1.killing ≡ s.killing)
  unfolding SqlStores.answered SqlStores.hold
  answered-holds w true row key s found limited over made = (ground arith, ground arith)
  answered-holds w false row key s found limited over made = (ground arith, ground arith)

  -- If the killer has got a key and not deleted it, and a watcher gets the mutex and answers for
  -- a limited row that is used up and has no valid keys, then the store is stuck for ever: in
  -- whatever state it gets to, the killer waits for the mutex, its holder for the killer, and the
  -- database is the same.
  pub answered-Stuck :
      (w : Watcher) (resp : Bool) (row : DbaKey) (got : AKey) (s t : SqlStore D)
      → s.killing ≡ some got
      → (g.first_id w.id s.db).0 ≡ ok row
      → row.limited ≡ true
      → leb row.limit row.used_times ≡ true
      → row.valid_keys ≡ []
      → Reach (SqlStores.answered g w resp s).1 t
      → Stuck t × (t.db ≡ (SqlStores.answered g w resp s).1.db)
  answered-Stuck w resp row got s t busy found limited over no_keys r =
      let (key, made) = made_key row s.heap no_keys in
      let (holds, same) = answered-holds w resp row key s found limited over made in
      remains_Stuck r (record { held = key; holds = holds; got = got; kills_later = same ∙ busy })
