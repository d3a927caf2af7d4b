-- ===== src/Access/Memory/Steps.antt =====
-- The steps of a `MemoryStore` and of its goroutines, in any order. A key comes from
-- `NewAccessKey`, as in the API, so its counter is its own.
use secure_store.Access.{AKey, KeyOptions, new_access_key}
use secure_store.Access.Memory.{MemoryStore, access, add_key, answered, delete_key, fire, kill}
use secure_store.Prelude.{Bool, List, String, some, ℕ, ◌++◌, ◌+◌, ◌∷◌, ◌≡◌, ◌≤◌}

pub data Step (s : MemoryStore) : MemoryStore → Type 0 where
  adds :
      (bucket_id key_id url_key : String) (options : KeyOptions)
      → Step s
          (add_key
            (new_access_key bucket_id key_id url_key options s.heap).0
            (record s { heap = (new_access_key bucket_id key_id url_key options s.heap).1 })).1
  accesses : (url_key : String) → Step s (access url_key s).1
  deletes : (key : AKey) → Step s (delete_key key s).1
  -- A watcher gets the answer of its caller ...
  answers :
      (xs ys : List AKey) (key : AKey) (resp : Bool)
      → s.watchers ≡ xs ++ (key ∷ ys)
      → Step s (answered key resp (record s { watchers = xs ++ ys })).1
  -- ... or sees that the context is done.
  gives_up :
      (xs ys : List AKey) (key : AKey)
      → s.watchers ≡ xs ++ (key ∷ ys)
      → Step s (record s { watchers = xs ++ ys })
  -- The killer receives a key from any of the senders.
  kills :
      (xs ys : List AKey) (key : AKey) → s.kills ≡ xs ++ (key ∷ ys) → Step s (kill xs ys key s).1
  -- A timer goes off.
  fires :
      (xs ys : List AKey) (key : AKey) (ttl : ℕ)
      → s.timers ≡ xs ++ (key ∷ ys)
      → key.ttl ≡ some ttl
      → ttl ≤ s.clock
      → Step s (fire xs ys key s)
  ticks : (n : ℕ) → Step s (record s { clock = s.clock + n })

pub data Reach (s : MemoryStore) : MemoryStore → Type 0 where
  here : Reach s s
  next : {t u : MemoryStore} → Reach s t → Step t u → Reach s u
