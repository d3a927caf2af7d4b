-- ===== src/Access/Memory.antt =====
-- access/memory.go. The goroutines that a `MemoryStore` starts are part of the state: a watcher
-- for each `Access` that waits for the answer of its caller or for the end of the caller's
-- context, a sender for each key that waits to hand it to the killer, and a timer for each key
-- that expires. A call is one step, and so is all that a watcher does with an answer: other
-- goroutines do not come in between its test and its assignment.
pub mod Steps
pub mod Entries
pub mod Invariant
pub mod Answers
pub mod Limit
pub mod Timers
use secure_store.Access.{AKey, Heap}
use secure_store.Cli.{now}
use secure_store.Effects.{Exec, err, key_already_exists, key_doesnt_exist, ok, panic}
use secure_store.GoMap.{GoMap, get, has, put, remove}
use secure_store.Prelude.{
  Bool, List, String, [], if◌then◌else◌, leb, nat_eq, none, some, ℕ, ◌%◌, ◌&&◌, ◌++◌, ◌+◌, ◌^◌, ◌∷◌,
}
use secure_store.Prelude.Eq.{bytes_Eq, string_Eq}

pub record MemoryStore : Type 0 where
  pub m : GoMap String AKey
  pub heap : Heap
  pub watchers : List AKey
  pub kills : List AKey
  pub timers : List AKey
  pub clock : ℕ

unfoldable pub new_memory_store : Heap → ℕ → MemoryStore
new_memory_store h now = record {
  m = [];
  heap = h;
  watchers = [];
  kills = [];
  timers = [];
  clock = now;
}

-- The receiver of `timeKiller` is always ready, so the send is no wait.
unfoldable pub add_key : AKey → Exec MemoryStore (Unit {0})
add_key key s = if has key.url_key s.m then (err (key_already_exists key.url_key), s) else (
  ok tt,
  record s {
    m = put key.url_key key s.m;
    timers = if key.expires then key ∷ s.timers else s.timers;
  },
)

unfoldable pub access : String → Exec MemoryStore AKey
access url_key s = elim (get url_key s.m) [
  | none ↦ (err (key_doesnt_exist url_key), s)
  | some key ↦ (ok key, record s { watchers = key ∷ s.watchers })
]

unfoldable pub delete_key : AKey → Exec MemoryStore (Unit {0})
delete_key key s =
    if has key.url_key s.m
    then (ok tt, record s { m = remove key.url_key s.m })
    else (err (key_doesnt_exist key.url_key), s)

abbrev pub max_uint64 : ℕ
max_uint64 = 2 ^ 64

-- `atomic.AddUint64(p, 1)`
unfoldable pub increment : ℕ → Heap → Heap
increment p h = record h {
  cells = λ q. if nat_eq q p then (h.cells p + 1) % max_uint64 else h.cells q;
}

-- A timer for a key that waits between others goes off: it becomes a sender to the killer.
abbrev pub fire : List AKey → List AKey → AKey → MemoryStore → MemoryStore
fire xs ys key s = record s { timers = xs ++ ys; kills = key ∷ s.kills }

-- The killer receives a key from one of the senders and deletes what its url key names.
abbrev pub kill : List AKey → List AKey → AKey → Exec MemoryStore (Unit {0})
kill xs ys key s = delete_key key (record s { kills = xs ++ ys })

-- What a watcher does with an answer. A nil counter is a panic of the goroutine.
unfoldable pub answered : AKey → Bool → Exec MemoryStore (Unit {0})
unfolding increment
answered key resp s = elim key.used_times [
  | none ↦ (panic, s)
  | some p ↦
      let heap : Heap = if resp then increment p s.heap else s.heap in
      let counter = heap.cells p in
      (
        ok tt,
        record s {
          heap = heap;
          kills = if leb key.limit counter && key.limited then key ∷ s.kills else s.kills;
        },
      )
]
