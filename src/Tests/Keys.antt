-- ===== src/Tests/Keys.antt =====
-- Access keys.
use secure_store.Access.Memory as AccessMemory
use secure_store.Access.Memory.Steps
use secure_store.Access.ByteSet
use secure_store.Access.Made
use secure_store.Access.{
  AKey, ExAccessKey, Heap, KeyOptions, from_ex_access_key, new_access_key, new_key_options,
  valid_key,
}
use secure_store.Access.Made.{valid_key-from_ex_access_key}
use secure_store.Access.Memory.Limit.{limit_enforced}
use secure_store.Access.Memory.Steps.{Reach, Step}
use secure_store.Access.Memory.Timers.{fired, replaced, timer_kills_other}
use secure_store.Effects.{err, ok, wrong_key_length}
use secure_store.GoMap.{get, has, put}
use secure_store.Prelude.{
  [], arith, false, if◌then◌else◌, none, not, refl, some, true, ◌<◌, ◌∷◌, ◌≡◌,
}
use secure_store.Prelude.Eq.{bytes_Eq, string_Eq}
use secure_store.Tests.Samples.{ordered_key, unlock_key}

abbrev no_cells : Heap
no_cells = record { next_pointer = 0; cells = λ p. 0 }

abbrev order : ExAccessKey
order = record {
  ttl = some 100;
  limit = some 2;
  valid_keys = unlock_key ∷ [];
  resolve_by_url_key = false;
  bucket_id = "ab";
  key_id = "cd";
  url_key = "link";
}

order_made : (from_ex_access_key 10 order no_cells).0 ≡ ok ordered_key
unfolding from_ex_access_key new_key_options new_access_key ByteSet.insert ByteSet.new_hash_set put
order_made = refl

valid_key-from_ex_access_key_example :
    (ordered_key.needs_key ≡ not (Made.is_empty order.valid_keys))
    × (ordered_key.needs_key ≡ true
        → valid_key ordered_key unlock_key ≡ (
            if Made.sized unlock_key
            then ok (Made.elem unlock_key order.valid_keys)
            else err wrong_key_length))
valid_key-from_ex_access_key_example =
    valid_key-from_ex_access_key 10 order no_cells ordered_key unlock_key order_made

-- A key for two uses is added, used once, and the use is answered.
abbrev options : KeyOptions
options = record {
  expires = false;
  ttl = none;
  limited = true;
  limit = 2;
  needs_key = false;
  valid_keys = none;
  resolve_by_url_key = true;
}

abbrev two_uses : AKey
two_uses = record {
  expires = false;
  ttl = none;
  limited = true;
  limit = 2;
  used_times = some 0;
  bucket_id = "ab";
  key_id = "cd";
  url_key = "link";
  needs_key = false;
  valid_keys = none;
  resolve_by_url_key = true;
}

abbrev at_start : AccessMemory.MemoryStore
at_start = AccessMemory.new_memory_store no_cells 0

abbrev added : AccessMemory.MemoryStore
added =
    (AccessMemory.add_key (new_access_key "ab" "cd" "link" options at_start.heap).0
      (record at_start { heap = (new_access_key "ab" "cd" "link" options at_start.heap).1 })).1

abbrev accessed : AccessMemory.MemoryStore
accessed = (AccessMemory.access "link" added).1

abbrev used_once : AccessMemory.MemoryStore
used_once = (AccessMemory.answered two_uses true (record accessed { watchers = [] })).1

one_watcher : accessed.watchers ≡ two_uses ∷ []
unfolding AccessMemory.new_memory_store AccessMemory.add_key AccessMemory.access new_access_key has
    put
one_watcher = refl

reached : Reach at_start used_once
reached =
    Steps.next
      (Steps.next (Steps.next Steps.here (Steps.adds "ab" "cd" "link" options))
        (Steps.accesses "link"))
      (Steps.answers [] [] two_uses true one_watcher)

used_once_state :
    (used_once.kills ≡ []) × (get "link" used_once.m ≡ some two_uses) × (used_once.heap.cells 0 ≡ 1)
unfolding AccessMemory.new_memory_store AccessMemory.add_key AccessMemory.access
    AccessMemory.answered new_access_key has put
used_once_state = (refl, refl, refl)

limit_enforced_example : used_once.heap.cells 0 < 2
limit_enforced_example =
    limit_enforced no_cells 0 used_once "link" two_uses 0 reached used_once_state.0
      used_once_state.1 refl refl (omega (arith, used_once_state.2))

abbrev newer_key : AKey
newer_key = record ordered_key { expires = false; ttl = none; limited = false; bucket_id = "other" }

abbrev no_keys : AccessMemory.MemoryStore
no_keys = AccessMemory.new_memory_store (record { next_pointer = 1; cells = λ p. 0 }) 10

timer_kills_other_example :
    (get "link" (replaced ordered_key newer_key 90 no_keys).m ≡ some newer_key)
    × Step (replaced ordered_key newer_key 90 no_keys) (fired ordered_key newer_key 90 no_keys)
    × Step
        (fired ordered_key newer_key 90 no_keys)
        (AccessMemory.kill [] [] ordered_key (fired ordered_key newer_key 90 no_keys)).1
    × (get "link" (AccessMemory.kill [] [] ordered_key (fired ordered_key newer_key 90 no_keys)).1.m
        ≡ none)
unfolding AccessMemory.new_memory_store get
timer_kills_other_example =
    timer_kills_other no_keys ordered_key newer_key 100 90 refl refl refl refl refl (ground arith)
