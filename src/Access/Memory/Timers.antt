-- ===== src/Access/Memory/Timers.antt =====
-- What a timer of access/memory.go does to a key that was added later.
use secure_store.Access.{AKey}
use secure_store.Access.Memory.{MemoryStore, add_key, delete_key, fire, kill}
use secure_store.Access.Memory.Steps.{Step, fires, kills}
use secure_store.Effects.{ok}
use secure_store.GoMap.{get, get-put, get-remove, has, put, remove}
use secure_store.Prelude.{[], ap, arith, false, none, refl, some, true, ℕ, ◌+◌, ◌∷◌, ◌≡◌, ◌≤◌}
use secure_store.Prelude.Eq.{bytes_Eq, string_Eq}
use text.Mathlib.TextPositions.{eq_refl}

-- A key is added and deleted, another one is added, and time passes.
abbrev pub replaced : AKey → AKey → ℕ → MemoryStore → MemoryStore
replaced old new n s =
    let t = (add_key new (delete_key old (add_key old s).1).1).1 in record t { clock = t.clock + n }

abbrev pub fired : AKey → AKey → ℕ → MemoryStore → MemoryStore
fired old new n s = fire [] s.timers old (replaced old new n s)

module _ (s : MemoryStore) (old new : AKey) (n : ℕ) (free : get old.url_key s.m ≡ none)
    (expires : old.expires ≡ true) (same : new.url_key ≡ old.url_key)
    (stays : new.expires ≡ false) where
  abbrev with_old : MemoryStore
  with_old = record s { m = put old.url_key old s.m; timers = old ∷ s.timers }

  added : add_key old s ≡ (ok tt, with_old)
  unfolding add_key has
  added = rw free (rw expires refl)

  old_there : get old.url_key with_old.m ≡ some old
  old_there = ground (arith, get-put old.url_key old.url_key old s.m, eq_refl old.url_key)

  abbrev without_old : MemoryStore
  without_old = record with_old { m = remove old.url_key with_old.m }

  deleted : delete_key old with_old ≡ (ok tt, without_old)
  unfolding delete_key has
  deleted = rw old_there refl

  nothing_there : get new.url_key without_old.m ≡ none
  nothing_there = ground (arith, get-remove old.url_key new.url_key with_old.m, eq_refl old.url_key)

  abbrev with_new : MemoryStore
  with_new = record without_old { m = put new.url_key new without_old.m }

  added_new : add_key new without_old ≡ (ok tt, with_new)
  unfolding add_key has
  added_new = rw nothing_there (rw stays refl)

  new_there : get old.url_key with_new.m ≡ some new
  new_there = ground (arith, get-put new.url_key old.url_key new without_old.m, eq_refl old.url_key)

  replaced-with_new : replaced old new n s ≡ record with_new { clock = s.clock + n }
  replaced-with_new = rw added (rw deleted (rw added_new refl))

  killed : get old.url_key (kill [] s.kills old (fired old new n s)).1.m ≡ none
  unfolding delete_key has
  killed = rw replaced-with_new (
      rw new_there
        (ground (arith, get-remove old.url_key old.url_key with_new.m, eq_refl old.url_key)))

-- If a key that expires is added under a free url key and deleted, then another key that does not
-- expire is added under this url key, and then the time to live of the first key passes: the
-- second key is stored, the timer of the first key can still go off, the killer can then receive
-- the first key, and after these two steps no key is stored under the url key.
pub timer_kills_other :
    (s : MemoryStore) (old new : AKey) (ttl n : ℕ)
    → get old.url_key s.m ≡ none
    → old.expires ≡ true
    → old.ttl ≡ some ttl
    → new.url_key ≡ old.url_key
    → new.expires ≡ false
    → ttl ≤ s.clock + n
    → (get old.url_key (replaced old new n s).m ≡ some new)
      × Step (replaced old new n s) (fired old new n s)
      × Step (fired old new n s) (kill [] s.kills old (fired old new n s)).1
      × (get old.url_key (kill [] s.kills old (fired old new n s)).1.m ≡ none)
timer_kills_other s old new ttl n free expires lives same stays over =
    let r = replaced-with_new s old new n free expires same stays in
    (
      rw r (new_there s old new n free expires same stays),
      fires [] s.timers old ttl (ap (λ r. r.timers) r) lives
          (omega (arith, over, ap (λ r. r.clock) r)),
      kills [] s.kills old (ap (λ r. old ∷ r.kills) r),
      killed s old new n free expires same stays,
    )
