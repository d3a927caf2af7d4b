-- ===== src/Access/Redis/Last.antt =====
-- What remains of an access key that went through the two conversions of access/redis.go.
use secure_store.Access.ByteSet
use secure_store.Access.{AKey, Heap, valid_key}
use secure_store.Access.Made.{sized}
use secure_store.Access.Redis.{
  akey_from_proto_key, count_of, fill, insert_keys, keys_in, proto_key_from_akey, proto_keys,
  slices, visit,
}
use secure_store.Effects.{Exec, continue, err, ok, wrong_key_length}
use secure_store.Effects.Reader.{Bytes}
use secure_store.GoMap.{GoMap, get, get-put, has, put}
use secure_store.Prelude.{
  Bool, [], ap, arith, false, if◌then◌else◌, length, ltb, nat_eq_iff, refl, some, suc, true, zero,
  ℕ, ◌&&◌, ◌+◌, ◌||◌, ◌∙◌, ◌∷◌, ◌≡◌,
}
use secure_store.Prelude.Eq.{bytes_Eq, string_Eq, ◌==◌}

-- The key that `range` visits last.
abbrev pub last_key : Bytes → GoMap Bytes (Unit {0}) → Bytes
last_key k [] = k
last_key k ((j, t) ∷ m) = last_key j m

abbrev pub all_sized : GoMap Bytes (Unit {0}) → Bool
all_sized [] = true
all_sized ((j, t) ∷ m) = sized j && all_sized m

-- A key that goes to Redis and back.
abbrev pub stored_and_loaded : AKey → Exec Heap AKey
stored_and_loaded key h = continue (proto_key_from_akey key h) akey_from_proto_key h

visit_lem :
    (m : GoMap Bytes (Unit {0})) (n : ℕ) (k : Bytes) → visit m n k ≡ (n + length m, last_key k m)
unfolding visit
visit_lem [] n k = ap (λ x. (x, k)) (omega arith)
visit_lem ((j, t) ∷ m) n k = visit_lem m (suc n) j ∙ ap (λ x. (x, last_key j m)) (omega arith)

last_key-sized :
    (k : Bytes) (m : GoMap Bytes (Unit {0}))
    → sized k ≡ true
    → all_sized m ≡ true
    → sized (last_key k m) ≡ true
last_key-sized k [] s a = s
last_key-sized k ((j, t) ∷ m) s a = last_key-sized j m (ground arith) (ground arith)

fill_lem : (n : ℕ) (k : Bytes) → length k ≡ n → fill n k ≡ ok k
unfolding fill
fill_lem zero [] e = refl
fill_lem zero (b ∷ k) e = absurd (omega arith)
fill_lem (suc n) [] e = absurd (omega arith)
fill_lem (suc n) (b ∷ k) e = rw (fill_lem n k (omega arith)) refl

put_times : ℕ → Bytes → GoMap Bytes (Unit {0}) → GoMap Bytes (Unit {0})
put_times zero k g = g
put_times (suc n) k g = put_times n k (put k tt g)

insert_keys-slices :
    (n : ℕ) (k : Bytes) (g : GoMap Bytes (Unit {0}))
    → sized k ≡ true
    → insert_keys (slices n k) (record { set = some g })
      ≡ ok (record { set = some (put_times n k g) })
unfolding insert_keys slices put_times ByteSet.insert
insert_keys-slices zero k g s = refl
insert_keys-slices (suc n) k g s =
    rw (fill_lem 64 k ((nat_eq_iff (length k) 64).0 s)) (insert_keys-slices n k (put k tt g) s)

has-put_times :
    (n : ℕ) (k j : Bytes) (g : GoMap Bytes (Unit {0}))
    → has j (put_times n k g) ≡ (has j g || (ltb 0 n && k == j))
unfolding put_times has
has-put_times zero k j g = ground arith
has-put_times (suc n) k j g = ground (arith, has-put_times n k j (put k tt g), get-put k j tt g)

module _ (key : AKey) (h : Heap) where
  -- A key that asks for no unlock key comes back from its message with all its fields, a fresh
  -- counter at the same count, and an empty set of valid keys.
  pub akey_from_proto_key-proto_key_from_akey :
      key.needs_key ≡ false
      → ((stored_and_loaded key h).0
          ≡ ok (record key {
            used_times = some h.next_pointer;
            valid_keys = some ByteSet.new_hash_set;
          }))
        × ((stored_and_loaded key h).1.cells h.next_pointer ≡ count_of key h)
  unfolding proto_key_from_akey akey_from_proto_key
  akey_from_proto_key-proto_key_from_akey n = (ground arith, ground arith)

  module _ (k : Bytes) (m : GoMap Bytes (Unit {0})) (n : key.needs_key ≡ true)
      (v : key.valid_keys ≡ some (record { set = some ((k, tt) ∷ m) })) (s : sized k ≡ true)
      (al : all_sized m ≡ true) where
    abbrev back : AKey
    back = record key {
      used_times = some h.next_pointer;
      valid_keys = some (record { set = some (put_times (1 + length m) (last_key k m) []) });
    }

    proto_keys_lem : proto_keys key ≡ ok (slices (1 + length m) (last_key k m))
    unfolding proto_keys keys_in visit
    proto_keys_lem = rw (n, proto_keys) (rw v (ap (λ x. ok (slices x.0 x.1)) (visit_lem m 1 k)))

    loaded : (stored_and_loaded key h).0 ≡ ok back
    unfolding proto_key_from_akey akey_from_proto_key ByteSet.new_hash_set
    loaded = ground (
      arith,
      proto_keys_lem,
      insert_keys-slices (1 + length m) (last_key k m) [] (last_key-sized k m s al),
    )

    accepts :
        (j : Bytes)
        → valid_key back j ≡ (if sized j then ok (last_key k m == j) else err wrong_key_length)
    unfolding valid_key ByteSet.contains has get
    accepts j = ground (arith, has-put_times (1 + length m) (last_key k m) j [])

    -- A key that asks for an unlock key and has valid keys, all of 64 bytes, comes back from its
    -- message as a key that accepts, of the texts of 64 bytes, only the valid key that `range`
    -- visited last, and refuses another length as an error.
    pub valid_key-stored_and_loaded :
        (j : Bytes)
        → (a : AKey) × ((stored_and_loaded key h).0 ≡ ok a)
          × (valid_key a j ≡ (if sized j then ok (last_key k m == j) else err wrong_key_length))
    valid_key-stored_and_loaded j = (back, loaded, accepts j)
