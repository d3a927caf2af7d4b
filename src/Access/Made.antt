-- ===== src/Access/Made.antt =====
-- Keys made by `FromExAccessKey` of access/access.go, and what they accept.
use secure_store.Access.ByteSet
use secure_store.Access.{
  AKey, ExAccessKey, Heap, collect, expired, from_ex_access_key, insert_all, new_access_key,
  new_key_options, valid_key,
}
use secure_store.Access.ByteSet.{HashSet, sha512_size}
use secure_store.Effects.{err, ok, returns_ok, wrong_key_length}
use secure_store.Effects.Reader.{Bytes}
use secure_store.GoMap.{GoMap, get, get-put, has, put}
use secure_store.Prelude.{
  Bool, List, Option, [], all, arith, false, if◌then◌else◌, is_some, length, nat_eq, none, not,
  refl, some, true, ℕ, ◌&&◌, ◌||◌, ◌∙◌, ◌∷◌, ◌≡◌,
}
use secure_store.Prelude.Eq.{bytes_Eq, string_Eq, ◌==◌}

abbrev pub sized : Bytes → Bool
sized e = nat_eq (length e) sha512_size

abbrev pub elem : Bytes → List Bytes → Bool
elem k [] = false
elem k (e ∷ es) = e == k || elem k es

put_all : List Bytes → GoMap Bytes (Unit {0}) → GoMap Bytes (Unit {0})
put_all [] g = g
put_all (e ∷ es) g = put_all es (put e tt g)

has-put_all :
    (k : Bytes) (es : List Bytes) (g : GoMap Bytes (Unit {0}))
    → has k (put_all es g) ≡ (has k g || elem k es)
unfolding put_all has
has-put_all k [] g = ground arith
has-put_all k (e ∷ es) g = ground (arith, has-put_all k es (put e tt g), get-put e k tt g)

has-put_all_nil : (k : Bytes) (es : List Bytes) → has k (put_all es []) ≡ elem k es
unfolding has get
has-put_all_nil k es = has-put_all k es []

insert_all_lem :
    (es : List Bytes) (g : GoMap Bytes (Unit {0}))
    → insert_all es (record { set = some g })
      ≡ (if all sized es then ok (record { set = some (put_all es g) }) else err wrong_key_length)
unfolding insert_all put_all ByteSet.insert
insert_all_lem [] g = refl
insert_all_lem (e ∷ es) g = ground (arith, insert_all_lem es (put e tt g))

-- The set of the keys that are accepted, if there is one.
set_of : List Bytes → Option HashSet
set_of [] = none
set_of (e ∷ es) = some (record { set = some (put_all (e ∷ es) []) })

collect_lem :
    (es : List Bytes) → collect es ≡ (if all sized es then ok (set_of es) else err wrong_key_length)
unfolding collect set_of ByteSet.new_hash_set
collect_lem [] = refl
collect_lem (e ∷ es) = ground (arith, insert_all_lem (e ∷ es) [])

-- `from_ex_access_key` makes a key exactly if every valid key given has 64 bytes and the time to
-- live, if there is one, is not over.
pub from_ex_access_key-ok_iff :
    (now : ℕ) (ex : ExAccessKey) (h : Heap)
    → returns_ok (from_ex_access_key now ex h).0
      ≡ (all sized ex.valid_keys && not (expired now ex.ttl))
unfolding from_ex_access_key new_key_options
from_ex_access_key-ok_iff now ex h = ground (arith, collect_lem ex.valid_keys)

abbrev pub is_empty : List Bytes → Bool
is_empty [] = true
is_empty (e ∷ es) = false

valid_key-set_of :
    (es : List Bytes) (k : Bytes) (a : AKey)
    → a.valid_keys ≡ set_of es
    → is_empty es ≡ false
    → valid_key a k ≡ (if sized k then ok (elem k es) else err wrong_key_length)
unfolding valid_key set_of ByteSet.contains
valid_key-set_of [] k a e n = cc
valid_key-set_of (x ∷ es) k a e n = ground (arith, has-put_all_nil k (x ∷ es))

is_some-set_of : (es : List Bytes) → is_some (set_of es) ≡ not (is_empty es)
unfolding set_of
is_some-set_of [] = refl
is_some-set_of (e ∷ es) = refl

made_fields :
    (now : ℕ) (ex : ExAccessKey) (h : Heap) (a : AKey)
    → (from_ex_access_key now ex h).0 ≡ ok a
    → (a.valid_keys ≡ set_of ex.valid_keys) × (a.needs_key ≡ is_some (set_of ex.valid_keys))
unfolding from_ex_access_key new_key_options new_access_key
made_fields now ex h a e = ground (arith, collect_lem ex.valid_keys)

-- A key that `from_ex_access_key` makes asks for an unlock key exactly if valid keys were given;
-- if it asks, `valid_key` answers for 64 bytes whether they are one of the valid keys, and
-- refuses another length as an error.
pub valid_key-from_ex_access_key :
    (now : ℕ) (ex : ExAccessKey) (h : Heap) (a : AKey) (k : Bytes)
    → (from_ex_access_key now ex h).0 ≡ ok a
    → (a.needs_key ≡ not (is_empty ex.valid_keys))
      × (a.needs_key ≡ true
          → valid_key a k ≡ (if sized k then ok (elem k ex.valid_keys) else err wrong_key_length))
valid_key-from_ex_access_key now ex h a k e =
    let (set, needs) = made_fields now ex h a e in
    let given = needs ∙ is_some-set_of ex.valid_keys in
    (given, λ n. valid_key-set_of ex.valid_keys k a set (ground arith))
