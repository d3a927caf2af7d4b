-- ===== src/Tests/Conversions.antt =====
-- Access keys on their way to Redis and to a database.
use secure_store.Access.Redis.Store
use secure_store.Access.Redis.Loaded
use secure_store.Access.Redis.Last
use secure_store.Access.{AKey, Heap, valid_key}
use secure_store.Access.Made.{sized}
use secure_store.Access.Redis.{ProtoAKey, proto_key_from_akey}
use secure_store.Access.Redis.Last.{valid_key-stored_and_loaded}
use secure_store.Access.Redis.Loaded.{access-add_key}
use secure_store.Access.Redis.Store.{Marshalling, RedisClient, RedisStore}
use secure_store.Effects.{Outcome, err, external, ok, wrong_key_length}
use secure_store.Effects.Reader.{Bytes}
use secure_store.GoMap.{GoMap, get, get-put, put, remove}
use secure_store.Prelude.{
  Option, String, [], arith, false, if◌then◌else◌, none, refl, some, sym, true, ◌∷◌, ◌≡◌,
}
use secure_store.Prelude.Eq.{bytes_Eq, string_Eq, ◌==◌}
use secure_store.Prelude.Int.{pos, ℤ}
use secure_store.Tests.Samples.{ordered_key, repeat, unlock_key}
use text.Mathlib.TextPositions.{eq_refl}

abbrev one_cell : Heap
one_cell = record { next_pointer = 1; cells = λ p. 3 }

abbrev open_key : AKey
open_key = record ordered_key { needs_key = false; valid_keys = none }

-- A key with two valid keys, of which the first is not accepted any more.
abbrev other_key : Bytes
other_key = repeat 64 6

abbrev two_keys : AKey
two_keys = record ordered_key {
  valid_keys = some (record { set = some ((unlock_key, tt) ∷ (other_key, tt) ∷ []) });
}

valid_key-stored_and_loaded_example :
    (a : AKey) × ((Last.stored_and_loaded two_keys one_cell).0 ≡ ok a)
    × (valid_key a unlock_key ≡ (
        if sized unlock_key
        then ok (Last.last_key unlock_key ((other_key, tt) ∷ []) == unlock_key)
        else err wrong_key_length))
valid_key-stored_and_loaded_example =
    valid_key-stored_and_loaded two_keys one_cell unlock_key ((other_key, tt) ∷ []) refl refl refl
      refl unlock_key

first_key_lost : (Last.last_key unlock_key ((other_key, tt) ∷ []) == unlock_key) ≡ false
first_key_lost = refl

-- A server that keeps what is set, and the expiration of the last `Set`.
abbrev Server : Type 0
Server = GoMap String ProtoAKey × ℤ

found_content : Option ProtoAKey → Outcome ProtoAKey
found_content none = err (external 3)
found_content (some p) = ok p

abbrev server_client : RedisClient Server ProtoAKey
server_client = record {
  set = λ u d t r. (ok tt, (put u d r.0, t));
  get = λ u r. (found_content (get u r.0), r);
  del = λ u r. (ok tt, (remove u r.0, r.1));
}

abbrev plain_messages : Marshalling ProtoAKey
plain_messages = record { marshal = λ p. ok p; unmarshal = λ p. ok p }

server-RedisContract : Loaded.RedisContract server_client plain_messages
unfolding found_content
server-RedisContract = record {
  set_get = λ u d t r r' e. ground (arith, get-put u u d r.0, eq_refl u);
  marshalled = λ p d e. sym e;
}

abbrev empty_store : RedisStore Server
empty_store = record { server = ([], pos 0); heap = one_cell }

abbrev after_add : RedisStore Server
after_add = (Store.add_key server_client plain_messages 10 open_key empty_store).1

added : Store.add_key server_client plain_messages 10 open_key empty_store ≡ (ok tt, after_add)
unfolding Store.add_key proto_key_from_akey Store.expiration
added = refl

access-add_key_example :
    (Store.access server_client plain_messages "link" after_add).0
    ≡ (Last.stored_and_loaded open_key one_cell).0
access-add_key_example =
    access-add_key server_client plain_messages server-RedisContract 10 open_key empty_store
      after_add added

abbrev open_message : ProtoAKey
open_message = record {
  expires = true;
  ttl = some 100;
  limited = true;
  limit = 2;
  used_times = 3;
  bucket_id = "ab";
  key_id = "cd";
  url_key = "link";
  needs_key = false;
  valid_keys = [];
  resolve_by_url_key = false;
}

made_message : proto_key_from_akey open_key one_cell ≡ ok open_message
unfolding proto_key_from_akey
made_message = refl
