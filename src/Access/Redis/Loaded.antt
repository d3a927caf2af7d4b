-- ===== src/Access/Redis/Loaded.antt =====
-- What `AddKey` of access/redis.go asks of Redis, and what `Access` finds afterwards.
use secure_store.Access.{AKey}
use secure_store.Access.Redis.{ProtoAKey, proto_key_from_akey}
use secure_store.Access.Redis.Last.{stored_and_loaded}
use secure_store.Access.Redis.Store.{
  Marshalling, RedisClient, RedisStore, access, add_key, expiration,
}
use secure_store.Effects.{Outcome-cases, ok}
use secure_store.Prelude.{String, arith, inl, inr, some, true, ℕ, ◌-◌, ◌<◌, ◌≡◌}
use secure_store.Prelude.Int.{negsuc, ℤ}

-- What the store relies on: `Get` answers with what was set last, and a message that was marshalled
-- is unmarshalled to itself.
pub record RedisContract {R D : Type 0} (client : RedisClient R D) (m : Marshalling D)
    : Type 0 where
  pub set_get :
      (u : String) (d : D) (t : ℤ) (r r' : R)
      → client.set u d t r ≡ (ok tt, r')
      → client.get u r' ≡ (ok d, r')
  pub marshalled : (p : ProtoAKey) (d : D) → m.marshal p ≡ ok d → m.unmarshal d ≡ ok p

module _ {R D : Type 0} (client : RedisClient R D) (m : Marshalling D) where
  -- If a key expires at a time in the future and its message can be made and marshalled, then
  -- `add_key` is one `Set` on the server, with a negative expiration.
  pub add_key-expired :
      (now ttl : ℕ) (key : AKey) (s : RedisStore R) (proto_key : ProtoAKey) (content : D)
      → key.expires ≡ true
      → key.ttl ≡ some ttl
      → now < ttl
      → proto_key_from_akey key s.heap ≡ ok proto_key
      → m.marshal proto_key ≡ ok content
      → add_key client m now key s ≡ (
        (client.set key.url_key content (negsuc (ttl - now - 1)) s.server).0,
        record s { server = (client.set key.url_key content (negsuc (ttl - now - 1)) s.server).1 },
      )
  unfolding add_key expiration
  add_key-expired now ttl key s proto_key content e t later p d = ground arith

  -- A key that was added is on the server, and the memory is as it was.
  set_by_add_key :
      (now : ℕ) (key : AKey) (s s' : RedisStore R) (p : ProtoAKey) (d : D)
      → add_key client m now key s ≡ (ok tt, s')
      → proto_key_from_akey key s.heap ≡ ok p
      → m.marshal p ≡ ok d
      → (t : ℤ) × (client.set key.url_key d t s.server ≡ (ok tt, s'.server)) × (s'.heap ≡ s.heap)
  unfolding add_key
  set_by_add_key now key s s' p d e q z = elim (Outcome-cases (expiration client m now key)) [
    | inl (t, x) ↦ (t, ground arith, ground arith)
    | inr (inl x) ↦ ground arith
    | inr (inr (y, x)) ↦ ground arith
  ]

  access_by_parts :
      (key : AKey) (s s' : RedisStore R) (p : ProtoAKey) (d : D)
      → proto_key_from_akey key s.heap ≡ ok p
      → m.unmarshal d ≡ ok p
      → client.get key.url_key s'.server ≡ (ok d, s'.server)
      → s'.heap ≡ s.heap
      → (access client m key.url_key s').0 ≡ (stored_and_loaded key s.heap).0
  unfolding access
  access_by_parts key s s' p d q z g h = ground arith

  -- Over a Redis server that answers with what was set last and a marshalling that is undone by
  -- unmarshalling: if `add_key` succeeds, then `access` of its url key gives what converting the
  -- key to a message and back gives, errors and panics included.
  pub access-add_key :
      (contract : RedisContract client m) (now : ℕ) (key : AKey) (s s' : RedisStore R)
      → add_key client m now key s ≡ (ok tt, s')
      → (access client m key.url_key s').0 ≡ (stored_and_loaded key s.heap).0
  unfolding add_key
  access-add_key contract now key s s' e = elim (Outcome-cases (proto_key_from_akey key s.heap)) [
    | inl (p, q) ↦ elim (Outcome-cases (m.marshal p)) [
      | inl (d, z) ↦
          let (t, set, same) = set_by_add_key now key s s' p d e q z in
          access_by_parts key s s' p d q (contract.marshalled p d z)
            (contract.set_get key.url_key d t s.server s'.server set) same
      | inr (inl z) ↦ ground arith
      | inr (inr (x, z)) ↦ ground arith
    ]
    | inr (inl q) ↦ ground arith
    | inr (inr (x, q)) ↦ ground arith
  ]
