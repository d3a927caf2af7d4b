-- ===== src/Access/Redis/Store.antt =====
-- access/redis.go: the store. The Redis server with its client library, and the marshalling of
-- messages, are parameters. Times count from the Unix epoch, which is what the time of a missing
-- timestamp reads as.
use secure_store.Access.{AKey, Heap}
use secure_store.Access.Redis.{ProtoAKey, akey_from_proto_key, proto_key_from_akey}
use secure_store.Client.{ping}
use secure_store.Effects.{Exec, Outcome, err, lift, ok, panic, pure, ◌>>=◌}
use secure_store.ObjectTable.{stored}
use secure_store.Prelude.{
  Bool, List, Option, String, [], if◌then◌else◌, leb, ltb, none, some, ℕ, ◌%◌, ◌&&◌, ◌+◌, ◌-◌, ◌^◌,
  ◌∷◌,
}
use secure_store.Prelude.Eq.{bytes_Eq, string_Eq}
use secure_store.Prelude.Int.{negsuc, pos, ℤ}

-- `Set` with its expiration, `Get` and `Del`, on a server whose state is of type R, for data of
-- type D.
pub record RedisClient (R D : Type 0) : Type 0 where
  pub set : String → D → ℤ → Exec R (Unit {0})
  pub get : String → Exec R D
  pub del : String → Exec R (Unit {0})

-- `proto.Marshal` and `proto.Unmarshal`
pub record Marshalling (D : Type 0) : Type 0 where
  pub marshal : ProtoAKey → Outcome D
  pub unmarshal : D → Outcome ProtoAKey

-- The server, and the memory in which counters live.
pub record RedisStore (R : Type 0) : Type 0 where
  pub server : R
  pub heap : Heap

-- `now.Sub(t)`
unfoldable pub time_sub : ℕ → ℕ → ℤ
time_sub now t = if ltb now t then negsuc (t - now - 1) else pos (now - t)

module _ {R D : Type 0} (client : RedisClient R D) (m : Marshalling D) where
  abbrev on_server : {A : Type 0} → Exec R A → Exec (RedisStore R) A
  on_server f s = ((f s.server).0, record s { server = (f s.server).1 })

  abbrev on_heap : {A : Type 0} → Exec Heap A → Exec (RedisStore R) A
  on_heap f s = ((f s.heap).0, record s { heap = (f s.heap).1 })

  -- `time.Now().Sub(*key.ttl)` for a key that expires; a nil `ttl` of such a key panics.
  unfoldable pub expiration : ℕ → AKey → Outcome ℤ
  unfolding time_sub
  expiration now key =
      if key.expires
      then elim key.ttl [ none ↦ panic | some ttl ↦ ok (time_sub now ttl) ]
      else ok (pos 0)

  unfoldable pub add_key : ℕ → AKey → Exec (RedisStore R) (Unit {0})
  add_key now key = do
    proto_key ← λ s. (proto_key_from_akey key s.heap, s)
    content ← lift (m.marshal proto_key)
    duration ← lift (expiration now key)
    on_server (client.set key.url_key content duration)

  unfoldable pub access : String → Exec (RedisStore R) AKey
  access url_key = do
    content ← on_server (client.get url_key)
    proto_key ← lift (m.unmarshal content)
    on_heap (akey_from_proto_key proto_key)

  unfoldable pub delete_key : AKey → Exec (RedisStore R) (Unit {0})
  delete_key key = on_server (client.del key.url_key)

  abbrev epoch_or : Option ℕ → ℕ
  epoch_or none = 0
  epoch_or (some t) = t

  -- One use more, on the server. The result of `Set` is not looked at.
  count_use : ℕ → String → ProtoAKey → Exec (RedisStore R) ProtoAKey
  unfolding time_sub
  count_use now url_key proto_key s =
      let counted : ProtoAKey = record proto_key {
        used_times = (proto_key.used_times + 1) % 2 ^ 64;
      } in
      elim (m.marshal counted) [
        | err e ↦ (err e, s)
        | panic ↦ (panic, s)
        | ok content ↦ (
          ok counted,
          (on_server (client.set url_key content (time_sub now (epoch_or proto_key.ttl))) s).1,
        )
      ]

  send : ProtoAKey → Exec (RedisStore R) (Option AKey)
  send proto_key = do key ← on_heap (akey_from_proto_key proto_key); pure (some key)

  -- What the goroutine of `Access` does with an answer: the key that it sends to the killer, if it
  -- sends one. An error ends it.
  unfoldable pub answered : ℕ → String → Bool → Exec (RedisStore R) (Option AKey)
  unfolding count_use send
  answered now url_key resp = do
    content ← on_server (client.get url_key)
    stored ← lift (m.unmarshal content)
    proto_key ← if resp then count_use now url_key stored else pure stored
    if leb proto_key.limit proto_key.used_times && proto_key.limited
        then send proto_key
        else pure none

module _ {R : Type 0} where
  abbrev with_server : Heap → Outcome (Unit {0}) × R → Outcome (RedisStore R) × R
  with_server heap (ok u, server) = (ok (record { server = server; heap = heap }), server)
  with_server heap (err e, server) = (err e, server)
  with_server heap (panic, server) = (panic, server)

  -- `Ping` of the client, and the store over a heap of counters
  unfoldable pub new_redis_store : Exec R (Unit {0}) → Heap → Exec R (RedisStore R)
  new_redis_store ping heap server = with_server heap (ping server)

module _ {R D : Type 0} (client : RedisClient R D) (m : Marshalling D) where
  -- The killer: it deletes what it receives, until it receives nil; errors are dropped.
  unfoldable pub run_killer : List (Option AKey) → RedisStore R → RedisStore R
  run_killer [] s = s
  run_killer (none ∷ ks) s = s
  run_killer (some key ∷ ks) s = run_killer ks (delete_key client m key s).1
