-- ===== src/ObjectTable.antt =====
-- What the stores of buckets promise, without their representation: which buckets there are, and
-- which value each bucket holds under each key. storage/memory.go, security/memory.go and
-- metadata/memory.go are compared with it.
pub mod Nested
pub mod History
use secure_store.Effects.{
  Outcome, bucket_already_exists, bucket_does_not_exist, err, object_already_exists,
  object_does_not_exists, ok, panic,
}
use secure_store.Prelude.{
  Bool, Option, String, false, if◌then◌else◌, is_some, none, some, ◌&&◌, ◌||◌, ◌≡◌,
}
use secure_store.Prelude.Eq.{bytes_Eq, string_Eq, ◌==◌}

pub record Table {ℓ} (V : Type ℓ) : Type ℓ where
  pub bucket : String → Bool
  pub object : String → String → Option V

module _ {ℓ} {V : Type ℓ} where
  abbrev pub new_bucket : String → Table V → Outcome (Unit {ℓ}) × Table V
  new_bucket b t = if t.bucket b then (err (bucket_already_exists b), t) else (
    ok tt,
    record {
      bucket = λ c. b == c || t.bucket c;
      object = λ c k. if b == c then none else t.object c k;
    },
  )

  -- The table with `v` under a key of an existing bucket.
  abbrev pub store : String → String → V → Table V → Table V
  store b k v t = record t { object = λ c j. if b == c && k == j then some v else t.object c j }

  unfoldable pub stored : String → String → Outcome V → Table V → Outcome (Unit {ℓ}) × Table V
  stored b k (ok v) t = (ok tt, store b k v t)
  stored b k (err e) t = (err e, t)
  stored b k panic t = (panic, t)

  -- The value may fail to come, and then nothing is stored.
  abbrev pub insert : String → String → Outcome V → Table V → Outcome (Unit {ℓ}) × Table V
  insert b k o t =
      if t.bucket b
      then (if is_some (t.object b k) then (err (object_already_exists k), t) else stored b k o t)
      else (err (bucket_does_not_exist b), t)

  abbrev found : String → Option V → Outcome V
  found k none = err (object_does_not_exists k)
  found k (some v) = ok v

  abbrev pub find : String → String → Table V → Outcome V
  find b k t = if t.bucket b then found k (t.object b k) else err (bucket_does_not_exist b)

  abbrev pub delete : String → String → Table V → Outcome (Unit {ℓ}) × Table V
  delete b k t =
      if t.bucket b
      then (if is_some (t.object b k)
          then (ok tt, record t { object = λ c j. if b == c && k == j then none else t.object c j })
          else (err (object_does_not_exists k), t))
      else (err (bucket_does_not_exist b), t)

  abbrev pub delete_bucket : String → Table V → Outcome (Unit {ℓ}) × Table V
  delete_bucket b t =
      if t.bucket b
      then (
        ok tt,
        record {
          bucket = λ c. if b == c then false else t.bucket c;
          object = λ c k. if b == c then none else t.object c k;
        },
      )
      else (err (bucket_does_not_exist b), t)

  pub record SameTable (t u : Table V) : Type ℓ where
    pub buckets : (b : String) → t.bucket b ≡ u.bucket b
    pub objects : (b k : String) → t.object b k ≡ u.object b k

  -- The call of an implementation returned as the specification does, and left the same table.
  abbrev pub Agrees {κ} : {A : Type κ} → Outcome A × Table V → Outcome A × Table V → Type (ℓ ⊔ κ)
  Agrees r q = (r.0 ≡ q.0) × SameTable r.1 q.1
