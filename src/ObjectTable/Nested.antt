-- ===== src/ObjectTable/Nested.antt =====
-- A `map[string]map[string]V` as a table. The inner maps are reached through the outer one only,
-- so a write to an inner map is a write of the inner map back into the outer one.
use secure_store.GoMap.{GoMap, get, get-put, get-remove, has, put, remove}
use secure_store.ObjectTable.{SameTable, Table, store}
use secure_store.Prelude.{
  Option, String, [], arith, false, if◌then◌else◌, none, refl, some, true, ◌&&◌, ◌||◌, ◌≡◌,
}
use secure_store.Prelude.Eq.{bytes_Eq, string_Eq, ◌==◌}
use text.Mathlib.TextEquality.{eq_iff}

abbrev pub Nested {ℓ} : Type ℓ → Type ℓ
Nested V = GoMap String (GoMap String V)

module _ {ℓ} {V : Type ℓ} where
  abbrev inner_get : String → Option (GoMap String V) → Option V
  inner_get k none = none
  inner_get k (some m) = get k m

  unfoldable pub lookup : String → String → Nested V → Option V
  lookup b k m = inner_get k (get b m)

  abbrev pub view : Nested V → Table V
  view m = record { bucket = λ b. has b m; object = λ b k. lookup b k m }

  module _ (b : String) (m : Nested V) where
    pub has-some : {inner : GoMap String V} → get b m ≡ some inner → has b m ≡ true
    unfolding has
    has-some e = rw e refl

    pub has-none : get b m ≡ none → has b m ≡ false
    unfolding has
    has-none e = rw e refl

    pub lookup-some :
        {inner : GoMap String V} (k : String) → get b m ≡ some inner → lookup b k m ≡ get k inner
    unfolding lookup
    lookup-some k e = rw e refl

    pub lookup-none : (k : String) → get b m ≡ none → lookup b k m ≡ none
    unfolding lookup
    lookup-none k e = rw e refl

    -- A new, empty bucket.
    pub SameTable-new_bucket :
        get b m ≡ none
        → SameTable (view (put b [] m)) (record {
          bucket = λ c. b == c || has c m;
          object = λ c k. if b == c then none else lookup c k m;
        })
    unfolding has lookup get
    SameTable-new_bucket e = record {
      buckets = λ c. ground (arith, get-put b c [] m);
      objects = λ c k. ground (arith, get-put b c [] m);
    }

    pub SameTable-store :
        (k : String) (v : V) (inner : GoMap String V)
        → get b m ≡ some inner
        → SameTable (view (put b (put k v inner) m)) (store b k v (view m))
    unfolding has lookup
    SameTable-store k v inner e = record {
      buckets = λ c. ground (arith, get-put b c (put k v inner) m, eq_iff b c);
      objects =
          λ c j. ground (arith, get-put b c (put k v inner) m, get-put k j v inner, eq_iff b c);
    }

    pub SameTable-delete :
        (k : String) (inner : GoMap String V)
        → get b m ≡ some inner
        → SameTable (view (put b (remove k inner) m)) (record {
          bucket = λ c. has c m;
          object = λ c j. if b == c && k == j then none else lookup c j m;
        })
    unfolding has lookup
    SameTable-delete k inner e = record {
      buckets = λ c. ground (arith, get-put b c (remove k inner) m, eq_iff b c);
      objects =
          λ c j. ground (arith, get-put b c (remove k inner) m, get-remove k j inner, eq_iff b c);
    }

    pub SameTable-delete_bucket : SameTable (view (remove b m)) (record {
      bucket = λ c. if b == c then false else has c m;
      object = λ c k. if b == c then none else lookup c k m;
    })
    unfolding has lookup
    SameTable-delete_bucket = record {
      buckets = λ c. ground (arith, get-remove b c m);
      objects = λ c k. ground (arith, get-remove b c m);
    }

pub SameTable-refl {ℓ} : {V : Type ℓ} (t : Table V) → SameTable t t
SameTable-refl t = record { buckets = λ b. refl; objects = λ b k. refl }
