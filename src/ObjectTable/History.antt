-- ===== src/ObjectTable/History.antt =====
-- The operations on a table of objects, on two representations of one table.
use secure_store.ObjectTable
use secure_store.Effects.{Outcome}
use secure_store.ObjectTable.{Agrees, SameTable, Table}
use secure_store.Prelude.{String, arith, ◌∙◌, ◌≡◌}
use secure_store.Prelude.Eq.{bytes_Eq, string_Eq}

module _ {ℓ} {V : Type ℓ} (t u : Table V) (h : SameTable t u) where
  pub new_bucket-SameTable :
      (b : String) → Agrees (ObjectTable.new_bucket b t) (ObjectTable.new_bucket b u)
  new_bucket-SameTable b = (
    ground (arith, h.buckets b),
    record {
      buckets = λ c. ground (arith, h.buckets b, h.buckets c);
      objects = λ c k. ground (arith, h.buckets b, h.objects c k);
    },
  )

  pub insert-SameTable :
      (b k : String) (o : Outcome V)
      → Agrees (ObjectTable.insert b k o t) (ObjectTable.insert b k o u)
  unfolding ObjectTable.stored
  insert-SameTable b k o = (
    ground (arith, h.buckets b, h.objects b k),
    record {
      buckets = λ c. ground (arith, h.buckets b, h.objects b k, h.buckets c);
      objects = λ c j. ground (arith, h.buckets b, h.objects b k, h.objects c j);
    },
  )

  pub find-SameTable : (b k : String) → ObjectTable.find b k t ≡ ObjectTable.find b k u
  find-SameTable b k = ground (arith, h.buckets b, h.objects b k)

  pub delete-SameTable :
      (b k : String) → Agrees (ObjectTable.delete b k t) (ObjectTable.delete b k u)
  delete-SameTable b k = (
    ground (arith, h.buckets b, h.objects b k),
    record {
      buckets = λ c. ground (arith, h.buckets b, h.objects b k, h.buckets c);
      objects = λ c j. ground (arith, h.buckets b, h.objects b k, h.objects c j);
    },
  )

  pub delete_bucket-SameTable :
      (b : String) → Agrees (ObjectTable.delete_bucket b t) (ObjectTable.delete_bucket b u)
  delete_bucket-SameTable b = (
    ground (arith, h.buckets b),
    record {
      buckets = λ c. ground (arith, h.buckets b, h.buckets c);
      objects = λ c k. ground (arith, h.buckets b, h.objects c k);
    },
  )

pub SameTable-trans {ℓ} :
    {V : Type ℓ} (t u w : Table V) → SameTable t u → SameTable u w → SameTable t w
SameTable-trans t u w p q = record {
  buckets = λ b. p.buckets b ∙ q.buckets b;
  objects = λ b k. p.objects b k ∙ q.objects b k;
}
