-- ===== src/Tests/Accounts.antt =====
-- Users.
use secure_store.Users.Memory as UserMemory
use secure_store.Base64.{encode_std, symbol}
use secure_store.Cipher.RoundTrip.{IsByte}
use secure_store.Effects.{Outcome, err, ok, user_with_username_already_exists}
use secure_store.Effects.Reader.{Bytes}
use secure_store.GoMap.{get, has, put, remove}
use secure_store.Prelude.{
  All, Bool-cases, String, [], arith, codes, false, inl, inr, refl, subst, suc, true, zero, ℕ, ◌++◌,
  ◌∷◌, ◌≡◌,
}
use secure_store.Prelude.Eq.{bytes_Eq, string_Eq, ◌==◌}
use secure_store.Regexp.{match_all}
use secure_store.Tests.Samples.{a_role, ann, bytes_of, with_ann}
use secure_store.Users.{User, UserJson, Uuid, name_exp, verify_api_key}
use secure_store.Users.Memory.Index.{
  ByteKeys, Indexed, create-Indexed, create-delete, new_memory_store-Indexed,
  verify_api_key-resolve_by_api_key,
}

-- Another user who takes the name of the first.
abbrev ann_again : User
ann_again = record ann { id = 2 ∷ []; api_key = 7 ∷ 8 ∷ [] }

ann_created : UserMemory.create ann UserMemory.new_memory_store ≡ (ok tt, with_ann)
unfolding UserMemory.create UserMemory.new_memory_store has
ann_created = refl

create-Indexed_example : Indexed (UserMemory.create ann UserMemory.new_memory_store).1
create-Indexed_example = create-Indexed ann UserMemory.new_memory_store new_memory_store-Indexed

ann_found : UserMemory.resolve_by_api_key ann.api_key with_ann ≡ ok ann
unfolding UserMemory.create UserMemory.new_memory_store has put UserMemory.resolve_by_api_key
    encode_std symbol
ann_found = refl

ann-ByteKeys : ByteKeys with_ann
unfolding UserMemory.create UserMemory.new_memory_store has put get
ann-ByteKeys id u e = elim (Bool-cases (ann.id == id)) [
  | inl t ↦
      let same : ann ≡ u = ground arith in
      subst (λ (x : User). All IsByte x.api_key) same (bytes_of ann.api_key refl)
  | inr f ↦ ground arith
]

verify_api_key-resolve_by_api_key_example : verify_api_key ann ann.api_key ≡ true
verify_api_key-resolve_by_api_key_example =
    verify_api_key-resolve_by_api_key ann.api_key with_ann ann create-Indexed_example ann-ByteKeys
      (bytes_of ann.api_key refl) ann_found

abbrev without_ann : UserMemory.MemoryStore
without_ann = (UserMemory.delete ann.id with_ann).1

ids_free :
    (has ann_again.id without_ann.user_by_id ≡ false)
    × (has (encode_std ann_again.api_key) without_ann.uuid_by_api_key ≡ false)
unfolding UserMemory.create UserMemory.new_memory_store has put remove UserMemory.delete encode_std
    symbol
ids_free = (refl, refl)

create-delete_example :
    UserMemory.create ann_again without_ann ≡ (err user_with_username_already_exists, without_ann)
create-delete_example =
    create-delete ann ann_again UserMemory.new_memory_store with_ann ann_created refl ids_free.0
      ids_free.1

abbrev a_user_json : UserJson
a_user_json = record {
  id = "1";
  name = "Ann";
  role = a_role;
  username = "ann";
  password_hash = 9 ∷ [];
  api_key = 5 ∷ 6 ∷ [];
}

abbrev parsed : String → Outcome Uuid
parsed text = ok (codes text)

abbrev zeros : ℕ → Outcome Bytes
zeros zero = ok []
zeros (suc n) = ok (0 ∷ [])

abbrev salted : Bytes → Bytes → Bytes
salted password salt = password ++ salt

abbrev made_user : User
made_user = record {
  id = codes "1";
  name = "Ann";
  role = a_role;
  username = "ann";
  password_hash = 9 ∷ 0 ∷ [];
  password_salt = 0 ∷ [];
  api_key = 5 ∷ 6 ∷ [];
  belonging_keys = [];
}

name_with_space : match_all name_exp (codes "Ann Lee") ≡ true
unfolding name_exp match_all
name_with_space = refl
