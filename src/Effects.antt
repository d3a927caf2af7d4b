-- ===== src/Effects.antt =====
-- How Go's results and effects are modelled: a call returns a value, returns an error, or panics;
-- a method also returns the object that it leaves, since what it wrote before an error stays
-- written. The error values are those of storage/storage.go, metadata/memory.go, access/access.go,
-- users/users.go, sanitizer.go, ireader.go and client/client.go, and gorm's `ErrRecordNotFound`;
-- `external` is an error of a library, a device or a reader.
pub mod Reader
use secure_store.Prelude.{Bool, String, false, inl, inr, refl, true, ℕ, ◌≡◌, ◌⊎◌}

pub data Error : Type 0 where
  bucket_does_not_exist bucket_already_exists : String → Error
  object_does_not_exists object_already_exists : String → Error
  there_is_no_bucket : Error
  key_already_exists key_doesnt_exist : String → Error
  ttl_already_expired : ℕ → Error
  wrong_key_length : Error
  name_is_an_issue username_is_an_issue password_hash_has_wrong_length : Error
  api_key_has_wrong_length : Error
  user_already_exists user_doesnt_exist : Error
  user_with_api_key_already_exists user_with_api_key_doesnt_exist : Error
  user_with_username_already_exists user_with_username_doesnt_exist : Error
  bucket_id_matching key_id_matching url_key_matching : Error
  access_forbidden wrong_content_type key_not_decoded key_is_invalid : Error
  contains_files_but_no_config : Error
  unexpected_status unexpected_pong record_not_found reader_closed : Error
  external : ℕ → Error

pub data Outcome {ℓ} (A : Type ℓ) : Type ℓ where
  ok : A → Outcome A
  err : Error → Outcome A
  panic : Outcome A

-- A method of an object of type `S`.
abbrev pub Exec {ℓ} : Type ℓ → Type ℓ → Type ℓ
Exec S A = S → Outcome A × S

module _ {ℓ} {S A B : Type ℓ} where
  abbrev pub continue : Outcome A → (A → Exec S B) → Exec S B
  continue (ok a) f s = f a s
  continue (err e) f s = (err e, s)
  continue panic f s = (panic, s)

  infixl 10 ◌>>=◌ ◌>>◌
  -- `if err != nil { return err }` after a call
  abbrev pub ◌>>=◌ : Exec S A → (A → Exec S B) → Exec S B
  ◌>>=◌ m f s = continue (m s).0 f (m s).1

  abbrev pub ◌>>◌ : Exec S A → Exec S B → Exec S B
  m >> n = m >>= λ _. n

module _ {ℓ} {S A : Type ℓ} where
  abbrev pub pure : A → Exec S A
  pure a s = (ok a, s)

  abbrev pub raise : Error → Exec S A
  raise e s = (err e, s)

  abbrev pub lift : Outcome A → Exec S A
  lift o s = (o, s)

abbrev pub returns_ok {ℓ} : {A : Type ℓ} → Outcome A → Bool
returns_ok (ok a) = true
returns_ok (err e) = false
returns_ok panic = false

pub Outcome-cases {ℓ} :
    {A : Type ℓ} (o : Outcome A)
    → ((a : A) × (o ≡ ok a)) ⊎ ((o ≡ panic) ⊎ ((e : Error) × (o ≡ err e)))
Outcome-cases (ok a) = inl (a, refl)
Outcome-cases (err e) = inr (inr (e, refl))
Outcome-cases panic = inr (inl refl)
