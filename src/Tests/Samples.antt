-- ===== src/Tests/Samples.antt =====
-- Inputs that the tests share.
use secure_store.Compound.Memory.Stores
use secure_store.Users.Memory as UserMemory
use secure_store.Access.{AKey}
use secure_store.Cipher.RoundTrip.{IsByte}
use secure_store.Compound.Memory.Stores.{MemoryCompound, new_compound}
use secure_store.Effects.{external}
use secure_store.Effects.Reader.{Bytes, Reader, eof, fault, next}
use secure_store.Metadata.{Metadata}
use secure_store.Prelude.{
  All, [], all, arith, false, ltb, ltb→lt, refl, some, suc, true, zero, ℕ, ◌∷◌, ◌≡◌,
}
use secure_store.Prelude.Int.{pos}
use secure_store.Security.{EncryptionKey}
use secure_store.Users.{Role, User}

pub bytes_of : (bs : Bytes) → all (λ b. ltb b 256) bs ≡ true → All IsByte bs
bytes_of [] h = tt
bytes_of (b ∷ bs) h = (ltb→lt b 256 (ground arith), bytes_of bs (ground arith))

-- A block cipher that gives one block.
abbrev pub one_block : Bytes → Bytes → Bytes
one_block key block = 7 ∷ 1 ∷ 255 ∷ 16 ∷ 0 ∷ 32 ∷ 9 ∷ 4 ∷ 2 ∷ 3 ∷ 5 ∷ 6 ∷ 8 ∷ 10 ∷ 11 ∷ 12 ∷ []

pub one_block-IsByte : (key block : Bytes) → All IsByte (one_block key block)
one_block-IsByte key block = bytes_of (one_block key block) refl

abbrev pub a_key : EncryptionKey
a_key = record { key = 1 ∷ 2 ∷ 3 ∷ 4 ∷ 5 ∷ 6 ∷ 7 ∷ 8 ∷ 9 ∷ 10 ∷ 11 ∷ 12 ∷ 13 ∷ 14 ∷ 15 ∷ 16 ∷ [] }

abbrev pub a_metadata : Metadata
a_metadata = record { length = pos 3; filename = "notes.txt" }

-- Three bytes, and a transfer that breaks off behind two.
abbrev pub upload_body : Reader
upload_body = next 104 (next 105 (next 33 eof))

abbrev pub broken_body : Reader
broken_body = next 104 (next 105 (fault (external 1)))

abbrev pub sent_bytes : Bytes
sent_bytes = 104 ∷ 105 ∷ 33 ∷ []

-- A bucket, and an object in it.
abbrev pub with_bucket : MemoryCompound
with_bucket = (Stores.new_bucket one_block "ab" new_compound).1

abbrev pub with_object : MemoryCompound
with_object = (Stores.write one_block "ab" "cd" a_metadata a_key upload_body with_bucket).1

abbrev pub a_role : Role
a_role = record {
  root_user = false;
  can_create_users = false;
  can_add_keys = true;
  can_upload_data = true;
  can_delete_keys = false;
}

abbrev pub ann : User
ann = record {
  id = 1 ∷ [];
  name = "Ann";
  role = a_role;
  username = "ann";
  password_hash = [];
  password_salt = [];
  api_key = 5 ∷ 6 ∷ [];
  belonging_keys = [];
}

abbrev pub with_ann : UserMemory.MemoryStore
with_ann = (UserMemory.create ann UserMemory.new_memory_store).1

abbrev pub repeat : ℕ → ℕ → Bytes
repeat zero b = []
repeat (suc n) b = b ∷ repeat n b

abbrev pub unlock_key : Bytes
unlock_key = repeat 64 5

-- A key that wants `unlock_key`.
abbrev pub ordered_key : AKey
ordered_key = record {
  expires = true;
  ttl = some 100;
  limited = true;
  limit = 2;
  used_times = some 0;
  bucket_id = "ab";
  key_id = "cd";
  url_key = "link";
  needs_key = true;
  valid_keys = some (record { set = some ((unlock_key, tt) ∷ []) });
  resolve_by_url_key = false;
}
