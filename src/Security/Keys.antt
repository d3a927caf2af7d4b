-- ===== src/Security/Keys.antt =====
-- `NewEncryptionKey` of security/security.go. `rand.Read` is a parameter: given the length of the
-- buffer it answers with the bytes that it puts there and the count of bytes that it reports, or
-- fails.
use secure_store.Cipher.{valid_key_size}
use secure_store.Effects.{Outcome, Outcome-cases, err, ok, panic}
use secure_store.Effects.Reader.{Bytes}
use secure_store.Prelude.{
  Bool-cases, [], ap, arith, if◌then◌else◌, inl, inr, length, nat_eq, not, suc, sym, true, zero, ℕ,
  ◌∙◌, ◌∷◌, ◌≡◌,
}
use secure_store.Security.{EncryptionKey}

-- `make([]byte, n)`
abbrev pub make : ℕ → Bytes
make zero = []
make (suc n) = 0 ∷ make n

-- A buffer after bytes were put there: it keeps its length, and behind the bytes what it held.
abbrev pub fill_buffer : Bytes → Bytes → Bytes
fill_buffer [] xs = []
fill_buffer (b ∷ bs) [] = b ∷ bs
fill_buffer (b ∷ bs) (x ∷ xs) = x ∷ fill_buffer bs xs

length-fill_buffer : (bs xs : Bytes) → length (fill_buffer bs xs) ≡ length bs
length-fill_buffer [] xs = omega arith
length-fill_buffer (b ∷ bs) [] = omega arith
length-fill_buffer (b ∷ bs) (x ∷ xs) = ap suc (length-fill_buffer bs xs)

module _ (rand_read : ℕ → Outcome (Bytes × ℕ)) where
  -- What is done with the answer for a buffer.
  unfoldable checked : Bytes → Outcome (Bytes × ℕ) → Outcome EncryptionKey
  checked buffer (ok (read, l)) =
      let key_data = fill_buffer buffer read in
      if not (nat_eq (length key_data) l) then panic else ok (record { key = key_data })
  checked buffer (err e) = panic
  checked buffer panic = panic

  unfoldable pub new_encryption_key : Outcome EncryptionKey
  unfolding checked
  new_encryption_key = let key_data = make 32 in checked key_data (rand_read (length key_data))

  checked-ok :
      (read : Bytes) (l : ℕ) (key : EncryptionKey)
      → checked (make 32) (ok (read, l)) ≡ ok key
      → (l ≡ 32) × (key.key ≡ fill_buffer (make 32) read)
  unfolding checked
  checked-ok read l key e = elim (Bool-cases (nat_eq (length (fill_buffer (make 32) read)) l)) [
    | inl q ↦ (ground (arith, length-fill_buffer (make 32) read), ground arith)
    | inr q ↦ ground arith
  ]

  -- If `new_encryption_key` returns a key, then the source of randomness, asked for 32 bytes,
  -- reported that it read 32, the key is the buffer of 32 zeros with what was read put into it,
  -- and it has 32 bytes, a length that AES takes.
  pub valid_key_size-new_encryption_key :
      (key : EncryptionKey)
      → new_encryption_key ≡ ok key
      → (read : Bytes) × (rand_read 32 ≡ ok (read, 32))
        × (key.key ≡ fill_buffer (make 32) read)
        × (length key.key ≡ 32)
        × (valid_key_size key.key ≡ true)
  unfolding new_encryption_key checked
  valid_key_size-new_encryption_key key e = elim (Outcome-cases (rand_read 32)) [
    | inl ((read, l), q) ↦
        let taken : checked (make 32) (ok (read, l)) ≡ ok key =
          ap (checked (make 32)) (sym q) ∙ e in
        let (full, filled) = checked-ok read l key taken in
        let size : length key.key ≡ 32 = ap length filled ∙ length-fill_buffer (make 32) read in
        (read, q ∙ ap (λ m. ok (read, m)) full, filled, size, ground arith)
    | inr (inl q) ↦ ground arith
    | inr (inr (x, q)) ↦ ground arith
  ]
