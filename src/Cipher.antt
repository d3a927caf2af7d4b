-- ===== src/Cipher.antt =====
-- `CreateStreamReader` of storeend.go: AES in output feedback mode under the zero vector, as a
-- reader that xors the bytes of another. The block cipher itself, of crypto/aes, is a parameter:
-- `encrypt key block` is `block` under `key`.
pub mod RoundTrip
use Prim.Native.Nat.{bit_xor}
use secure_store.Effects.Reader.{Bytes, Reader, eof, fault, next, nil_reader}
use secure_store.Prelude.{
  Bool, [], get_or, if◌then◌else◌, length, nat_eq, suc, zero, ℕ, ◌%◌, ◌/◌, ◌||◌, ◌∷◌,
}

abbrev pub block_size : ℕ
block_size = 16

abbrev zero_bytes : ℕ → Bytes
zero_bytes zero = []
zero_bytes (suc n) = 0 ∷ zero_bytes n

-- `aes.NewCipher` accepts these lengths.
abbrev pub valid_key_size : Bytes → Bool
valid_key_size key = nat_eq (length key) 16 || nat_eq (length key) 24 || nat_eq (length key) 32

module _ (encrypt : Bytes → Bytes → Bytes) where
  -- The n-th output block: the vector, encrypted n times.
  output_block : Bytes → ℕ → Bytes
  output_block key zero = zero_bytes block_size
  output_block key (suc n) = encrypt key (output_block key n)

  -- The byte of the key stream that meets the i-th byte of the data.
  key_stream : Bytes → ℕ → ℕ
  unfolding output_block
  key_stream key i = get_or (output_block key (suc (i / block_size))) (i % block_size) 0

  -- `StreamReader.Read`, from the i-th byte on
  xor_reader : Bytes → ℕ → Reader → Reader
  xor_reader key i eof = eof
  xor_reader key i (fault e) = fault e
  xor_reader key i nil_reader = nil_reader
  xor_reader key i (next b r) = next (bit_xor b (key_stream key i)) (xor_reader key (suc i) r)

  unfoldable pub create_stream_reader : Bytes → Reader → Reader
  unfolding xor_reader key_stream
  create_stream_reader key data_reader =
      if valid_key_size key then xor_reader key 0 data_reader else nil_reader
