-- ===== src/Cipher/RoundTrip.antt =====
-- Reading a stored object back through `CreateStreamReader` of storeend.go with the same key.
use Prim.Native.Nat.{bit_xor}
use mathlib.Core.Path.{ap₂}
use secure_store.Cipher.{create_stream_reader, key_stream, output_block, valid_key_size, xor_reader}
use secure_store.Effects.{Error, Outcome, err, ok, panic}
use secure_store.Effects.Reader.{
  Bytes, Reader, eof, fault, new_reader, next, nil_reader, read_all, read_all-new_reader,
}
use secure_store.ObjectTable.{stored}
use secure_store.Prelude.{
  All, Bool, Bool-cases, List, [], all, arith, false, get_or-All, inl, inr, nat_eq, nat_eq_iff,
  refl, suc, true, zero, ℕ, ◌%◌, ◌/◌, ◌<◌, ◌∷◌, ◌≡◌,
}
use secure_store.Prelude.Eq.{bytes_Eq, string_Eq}

abbrev below : ℕ → List ℕ
below zero = []
below (suc n) = n ∷ below n

holds_below : (p : ℕ → Bool) (x n : ℕ) → x < n → all p (below n) ≡ true → p x ≡ true
holds_below p x zero lt h = ground arith
holds_below p x (suc n) lt h = ground (arith, holds_below p x n)

-- Every byte against every byte of key stream.
abbrev restores : ℕ → ℕ → Bool
restores k b = nat_eq (bit_xor (bit_xor b k) k) b

xor_table : all (λ k. all (restores k) (below 256)) (below 256) ≡ true
xor_table = refl

abbrev pub IsByte : ℕ → Type 0
IsByte b = b < 256

pub xor_twice : (b k : ℕ) → IsByte b → IsByte k → bit_xor (bit_xor b k) k ≡ b
xor_twice b k hb hk =
    let row = holds_below (λ k. all (restores k) (below 256)) k 256 hk xor_table in
    (nat_eq_iff _ b).0 (holds_below (restores k) b 256 hb row)

module _ (encrypt : Bytes → Bytes → Bytes) where
  xor_bytes : Bytes → ℕ → Bytes → Bytes
  xor_bytes key i [] = []
  xor_bytes key i (b ∷ bs) = bit_xor b (key_stream encrypt key i) ∷ xor_bytes key (suc i) bs

  abbrev xored : Bytes → ℕ → Outcome Bytes → Outcome Bytes
  xored key i (ok bs) = ok (xor_bytes key i bs)
  xored key i (err e) = err e
  xored key i panic = panic

  read_all-xor_reader :
      (key : Bytes) (i : ℕ) (r : Reader)
      → read_all (xor_reader encrypt key i r) ≡ xored key i (read_all r)
  unfolding read_all xor_reader xor_bytes
  read_all-xor_reader key i eof = refl
  read_all-xor_reader key i (fault e) = refl
  read_all-xor_reader key i nil_reader = refl
  read_all-xor_reader key i (next b r) = ground (arith, read_all-xor_reader key (suc i) r)

  -- With a key of a valid length, a reader that ends well is enciphered to its end.
  pub create_stream_reader-ok :
      (key : Bytes) (r : Reader) (plain : Bytes)
      → valid_key_size key ≡ true
      → read_all r ≡ ok plain
      → (stored : Bytes) × (read_all (create_stream_reader encrypt key r) ≡ ok stored)
  unfolding create_stream_reader
  create_stream_reader-ok key r plain v p =
      (xor_bytes key 0 plain, rw v (ground (arith, read_all-xor_reader key 0 r)))

  -- A fault of the reader is passed on.
  pub create_stream_reader-err :
      (key : Bytes) (r : Reader) (e : Error)
      → valid_key_size key ≡ true
      → read_all r ≡ err e
      → read_all (create_stream_reader encrypt key r) ≡ err e
  unfolding create_stream_reader
  create_stream_reader-err key r e v p = rw v (ground (arith, read_all-xor_reader key 0 r))

  -- A key of another length makes a reader from which no object can be stored.
  pub create_stream_reader-panic :
      (key : Bytes) (r : Reader)
      → valid_key_size key ≡ false
      → read_all (create_stream_reader encrypt key r) ≡ panic
  unfolding create_stream_reader read_all
  create_stream_reader-panic key r n = rw n refl

module _ (encrypt : Bytes → Bytes → Bytes) (bytes : (k x : Bytes) → All IsByte (encrypt k x)) where
  key_stream-IsByte : (key : Bytes) (i : ℕ) → IsByte (key_stream encrypt key i)
  unfolding key_stream
  key_stream-IsByte key i =
      get_or-All IsByte (encrypt key (output_block encrypt key (i / 16))) (i % 16) 0 (bytes key _)
        (omega arith)

  xor_bytes_twice :
      (key : Bytes) (i : ℕ) (bs : Bytes)
      → All IsByte bs
      → xor_bytes encrypt key i (xor_bytes encrypt key i bs) ≡ bs
  unfolding xor_bytes
  xor_bytes_twice key i [] h = refl
  xor_bytes_twice key i (b ∷ bs) h =
      ap₂ ◌∷◌ (xor_twice b _ h.0 (key_stream-IsByte key i)) (xor_bytes_twice key (suc i) bs h.1)

  -- Under a block cipher on bytes: if a reader gives the bytes `plain`, and reading it through
  -- `create_stream_reader` succeeds with `stored`, then reading `stored` through
  -- `create_stream_reader` with the same key gives `plain`.
  pub decrypt-encrypt :
      (key : Bytes) (r : Reader) (plain stored : Bytes)
      → All IsByte plain
      → read_all r ≡ ok plain
      → read_all (create_stream_reader encrypt key r) ≡ ok stored
      → read_all (create_stream_reader encrypt key (new_reader stored)) ≡ ok plain
  unfolding create_stream_reader read_all
  decrypt-encrypt key r plain stored h p s = elim (Bool-cases (valid_key_size key)) [
    | inl v ↦ rw v (
        ground (
          arith,
          xor_bytes_twice key 0 plain h,
          read_all-xor_reader encrypt key 0 r,
          read_all-xor_reader encrypt key 0 (new_reader stored),
          read_all-new_reader stored,
        ))
    | inr n ↦ ground arith
  ]
