-- ===== src/Base64/RoundTrip.antt =====
-- Encoding for a URL, as in client/client.go, and decoding, as in router.go.
use mathlib.Core.Path.{ap₂}
use secure_store.Base64.{
  decode_groups, decode_raw_url, encode_raw_url, symbol, url, value_of, without_line_ends,
}
use secure_store.Cipher.RoundTrip.{IsByte}
use secure_store.Effects.Reader.{Bytes}
use secure_store.Prelude.{
  All, Option, [], ap, arith, false, nat_eq, refl, some, ℕ, ◌%◌, ◌*◌, ◌+◌, ◌/◌, ◌<◌, ◌||◌, ◌∷◌, ◌≡◌,
}

value_of-url : (v : ℕ) → v < 64 → value_of (url v) ≡ some v
unfolding value_of symbol
value_of-url v h = ground arith

url_printable : (v : ℕ) → v < 64 → (nat_eq (url v) 10 || nat_eq (url v) 13) ≡ false
unfolding symbol
url_printable v h = ground arith

decode-encode_groups : (bs : Bytes) → All IsByte bs → decode_groups (encode_raw_url bs) ≡ some bs
unfolding decode_groups encode_raw_url
decode-encode_groups [] h = refl
decode-encode_groups (a ∷ []) h =
    rw (value_of-url (a / 4) (omega arith), value_of-url ((a % 4) * 16) (omega arith))
      (ap (λ x. some (x ∷ [])) (omega arith))
decode-encode_groups (a ∷ b ∷ []) h =
    rw
      (
        value_of-url (a / 4) (omega arith),
        value_of-url ((a % 4) * 16 + b / 16) (omega arith),
        value_of-url ((b % 16) * 4) (omega arith),
      )
      (ap₂ (λ x y. some (x ∷ y ∷ [])) (omega arith) (omega arith))
decode-encode_groups (a ∷ b ∷ c ∷ rest) h =
    rw
      (
        value_of-url (a / 4) (omega arith),
        value_of-url ((a % 4) * 16 + b / 16) (omega arith),
        value_of-url ((b % 16) * 4 + c / 64) (omega arith),
        value_of-url (c % 64) (omega arith),
        decode-encode_groups rest h.1.1.1,
      )
      (three (omega arith) (omega arith) (omega arith))
  where
    three :
        {x y z : ℕ}
        → x ≡ a
        → y ≡ b
        → z ≡ c
        → ◌≡◌ {A = Option Bytes} (some (x ∷ y ∷ z ∷ rest)) (some (a ∷ b ∷ c ∷ rest))
    three e f g = cc

encoded_printable :
    (bs : Bytes) → All IsByte bs → without_line_ends (encode_raw_url bs) ≡ encode_raw_url bs
unfolding without_line_ends encode_raw_url
encoded_printable [] h = refl
encoded_printable (a ∷ []) h =
    rw (url_printable (a / 4) (omega arith), url_printable ((a % 4) * 16) (omega arith)) refl
encoded_printable (a ∷ b ∷ []) h =
    rw
      (
        url_printable (a / 4) (omega arith),
        url_printable ((a % 4) * 16 + b / 16) (omega arith),
        url_printable ((b % 16) * 4) (omega arith),
      )
      refl
encoded_printable (a ∷ b ∷ c ∷ rest) h =
    rw
      (
        url_printable (a / 4) (omega arith),
        url_printable ((a % 4) * 16 + b / 16) (omega arith),
        url_printable ((b % 16) * 4 + c / 64) (omega arith),
        url_printable (c % 64) (omega arith),
        encoded_printable rest h.1.1.1,
      )
      refl

-- Decoding the unpadded URL text of any byte string gives the byte string.
pub decode-encode_raw_url :
    (bs : Bytes) → All IsByte bs → decode_raw_url (encode_raw_url bs) ≡ some bs
unfolding decode_raw_url
decode-encode_raw_url bs h = rw (encoded_printable bs h) (decode-encode_groups bs h)
