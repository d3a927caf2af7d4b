-- ===== src/Base64/Injective.antt =====
-- The standard base64 texts as keys of the map of users/memory.go.
use mathlib.Core.Path.{ap₂}
use secure_store.Base64.{encode_std, std, symbol}
use secure_store.Cipher.RoundTrip.{IsByte}
use secure_store.Effects.Reader.{Bytes}
use secure_store.Prelude.{All, [], ap, arith, refl, ℕ, ◌%◌, ◌*◌, ◌+◌, ◌/◌, ◌<◌, ◌∷◌, ◌≡◌, ◌≢◌}

std_injective : (u v : ℕ) → u < 64 → v < 64 → std u ≡ std v → u ≡ v
unfolding symbol
std_injective u v a b e = ground arith

std-ne-pad : (v : ℕ) → v < 64 → std v ≢ b'='
unfolding symbol
std-ne-pad v a e = ground arith

-- Two byte strings with the same standard base64 text are equal.
pub encode_std-injective :
    (xs ys : Bytes) → All IsByte xs → All IsByte ys → encode_std xs ≡ encode_std ys → xs ≡ ys
unfolding encode_std
encode_std-injective [] [] h k e = refl
encode_std-injective [] (x ∷ []) h k e = cc
encode_std-injective [] (x ∷ y ∷ []) h k e = cc
encode_std-injective [] (x ∷ y ∷ z ∷ ys) h k e = cc
encode_std-injective (a ∷ []) [] h k e = cc
encode_std-injective (a ∷ []) (x ∷ []) h k e =
    let p = std_injective (a / 4) (x / 4) (omega arith) (omega arith) (cc) in
    let q = std_injective ((a % 4) * 16) ((x % 4) * 16) (omega arith) (omega arith) (cc) in
    ap (λ n. n ∷ []) (omega arith)
encode_std-injective (a ∷ []) (x ∷ y ∷ []) h k e =
    absurd (std-ne-pad ((y % 16) * 4) (omega arith) (cc))
encode_std-injective (a ∷ []) (x ∷ y ∷ z ∷ ys) h k e =
    absurd (std-ne-pad ((y % 16) * 4 + z / 64) (omega arith) (cc))
encode_std-injective (a ∷ b ∷ []) [] h k e = cc
encode_std-injective (a ∷ b ∷ []) (x ∷ []) h k e =
    absurd (std-ne-pad ((b % 16) * 4) (omega arith) (cc))
encode_std-injective (a ∷ b ∷ []) (x ∷ y ∷ []) h k e =
    let p = std_injective (a / 4) (x / 4) (omega arith) (omega arith) (cc) in
    let q =
      std_injective ((a % 4) * 16 + b / 16) ((x % 4) * 16 + y / 16) (omega arith) (omega arith)
        (cc) in
    let r = std_injective ((b % 16) * 4) ((y % 16) * 4) (omega arith) (omega arith) (cc) in
    ap₂ (λ m n. m ∷ n ∷ []) (omega arith) (omega arith)
encode_std-injective (a ∷ b ∷ []) (x ∷ y ∷ z ∷ ys) h k e =
    absurd (std-ne-pad (z % 64) (omega arith) (cc))
encode_std-injective (a ∷ b ∷ c ∷ xs) [] h k e = cc
encode_std-injective (a ∷ b ∷ c ∷ xs) (x ∷ []) h k e =
    absurd (std-ne-pad ((b % 16) * 4 + c / 64) (omega arith) (cc))
encode_std-injective (a ∷ b ∷ c ∷ xs) (x ∷ y ∷ []) h k e =
    absurd (std-ne-pad (c % 64) (omega arith) (cc))
encode_std-injective (a ∷ b ∷ c ∷ xs) (x ∷ y ∷ z ∷ ys) h k e =
    let p = std_injective (a / 4) (x / 4) (omega arith) (omega arith) (cc) in
    let q =
      std_injective ((a % 4) * 16 + b / 16) ((x % 4) * 16 + y / 16) (omega arith) (omega arith)
        (cc) in
    let r =
      std_injective ((b % 16) * 4 + c / 64) ((y % 16) * 4 + z / 64) (omega arith) (omega arith)
        (cc) in
    let t = std_injective (c % 64) (z % 64) (omega arith) (omega arith) (cc) in
    let rest = encode_std-injective xs ys h.1.1.1 k.1.1.1 (cc) in
    three (omega arith) (omega arith) (omega arith) rest
  where
    three : a ≡ x → b ≡ y → c ≡ z → xs ≡ ys → a ∷ b ∷ c ∷ xs ≡ x ∷ y ∷ z ∷ ys
    three e f g i = cc
