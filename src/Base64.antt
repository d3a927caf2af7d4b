-- ===== src/Base64.antt =====
-- What the program uses of Go's package encoding/base64: `StdEncoding`, with padding, for the
-- keys of a map in users/memory.go, and `RawURLEncoding`, without, between client/client.go and
-- router.go. Texts are lists of code points.
pub mod RoundTrip
pub mod Injective
use secure_store.Effects.{◌>>◌}
use secure_store.Effects.Reader.{Bytes}
use secure_store.Prelude.{
  List, Option, [], if◌then◌else◌, leb, ltb, nat_eq, none, some, ℕ, ◌%◌, ◌&&◌, ◌*◌, ◌+◌, ◌-◌, ◌/◌,
  ◌||◌, ◌∷◌,
}

-- The symbol of six bits; `s62` and `s63` are the two in which the alphabets differ.
unfoldable pub symbol : ℕ → ℕ → ℕ → ℕ
symbol s62 s63 v =
    if ltb v 26
    then b'A' + v
    else if ltb v 52
    then b'a' + (v - 26)
    else if ltb v 62
    then b'0' + (v - 52)
    else if nat_eq v 62
    then s62
    else s63

-- The bits that a symbol of `RawURLEncoding` stands for.
unfoldable pub value_of : ℕ → Option ℕ
value_of c =
    if leb b'A' c && leb c b'Z'
    then some (c - b'A')
    else if leb b'a' c && leb c b'z'
    then some (c - b'a' + 26)
    else if leb b'0' c && leb c b'9'
    then some (c - b'0' + 52)
    else if nat_eq c b'-'
    then some 62
    else if nat_eq c b'_'
    then some 63
    else none

abbrev std : ℕ → ℕ
std = symbol b'+' b'/'

abbrev url : ℕ → ℕ
url = symbol b'-' b'_'

unfoldable pub encode_std : Bytes → List ℕ
encode_std [] = []
encode_std (a ∷ []) = std (a / 4) ∷ std ((a % 4) * 16) ∷ b'=' ∷ b'=' ∷ []
encode_std (a ∷ b ∷ []) = std (a / 4) ∷ std ((a % 4) * 16 + b / 16) ∷ std ((b % 16) * 4) ∷ b'=' ∷ []
encode_std (a ∷ b ∷ c ∷ rest) =
    std (a / 4)
    ∷ std ((a % 4) * 16 + b / 16)
    ∷ std ((b % 16) * 4 + c / 64)
    ∷ std (c % 64)
    ∷ encode_std rest

unfoldable pub encode_raw_url : Bytes → List ℕ
encode_raw_url [] = []
encode_raw_url (a ∷ []) = url (a / 4) ∷ url ((a % 4) * 16) ∷ []
encode_raw_url (a ∷ b ∷ []) = url (a / 4) ∷ url ((a % 4) * 16 + b / 16) ∷ url ((b % 16) * 4) ∷ []
encode_raw_url (a ∷ b ∷ c ∷ rest) =
    url (a / 4)
    ∷ url ((a % 4) * 16 + b / 16)
    ∷ url ((b % 16) * 4 + c / 64)
    ∷ url (c % 64)
    ∷ encode_raw_url rest

infixl 10 ◌>>=◌
abbrev ◌>>=◌ : {A B : Type 0} → Option A → (A → Option B) → Option B
none >>= k = none
some a >>= k = k a

-- A last group of one symbol is an error; the spare bits of a shorter last group are not read.
unfoldable pub decode_groups : List ℕ → Option Bytes
decode_groups [] = some []
decode_groups (w ∷ []) = none
decode_groups (w ∷ x ∷ []) = do p ← value_of w; q ← value_of x; some ((p * 4 + q / 16) ∷ [])
decode_groups (w ∷ x ∷ y ∷ []) = do
  p ← value_of w
  q ← value_of x
  r ← value_of y
  some ((p * 4 + q / 16) ∷ ((q % 16) * 16 + r / 4) ∷ [])
decode_groups (w ∷ x ∷ y ∷ z ∷ rest) = do
  p ← value_of w
  q ← value_of x
  r ← value_of y
  t ← value_of z
  more ← decode_groups rest
  some ((p * 4 + q / 16) ∷ ((q % 16) * 16 + r / 4) ∷ ((r % 4) * 64 + t) ∷ more)

-- Line ends in the text are skipped.
unfoldable pub without_line_ends : List ℕ → List ℕ
without_line_ends [] = []
without_line_ends (c ∷ cs) =
    let rest = without_line_ends cs in if nat_eq c 10 || nat_eq c 13 then rest else c ∷ rest

unfoldable pub decode_raw_url : List ℕ → Option Bytes
unfolding without_line_ends decode_groups
decode_raw_url cs = decode_groups (without_line_ends cs)
