-- ===== src/Tests/Texts.antt =====
-- Patterns, paths and base64.
use secure_store.Base64.{encode_raw_url, encode_std, symbol}
use secure_store.Cipher.RoundTrip.{IsByte}
use secure_store.Effects.Reader.{Bytes}
use secure_store.Prelude.{All, List, String, [], all, codes, false, refl, true, ℕ, ◌++◌, ◌∷◌, ◌≡◌}
use secure_store.Regexp.{match_all}
use secure_store.Sanitizer.{match_string, new_matcher}
use secure_store.Sanitizer.Accepted.{id_char, match_string-ends, small_letter}
use secure_store.Storage.Fs.Paths.{get_root_key_injective}
use secure_store.Tests.Samples.{bytes_of}

abbrev object_id : String
object_id = "report"

abbrev few_bytes : Bytes
few_bytes = 0 ∷ 250 ∷ 17 ∷ 255 ∷ []

few_bytes-IsByte : All IsByte few_bytes
few_bytes-IsByte = bytes_of few_bytes refl

abbrev an_id : String
an_id = "my-bucket-2a"

an_id_accepted : match_string new_matcher an_id ≡ true
unfolding match_string new_matcher match_all
an_id_accepted = refl

slash_refused : match_string new_matcher "my/bucket" ≡ false
unfolding match_string new_matcher match_all
slash_refused = refl

match_string-ends_example :
    (first : ℕ) × (middle : List ℕ) × (last : ℕ) × (codes an_id ≡ first ∷ (middle ++ (last ∷ [])))
    × (small_letter first ≡ true)
    × (all id_char middle ≡ true)
    × (small_letter last ≡ true)
match_string-ends_example = match_string-ends an_id an_id_accepted

get_root_key_injective_example : (an_id ≡ an_id) × (object_id ≡ object_id)
get_root_key_injective_example =
    get_root_key_injective "root" an_id object_id an_id object_id an_id_accepted an_id_accepted refl

encode_raw_url_text : encode_raw_url few_bytes ≡ codes "APoR_w"
unfolding encode_raw_url symbol
encode_raw_url_text = refl

encode_std_text : encode_std few_bytes ≡ codes "APoR/w=="
unfolding encode_std symbol
encode_std_text = refl
