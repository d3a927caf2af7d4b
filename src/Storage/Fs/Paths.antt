-- ===== src/Storage/Fs/Paths.antt =====
-- The paths of storage/fs.go for ids that sanitizer.go accepts.
use Prim.Native.String
use mathlib.Core.List.{append_assoc}
use secure_store.Prelude.{
  List, String, [], all, ap, arith, codes, refl, sym, true, ℕ, ◌++◌, ◌∙◌, ◌∷◌, ◌≡◌,
}
use secure_store.Sanitizer.{match_string, new_matcher}
use secure_store.Sanitizer.Accepted.{id_char, match_string-id_char}
use secure_store.Storage.Fs.{get_root_key, slashed}
use secure_store.Text.{codes-append, codes-injective}

codes-slashed : (a b : String) → codes (slashed a b) ≡ codes a ++ (b'/' ∷ codes b)
codes-slashed a b = rw (codes-append a (String.◌++◌ "/" b), codes-append "/" b) refl

cancel_left : (xs ys zs : List ℕ) → xs ++ ys ≡ xs ++ zs → ys ≡ zs
cancel_left [] ys zs e = e
cancel_left (x ∷ xs) ys zs e = cancel_left xs ys zs (cc)

-- The text before the first slash, and the text behind it, are determined.
cut_at_slash :
    (xs ys xs' ys' : List ℕ)
    → all id_char xs ≡ true
    → all id_char xs' ≡ true
    → xs ++ (b'/' ∷ ys) ≡ xs' ++ (b'/' ∷ ys')
    → (xs ≡ xs') × (ys ≡ ys')
unfolding id_char
cut_at_slash [] ys [] ys' h h' e = (refl, cc)
cut_at_slash [] ys (x' ∷ xs') ys' h h' e = ground arith
cut_at_slash (x ∷ xs) ys [] ys' h h' e = ground arith
cut_at_slash (x ∷ xs) ys (x' ∷ xs') ys' h h' e = ground (arith, cut_at_slash xs ys xs' ys')

codes-get_root_key :
    (root b k : String)
    → codes (get_root_key root b k) ≡ codes root ++ (b'/' ∷ (codes b ++ (b'/' ∷ codes k)))
unfolding get_root_key
codes-get_root_key root b k = rw (codes-slashed, codes-slashed, append_assoc) refl

-- If two bucket ids are accepted by the sanitizer and the paths of two objects under one root are
-- equal, then the bucket ids are equal and the key ids are equal.
pub get_root_key_injective :
    (root b k b' k' : String)
    → match_string new_matcher b ≡ true
    → match_string new_matcher b' ≡ true
    → get_root_key root b k ≡ get_root_key root b' k'
    → (b ≡ b') × (k ≡ k')
get_root_key_injective root b k b' k' h h' e =
    let below_root : b'/' ∷ (codes b ++ (b'/' ∷ codes k)) ≡ b'/' ∷ (codes b' ++ (b'/' ∷ codes k')) =
      cancel_left (codes root) _ _
        (sym (codes-get_root_key root b k) ∙ ap codes e ∙ codes-get_root_key root b' k') in
    let (same_bucket, same_key) =
      cut_at_slash (codes b) (codes k) (codes b') (codes k') (match_string-id_char b h)
        (match_string-id_char b' h') (cc) in
    (codes-injective b b' same_bucket, codes-injective k k' same_key)
