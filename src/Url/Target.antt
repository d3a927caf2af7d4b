-- ===== src/Url/Target.antt =====
-- The request target of a URL that a client puts together from the address of a server.
use mathlib.Core.List.{append_assoc}
use secure_store.Prelude.{
  [], all-append, ap, arith, false, nat_eq, not, refl, sym, true, ℕ, ◌&&◌, ◌++◌, ◌∷◌, ◌≡◌,
}
use secure_store.Text.{Text}
use secure_store.Url.{cut, drop_two, from_slash, lacks, parse_url}
use secure_store.Url.Fields.{cut_at, cut_none}

-- `scheme://host`, as in http://localhost:8080
pub record IsAddress (addr : Text) : Type 0 where
  pub scheme : Text
  pub host : Text
  pub scheme_plain : (lacks b':' scheme && lacks b'?' scheme && lacks b'#' scheme) ≡ true
  pub host_plain : (lacks b'/' host && lacks b'?' host && lacks b'#' host) ≡ true
  pub written : addr ≡ scheme ++ (b':' ∷ b'/' ∷ b'/' ∷ host)

from_slash-append :
    (host rest : Text) → lacks b'/' host ≡ true → from_slash (host ++ (b'/' ∷ rest)) ≡ b'/' ∷ rest
unfolding from_slash
from_slash-append [] rest h = refl
from_slash-append (x ∷ host) rest h = ground (arith, from_slash-append host rest)

address_lacks :
    (c : ℕ) (addr : Text) (a : IsAddress addr)
    → lacks c a.scheme ≡ true
    → lacks c a.host ≡ true
    → nat_eq b':' c ≡ false
    → nat_eq b'/' c ≡ false
    → lacks c addr ≡ true
address_lacks c addr a s h x y =
    rw a.written
      (ground (arith, all-append (λ x. not (nat_eq x c)) a.scheme (b':' ∷ b'/' ∷ b'/' ∷ a.host)))

module _ (addr : Text) (a : IsAddress addr) (path query : Text) (p : lacks b'?' path ≡ true)
    (p' : lacks b'#' path ≡ true) (q : lacks b'#' query ≡ true) where
  path_of : from_slash (drop_two (cut b':' (addr ++ (b'/' ∷ path))).1) ≡ b'/' ∷ path
  path_of =
      let scheme_lacks : lacks b':' a.scheme ≡ true = ground (arith, a.scheme_plain) in
      let host_lacks : lacks b'/' a.host ≡ true = ground (arith, a.host_plain) in
      rw a.written (
        rw (append_assoc a.scheme (b':' ∷ b'/' ∷ b'/' ∷ a.host) (b'/' ∷ path)) (
          rw (cut_at b':' a.scheme (b'/' ∷ b'/' ∷ (a.host ++ (b'/' ∷ path))) scheme_lacks)
            (from_slash-append a.host path host_lacks)))

  addr_lacks : (lacks b'?' addr ≡ true) × (lacks b'#' addr ≡ true)
  addr_lacks = (
    address_lacks b'?' addr a (ground (arith, a.scheme_plain)) (ground (arith, a.host_plain)) refl
        refl,
    address_lacks b'#' addr a (ground (arith, a.scheme_plain)) (ground (arith, a.host_plain)) refl
        refl,
  )

  target_lacks :
      (c : ℕ)
      → lacks c addr ≡ true
      → lacks c path ≡ true
      → nat_eq b'/' c ≡ false
      → lacks c (addr ++ (b'/' ∷ path)) ≡ true
  target_lacks c x y z = ground (arith, all-append (λ x. not (nat_eq x c)) addr (b'/' ∷ path))

  whole_lacks : lacks b'#' (addr ++ (b'/' ∷ (path ++ (b'?' ∷ query)))) ≡ true
  whole_lacks = ground (
    arith,
    addr_lacks.1,
    all-append (λ x. not (nat_eq x b'#')) addr (b'/' ∷ (path ++ (b'?' ∷ query))),
    all-append (λ x. not (nat_eq x b'#')) path (b'?' ∷ query),
  )

  pub parse_url-target :
      parse_url (addr ++ (b'/' ∷ (path ++ (b'?' ∷ query)))) ≡ (b'/' ∷ path, query)
  unfolding parse_url
  parse_url-target = rw (cut_none b'#' _ whole_lacks) (
      rw (sym (append_assoc addr (b'/' ∷ path) (b'?' ∷ query))) (
        rw (cut_at b'?' (addr ++ (b'/' ∷ path)) query (target_lacks b'?' addr_lacks.0 p refl))
          (ap (λ x. (x, query)) path_of)))

  pub parse_url-path : parse_url (addr ++ (b'/' ∷ path)) ≡ (b'/' ∷ path, [])
  unfolding parse_url
  parse_url-path =
      rw (cut_none b'#' _ (target_lacks b'#' addr_lacks.1 p' refl))
        (rw (cut_none b'?' _ (target_lacks b'?' addr_lacks.0 p refl)) (ap (λ x. (x, [])) path_of))
