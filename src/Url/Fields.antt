-- ===== src/Url/Fields.antt =====
-- Queries of unreserved characters, written and read.
use mathlib.Core.List.{append_assoc}
use secure_store.Prelude.{
  All, Bool, Bool-cases, List, [], all, all-append, ap, arith, false, inl, inr, leb, nat_eq,
  nat_eq_iff, not, refl, some, subst, sym, true, ℕ, ◌&&◌, ◌++◌, ◌||◌, ◌∷◌, ◌≡◌,
}
use secure_store.Text.{Text}
use secure_store.Url.{
  cut, field, fields, is_nil, lacks, parse_query, pieces, unescape, unescape_from,
}

-- Small and capital letters, digits, the hyphen and the underscore.
abbrev pub url_char : ℕ → Bool
url_char c =
    (leb b'a' c && leb c b'z')
    || (leb b'A' c && leb c b'Z')
    || (leb b'0' c && leb c b'9')
    || nat_eq c b'-'
    || nat_eq c b'_'

-- `name=value`, and several of it with ampersands between.
abbrev pub join_fields : List (Text × Text) → Text
join_fields [] = []
join_fields ((k, v) ∷ []) = k ++ (b'=' ∷ v)
join_fields ((k, v) ∷ f ∷ fs) = k ++ (b'=' ∷ (v ++ (b'&' ∷ join_fields (f ∷ fs))))

pub cut-append :
    (c : ℕ) (xs ys : Text)
    → lacks c xs ≡ true
    → cut c (xs ++ ys) ≡ (xs ++ (cut c ys).0, (cut c ys).1)
unfolding cut
cut-append c [] ys h = refl
cut-append c (x ∷ xs) ys h = ground (arith, cut-append c xs ys)

pub cut_at : (c : ℕ) (xs ys : Text) → lacks c xs ≡ true → cut c (xs ++ (c ∷ ys)) ≡ (xs, ys)
unfolding cut
cut_at c [] ys h = ground arith
cut_at c (x ∷ xs) ys h = ground (arith, cut_at c xs ys)

pub cut_none : (c : ℕ) (xs : Text) → lacks c xs ≡ true → cut c xs ≡ (xs, [])
unfolding cut
cut_none c [] h = refl
cut_none c (x ∷ xs) h = ground (arith, cut_none c xs)

url_char-ne : (c x : ℕ) → url_char c ≡ false → url_char x ≡ true → nat_eq x c ≡ false
url_char-ne c x n h = elim (Bool-cases (nat_eq x c)) [
  | inl e ↦ let same : x ≡ c = (nat_eq_iff x c).0 e in cc (subst (λ y. url_char y ≡ true) same h)
  | inr e ↦ e
]

all-cons :
    (x : ℕ) (xs : Text)
    → all url_char (x ∷ xs) ≡ true
    → (url_char x ≡ true) × (all url_char xs ≡ true)
all-cons x xs h = &&-true (url_char x) (all url_char xs) h
  where
    &&-true : (a b : Bool) → (a && b) ≡ true → (a ≡ true) × (b ≡ true)
    &&-true true b e = (refl, e)
    &&-true false b e = cc

-- A character that is not unreserved.
pub url_char-lacks :
    (c : ℕ) (xs : Text) → url_char c ≡ false → all url_char xs ≡ true → lacks c xs ≡ true
url_char-lacks c [] n h = refl
url_char-lacks c (x ∷ xs) n h =
    let (hx, hs) = all-cons x xs h in rw (url_char-ne c x n hx) (url_char-lacks c xs n hs)

pub unescape_unreserved : (xs : Text) → all url_char xs ≡ true → unescape xs ≡ some xs
unfolding unescape unescape_from
unescape_unreserved [] h = refl
unescape_unreserved (x ∷ xs) h =
    let (hx, hs) = all-cons x xs h in
    rw (url_char-ne b'%' x refl hx)
      (rw (url_char-ne b'+' x refl hx) (rw (unescape_unreserved xs hs) refl))

pieces_at : (xs ys : Text) → lacks b'&' xs ≡ true → pieces (xs ++ (b'&' ∷ ys)) ≡ xs ∷ pieces ys
unfolding pieces
pieces_at [] ys h = refl
pieces_at (x ∷ xs) ys h = ground (arith, pieces_at xs ys)

pieces_none : (xs : Text) → lacks b'&' xs ≡ true → pieces xs ≡ xs ∷ []
unfolding pieces
pieces_none [] h = refl
pieces_none (x ∷ xs) h = ground (arith, pieces_none xs)

abbrev pub Unreserved : Text × Text → Type 0
Unreserved f = (all url_char f.0 ≡ true) × (all url_char f.1 ≡ true)

pub lacks-written :
    (c : ℕ) (k v : Text)
    → url_char c ≡ false
    → nat_eq b'=' c ≡ false
    → Unreserved (k, v)
    → lacks c (k ++ (b'=' ∷ v)) ≡ true
lacks-written c k v n e (hk, hv) = ground (
  arith,
  all-append (λ x. not (nat_eq x c)) k (b'=' ∷ v),
  url_char-lacks c k n hk,
  url_char-lacks c v n hv,
)

field-written : (k v : Text) → Unreserved (k, v) → field (k ++ (b'=' ∷ v)) ≡ (k, v) ∷ []
unfolding field
field-written k v (hk, hv) = ground (
  arith,
  lacks-written b';' k v refl refl (hk, hv),
  cut_at b'=' k v (url_char-lacks b'=' k refl hk),
  unescape_unreserved k hk,
  unescape_unreserved v hv,
  not_nil k v,
)
  where
    not_nil : (k v : Text) → is_nil (k ++ (b'=' ∷ v)) ≡ false
    not_nil [] v = refl
    not_nil (x ∷ k) v = refl

pub piece_list :
    (k v rest : Text) → k ++ (b'=' ∷ (v ++ (b'&' ∷ rest))) ≡ (k ++ (b'=' ∷ v)) ++ (b'&' ∷ rest)
piece_list k v rest = sym (append_assoc k (b'=' ∷ v) (b'&' ∷ rest))

pub parse_query-join_fields :
    (fs : List (Text × Text)) → All Unreserved fs → parse_query (join_fields fs) ≡ fs
unfolding parse_query fields
parse_query-join_fields [] h = refl
parse_query-join_fields ((k, v) ∷ []) (h, t) =
    rw (pieces_none _ (lacks-written b'&' k v refl refl h)) (rw (field-written k v h) refl)
parse_query-join_fields ((k, v) ∷ f ∷ fs) (h, t) = rw (piece_list k v (join_fields (f ∷ fs))) (
    rw (pieces_at _ (join_fields (f ∷ fs)) (lacks-written b'&' k v refl refl h))
      (rw (field-written k v h) (ap (◌∷◌ (k, v)) (parse_query-join_fields (f ∷ fs) t))))
