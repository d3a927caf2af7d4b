-- ===== src/Url.antt =====
-- What the program uses of Go's package net/url: the request target of a URL, as a client makes it
-- and a server reads it, and the query of the target. Texts are code points; those of the ids and
-- keys of this program are ASCII, so they are the bytes that are sent.
pub mod Fields
pub mod Target
use secure_store.Prelude.{
  Bool, List, Option, [], all, false, if◌then◌else◌, leb, nat_eq, none, not, some, true, ℕ, ◌&&◌,
  ◌*◌, ◌++◌, ◌+◌, ◌-◌, ◌||◌, ◌∷◌,
}
use secure_store.Prelude.Eq.{bytes_Eq, string_Eq, ◌==◌}
use secure_store.Text.{Text}

-- The text before the first `c`, and the text behind it.
unfoldable pub cut : ℕ → Text → Text × Text
cut c [] = ([], [])
cut c (x ∷ xs) = let r = cut c xs in if nat_eq x c then ([], xs) else (x ∷ r.0, r.1)

abbrev drop_two : Text → Text
drop_two (x ∷ y ∷ rest) = rest
drop_two _ = []

-- From the first slash on.
unfoldable pub from_slash : Text → Text
from_slash [] = []
from_slash (x ∷ xs) = let rest = from_slash xs in if nat_eq x b'/' then x ∷ xs else rest

-- `url.Parse` of `scheme://host/path?query#fragment`: the path and the query.
unfoldable pub parse_url : Text → Text × Text
unfolding cut from_slash
parse_url url =
    let (before, query) = cut b'?' (cut b'#' url).0 in
    (from_slash (drop_two (cut b':' before).1), query)

-- A percent sign, and a percent sign with one digit, that wait for what follows.
pub data Escape : Type 0 where
  plain percent : Escape
  digit : ℕ → Escape

unfoldable pub hex_value : ℕ → Option ℕ
hex_value c =
    if leb b'0' c && leb c b'9'
    then some (c - b'0')
    else if leb b'a' c && leb c b'f'
    then some (c - b'a' + 10)
    else if leb b'A' c && leb c b'F'
    then some (c - b'A' + 10)
    else none

abbrev prepend : ℕ → Option Text → Option Text
prepend c none = none
prepend c (some t) = some (c ∷ t)

-- `url.QueryUnescape`
unescape_from : Escape → Text → Option Text
unfolding hex_value
unescape_from plain [] = some []
unescape_from percent [] = none
unescape_from (digit d) [] = none
unescape_from plain (x ∷ xs) =
    let escaped = unescape_from percent xs in
    let rest = unescape_from plain xs in
    if nat_eq x b'%' then escaped else prepend (if nat_eq x b'+' then b' ' else x) rest
unescape_from percent (x ∷ xs) = elim (hex_value x) [
  | none ↦ none
  | some d ↦ unescape_from (digit d) xs
]
unescape_from (digit d) (x ∷ xs) = elim (hex_value x) [
  | none ↦ none
  | some e ↦ prepend (d * 16 + e) (unescape_from plain xs)
]

unfoldable pub unescape : Text → Option Text
unfolding unescape_from
unescape = unescape_from plain

-- The pieces between the ampersands.
abbrev onto_first : ℕ → List Text → List Text
onto_first c [] = (c ∷ []) ∷ []
onto_first c (p ∷ ps) = (c ∷ p) ∷ ps

unfoldable pub pieces : Text → List Text
pieces [] = [] ∷ []
pieces (x ∷ xs) = let rest = pieces xs in if nat_eq x b'&' then [] ∷ rest else onto_first x rest

abbrev pub lacks : ℕ → Text → Bool
lacks c = all (λ x. not (nat_eq x c))

abbrev pub is_nil : Text → Bool
is_nil [] = true
is_nil (x ∷ xs) = false

abbrev named : Option Text → Option Text → List (Text × Text)
named (some k) (some v) = (k, v) ∷ []
named _ _ = []

-- One piece of a query: an empty one, one with a semicolon and one that does not unescape are
-- skipped.
unfoldable pub field : Text → List (Text × Text)
unfolding unescape cut
field piece =
    let (key, value) = cut b'=' piece in
    if is_nil piece || not (lacks b';' piece) then [] else named (unescape key) (unescape value)

fields : List Text → List (Text × Text)
unfolding field
fields [] = []
fields (p ∷ ps) = field p ++ fields ps

-- `url.ParseQuery`
unfoldable pub parse_query : Text → List (Text × Text)
unfolding pieces fields
parse_query query = fields (pieces query)

-- The first value under a key, or the empty text.
unfoldable pub value_under : Text → List (Text × Text) → Text
value_under key [] = []
value_under key ((k, v) ∷ fs) = let rest = value_under key fs in if k == key then v else rest
