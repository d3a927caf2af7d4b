-- ===== src/Effects/Reader.antt =====
-- `io.Reader` as the bytes that it still has to give and the way in which it ends, and
-- `io.ReadAll`. `nil_reader` is a nil pointer behind the interface: a read from it panics.
use secure_store.Effects.{Error, Outcome, err, ok, panic}
use secure_store.Prelude.{List, [], refl, ℕ, ◌∷◌, ◌≡◌}

abbrev pub Bytes : Type 0
Bytes = List ℕ

pub data Reader : Type 0 where
  eof : Reader
  fault : Error → Reader
  nil_reader : Reader
  next : ℕ → Reader → Reader

abbrev more : ℕ → Outcome (List ℕ) → Outcome (List ℕ)
more b (ok bs) = ok (b ∷ bs)
more b (err e) = err e
more b panic = panic

unfoldable pub read_all : Reader → Outcome (List ℕ)
read_all eof = ok []
read_all (fault e) = err e
read_all nil_reader = panic
read_all (next b r) = more b (read_all r)

-- `bytes.NewReader`
unfoldable pub new_reader : List ℕ → Reader
new_reader [] = eof
new_reader (b ∷ bs) = next b (new_reader bs)

-- A reader over a buffer gives the buffer.
pub read_all-new_reader : (bs : List ℕ) → read_all (new_reader bs) ≡ ok bs
unfolding read_all new_reader
read_all-new_reader [] = refl
read_all-new_reader (b ∷ bs) = rw (read_all-new_reader bs)
