-- ===== src/Tests/Files.antt =====
-- The storage on a file system.
use secure_store.Storage.Fs.Store
use secure_store.Effects.{
  Exec, Outcome, Outcome-cases, err, external, object_already_exists, ok, panic,
}
use secure_store.Effects.Reader.{Bytes, Reader, new_reader, read_all}
use secure_store.GoMap.{GoMap, get, get-put, has, put, remove}
use secure_store.Prelude.{Option, String, [], arith, inl, inr, none, refl, some, ◌∷◌, ◌≡◌}
use secure_store.Prelude.Eq.{bytes_Eq, string_Eq}
use secure_store.Storage.Fs.Kept.{OsContract, read-write_file, write-write}
use secure_store.Storage.Fs.Store.{FsStorage, Os}
use secure_store.Tests.Samples.{broken_body, upload_body}
use text.Mathlib.TextPositions.{eq_refl}

-- Files by their paths; an open file is its path.
abbrev Files : Type 0
Files = GoMap String Bytes

abbrev filled_with : String → Outcome Bytes → Exec Files (Unit {0})
filled_with path (ok content) f = (ok tt, put path content f)
filled_with path (err e) f = (err e, f)
filled_with path panic f = (panic, f)

abbrev opened_file : Option Bytes → Outcome Reader
opened_file none = err (external 4)
opened_file (some content) = ok (new_reader content)

abbrev file_system : Os Files String
file_system = record {
  mkdir = λ path f. (ok tt, f);
  create_file = λ path f. (ok path, put path [] f);
  read_from = λ path r f. filled_with path (read_all r) f;
  open_file = λ path f. (opened_file (get path f), f);
  remove_file = λ path f. (ok tt, remove path f);
  remove_all = λ path f. (ok tt, f);
}

file_system-OsContract : OsContract file_system
file_system-OsContract = record {
  filled = λ path r h f f' f'' c e. elim (Outcome-cases (read_all r)) [
    | inl (content, q) ↦ (content, q, ground (arith, get-put path path content f', eq_refl path))
    | inr (inl q) ↦ ground arith
    | inr (inr (x, q)) ↦ ground arith
  ];
}

abbrev empty_storage : FsStorage Files
empty_storage = record { root_path = "data"; mem_rep = ("ab", []) ∷ []; files = [] }

abbrev written : FsStorage Files
written = (Store.write file_system "ab" "cd" upload_body empty_storage).1

write_done : Store.write file_system "ab" "cd" upload_body empty_storage ≡ (ok tt, written)
unfolding Store.write Store.create_and_fill get read_all has
write_done = refl

read-write_file_example :
    (stored : Bytes) × (read_all upload_body ≡ ok stored)
    × (Store.read file_system "ab" "cd" written ≡ (ok (new_reader stored), written))
read-write_file_example =
    read-write_file file_system "ab" "cd" upload_body empty_storage written file_system-OsContract
      write_done

abbrev broken : FsStorage Files
broken = (Store.write file_system "ab" "cd" broken_body empty_storage).1

write_broken :
    Store.write file_system "ab" "cd" broken_body empty_storage ≡ (err (external 1), broken)
unfolding Store.write Store.create_and_fill get read_all has
write_broken = refl

write-write_example :
    Store.write file_system "ab" "cd" upload_body broken
    ≡ (err (object_already_exists "cd"), broken)
unfolding get has
write-write_example =
    write-write file_system "ab" "cd" broken_body upload_body empty_storage broken (external 1) []
      refl refl write_broken
