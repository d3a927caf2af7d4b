-- ===== src/Storage/Fs/Store.antt =====
-- storage/fs.go: the methods of `FsStorage`, one after the other. The calls of package os, which
-- change the files, are parameters. `memRep` says which keys are stored; each bucket of it has a
-- set of its own, so inserting into `keySet` changes the bucket's entry.
use secure_store.Effects.{
  Exec, bucket_already_exists, bucket_does_not_exist, err, object_already_exists,
  object_does_not_exists, ok, ◌>>=◌,
}
use secure_store.Effects.Reader.{Reader}
use secure_store.GoMap.{GoMap, get, has, keys, put, remove}
use secure_store.Prelude.{
  List, String, [], if◌then◌else◌, length, none, not, some, suc, zero, ℕ, ◌++◌, ◌∷◌,
}
use secure_store.Prelude.Eq.{bytes_Eq, string_Eq}
use secure_store.Storage.{Storage}
use secure_store.Storage.Fs.{get_root_bucket, get_root_key}

-- `Mkdir`, `Create`, `ReadFrom` of an open file, `Open` with a buffered reader on the file,
-- `Remove` and `RemoveAll`; H is the type of open files.
pub record Os (F H : Type 0) : Type 0 where
  pub mkdir : String → Exec F (Unit {0})
  pub create_file : String → Exec F H
  pub read_from : H → Reader → Exec F (Unit {0})
  pub open_file : String → Exec F Reader
  pub remove_file : String → Exec F (Unit {0})
  pub remove_all : String → Exec F (Unit {0})

pub record FsStorage (F : Type 0) : Type 0 where
  pub root_path : String
  pub mem_rep : GoMap String (GoMap String (Unit {0}))
  pub files : F

module _ {F H : Type 0} (os : Os F H) where
  abbrev on_files : {A : Type 0} → Exec F A → Exec (FsStorage F) A
  on_files m f = ((m f.files).0, record f { files = (m f.files).1 })

  unfoldable pub new_bucket : String → Exec (FsStorage F) (Unit {0})
  new_bucket bucket f =
      if has bucket f.mem_rep
      then (err (bucket_already_exists bucket), f)
      else on_files (os.mkdir (get_root_bucket f.root_path bucket))
          (record f { mem_rep = put bucket [] f.mem_rep })

  -- `os.Create` and `file.ReadFrom`
  unfoldable pub create_and_fill : String → Reader → Exec (FsStorage F) (Unit {0})
  create_and_fill path content = do
    file ← on_files (os.create_file path)
    on_files (os.read_from file content)

  unfoldable pub write : String → String → Reader → Exec (FsStorage F) (Unit {0})
  unfolding create_and_fill
  write bucket key content f = elim (get bucket f.mem_rep) [
    | none ↦ (err (bucket_does_not_exist bucket), f)
    | some key_set ↦
        if has key key_set
        then (err (object_already_exists key), f)
        else create_and_fill (get_root_key f.root_path bucket key) content
            (record f { mem_rep = put bucket (put key tt key_set) f.mem_rep })
  ]

  unfoldable pub read : String → String → Exec (FsStorage F) Reader
  read bucket key f = elim (get bucket f.mem_rep) [
    | none ↦ (err (bucket_does_not_exist bucket), f)
    | some key_set ↦
        if not (has key key_set)
        then (err (object_does_not_exists key), f)
        else on_files (os.open_file (get_root_key f.root_path bucket key)) f
  ]

  unfoldable pub delete : String → String → Exec (FsStorage F) (Unit {0})
  delete bucket key f = elim (get bucket f.mem_rep) [
    | none ↦ (err (bucket_does_not_exist bucket), f)
    | some key_set ↦
        if not (has key key_set)
        then (err (object_does_not_exists key), f)
        else on_files (os.remove_file (get_root_key f.root_path bucket key))
            (record f { mem_rep = put bucket (remove key key_set) f.mem_rep })
  ]

  unfoldable pub delete_bucket : String → Exec (FsStorage F) (Unit {0})
  delete_bucket bucket f =
      if not (has bucket f.mem_rep)
      then (err (bucket_does_not_exist bucket), f)
      else let r = on_files (os.remove_all (get_root_bucket f.root_path bucket)) f in
        (r.0, record r.1 { mem_rep = remove bucket f.mem_rep })

  -- `make([]string, n)`
  unfoldable pub empty_names : ℕ → List String
  empty_names zero = []
  empty_names (suc n) = "" ∷ empty_names n

  unfoldable pub list_buckets : Exec (FsStorage F) (List String)
  unfolding empty_names
  list_buckets f = (ok (empty_names (length f.mem_rep) ++ keys f.mem_rep), f)

  abbrev pub fs_storage : Storage (FsStorage F)
  fs_storage = record {
    new_bucket = new_bucket;
    write = write;
    read = read;
    delete = delete;
    delete_bucket = delete_bucket;
    list_buckets = list_buckets;
  }
