-- ===== src/Storage/Fs/Opened.antt =====
-- `NewFsStorage` of storage/fs.go: the check of the directory, the file that marks it, and the new
-- `FsStorage`. The calls of package os are parameters.

use secure_store.Storage.Fs.Store
use secure_store.Effects.{
  Exec, Outcome, Outcome-cases, bucket_does_not_exist, contains_files_but_no_config, err, ok, panic,
  pure, raise, ◌>>=◌, ◌>>◌,
}
use secure_store.Effects.Reader.{Reader}
use secure_store.GoMap.{get, has}
use secure_store.Prelude.{
  Bool, Bool-cases, List, String, [], arith, false, if◌then◌else◌, inl, inr, ltb, not, true, ℕ,
  ◌&&◌, ◌+◌, ◌||◌, ◌∷◌, ◌≡◌,
}
use secure_store.Prelude.Eq.{bytes_Eq, string_Eq, ◌==◌}
use secure_store.Router.Routes.{handle}
use secure_store.Storage.Fs.{slashed}
use secure_store.Storage.Fs.Store.{FsStorage, Os}

-- An `os.DirEntry`
pub record DirEntry : Type 0 where
  pub name : String
  pub is_dir : Bool

-- `os.IsNotExist` of the error of `Stat`, `MkdirAll`, `ReadDir`, `Create` and `Close`
pub record DirOs (F H : Type 0) : Type 0 where
  pub is_not_exist : String → F → Bool
  pub mkdir_all : String → Exec F (Unit {0})
  pub read_dir : String → Exec F (List DirEntry)
  pub create_file : String → Exec F H
  pub close_file : H → Exec F (Unit {0})

abbrev pub secure_store_json_name : String
secure_store_json_name = ".secure-store.json"

-- `fCounter` and `secureStoreFileExists`
count_entries : List DirEntry → ℕ → Bool → ℕ × Bool
count_entries [] counter exists = (counter, exists)
count_entries (entry ∷ entries) counter exists =
    let skipped = count_entries entries counter exists in
    let marked = count_entries entries counter true in
    let counted = count_entries entries (counter + 1) exists in
    if entry.is_dir
    then skipped
    else if entry.name == secure_store_json_name
    then marked
    else counted

unfoldable pub refuses : List DirEntry → Bool
unfolding count_entries
refuses entries =
    let (counter, exists) = count_entries entries 0 false in ltb 0 counter && not exists

module _ {F H : Type 0} (os : DirOs F H) where
  check_entries : List DirEntry → Exec F (Unit {0})
  check_entries entries = if refuses entries then raise contains_files_but_no_config else pure tt

  check_root : String → Exec F (Unit {0})
  unfolding check_entries
  check_root root files =
      if os.is_not_exist root files
      then os.mkdir_all root files
      else (os.read_dir root >>= check_entries) files

  mark_root : String → Exec F (Unit {0})
  mark_root root = do
    handle ← os.create_file (slashed root secure_store_json_name)
    os.close_file handle

  abbrev with_files : Outcome (Unit {0}) × F → String → Outcome (FsStorage F) × F
  with_files (ok u, files) root =
      (ok (record { root_path = root; mem_rep = []; files = files }), files)
  with_files (err e, files) root = (err e, files)
  with_files (panic, files) root = (panic, files)

  unfoldable pub new_fs_storage : String → Exec F (FsStorage F)
  unfolding check_root mark_root
  new_fs_storage root files = with_files ((check_root root >> mark_root root) files) root

abbrev pub is_other : DirEntry → Bool
is_other entry = not entry.is_dir && not (entry.name == secure_store_json_name)

abbrev pub is_mark : DirEntry → Bool
is_mark entry = not entry.is_dir && (entry.name == secure_store_json_name)

abbrev pub any_entry : (DirEntry → Bool) → List DirEntry → Bool
any_entry p [] = false
any_entry p (entry ∷ entries) = p entry || any_entry p entries

count_entries-any :
    (entries : List DirEntry) (counter : ℕ) (exists : Bool)
    → (ltb 0 (count_entries entries counter exists).0
        ≡ (ltb 0 counter || any_entry is_other entries))
      × ((count_entries entries counter exists).1 ≡ (exists || any_entry is_mark entries))
unfolding count_entries
count_entries-any [] counter exists = (ground arith, ground arith)
count_entries-any (entry ∷ entries) counter exists =
    let skipped = count_entries-any entries counter exists in
    let marked = count_entries-any entries counter true in
    let counted = count_entries-any entries (counter + 1) exists in
    elim (Bool-cases entry.is_dir) [
      | inl d ↦ (ground (arith, skipped.0), ground (arith, skipped.1))
      | inr d ↦ elim (Bool-cases (entry.name == secure_store_json_name)) [
        | inl n ↦ (ground (arith, marked.0), ground (arith, marked.1))
        | inr n ↦ (ground (arith, counted.0), ground (arith, counted.1))
      ]
    ]

-- The check of the directory refuses exactly the directories that have a file other than the one
-- that marks them, and not that one.
pub refuses-any :
    (entries : List DirEntry)
    → refuses entries ≡ (any_entry is_other entries && not (any_entry is_mark entries))
unfolding refuses
refuses-any entries =
    let (others, marks) = count_entries-any entries 0 false in ground (arith, others, marks)

module _ {F H G : Type 0} (os : DirOs F H) (later : Os F G) where
  opened_empty :
      (root : String) (files files' : F) (f : FsStorage F)
      → new_fs_storage os root files ≡ (ok f, files')
      → (f.mem_rep ≡ []) × (f.root_path ≡ root)
  unfolding new_fs_storage
  opened_empty root files files' f h =
      elim (Outcome-cases ((check_root os root >> mark_root os root) files).0) [
        | inl (u, e) ↦ (ground arith, ground arith)
        | inr (inl e) ↦ cc
        | inr (inr (x, e)) ↦ cc
      ]

  -- Whatever a directory has, a storage that was opened on it finds no bucket in it: `read`,
  -- `write`, `delete` and `delete_bucket` fail with `bucket_does_not_exist` and change nothing.
  pub new_fs_storage-forgets :
      (root : String) (files files' : F) (f : FsStorage F) (bucket key : String) (content : Reader)
      → new_fs_storage os root files ≡ (ok f, files')
      → (Store.read later bucket key f ≡ (err (bucket_does_not_exist bucket), f))
        × (Store.write later bucket key content f ≡ (err (bucket_does_not_exist bucket), f))
        × (Store.delete later bucket key f ≡ (err (bucket_does_not_exist bucket), f))
        × (Store.delete_bucket later bucket f ≡ (err (bucket_does_not_exist bucket), f))
  unfolding Store.read Store.write Store.delete Store.delete_bucket get has
  new_fs_storage-forgets root files files' f bucket key content h =
      let (no_buckets, same) = opened_empty root files files' f h in
      (ground arith, ground arith, ground arith, ground arith)
