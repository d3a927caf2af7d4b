-- ===== src/Tests/Prompts.antt =====
-- The command line, and a storage that is opened on a directory.
use secure_store.Storage.Fs.Store
use secure_store.Client
use secure_store.Cli.{CliOutside, Terminal, on_outside, prompt}
use secure_store.Cli.Finished.{Left, main_loop_ends}
use secure_store.Cli.Operations.{delete_object, main_loop, operate, read_object}
use secure_store.Effects.{bucket_does_not_exist, err, external, ok}
use secure_store.Effects.Reader.{eof}
use secure_store.Prelude.{
  List, [], arith, codes, false, none, not, refl, true, ℕ, ◌&&◌, ◌↔◌, ◌∷◌, ◌≡◌, ◌≢◌,
}
use secure_store.Prelude.Int.{pos}
use secure_store.Storage.Fs.Opened.{
  DirEntry, DirOs, any_entry, is_mark, is_other, new_fs_storage, new_fs_storage-forgets, refuses,
  refuses-any, secure_store_json_name,
}
use secure_store.Storage.Fs.Store.{FsStorage, Os}
use secure_store.Tests.Samples.{repeat, upload_body}

-- A network without a server, and a machine without files.
abbrev nothing_outside : CliOutside ℕ ℕ
nothing_outside = record {
  http = record { url_error = λ url. none; send = λ r n. (err (external 5), n) };
  open_file = λ path n. (err (external 6), n);
  stat_size = λ h n. (ok (pos 0), n);
  content = λ h n. eof;
  create_file = λ path n. (err (external 6), n);
  read_from = λ h r n. (ok tt, n);
  close_bar = λ n. (ok tt, n);
  new_uuid = λ n. (ok "1", n);
  sum512 = λ text. repeat 64 1;
  id_key = λ password. repeat 64 2;
  bytes_of_text = codes;
  marshal_key = λ key. ok [];
  marshal_user = λ user. ok [];
}

abbrev session : Terminal ℕ
session = record {
  outside = 0;
  answers = ok "Delete" ∷ ok "ab" ∷ ok "cd" ∷ ok "Read" ∷ ok "ab" ∷ ok "cd" ∷ ok "Exit" ∷ [];
}

main_loop_ends_example :
    ((main_loop nothing_outside 8 session).0 ≢ ok false)
    × (main_loop nothing_outside 8 session ≡ (ok true, (main_loop nothing_outside 8 session).1)
        ↔ Left nothing_outside session (main_loop nothing_outside 8 session).1)
main_loop_ends_example =
    main_loop_ends nothing_outside 8 session (main_loop nothing_outside 8 session).1 (ground arith)

session_left : (main_loop nothing_outside 8 session).0 ≡ ok true
unfolding main_loop prompt operate delete_object read_object on_outside Client.delete
    Client.download
session_left = refl

abbrev entries : List DirEntry
entries = record { name = "ab"; is_dir = true } ∷ record { name = "notes"; is_dir = false } ∷ []

refuses-any_example :
    refuses entries ≡ (any_entry is_other entries && not (any_entry is_mark entries))
refuses-any_example = refuses-any entries

abbrev machine : DirOs (List DirEntry) ℕ
machine = record {
  is_not_exist = λ path files. false;
  mkdir_all = λ path files. (ok tt, files);
  read_dir = λ path files. (ok files, files);
  create_file =
      λ path files. (ok 1, record { name = secure_store_json_name; is_dir = false } ∷ files);
  close_file = λ h files. (ok tt, files);
}

abbrev machine_files : Os (List DirEntry) ℕ
machine_files = record {
  mkdir = λ path files. (ok tt, files);
  create_file = λ path files. (ok 1, files);
  read_from = λ h r files. (ok tt, files);
  open_file = λ path files. (ok eof, files);
  remove_file = λ path files. (ok tt, files);
  remove_all = λ path files. (ok tt, files);
}

-- A directory with a bucket.
abbrev old_files : List DirEntry
old_files = record { name = "ab"; is_dir = true } ∷ []

abbrev marked_files : List DirEntry
marked_files = record { name = secure_store_json_name; is_dir = false } ∷ old_files

abbrev reopened : FsStorage (List DirEntry)
reopened = record { root_path = "data"; mem_rep = []; files = marked_files }

new_fs_storage-forgets_example :
    (Store.read machine_files "ab" "cd" reopened ≡ (err (bucket_does_not_exist "ab"), reopened))
    × (Store.write machine_files "ab" "cd" upload_body reopened
        ≡ (err (bucket_does_not_exist "ab"), reopened))
    × (Store.delete machine_files "ab" "cd" reopened ≡ (err (bucket_does_not_exist "ab"), reopened))
    × (Store.delete_bucket machine_files "ab" reopened
        ≡ (err (bucket_does_not_exist "ab"), reopened))
unfolding new_fs_storage refuses
new_fs_storage-forgets_example =
    new_fs_storage-forgets machine machine_files "data" old_files marked_files reopened "ab" "cd"
      upload_body refl
