-- ===== src/Cli/Rounds.antt =====
-- One round of the loop of cli/cli.go.
use secure_store.Cli.{CliOutside}
use secure_store.Cli.Ends.{
  Shrinks, ask-Shrinks, attempt-Shrinks, bind, choose, given-Shrinks, ignored-Shrinks, lift-Shrinks,
  now-Shrinks, outside-Shrinks, prompt-Shrinks, pure-Shrinks,
}
use secure_store.Cli.Operations.{
  add_key, add_user, ask_if_password, delete_object, deliver, download_from_key,
  download_interaction, get_password, operate, password_if, read_object, save, upload_file,
  upload_opened, upload_stdin, uploads, write_object,
}
use secure_store.Effects.Reader.{Reader}
use secure_store.Prelude.{Bool, Option, String, false, none, some, true}
use secure_store.Prelude.Eq.{bytes_Eq, string_Eq, ◌==◌}
use secure_store.Prelude.Int.{ℤ}

module _ {N H : Type 0} (o : CliOutside N H) where
  get_password-Shrinks : Shrinks (get_password o)
  unfolding get_password
  get_password-Shrinks = bind _ _ prompt-Shrinks (λ text. pure-Shrinks _)

  ask_if_password-Shrinks : Shrinks (ask_if_password o)
  unfolding ask_if_password
  ask_if_password-Shrinks = bind _ _ ask-Shrinks (λ out. pure-Shrinks _)

  password_if-Shrinks : (wants : Bool) → Shrinks (password_if o wants)
  password_if-Shrinks true = attempt-Shrinks _ get_password-Shrinks
  password_if-Shrinks false = pure-Shrinks none

  delete_object-Shrinks : (bucket : String) → Shrinks (delete_object o bucket)
  unfolding delete_object
  delete_object-Shrinks bucket = bind _ _ ask-Shrinks (λ key. ignored-Shrinks _ (outside-Shrinks _))

  save-Shrinks : (content : Reader) (h : H) → Shrinks (save o content h)
  save-Shrinks content h = ignored-Shrinks _ (bind _ _ (outside-Shrinks _) (λ u. outside-Shrinks _))

  deliver-Shrinks : (content : Reader) (choice : Option String) → Shrinks (deliver o content choice)
  deliver-Shrinks content none = pure-Shrinks tt
  deliver-Shrinks content (some choice) =
      choose (choice == "File") _ _
        (bind _ _ prompt-Shrinks (λ path.
          bind _ _ (attempt-Shrinks _ (outside-Shrinks _))
            (λ h. given-Shrinks (save o content) h (save-Shrinks content))))
        (choose (choice == "Stdout") _ _ (ignored-Shrinks _ (lift-Shrinks _)) (pure-Shrinks tt))

  download_interaction-Shrinks : (found : Reader × ℤ) → Shrinks (download_interaction o found)
  unfolding download_interaction
  download_interaction-Shrinks (content, n) =
      bind _ _ (attempt-Shrinks _ prompt-Shrinks) (deliver-Shrinks content)

  uploads-Shrinks :
      (bucket key : String) (content : Reader) (n : ℤ) (filename : String)
      → Shrinks (uploads o bucket key content n filename)
  uploads-Shrinks bucket key content n filename = ignored-Shrinks _ (outside-Shrinks _)

  upload_opened-Shrinks : (bucket path : String) (h : H) → Shrinks (upload_opened o bucket path h)
  upload_opened-Shrinks bucket path h = bind _ _ ask-Shrinks (λ key.
      bind _ _ (outside-Shrinks _)
        (λ n. bind _ _ now-Shrinks (λ t. uploads-Shrinks bucket key _ _ path)))

  write_object-Shrinks : (bucket : String) → Shrinks (write_object o bucket)
  unfolding write_object upload_file upload_stdin
  write_object-Shrinks bucket = bind _ _ prompt-Shrinks (λ target.
      choose (target == "File") _ _
        (bind _ _ prompt-Shrinks (λ path.
          bind _ _ (attempt-Shrinks _ (outside-Shrinks _))
            (λ h. given-Shrinks _ h (upload_opened-Shrinks bucket path))))
        (choose (target == "Stdin") _ _
          (bind _ _ prompt-Shrinks (λ text.
            bind _ _ prompt-Shrinks
              (λ filename. bind _ _ ask-Shrinks (λ key. uploads-Shrinks bucket key _ _ filename))))
          (pure-Shrinks tt)))

  read_object-Shrinks : (bucket : String) → Shrinks (read_object o bucket)
  unfolding read_object
  read_object-Shrinks bucket = bind _ _ ask-Shrinks (λ key.
      bind _ _ (attempt-Shrinks _ (outside-Shrinks _))
        (λ found. given-Shrinks _ found download_interaction-Shrinks))

  add_key-Shrinks : (bucket : String) → Shrinks (add_key o bucket)
  unfolding add_key
  add_key-Shrinks bucket = bind _ _ ask-Shrinks (λ key. bind _ _ ask-Shrinks (λ url_key.
      bind _ _ ask_if_password-Shrinks (λ wants.
        bind _ _ (password_if-Shrinks wants) (λ password. ignored-Shrinks _ (outside-Shrinks _)))))

  download_from_key-Shrinks : Shrinks (download_from_key o)
  unfolding download_from_key
  download_from_key-Shrinks = bind _ _ ask-Shrinks (λ url_key.
      bind _ _ ask_if_password-Shrinks (λ wants. bind _ _ (password_if-Shrinks wants) (λ password.
        bind _ _ (attempt-Shrinks _ (outside-Shrinks _))
          (λ found. given-Shrinks _ found download_interaction-Shrinks))))

  add_user-Shrinks : Shrinks (add_user o)
  unfolding add_user
  add_user-Shrinks = bind _ _ (outside-Shrinks _) (λ id. bind _ _ ask-Shrinks (λ name.
      bind _ _ ask-Shrinks (λ username.
        bind _ _ (attempt-Shrinks _ get_password-Shrinks)
          (λ password. given-Shrinks _ password (λ p. ignored-Shrinks _ (outside-Shrinks _))))))

  pub operate-Shrinks : (op : String) → Shrinks (operate o op)
  unfolding operate
  operate-Shrinks op =
      choose (op == "Create Bucket") _ _ (bind _ _ ask-Shrinks (λ bucket. outside-Shrinks _)) (
        choose (op == "Read") _ _ (bind _ _ ask-Shrinks read_object-Shrinks) (
          choose (op == "Write") _ _ (bind _ _ ask-Shrinks write_object-Shrinks) (
            choose (op == "Delete") _ _ (bind _ _ ask-Shrinks delete_object-Shrinks) (
              choose (op == "DeleteBucket") _ _
                (bind _ _ ask-Shrinks (λ bucket. ignored-Shrinks _ (outside-Shrinks _)))
                (choose (op == "Add Key") _ _ (bind _ _ ask-Shrinks add_key-Shrinks) (
                  choose (op == "Download From Key") _ _ download_from_key-Shrinks
                    (choose (op == "Add User") _ _ add_user-Shrinks (pure-Shrinks tt))))))))
