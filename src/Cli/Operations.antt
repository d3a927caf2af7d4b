-- ===== src/Cli/Operations.antt =====
-- The operations of cli/cli.go and its loop.
use secure_store.Client
use secure_store.Cli.{
  CliOutside, Terminal, ask, attempt, if_given, ignored, now, on_outside, prompt,
}
use secure_store.Effects.{Exec, lift, pure, ◌>>=◌, ◌>>◌}
use secure_store.Effects.Reader.{Bytes, Reader, new_reader, read_all}
use secure_store.Prelude.{
  Bool, List, Option, String, [], codes, false, if◌then◌else◌, length, none, some, suc, true, zero,
  ℕ, ◌∷◌,
}
use secure_store.Prelude.Eq.{bytes_Eq, string_Eq, ◌==◌}
use secure_store.Prelude.Int.{negsuc, pos, ℤ}
use secure_store.Startup.Root.{root_api_key}
use secure_store.Users.{Role}

-- The rights that the command line gives to every user.
abbrev all_rights : Role
all_rights = record {
  root_user = true;
  can_create_users = true;
  can_add_keys = true;
  can_upload_data = true;
  can_delete_keys = true;
}

abbrev addr : String
addr = "http://localhost:8080"

-- `RootApiKey`
abbrev root_key : Bytes
root_key = codes "root-api-key"

module _ {N H : Type 0} (o : CliOutside N H) where
  -- `sha512.Sum512([]byte("api-key-key"))`
  abbrev api_key_hash : Bytes
  api_key_hash = o.sum512 (codes "api-key-key")

  unfoldable pub get_password : Exec (Terminal N) Bytes
  get_password = prompt >>= λ text. pure (o.id_key (o.bytes_of_text text))

  unfoldable pub ask_if_password : Exec (Terminal N) Bool
  ask_if_password = ask >>= λ out. pure (out == "Yes")

  abbrev pub password_if : Bool → Exec (Terminal N) (Option Bytes)
  password_if true = attempt get_password
  password_if false = pure none

  abbrev pub save : Reader → H → Exec (Terminal N) (Unit {0})
  save content h = ignored (on_outside (o.read_from h content) >> on_outside o.close_bar)

  -- An answer that is none of the two choices, as after an error of the prompt, does nothing.
  abbrev pub deliver : Reader → Option String → Exec (Terminal N) (Unit {0})
  deliver content none = pure tt
  deliver content (some choice) =
      let to_file : Exec (Terminal N) (Unit {0}) = do
        path ← prompt
        h ← attempt (on_outside (o.create_file path))
        if_given (save content) h
      in if choice == "File"
        then to_file
        else if choice == "Stdout"
        then ignored (lift (read_all content))
        else pure tt

  unfoldable pub download_interaction : Reader × ℤ → Exec (Terminal N) (Unit {0})
  download_interaction (content, length) = attempt prompt >>= deliver content

  abbrev pub uploads : String → String → Reader → ℤ → String → Exec (Terminal N) (Unit {0})
  uploads bucket key content length filename =
      ignored
        (on_outside (Client.upload o.http addr bucket key content length filename api_key_hash))

  -- The proxy reader of the progress bar does not tell its length.
  abbrev pub upload_opened : String → String → H → Exec (Terminal N) (Unit {0})
  upload_opened bucket path h = do
    key ← ask
    length ← on_outside (o.stat_size h)
    t ← now
    uploads bucket key (o.content h t.outside) (negsuc 0) path

  unfoldable pub upload_file : String → Exec (Terminal N) (Unit {0})
  upload_file bucket = do
    path ← prompt
    h ← attempt (on_outside (o.open_file path))
    if_given (upload_opened bucket path) h

  unfoldable pub upload_stdin : String → Exec (Terminal N) (Unit {0})
  upload_stdin bucket = do
    text ← prompt
    filename ← prompt
    key ← ask
    uploads bucket key (new_reader (o.bytes_of_text text)) (pos (length (o.bytes_of_text text)))
        filename

  unfoldable pub read_object : String → Exec (Terminal N) (Unit {0})
  unfolding download_interaction
  read_object bucket = do
    key ← ask
    found ← attempt (on_outside (Client.download o.http addr bucket key))
    if_given download_interaction found

  unfoldable pub write_object : String → Exec (Terminal N) (Unit {0})
  unfolding upload_file upload_stdin
  write_object bucket = do
    target ← prompt
    if target == "File"
        then upload_file bucket
        else if target == "Stdin"
        then upload_stdin bucket
        else pure tt

  unfoldable pub delete_object : String → Exec (Terminal N) (Unit {0})
  delete_object bucket = do key ← ask; ignored (on_outside (Client.delete o.http addr bucket key))

  abbrev valid_keys_of : Option Bytes → List Bytes
  valid_keys_of none = []
  valid_keys_of (some key) = key ∷ []

  unfoldable pub add_key : String → Exec (Terminal N) (Unit {0})
  unfolding ask_if_password get_password
  add_key bucket = do
    key ← ask
    url_key ← ask
    wants ← ask_if_password
    password ← password_if wants
    ignored (
        on_outside (
          Client.add_key o.http o.marshal_key addr
            (record {
              ttl = none;
              limit = none;
              valid_keys = valid_keys_of password;
              resolve_by_url_key = true;
              bucket_id = bucket;
              key_id = key;
              url_key = url_key;
            })
            api_key_hash))

  abbrev key_or_empty : Option Bytes → Bytes
  key_or_empty none = []
  key_or_empty (some key) = key

  unfoldable pub download_from_key : Exec (Terminal N) (Unit {0})
  unfolding ask_if_password get_password download_interaction
  download_from_key = do
    url_key ← ask
    wants ← ask_if_password
    password ← password_if wants
    found ←
        attempt
          (on_outside (Client.download_from_key o.http addr url_key (key_or_empty password) true))
    if_given download_interaction found

  abbrev send_user : String → String → String → Bytes → Exec (Terminal N) (Unit {0})
  send_user id name username password = ignored (
      on_outside (
        Client.add_user o.http o.marshal_user addr
          (record {
            id = id;
            name = name;
            role = all_rights;
            username = username;
            password_hash = password;
            api_key = api_key_hash;
          })
          root_api_key))

  unfoldable pub add_user : Exec (Terminal N) (Unit {0})
  unfolding get_password
  add_user = do
    id ← on_outside o.new_uuid
    name ← ask
    username ← ask
    password ← attempt get_password
    if_given (send_user id name username) password

  -- An error of `CreateBucket` ends the program, those of the other requests are logged.
  unfoldable pub operate : String → Exec (Terminal N) (Unit {0})
  operate op =
      if op == "Create Bucket"
      then ask >>= (λ bucket. on_outside (Client.create_bucket o.http addr bucket))
      else if op == "Read"
      then ask >>= read_object
      else if op == "Write"
      then ask >>= write_object
      else if op == "Delete"
      then ask >>= delete_object
      else if op == "DeleteBucket"
      then ask >>= (λ bucket. ignored (on_outside (Client.delete_bucket o.http addr bucket)))
      else if op == "Add Key"
      then ask >>= add_key
      else if op == "Download From Key"
      then download_from_key
      else if op == "Add User"
      then add_user
      else pure tt

  -- The loop of `main`, on fuel; the answer is whether it was left.
  unfoldable pub main_loop : ℕ → Exec (Terminal N) Bool
  main_loop zero = pure false
  main_loop (suc fuel) =
      let rest = main_loop fuel in
      prompt >>= λ op. if op == "Exit" then pure true else operate op >> rest
