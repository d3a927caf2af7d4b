-- ===== src/Storage/Fs/Kept.antt =====
-- What `FsStorage` of storage/fs.go keeps on a file system that keeps its files.
use secure_store.Compound.Contract.{StorageContract}
use secure_store.Effects.{Error, Outcome, Outcome-cases, err, object_already_exists, ok}
use secure_store.Effects.Reader.{Bytes, Reader, new_reader, read_all}
use secure_store.GoMap.{GoMap, get, get-put, has, keys, put}
use secure_store.ObjectTable.{stored}
use secure_store.Prelude.{
  Option-cases, String, [], ap, arith, false, inl, inr, length, length-append, refl, some, suc, sym,
  zero, ℕ, ◌*◌, ◌∙◌, ◌∷◌, ◌≡◌,
}
use secure_store.Prelude.Eq.{bytes_Eq, string_Eq}
use secure_store.Storage.Fs.{get_root_key}
use secure_store.Storage.Fs.Store.{
  FsStorage, Os, create_and_fill, empty_names, fs_storage, list_buckets, read, write,
}
use secure_store.Storage.Memory.Listing.{names}
use text.Mathlib.TextPositions.{eq_refl}

-- What is asked of package os: a file that was created and filled without an error has what the
-- reader gave, all of it, and opening it gives that back.
pub record OsContract {F H : Type 0} (os : Os F H) : Type 0 where
  pub filled :
      (path : String) (r : Reader) (h : H) (f f' f'' : F)
      → os.create_file path f ≡ (ok h, f')
      → os.read_from h r f' ≡ (ok tt, f'')
      → (stored : Bytes) × (read_all r ≡ ok stored)
        × (os.open_file path f'' ≡ (ok (new_reader stored), f''))

module _ {F H : Type 0} (os : Os F H) where
  -- What a write that succeeded did.
  record Written (b k : String) (r : Reader) (f f' : FsStorage F) : Type 0 where
    key_set : GoMap String (Unit {0})
    handle : H
    between : F
    created : os.create_file (get_root_key f.root_path b k) f.files ≡ (ok handle, between)
    filled : os.read_from handle r between ≡ (ok tt, f'.files)
    registered : f'.mem_rep ≡ put b (put k tt key_set) f.mem_rep
    same_root : f'.root_path ≡ f.root_path

  write-Written :
      (b k : String) (r : Reader) (f f' : FsStorage F)
      → write os b k r f ≡ (ok tt, f')
      → Written b k r f f'
  unfolding write
  write-Written b k r f f' w = elim (Option-cases (get b f.mem_rep)) [
    | inl n ↦ ground arith
    | inr (ks, e) ↦ elim (Outcome-cases (os.create_file (get_root_key f.root_path b k) f.files).0) [
      | inr (inl x) ↦ ground arith
      | inr (inr (y, x)) ↦ ground arith
      | inl (h, x) ↦ record {
        key_set = ks;
        handle = h;
        between = (os.create_file (get_root_key f.root_path b k) f.files).1;
        created = ground arith;
        filled = ground arith;
        registered = ground arith;
        same_root = ground arith;
      }
    ]
  ]

  read_opened :
      (b k : String) (r : Reader) (f f' : FsStorage F) (out : Reader)
      → Written b k r f f'
      → os.open_file (get_root_key f.root_path b k) f'.files ≡ (ok out, f'.files)
      → read os b k f' ≡ (ok out, f')
  unfolding read has
  read_opened b k r f f' out v o = ground (
    arith,
    v.registered,
    v.same_root,
    get-put b b (put k tt v.key_set) f.mem_rep,
    get-put k k tt v.key_set,
    eq_refl b,
    eq_refl k,
  )

  -- On a file system in which a file that was created and filled without an error has all that
  -- its reader gave, and gives it back when opened: if `write` of `FsStorage` succeeds, then its
  -- reader can be read to the end, and `read` of the object succeeds, changes nothing, and gives
  -- what was read.
  pub read-write_file :
      (b k : String) (r : Reader) (f f' : FsStorage F)
      → OsContract os
      → write os b k r f ≡ (ok tt, f')
      → (stored : Bytes) × (read_all r ≡ ok stored)
        × (read os b k f' ≡ (ok (new_reader stored), f'))
  read-write_file b k r f f' c w =
      let v = write-Written b k r f f' w in
      let (stored, all_read, opens) =
        c.filled (get_root_key f.root_path b k) r v.handle f.files v.between f'.files v.created
          v.filled in
      (stored, all_read, read_opened b k r f f' (new_reader stored) v opens)

  -- The storage is one that the compound store can rely on.
  pub fs_StorageContract : OsContract os → StorageContract (fs_storage os)
  fs_StorageContract c = record { write_read = λ b k r f f' w. read-write_file b k r f f' c w }

  length-empty_names : (n : ℕ) → length (empty_names os n) ≡ n
  unfolding empty_names
  length-empty_names zero = refl
  length-empty_names (suc n) = omega (arith, length-empty_names n)

  length-keys : (m : GoMap String (GoMap String (Unit {0}))) → length (keys m) ≡ length m
  length-keys [] = refl
  length-keys ((k, v) ∷ m) = omega (arith, length-keys m)

  -- `list_buckets` of `FsStorage` returns twice as many names as there are buckets.
  pub length-list_buckets :
      (f : FsStorage F) → length (names (list_buckets os f).0) ≡ 2 * length f.mem_rep
  unfolding list_buckets
  length-list_buckets f = omega (
    arith,
    length-append (empty_names os (length f.mem_rep)) (keys f.mem_rep),
    length-empty_names (length f.mem_rep),
    length-keys f.mem_rep,
  )

  registered_by_write :
      (b k : String) (r : Reader) (f : FsStorage F) (ks : GoMap String (Unit {0}))
      → get b f.mem_rep ≡ some ks
      → has k ks ≡ false
      → (write os b k r f).1.mem_rep ≡ put b (put k tt ks) f.mem_rep
  unfolding write create_and_fill
  registered_by_write b k r f ks e n =
      elim (Outcome-cases (os.create_file (get_root_key f.root_path b k) f.files).0) [
        | inl (h, x) ↦ ground arith
        | inr (inl x) ↦ ground arith
        | inr (inr (y, x)) ↦ ground arith
      ]

  -- After a `write` of a new object in an existing bucket that failed, in creating the file or in
  -- filling it, every other `write` of the object fails with `object_already_exists` and changes
  -- nothing.
  pub write-write :
      (b k : String) (r other : Reader) (f f' : FsStorage F) (e : Error)
      → (ks : GoMap String (Unit {0})) → get b f.mem_rep ≡ some ks
      → has k ks ≡ false
      → write os b k r f ≡ (err e, f')
      → write os b k other f' ≡ (err (object_already_exists k), f')
  write-write b k r other f f' e ks g n w =
      let same : f'.mem_rep ≡ put b (put k tt ks) f.mem_rep =
        ap (λ (x : Outcome (Unit {0}) × FsStorage F). x.1.mem_rep) (sym w)
        ∙ registered_by_write b k r f ks g n in
      unfold write has in
      ground
        (arith, same, get-put b b (put k tt ks) f.mem_rep, get-put k k tt ks, eq_refl b, eq_refl k)
