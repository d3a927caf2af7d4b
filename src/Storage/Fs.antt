-- ===== src/Storage/Fs.antt =====
-- storage/fs.go: the paths at which `FsStorage` keeps buckets and objects. The methods are in the
-- child `Store`.

pub mod Paths
pub mod Store
pub mod Kept
pub mod Opened
use Prim.Native.String
use secure_store.Prelude.{String}

-- `fmt.Sprintf("%v/%v", a, b)`
abbrev pub slashed : String → String → String
slashed a b = String.◌++◌ a (String.◌++◌ "/" b)

unfoldable pub get_root_bucket : String → String → String
get_root_bucket root_path bucket_name = slashed root_path bucket_name

unfoldable pub get_root_key : String → String → String → String
unfolding get_root_bucket
get_root_key root_path bucket_name key_name =
    slashed (get_root_bucket root_path bucket_name) key_name
