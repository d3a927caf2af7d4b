-- ===== src/Tests/Journeys.antt =====
-- What a client gets from the server of Network.
use secure_store.Client
use secure_store.Compound
use secure_store.Access.ByteSet
use secure_store.Access.Memory as AccessMemory
use secure_store.Metadata.Memory as MetadataMemory
use secure_store.Security.Memory as SecurityMemory
use secure_store.Storage.Memory as StorageMemory
use secure_store.Users.Memory as UserMemory
use secure_store.Access.{valid_key}
use secure_store.Base64.{encode_std, symbol}
use secure_store.Cipher.{create_stream_reader}
use secure_store.Client.Headers.{header_text}
use secure_store.Client.Kept.{InOrder, download-upload}
use secure_store.Client.Unlocked.{download_from_key-access}
use secure_store.Client.Uploaded.{upload-unknown}
use secure_store.Compound.Memory.{
  memory_MetadataContract, memory_SecurityContract, memory_StorageContract,
}
use secure_store.Compound.Memory.Stores.{MemoryCompound, new_compound}
use secure_store.Compound.RoundTrip.{read-write}
use secure_store.Effects.{ok, user_with_api_key_doesnt_exist}
use secure_store.Effects.Reader.{Reader, read_all}
use secure_store.GoMap.{get, has, put}
use secure_store.Metadata.{new_metadata}
use secure_store.ObjectTable.Nested.{lookup}
use secure_store.Prelude.{String, [], codes, false, inl, refl, ◌∷◌, ◌≡◌, ◌⊎◌}
use secure_store.Prelude.Eq.{bytes_Eq, string_Eq}
use secure_store.Prelude.Int.{pos, ℤ}
use secure_store.Regexp.{match_all}
use secure_store.Sanitizer.{match_string, new_matcher}
use secure_store.Security.Keys.{new_encryption_key}
use secure_store.Tests.Network.{
  NetworkWorld, a_gin, network-Connected, server_world, the_network, the_server,
}
use secure_store.Tests.Objects.{write_succeeds}
use secure_store.Tests.Samples.{
  a_key, a_metadata, ann, bytes_of, one_block, one_block-IsByte, ordered_key, repeat, sent_bytes,
  unlock_key, upload_body, with_ann, with_bucket, with_object,
}
use secure_store.Url.Target.{IsAddress}
use secure_store.Users.{verify_api_key}

abbrev uploaded_objects : MemoryCompound
uploaded_objects =
    (Compound.write one_block MetadataMemory.memory_store SecurityMemory.memory_security_store
      StorageMemory.memory_storage "ab" "cd" (new_metadata (pos 3) "notes.txt")
      (record { key = repeat 32 7 }) upload_body with_bucket).1

abbrev the_address : String
the_address = "http://localhost:8080"

localhost-IsAddress : IsAddress (codes the_address)
localhost-IsAddress = record {
  scheme = codes "http";
  host = codes "localhost:8080";
  scheme_plain = refl;
  host_plain = refl;
  written = refl;
}

upload_taken :
    Compound.write one_block MetadataMemory.memory_store SecurityMemory.memory_security_store
      StorageMemory.memory_storage "ab" "cd"
      (new_metadata (pos 3) "notes.txt")
      (record { key = repeat 32 7 })
      upload_body
      with_bucket
    ≡ (ok tt, uploaded_objects)
unfolding Compound.write Compound.new_bucket new_compound MetadataMemory.write
    SecurityMemory.write_key StorageMemory.write MetadataMemory.new_bucket SecurityMemory.new_bucket
    StorageMemory.new_bucket has put lookup create_stream_reader read_all
    MetadataMemory.new_memory_store SecurityMemory.new_memory_security_store
    StorageMemory.new_memory_storage
upload_taken = refl

ann_found : UserMemory.resolve_by_api_key (5 ∷ 6 ∷ []) with_ann ≡ ok ann
unfolding UserMemory.resolve_by_api_key UserMemory.create has put encode_std symbol
    UserMemory.new_memory_store
ann_found = refl

upload-InOrder :
    InOrder the_server a_gin the_network the_address
      (network-Connected the_address)
      memory_MetadataContract
      memory_SecurityContract
      memory_StorageContract
      one_block-IsByte
      "ab"
      "cd"
      "notes.txt"
      upload_body
      (pos 3)
      (5 ∷ 6 ∷ [])
      sent_bytes
      server_world
      uploaded_objects
unfolding match_string new_matcher match_all new_encryption_key verify_api_key read_all header_text
    the_network
upload-InOrder = record {
  address = localhost-IsAddress;
  bucket_accepted = refl;
  key_accepted = refl;
  user = ann;
  api_key_bytes = bytes_of (5 ∷ 6 ∷ []) refl;
  resolved = ann_found;
  verified = refl;
  may_upload_data = refl;
  encryption_key = record { key = repeat 32 7 };
  made = refl;
  content_bytes = bytes_of sent_bytes refl;
  all_read = refl;
  length_told = inl refl;
  filename_sent = refl;
  upload_accepted = refl;
  download_accepted = refl;
  taken = upload_taken;
}

download-upload_example :
    (w' : NetworkWorld) × (body : Reader) × (told : ℤ) × (Client.upload the_network the_address "ab"
        "cd" upload_body
        (pos 3)
        "notes.txt"
        (5 ∷ 6 ∷ [])
        server_world
      ≡ (ok tt, w'))
    × (Client.download the_network the_address "ab" "cd" w' ≡ (ok (body, told), w'))
    × (read_all body ≡ ok sent_bytes)
    × ((told ≡ pos 3) ⊎ (told ≡ pos 3))
download-upload_example =
    download-upload the_server a_gin the_network the_address (network-Connected the_address)
      memory_MetadataContract memory_SecurityContract memory_StorageContract one_block-IsByte "ab"
      "cd" "notes.txt" upload_body (pos 3) (5 ∷ 6 ∷ []) sent_bytes server_world uploaded_objects
      upload-InOrder

upload-unknown_example :
    (w' : NetworkWorld) × (Client.upload the_network the_address "ab" "cd" upload_body
        (pos 3)
        "notes.txt"
        (9 ∷ [])
        server_world
      ≡ (ok tt, w'))
    × (w'.objects ≡ server_world.objects)
unfolding UserMemory.resolve_by_api_key UserMemory.create has put get encode_std symbol
    UserMemory.new_memory_store match_string new_matcher match_all header_text the_network read_all
upload-unknown_example =
    upload-unknown the_server a_gin the_network the_address (network-Connected the_address) "ab"
      "cd" "notes.txt" upload_body (pos 3) (9 ∷ []) sent_bytes localhost-IsAddress refl refl
      (bytes_of (9 ∷ []) refl) refl refl refl (inl refl) user_with_api_key_doesnt_exist server_world
      refl

-- A key under "link" for the object that is there.
abbrev link_world : NetworkWorld
link_world = record {
  objects = with_object;
  access = record {
    m = ("link", ordered_key) ∷ [];
    heap = record { next_pointer = 1; cells = λ p. 0 };
    watchers = [];
    kills = [];
    timers = [];
    clock = 10;
  };
  users = with_ann;
}

object_there :
    (out : Reader) × (Compound.read one_block MetadataMemory.memory_store
        SecurityMemory.memory_security_store StorageMemory.memory_storage "ab" "cd" with_object
      ≡ (ok (a_metadata, out), with_object))
    × (read_all out ≡ ok sent_bytes)
unfolding read_all
object_there =
    read-write one_block one_block-IsByte MetadataMemory.memory_store
      SecurityMemory.memory_security_store StorageMemory.memory_storage memory_MetadataContract
      memory_SecurityContract memory_StorageContract "ab" "cd" a_metadata a_key upload_body
      sent_bytes with_bucket with_object (bytes_of sent_bytes refl) refl write_succeeds

download_from_key-access_example :
    (body : Reader) × (told : ℤ) × (Client.download_from_key the_network the_address "link"
        unlock_key false link_world
      ≡ (
        ok (body, told),
        record link_world { access = (AccessMemory.access "link" link_world.access).1 },
      ))
    × (read_all body ≡ ok sent_bytes)
    × ((told ≡ pos 3) ⊎ (told ≡ pos 3))
unfolding AccessMemory.access get match_string new_matcher match_all valid_key ByteSet.contains has
    the_network
download_from_key-access_example =
    download_from_key-access the_server a_gin the_network the_address
      (network-Connected the_address) "link" unlock_key localhost-IsAddress refl
      (bytes_of unlock_key refl) false ordered_key (AccessMemory.access "link" link_world.access).1
      a_metadata object_there.0 sent_bytes link_world refl refl refl refl refl object_there.1
      object_there.2 (inl refl)
