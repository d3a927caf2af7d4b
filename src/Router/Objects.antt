-- ===== src/Router/Objects.antt =====
-- The routes of router.go on buckets and objects: /new-bucket, /download, /delete and
-- /delete-bucket, and the function `Download`.
use secure_store.Compound
use secure_store.Compound.{CompoundStore}
use secure_store.Effects.{bucket_id_matching, key_id_matching}
use secure_store.Effects.Reader.{Bytes}
use secure_store.Metadata.{MetadataStore}
use secure_store.Prelude.{String, if◌then◌else◌, not}
use secure_store.Router.{
  Handled, Request, abort, either, reply, said, send_data, status_bad_request,
  status_internal_server_error, status_ok, string,
}
use secure_store.Sanitizer.{match_string, new_matcher}
use secure_store.Security.{SecurityStore}
use secure_store.Storage.{Storage}

module _ {M S T : Type 0} (encrypt : Bytes → Bytes → Bytes) (ms : MetadataStore M)
    (ss : SecurityStore S) (ts : Storage T) where
  abbrev Objects : Type 0
  Objects = CompoundStore M S T

  unfoldable pub download : String → String → Objects → Handled Objects
  download bucket_id key_id s =
      either (Compound.read encrypt ms ss ts bucket_id key_id s)
        (λ found s'. send_data found.0.length found.1 found.0.filename s')
        (λ e s'. abort status_internal_server_error e s')

  unfoldable pub get_new_bucket : Request → Objects → Handled Objects
  get_new_bucket c s =
      let bucket_id = c.query "bucketId" in
      if not (match_string new_matcher bucket_id)
      then abort status_bad_request bucket_id_matching s
      else either (Compound.new_bucket encrypt ms ss ts bucket_id s)
          (λ _ s'. reply (string status_ok (said "Created bucket with id: " bucket_id)) s')
          (λ e s'. abort status_internal_server_error e s')

  unfoldable pub get_download : Request → Objects → Handled Objects
  unfolding download
  get_download c s =
      let bucket_id = c.query "bucketId" in
      let key_id = c.query "keyId" in
      if not (match_string new_matcher bucket_id)
      then abort status_bad_request bucket_id_matching s
      else if not (match_string new_matcher key_id)
      then abort status_bad_request key_id_matching s
      else download bucket_id key_id s

  unfoldable pub delete_object : Request → Objects → Handled Objects
  delete_object c s =
      let bucket_id = c.query "bucketId" in
      let key_id = c.query "keyId" in
      if not (match_string new_matcher bucket_id)
      then abort status_bad_request bucket_id_matching s
      else if not (match_string new_matcher key_id)
      then abort status_bad_request key_id_matching s
      else either (Compound.delete encrypt ms ss ts bucket_id key_id s)
          (λ _ s'.
            reply
              (string status_ok
                (said "Deleted with buket-id: " (said bucket_id (said " and key-id: " key_id))))
              s')
          (λ e s'. abort status_internal_server_error e s')

  unfoldable pub delete_bucket : Request → Objects → Handled Objects
  delete_bucket c s =
      let bucket_id = c.query "bucketId" in
      if not (match_string new_matcher bucket_id)
      then abort status_bad_request bucket_id_matching s
      else either (Compound.delete_bucket encrypt ms ss ts bucket_id s)
          (λ _ s'. reply (string status_ok (said "Deleted bucket-id: " bucket_id)) s')
          (λ e s'. abort status_internal_server_error e s')
