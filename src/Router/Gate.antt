-- ===== src/Router/Gate.antt =====
-- /api/download of router.go: who gets an object, and what those who do not are told.
use secure_store.Access.{AKey, valid_key}
use secure_store.Compound.{CompoundStore}
use secure_store.Effects.{Outcome-cases, access_forbidden, ok}
use secure_store.Effects.Reader.{Bytes}
use secure_store.Metadata.{MetadataStore}
use secure_store.Prelude.{
  Bool, Bool-cases, List, Option-cases, [], arith, false, inl, inr, length, some, true, ◌∷◌, ◌≡◌,
  ◌≢◌, ◌⊎◌,
}
use secure_store.Router.{
  AccessStore, Reply, Request, UserStorage, abort_with_error, data_from_reader, file, html,
  secure_json, status_forbidden, string,
}
use secure_store.Router.Api.{Served, World, api_download, given_key}
use secure_store.Sanitizer.{match_string, new_matcher}
use secure_store.Security.{SecurityStore}
use secure_store.Storage.{Storage}

unfoldable pub gives_data : List Reply → Bool
gives_data [] = false
gives_data (data_from_reader status length r name ∷ rs) = true
gives_data (abort_with_error status e ∷ rs) = gives_data rs
gives_data (string status text ∷ rs) = gives_data rs
gives_data (secure_json status user ∷ rs) = gives_data rs
gives_data (html status name ∷ rs) = gives_data rs
gives_data (file path ∷ rs) = gives_data rs

module _ {M S T A U : Type 0} (encrypt : Bytes → Bytes → Bytes) (ms : MetadataStore M)
    (ss : SecurityStore S) (ts : Storage T) (access_store : AccessStore A)
    (user_storage : UserStorage U) where
  abbrev W : Type 0
  W = World (CompoundStore M S T) A U

  abbrev serve : Bool → Request → W → Served W
  serve = api_download encrypt ms ss ts access_store user_storage

  -- The url key is accepted and stored, and its key asks for no unlock key or was given one of
  -- its valid keys.
  pub record MayOpen (c : Request) (w : W) : Type 0 where
    pub key : AKey
    pub accepted : match_string new_matcher (c.query "urlKey") ≡ true
    pub found : (access_store.access (c.query "urlKey") w.access).0 ≡ ok key
    pub unlocked :
        (key.needs_key ≡ false)
        ⊎ ((unlock_key : Bytes) × (given_key encrypt ms ss ts access_store user_storage c key
              ≡ some unlock_key)
            × (valid_key key unlock_key ≡ ok true))

  abbrev pub Opens : Bool → Request → W → Type 0
  Opens debug c w =
      ((serve debug c w).back_message ≡ some true)
      ⊎ (gives_data (serve debug c w).handled.replies ≡ true)

  accepted_of :
      (debug : Bool) (c : Request) (w : W)
      → Opens debug c w
      → match_string new_matcher (c.query "urlKey") ≡ true
  unfolding api_download gives_data
  accepted_of debug c w h = ground arith

  found_of :
      (debug : Bool) (c : Request) (w : W)
      → Opens debug c w
      → (key : AKey) × ((access_store.access (c.query "urlKey") w.access).0 ≡ ok key)
  unfolding api_download gives_data
  found_of debug c w h = elim (Outcome-cases (access_store.access (c.query "urlKey") w.access).0) [
    | inl f ↦ f
    | inr (inl e) ↦ ground arith
    | inr (inr (e, q)) ↦ ground arith
  ]

  unlocked_of :
      (debug : Bool) (c : Request) (w : W) (key : AKey)
      → Opens debug c w
      → (access_store.access (c.query "urlKey") w.access).0 ≡ ok key
      → (key.needs_key ≡ false)
        ⊎ ((unlock_key : Bytes) × (given_key encrypt ms ss ts access_store user_storage c key
              ≡ some unlock_key)
            × (valid_key key unlock_key ≡ ok true))
  unfolding api_download gives_data
  unlocked_of debug c w key h f =
      elim (Option-cases (given_key encrypt ms ss ts access_store user_storage c key)) [
        | inl n ↦ inl (ground arith)
        | inr (u, e) ↦ elim (Bool-cases key.needs_key) [
          | inl n ↦ inr (u, e, ground arith)
          | inr n ↦ inl n
        ]
      ]

  -- If /api/download reports a use to the access store or replies with an object, in debug mode
  -- or not, then the url key matched the pattern, the access store found a key for it, and that
  -- key asks for no unlock key, or the request gave an unlock key that decodes and that the key
  -- accepts.
  pub api_download-MayOpen : (debug : Bool) (c : Request) (w : W) → Opens debug c w → MayOpen c w
  api_download-MayOpen debug c w h =
      let f = found_of debug c w h in
      record {
        key = f.0;
        accepted = accepted_of debug c w h;
        found = f.1;
        unlocked = unlocked_of debug c w f.0 h f.1;
      }

  -- Outside the debug mode, every call of /api/download that does not report a use and does not
  -- panic replies with one abort only, status 403 and `access forbidden`, whatever the reason.
  pub api_download_uniform :
      (c : Request) (w : W)
      → (serve false c w).back_message ≢ some true
      → (serve false c w).handled.panicked ≡ false
      → (serve false c w).handled.replies ≡ abort_with_error status_forbidden access_forbidden ∷ []
  unfolding api_download
  api_download_uniform c w h n = ground arith
