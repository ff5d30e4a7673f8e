-- ===== src/Files/Active.antt =====
-- The active uploads of a user in files.service.ts: `reserveActiveUpload` and
-- `makeRoomForActiveUpload`, which aborts the uploads that a new one replaces.
use redbox.Prelude.{
  ◌+◌, ◌-◌, String, List, [], ◌∷◌, none, some, if◌then◌else◌, ltb, length, or_else, Exec, pure,
  gets, modify, ◌>>=◌, ◌>>◌,
}
use redbox.Files.Limits.{upload_meta_ttl_seconds, max_active_uploads_per_user}
use redbox.Prelude.Text.{truthy}
use redbox.Files.State.{Services, World, UploadMeta, get_active_upload_key, get_upload_meta_key}
use redbox.Files.Steps.{
  ActiveUploadCandidate, sort_by, take, abort_multipart_upload, delete_meta, delete_index,
  release_active_upload,
}

-- The uploads of a user's active set, sorted as `makeRoomForActiveUpload` sorts them.
pub record Sorted : Type 0 where
  pub candidates : List ActiveUploadCandidate
  pub stale_upload_ids : List String
  pub stale_meta_keys : List String

module _ (sv : Services) where
  open sv use {texts, documents, sets, storage, files, users, metas, indexes}

  unfoldable pub classify : String → World sv → List String → Sorted
  classify user_id w [] = record { candidates = []; stale_upload_ids = []; stale_meta_keys = [] }
  classify user_id w (upload_id ∷ ids) =
      let rest = classify user_id w ids in
      let key = get_upload_meta_key user_id upload_id in
      elim (documents.get w.metas key) [
        | none ↦ record rest { stale_upload_ids = upload_id ∷ rest.stale_upload_ids }
        | some text ↦ elim (metas.parse text) [
          | none ↦ record rest {
            stale_upload_ids = upload_id ∷ rest.stale_upload_ids;
            stale_meta_keys = key ∷ rest.stale_meta_keys;
          }
          | some meta ↦ record rest {
            candidates =
                record {
                  upload_id = upload_id;
                  meta = meta;
                  created_at = or_else meta.created_at 0;
                }
                ∷ rest.candidates;
          }
        ]
      ]

  abbrev pub delete_keys : List String → documents.State → documents.State
  delete_keys [] s = s
  delete_keys (key ∷ keys) s = delete_keys keys (documents.del s key)

  unfoldable pub abort_stored : UploadMeta → Exec (World sv) (Unit {0})
  abort_stored meta = elim (truthy meta.s3_upload_id) [
    | none ↦ pure tt
    | some s3_id ↦ elim (truthy (some meta.storage_key)) [
      | none ↦ pure tt
      | some key ↦ abort_multipart_upload sv key s3_id >> delete_index sv s3_id
    ]
  ]

  unfoldable pub abort_active_upload : String → ActiveUploadCandidate → Exec (World sv) (Unit {0})
  abort_active_upload user_id candidate = do
    abort_stored candidate.meta
    delete_meta sv user_id candidate.upload_id
    release_active_upload sv user_id candidate.upload_id

  unfoldable pub abort_all : String → List ActiveUploadCandidate → Exec (World sv) (Unit {0})
  abort_all user_id [] = pure tt
  abort_all user_id (c ∷ cs) = do abort_active_upload user_id c; abort_all user_id cs

  -- The part of `makeRoomForActiveUpload` for a set that is full.
  unfoldable pub replace_active : String → List String → Exec (World sv) (Unit {0})
  replace_active user_id upload_ids w =
      let found = classify user_id w upload_ids in
      let cleaned = record w {
        active = sets.remove w.active (get_active_upload_key user_id) found.stale_upload_ids;
        metas = delete_keys found.stale_meta_keys w.metas;
      } in
      let uploads_to_remove = length found.candidates + 1 - max_active_uploads_per_user in
      abort_all user_id (take uploads_to_remove (sort_by (λ c. c.created_at) found.candidates))
        cleaned

  unfoldable pub make_room_for_active_upload : String → Exec (World sv) (Unit {0})
  make_room_for_active_upload user_id = do
    upload_ids ← gets (λ w. sets.members w.active (get_active_upload_key user_id))
    if ltb (length upload_ids) max_active_uploads_per_user
        then pure tt
        else replace_active user_id upload_ids

  unfoldable pub reserve_active_upload : String → String → Exec (World sv) (Unit {0})
  reserve_active_upload user_id upload_id = do
    make_room_for_active_upload user_id
    modify (λ w. record w {
      active =
          sets.expire (sets.add w.active (get_active_upload_key user_id) upload_id)
            (get_active_upload_key user_id) upload_meta_ttl_seconds;
    })
