-- ===== src/Accounts/AdminContent.antt =====
-- admin/users/admin-users.service.ts: what a user's content is, in the database, in storage and in
-- Redis, and how it is deleted. The JSON `meta` of audit logs is left out. Storage calls that run
-- side by side are made one after the other.
use redbox.Prelude.{
  ℕ, ◌+◌, String, ◌&&◌, List, [], ◌∷◌, ◌++◌, map, length, Option, none, some, ◌===◌, if◌then◌else◌,
  contains, template, Exec, not_found, pure, throw, gets, modify, ◌>>=◌, ◌>>◌, is_empty,
}
use redbox.Prelude.Text.{truthy}
use redbox.Database.{find_many}
use redbox.Accounts.State.{
  UserStatus, deleted, admin, User, FileRow, UploadRef, Services, World, master_key_key,
}
use redbox.Accounts.Users.{
  AuditOptions, user_of, update_user, owns_code, resolve_open_restrictions, create_audit_log,
  delete_s3_objects, mail_keys, settle_request,
}

-- UserContentDeletionSnapshot, UserContentDeletionCounts and UserRedisCleanupResult.
pub record Snapshot : Type 0 where
  pub file_storage_names : List String
  pub mail_storage_keys : List String

pub record DeletionCounts : Type 0 where
  pub deleted_uploads_count : ℕ
  pub deleted_mails_count : ℕ
  pub deleted_bins_count : ℕ
  pub deleted_links_count : ℕ

pub record RedisCleanup : Type 0 where
  pub deleted_redis_keys_count : ℕ
  pub aborted_active_uploads_count : ℕ

unfoldable pub get_active_upload_key : String → String
get_active_upload_key user_id = template ("upload:active:" ∷ user_id ∷ [])

-- `getUploadMetaPattern` without its `*`.
unfoldable pub upload_meta_prefix : String → String
upload_meta_prefix user_id = template ("upload:meta:" ∷ user_id ∷ ":" ∷ [])

unfoldable pub get_upload_meta_key : String → String → String
get_upload_meta_key user_id upload_id = template (upload_meta_prefix user_id ∷ upload_id ∷ [])

-- `[...new Set(xs)]`, with the last of equal texts in place of the first.
unfoldable pub unique : List String → List String
unique [] = []
unique (x ∷ xs) = let rest = unique xs in if contains x xs then rest else x ∷ rest

module _ (sv : Services) where
  unfoldable pub find_user_or_throw : String → Exec (World sv) User
  find_user_or_throw user_id = do
    found ← gets (user_of sv user_id)
    elim found [ none ↦ throw (not_found "User not found") | some u ↦ pure u ]

  unfoldable pub build_user_content_deletion_snapshot : String → World sv → Snapshot
  build_user_content_deletion_snapshot user_id w = record {
    file_storage_names =
        map (λ f. f.storage_name) (find_many sv.files w.files (λ r. r.user_id === user_id));
    mail_storage_keys = mail_keys sv (find_many sv.mails w.mails (λ r. r.user_id === user_id));
  }

  unfoldable pub delete_snapshot : Snapshot → World sv → World sv
  delete_snapshot s w = record w {
    file_storage = delete_s3_objects sv s.file_storage_names w.file_storage;
    mail_storage = delete_s3_objects sv s.mail_storage_keys w.mail_storage;
  }

  unfoldable pub count_user_content : String → World sv → DeletionCounts
  count_user_content user_id w = record {
    deleted_uploads_count = length (find_many sv.files w.files (λ r. r.user_id === user_id));
    deleted_mails_count = length (find_many sv.mails w.mails (λ r. r.user_id === user_id));
    deleted_bins_count = length (find_many sv.owned w.bins (λ r. r.user_id === user_id));
    deleted_links_count = length (find_many sv.owned w.links (λ r. r.user_id === user_id));
  }

  unfoldable pub clear_user_content_records : String → World sv → DeletionCounts × World sv
  clear_user_content_records user_id w = (
    count_user_content user_id w,
    record w {
      links = sv.owned.delete_many w.links (λ r. r.user_id === user_id);
      bins = sv.owned.delete_many w.bins (λ r. r.user_id === user_id);
      mails = sv.mails.delete_many w.mails (λ r. r.user_id === user_id);
      files = sv.files.delete_many w.files (λ r. r.user_id === user_id);
    },
  )

  -- `createAuditLog` without a status.
  unfoldable pub create_content_audit_log :
      String → String → String → Option String → World sv → World sv
  create_content_audit_log admin_user_id user_id action reason w = record w {
    audit_logs = sv.audit_logs.create w.audit_logs (record {
      actor_type = admin;
      admin_user_id = some admin_user_id;
      target_user_id = user_id;
      action = action;
      previous_status = none;
      new_status = none;
      reason = reason;
    });
  }

  -- The keys of a user's uploads: those of the active set, and those that SCAN finds.
  unfoldable pub get_active_upload_meta_keys : String → World sv → List String
  get_active_upload_meta_keys user_id w =
      map (get_upload_meta_key user_id)
        (sv.sets.members w.active_uploads (get_active_upload_key user_id))

  unfoldable pub upload_meta_keys : String → World sv → List String
  upload_meta_keys user_id w =
      unique (
        get_active_upload_meta_keys user_id w
        ++ sv.scan w.upload_metas (upload_meta_prefix user_id))

  -- One upload: the storage state, and whether it was aborted.
  unfoldable pub abort_ref : Option UploadRef → sv.storage.State → sv.storage.State × ℕ
  abort_ref none s = (s, 0)
  abort_ref (some ref) s = elim (truthy ref.storage_key) [
    | none ↦ (s, 0)
    | some key ↦ elim (truthy ref.s3_upload_id) [
      | none ↦ (s, 0)
      | some upload_id ↦
          let (s', aborted) = sv.storage.abort_multipart s key upload_id in
          (s', if aborted then 1 else 0)
    ]
  ]

  -- What the key holds, `none` if nothing or no JSON.
  abbrev pub ref_at : World sv → String → Option UploadRef
  ref_at w key = elim (sv.documents.get w.upload_metas key) [
    | none ↦ none
    | some v ↦ sv.parse_ref v
  ]

  unfoldable pub abort_redis_backed_uploads : List String → World sv → World sv × ℕ
  abort_redis_backed_uploads [] w = (w, 0)
  abort_redis_backed_uploads (key ∷ keys) w =
      let (s, n) = abort_ref (ref_at w key) w.file_storage in
      let (w', m) = abort_redis_backed_uploads keys (record w { file_storage = s }) in (w', n + m)

  -- DEL of keys that hold metadata, and how many of them held some.
  unfoldable pub delete_meta_keys : List String → sv.documents.State → sv.documents.State × ℕ
  delete_meta_keys [] s = (s, 0)
  delete_meta_keys (key ∷ keys) s =
      let (s', n) = delete_meta_keys keys (sv.documents.del s key) in
      (s', (elim (sv.documents.get s key) [ none ↦ 0 | some v ↦ 1 ]) + n)

  -- The members leave the active set, which is then gone.
  abbrev pub delete_active_key : String → World sv → World sv × ℕ
  delete_active_key user_id w =
      let key = get_active_upload_key user_id in
      let members = sv.sets.members w.active_uploads key in
      (
        record w { active_uploads = sv.sets.remove w.active_uploads key members },
        if is_empty members then 0 else 1,
      )

  abbrev pub delete_master_key : String → World sv → World sv × ℕ
  delete_master_key user_id w = (
    record w { master_keys = sv.texts.del w.master_keys (master_key_key user_id) },
    elim (sv.texts.get w.master_keys (master_key_key user_id)) [ none ↦ 0 | some k ↦ 1 ],
  )

  -- `deleteRedisKeys` of the master key, the active set and the metadata.
  unfoldable pub delete_redis_keys : String → List String → World sv → World sv × ℕ
  delete_redis_keys user_id meta_keys w =
      let (w1, a) = delete_master_key user_id w in
      let (w2, b) = delete_active_key user_id w1 in
      let (metas, c) = delete_meta_keys meta_keys w2.upload_metas in
      (record w2 { upload_metas = metas }, a + b + c)

  unfoldable pub clear_user_redis_data : String → World sv → World sv × RedisCleanup
  clear_user_redis_data user_id w =
      let keys = upload_meta_keys user_id w in
      let (w1, aborted) = abort_redis_backed_uploads keys w in
      let (w2, n) = delete_redis_keys user_id keys w1 in
      (w2, record { deleted_redis_keys_count = n; aborted_active_uploads_count = aborted })

  -- The rows that the transaction deletes beside the content.
  abbrev pub delete_sender_and_code_rows : String → World sv → World sv
  delete_sender_and_code_rows user_id w = record w {
    blocked_senders = sv.owned.delete_many w.blocked_senders (λ r. r.user_id === user_id);
    invite_codes = sv.invite_codes.delete_many w.invite_codes (owns_code user_id);
  }

  unfoldable pub delete_user_data_and_mark_deleted :
      String → AuditOptions → UserStatus → Option String → ℕ → String → World sv → World sv
  delete_user_data_and_mark_deleted user_id o previous request now uuid w =
      let emptied = delete_snapshot (build_user_content_deletion_snapshot user_id w) w in
      let cleared =
        resolve_open_restrictions sv user_id now
          (delete_sender_and_code_rows user_id (clear_user_content_records user_id emptied).1) in
      (clear_user_redis_data user_id (
        create_audit_log sv o user_id previous deleted (
          update_user sv user_id
            (λ u. record u { status = deleted; issued_codes = 0; session_key = uuid })
            (settle_request sv user_id request now cleared)))).0

  unfoldable pub clear_user_data :
      String → String → Option String → Exec (World sv) (DeletionCounts × RedisCleanup)
  clear_user_data admin_user_id user_id reason = do
    find_user_or_throw user_id
    snapshot ← gets (build_user_content_deletion_snapshot user_id)
    modify (delete_snapshot snapshot)
    counts ← gets (count_user_content user_id)
    modify (λ w.
        create_content_audit_log admin_user_id user_id "user_data_cleared" reason
          (clear_user_content_records user_id w).1)
    cleanup ← gets (λ w. (clear_user_redis_data user_id w).1)
    modify (λ w. (clear_user_redis_data user_id w).0)
    pure (counts, cleanup)

  -- The files of `dto.fileIds` that are the user's.
  abbrev pub files_among : List String → String → World sv → List FileRow
  files_among ids user_id w =
      find_many sv.files w.files (λ f. contains f.id ids && f.user_id === user_id)

  abbrev pub delete_files : String → String → Option String → List FileRow → World sv → World sv
  delete_files admin_user_id user_id reason found w =
      let ids = map (λ f. f.id) found in
      create_content_audit_log admin_user_id user_id "user_files_deleted" reason (record w {
        file_storage = delete_s3_objects sv (map (λ f. f.storage_name) found) w.file_storage;
        files = sv.files.delete_many w.files (λ f. contains f.id ids && f.user_id === user_id);
      })

  -- The ids of the deleted files.
  unfoldable pub delete_user_files :
      String → String → List String → Option String → Exec (World sv) (List String)
  delete_user_files admin_user_id user_id file_ids reason = do
    find_user_or_throw user_id
    found ← gets (files_among file_ids user_id)
    if is_empty found then pure [] else (do
      modify (delete_files admin_user_id user_id reason found)
      pure (map (λ f. f.id) found))
