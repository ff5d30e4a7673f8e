-- ===== src/Files/Upload.antt =====
-- `initializeUpload` of files.service.ts: the quota, the new upload in storage and in Redis, and what
-- is undone when a step fails. Values that the source draws (ids, times, tokens) are arguments.
use redbox.Prelude.{
  ℕ, ◌+◌, String, [], ◌∷◌, Option, none, some, ◌===◌, ◌==◌, if◌then◌else◌, ltb, or_else, template,
  Exec, Error, Result, ok, err, fault, bad_request, unauthorized, internal, pure, throw, gets,
  check, ◌>>=◌, ◌>>◌,
}
use redbox.Database.{find_first, find_many}
use redbox.Files.Limits.{chunk_count, get_file_limits_for_username}
use redbox.Prelude.Text.{truthy}
use redbox.Files.State.{
  Services, World, UploadMeta, get_active_upload_key, get_upload_meta_key,
  get_upload_storage_index_key, transaction,
}
use redbox.Files.Steps.{
  hash_password, sum_sizes, get_master_key_for_user, set_upload_storage_index, store_meta,
  acquire_upload_init_lock, release_upload_init_lock,
}
use redbox.Files.Active.{reserve_active_upload}

-- What `initializeUpload` draws: uuids, the lock's token and the time.
pub record Fresh : Type 0 where
  pub upload_id : String
  pub storage_uuid : String
  pub token : String
  pub now : ℕ

-- An uploaded chunk: `file.size` and `file.buffer`.
pub record Chunk : Type 0 where
  pub size : ℕ
  pub buffer : String

module _ (sv : Services) where
  open sv use {texts, documents, sets, storage, files, users, metas, indexes}

  -- The checks of the upload's size against the user's limits, in a transaction: for
  -- `initializeUpload`, and for `finalizeUpload` before it creates the row.
  unfoldable pub check_quota : String → ℕ → Exec (World sv) (Unit {0})
  check_quota user_id file_size = do
    user ← gets (λ w. find_first users w.users (λ u. u.id === user_id))
    used ← gets (λ w. sum_sizes (find_many files w.files (λ f. f.user_id === user_id)))
    elim user [
      | none ↦ throw (unauthorized "User not found")
      | some u ↦
          let limits = get_file_limits_for_username sv.admin_username u.username in
          if ltb limits.max_file_size file_size
          then throw (bad_request "File too large")
          else if ltb limits.quota_limit (used + file_size)
          then throw (bad_request "Quota exceeded")
          else pure tt
    ]

  abbrev pub first_meta : ℕ → ℕ → Option String → Option String → Fresh → String → UploadMeta
  first_meta file_size total_chunks password expires_in fresh s3_id = record {
    total_chunks = total_chunks;
    next_expected_chunk = 0;
    file_size = file_size;
    password_hash = hash_password sv.bcrypt_hash password;
    expires_in = or_else expires_in "30d";
    storage_key = template (fresh.storage_uuid ∷ ".bin" ∷ []);
    s3_upload_id = some s3_id;
    parts = [];
    created_at = some fresh.now;
    updated_at = some fresh.now;
  }

  -- The `catch` of `initializeUpload` once storage has an upload; a failed abort is ignored. The
  -- flag `uploadReserved` is never set there, since reserving is the last step.
  unfoldable pub undo_initialize :
      String → Fresh → String → Error → World sv → Result String × World sv
  undo_initialize user_id fresh s3_id error w =
      let key = template (fresh.storage_uuid ∷ ".bin" ∷ []) in
      (
        err error,
        record w {
          storage = (storage.abort_multipart w.storage key s3_id).0;
          metas = documents.del w.metas (get_upload_meta_key user_id fresh.upload_id);
          indexes = documents.del w.indexes (get_upload_storage_index_key s3_id);
        },
      )

  -- `try { … } catch` around the reservation.
  abbrev pub reserved_or_undone :
      String → Fresh → String → Result (Unit {0}) × World sv → Result String × World sv
  reserved_or_undone user_id fresh s3_id (ok _, w) = (ok fresh.upload_id, w)
  reserved_or_undone user_id fresh s3_id (err e, w) = undo_initialize user_id fresh s3_id e w

  -- The `try` block, after CreateMultipartUpload has returned an id.
  unfoldable pub open_upload :
      String → ℕ → ℕ → Option String → Option String → Fresh → String → Exec (World sv) String
  open_upload user_id file_size total_chunks password expires_in fresh s3_id w =
      let key = get_upload_meta_key user_id fresh.upload_id in
      let started =
        store_meta sv user_id fresh.upload_id
          (first_meta file_size total_chunks password expires_in fresh s3_id) w in
      let indexed =
        (set_upload_storage_index sv s3_id
          (record {
            meta_key = key;
            active_key = get_active_upload_key user_id;
            upload_id = fresh.upload_id;
          })
          started).1 in
      reserved_or_undone user_id fresh s3_id
        (reserve_active_upload sv user_id fresh.upload_id indexed)

  unfoldable pub create_upload :
      String → ℕ → ℕ → Option String → Option String → Fresh → Exec (World sv) String
  create_upload user_id file_size total_chunks password expires_in fresh w =
      let r = storage.create_multipart w.storage (template (fresh.storage_uuid ∷ ".bin" ∷ [])) in
      let w' = record w { storage = r.0 } in
      elim r.1 [
        | none ↦ (err fault, w')
        | some answer ↦ elim (truthy answer) [
          | none ↦ (err (internal "Storage did not create a multipart upload"), w')
          | some s3_id ↦
              open_upload user_id file_size total_chunks password expires_in fresh s3_id w'
        ]
      ]

  -- The `try` block with its `catch`, and the `finally` that gives the lock back.
  unfoldable pub locked_create :
      String → ℕ → ℕ → Option String → Option String → Fresh → Exec (World sv) String
  locked_create user_id file_size total_chunks password expires_in fresh w =
      let r = create_upload user_id file_size total_chunks password expires_in fresh w in
      (r.0, release_upload_init_lock sv user_id fresh.token r.1)

  unfoldable pub initialize_upload :
      String → ℕ → ℕ → Option String → Option String → Fresh → Exec (World sv) String
  initialize_upload user_id file_size total_chunks password expires_in fresh = do
    get_master_key_for_user sv user_id
    check (total_chunks == chunk_count file_size) (bad_request "Invalid chunk count.")
    transaction (check_quota user_id file_size)
    acquire_upload_init_lock sv user_id fresh.token
    locked_create user_id file_size total_chunks password expires_in fresh
