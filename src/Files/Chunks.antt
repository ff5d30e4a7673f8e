-- ===== src/Files/Chunks.antt =====
-- The running upload of files.service.ts: `handleChunk`, `finalizeUpload` and `cancelUpload`.
-- Values that the source draws (keys, times) are arguments, and so is what other requests do to
-- the state while a chunk is on its way to storage.
use redbox.Prelude.{
  ℕ, ◌+◌, String, Bool, true, false, not, [], ◌∷◌, ◌++◌, Option, none, some, ◌==◌, if◌then◌else◌,
  leb, is_some, length, or_else, Exec, Error, Result, ok, err, fault, bad_request, unauthorized,
  internal, pure, throw, gets, modify, check, ◌>>=◌, ◌>>◌,
}
use redbox.Prelude.Text.{truthy}
use redbox.Files.Limits.{expected_chunk_size, get_expected_encrypted_size, calculate_expiration}
use redbox.Files.State.{
  Services, World, UploadMeta, File, get_active_upload_key, get_upload_meta_key,
  get_upload_storage_index_key, transaction,
}
use redbox.Files.Steps.{
  sort_by, get_master_key_for_user, abort_multipart_upload, delete_meta, delete_index,
  release_active_upload, refresh_upload_state,
}
use redbox.Files.Upload.{Chunk, check_quota}

-- What `finalizeUpload` draws: the initialisation vector, the row's id and token, and the time.
pub record Drawn : Type 0 where
  pub file_key_iv : String
  pub file_id : String
  pub share_token : String
  pub now : ℕ

module _ (sv : Services) where
  open sv use {texts, documents, sets, storage, files, users, metas, indexes}

  -- `JSON.parse(await this.redis.get(metaKey))`, where a missing key is the error given, and a
  -- malformed text an exception.
  unfoldable pub read_meta : Error → String → String → Exec (World sv) UploadMeta
  read_meta missing user_id upload_id = do
    text ← gets (λ w. documents.get w.metas (get_upload_meta_key user_id upload_id))
    elim text [
      | none ↦ throw missing
      | some t ↦ elim (metas.parse t) [ none ↦ throw fault | some meta ↦ pure meta ]
    ]

  -- From UploadPart to the end of `handleChunk`.
  unfoldable pub send_part :
      (World sv → World sv)
      → String
      → String
      → UploadMeta
      → String
      → ℕ
      → String
      → ℕ
      → Exec (World sv) (Unit {0})
  send_part meanwhile user_id upload_id meta s3_id chunk_index buffer now w =
      let r = storage.upload_part w.storage meta.storage_key s3_id (chunk_index + 1) buffer in
      let w' = meanwhile (record w { storage = r.0 }) in
      let key = get_upload_meta_key user_id upload_id in
      elim r.1 [
        | none ↦ (err fault, w')
        | some etag ↦
            if is_some (documents.get w'.metas key)
            then refresh_upload_state sv user_id upload_id
                (record meta {
                  parts = meta.parts ++ record { part_number = chunk_index + 1; etag = etag } ∷ [];
                  next_expected_chunk = meta.next_expected_chunk + 1;
                  updated_at = some now;
                })
                w'
            else (
              err (bad_request "Upload was cancelled"),
              record w' { storage = (storage.abort_multipart w'.storage meta.storage_key s3_id).0 },
            )
      ]

  unfoldable pub handle_chunk :
      (World sv → World sv) → String → String → Option Chunk → ℕ → ℕ → Exec (World sv) (Unit {0})
  handle_chunk meanwhile user_id upload_id none chunk_index now =
      throw (bad_request "File data is missing")
  handle_chunk meanwhile user_id upload_id (some file) chunk_index now = do
    meta ← read_meta (bad_request "Invalid or expired Upload ID") user_id upload_id
    elim (truthy meta.s3_upload_id) [
      | none ↦ throw (bad_request "Invalid Upload ID")
      | some s3_id ↦
          if not (chunk_index == meta.next_expected_chunk)
          then throw (bad_request "Wrong chunk order.")
          else if leb meta.total_chunks chunk_index
          then throw (bad_request "Invalid chunk index.")
          else if not
              (file.size == expected_chunk_size meta.file_size meta.total_chunks chunk_index)
          then throw (bad_request "Invalid chunk size.")
          else (do
            refresh_upload_state sv user_id upload_id (record meta { updated_at = some now })
            send_part meanwhile user_id upload_id (record meta { updated_at = some now }) s3_id
                chunk_index file.buffer now)
    ]

  -- The row that `finalizeUpload` creates.
  abbrev pub file_row : String → UploadMeta → String → String → String → String → Drawn → File
  file_row user_id meta file_name mimetype master_key file_key drawn = record {
    id = drawn.file_id;
    share_token = drawn.share_token;
    original_name = file_name;
    storage_name = meta.storage_key;
    size = meta.file_size;
    mimetype = mimetype;
    user_id = user_id;
    password_hash = meta.password_hash;
    expires_at = calculate_expiration sv.dates drawn.now meta.expires_in;
    encrypted_file_key = sv.encrypt master_key drawn.file_key_iv file_key;
    file_key_iv = drawn.file_key_iv;
  }

  -- The size of the stored object is what the metadata promises.
  unfoldable pub check_object : UploadMeta → Exec (World sv) (Unit {0})
  check_object meta = do
    head ← gets (λ w. storage.head_object w.storage meta.storage_key)
    elim head [
      | none ↦ throw fault
      | some length ↦ elim (get_expected_encrypted_size meta.file_size) [
        | err e ↦ throw e
        | ok expected ↦ elim length [
          | none ↦ throw (internal "Stored file size validation failed")
          | some n ↦ check (n == expected) (internal "Stored file size validation failed")
        ]
      ]
    ]

  unfoldable pub create_row : String → File → Exec (World sv) File
  create_row user_id row = transaction do
    check_quota sv user_id row.size
    modify (λ w. record w { files = files.create w.files row })
    pure row

  -- Both ends of `finalizeUpload` drop the upload's state.
  abbrev pub drop_index : Option String → documents.State → documents.State
  drop_index none s = s
  drop_index (some s3_id) s = documents.del s (get_upload_storage_index_key s3_id)

  unfoldable pub drop_upload : String → String → UploadMeta → World sv → World sv
  drop_upload user_id upload_id meta w = record w {
    metas = documents.del w.metas (get_upload_meta_key user_id upload_id);
    indexes = drop_index (truthy meta.s3_upload_id) w.indexes;
    active = sets.remove w.active (get_active_upload_key user_id) (upload_id ∷ []);
  }

  abbrev pub rethrown : Error → Error
  rethrown (bad_request m) = bad_request m
  rethrown (unauthorized m) = unauthorized m
  rethrown _ = internal "Finalize failed"

  -- The `catch` of `finalizeUpload`: the object is deleted, or the upload aborted where storage
  -- had not completed it; failures of that are ignored.
  unfoldable pub give_up :
      Bool → String → String → UploadMeta → String → Error → World sv → Result File × World sv
  give_up completed user_id upload_id meta s3_id e w = (
    err (rethrown e),
    drop_upload user_id upload_id meta (record w {
      storage =
          if completed
          then (storage.delete_object w.storage meta.storage_key).0
          else (storage.abort_multipart w.storage meta.storage_key s3_id).0;
    }),
  )

  abbrev pub finished :
      String → String → UploadMeta → String → Result File × World sv → Result File × World sv
  finished user_id upload_id meta s3_id (ok row, w) = (ok row, drop_upload user_id upload_id meta w)
  finished user_id upload_id meta s3_id (err e, w) = give_up true user_id upload_id meta s3_id e w

  -- The `try` block of `finalizeUpload` with its `catch`.
  unfoldable pub complete_upload :
      String → String → UploadMeta → String → File → Exec (World sv) File
  complete_upload user_id upload_id meta s3_id row w =
      let parts = sort_by (λ p. p.part_number) meta.parts in
      let r = storage.complete_multipart w.storage meta.storage_key s3_id parts in
      let w' = record w { storage = r.0 } in
      if r.1
      then finished user_id upload_id meta s3_id ((check_object meta >> create_row user_id row) w')
      else give_up false user_id upload_id meta s3_id fault w'

  unfoldable pub finalize_upload :
      String → String → String → String → String → ℕ → Drawn → Exec (World sv) File
  finalize_upload user_id upload_id file_name mimetype file_key total_chunks drawn = do
    master_key ← get_master_key_for_user sv user_id
    meta ← read_meta (bad_request "Metadata expired") user_id upload_id
    check (length meta.parts == meta.total_chunks) (bad_request "Not all chunks uploaded yet")
    check (total_chunks == meta.total_chunks)
        (bad_request "Chunk count does not match initialized upload")
    complete_upload user_id upload_id meta (or_else meta.s3_upload_id "")
        (file_row user_id meta file_name mimetype master_key file_key drawn)

  -- `cancelUpload`: unknown or malformed metadata is only dropped.
  unfoldable pub abort_tracked : String → String → UploadMeta → Exec (World sv) (Unit {0})
  abort_tracked user_id upload_id meta = elim (truthy (some meta.storage_key)) [
    | none ↦ pure tt
    | some key ↦ elim (truthy meta.s3_upload_id) [
      | none ↦ pure tt
      | some s3_id ↦ abort_multipart_upload sv key s3_id >> delete_index sv s3_id
    ]
  ]

  unfoldable pub cancel_upload : String → String → Exec (World sv) (Unit {0})
  cancel_upload user_id upload_id = do
    text ← gets (λ w. documents.get w.metas (get_upload_meta_key user_id upload_id))
    elim text [
      | none ↦ release_active_upload sv user_id upload_id
      | some t ↦ elim (metas.parse t) [
        | none ↦ delete_meta sv user_id upload_id >> release_active_upload sv user_id upload_id
        | some meta ↦ do
          abort_tracked user_id upload_id meta
          delete_meta sv user_id upload_id
          release_active_upload sv user_id upload_id
      ]
    ]
