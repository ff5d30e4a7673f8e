-- ===== src/Files/Cancel.antt =====
-- An upload that is cancelled while a chunk is on its way to storage.
use redbox.Prelude.{
  ℕ, ◌<◌, String, ◌≡◌, ◌≢◌, refl, sym, ◌∙◌, subst, Option, none, some, arith, ok, err, bad_request,
  Result, Option-cases, Result-cases, inl, inr, ===_refl,
}
use redbox.Prelude.Text.{truthy}
use redbox.Files.Limits.{expected_chunk_size}
use redbox.Files.State.{Services, World, UploadMeta, File, get_upload_meta_key}
use redbox.Files.Steps.{get_master_key_for_user, release_active_upload}
use redbox.Files.Upload.{Chunk}
use redbox.Files.Chunks.{
  handle_chunk, finalize_upload, cancel_upload, abort_tracked, read_meta, Drawn,
}
use redbox.Files.Reads.{get_master_key_reads}
use redbox.Files.Progress.{stored, reply_of, sending, sent, handle_chunk_sends, send_part_gone}

module _ (sv : Services) (user_id upload_id : String) where
  open sv use {documents, metas, storage}

  -- A cancellation that succeeds leaves no metadata.
  pub cancel_upload_drops :
      (w : World sv)
      → (cancel_upload sv user_id upload_id w).0 ≡ ok tt
      → stored sv user_id upload_id (cancel_upload sv user_id upload_id w).1 ≡ none
  unfolding cancel_upload release_active_upload
  cancel_upload_drops w h =
      let key = get_upload_meta_key user_id upload_id in
      let deleted = λ (s : documents.State). documents.get-del s key key in
      elim (Option-cases (stored sv user_id upload_id w)) [
        | inl e ↦ ground (arith, e)
        | inr (text, e) ↦ elim (Option-cases (metas.parse text)) [
          | inl p ↦ ground (arith, e, p, deleted w.metas, ===_refl key)
          | inr (meta, p) ↦
              let v = (abort_tracked sv user_id upload_id meta w).1 in
              elim (Result-cases (abort_tracked sv user_id upload_id meta w).0) [
                | inl (done, a) ↦ ground (arith, e, p, a, deleted v.metas, ===_refl key)
                | inr (x, a) ↦ absurd (ground (arith, h, e, p, a))
              ]
        ]
      ]

  -- Without metadata a chunk is refused, and nothing changes.
  pub handle_chunk_unknown :
      (meanwhile : World sv → World sv) (file : Chunk) (i now : ℕ) (w : World sv)
      → stored sv user_id upload_id w ≡ none
      → handle_chunk sv meanwhile user_id upload_id (some file) i now w
        ≡ (err (bad_request "Invalid or expired Upload ID"), w)
  unfolding handle_chunk read_meta
  handle_chunk_unknown meanwhile file i now w h = ground (arith, h)

  -- Without metadata no file is made.
  pub finalize_upload_unknown :
      (file_name mimetype file_key : String) (total : ℕ) (drawn : Drawn) (row : File) (w : World sv)
      → stored sv user_id upload_id w ≡ none
      → (finalize_upload sv user_id upload_id file_name mimetype file_key total drawn w).0 ≢ ok row
  unfolding finalize_upload read_meta
  finalize_upload_unknown file_name mimetype file_key total drawn row w h done =
      elim (Result-cases (get_master_key_for_user sv user_id w).0) [
        | inr (x, m) ↦ ground (arith, done, m)
        | inl (key, m) ↦
            let same = get_master_key_reads sv user_id w in ground (arith, done, m, same, h)
      ]

  module _ (before : World sv → World sv) (s3_id : String) (now : ℕ) where
    -- `cancelUpload`, after whatever other requests did.
    abbrev pub cancelling : World sv → World sv
    cancelling w = (cancel_upload sv user_id upload_id (before w)).1

    -- What is left once a chunk has met the cancellation of its upload.
    pub record Cancelled (answer : Result (Unit {0})) (w' : World sv) : Type 0 where
      pub refused : answer ≡ err (bad_request "Upload was cancelled")
      pub dropped : stored sv user_id upload_id w' ≡ none
      pub later :
          (meanwhile : World sv → World sv) (file : Chunk) (i time : ℕ)
          → handle_chunk sv meanwhile user_id upload_id (some file) i time w'
            ≡ (err (bad_request "Invalid or expired Upload ID"), w')
      pub unfinished :
          (file_name mimetype file_key : String) (total : ℕ) (drawn : Drawn) (row : File)
          → (finalize_upload sv user_id upload_id file_name mimetype file_key total drawn w').0
            ≢ ok row

    -- A chunk with the expected index and size is sent to storage, which takes it; while it is on its
    -- way, other requests do anything, and then cancelUpload of the same upload succeeds. Then the
    -- chunk is refused as cancelled, the upload's metadata is gone, every later chunk of the upload is
    -- refused as unknown and changes nothing, and finalizeUpload makes no file of it.
    pub handle_chunk-Cancelled :
        (meta : UploadMeta) (file : Chunk) (etag : Option String) (w : World sv)
        → stored sv user_id upload_id w ≡ some (metas.stringify meta)
        → truthy meta.s3_upload_id ≡ some s3_id
        → meta.next_expected_chunk < meta.total_chunks
        → file.size ≡ expected_chunk_size meta.file_size meta.total_chunks meta.next_expected_chunk
        → (reply_of sv user_id upload_id cancelling s3_id now meta file w).1 ≡ some etag
        → (let v = record (sending sv user_id upload_id cancelling s3_id now meta w) {
          storage = (reply_of sv user_id upload_id cancelling s3_id now meta file w).0;
        } in
            (cancel_upload sv user_id upload_id (before v)).0 ≡ ok tt)
        → let r =
            handle_chunk sv cancelling user_id upload_id
              (some file)
              meta.next_expected_chunk
              now
              w in
          Cancelled r.0 r.1
    handle_chunk-Cancelled meta file etag w h1 h2 h3 h4 h5 h6 =
        let v = sent sv user_id upload_id cancelling s3_id now meta file w in
        let gone : stored sv user_id upload_id v ≡ none = cancel_upload_drops _ h6 in
        let after =
          handle_chunk_sends sv user_id upload_id cancelling s3_id now meta file w h1 h2 h3 h4
          ∙ send_part_gone sv user_id upload_id cancelling s3_id now meta file etag w h5 gone in
        subst (λ r. Cancelled r.0 r.1) (sym after)
          record {
            refused = refl;
            dropped = gone;
            later = λ meanwhile file' i time. handle_chunk_unknown meanwhile file' i time _ gone;
            unfinished = λ name mimetype file_key total drawn row.
                finalize_upload_unknown name mimetype file_key total drawn row _ gone;
          }
