-- ===== src/Files/Progress.antt =====
-- What `handleChunk` does to the metadata of an upload.
use redbox.Prelude.{
  ℕ, zero, suc, ◌+◌, ◌≤◌, ◌<◌, String, ◌≡◌, refl, ◌∙◌, true, List, [], ◌∷◌, ◌++◌, map, Option, none,
  some, arith, ok, err, bad_request, is_some, ===_refl,
}
use redbox.Storage.{Part}
use redbox.Files.Limits.{chunk_count, expected_chunk_size, upload_meta_ttl_seconds}
use redbox.Prelude.Text.{truthy}
use redbox.Files.State.{Services, World, UploadMeta, get_upload_meta_key}
use redbox.Files.Steps.{refresh_upload_state}
use redbox.Files.Upload.{Chunk}
use redbox.Files.Chunks.{send_part, handle_chunk}
use redbox.Files.Reads.{read_meta_of}

-- The part numbers `from`, `from + 1`, …
abbrev pub numbers : ℕ → ℕ → List ℕ
numbers from zero = []
numbers from (suc k) = from ∷ numbers (from + 1) k

abbrev pub part_numbers : List Part → List ℕ
part_numbers = map (λ p. p.part_number)

-- The metadata of an upload in progress: the parts 1, 2, … up to the next expected chunk, in
-- order, of a file with as many chunks as its size needs.
pub record IsTracked (meta : UploadMeta) : Type 0 where
  pub total : meta.total_chunks ≡ chunk_count meta.file_size
  pub ordered : part_numbers meta.parts ≡ numbers 1 meta.next_expected_chunk
  pub bounded : meta.next_expected_chunk ≤ meta.total_chunks

numbers-snoc : (from k : ℕ) → numbers from (suc k) ≡ numbers from k ++ (from + k) ∷ []
numbers-snoc from zero = ground arith
numbers-snoc from (suc k) = ground (arith, numbers-snoc (from + 1) k)

part_numbers-snoc :
    (ps : List Part) (p : Part)
    → part_numbers (ps ++ p ∷ []) ≡ part_numbers ps ++ p.part_number ∷ []
part_numbers-snoc [] p = refl
part_numbers-snoc (q ∷ ps) p = ground (arith, part_numbers-snoc ps p)

abbrev pub with_part : ℕ → Option String → UploadMeta → UploadMeta
with_part now etag meta = record meta {
  parts = meta.parts ++ record { part_number = meta.next_expected_chunk + 1; etag = etag } ∷ [];
  next_expected_chunk = meta.next_expected_chunk + 1;
  updated_at = some now;
}

pub with_part-IsTracked :
    (now : ℕ) (etag : Option String) (meta : UploadMeta)
    → IsTracked meta
    → meta.next_expected_chunk < meta.total_chunks
    → IsTracked (with_part now etag meta)
with_part-IsTracked now etag meta t h = record {
  total = t.total;
  ordered =
      part_numbers-snoc meta.parts _
      ∙ ground (arith, t.ordered, numbers-snoc 1 meta.next_expected_chunk);
  bounded = ground arith;
}

module _ (sv : Services) (user_id upload_id : String) where
  open sv use {texts, documents, metas, storage}

  abbrev pub stored : World sv → Option sv.Json
  stored w = documents.get w.metas (get_upload_meta_key user_id upload_id)

  pub stored-refresh :
      (meta : UploadMeta) (w : World sv)
      → stored (refresh_upload_state sv user_id upload_id meta w).1 ≡ some (metas.stringify meta)
  unfolding refresh_upload_state
  stored-refresh meta w =
      let key = get_upload_meta_key user_id upload_id in
      rw (
        documents.get-set w.metas key (metas.stringify meta) upload_meta_ttl_seconds key,
        ===_refl key,
      )

  refresh_ok :
      (meta : UploadMeta) (w : World sv)
      → (refresh_upload_state sv user_id upload_id meta w).0 ≡ ok tt
  unfolding refresh_upload_state
  refresh_ok meta w = refl

  module _ (meanwhile : World sv → World sv) (s3_id : String) (now : ℕ) where
    -- The metadata written before a part is sent, and the state in which it is sent.
    abbrev pub touched : UploadMeta → UploadMeta
    touched meta = record meta { updated_at = some now }

    abbrev pub sending : UploadMeta → World sv → World sv
    sending meta w = (refresh_upload_state sv user_id upload_id (touched meta) w).1

    -- Storage's answer to the part.
    abbrev pub reply_of : UploadMeta → Chunk → World sv → storage.State × Option (Option String)
    reply_of meta file w =
        storage.upload_part (sending meta w).storage meta.storage_key s3_id
          (meta.next_expected_chunk + 1) file.buffer

    -- The state when storage has answered, with what other requests did until then.
    abbrev pub sent : UploadMeta → Chunk → World sv → World sv
    sent meta file w = meanwhile (record (sending meta w) { storage = (reply_of meta file w).0 })

    pub handle_chunk_sends :
        (meta : UploadMeta) (file : Chunk) (w : World sv)
        → stored w ≡ some (metas.stringify meta)
        → truthy meta.s3_upload_id ≡ some s3_id
        → meta.next_expected_chunk < meta.total_chunks
        → file.size ≡ expected_chunk_size meta.file_size meta.total_chunks meta.next_expected_chunk
        → handle_chunk sv meanwhile user_id upload_id (some file) meta.next_expected_chunk now w
          ≡ send_part sv meanwhile user_id upload_id
              (touched meta)
              s3_id
              meta.next_expected_chunk
              file.buffer
              now
              (sending meta w)
    unfolding handle_chunk
    handle_chunk_sends meta file w h1 h2 h3 h4 =
        let found =
          read_meta_of sv (bad_request "Invalid or expired Upload ID") user_id upload_id w meta
            h1 in
        ground (arith, found, h2, h4, refresh_ok (touched meta) w)

    pub send_part_kept :
        (meta : UploadMeta) (file : Chunk) (etag : Option String) (w : World sv)
        → (reply_of meta file w).1 ≡ some etag
        → is_some (stored (sent meta file w)) ≡ true
        → send_part sv meanwhile user_id upload_id
            (touched meta)
            s3_id
            meta.next_expected_chunk
            file.buffer
            now
            (sending meta w)
          ≡ refresh_upload_state sv user_id upload_id (with_part now etag meta) (sent meta file w)
    unfolding send_part
    send_part_kept meta file etag w h5 h6 = rw (h5, send_part) (rw h6)

    -- A part that storage took while the metadata went is refused, and the multipart upload is sent
    -- an abort.
    pub send_part_gone :
        (meta : UploadMeta) (file : Chunk) (etag : Option String) (w : World sv)
        → (reply_of meta file w).1 ≡ some etag
        → stored (sent meta file w) ≡ none
        → let v = sent meta file w in
          send_part sv meanwhile user_id upload_id
            (touched meta)
            s3_id
            meta.next_expected_chunk
            file.buffer
            now
            (sending meta w)
          ≡ (
            err (bad_request "Upload was cancelled"),
            record v { storage = (storage.abort_multipart v.storage meta.storage_key s3_id).0 },
          )
    unfolding send_part
    send_part_gone meta file etag w h5 h6 = rw (h5, send_part) (rw h6 refl)

    -- The next chunk, of the right size, is accepted where storage takes it and no other request
    -- drops the upload meanwhile: the metadata then has one more part.
    pub handle_chunk_accepts :
        (meta : UploadMeta) (file : Chunk) (etag : Option String) (w : World sv)
        → stored w ≡ some (metas.stringify meta)
        → truthy meta.s3_upload_id ≡ some s3_id
        → meta.next_expected_chunk < meta.total_chunks
        → file.size ≡ expected_chunk_size meta.file_size meta.total_chunks meta.next_expected_chunk
        → (reply_of meta file w).1 ≡ some etag
        → is_some (stored (sent meta file w)) ≡ true
        → let r =
            handle_chunk sv meanwhile user_id upload_id
              (some file)
              meta.next_expected_chunk
              now
              w in
          (r.0 ≡ ok tt) × (stored r.1 ≡ some (metas.stringify (with_part now etag meta)))
    handle_chunk_accepts meta file etag w h1 h2 h3 h4 h5 h6 =
        let after =
          handle_chunk_sends meta file w h1 h2 h3 h4 ∙ send_part_kept meta file etag w h5 h6 in
        (rw after (refresh_ok _ _), rw after (stored-refresh _ _))
