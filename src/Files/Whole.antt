-- ===== src/Files/Whole.antt =====
-- The upload's metadata through accepted chunks, up to the last one.
use redbox.Prelude.{
  ℕ, zero, suc, ◌+◌, ◌<◌, String, ◌≡◌, refl, sym, ap, subst, ◌∙◌, true, List, [], ◌∷◌, Option, some,
  arith, ok, Option-cases, Bool-cases, inl, inr, length, is_some, bad_request, Exec, pure, ◌>>◌,
}
use redbox.Storage.{Part}
use redbox.Files.Limits.{expected_chunk_size}
use redbox.Prelude.Text.{truthy}
use redbox.Files.State.{Services, World, UploadMeta}
use redbox.Files.Upload.{Chunk}
use redbox.Files.Chunks.{handle_chunk, send_part}
use redbox.Files.Reads.{read_meta_of}
use redbox.Files.Progress.{
  IsTracked, numbers, part_numbers, with_part, with_part-IsTracked, stored, reply_of, sent,
  handle_chunk_accepts, handle_chunk_sends, touched, sending, stored-refresh,
}

length-numbers : (from k : ℕ) → length (numbers from k) ≡ k
length-numbers from zero = refl
length-numbers from (suc k) = omega (arith, length-numbers (from + 1) k)

length-part_numbers : (ps : List Part) → length (part_numbers ps) ≡ length ps
length-part_numbers [] = refl
length-part_numbers (p ∷ ps) = omega (arith, length-part_numbers ps)

-- An upload in progress has as many parts as the next expected chunk's index.
pub IsTracked-length :
    (meta : UploadMeta) → IsTracked meta → length meta.parts ≡ meta.next_expected_chunk
IsTracked-length meta t =
    sym (length-part_numbers meta.parts)
    ∙ ap length t.ordered
    ∙ length-numbers 1 meta.next_expected_chunk

module _ (sv : Services) (user_id upload_id : String) where
  open sv use {metas, storage}

  -- What an accepted chunk has met, and what it leaves behind.
  pub record Accepted (meta : UploadMeta) (file : Chunk) (i now : ℕ) (w' : World sv) : Type 0 where
    pub expected : i ≡ meta.next_expected_chunk
    pub sized : file.size ≡ expected_chunk_size meta.file_size meta.total_chunks i
    pub etag : Option String
    pub written : stored sv user_id upload_id w' ≡ some (metas.stringify (with_part now etag meta))
    pub tracked : IsTracked (with_part now etag meta)

  -- The tests of `handleChunk` before it sends the part.
  record Passed (meta : UploadMeta) (file : Chunk) (i : ℕ) : Type 0 where
    s3_id : String
    known : truthy meta.s3_upload_id ≡ some s3_id
    expected : i ≡ meta.next_expected_chunk
    inside : i < meta.total_chunks
    sized : file.size ≡ expected_chunk_size meta.file_size meta.total_chunks i

  handle_chunk-Passed :
      (meanwhile : World sv → World sv) (meta : UploadMeta) (file : Chunk) (i now : ℕ)
      (w : World sv)
      → stored sv user_id upload_id w ≡ some (metas.stringify meta)
      → (handle_chunk sv meanwhile user_id upload_id (some file) i now w).0 ≡ ok tt
      → Passed meta file i
  unfolding handle_chunk
  handle_chunk-Passed meanwhile meta file i now w h ok_i =
      let found =
        read_meta_of sv (bad_request "Invalid or expired Upload ID") user_id upload_id w meta h in
      elim (Option-cases (truthy meta.s3_upload_id)) [
        | inl e ↦ absurd (ground (arith, found, e))
        | inr (s3_id, e) ↦ record {
          s3_id = s3_id;
          known = e;
          expected = ground (arith, found, e);
          inside = ground (arith, found, e);
          sized = ground (arith, found, e);
        }
      ]

  handle_chunk-Accepted_next :
      (meanwhile : World sv → World sv) (meta : UploadMeta) (file : Chunk) (now : ℕ) (w : World sv)
      → stored sv user_id upload_id w ≡ some (metas.stringify meta)
      → IsTracked meta
      → Passed meta file meta.next_expected_chunk
      → (handle_chunk sv meanwhile user_id upload_id (some file) meta.next_expected_chunk now w).0
        ≡ ok tt
      → Accepted meta file meta.next_expected_chunk now
          (handle_chunk sv meanwhile user_id upload_id (some file) meta.next_expected_chunk now w).1
  unfolding send_part
  handle_chunk-Accepted_next meanwhile meta file now w h t p ok_i =
      let sends =
        handle_chunk_sends sv user_id upload_id meanwhile p.s3_id now meta file w h p.known p.inside
          p.sized in
      let reply = (reply_of sv user_id upload_id meanwhile p.s3_id now meta file w).1 in
      let after =
        stored sv user_id upload_id (sent sv user_id upload_id meanwhile p.s3_id now meta file w) in
      elim (Option-cases reply) [
        | inl e ↦ absurd (ground (arith, sends, e))
        | inr (etag, e) ↦ elim (Bool-cases (is_some after)) [
          | inr gone ↦ absurd (ground (arith, sends, e, gone))
          | inl kept ↦ record {
            expected = refl;
            sized = p.sized;
            etag = etag;
            written =
                (handle_chunk_accepts sv user_id upload_id meanwhile p.s3_id now meta file etag w h
                  p.known p.inside p.sized e kept).1;
            tracked = with_part-IsTracked now etag meta t p.inside;
          }
        ]
      ]

  -- Whatever other requests do meanwhile, a chunk is accepted only in order and in the right size,
  -- and an accepted chunk keeps the metadata in order.
  pub handle_chunk-Accepted :
      (meanwhile : World sv → World sv) (meta : UploadMeta) (file : Chunk) (i now : ℕ)
      (w : World sv)
      → stored sv user_id upload_id w ≡ some (metas.stringify meta)
      → IsTracked meta
      → (handle_chunk sv meanwhile user_id upload_id (some file) i now w).0 ≡ ok tt
      → Accepted meta file i now (handle_chunk sv meanwhile user_id upload_id (some file) i now w).1
  handle_chunk-Accepted meanwhile meta file i now w h t ok_i =
      let p = handle_chunk-Passed meanwhile meta file i now w h ok_i in
      subst
        (λ k.
          (handle_chunk sv meanwhile user_id upload_id (some file) k now w).0 ≡ ok tt
          → Passed meta file k
          → Accepted meta file k now
              (handle_chunk sv meanwhile user_id upload_id (some file) k now w).1)
        (sym p.expected) (λ done q. handle_chunk-Accepted_next meanwhile meta file now w h t q done)
        ok_i p

  -- Chunks sent one after the other, with no other request between them.
  pub send_all : List Chunk → ℕ → ℕ → Exec (World sv) (Unit {0})
  send_all [] i now = pure tt
  send_all (file ∷ rest) i now = do
    handle_chunk sv (λ w. w) user_id upload_id (some file) i now
    send_all rest (i + 1) now

  -- Each chunk has the size that its place requires.
  abbrev pub AllSized : ℕ → ℕ → List Chunk → ℕ → Type 0
  AllSized size total [] i = Unit {0}
  AllSized size total (file ∷ rest) i =
      (file.size ≡ expected_chunk_size size total i) × AllSized size total rest (i + 1)

  pub record Finished (meta : UploadMeta) (w' : World sv) : Type 0 where
    pub final : UploadMeta
    pub written : stored sv user_id upload_id w' ≡ some (metas.stringify final)
    pub tracked : IsTracked final
    pub total : final.total_chunks ≡ meta.total_chunks
    pub complete : length final.parts ≡ meta.total_chunks

  -- The storage takes every part.
  abbrev pub TakesParts : Type 0
  TakesParts =
      (s : storage.State) (key s3_id : String) (n : ℕ) (body : String)
      → (etag : Option String) × ((storage.upload_part s key s3_id n body).1 ≡ some etag)

  pub send_all-Finished :
      (files : List Chunk) (meta : UploadMeta) (s3_id : String) (now : ℕ) (w : World sv)
      → TakesParts
      → stored sv user_id upload_id w ≡ some (metas.stringify meta)
      → IsTracked meta
      → truthy meta.s3_upload_id ≡ some s3_id
      → meta.next_expected_chunk + length files ≡ meta.total_chunks
      → AllSized meta.file_size meta.total_chunks files meta.next_expected_chunk
      → ((send_all files meta.next_expected_chunk now w).0 ≡ ok tt)
        × Finished meta (send_all files meta.next_expected_chunk now w).1
  unfolding send_all
  send_all-Finished [] meta s3_id now w takes h t k n sized = (
    refl,
    record {
      final = meta;
      written = h;
      tracked = t;
      total = refl;
      complete = IsTracked-length meta t ∙ omega arith;
    },
  )
  send_all-Finished (file ∷ rest) meta s3_id now w takes h t k n sized =
      let m = meta.next_expected_chunk in
      let v = sending sv user_id upload_id (λ w. w) s3_id now meta w in
      let (etag, e) = takes v.storage meta.storage_key s3_id (m + 1) file.buffer in
      let kept : is_some (stored sv user_id upload_id v) ≡ true = rw (
        stored-refresh sv user_id upload_id (touched sv user_id upload_id (λ w. w) s3_id now meta)
          w) in
      let (done, written) =
        handle_chunk_accepts sv user_id upload_id (λ w. w) s3_id now meta file etag w h k
          (omega arith) sized.0 e kept in
      let next = with_part now etag meta in
      let (ends, f) =
        send_all-Finished rest next s3_id now
          (handle_chunk sv (λ w. w) user_id upload_id (some file) m now w).1 takes written
          (with_part-IsTracked now etag meta t (omega arith)) k (omega arith) sized.1 in
      rw done (
        ends,
        record {
          final = f.final;
          written = f.written;
          tracked = f.tracked;
          total = f.total;
          complete = f.complete;
        },
      )
