-- ===== src/Files/Reads.antt =====
-- Steps of the upload that change nothing, and finalizing as far as its checks.
use redbox.Prelude.{
  ℕ, String, ◌≡◌, some, arith, Error, Result-cases, ok, Option-cases, inl, inr, bad_request, length,
  or_else,
}
use redbox.Files.State.{Services, World, UploadMeta, File, get_upload_meta_key}
use redbox.Files.Steps.{get_master_key_for_user}
use redbox.Files.Chunks.{Drawn, read_meta, file_row, complete_upload, finalize_upload}

module _ (sv : Services) where
  pub get_master_key_reads :
      (user_id : String) (w : World sv) → (get_master_key_for_user sv user_id w).1 ≡ w
  unfolding get_master_key_for_user
  get_master_key_reads user_id w = ground arith

  pub read_meta_reads :
      (e : Error) (user_id upload_id : String) (w : World sv)
      → (read_meta sv e user_id upload_id w).1 ≡ w
  unfolding read_meta
  read_meta_reads e user_id upload_id w = ground arith

  -- The metadata that a read finds is what the key's text parses to.
  pub read_meta_found :
      (e : Error) (user_id upload_id : String) (w : World sv) (meta : UploadMeta)
      → (read_meta sv e user_id upload_id w).0 ≡ ok meta
      → (text : sv.Json) × (sv.documents.get w.metas (get_upload_meta_key user_id upload_id)
          ≡ some text)
        × (sv.metas.parse text ≡ some meta)
  unfolding read_meta
  read_meta_found e user_id upload_id w meta h =
      elim (Option-cases (sv.documents.get w.metas (get_upload_meta_key user_id upload_id))) [
        | inl e ↦ absurd (ground (arith, e))
        | inr (text, e) ↦ (text, e, ground (arith, e))
      ]

  pub read_meta_of :
      (e : Error) (user_id upload_id : String) (w : World sv) (meta : UploadMeta)
      → sv.documents.get w.metas (get_upload_meta_key user_id upload_id)
        ≡ some (sv.metas.stringify meta)
      → read_meta sv e user_id upload_id w ≡ (ok meta, w)
  unfolding read_meta
  read_meta_of e user_id upload_id w meta h = ground (arith, sv.metas.parse-stringify meta)

  -- What `finalizeUpload` has established when it starts to complete the upload.
  pub record Ready (user_id upload_id : String) (n : ℕ) (w : World sv) : Type 0 where
    pub master_key : String
    pub meta : UploadMeta
    pub session : (get_master_key_for_user sv user_id w).0 ≡ ok master_key
    pub tracked : (read_meta sv (bad_request "Metadata expired") user_id upload_id w).0 ≡ ok meta
    pub all_parts : length meta.parts ≡ meta.total_chunks
    pub agreed : n ≡ meta.total_chunks

  module _ (user_id upload_id name mimetype key : String) (n : ℕ) (drawn : Drawn)
      (w : World sv) where
    pub finalize_upload-eq-complete_upload :
        (r : Ready user_id upload_id n w)
        → finalize_upload sv user_id upload_id name mimetype key n drawn w
          ≡ complete_upload sv user_id upload_id r.meta
              (or_else r.meta.s3_upload_id "")
              (file_row sv user_id r.meta name mimetype r.master_key key drawn)
              w
    unfolding finalize_upload
    finalize_upload-eq-complete_upload r =
        rw
          (
            r.session,
            get_master_key_reads user_id w,
            r.tracked,
            read_meta_reads _ user_id upload_id w,
          )
          (ground (arith, r.all_parts, r.agreed))

    pub finalize_upload-Ready :
        (file : File)
        → (finalize_upload sv user_id upload_id name mimetype key n drawn w).0 ≡ ok file
        → Ready user_id upload_id n w
    unfolding finalize_upload
    finalize_upload-Ready file h =
        let master = get_master_key_reads user_id w in
        let reads = read_meta_reads (bad_request "Metadata expired") user_id upload_id w in
        elim (Result-cases (get_master_key_for_user sv user_id w).0) [
          | inr (x, e) ↦ absurd (ground (arith, e))
          | inl (master_key, e) ↦
              elim (Result-cases
                (read_meta sv (bad_request "Metadata expired") user_id upload_id w).0) [
                  | inr (x, f) ↦ absurd (ground (arith, e, f, master))
                  | inl (meta, f) ↦ record {
                    master_key = master_key;
                    meta = meta;
                    session = e;
                    tracked = f;
                    all_parts = ground (arith, e, f, master, reads);
                    agreed = ground (arith, e, f, master, reads);
                  }
                ]
        ]
