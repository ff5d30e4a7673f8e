-- ===== src/Files/Started.antt =====
-- `initializeUpload`: the upload that it starts.
use redbox.Prelude.{
  ℕ, String, ◌≡◌, refl, ◌∙◌, [], Option, none, some, arith, ok, ◌==◌, Bool-cases, Option-cases,
  Result-cases, inl, inr, ===_refl, subst, sym, ap, template, ◌∷◌,
}
use redbox.Prelude.Text.{truthy, is_blank}
use redbox.Files.Limits.{chunk_count, upload_meta_ttl_seconds, upload_init_lock_ttl_seconds}
use redbox.Files.State.{
  Services, World, UploadMeta, get_active_upload_key, get_upload_meta_key,
  get_upload_storage_index_key, init_lock_key,
}
use redbox.Files.Steps.{
  get_master_key_for_user, acquire_upload_init_lock, release_upload_init_lock,
  set_upload_storage_index,
}
use redbox.Files.Upload.{
  Fresh, check_quota, first_meta, undo_initialize, open_upload, create_upload, locked_create,
  initialize_upload,
}
use redbox.Files.Active.{reserve_active_upload}
use redbox.Files.Reads.{get_master_key_reads}
use redbox.Files.Progress.{IsTracked, stored}
use redbox.Files.Quota.{Fits, check_quota_sound, check_quota_reads}
use redbox.Files.Apart.{All, OtherUpload, stored-reserve_active_upload}

module _ (sv : Services) (user_id : String) (file_size total : ℕ)
    (password expires_in : Option String) (fresh : Fresh) where
  open sv use {documents, sets, storage, metas}

  -- The metadata that is stored for the new upload.
  record Opened (s3_id : String) (answer : String) (w' : World sv) : Type 0 where
    same : answer ≡ fresh.upload_id
    written :
        stored sv user_id fresh.upload_id w'
        ≡ some (metas.stringify (first_meta sv file_size total password expires_in fresh s3_id))

  open_upload-Opened :
      (s3_id answer : String) (w : World sv)
      → All
          (OtherUpload sv user_id fresh.upload_id)
          (sets.members w.active (get_active_upload_key user_id))
      → (open_upload sv user_id file_size total password expires_in fresh s3_id w).0 ≡ ok answer
      → Opened s3_id answer
          (open_upload sv user_id file_size total password expires_in fresh s3_id w).1
  unfolding open_upload set_upload_storage_index undo_initialize
  open_upload-Opened s3_id answer w apart h =
      let key = get_upload_meta_key user_id fresh.upload_id in
      let text = metas.stringify (first_meta sv file_size total password expires_in fresh s3_id) in
      let v : World sv = record w {
        metas = documents.set w.metas key text upload_meta_ttl_seconds;
        indexes =
            documents.set w.indexes (get_upload_storage_index_key s3_id)
              (sv.indexes.stringify (record {
                meta_key = key;
                active_key = get_active_upload_key user_id;
                upload_id = fresh.upload_id;
              }))
              upload_meta_ttl_seconds;
      } in
      let set = documents.get-set w.metas key text upload_meta_ttl_seconds key in
      let kept = stored-reserve_active_upload sv user_id fresh.upload_id v apart in
      elim (Result-cases (reserve_active_upload sv user_id fresh.upload_id v).0) [
        | inr (x, e) ↦ absurd (ground (arith, h, e))
        | inl (t, e) ↦ record {
          same = ground (arith, h, e);
          written = ground (arith, e, kept, set, ===_refl key);
        }
      ]

  pub record Started (answer : String) (w w' : World sv) : Type 0 where
    pub fits : Fits sv user_id file_size w
    pub id : answer ≡ fresh.upload_id
    pub meta : UploadMeta
    pub written : stored sv user_id fresh.upload_id w' ≡ some (metas.stringify meta)
    pub tracked : IsTracked meta
    pub size : meta.file_size ≡ file_size
    pub empty : meta.parts ≡ []
    pub s3_id : String
    pub known : truthy meta.s3_upload_id ≡ some s3_id

  first_meta-IsTracked :
      (s3_id : String)
      → total ≡ chunk_count file_size
      → IsTracked (first_meta sv file_size total password expires_in fresh s3_id)
  first_meta-IsTracked s3_id h = record { total = h; ordered = refl; bounded = omega arith }

  truthy_again : (a : Option String) (s : String) → truthy a ≡ some s → truthy (some s) ≡ some s
  unfolding truthy
  truthy_again none s h = absurd (ground (arith, h))
  truthy_again (some a) s h = elim (Bool-cases (is_blank a)) [
    | inl e ↦ absurd (ground (arith, h, e))
    | inr e ↦ ground (arith, h, e)
  ]

  record Created (answer : String) (w' : World sv) : Type 0 where
    s3_id : String
    opened : Opened s3_id answer w'
    again : truthy (some s3_id) ≡ some s3_id

  create_upload-Created :
      (answer : String) (w : World sv)
      → All
          (OtherUpload sv user_id fresh.upload_id)
          (sets.members w.active (get_active_upload_key user_id))
      → (create_upload sv user_id file_size total password expires_in fresh w).0 ≡ ok answer
      → Created answer (create_upload sv user_id file_size total password expires_in fresh w).1
  unfolding create_upload
  create_upload-Created answer w apart h =
      let r = storage.create_multipart w.storage (template (fresh.storage_uuid ∷ ".bin" ∷ [])) in
      let w1 : World sv = record w { storage = r.0 } in
      elim (Option-cases r.1) [
        | inl e ↦ absurd (ground (arith, h, e))
        | inr (a, e) ↦ elim (Option-cases (truthy a)) [
          | inl f ↦ absurd (ground (arith, h, e, f))
          | inr (s3_id, f) ↦
              let same : create_upload sv user_id file_size total password expires_in fresh w
                  ≡ open_upload sv user_id file_size total password expires_in fresh s3_id w1 =
                ground (arith, e, f) in
              record {
                s3_id = s3_id;
                again = truthy_again a s3_id f;
                opened =
                    subst (λ p. Opened s3_id answer p.1) (sym same)
                      (open_upload-Opened s3_id answer w1 apart (sym (ap (λ p. p.0) same) ∙ h));
              }
        ]
      ]

  abbrev locked : World sv → World sv
  locked w = record w {
    locks =
        (sv.texts.set_nx w.locks (init_lock_key user_id) fresh.token
          upload_init_lock_ttl_seconds).0;
  }

  -- The steps before the upload is created.
  record Admitted (w : World sv) : Type 0 where
    fits : Fits sv user_id file_size w
    count : total ≡ chunk_count file_size
    next :
        initialize_upload sv user_id file_size total password expires_in fresh w
        ≡ locked_create sv user_id file_size total password expires_in fresh (locked w)

  initialize_upload-Admitted :
      (answer : String) (w : World sv)
      → (initialize_upload sv user_id file_size total password expires_in fresh w).0 ≡ ok answer
      → Admitted w
  unfolding initialize_upload acquire_upload_init_lock
  initialize_upload-Admitted answer w h =
      let first = get_master_key_reads sv user_id w in
      let second = check_quota_reads sv user_id file_size w in
      let taken =
        sv.texts.set_nx w.locks (init_lock_key user_id) fresh.token upload_init_lock_ttl_seconds in
      elim (Result-cases (get_master_key_for_user sv user_id w).0) [
        | inr (x, m) ↦ absurd (ground (arith, h, m))
        | inl (key, m) ↦ elim (Bool-cases (total == chunk_count file_size)) [
          | inr c ↦ absurd (ground (arith, h, m, c))
          | inl c ↦ elim (Result-cases (check_quota sv user_id file_size w).0) [
            | inr (x, q) ↦ absurd (ground (arith, h, m, c, q, first))
            | inl (t, q) ↦ elim (Bool-cases taken.1) [
              | inr l ↦ absurd (ground (arith, h, m, c, q, first, second, l))
              | inl l ↦ record {
                fits = check_quota_sound sv user_id file_size w q;
                count = ground (arith, c);
                next = ground (arith, m, c, q, first, second, l);
              }
            ]
          ]
        ]
      ]

  -- When initializeUpload returns an id and no upload in the user's active set has the metadata key
  -- of the drawn id, it is the drawn one, the size is within the limit of the user's row and with the user's files within the quota,
  -- and the metadata stored under the id is in order, for this size, without parts and with a storage
  -- upload id.
  pub initialize_upload-Started :
      (answer : String) (w : World sv)
      → All
          (OtherUpload sv user_id fresh.upload_id)
          (sets.members w.active (get_active_upload_key user_id))
      → (initialize_upload sv user_id file_size total password expires_in fresh w).0 ≡ ok answer
      → Started answer w
          (initialize_upload sv user_id file_size total password expires_in fresh w).1
  unfolding locked_create release_upload_init_lock
  initialize_upload-Started answer w apart h =
      let a = initialize_upload-Admitted answer w h in
      let c = create_upload-Created answer (locked w) apart (sym (ap (λ p. p.0) a.next) ∙ h) in
      subst (λ p. Started answer w p.1) (sym a.next)
        record {
          fits = a.fits;
          id = c.opened.same;
          meta = first_meta sv file_size total password expires_in fresh c.s3_id;
          written = c.opened.written;
          tracked = first_meta-IsTracked c.s3_id a.count;
          size = refl;
          empty = refl;
          s3_id = c.s3_id;
          known = c.again;
        }
