-- ===== src/Files/Quota.antt =====
-- The quota and size limits of users in `finalizeUpload`.
use redbox.Prelude.{
  ℕ, ◌+◌, ◌≤◌, String, ◌≡◌, refl, Bool, true, List, [], ◌∷◌, ◌++◌, Option, some, arith, ◌===◌,
  if◌then◌else◌, Result-cases, ok, Option-cases, Bool-cases, inl, inr, keep, eq_iff, or_else,
}
use redbox.Database.{find_first, find_many}
use redbox.Files.Limits.{FileLimits, get_file_limits_for_username}
use redbox.Files.State.{Services, World, UploadMeta, File, User}
use redbox.Files.Steps.{sum_sizes, sort_by}
use redbox.Files.Upload.{check_quota}
use redbox.Files.Chunks.{
  create_row, complete_upload, finished, drop_upload, finalize_upload, check_object, give_up,
  file_row, Drawn,
}
use redbox.Files.Reads.{finalize_upload-Ready, finalize_upload-eq-complete_upload}

used_snoc :
    (p : File → Bool) (fs : List File) (f : File)
    → sum_sizes (keep p (fs ++ f ∷ [])) ≡ sum_sizes (keep p fs) + (if p f then f.size else 0)
used_snoc p [] f = ground arith
used_snoc p (x ∷ fs) f = ground (arith, used_snoc p fs f)

module _ (sv : Services) where
  open sv use {files, users}

  abbrev pub user_of : String → World sv → Option User
  user_of user_id w = find_first users w.users (λ u. u.id === user_id)

  -- The bytes of a user's files, and the user's limits.
  abbrev pub used : String → World sv → ℕ
  used user_id w = sum_sizes (find_many files w.files (λ f. f.user_id === user_id))

  abbrev pub limits_of : User → FileLimits
  limits_of u = get_file_limits_for_username sv.admin_username u.username

  used_with :
      (user_id : String) (row : File) (w w' : World sv)
      → files.rows w'.files ≡ files.rows w.files ++ row ∷ []
      → row.user_id ≡ user_id
      → used user_id w' ≡ used user_id w + row.size
  used_with user_id row w w' e o = rw e (
      ground (
        arith,
        o,
        eq_iff row.user_id user_id,
        used_snoc (λ f. f.user_id === user_id) (files.rows w.files) row,
      ))

  pub record Fits (user_id : String) (size : ℕ) (w : World sv) : Type 0 where
    pub user : User
    pub found : user_of user_id w ≡ some user
    pub small : size ≤ (limits_of user).max_file_size
    pub room : used user_id w + size ≤ (limits_of user).quota_limit

  pub check_quota_sound :
      (user_id : String) (size : ℕ) (w : World sv)
      → (check_quota sv user_id size w).0 ≡ ok tt
      → Fits user_id size w
  unfolding check_quota
  check_quota_sound user_id size w h = elim (Option-cases (user_of user_id w)) [
    | inl e ↦ absurd (ground (arith, e))
    | inr (u, e) ↦ record {
      user = u;
      found = e;
      small = ground (arith, e);
      room = ground (arith, e);
    }
  ]

  pub check_quota_reads :
      (user_id : String) (size : ℕ) (w : World sv) → (check_quota sv user_id size w).1 ≡ w
  unfolding check_quota
  check_quota_reads user_id size w = elim (Option-cases (user_of user_id w)) [
    | inl e ↦ rw e
    | inr (u, e) ↦ rw e (ground arith)
  ]

  create_row_sound :
      (user_id : String) (row r : File) (w : World sv)
      → (create_row sv user_id row w).0 ≡ ok r
      → Fits user_id row.size w
        × (r ≡ row)
        × ((create_row sv user_id row w).1 ≡ record w { files = files.create w.files row })
  unfolding create_row
  create_row_sound user_id row r w h = elim (Result-cases (check_quota sv user_id row.size w).0) [
    | inl (u, e) ↦ (
      check_quota_sound user_id row.size w e,
      ground (arith, e),
      ground (arith, e, check_quota_reads user_id row.size w),
    )
    | inr (x, e) ↦ absurd (ground (arith, e))
  ]

  check_object_reads : (meta : UploadMeta) (w : World sv) → (check_object sv meta w).1 ≡ w
  unfolding check_object
  check_object_reads meta w = ground arith

  record Completed (user_id : String) (row r : File) (w w' : World sv) : Type 0 where
    fits : Fits user_id row.size w
    same : r ≡ row
    rows : files.rows w'.files ≡ files.rows w.files ++ row ∷ []
    users : w'.users ≡ w.users

  -- The state after CompleteMultipartUpload.
  abbrev completed : UploadMeta → String → World sv → World sv
  completed meta s3_id w = record w {
    storage =
        (sv.storage.complete_multipart w.storage meta.storage_key s3_id
          (sort_by (λ p. p.part_number) meta.parts)).0;
  }

  finished_sound :
      (user_id upload_id : String) (meta : UploadMeta) (s3_id : String) (row r : File)
      (w : World sv)
      → (finished sv user_id upload_id meta s3_id (create_row sv user_id row w)).0 ≡ ok r
      → Completed user_id row r w
          (finished sv user_id upload_id meta s3_id (create_row sv user_id row w)).1
  unfolding give_up drop_upload
  finished_sound user_id upload_id meta s3_id row r w h =
      elim (Result-cases (create_row sv user_id row w).0) [
        | inl (x, e) ↦
            let (fits, same, after) = create_row_sound user_id row x w e in
            record {
              fits = fits;
              same = ground (arith, e, same);
              rows = ground (arith, e, after, files.rows-create w.files row);
              users = ground (arith, e, after);
            }
        | inr (x, e) ↦ absurd (ground (arith, e))
      ]

  -- The `try` block where storage completes the upload and the object has the right size.
  complete_upload_checked :
      (user_id upload_id : String) (meta : UploadMeta) (s3_id : String) (row : File) (w : World sv)
      → (sv.storage.complete_multipart w.storage meta.storage_key s3_id
          (sort_by (λ p. p.part_number) meta.parts)).1
        ≡ true
      → (check_object sv meta (completed meta s3_id w)).0 ≡ ok tt
      → complete_upload sv user_id upload_id meta s3_id row w
        ≡ finished sv user_id upload_id meta s3_id
            (create_row sv user_id row (completed meta s3_id w))
  unfolding complete_upload
  complete_upload_checked user_id upload_id meta s3_id row w e c =
      rw (e, c, check_object_reads meta (completed meta s3_id w))

  complete_upload_sound :
      (user_id upload_id : String) (meta : UploadMeta) (s3_id : String) (row r : File)
      (w : World sv)
      → (complete_upload sv user_id upload_id meta s3_id row w).0 ≡ ok r
      → Completed user_id row r w (complete_upload sv user_id upload_id meta s3_id row w).1
  unfolding complete_upload give_up
  complete_upload_sound user_id upload_id meta s3_id row r w h =
      let t = completed meta s3_id w in
      elim (Bool-cases
        (sv.storage.complete_multipart w.storage meta.storage_key s3_id
          (sort_by (λ p. p.part_number) meta.parts)).1) [
            | inl e ↦ elim (Result-cases (check_object sv meta t).0) [
              | inl (u, c) ↦
                  let same = complete_upload_checked user_id upload_id meta s3_id row w e c in
                  let done =
                    finished_sound user_id upload_id meta s3_id row r t (ground (arith, same)) in
                  rw same (record {
                    fits = record {
                      user = done.fits.user;
                      found = done.fits.found;
                      small = done.fits.small;
                      room = done.fits.room;
                    };
                    same = done.same;
                    rows = done.rows;
                    users = done.users;
                  })
              | inr (x, c) ↦ absurd (ground (arith, e, c))
            ]
            | inr e ↦ absurd (ground (arith, e))
          ]

  -- A finalized upload keeps the user within the quota: the file fits the limits of the user that
  -- it belongs to, the user's files with it stay within the quota, and the table gains this row and
  -- changes no other.
  pub record Stored (user_id : String) (row : File) (w w' : World sv) : Type 0 where
    pub owner : row.user_id ≡ user_id
    pub user : User
    pub found : user_of user_id w ≡ some user
    pub small : row.size ≤ (limits_of user).max_file_size
    pub within : used user_id w' ≤ (limits_of user).quota_limit
    pub rows : files.rows w'.files ≡ files.rows w.files ++ row ∷ []

  pub finalize_upload-Stored :
      (user_id upload_id name mimetype key : String) (n : ℕ) (drawn : Drawn) (w : World sv)
      (r : File)
      → (finalize_upload sv user_id upload_id name mimetype key n drawn w).0 ≡ ok r
      → Stored user_id r w (finalize_upload sv user_id upload_id name mimetype key n drawn w).1
  finalize_upload-Stored user_id upload_id name mimetype key n drawn w r h =
      let ready = finalize_upload-Ready sv user_id upload_id name mimetype key n drawn w r h in
      let row = file_row sv user_id ready.meta name mimetype ready.master_key key drawn in
      let same =
        finalize_upload-eq-complete_upload sv user_id upload_id name mimetype key n drawn w ready in
      let after =
        (complete_upload sv user_id upload_id ready.meta (or_else ready.meta.s3_upload_id "") row
          w).1 in
      let done =
        complete_upload_sound user_id upload_id ready.meta (or_else ready.meta.s3_upload_id "") row
          r w (ground (arith, same)) in
      rw same (record {
        owner = ground (arith, done.same);
        user = done.fits.user;
        found = done.fits.found;
        small = ground (arith, done.same, done.fits.small);
        within = omega (arith, used_with user_id row w after done.rows refl, done.fits.room);
        rows = ground (arith, done.same, done.rows);
      })
