-- ===== src/Files/Steps.antt =====
-- The private methods of files.service.ts that touch one Redis key or make one storage call, and
-- the list functions that the service uses.
use redbox.Prelude.{
  ℕ, zero, suc, ◌+◌, String, List, [], ◌∷◌, Option, none, some, if◌then◌else◌, ltb, Exec, ok, err,
  fault, unauthorized, conflict, pure, throw, gets, modify, ◌>>=◌,
}
use redbox.Prelude.Text.{is_blank}
use redbox.Redis.{release_script}
use redbox.Files.Limits.{upload_meta_ttl_seconds, upload_init_lock_ttl_seconds}
use redbox.Prelude.Text.{truthy}
use redbox.Files.State.{
  Services, World, UploadMeta, UploadStorageIndex, File, get_active_upload_key, get_upload_meta_key,
  get_upload_storage_index_key, init_lock_key, master_key_key,
}

pub record ActiveUploadCandidate : Type 0 where
  pub upload_id : String
  pub meta : UploadMeta
  pub created_at : ℕ

-- `password ? await bcrypt.hash(password, 12) : null`
unfoldable pub hash_password : (String → String) → Option String → Option String
unfolding is_blank
hash_password hash none = none
hash_password hash (some password) = if is_blank password then none else some (hash password)

-- `xs.sort((a, b) => key(a) - key(b))`, which is stable.
module _ {A : Type 0} (key : A → ℕ) where
  abbrev pub insert_by : A → List A → List A
  insert_by a [] = a ∷ []
  insert_by a (x ∷ xs) = if ltb (key x) (key a) then x ∷ insert_by a xs else a ∷ x ∷ xs

  abbrev pub sort_by : List A → List A
  sort_by [] = []
  sort_by (x ∷ xs) = insert_by x (sort_by xs)

abbrev pub take {ℓ} : {A : Type ℓ} → ℕ → List A → List A
take zero xs = []
take (suc n) [] = []
take (suc n) (x ∷ xs) = x ∷ take n xs

abbrev pub sum_sizes : List File → ℕ
sum_sizes [] = 0
sum_sizes (f ∷ fs) = f.size + sum_sizes fs

module _ (sv : Services) where
  open sv use {texts, documents, sets, storage, files, users, metas, indexes}

  unfoldable pub get_master_key_for_user : String → Exec (World sv) String
  get_master_key_for_user user_id = do
    found ← gets (λ w. texts.get w.master_keys (master_key_key user_id))
    elim (truthy found) [ none ↦ throw (unauthorized "Session expired") | some key ↦ pure key ]

  unfoldable pub abort_multipart_upload : String → String → Exec (World sv) (Unit {0})
  abort_multipart_upload key s3_id w =
      let r = storage.abort_multipart w.storage key s3_id in
      (if r.1 then ok tt else err fault, record w { storage = r.0 })

  abbrev pub delete_meta : String → String → Exec (World sv) (Unit {0})
  delete_meta user_id upload_id =
      modify λ w. record w { metas = documents.del w.metas (get_upload_meta_key user_id upload_id) }

  abbrev pub delete_index : String → Exec (World sv) (Unit {0})
  delete_index s3_id =
      modify
        λ w. record w { indexes = documents.del w.indexes (get_upload_storage_index_key s3_id) }

  unfoldable pub release_active_upload : String → String → Exec (World sv) (Unit {0})
  release_active_upload user_id upload_id = modify λ w. record w {
    active = sets.remove w.active (get_active_upload_key user_id) (upload_id ∷ []);
  }

  unfoldable pub set_upload_storage_index : String → UploadStorageIndex → Exec (World sv) (Unit {0})
  set_upload_storage_index s3_id index = modify λ w. record w {
    indexes =
        documents.set w.indexes (get_upload_storage_index_key s3_id) (indexes.stringify index)
          upload_meta_ttl_seconds;
  }

  abbrev pub store_meta : String → String → UploadMeta → World sv → World sv
  store_meta user_id upload_id meta w = record w {
    metas =
        documents.set w.metas (get_upload_meta_key user_id upload_id) (metas.stringify meta)
          upload_meta_ttl_seconds;
  }

  -- The index's expiry is renewed only where the metadata names a storage upload.
  abbrev pub renewed_index : Option String → documents.State → documents.State
  renewed_index none s = s
  renewed_index (some s3_id) s =
      documents.expire s (get_upload_storage_index_key s3_id) upload_meta_ttl_seconds

  unfoldable pub refresh_upload_state : String → String → UploadMeta → Exec (World sv) (Unit {0})
  refresh_upload_state user_id upload_id meta = modify λ w.
      record (store_meta user_id upload_id meta w) {
        active = sets.expire w.active (get_active_upload_key user_id) upload_meta_ttl_seconds;
        indexes = renewed_index (truthy meta.s3_upload_id) w.indexes;
      }

  unfoldable pub acquire_upload_init_lock : String → String → Exec (World sv) (Unit {0})
  acquire_upload_init_lock user_id token w =
      let r = texts.set_nx w.locks (init_lock_key user_id) token upload_init_lock_ttl_seconds in
      (
        if r.1 then ok tt else err (conflict "Another upload is currently being initialized"),
        record w { locks = r.0 },
      )

  unfoldable pub release_upload_init_lock : String → String → World sv → World sv
  release_upload_init_lock user_id token w = record w {
    locks = release_script texts (init_lock_key user_id) token w.locks;
  }
