-- ===== src/Files/Apart.antt =====
-- Making room for a new upload, and the metadata of an upload that is not in the active set.
use redbox.Prelude.{
  ℕ, ◌+◌, ◌-◌, String, ◌≡◌, refl, ◌∙◌, false, List, [], ◌∷◌, some, arith, ◌===◌, ltb, length, zero,
  suc, Bool-cases, Result-cases, Option-cases, inl, inr,
}
use redbox.Prelude.Text.{truthy}
use redbox.Files.State.{Services, World, UploadMeta, get_active_upload_key, get_upload_meta_key}
use redbox.Files.Steps.{
  ActiveUploadCandidate, insert_by, sort_by, take, abort_multipart_upload, release_active_upload,
}
use redbox.Files.Limits.{max_active_uploads_per_user}
use redbox.Files.Active.{
  Sorted, classify, delete_keys, abort_stored, abort_active_upload, abort_all, replace_active,
  make_room_for_active_upload, reserve_active_upload,
}
use redbox.Files.Progress.{stored}

module _ {A : Type 0} (P : A → Type 0) where
  abbrev pub All : List A → Type 0
  All [] = Unit
  All (x ∷ xs) = P x × All xs

  module _ (key : A → ℕ) where
    All-insert_by : (a : A) (xs : List A) → P a → All xs → All (insert_by key a xs)
    All-insert_by a [] p h = (p, tt)
    All-insert_by a (x ∷ xs) p h =
        elim (Bool-cases (ltb (key x) (key a))) as (λ _. All (insert_by key a (x ∷ xs))) [
          | inl e ↦ rw e (h.0, All-insert_by a xs p h.1)
          | inr e ↦ rw e (p, h)
        ]

    All-sort_by : (xs : List A) → All xs → All (sort_by key xs)
    All-sort_by [] h = tt
    All-sort_by (x ∷ xs) h = All-insert_by x (sort_by key xs) h.0 (All-sort_by xs h.1)

  All-take : (n : ℕ) (xs : List A) → All xs → All (take n xs)
  All-take zero xs h = tt
  All-take (suc n) [] h = tt
  All-take (suc n) (x ∷ xs) h = (h.0, All-take n xs h.1)

module _ (sv : Services) (user_id upload_id : String) where
  open sv use {documents, sets, metas}

  -- The key of another upload's metadata.
  abbrev pub Other : String → Type 0
  Other key = (key === get_upload_meta_key user_id upload_id) ≡ false

  abbrev pub OtherUpload : String → Type 0
  OtherUpload id = Other (get_upload_meta_key user_id id)

  stored-delete_keys :
      (keys : List String) (s : documents.State)
      → All Other keys
      → documents.get (delete_keys sv keys s) (get_upload_meta_key user_id upload_id)
        ≡ documents.get s (get_upload_meta_key user_id upload_id)
  stored-delete_keys [] s h = refl
  stored-delete_keys (key ∷ keys) s h =
      stored-delete_keys keys (documents.del s key) h.1
      ∙ ground (arith, h.0, documents.get-del s key (get_upload_meta_key user_id upload_id))

  metas-abort_stored :
      (meta : UploadMeta) (w : World sv) → (abort_stored sv meta w).1.metas ≡ w.metas
  unfolding abort_stored abort_multipart_upload
  metas-abort_stored meta w = elim (Option-cases (truthy meta.s3_upload_id)) [
    | inl e ↦ ground (arith, e)
    | inr (s3_id, e) ↦ elim (Option-cases (truthy (some meta.storage_key))) [
      | inl f ↦ ground (arith, e, f)
      | inr (key, f) ↦ elim (Bool-cases (sv.storage.abort_multipart w.storage key s3_id).1) [
        | inl a ↦ ground (arith, e, f, a)
        | inr a ↦ ground (arith, e, f, a)
      ]
    ]
  ]

  stored-abort_active_upload :
      (c : ActiveUploadCandidate) (w : World sv)
      → OtherUpload c.upload_id
      → stored sv user_id upload_id (abort_active_upload sv user_id c w).1
        ≡ stored sv user_id upload_id w
  unfolding abort_active_upload release_active_upload
  stored-abort_active_upload c w h =
      let v = (abort_stored sv c.meta w).1 in
      let same = metas-abort_stored c.meta w in
      let gone =
        documents.get-del v.metas (get_upload_meta_key user_id c.upload_id)
          (get_upload_meta_key user_id upload_id) in
      elim (Result-cases (abort_stored sv c.meta w).0) [
        | inl (t, a) ↦ ground (arith, a, same, h, gone)
        | inr (x, a) ↦ ground (arith, a, same)
      ]

  stored-abort_all :
      (cs : List ActiveUploadCandidate) (w : World sv)
      → All (λ c. OtherUpload c.upload_id) cs
      → stored sv user_id upload_id (abort_all sv user_id cs w).1 ≡ stored sv user_id upload_id w
  unfolding abort_all
  stored-abort_all [] w h = refl
  stored-abort_all (c ∷ cs) w h =
      let first = stored-abort_active_upload c w h.0 in
      let rest = stored-abort_all cs (abort_active_upload sv user_id c w).1 h.1 in
      elim (Result-cases (abort_active_upload sv user_id c w).0) [
        | inl (t, a) ↦ ground (arith, a, first, rest)
        | inr (x, a) ↦ ground (arith, a, first)
      ]

  -- What `classify` finds among other uploads.
  record Sound (s : Sorted) : Type 0 where
    candidates : All (λ c. OtherUpload c.upload_id) s.candidates
    stale : All Other s.stale_meta_keys

  classify-Sound :
      (w : World sv) (ids : List String) → All OtherUpload ids → Sound (classify sv user_id w ids)
  unfolding classify
  classify-Sound w [] h = record { candidates = tt; stale = tt }
  classify-Sound w (id ∷ ids) h =
      let rest = classify-Sound w ids h.1 in
      elim (Option-cases (documents.get w.metas (get_upload_meta_key user_id id)))
        as (λ _. Sound (classify sv user_id w (id ∷ ids))) [
          | inl e ↦ rw (classify, e) record { candidates = rest.candidates; stale = rest.stale }
          | inr (text, e) ↦
              elim (Option-cases (metas.parse text))
                as (λ _. Sound (classify sv user_id w (id ∷ ids))) [
                  | inl p ↦
                      rw (classify, e, p)
                        record { candidates = rest.candidates; stale = (h.0, rest.stale) }
                  | inr (meta, p) ↦
                      rw (classify, e, p)
                        record { candidates = (h.0, rest.candidates); stale = rest.stale }
                ]
        ]

  stored-replace_active :
      (ids : List String) (w : World sv)
      → All OtherUpload ids
      → stored sv user_id upload_id (replace_active sv user_id ids w).1
        ≡ stored sv user_id upload_id w
  unfolding replace_active
  stored-replace_active ids w h =
      let found = classify sv user_id w ids in
      let sound = classify-Sound w ids h in
      let n = length found.candidates + 1 - max_active_uploads_per_user in
      let sorted = sort_by (λ c. c.created_at) found.candidates in
      stored-abort_all (take n sorted) _ (
        All-take (λ c. OtherUpload c.upload_id) n sorted
          (All-sort_by (λ c. OtherUpload c.upload_id) (λ c. c.created_at) found.candidates
            sound.candidates))
      ∙ stored-delete_keys found.stale_meta_keys w.metas sound.stale

  -- Reserving a place keeps the metadata of an upload whose key no upload of the active set has.
  pub stored-reserve_active_upload :
      (w : World sv)
      → All OtherUpload (sets.members w.active (get_active_upload_key user_id))
      → stored sv user_id upload_id (reserve_active_upload sv user_id upload_id w).1
        ≡ stored sv user_id upload_id w
  unfolding reserve_active_upload make_room_for_active_upload
  stored-reserve_active_upload w h =
      let ids = sets.members w.active (get_active_upload_key user_id) in
      let replaced = stored-replace_active ids w h in
      elim (Bool-cases (ltb (length ids) max_active_uploads_per_user)) [
        | inl e ↦ ground (arith, e)
        | inr e ↦ elim (Result-cases (replace_active sv user_id ids w).0) [
          | inl (t, a) ↦ ground (arith, e, a, replaced)
          | inr (x, a) ↦ ground (arith, e, a, replaced)
        ]
      ]
