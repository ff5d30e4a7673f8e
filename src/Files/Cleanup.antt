-- ===== src/Files/Cleanup.antt =====
-- The hourly cleanup of expired files.
use redbox.Prelude.{
  ℕ, String, ◌≡◌, refl, sym, ap, ◌∙◌, Bool, true, false, not, List, [], ◌∷◌, Option, none, arith,
  ◌===◌, find, keep, Bool-cases, Option-cases, inl, inr, ===_refl, contains, map, eq_iff,
}
use redbox.Database.{find_many}
use redbox.Accounts.Rows.{find_holds, differ}
use redbox.Files.State.{Services, World, File}
use redbox.Files.Downloads.{
  StoredObject, has_expired, file_with, delete_row, delete_file_internal, delete_files,
  handle_cleanup,
}

-- Nothing is removed where nothing is found.
keep-not :
    {A : Type 0} (p : A → Bool) (xs : List A) → find p xs ≡ none → keep (λ a. not (p a)) xs ≡ xs
keep-not p [] h = refl
keep-not p (x ∷ xs) h = elim (Bool-cases (p x)) [
  | inl e ↦ absurd (ground (arith, e, h))
  | inr e ↦ ground (arith, e, keep-not p xs (ground (arith, e, h)))
]

keep-keep :
    (id : String) (ids : List String) (fs : List File)
    → keep (λ f. not (contains f.id ids)) (keep (λ f. not (f.id === id)) fs)
      ≡ keep (λ f. not (contains f.id (id ∷ ids))) fs
keep-keep id ids [] = refl
keep-keep id ids (f ∷ fs) = elim (Bool-cases (f.id === id)) [
  | inl e ↦
      let g : (id === f.id) ≡ true = (eq_iff id f.id).1 (sym ((eq_iff f.id id).0 e)) in
      ground (arith, e, g, keep-keep id ids fs)
  | inr e ↦
      let g : (id === f.id) ≡ false =
        differ id f.id (λ x. absurd (ground (arith, e, (eq_iff f.id id).1 (sym x)))) in
      elim (Bool-cases (contains f.id ids)) [
        | inl c ↦ ground (arith, e, g, c, keep-keep id ids fs)
        | inr c ↦ ground (arith, e, g, c, keep-keep id ids fs)
      ]
]

-- An element that a filter keeps has its id among the ids of what the filter keeps.
none_left :
    (p : File → Bool) (ids : List String) (fs : List File)
    → ((f : File) → contains f.id (map (λ g. g.id) (keep p fs)) ≡ true → contains f.id ids ≡ true)
    → keep p (keep (λ f. not (contains f.id ids)) fs) ≡ []
none_left p ids [] h = refl
none_left p ids (f ∷ fs) h = elim (Bool-cases (p f)) [
  | inl e ↦
      let c : contains f.id ids ≡ true = h f (ground (arith, e, ===_refl f.id)) in
      ground (
        arith,
        e,
        c,
        none_left p ids fs (λ g k. h g (ground (arith, e, k, Bool-cases (f.id === g.id)))),
      )
  | inr e ↦
      let rest = none_left p ids fs (λ g k. h g (ground (arith, e, k))) in
      elim (Bool-cases (contains f.id ids)) [
        | inl c ↦ ground (arith, e, c, rest)
        | inr c ↦ ground (arith, e, c, rest)
      ]
]

nothing_found : {A : Type 0} (xs : List A) → find (λ a. false) xs ≡ none
nothing_found [] = refl
nothing_found (x ∷ xs) = nothing_found xs

module _ (sv : Services) (get_object : sv.storage.State → String → Option StoredObject) where
  rows-delete_file_internal :
      (id : String) (w : World sv)
      → sv.files.rows (delete_file_internal sv get_object id w).files
        ≡ keep (λ f. not (f.id === id)) (sv.files.rows w.files)
  unfolding delete_file_internal
  rows-delete_file_internal id w =
      let rows = sv.files.rows w.files in
      elim (Option-cases (file_with sv get_object id w)) [
        | inl e ↦
            let last : delete_file_internal sv get_object id w ≡ w = ground (arith, e) in
            ap (λ v. sv.files.rows v.files) last ∙ sym (keep-not (λ f. f.id === id) rows e)
        | inr (file, e) ↦
            let last : delete_file_internal sv get_object id w ≡ delete_row sv get_object file w =
              ground (arith, e) in
            let same : file.id ≡ id =
              (eq_iff file.id id).0 (find_holds (λ f. f.id === id) rows file e) in
            ap (λ v. sv.files.rows v.files) last
            ∙ (sv.files.rows-delete_many w.files (λ f. f.id === file.id)
                ∙ ap (λ i. keep (λ f. not (f.id === i)) rows) same)
      ]

  rows-delete_files :
      (fs : List File) (w : World sv)
      → sv.files.rows (delete_files sv get_object fs w).files
        ≡ keep (λ f. not (contains f.id (map (λ g. g.id) fs))) (sv.files.rows w.files)
  unfolding delete_files
  rows-delete_files [] w =
      sym (keep-not (λ f. false) (sv.files.rows w.files) (nothing_found (sv.files.rows w.files)))
  rows-delete_files (file ∷ fs) w =
      rows-delete_files fs (delete_file_internal sv get_object file.id w)
      ∙ (ap (keep (λ f. not (contains f.id (map (λ g. g.id) fs))))
            (rows-delete_file_internal file.id w)
          ∙ keep-keep file.id (map (λ g. g.id) fs) (sv.files.rows w.files))

  -- handleCleanup removes exactly the rows whose id is that of an expired file, and no expired file is
  -- left.
  pub rows-handle_cleanup :
      (now : ℕ) (w : World sv)
      → (sv.files.rows (handle_cleanup sv get_object now w).files
          ≡ keep
              (λ f.
                not
                  (contains f.id (map (λ g. g.id) (find_many sv.files w.files (has_expired now)))))
              (sv.files.rows w.files))
        × (find_many sv.files (handle_cleanup sv get_object now w).files (has_expired now) ≡ [])
  unfolding handle_cleanup
  rows-handle_cleanup now w =
      let expired = find_many sv.files w.files (has_expired now) in
      let after = rows-delete_files expired w in
      (
        after,
        ap (keep (has_expired now)) after
            ∙ none_left (has_expired now) (map (λ g. g.id) expired) (sv.files.rows w.files)
                (λ f c. c),
      )
