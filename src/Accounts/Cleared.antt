-- ===== src/Accounts/Cleared.antt =====
-- What clearUserData leaves of a user's content.
use redbox.Prelude.{
  String, ◌≡◌, refl, sym, ap, ◌∙◌, subst, Bool, true, not, List, [], ◌∷◌, ◌++◌, Option, none, arith,
  Bool-cases, Option-cases, inl, inr, ok, keep, contains, if◌then◌else◌, ◌===◌, ===_refl, eq_iff,
}
use redbox.Database.{Table, find_many}
use redbox.Accounts.State.{Services, World, master_key_key}
use redbox.Accounts.Users.{user_of}
use redbox.Accounts.AdminContent.{
  find_user_or_throw, delete_snapshot, build_user_content_deletion_snapshot,
  clear_user_content_records, create_content_audit_log, clear_user_redis_data, clear_user_data,
  unique, delete_meta_keys, delete_redis_keys, abort_redis_backed_uploads, abort_ref, ref_at,
  upload_meta_keys, get_active_upload_meta_keys, upload_meta_prefix, get_upload_meta_key,
  DeletionCounts, RedisCleanup,
}

keep_none : {A : Type 0} (q : A → Bool) (xs : List A) → keep q (keep (λ x. not (q x)) xs) ≡ []
keep_none q [] = refl
keep_none q (x ∷ xs) = elim (Bool-cases (q x)) [
  | inl e ↦ ground (arith, e, keep_none q xs)
  | inr e ↦ ground (arith, e, keep_none q xs)
]

find_many-delete_many :
    {Row : Type 0} (table : Table Row) (s : table.State) (q : Row → Bool)
    → find_many table (table.delete_many s q) q ≡ []
find_many-delete_many table s q = rw (table.rows-delete_many s q) (keep_none q (table.rows s))

contains-append :
    (k : String) (xs ys : List String) → contains k ys ≡ true → contains k (xs ++ ys) ≡ true
contains-append k [] ys h = h
contains-append k (x ∷ xs) ys h = elim (Bool-cases (x === k)) [
  | inl e ↦ ground (arith, e)
  | inr e ↦ ground (arith, e, contains-append k xs ys h)
]

contains-unique :
    (k : String) (xs : List String) → contains k xs ≡ true → contains k (unique xs) ≡ true
unfolding unique
contains-unique k [] h = h
contains-unique k (x ∷ xs) h = elim (Bool-cases (contains x xs)) [
  | inl c ↦ elim (Bool-cases (x === k)) [
    | inl e ↦ let f : x ≡ k = (eq_iff x k).0 e in ground (arith, c, e, f, contains-unique k xs)
    | inr e ↦ ground (arith, c, e, contains-unique k xs)
  ]
  | inr c ↦ elim (Bool-cases (x === k)) [
    | inl e ↦ ground (arith, c, e)
    | inr e ↦ ground (arith, c, e, contains-unique k xs)
  ]
]

module _ (sv : Services) where
  get-delete_meta_keys :
      (keys : List String) (s : sv.documents.State) (j : String)
      → sv.documents.get (delete_meta_keys sv keys s).0 j
        ≡ (if contains j keys then none else sv.documents.get s j)
  unfolding delete_meta_keys
  get-delete_meta_keys [] s j = refl
  get-delete_meta_keys (key ∷ keys) s j = elim (Bool-cases (key === j)) [
    | inl e ↦ ground (
      arith,
      e,
      get-delete_meta_keys keys (sv.documents.del s key) j,
      sv.documents.get-del s key j,
    )
    | inr e ↦ ground (
      arith,
      e,
      get-delete_meta_keys keys (sv.documents.del s key) j,
      sv.documents.get-del s key j,
    )
  ]

  module _ (user_id : String) where
    -- Nothing of the user's content is left.
    pub record Emptied (w : World sv) : Type 0 where
      pub files : find_many sv.files w.files (λ r. r.user_id === user_id) ≡ []
      pub mails : find_many sv.mails w.mails (λ r. r.user_id === user_id) ≡ []
      pub bins : find_many sv.owned w.bins (λ r. r.user_id === user_id) ≡ []
      pub links : find_many sv.owned w.links (λ r. r.user_id === user_id) ≡ []
      pub master_key : sv.texts.get w.master_keys (master_key_key user_id) ≡ none
      pub uploads :
          (upload_id : String)
          → sv.documents.get w.upload_metas (get_upload_meta_key user_id upload_id) ≡ none

    abort_redis_backed_uploads_frame :
        (keys : List String) (w : World sv)
        → (abort_redis_backed_uploads sv keys w).0
          ≡ record w { file_storage = (abort_redis_backed_uploads sv keys w).0.file_storage }
    unfolding abort_redis_backed_uploads
    abort_redis_backed_uploads_frame [] w = refl
    abort_redis_backed_uploads_frame (key ∷ keys) w =
        let w' : World sv = record w {
          file_storage = (abort_ref sv (ref_at sv w key) w.file_storage).0;
        } in
        abort_redis_backed_uploads_frame keys w'

    no_upload :
        (w : World sv) (upload_id : String)
        → sv.documents.get
            (delete_meta_keys sv (upload_meta_keys sv user_id w) w.upload_metas).0
            (get_upload_meta_key user_id upload_id)
          ≡ none
    unfolding upload_meta_keys get_upload_meta_key
    no_upload w upload_id =
        let key = get_upload_meta_key user_id upload_id in
        let g = get-delete_meta_keys (upload_meta_keys sv user_id w) w.upload_metas key in
        elim (Option-cases (sv.documents.get w.upload_metas key)) [
          | inl e ↦ elim (Bool-cases (contains key (upload_meta_keys sv user_id w))) [
            | inl c ↦ ground (arith, g, e, c)
            | inr c ↦ ground (arith, g, e, c)
          ]
          | inr (v, e) ↦
              let c : contains key (upload_meta_keys sv user_id w) ≡ true =
                contains-unique key
                  (get_active_upload_meta_keys sv user_id w
                    ++ sv.scan w.upload_metas (upload_meta_prefix user_id))
                  (contains-append key (get_active_upload_meta_keys sv user_id w)
                    (sv.scan w.upload_metas (upload_meta_prefix user_id))
                    (sv.scan_complete w.upload_metas (upload_meta_prefix user_id) upload_id v e)) in
              g ∙ rw c refl
        ]

    clear_user_redis_data-Emptied :
        (w : World sv)
        → find_many sv.files w.files (λ r. r.user_id === user_id) ≡ []
        → find_many sv.mails w.mails (λ r. r.user_id === user_id) ≡ []
        → find_many sv.owned w.bins (λ r. r.user_id === user_id) ≡ []
        → find_many sv.owned w.links (λ r. r.user_id === user_id) ≡ []
        → Emptied (clear_user_redis_data sv user_id w).0
    unfolding clear_user_redis_data delete_redis_keys
    clear_user_redis_data-Emptied w f m b l =
        let keys = upload_meta_keys sv user_id w in
        let frame = abort_redis_backed_uploads_frame keys w in
        record {
          files = ap (λ v. find_many sv.files v.files (λ r. r.user_id === user_id)) frame ∙ f;
          mails = ap (λ v. find_many sv.mails v.mails (λ r. r.user_id === user_id)) frame ∙ m;
          bins = ap (λ v. find_many sv.owned v.bins (λ r. r.user_id === user_id)) frame ∙ b;
          links = ap (λ v. find_many sv.owned v.links (λ r. r.user_id === user_id)) frame ∙ l;
          master_key =
              let key = master_key_key user_id in
              rw (
                sv.texts.get-del (abort_redis_backed_uploads sv keys w).0.master_keys key key,
                ===_refl key,
              );
          uploads = λ upload_id.
              ap
                (λ v.
                  sv.documents.get (delete_meta_keys sv keys v.upload_metas).0
                    (get_upload_meta_key user_id upload_id))
                frame
              ∙ no_upload w upload_id;
        }

    -- When clearUserData succeeds, no file, mail, bin and link row of the user is left, no metadata of
    -- an upload and no master key in Redis.
    pub clear_user_data-Emptied :
        (admin_user_id : String) (reason : Option String) (answer : DeletionCounts × RedisCleanup)
        (w : World sv)
        → (clear_user_data sv admin_user_id user_id reason w).0 ≡ ok answer
        → Emptied (clear_user_data sv admin_user_id user_id reason w).1
    unfolding clear_user_data find_user_or_throw create_content_audit_log clear_user_content_records
        delete_snapshot
    clear_user_data-Emptied admin_user_id reason answer w h =
        elim (Option-cases (user_of sv user_id w)) [
          | inl e ↦ absurd (ground (arith, h, e))
          | inr (u, e) ↦
              let emptied =
                create_content_audit_log sv admin_user_id user_id "user_data_cleared" reason
                  (clear_user_content_records sv user_id
                    (delete_snapshot sv (build_user_content_deletion_snapshot sv user_id w) w)).1 in
              let last : (clear_user_data sv admin_user_id user_id reason w).1
                  ≡ (clear_user_redis_data sv user_id emptied).0 =
                ground (arith, e) in
              subst Emptied (sym last) (
                clear_user_redis_data-Emptied emptied
                  (find_many-delete_many sv.files w.files (λ r. r.user_id === user_id))
                  (find_many-delete_many sv.mails w.mails (λ r. r.user_id === user_id))
                  (find_many-delete_many sv.owned w.bins (λ r. r.user_id === user_id))
                  (find_many-delete_many sv.owned w.links (λ r. r.user_id === user_id)))
        ]
