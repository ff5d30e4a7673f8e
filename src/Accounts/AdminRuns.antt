-- ===== src/Accounts/AdminRuns.antt =====
-- forceLogoutUser, changeUsername, deleteUserFiles and clearUserData as runs of the abstract
-- machine.
use redbox.Prelude.{
  String, ◌≡◌, refl, sym, ◌∙◌, subst, true, false, List, Option, none, some, arith, Bool-cases,
  Option-cases, inl, inr, is_empty,
}
use redbox.Accounts.State.{User, Services, World}
use redbox.Accounts.Users.{user_of}
use redbox.Accounts.AdminContent.{
  find_user_or_throw, delete_snapshot, build_user_content_deletion_snapshot,
  clear_user_content_records, create_content_audit_log, clear_user_redis_data, clear_user_data,
  delete_user_files, files_among,
}
use redbox.Accounts.AdminUsers.{
  get_user_by_id, rotate_user_session, force_logout_user, is_taken, rename, change_username,
}
use redbox.Accounts.Machine.{rotate, here, after, account}
use redbox.Accounts.Refinement.{Refines, Refines-refl, Refines-users, RefinesExec}
use redbox.Accounts.Operations.{Refines-update_user}
use redbox.Accounts.AdminSteps.{users-clear_user_redis_data}

module _ (sv : Services) (K : String → Type 0) (admin_user_id user_id : String)
    (reason : Option String) where
  pub force_logout_user-Refines :
      (uuid : String)
      → K uuid
      → RefinesExec sv K (force_logout_user sv admin_user_id user_id reason uuid)
  unfolding force_logout_user find_user_or_throw rotate_user_session
  force_logout_user-Refines uuid k w = elim (Option-cases (user_of sv user_id w)) [
    | inl e ↦ subst (Refines sv K w) (sym (ground (arith, e))) (Refines-refl sv K w)
    | inr (u, e) ↦
        Refines-update_user sv K user_id (λ v. record v { session_key = uuid }) w _
          (ground (arith, e)) (λ v. refl) (λ v g. after here (rotate (account v) uuid k))
  ]

  users-change_username :
      (username uuid : String) (u : User) (w : World sv)
      → user_of sv user_id w ≡ some u
      → is_taken sv username user_id w ≡ false
      → (change_username sv admin_user_id user_id username reason uuid w).1.users
        ≡ (rename sv user_id username uuid w).users
  unfolding change_username find_user_or_throw get_user_by_id
  users-change_username username uuid u w e t =
      elim (Option-cases (user_of sv user_id (rename sv user_id username uuid w))) [
        | inl f ↦ ground (arith, e, t, f)
        | inr (v, f) ↦ ground (arith, e, t, f)
      ]

  module _ (username uuid : String) (w : World sv) where
    absent :
        user_of sv user_id w ≡ none
        → (change_username sv admin_user_id user_id username reason uuid w).1.users ≡ w.users
    unfolding change_username find_user_or_throw
    absent e = ground (arith, e)

    taken :
        (u : User)
        → user_of sv user_id w ≡ some u
        → is_taken sv username user_id w ≡ true
        → (change_username sv admin_user_id user_id username reason uuid w).1.users ≡ w.users
    unfolding change_username find_user_or_throw
    taken u e t = ground (arith, e, t)

  pub change_username-Refines :
      (username uuid : String)
      → K uuid
      → RefinesExec sv K (change_username sv admin_user_id user_id username reason uuid)
  change_username-Refines username uuid k w = elim (Option-cases (user_of sv user_id w)) [
    | inl e ↦ Refines-users sv K w _ (absent username uuid w e)
    | inr (u, e) ↦ elim (Bool-cases (is_taken sv username user_id w)) [
      | inl t ↦ Refines-users sv K w _ (taken username uuid w u e t)
      | inr t ↦
          Refines-update_user sv K user_id
            (λ v. record v { username = username; session_key = uuid }) w _
            (users-change_username username uuid u w e t) (λ v. refl)
            (λ v g. after here (rotate (account v) uuid k))
    ]
  ]

  pub delete_user_files-Refines :
      (ids : List String) → RefinesExec sv K (delete_user_files sv admin_user_id user_id ids reason)
  unfolding delete_user_files find_user_or_throw create_content_audit_log
  delete_user_files-Refines ids w = elim (Option-cases (user_of sv user_id w)) [
    | inl e ↦ subst (Refines sv K w) (sym (ground (arith, e))) (Refines-refl sv K w)
    | inr (u, e) ↦ elim (Bool-cases (is_empty (files_among sv ids user_id w))) [
      | inl b ↦ subst (Refines sv K w) (sym (ground (arith, e, b))) (Refines-refl sv K w)
      | inr b ↦ Refines-users sv K w _ (ground (arith, e, b))
    ]
  ]

  pub clear_user_data-Refines : RefinesExec sv K (clear_user_data sv admin_user_id user_id reason)
  unfolding clear_user_data find_user_or_throw delete_snapshot clear_user_content_records
      create_content_audit_log
  clear_user_data-Refines w = elim (Option-cases (user_of sv user_id w)) [
    | inl e ↦ subst (Refines sv K w) (sym (ground (arith, e))) (Refines-refl sv K w)
    | inr (u, e) ↦
        let emptied =
          create_content_audit_log sv admin_user_id user_id "user_data_cleared" reason
            (clear_user_content_records sv user_id
              (delete_snapshot sv (build_user_content_deletion_snapshot sv user_id w) w)).1 in
        let last : (clear_user_data sv admin_user_id user_id reason w).1.users
            ≡ (clear_user_redis_data sv user_id emptied).0.users =
          ground (arith, e) in
        Refines-users sv K w _ (last ∙ users-clear_user_redis_data sv user_id emptied)
  ]
