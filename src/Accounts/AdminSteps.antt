-- ===== src/Accounts/AdminSteps.antt =====
-- updateUserStatus of admin-users.service.ts as a run of the abstract machine.
use redbox.Prelude.{
  ℕ, String, ◌≡◌, refl, sym, subst, Bool, false, not, ◌&&◌, List, [], ◌∷◌, Option, none, some,
  arith, Bool-cases, Option-cases, inl, inr, is_some, or_else,
}
use redbox.Prelude.Text.{truthy}
use redbox.Accounts.State.{
  UserStatus, active, banned, locked, pending, deleted, ban, User, Restriction, Services, World,
  status_eq,
}
use redbox.Accounts.Users.{
  AuditOptions, user_of, set_invite_codes_validity, resolve_open_restrictions,
  cancel_active_deletion_requests,
}
use redbox.Accounts.AdminContent.{
  find_user_or_throw, delete_snapshot, clear_user_content_records, abort_redis_backed_uploads,
  abort_ref, ref_at, delete_redis_keys, clear_user_redis_data, upload_meta_keys,
  delete_user_data_and_mark_deleted,
}
use redbox.Accounts.AdminUsers.{
  UpdateAdminUserStatusDto, StatusDraws, get_user_by_id, restrict, lock_user, ban_user, delete_user,
  enter_status, update_user_status, is_permanent, days_of, by_admin, new_restriction, ban_expiry,
}
use redbox.Accounts.Machine.{enter, here, after, account}
use redbox.Accounts.Refinement.{Refines, Refines-refl, RefinesExec, RefinesExec-then}
use redbox.Accounts.Operations.{Refines-update_user, kept, deletion_run, reactivate_user-Refines}

module _ (sv : Services) where
  users-abort_redis_backed_uploads :
      (keys : List String) (w : World sv) → (abort_redis_backed_uploads sv keys w).0.users ≡ w.users
  unfolding abort_redis_backed_uploads
  users-abort_redis_backed_uploads [] w = refl
  users-abort_redis_backed_uploads (key ∷ keys) w =
      users-abort_redis_backed_uploads keys
        (record w { file_storage = (abort_ref sv (ref_at sv w key) w.file_storage).0 })

  pub users-clear_user_redis_data :
      (user_id : String) (w : World sv) → (clear_user_redis_data sv user_id w).0.users ≡ w.users
  unfolding clear_user_redis_data delete_redis_keys
  users-clear_user_redis_data user_id w =
      users-abort_redis_backed_uploads (upload_meta_keys sv user_id w) w

module _ (sv : Services) (K : String → Type 0) where
  module _ (user_id : String) where
    get_user_by_id-Refines : RefinesExec sv K (get_user_by_id sv user_id)
    unfolding get_user_by_id find_user_or_throw
    get_user_by_id-Refines w = elim (Option-cases (user_of sv user_id w)) [
      | inl e ↦ subst (Refines sv K w) (sym (ground (arith, e))) (Refines-refl sv K w)
      | inr (u, e) ↦ subst (Refines sv K w) (sym (ground (arith, e))) (Refines-refl sv K w)
    ]

    delete_user_data-Refines :
        (o : AuditOptions) (previous : UserStatus) (now : ℕ) (uuid : String) (w : World sv)
        → K uuid
        → Refines sv K w (delete_user_data_and_mark_deleted sv user_id o previous none now uuid w)
    unfolding delete_user_data_and_mark_deleted resolve_open_restrictions clear_user_content_records
        delete_snapshot cancel_active_deletion_requests
    delete_user_data-Refines o previous now uuid w k =
        Refines-update_user sv K user_id
          (λ v. record v { status = deleted; issued_codes = 0; session_key = uuid }) w _
          (users-clear_user_redis_data sv user_id _) (λ v. refl) (λ v g. deletion_run v uuid k)

    restrict-Refines :
        (o : AuditOptions) (u : User) (next : UserStatus) (r : Restriction) (now : ℕ)
        (uuid : String) (w : World sv)
        → K uuid
        → user_of sv user_id w ≡ some u
        → status_eq u.status deleted ≡ false
        → Refines sv K w (restrict sv user_id o u.status next r now uuid w)
    unfolding restrict resolve_open_restrictions cancel_active_deletion_requests
        set_invite_codes_validity
    restrict-Refines o u next r now uuid w k e d =
        Refines-update_user sv K user_id (λ v. record v { status = next; session_key = uuid }) w _
          refl (λ v. refl)
          λ v g.
            after here (enter (account v) next uuid k (kept v.status (ground (arith, e, g, d))))

    module _ (admin_user_id : String) (now : ℕ) (draws : StatusDraws)
        (k : K draws.session_key) where
      lock_user-Refines :
          (u : User) (reason : Option String) (w : World sv)
          → user_of sv user_id w ≡ some u
          → status_eq u.status deleted ≡ false
          → Refines sv K w (lock_user sv admin_user_id user_id u.status reason now draws w).1
      unfolding lock_user
      lock_user-Refines u none w e d = Refines-refl sv K w
      lock_user-Refines u (some reason) w e d =
          restrict-Refines _ u locked _ now draws.session_key w k e d

      ban_user-Refines :
          (u : User) (reason : Option String) (permanent : Bool) (days : Option ℕ) (w : World sv)
          → user_of sv user_id w ≡ some u
          → status_eq u.status deleted ≡ false
          → Refines sv K w
              (ban_user sv admin_user_id user_id u.status reason permanent days now draws w).1
      unfolding ban_user
      ban_user-Refines u none permanent days w e d = Refines-refl sv K w
      ban_user-Refines u (some reason) permanent days w e d =
          elim (Bool-cases (not permanent && not (is_some days))) [
            | inl b ↦ subst (Refines sv K w) (sym (ground (arith, b))) (Refines-refl sv K w)
            | inr b ↦ subst (Refines sv K w) (sym (ground (arith, b))) (
                restrict-Refines (by_admin admin_user_id "user_status_changed" (some reason)) u
                  banned
                  (new_restriction sv user_id ban reason permanent
                    (ban_expiry sv permanent days now) now draws)
                  now draws.session_key w k e d)
          ]

      delete_user-Refines :
          (previous : UserStatus) (reason : Option String) (w : World sv)
          → Refines sv K w (delete_user sv admin_user_id user_id previous reason now draws w).1
      unfolding delete_user
      delete_user-Refines previous none w = Refines-refl sv K w
      delete_user-Refines previous (some reason) w =
          delete_user_data-Refines _ previous now draws.session_key w k

      enter_status-Refines :
          (u : User) (dto : UpdateAdminUserStatusDto) (w : World sv)
          → user_of sv user_id w ≡ some u
          → (status_eq u.status deleted && not (status_eq dto.status deleted)) ≡ false
          → Refines sv K w (enter_status sv admin_user_id user_id u.status dto now draws w).1
      unfolding enter_status
      enter_status-Refines u dto w e d = by_status dto.status refl
        where
          by_status :
              (s : UserStatus)
              → dto.status ≡ s
              → Refines sv K w (enter_status sv admin_user_id user_id u.status dto now draws w).1
          by_status active t = subst (Refines sv K w) (sym (ground (arith, t))) (
              reactivate_user-Refines sv K user_id now draws.session_key k
                (by_admin admin_user_id "user_status_changed"
                  (some (or_else (truthy dto.reason) "Status set to active")))
                w)
          by_status locked t =
              subst (Refines sv K w) (sym (ground (arith, t)))
                (lock_user-Refines u (truthy dto.reason) w e (ground (arith, d, t)))
          by_status banned t = subst (Refines sv K w) (sym (ground (arith, t))) (
              ban_user-Refines u (truthy dto.reason) (is_permanent dto) (days_of dto) w e
                (ground (arith, d, t)))
          by_status deleted t =
              subst (Refines sv K w) (sym (ground (arith, t)))
                (delete_user-Refines u.status (truthy dto.reason) w)
          by_status pending t =
              subst (Refines sv K w) (sym (ground (arith, t))) (Refines-refl sv K w)

      pub update_user_status-Refines :
          (dto : UpdateAdminUserStatusDto)
          → RefinesExec sv K (update_user_status sv admin_user_id user_id dto now draws)
      unfolding update_user_status find_user_or_throw
      update_user_status-Refines dto w = elim (Option-cases (user_of sv user_id w)) [
        | inl e ↦ subst (Refines sv K w) (sym (ground (arith, e))) (Refines-refl sv K w)
        | inr (u, e) ↦
            elim (Bool-cases (status_eq u.status deleted && not (status_eq dto.status deleted))) [
              | inl d ↦ subst (Refines sv K w) (sym (ground (arith, e, d))) (Refines-refl sv K w)
              | inr d ↦ subst (Refines sv K w) (sym (ground (arith, e, d))) (
                  RefinesExec-then sv K
                    (enter_status sv admin_user_id user_id u.status dto now draws)
                    (get_user_by_id sv user_id) w (enter_status-Refines u dto w e d)
                    get_user_by_id-Refines)
            ]
      ]
