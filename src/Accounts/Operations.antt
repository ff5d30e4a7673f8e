-- ===== src/Accounts/Operations.antt =====
-- Reactivation, the end of a pending deletion and the checks at login, from users.service.ts, as
-- runs of the abstract machine.
use redbox.Prelude.{
  ℕ, String, ◌≡◌, refl, sym, ap, ◌∙◌, subst, ◌≢◌, true, false, not, ◌&&◌, Option, none, some, arith,
  ◌===◌, leb, Bool-cases, Option-cases, inl, inr, eq_iff, pure,
}
use redbox.Accounts.State.{
  UserStatus, active, banned, locked, pending, deleted, User, DeletionRequest, Restriction,
  Services, World, status_eq, ban,
}
use redbox.Accounts.Users.{
  AuditOptions, user_of, update_user, reactivated, reactivate_user, set_invite_codes_validity,
  resolve_open_restrictions, cancel_active_deletion_requests, get_active_deletion_request,
  get_active_restriction, delete_owned, delete_user_data_and_mark_deleted,
  finalize_pending_deletion, expired_at, deletion_processed,
}
use redbox.Accounts.Lifecycle.{
  prepare_request, prepare_pending_deletion_login, reactivate_request, reactivate_pending_account,
  assert_not_banned, assert_not_pending, assert_user_can_login, status_normalized,
  deletion_cancelled, ban_expired,
}
use redbox.Accounts.Rows.{user_of_id, users-settle_request}
use redbox.Accounts.Machine.{Moves, rotate, enter, here, after, account}
use redbox.Accounts.Refinement.{Refines, Refines-refl, Refines-update, RefinesExec, RefinesExec->>=}

status_eq_refl : (s : UserStatus) → status_eq s s ≡ true
status_eq_refl active = refl
status_eq_refl banned = refl
status_eq_refl locked = refl
status_eq_refl pending = refl
status_eq_refl deleted = refl

is_deleted : (s : UserStatus) → status_eq s deleted ≡ true → s ≡ deleted
is_deleted active h = absurd (ground (arith, h))
is_deleted banned h = absurd (ground (arith, h))
is_deleted locked h = absurd (ground (arith, h))
is_deleted pending h = absurd (ground (arith, h))
is_deleted deleted h = refl

pub kept : (s : UserStatus) → status_eq s deleted ≡ false → s ≢ deleted
kept s h e =
    let f : status_eq s deleted ≡ true = ap (λ t. status_eq t deleted) e ∙ refl in
    ground (arith, h, f)

pub deletion_run :
    {K : String → Type 0} (u : User) (uuid : String)
    → K uuid
    → Moves K (account u) (record { status = deleted; session_key = uuid })
deletion_run {K} u uuid k = elim (Bool-cases (status_eq u.status deleted)) [
  | inl d ↦
      subst (λ s. Moves K (account u) (record { status = s; session_key = uuid }))
        (is_deleted u.status d) (after here (rotate (account u) uuid k))
  | inr d ↦ after here (enter (account u) deleted uuid k (kept u.status d))
]

module _ (sv : Services) (K : String → Type 0) where
  -- One user's row changes, by a run from the row that a read finds.
  pub Refines-update_user :
      (user_id : String) (f : User → User) (w w' : World sv)
      → w'.users ≡ (update_user sv user_id f w).users
      → ((u : User) → (f u).id ≡ u.id)
      → ((u : User) → user_of sv user_id w ≡ some u → Moves K (account u) (account (f u)))
      → Refines sv K w w'
  Refines-update_user user_id f w w' h keeps run =
      Refines-update sv K (λ u. u.id === user_id) f w w' h keeps
        λ id u e p.
          let i : u.id ≡ user_id = (eq_iff u.id user_id).0 p in
          run u (subst (λ j. user_of sv j w ≡ some u) (sym (user_of_id sv id u w e) ∙ i) e)

  module _ (user_id : String) (w : World sv) where
    pub Refines-reactivated :
        (o : AuditOptions) (u : User) (now : ℕ) (uuid : String)
        → K uuid
        → user_of sv user_id w ≡ some u
        → status_eq u.status deleted ≡ false
        → Refines sv K w (reactivated sv user_id o u.status now uuid w)
    unfolding reactivated set_invite_codes_validity resolve_open_restrictions
        cancel_active_deletion_requests
    Refines-reactivated o u now uuid k e d =
        Refines-update_user user_id (λ v. record v { status = active; session_key = uuid }) w _ refl
          (λ v. refl)
          λ v g.
            after here (enter (account v) active uuid k (kept v.status (ground (arith, e, g, d))))

    pub Refines-deleted :
        (o : AuditOptions) (previous : UserStatus) (request : Option String) (now : ℕ)
        (uuid : String)
        → K uuid
        → Refines sv K w
            (delete_user_data_and_mark_deleted sv user_id o previous request now uuid w)
    unfolding delete_user_data_and_mark_deleted resolve_open_restrictions delete_owned
    Refines-deleted o previous request now uuid k =
        Refines-update_user user_id
          (λ v. record v { status = deleted; issued_codes = 0; session_key = uuid }) w _
          (ap
            (λ s.
              sv.users.update_many s (λ v. v.id === user_id)
                (λ v. record v { status = deleted; issued_codes = 0; session_key = uuid }))
            (users-settle_request sv user_id request now _))
          (λ v. refl) λ v g. deletion_run v uuid k

  module _ (user_id : String) (now : ℕ) (uuid : String) (k : K uuid) where
    pub reactivate_user-Refines :
        (o : AuditOptions) → RefinesExec sv K (reactivate_user sv user_id o now uuid)
    unfolding reactivate_user
    reactivate_user-Refines o w = elim (Option-cases (user_of sv user_id w)) [
      | inl e ↦ subst (Refines sv K w) (sym (ground (arith, e))) (Refines-refl sv K w)
      | inr (u, e) ↦ elim (Bool-cases (status_eq u.status deleted)) [
        | inl d ↦ subst (Refines sv K w) (sym (ground (arith, e, d))) (Refines-refl sv K w)
        | inr d ↦
            subst (Refines sv K w) (sym (ground (arith, e, d)))
              (Refines-reactivated user_id w o u now uuid k e d)
      ]
    ]

    pub finalize_pending_deletion-Refines :
        (request_id : String) (w : World sv)
        → Refines sv K w (finalize_pending_deletion sv user_id request_id now uuid w)
    unfolding finalize_pending_deletion
    finalize_pending_deletion-Refines request_id w = elim (Option-cases (user_of sv user_id w)) [
      | inl e ↦ subst (Refines sv K w) (sym (ground (arith, e))) (Refines-refl sv K w)
      | inr (u, e) ↦ elim (Bool-cases (status_eq u.status deleted)) [
        | inl d ↦ subst (Refines sv K w) (sym (ground (arith, e, d))) (Refines-refl sv K w)
        | inr d ↦
            subst (Refines sv K w) (sym (ground (arith, e, d)))
              (Refines-deleted user_id w deletion_processed u.status (some request_id) now uuid k)
      ]
    ]

    pub prepare_request-Refines :
        (r : Option DeletionRequest) → RefinesExec sv K (prepare_request sv user_id r now uuid)
    unfolding prepare_request
    prepare_request-Refines none w =
        RefinesExec->>= sv K (reactivate_user sv user_id status_normalized now uuid)
          (λ a. pure none) (reactivate_user-Refines status_normalized) (λ a. Refines-refl sv K) w
    prepare_request-Refines (some r) w = elim (Bool-cases (leb r.delete_after_at now)) [
      | inl d ↦
          subst (Refines sv K w) (sym (ground (arith, d)))
            (finalize_pending_deletion-Refines r.id w)
      | inr d ↦ subst (Refines sv K w) (sym (ground (arith, d))) (Refines-refl sv K w)
    ]

    pub prepare_pending_deletion_login-Refines :
        RefinesExec sv K (prepare_pending_deletion_login sv user_id now uuid)
    unfolding prepare_pending_deletion_login
    prepare_pending_deletion_login-Refines w = elim (Option-cases (user_of sv user_id w)) [
      | inl e ↦ subst (Refines sv K w) (sym (ground (arith, e))) (Refines-refl sv K w)
      | inr (u, e) ↦ elim (Bool-cases (status_eq u.status pending)) [
        | inl d ↦
            subst (Refines sv K w) (sym (ground (arith, e, d)))
              (prepare_request-Refines (get_active_deletion_request sv user_id w) w)
        | inr d ↦ subst (Refines sv K w) (sym (ground (arith, e, d))) (Refines-refl sv K w)
      ]
    ]

    pub reactivate_request-Refines :
        (request_id : String) (r : Option DeletionRequest)
        → RefinesExec sv K (reactivate_request sv user_id request_id r now uuid)
    unfolding reactivate_request
    reactivate_request-Refines request_id none w = Refines-refl sv K w
    reactivate_request-Refines request_id (some r) w = elim (Bool-cases (r.id === request_id)) [
      | inr i ↦ subst (Refines sv K w) (sym (ground (arith, i))) (Refines-refl sv K w)
      | inl i ↦ elim (Bool-cases (leb r.delete_after_at now)) [
        | inl d ↦
            subst (Refines sv K w) (sym (ground (arith, i, d)))
              (finalize_pending_deletion-Refines r.id w)
        | inr d ↦
            subst (Refines sv K w) (sym (ground (arith, i, d)))
              (reactivate_user-Refines deletion_cancelled w)
      ]
    ]

    pub reactivate_pending_account-Refines :
        (request_id : String)
        → RefinesExec sv K (reactivate_pending_account sv user_id request_id now uuid)
    unfolding reactivate_pending_account
    reactivate_pending_account-Refines request_id w = elim (Option-cases (user_of sv user_id w)) [
      | inl e ↦ subst (Refines sv K w) (sym (ground (arith, e))) (Refines-refl sv K w)
      | inr (u, e) ↦ by_status u e u.status refl
    ]
      where
        by_status :
            (u : User)
            → user_of sv user_id w ≡ some u
            → (s : UserStatus) → u.status ≡ s
            → Refines sv K w (reactivate_pending_account sv user_id request_id now uuid w).1
        by_status u e pending d =
            subst (Refines sv K w) (sym (ground (arith, e, d)))
              (reactivate_request-Refines request_id (get_active_deletion_request sv user_id w) w)
        by_status u e active d =
            subst (Refines sv K w) (sym (ground (arith, e, d))) (Refines-refl sv K w)
        by_status u e banned d =
            subst (Refines sv K w) (sym (ground (arith, e, d))) (Refines-refl sv K w)
        by_status u e locked d =
            subst (Refines sv K w) (sym (ground (arith, e, d))) (Refines-refl sv K w)
        by_status u e deleted d =
            subst (Refines sv K w) (sym (ground (arith, e, d))) (Refines-refl sv K w)

    pub assert_not_banned-Refines :
        (r : Option Restriction) → RefinesExec sv K (assert_not_banned sv user_id r now uuid)
    unfolding assert_not_banned
    assert_not_banned-Refines none w = Refines-refl sv K w
    assert_not_banned-Refines (some r) w =
        elim (Bool-cases (not r.is_permanent && expired_at r.expires_at now)) [
          | inl e ↦
              subst (Refines sv K w) (sym (ground (arith, e)))
                (reactivate_user-Refines ban_expired w)
          | inr e ↦ subst (Refines sv K w) (sym (ground (arith, e))) (Refines-refl sv K w)
        ]

  not_pending : (r : Option DeletionRequest) → RefinesExec sv K (assert_not_pending sv r)
  not_pending none = Refines-refl sv K
  not_pending (some r) = Refines-refl sv K

  pub assert_user_can_login-Refines :
      (u : User) (now : ℕ) (uuid : String)
      → K uuid
      → RefinesExec sv K (assert_user_can_login sv u now uuid)
  unfolding assert_user_can_login
  assert_user_can_login-Refines u now uuid k w = by_status u.status refl
    where
      by_status :
          (s : UserStatus) → u.status ≡ s → Refines sv K w (assert_user_can_login sv u now uuid w).1
      by_status active d = subst (Refines sv K w) (sym (ground (arith, d))) (Refines-refl sv K w)
      by_status locked d = subst (Refines sv K w) (sym (ground (arith, d))) (Refines-refl sv K w)
      by_status deleted d = subst (Refines sv K w) (sym (ground (arith, d))) (Refines-refl sv K w)
      by_status pending d = subst (Refines sv K w) (sym (ground (arith, d))) (
          RefinesExec->>= sv K (prepare_pending_deletion_login sv u.id now uuid)
            (assert_not_pending sv) (prepare_pending_deletion_login-Refines u.id now uuid k)
            not_pending w)
      by_status banned d =
          subst (Refines sv K w) (sym (ground (arith, d)))
            (assert_not_banned-Refines u.id now uuid k (get_active_restriction sv u.id ban w) w)
