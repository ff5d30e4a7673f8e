-- ===== src/Accounts/Sessions.antt =====
-- Who may use a session: the tokens that the account services hand out and JwtStrategy.validate.
use redbox.Prelude.{
  ℕ, String, ◌≡◌, refl, sym, Option, none, some, arith, ok, Result-cases, Option-cases, Bool-cases,
  inl, inr, leb, not, ◌&&◌, subst,
}
use redbox.Accounts.State.{
  UserStatus, active, banned, locked, pending, deleted, User, DeletionRequest, Restriction,
  Services, World, status_eq, ban,
}
use redbox.Accounts.Users.{
  AuditOptions, user_of, reactivate_user, get_active_deletion_request, get_active_restriction,
  expired_at,
}
use redbox.Accounts.Lifecycle.{
  status_normalized, ban_expired, assert_user_can_login, assert_not_banned,
  prepare_pending_deletion_login, prepare_request,
}
use redbox.Accounts.Rows.{user_of_id, user_of-reactivated, reactivated_row}

module _ (sv : Services) where
  -- The row that a read by id finds is that of an active user.
  pub record HasActive (user_id : String) (w : World sv) : Type 0 where
    pub row : User
    pub found : user_of sv user_id w ≡ some row
    pub status : row.status ≡ active

  module _ (user_id : String) (now : ℕ) (uuid : String) (w : World sv) where
    pub reactivate_user-HasActive :
        (o : AuditOptions)
        → (reactivate_user sv user_id o now uuid w).0 ≡ ok tt
        → HasActive user_id (reactivate_user sv user_id o now uuid w).1
    unfolding reactivate_user
    reactivate_user-HasActive o h = elim (Option-cases (user_of sv user_id w)) [
      | inl e ↦ absurd (ground (arith, e))
      | inr (u, e) ↦ elim (Bool-cases (status_eq u.status deleted)) [
        | inl d ↦ absurd (ground (arith, e, d))
        | inr d ↦ record {
          row = reactivated_row uuid u;
          found = ground (arith, e, d, user_of-reactivated sv user_id o u.status now uuid w);
          status = refl;
        }
      ]
    ]

    prepare_request-HasActive :
        (r : Option DeletionRequest)
        → (prepare_request sv user_id r now uuid w).0 ≡ ok none
        → HasActive user_id (prepare_request sv user_id r now uuid w).1
    unfolding prepare_request
    prepare_request-HasActive none h =
        elim (Result-cases (reactivate_user sv user_id status_normalized now uuid w).0) [
          | inl (u, e) ↦
              subst (HasActive user_id) (sym (ground (arith, e)))
                (reactivate_user-HasActive status_normalized e)
          | inr (x, e) ↦ absurd (ground (arith, e))
        ]
    prepare_request-HasActive (some r) h = elim (Bool-cases (leb r.delete_after_at now)) [
      | inl e ↦ absurd (ground (arith, e))
      | inr e ↦ absurd (ground (arith, e))
    ]

    assert_not_banned-HasActive :
        (r : Option Restriction)
        → (assert_not_banned sv user_id r now uuid w).0 ≡ ok tt
        → HasActive user_id (assert_not_banned sv user_id r now uuid w).1
    unfolding assert_not_banned
    assert_not_banned-HasActive none h = absurd (ground arith)
    assert_not_banned-HasActive (some r) h =
        elim (Bool-cases (not r.is_permanent && expired_at r.expires_at now)) [
          | inl e ↦
              subst (HasActive user_id) (sym (ground (arith, e)))
                (reactivate_user-HasActive ban_expired (ground (arith, e)))
          | inr e ↦ absurd (ground (arith, e))
        ]

    prepare_pending-HasActive :
        (u : User)
        → user_of sv user_id w ≡ some u
        → u.status ≡ pending
        → (prepare_pending_deletion_login sv user_id now uuid w).0 ≡ ok none
        → HasActive user_id (prepare_pending_deletion_login sv user_id now uuid w).1
    unfolding prepare_pending_deletion_login
    prepare_pending-HasActive u e s h =
        let r = get_active_deletion_request sv user_id w in
        subst (HasActive user_id) (sym (ground (arith, e, s)))
          (prepare_request-HasActive r (ground (arith, e, s)))

  module _ (u : User) (now : ℕ) (uuid : String) (w : World sv) where
    -- A user who may log in is active afterwards.
    assert_by_status :
        (s : UserStatus)
        → u.status ≡ s
        → user_of sv u.id w ≡ some u
        → (assert_user_can_login sv u now uuid w).0 ≡ ok tt
        → HasActive u.id (assert_user_can_login sv u now uuid w).1
    unfolding assert_user_can_login
    assert_by_status active s e h = record { row = u; found = ground (arith, e, s); status = s }
    assert_by_status banned s e h =
        let r = get_active_restriction sv u.id ban w in
        subst (HasActive u.id) (sym (ground (arith, s)))
          (assert_not_banned-HasActive u.id now uuid w r (ground (arith, s)))
    assert_by_status locked s e h = absurd (ground (arith, s))
    assert_by_status pending s e h =
        elim (Result-cases (prepare_pending_deletion_login sv u.id now uuid w).0) [
          | inl (r, p) ↦ elim (Option-cases r) [
            | inl n ↦
                subst (HasActive u.id) (sym (ground (arith, s, p, n)))
                  (prepare_pending-HasActive u.id now uuid w u e s (ground (arith, p, n)))
            | inr (q, n) ↦ absurd (ground (arith, s, p, n))
          ]
          | inr (x, p) ↦ absurd (ground (arith, s, p))
        ]
    assert_by_status deleted s e h = absurd (ground (arith, s))

    assert-HasActive :
        user_of sv u.id w ≡ some u
        → (assert_user_can_login sv u now uuid w).0 ≡ ok tt
        → HasActive u.id (assert_user_can_login sv u now uuid w).1
    assert-HasActive = assert_by_status u.status refl

  pub assert_user_can_login-HasActive :
      (user_id : String) (u : User) (now : ℕ) (uuid : String) (w : World sv)
      → user_of sv user_id w ≡ some u
      → (assert_user_can_login sv u now uuid w).0 ≡ ok tt
      → HasActive user_id (assert_user_can_login sv u now uuid w).1
  assert_user_can_login-HasActive user_id u now uuid w e h =
      subst (λ i. user_of sv i w ≡ some u → HasActive i (assert_user_can_login sv u now uuid w).1)
        (user_of_id sv user_id u w e) (λ f. assert-HasActive u now uuid w f h) e
