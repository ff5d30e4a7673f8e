-- ===== src/Accounts/Requests.antt =====
-- The avatar, invite codes, the deletion request and the cron jobs of users.service.ts, as runs of
-- the abstract machine.
use redbox.Prelude.{
  ℕ, ◌+◌, String, ◌≡◌, refl, sym, subst, false, List, [], ◌∷◌, some, arith, leb, is_some,
  Bool-cases, Option-cases, inl, inr,
}
use redbox.Accounts.State.{
  active, pending, deleted, User, DeletionRequest, Restriction, Services, World, status_eq,
}
use redbox.Accounts.Users.{user_of, get_active_deletion_request, reactivate_user}
use redbox.Accounts.Lifecycle.{
  Drawn, update_avatar, generate_invite_code, create_invite, enter_pending,
  request_account_deletion, finalize_all, process_pending_deletion_requests, is_due, reactivate_all,
  process_expired_restrictions, is_expired_ban, ban_expired,
}
use redbox.Database.{find_many}
use redbox.Accounts.Machine.{enter, here, after, account}
use redbox.Accounts.Refinement.{Refines, Refines-refl, Refines-trans, RefinesExec, RefinesExec->>=}
use redbox.Accounts.Operations.{
  Refines-update_user, kept, finalize_pending_deletion-Refines, reactivate_user-Refines,
}

module _ (sv : Services) (K : String → Type 0) where
  module _ (user_id : String) where
    pub update_avatar-Refines :
        (avatar : String) → RefinesExec sv K (update_avatar sv user_id avatar)
    unfolding update_avatar
    update_avatar-Refines avatar w = elim (Option-cases (user_of sv user_id w)) [
      | inl e ↦ subst (Refines sv K w) (sym (ground (arith, e))) (Refines-refl sv K w)
      | inr (u, e) ↦
          Refines-update_user sv K user_id (λ v. record v { avatar = avatar }) w _
            (ground (arith, e)) (λ v. refl) (λ v g. here)
    ]

    create_invite-Refines :
        (drawn : Drawn) (w : World sv) → Refines sv K w (create_invite sv user_id drawn w)
    create_invite-Refines drawn w =
        Refines-update_user sv K user_id (λ u. record u { issued_codes = u.issued_codes + 1 }) w _
          refl (λ u. refl) (λ u e. here)

    pub generate_invite_code-Refines :
        (drawn : Drawn) → RefinesExec sv K (generate_invite_code sv user_id drawn)
    unfolding generate_invite_code
    generate_invite_code-Refines drawn w = elim (Option-cases (user_of sv user_id w)) [
      | inl e ↦ subst (Refines sv K w) (sym (ground (arith, e))) (Refines-refl sv K w)
      | inr (u, e) ↦ elim (Bool-cases (status_eq u.status active)) [
        | inr a ↦ subst (Refines sv K w) (sym (ground (arith, e, a))) (Refines-refl sv K w)
        | inl a ↦ elim (Bool-cases (leb 2 u.issued_codes)) [
          | inl l ↦ subst (Refines sv K w) (sym (ground (arith, e, a, l))) (Refines-refl sv K w)
          | inr l ↦
              subst (Refines sv K w) (sym (ground (arith, e, a, l))) (create_invite-Refines drawn w)
        ]
      ]
    ]

    enter_pending-Refines :
        (u : User) (now : ℕ) (drawn : Drawn) (w : World sv)
        → K drawn.text
        → user_of sv user_id w ≡ some u
        → status_eq u.status deleted ≡ false
        → Refines sv K w (enter_pending sv user_id u.status now drawn w)
    enter_pending-Refines u now drawn w k e d =
        Refines-update_user sv K user_id
          (λ v. record v { status = pending; session_key = drawn.text }) w _ refl (λ v. refl)
          λ v g.
            after here
              (enter (account v) pending drawn.text k (kept v.status (ground (arith, e, g, d))))

    pub request_account_deletion-Refines :
        (password : String) (now : ℕ) (drawn : Drawn)
        → K drawn.text
        → RefinesExec sv K (request_account_deletion sv user_id password now drawn)
    unfolding request_account_deletion
    request_account_deletion-Refines password now drawn k w =
        elim (Option-cases (user_of sv user_id w)) [
          | inl e ↦ subst (Refines sv K w) (sym (ground (arith, e))) (Refines-refl sv K w)
          | inr (u, e) ↦ elim (Bool-cases (sv.bcrypt_compare password u.password)) [
            | inr b ↦ subst (Refines sv K w) (sym (ground (arith, e, b))) (Refines-refl sv K w)
            | inl b ↦ elim (Bool-cases (status_eq u.status deleted)) [
              | inl d ↦ subst (Refines sv K w) (sym (ground (arith, e, b, d))) (Refines-refl sv K w)
              | inr d ↦ elim (Bool-cases (is_some (get_active_deletion_request sv user_id w))) [
                | inl a ↦
                    subst (Refines sv K w) (sym (ground (arith, e, b, d, a))) (Refines-refl sv K w)
                | inr a ↦
                    subst (Refines sv K w) (sym (ground (arith, e, b, d, a)))
                      (enter_pending-Refines u now drawn w k e d)
              ]
            ]
          ]
        ]

  finalize_all-Refines :
      (rs : List DeletionRequest) (now : ℕ) (uuids : String → String)
      → ((id : String) → K (uuids id))
      → (w : World sv) → Refines sv K w (finalize_all sv rs now uuids w)
  unfolding finalize_all
  finalize_all-Refines [] now uuids ks w = Refines-refl sv K w
  finalize_all-Refines (r ∷ rs) now uuids ks w =
      Refines-trans sv K w _ _
        (finalize_pending_deletion-Refines sv K r.user_id now (uuids r.id) (ks r.id) r.id w)
        (finalize_all-Refines rs now uuids ks _)

  pub process_pending_deletion_requests-Refines :
      (now : ℕ) (uuids : String → String)
      → ((id : String) → K (uuids id))
      → (w : World sv) → Refines sv K w (process_pending_deletion_requests sv now uuids w)
  unfolding process_pending_deletion_requests
  process_pending_deletion_requests-Refines now uuids ks w =
      finalize_all-Refines (find_many sv.deletion_requests w.deletion_requests (is_due sv now)) now
        uuids ks w

  reactivate_all-Refines :
      (rs : List Restriction) (now : ℕ) (uuids : String → String)
      → ((id : String) → K (uuids id))
      → RefinesExec sv K (reactivate_all sv rs now uuids)
  unfolding reactivate_all
  reactivate_all-Refines [] now uuids ks w = Refines-refl sv K w
  reactivate_all-Refines (r ∷ rs) now uuids ks w =
      RefinesExec->>= sv K (reactivate_user sv r.user_id ban_expired now (uuids r.id))
        (λ a. reactivate_all sv rs now uuids)
        (reactivate_user-Refines sv K r.user_id now (uuids r.id) (ks r.id) ban_expired)
        (λ a. reactivate_all-Refines rs now uuids ks) w

  pub process_expired_restrictions-Refines :
      (now : ℕ) (uuids : String → String)
      → ((id : String) → K (uuids id))
      → RefinesExec sv K (process_expired_restrictions sv now uuids)
  unfolding process_expired_restrictions
  process_expired_restrictions-Refines now uuids ks w =
      reactivate_all-Refines (find_many sv.restrictions w.restrictions (is_expired_ban sv now)) now
        uuids ks w
