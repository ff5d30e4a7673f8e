-- ===== src/Accounts/CredentialSteps.antt =====
-- refreshToken, logout, changePassword, recoverPassword and reactivateAccount as runs of the
-- abstract machine.
use redbox.Prelude.{
  ℕ, String, ◌≡◌, refl, sym, subst, true, some, arith, Result-cases, ◌===◌, Bool-cases,
  Option-cases, inl, inr,
}
use redbox.Accounts.State.{
  UserStatus, banned, locked, active, pending, deleted, User, Services, World,
}
use redbox.Accounts.Users.{user_of, update_user}
use redbox.Accounts.Lifecycle.{assert_user_can_login}
use redbox.Accounts.Secrets.{
  Crypto, Jwt, ReactivationPayload, Seeds, MasterKeyStore, decrypt_master_key,
  re_encrypt_master_key, decrypt_recovery_key, compare_recovery_phrase, generate_master_key_store,
}
use redbox.Accounts.Auth.{user_named}
use redbox.Accounts.Credentials.{
  holds_session, has_session, rotate_session, refresh_token, logout, set_password, change_password,
  recover_password, is_meant, reactivate_payload, reactivate_account,
}
use redbox.Accounts.Machine.{rotate, here, after, account}
use redbox.Accounts.Refinement.{
  Refines, Refines-refl, Refines-trans, Refines-users, Refines-update, RefinesExec,
}
use redbox.Accounts.Operations.{
  Refines-update_user, assert_user_can_login-Refines, reactivate_pending_account-Refines,
}

module _ (sv : Services) (K : String → Type 0) (crypto : Crypto) (jwt : Jwt) where
  module _ (user_id key : String) (now : ℕ) (drawn uuid : String) (d : K drawn) (k : K uuid) where
    rotate_session-Refines :
        (w : World sv) → Refines sv K w (rotate_session sv crypto jwt user_id key uuid w)
    rotate_session-Refines w =
        Refines-update sv K (holds_session sv crypto jwt user_id key)
          (λ u. record u { session_key = uuid }) w _ refl (λ u. refl)
          (λ id u e p. after here (rotate (account u) uuid k))

    pub refresh_token-Refines :
        RefinesExec sv K (refresh_token sv crypto jwt user_id key now drawn uuid)
    unfolding refresh_token
    refresh_token-Refines w = elim (Option-cases (user_of sv user_id w)) [
      | inl e ↦ subst (Refines sv K w) (sym (ground (arith, e))) (Refines-refl sv K w)
      | inr (u, e) ↦
          let w1 = (assert_user_can_login sv u now drawn w).1 in
          let r = assert_user_can_login-Refines sv K u now drawn d w in
          let w2 = rotate_session sv crypto jwt user_id key uuid w1 in
          let s = Refines-trans sv K w w1 w2 r (rotate_session-Refines w1) in
          elim (Result-cases (assert_user_can_login sv u now drawn w).0) [
            | inr (x, a) ↦ subst (Refines sv K w) (sym (ground (arith, e, a))) r
            | inl (t, a) ↦ elim (Bool-cases (has_session sv crypto jwt user_id key w1)) [
              | inr c ↦ subst (Refines sv K w) (sym (ground (arith, e, a, c))) s
              | inl c ↦ elim (Option-cases (user_of sv user_id w2)) [
                | inl g ↦
                    Refines-trans sv K w w2 _ s
                      (Refines-users sv K w2 _ (ground (arith, e, a, c, g)))
                | inr (v, g) ↦
                    Refines-trans sv K w w2 _ s
                      (Refines-users sv K w2 _ (ground (arith, e, a, c, g)))
              ]
            ]
          ]
    ]

  module _ (user_id uuid : String) (k : K uuid) where
    pub logout-Refines : RefinesExec sv K (logout sv crypto jwt user_id uuid)
    unfolding logout
    logout-Refines w = elim (Option-cases (user_of sv user_id w)) [
      | inl e ↦ subst (Refines sv K w) (sym (ground (arith, e))) (Refines-refl sv K w)
      | inr (u, e) ↦
          Refines-update_user sv K user_id (λ v. record v { session_key = uuid }) w _
            (ground (arith, e)) (λ v. refl) (λ v g. after here (rotate (account v) uuid k))
    ]

    set_password-Refines :
        (id new_password : String) (store : MasterKeyStore) (w w' : World sv)
        → w'.users
          ≡ (update_user sv id (set_password sv crypto jwt new_password uuid store) w).users
        → Refines sv K w w'
    set_password-Refines id new_password store w w' h =
        Refines-update_user sv K id (set_password sv crypto jwt new_password uuid store) w w' h
          (λ v. refl) (λ v g. after here (rotate (account v) uuid k))

    pub change_password-Refines :
        (old_password new_password : String) (seeds : Seeds)
        → RefinesExec sv K
            (change_password sv crypto jwt user_id old_password new_password seeds uuid)
    unfolding change_password
    change_password-Refines old_password new_password seeds w =
        elim (Option-cases (user_of sv user_id w)) [
          | inl e ↦ subst (Refines sv K w) (sym (ground (arith, e))) (Refines-refl sv K w)
          | inr (u, e) ↦ elim (Bool-cases (sv.bcrypt_compare old_password u.password)) [
            | inr b ↦ subst (Refines sv K w) (sym (ground (arith, e, b))) (Refines-refl sv K w)
            | inl b ↦ elim (Option-cases (decrypt_master_key crypto old_password u)) [
              | inl d ↦ subst (Refines sv K w) (sym (ground (arith, e, b, d))) (Refines-refl sv K w)
              | inr (raw, d) ↦
                  set_password-Refines user_id new_password
                    (re_encrypt_master_key crypto raw new_password seeds) w _
                    (ground (arith, e, b, d))
            ]
          ]
        ]

  pub recover_password-Refines :
      (username phrase new_password : String) (seeds : Seeds) (uuid : String)
      → K uuid
      → RefinesExec sv K (recover_password sv crypto jwt username phrase new_password seeds uuid)
  unfolding recover_password
  recover_password-Refines username phrase new_password seeds uuid k w =
      elim (Option-cases (user_named sv crypto jwt username w)) [
        | inl e ↦ subst (Refines sv K w) (sym (ground (arith, e))) (Refines-refl sv K w)
        | inr (u, e) ↦
            elim (Bool-cases
              (compare_recovery_phrase crypto sv.bcrypt_compare phrase u.recovery_phrase_hash)) [
                | inr b ↦ subst (Refines sv K w) (sym (ground (arith, e, b))) (Refines-refl sv K w)
                | inl b ↦ elim (Option-cases (decrypt_recovery_key crypto phrase u)) [
                  | inl d ↦
                      subst (Refines sv K w) (sym (ground (arith, e, b, d))) (Refines-refl sv K w)
                  | inr (raw, d) ↦
                      set_password-Refines u.id uuid k u.id new_password
                        (generate_master_key_store crypto new_password raw seeds) w _
                        (ground (arith, e, b, d))
                ]
              ]
      ]

  module _ (now : ℕ) (uuid : String) (k : K uuid) where
    reactivate_payload-Refines :
        (p : ReactivationPayload) → RefinesExec sv K (reactivate_payload sv crypto jwt p now uuid)
    unfolding reactivate_payload
    reactivate_payload-Refines p w = elim (Option-cases (user_of sv p.sub w)) [
      | inl e ↦ subst (Refines sv K w) (sym (ground (arith, e))) (Refines-refl sv K w)
      | inr (u, e) ↦ elim (Bool-cases (is_meant sv crypto jwt p u)) [
        | inr m ↦ subst (Refines sv K w) (sym (ground (arith, e, m))) (Refines-refl sv K w)
        | inl m ↦ by_status u e m u.status refl
      ]
    ]
      where
        by_status :
            (u : User)
            → user_of sv p.sub w ≡ some u
            → is_meant sv crypto jwt p u ≡ true
            → (s : UserStatus) → u.status ≡ s
            → Refines sv K w (reactivate_payload sv crypto jwt p now uuid w).1
        by_status u e m active d =
            subst (Refines sv K w) (sym (ground (arith, e, m, d))) (Refines-refl sv K w)
        by_status u e m banned d =
            subst (Refines sv K w) (sym (ground (arith, e, m, d))) (Refines-refl sv K w)
        by_status u e m locked d =
            subst (Refines sv K w) (sym (ground (arith, e, m, d))) (Refines-refl sv K w)
        by_status u e m deleted d =
            subst (Refines sv K w) (sym (ground (arith, e, m, d))) (Refines-refl sv K w)
        by_status u e m pending d =
            subst (Refines sv K w) (sym (ground (arith, e, m, d)))
              (reactivate_pending_account-Refines sv K u.id now uuid k p.deletion_request_id w)

    pub reactivate_account-Refines :
        (token : String) → RefinesExec sv K (reactivate_account sv crypto jwt token now uuid)
    unfolding reactivate_account
    reactivate_account-Refines token w = elim (Option-cases (jwt.verify_reactivation token)) [
      | inl e ↦ subst (Refines sv K w) (sym (ground (arith, e))) (Refines-refl sv K w)
      | inr (p, e) ↦ elim (Bool-cases (p.purpose === "account_reactivation")) [
        | inr b ↦ subst (Refines sv K w) (sym (ground (arith, e, b))) (Refines-refl sv K w)
        | inl b ↦
            subst (Refines sv K w) (sym (ground (arith, e, b))) (reactivate_payload-Refines p w)
      ]
    ]
