-- ===== src/Accounts/AuthSteps.antt =====
-- login and register as runs of the abstract machine.
use redbox.Prelude.{
  ℕ, String, ◌≡◌, sym, ap, ◌∙◌, subst, Option, none, some, arith, Result-cases, ◌++◌, List, [], ◌∷◌,
  ◌===◌, Bool-cases, Option-cases, inl, inr, find, Bool,
}
use redbox.Accounts.State.{User, DeletionRequest, Services, World}
use redbox.Accounts.Users.{user_of}
use redbox.Accounts.Lifecycle.{assert_user_can_login, prepare_pending_deletion_login}
use redbox.Accounts.Secrets.{Crypto, Jwt, decrypt_master_key}
use redbox.Accounts.Auth.{
  user_named, login_authenticated, answer_pending, login, RegisterDto, RegisterDraws, Defaults,
  is_usable, invite_with, create_user, new_user, register_with, register,
}
use redbox.Accounts.Machine.{here}
use redbox.Accounts.Refinement.{
  Refines, Refines-refl, Refines-trans, Refines-users, RefinesExec, RefinesExec->>=,
}
use redbox.Accounts.Operations.{
  assert_user_can_login-Refines, prepare_pending_deletion_login-Refines,
}

module _ (sv : Services) (K : String → Type 0) (crypto : Crypto) (jwt : Jwt) where
  module _ (user_id password : String) (now : ℕ) (uuid : String) (k : K uuid) where
    login_authenticated-Refines :
        RefinesExec sv K (login_authenticated sv crypto jwt user_id password now uuid)
    unfolding login_authenticated
    login_authenticated-Refines w = elim (Option-cases (user_of sv user_id w)) [
      | inl e ↦ subst (Refines sv K w) (sym (ground (arith, e))) (Refines-refl sv K w)
      | inr (c, e) ↦
          let w1 = (assert_user_can_login sv c now uuid w).1 in
          let r = assert_user_can_login-Refines sv K c now uuid k w in
          elim (Result-cases (assert_user_can_login sv c now uuid w).0) [
            | inr (x, a) ↦ subst (Refines sv K w) (sym (ground (arith, e, a))) r
            | inl (t, a) ↦ elim (Option-cases (user_of sv user_id w1)) [
              | inl f ↦ subst (Refines sv K w) (sym (ground (arith, e, a, f))) r
              | inr (v, f) ↦ elim (Option-cases (decrypt_master_key crypto password v)) [
                | inl d ↦ subst (Refines sv K w) (sym (ground (arith, e, a, f, d))) r
                | inr (mk, d) ↦
                    Refines-trans sv K w w1 _ r
                      (Refines-users sv K w1 _ (ground (arith, e, a, f, d)))
              ]
            ]
          ]
    ]

  module _ (username password : String) (now : ℕ) (uuid : String) (k : K uuid) where
    answer_pending-Refines :
        (u : User) (r : Option DeletionRequest)
        → RefinesExec sv K (answer_pending sv crypto jwt u password now uuid r)
    unfolding answer_pending
    answer_pending-Refines u none w = login_authenticated-Refines u.id password now uuid k w
    answer_pending-Refines u (some r) w = Refines-refl sv K w

    pub login-Refines : RefinesExec sv K (login sv crypto jwt username password now uuid)
    unfolding login
    login-Refines w = elim (Option-cases (user_named sv crypto jwt username w)) [
      | inl e ↦ subst (Refines sv K w) (sym (ground (arith, e))) (Refines-refl sv K w)
      | inr (u, e) ↦ elim (Bool-cases (sv.bcrypt_compare password u.password)) [
        | inr b ↦ subst (Refines sv K w) (sym (ground (arith, e, b))) (Refines-refl sv K w)
        | inl b ↦ subst (Refines sv K w) (sym (ground (arith, e, b))) (
            RefinesExec->>= sv K (prepare_pending_deletion_login sv u.id now uuid)
              (answer_pending sv crypto jwt u password now uuid)
              (prepare_pending_deletion_login-Refines sv K u.id now uuid k)
              (answer_pending-Refines u) w)
      ]
    ]

  find_kept :
      {A : Type 0} (q : A → Bool) (xs : List A) (x a : A)
      → find q xs ≡ some a
      → find q (xs ++ x ∷ []) ≡ some a
  find_kept q [] x a h = absurd (ground (arith, h))
  find_kept q (y ∷ ys) x a h = elim (Bool-cases (q y)) [
    | inl e ↦ ground (arith, e)
    | inr e ↦ ground (arith, e, find_kept q ys x a (ground (arith, e)))
  ]

  module _ (dto : RegisterDto) (draws : RegisterDraws) (defaults : Defaults) where
    create_user-Refines :
        (u : User) (invite_id : String) (w : World sv)
        → Refines sv K w (create_user sv crypto jwt u invite_id w)
    create_user-Refines u invite_id w id v e = record {
      row = v;
      found =
          ap (find (λ r. r.id === id)) (sv.users.rows-create w.users u)
          ∙ find_kept (λ r. r.id === id) (sv.users.rows w.users) u v e;
      run = here;
    }

    pub register-Refines : RefinesExec sv K (register sv crypto jwt dto draws defaults)
    unfolding register register_with
    register-Refines w = elim (Option-cases (invite_with sv crypto jwt dto.invite_code w)) [
      | inl i ↦ subst (Refines sv K w) (sym (ground (arith, i))) (Refines-refl sv K w)
      | inr (v, i) ↦ elim (Bool-cases (is_usable sv crypto jwt (some v))) [
        | inr c ↦ subst (Refines sv K w) (sym (ground (arith, i, c))) (Refines-refl sv K w)
        | inl c ↦ elim (Option-cases (user_named sv crypto jwt dto.username w)) [
          | inr (u, f) ↦
              subst (Refines sv K w) (sym (ground (arith, i, c, f))) (Refines-refl sv K w)
          | inl f ↦
              let w1 =
                create_user sv crypto jwt (new_user sv crypto jwt dto draws defaults) v.id w in
              Refines-trans sv K w w1 _
                (create_user-Refines (new_user sv crypto jwt dto draws defaults) v.id w)
                (Refines-users sv K w1 _ (ground (arith, i, c, f)))
        ]
      ]
    ]
