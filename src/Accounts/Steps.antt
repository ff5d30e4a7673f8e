-- ===== src/Accounts/Steps.antt =====
-- The operations on accounts as steps of a state, in any order and with any arguments: what becomes
-- of a user's session under them, and of a deleted user.
use redbox.Prelude.{
  ℕ, String, ◌≡◌, refl, ap, ◌∙◌, ◌≢◌, List, Option, some, ◌⊎◌, inl, inr, err, unauthorized,
}
use redbox.Accounts.State.{deleted, User, Services, World}
use redbox.Accounts.Users.{user_of}
use redbox.Accounts.Lifecycle.{
  Drawn, update_avatar, generate_invite_code, request_account_deletion,
  process_pending_deletion_requests, process_expired_restrictions,
}
use redbox.Accounts.Secrets.{Crypto, Jwt, Payload, Seeds}
use redbox.Accounts.Auth.{RegisterDto, RegisterDraws, Defaults, login, register}
use redbox.Accounts.Credentials.{
  refresh_token, logout, change_password, recover_password, reactivate_account, validate,
}
use redbox.Accounts.Revocation.{validate_stale}
use redbox.Accounts.AdminContent.{clear_user_data, delete_user_files}
use redbox.Accounts.AdminUsers.{
  UpdateAdminUserStatusDto, StatusDraws, update_user_status, force_logout_user, change_username,
}
use redbox.Accounts.Machine.{Moves-key, Moves-deleted}
use redbox.Accounts.Refinement.{Refines, Refines-refl, Refines-trans, Refines-widen}
use redbox.Accounts.Requests.{
  update_avatar-Refines, generate_invite_code-Refines, request_account_deletion-Refines,
  process_pending_deletion_requests-Refines, process_expired_restrictions-Refines,
}
use redbox.Accounts.AuthSteps.{login-Refines, register-Refines}
use redbox.Accounts.CredentialSteps.{
  refresh_token-Refines, logout-Refines, change_password-Refines, recover_password-Refines,
  reactivate_account-Refines,
}
use redbox.Accounts.AdminSteps.{update_user_status-Refines}
use redbox.Accounts.AdminRuns.{
  force_logout_user-Refines, change_username-Refines, delete_user_files-Refines,
  clear_user_data-Refines,
}

module _ (sv : Services) (crypto : Crypto) (jwt : Jwt) where
  -- One call of the account, authentication or administration service, or one run of a cron job.
  pub data Step (w : World sv) : World sv → Type 0 where
    avatar_step : (id avatar : String) → Step w (update_avatar sv id avatar w).1
    invite_step : (id : String) (drawn : Drawn) → Step w (generate_invite_code sv id drawn w).1
    deletion_step :
        (id password : String) (now : ℕ) (drawn : Drawn)
        → Step w (request_account_deletion sv id password now drawn w).1
    due_step :
        (now : ℕ) (uuids : String → String)
        → Step w (process_pending_deletion_requests sv now uuids w)
    expired_step :
        (now : ℕ) (uuids : String → String) → Step w (process_expired_restrictions sv now uuids w).1
    login_step :
        (username password : String) (now : ℕ) (uuid : String)
        → Step w (login sv crypto jwt username password now uuid w).1
    register_step :
        (dto : RegisterDto) (draws : RegisterDraws) (defaults : Defaults)
        → Step w (register sv crypto jwt dto draws defaults w).1
    refresh_step :
        (id key : String) (now : ℕ) (drawn uuid : String)
        → Step w (refresh_token sv crypto jwt id key now drawn uuid w).1
    logout_step : (id uuid : String) → Step w (logout sv crypto jwt id uuid w).1
    password_step :
        (id old_password new_password : String) (seeds : Seeds) (uuid : String)
        → Step w (change_password sv crypto jwt id old_password new_password seeds uuid w).1
    recover_step :
        (username phrase new_password : String) (seeds : Seeds) (uuid : String)
        → Step w (recover_password sv crypto jwt username phrase new_password seeds uuid w).1
    reactivate_step :
        (token : String) (now : ℕ) (uuid : String)
        → Step w (reactivate_account sv crypto jwt token now uuid w).1
    status_step :
        (admin_id id : String) (dto : UpdateAdminUserStatusDto) (now : ℕ) (draws : StatusDraws)
        → Step w (update_user_status sv admin_id id dto now draws w).1
    force_logout_step :
        (admin_id id : String) (reason : Option String) (uuid : String)
        → Step w (force_logout_user sv admin_id id reason uuid w).1
    username_step :
        (admin_id id username : String) (reason : Option String) (uuid : String)
        → Step w (change_username sv admin_id id username reason uuid w).1
    files_step :
        (admin_id id : String) (ids : List String) (reason : Option String)
        → Step w (delete_user_files sv admin_id id ids reason w).1
    clear_step :
        (admin_id id : String) (reason : Option String)
        → Step w (clear_user_data sv admin_id id reason w).1

  pub data Reach (w : World sv) : World sv → Type 0 where
    start : Reach w w
    next : {v t : World sv} → Reach w v → Step v t → Reach w t

  -- The session keys that a step may set in a row that is there.
  unfoldable pub SetsKey : {w w' : World sv} → Step w w' → String → Type 0
  SetsKey (avatar_step id avatar) key = ⊥
  SetsKey (invite_step id drawn) key = ⊥
  SetsKey (deletion_step id password now drawn) key = key ≡ drawn.text
  SetsKey (due_step now uuids) key = (id : String) × (key ≡ uuids id)
  SetsKey (expired_step now uuids) key = (id : String) × (key ≡ uuids id)
  SetsKey (login_step username password now uuid) key = key ≡ uuid
  SetsKey (register_step dto draws defaults) key = ⊥
  SetsKey (refresh_step id old now drawn uuid) key = (key ≡ drawn) ⊎ (key ≡ uuid)
  SetsKey (logout_step id uuid) key = key ≡ uuid
  SetsKey (password_step id old_password new_password seeds uuid) key = key ≡ uuid
  SetsKey (recover_step username phrase new_password seeds uuid) key = key ≡ uuid
  SetsKey (reactivate_step token now uuid) key = key ≡ uuid
  SetsKey (status_step admin_id id dto now draws) key = key ≡ draws.session_key
  SetsKey (force_logout_step admin_id id reason uuid) key = key ≡ uuid
  SetsKey (username_step admin_id id username reason uuid) key = key ≡ uuid
  SetsKey (files_step admin_id id ids reason) key = ⊥
  SetsKey (clear_step admin_id id reason) key = ⊥

  -- The session keys that the steps of a sequence may set.
  unfoldable pub SetKeys : {w w' : World sv} → Reach w w' → String → Type 0
  SetKeys start key = ⊥
  SetKeys (next r s) key = SetKeys r key ⊎ SetsKey s key

  -- Every operation refines the machine over its own session keys.
  Step-Refines : {w w' : World sv} (s : Step w w') → Refines sv (SetsKey s) w w'
  unfolding SetsKey
  Step-Refines {w} (avatar_step id avatar) = update_avatar-Refines sv _ id avatar w
  Step-Refines {w} (invite_step id drawn) = generate_invite_code-Refines sv _ id drawn w
  Step-Refines {w} (deletion_step id password now drawn) =
      request_account_deletion-Refines sv (λ key. key ≡ drawn.text) id password now drawn refl w
  Step-Refines {w} (due_step now uuids) =
      process_pending_deletion_requests-Refines sv (λ key. (id : String) × (key ≡ uuids id)) now
        uuids (λ id. (id, refl)) w
  Step-Refines {w} (expired_step now uuids) =
      process_expired_restrictions-Refines sv (λ key. (id : String) × (key ≡ uuids id)) now uuids
        (λ id. (id, refl)) w
  Step-Refines {w} (login_step username password now uuid) =
      login-Refines sv (λ key. key ≡ uuid) crypto jwt username password now uuid refl w
  Step-Refines {w} (register_step dto draws defaults) =
      register-Refines sv _ crypto jwt dto draws defaults w
  Step-Refines {w} (refresh_step id key now drawn uuid) =
      refresh_token-Refines sv (λ k. (k ≡ drawn) ⊎ (k ≡ uuid)) crypto jwt id key now drawn uuid
        (inl refl) (inr refl) w
  Step-Refines {w} (logout_step id uuid) =
      logout-Refines sv (λ key. key ≡ uuid) crypto jwt id uuid refl w
  Step-Refines {w} (password_step id old_password new_password seeds uuid) =
      change_password-Refines sv (λ key. key ≡ uuid) crypto jwt id uuid refl old_password
        new_password seeds w
  Step-Refines {w} (recover_step username phrase new_password seeds uuid) =
      recover_password-Refines sv (λ key. key ≡ uuid) crypto jwt username phrase new_password seeds
        uuid refl w
  Step-Refines {w} (reactivate_step token now uuid) =
      reactivate_account-Refines sv (λ key. key ≡ uuid) crypto jwt now uuid refl token w
  Step-Refines {w} (status_step admin_id id dto now draws) =
      update_user_status-Refines sv (λ key. key ≡ draws.session_key) id admin_id now draws refl dto
        w
  Step-Refines {w} (force_logout_step admin_id id reason uuid) =
      force_logout_user-Refines sv (λ key. key ≡ uuid) admin_id id reason uuid refl w
  Step-Refines {w} (username_step admin_id id username reason uuid) =
      change_username-Refines sv (λ key. key ≡ uuid) admin_id id reason username uuid refl w
  Step-Refines {w} (files_step admin_id id ids reason) =
      delete_user_files-Refines sv _ admin_id id reason ids w
  Step-Refines {w} (clear_step admin_id id reason) =
      clear_user_data-Refines sv _ admin_id id reason w

  Reach-Refines : {w w' : World sv} (r : Reach w w') → Refines sv (SetKeys r) w w'
  unfolding SetKeys
  Reach-Refines {w} start = Refines-refl sv _ w
  Reach-Refines {w} {w'} (next {v} r s) =
      Refines-trans sv _ w v w' (Refines-widen sv (λ key k. inl k) w v (Reach-Refines r))
        (Refines-widen sv (λ key k. inr k) v w' (Step-Refines s))

  -- A user's row later, for a session that was opened with the row: either neither the status nor
  -- the session key has changed, or the session is over.
  pub record Settled (u : User) (p : Payload) (w : World sv) : Type 0 where
    pub row : User
    pub found : user_of sv p.sub w ≡ some row
    pub outcome :
        ((row.status ≡ u.status) × (row.session_key ≡ u.session_key))
        ⊎ ((validate sv p w).0 ≡ err (unauthorized "Access Denied (Session Expired)"))

  -- After any sequence of operations of the account services that sets no session key equal to a
  -- user's old one, the user's row is there, and either its status and session key are the old ones,
  -- or JwtStrategy.validate refuses every payload of the user with the old session key.
  pub Reach-Settled :
      {w w' : World sv} (u : User) (p : Payload) (r : Reach w w')
      → user_of sv p.sub w ≡ some u
      → p.session_key ≡ u.session_key
      → ((key : String) → SetKeys r key → key ≢ u.session_key)
      → Settled u p w'
  Reach-Settled {w} {w'} u p r e h fresh =
      let t = Reach-Refines r p.sub u e in
      elim (Moves-key t.run) [
        | inl s ↦ record {
          row = t.row;
          found = t.found;
          outcome = inl (ap (λ a. a.status) s, ap (λ a. a.session_key) s);
        }
        | inr k ↦ record {
          row = t.row;
          found = t.found;
          outcome =
              inr (validate_stale sv p t.row w' t.found (λ q. fresh t.row.session_key k (q ∙ h)));
        }
      ]

  -- The row of a deleted user after any operations.
  pub record StillDeleted (id : String) (w : World sv) : Type 0 where
    pub row : User
    pub found : user_of sv id w ≡ some row
    pub status : row.status ≡ deleted

  -- No sequence of operations of the account services brings a deleted user back or removes the row.
  pub Reach-StillDeleted :
      {w w' : World sv} (id : String) (u : User)
      → Reach w w'
      → user_of sv id w ≡ some u
      → u.status ≡ deleted
      → StillDeleted id w'
  Reach-StillDeleted id u r e d =
      let t = Reach-Refines r id u e in
      record { row = t.row; found = t.found; status = Moves-deleted t.run d }
