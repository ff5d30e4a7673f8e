-- ===== src/Accounts/Credentials.antt =====
-- refreshToken, logout, changePassword, recoverPassword and reactivateAccount of
-- auth/auth.service.ts, and `validate` of auth/strategy/jwt.strategy.ts.
use redbox.Prelude.{
  ℕ, String, Bool, not, ◌&&◌, none, some, ◌===◌, if◌then◌else◌, is_some, Exec, bad_request,
  unauthorized, forbidden, fault, pure, throw, gets, modify, check, ◌>>=◌, ◌>>◌,
}
use redbox.Database.{find_first}
use redbox.Accounts.State.{
  active, pending, deleted, status_eq, User, Services, World, master_key_key,
}
use redbox.Accounts.Users.{user_of, update_user, drop_master_key}
use redbox.Accounts.Lifecycle.{assert_user_can_login, reactivate_pending_account}
use redbox.Accounts.Secrets.{
  Crypto, Jwt, Payload, ReactivationPayload, Seeds, MasterKeyStore, Tokens,
  generate_master_key_store, re_encrypt_master_key, decrypt_master_key, decrypt_recovery_key,
  compare_recovery_phrase, get_tokens,
}
use redbox.Accounts.Auth.{user_named, or_fault}

module _ (sv : Services) (crypto : Crypto) (jwt : Jwt) where
  -- `updateMany` by id and session key.
  abbrev pub holds_session : String → String → User → Bool
  holds_session user_id key u = u.id === user_id && u.session_key === key

  abbrev pub has_session : String → String → World sv → Bool
  has_session user_id key w = is_some (find_first sv.users w.users (holds_session user_id key))

  abbrev pub rotate_session : String → String → String → World sv → World sv
  rotate_session user_id key uuid w = record w {
    users =
        sv.users.update_many w.users (holds_session user_id key)
          (λ u. record u { session_key = uuid });
  }

  abbrev pub extend_master_key : String → World sv → World sv
  extend_master_key user_id w = record w {
    master_keys = sv.texts.expire w.master_keys (master_key_key user_id) 86400;
  }

  -- `drawn` is the session key of a reactivation on the way, `uuid` the new one.
  unfoldable pub refresh_token : String → String → ℕ → String → String → Exec (World sv) Tokens
  refresh_token user_id key_from_token now drawn uuid = do
    found ← gets (user_of sv user_id)
    elim found [
      | none ↦ throw (forbidden "Access Denied (User not found)")
      | some u ↦ do
        assert_user_can_login sv u now drawn
        current ← gets (has_session user_id key_from_token)
        modify (rotate_session user_id key_from_token uuid)
        check current (forbidden "Access Denied (Session invalid)")
        modify (extend_master_key user_id)
        updated ← gets (user_of sv user_id)
        v ← or_fault updated
        pure (get_tokens jwt v.id v.username v.session_key)
    ]

  -- `update` of a missing row throws.
  unfoldable pub logout : String → String → Exec (World sv) (Unit {0})
  logout user_id uuid = do
    found ← gets (user_of sv user_id)
    check (is_some found) fault
    modify (update_user sv user_id (λ u. record u { session_key = uuid }))
    modify (drop_master_key sv user_id)

  abbrev pub set_password : String → String → MasterKeyStore → User → User
  set_password new_password uuid store u = record u {
    password = sv.bcrypt_hash new_password;
    session_key = uuid;
    encrypted_master_key = store.encrypted;
    master_key_iv = store.iv;
    master_key_salt = store.salt;
  }

  unfoldable pub change_password :
      String → String → String → Seeds → String → Exec (World sv) (Unit {0})
  change_password user_id old_password new_password seeds uuid = do
    found ← gets (user_of sv user_id)
    elim found [
      | none ↦ throw (forbidden "User not found")
      | some u ↦
          if not (sv.bcrypt_compare old_password u.password)
          then throw (unauthorized "Old password incorrect")
          else (do
            raw ← or_fault (decrypt_master_key crypto old_password u)
            modify (
                update_user sv user_id (
                  set_password new_password uuid
                    (re_encrypt_master_key crypto raw new_password seeds)))
            modify (drop_master_key sv user_id))
    ]

  unfoldable pub recover_password :
      String → String → String → Seeds → String → Exec (World sv) (Unit {0})
  recover_password username phrase new_password seeds uuid = do
    found ← gets (user_named sv crypto jwt username)
    elim found [
      | none ↦ throw (unauthorized "Invalid credentials")
      | some u ↦
          if not (compare_recovery_phrase crypto sv.bcrypt_compare phrase u.recovery_phrase_hash)
          then throw (unauthorized "Invalid credentials")
          else (do
            raw ← or_fault (decrypt_recovery_key crypto phrase u)
            modify (
                update_user sv u.id (
                  set_password new_password uuid
                    (generate_master_key_store crypto new_password raw seeds))))
    ]

  abbrev pub is_meant : ReactivationPayload → User → Bool
  is_meant p u = u.username === p.username && u.session_key === p.session_key

  unfoldable pub reactivate_payload : ReactivationPayload → ℕ → String → Exec (World sv) (Unit {0})
  reactivate_payload p now uuid = do
    found ← gets (user_of sv p.sub)
    elim found [
      | none ↦ throw (unauthorized "Invalid or expired reactivation token")
      | some u ↦
          if not (is_meant p u)
          then throw (unauthorized "Invalid or expired reactivation token")
          else if status_eq u.status deleted
          then throw (forbidden "This account has already been deleted.")
          else if status_eq u.status active
          then pure tt
          else if not (status_eq u.status pending)
          then throw (bad_request "This account is not pending deletion.")
          else reactivate_pending_account sv u.id p.deletion_request_id now uuid
    ]

  unfoldable pub reactivate_account : String → ℕ → String → Exec (World sv) (Unit {0})
  reactivate_account reactivation_token now uuid =
      elim (jwt.verify_reactivation reactivation_token) [
        | none ↦ throw (unauthorized "Invalid or expired reactivation token")
        | some p ↦
            if not (p.purpose === "account_reactivation")
            then throw (unauthorized "Invalid reactivation token")
            else reactivate_payload p now uuid
      ]

module _ (sv : Services) where
  -- `JwtStrategy.validate`
  unfoldable pub validate : Payload → Exec (World sv) User
  validate p = do
    found ← gets (user_of sv p.sub)
    elim found [
      | none ↦ throw (unauthorized "Access Denied (Session Expired)")
      | some u ↦
          if not (u.session_key === p.session_key)
          then throw (unauthorized "Access Denied (Session Expired)")
          else if not (status_eq u.status active)
          then throw (unauthorized "Access Denied (Account inactive)")
          else pure u
    ]
