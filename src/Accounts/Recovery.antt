-- ===== src/Accounts/Recovery.antt =====
-- `recoverPassword` and the master key.
use redbox.Prelude.{String, ◌≡◌, refl, ◌∙◌, some, arith, ok, Option-cases, Bool-cases, inl, inr}
use redbox.Accounts.State.{User, Services, World}
use redbox.Accounts.Users.{user_of}
use redbox.Accounts.Secrets.{
  Crypto, Jwt, Seeds, decrypt_master_key, decrypt_recovery_key, generate_master_key_store,
  compare_recovery_phrase,
}
use redbox.Accounts.Auth.{user_named}
use redbox.Accounts.Credentials.{recover_password, set_password}
use redbox.Accounts.Rows.{user_of-update_user}

module _ (sv : Services) (crypto : Crypto) (jwt : Jwt) where
  pub record Recovered (user : User) (phrase new_password uuid : String) (w' : World sv)
      : Type 0 where
    pub after : User
    pub raw : String
    pub found : user_of sv user.id w' ≡ some after
    pub opened_before : decrypt_recovery_key crypto phrase user ≡ some raw
    pub opened_after : decrypt_master_key crypto new_password after ≡ some raw
    pub still : decrypt_recovery_key crypto phrase after ≡ some raw
    pub rotated : after.session_key ≡ uuid

  decrypt-set_password :
      (raw new_password uuid : String) (seeds : Seeds) (u : User)
      → decrypt_master_key crypto new_password (
          set_password sv crypto jwt new_password uuid
            (generate_master_key_store crypto new_password raw seeds)
            u)
        ≡ some raw
  unfolding decrypt_master_key generate_master_key_store
  decrypt-set_password raw new_password uuid seeds u =
      crypto.decrypt-encrypt (crypto.scrypt new_password seeds.salt) seeds.iv raw

  recovery-set_password :
      (raw phrase new_password uuid : String) (seeds : Seeds) (u : User)
      → decrypt_recovery_key crypto phrase (
          set_password sv crypto jwt new_password uuid
            (generate_master_key_store crypto new_password raw seeds)
            u)
        ≡ decrypt_recovery_key crypto phrase u
  unfolding decrypt_recovery_key
  recovery-set_password raw phrase new_password uuid seeds u = refl

  module _ (u : User) (phrase new_password : String) (seeds : Seeds) (uuid : String)
      (w : World sv) where
    -- When recoverPassword succeeds for a user whom both the name and the id find, the new password
    -- opens the master key that the recovery phrase opened, the phrase still opens it, and the
    -- session key is the drawn one.
    pub recover_password-Recovered :
        user_named sv crypto jwt u.username w ≡ some u
        → user_of sv u.id w ≡ some u
        → (recover_password sv crypto jwt u.username phrase new_password seeds uuid w).0 ≡ ok tt
        → Recovered u phrase new_password uuid
            (recover_password sv crypto jwt u.username phrase new_password seeds uuid w).1
    unfolding recover_password
    recover_password-Recovered n e h =
        elim (Bool-cases
          (compare_recovery_phrase crypto sv.bcrypt_compare phrase u.recovery_phrase_hash)) [
            | inr b ↦ absurd (ground (arith, n, b))
            | inl b ↦ elim (Option-cases (decrypt_recovery_key crypto phrase u)) [
              | inl d ↦ absurd (ground (arith, n, b, d))
              | inr (raw, d) ↦
                  let store = generate_master_key_store crypto new_password raw seeds in
                  let f = set_password sv crypto jwt new_password uuid store in
                  let g = user_of-update_user sv u.id f (λ v. refl) w in
                  record {
                    after = f u;
                    raw = raw;
                    found = ground (arith, n, e, b, d, g);
                    opened_before = d;
                    opened_after = decrypt-set_password raw new_password uuid seeds u;
                    still = recovery-set_password raw phrase new_password uuid seeds u ∙ d;
                    rotated = refl;
                  }
            ]
          ]
