-- ===== src/Accounts/Revocation.antt =====
-- `logout` and `changePassword`: older tokens and the master key afterwards.
use mathlib.Core.Option
use redbox.Prelude.{
  String, ◌≡◌, refl, sym, ap, ◌∙◌, some, arith, ok, err, unauthorized, Option-cases, Bool-cases,
  inl, inr, ◌≢◌,
}
use redbox.Accounts.State.{User, Services, World}
use redbox.Accounts.Users.{user_of, update_user, drop_master_key}
use redbox.Accounts.Secrets.{Crypto, Jwt, Payload, Seeds, decrypt_master_key, re_encrypt_master_key}
use redbox.Accounts.Credentials.{validate, logout, change_password, set_password}
use redbox.Accounts.Rows.{user_of-update_user, differ}

module _ (sv : Services) where
  -- A payload with another session key than the row's.
  pub validate_refuses :
      (p : Payload) (f : User → User) (uuid : String) (w w' : World sv)
      → user_of sv p.sub w' ≡ Option.map f (user_of sv p.sub w)
      → ((u : User) → (f u).session_key ≡ uuid)
      → uuid ≢ p.session_key
      → (validate sv p w').0 ≡ err (unauthorized "Access Denied (Session Expired)")
  unfolding validate
  validate_refuses p f uuid w w' e k n = elim (Option-cases (user_of sv p.sub w)) [
    | inl o ↦ ground (arith, e, o)
    | inr (u, o) ↦ ground (arith, e, o, k u, differ uuid p.session_key n)
  ]

  pub validate_stale :
      (p : Payload) (u : User) (w : World sv)
      → user_of sv p.sub w ≡ some u
      → u.session_key ≢ p.session_key
      → (validate sv p w).0 ≡ err (unauthorized "Access Denied (Session Expired)")
  unfolding validate
  validate_stale p u w e n = ground (arith, e, differ u.session_key p.session_key n)

  module _ (crypto : Crypto) (jwt : Jwt) (p : Payload) (uuid : String) (w : World sv) where
    -- After logout with a new session key, JwtStrategy.validate refuses every payload of the user
    -- that has another one.
    pub logout-validate :
        uuid ≢ p.session_key
        → (validate sv p (logout sv crypto jwt p.sub uuid w).1).0
          ≡ err (unauthorized "Access Denied (Session Expired)")
    unfolding logout
    logout-validate n =
        let f : User → User = λ u. record u { session_key = uuid } in
        let w' = update_user sv p.sub f w in
        elim (Option-cases (user_of sv p.sub w)) [
          | inl o ↦
              ap (λ v. (validate sv p v).0) (ground (arith, o))
              ∙ validate_refuses p f uuid w w (o ∙ sym (ap (Option.map f) o)) (λ v. refl) n
          | inr (u, o) ↦
              ap (λ v. (validate sv p v).0) (ground (arith, o))
              ∙ validate_refuses p f uuid w (drop_master_key sv p.sub w')
                  (user_of-update_user sv p.sub f (λ v. refl) w) (λ v. refl) n
        ]

  module _ (crypto : Crypto) (jwt : Jwt) where
    -- The rows of a user before and after, and the master key that each password opens.
    pub record Rekeyed (user_id old_password new_password uuid : String) (w w' : World sv)
        : Type 0 where
      pub before : User
      pub after : User
      pub raw : String
      pub found_before : user_of sv user_id w ≡ some before
      pub found_after : user_of sv user_id w' ≡ some after
      pub rotated : after.session_key ≡ uuid
      pub opened_before : decrypt_master_key crypto old_password before ≡ some raw
      pub opened_after : decrypt_master_key crypto new_password after ≡ some raw

    decrypt-set_password :
        (raw new_password uuid : String) (seeds : Seeds) (u : User)
        → decrypt_master_key crypto new_password (
            set_password sv crypto jwt new_password uuid
              (re_encrypt_master_key crypto raw new_password seeds)
              u)
          ≡ some raw
    unfolding decrypt_master_key re_encrypt_master_key
    decrypt-set_password raw new_password uuid seeds u =
        crypto.decrypt-encrypt (crypto.scrypt new_password seeds.salt) seeds.iv raw

    module _ (user_id old_password new_password : String) (seeds : Seeds) (uuid : String)
        (w : World sv) where
      -- When changePassword succeeds, the new password opens the same master key from the new row
      -- as the old password did from the old row.
      pub change_password-Rekeyed :
          (change_password sv crypto jwt user_id old_password new_password seeds uuid w).0 ≡ ok tt
          → Rekeyed user_id old_password new_password uuid w
              (change_password sv crypto jwt user_id old_password new_password seeds uuid w).1
      unfolding change_password
      change_password-Rekeyed h = elim (Option-cases (user_of sv user_id w)) [
        | inl e ↦ absurd (ground (arith, e))
        | inr (u, e) ↦ elim (Bool-cases (sv.bcrypt_compare old_password u.password)) [
          | inr b ↦ absurd (ground (arith, e, b))
          | inl b ↦ elim (Option-cases (decrypt_master_key crypto old_password u)) [
            | inl d ↦ absurd (ground (arith, e, b, d))
            | inr (raw, d) ↦
                let store = re_encrypt_master_key crypto raw new_password seeds in
                let f = set_password sv crypto jwt new_password uuid store in
                let g = user_of-update_user sv user_id f (λ v. refl) w in
                record {
                  before = u;
                  after = f u;
                  raw = raw;
                  found_before = e;
                  found_after = ground (arith, e, b, d, g);
                  rotated = refl;
                  opened_before = d;
                  opened_after = decrypt-set_password raw new_password uuid seeds u;
                }
          ]
        ]
      ]

    module _ (p : Payload) (old_password new_password : String) (seeds : Seeds) (uuid : String)
        (w : World sv) where
      -- When changePassword of a user succeeds with a new session key, JwtStrategy.validate refuses
      -- every payload of the user that has another one.
      pub change_password-validate :
          uuid ≢ p.session_key
          → (change_password sv crypto jwt p.sub old_password new_password seeds uuid w).0 ≡ ok tt
          → (validate sv p
              (change_password sv crypto jwt p.sub old_password new_password seeds uuid w).1).0
            ≡ err (unauthorized "Access Denied (Session Expired)")
      change_password-validate n h =
          let r = change_password-Rekeyed p.sub old_password new_password seeds uuid w h in
          validate_stale p r.after _ r.found_after (λ e. n (sym r.rotated ∙ e))
