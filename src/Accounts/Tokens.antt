-- ===== src/Accounts/Tokens.antt =====
-- The tokens of `login` and `refreshToken`, and what they open afterwards.
use redbox.Prelude.{
  ℕ, String, ◌≡◌, refl, sym, subst, some, arith, ok, Result-cases, Option-cases, Bool-cases, inl,
  inr, ===_refl,
}
use redbox.Accounts.State.{User, Services, World, master_key_key, active}
use redbox.Accounts.Users.{user_of}
use redbox.Accounts.Lifecycle.{prepare_pending_deletion_login, assert_user_can_login}
use redbox.Accounts.Secrets.{Crypto, Jwt, Payload, Tokens, get_tokens, decrypt_master_key}
use redbox.Accounts.Auth.{
  login, login_authenticated, answer_pending, logged_in, user_named, set_master_key,
}
use redbox.Accounts.Credentials.{validate}
use redbox.Accounts.Rows.{user_of_id}
use redbox.Accounts.Sessions.{assert_user_can_login-HasActive}

module _ (sv : Services) (crypto : Crypto) (jwt : Jwt) where
  -- The tokens carry a payload that `validate` accepts for the row of this user.
  pub record Granted (tokens : Tokens) (row : User) (w : World sv) : Type 0 where
    pub payload : Payload
    pub signed : tokens ≡ record {
      access_token = jwt.sign_access payload;
      refresh_token = jwt.sign_refresh payload;
    }
    pub accepted : validate sv payload w ≡ (ok row, w)

  pub granted :
      (u : User) (w : World sv)
      → user_of sv u.id w ≡ some u
      → u.status ≡ active
      → Granted (get_tokens jwt u.id u.username u.session_key) u w
  unfolding get_tokens validate
  granted u w e s = record {
    payload = record { sub = u.id; username = u.username; session_key = u.session_key };
    signed = refl;
    accepted = ground (arith, e, s, ===_refl u.session_key);
  }

  -- Besides, Redis holds the master key that the password opens.
  pub record LoggedIn (password : String) (tokens : Tokens) (w : World sv) : Type 0 where
    pub row : User
    pub master_key : String
    pub grant : Granted tokens row w
    pub opened : decrypt_master_key crypto password row ≡ some master_key
    pub cached : sv.texts.get w.master_keys (master_key_key row.id) ≡ some master_key

  answered :
      (password : String) (a : User) (mk : String) (w : World sv)
      → user_of sv a.id w ≡ some a
      → a.status ≡ active
      → decrypt_master_key crypto password a ≡ some mk
      → LoggedIn password
          (get_tokens jwt a.id a.username a.session_key)
          (set_master_key sv crypto jwt a.id mk w)
  answered password a mk w e s d = record {
    row = a;
    master_key = mk;
    grant = granted a (set_master_key sv crypto jwt a.id mk w) e s;
    opened = d;
    cached =
        let key = master_key_key a.id in
        rw (sv.texts.get-set w.master_keys key mk 86400 key, ===_refl key);
  }

  module _ (user_id password : String) (now : ℕ) (uuid : String) (tokens : Tokens)
      (w : World sv) where
    login_authenticated-LoggedIn :
        (login_authenticated sv crypto jwt user_id password now uuid w).0 ≡ ok (logged_in tokens)
        → LoggedIn password tokens (login_authenticated sv crypto jwt user_id password now uuid w).1
    unfolding login_authenticated
    login_authenticated-LoggedIn h = elim (Option-cases (user_of sv user_id w)) [
      | inl e ↦ absurd (ground (arith, e))
      | inr (c, e) ↦ elim (Result-cases (assert_user_can_login sv c now uuid w).0) [
        | inr (x, a) ↦ absurd (ground (arith, e, a))
        | inl (t, a) ↦
            let r = assert_user_can_login-HasActive sv user_id c now uuid w e a in
            let w1 = (assert_user_can_login sv c now uuid w).1 in
            elim (Option-cases (decrypt_master_key crypto password r.row)) [
              | inl d ↦ absurd (ground (arith, e, a, r.found, d))
              | inr (mk, d) ↦
                  let i = user_of_id sv user_id r.row w1 r.found in
                  let at_end =
                    answered password r.row mk w1
                      (subst (λ j. user_of sv j w1 ≡ some r.row) (sym i) r.found) r.status d in
                  let final = (login_authenticated sv crypto jwt user_id password now uuid w).1 in
                  subst (λ ts. LoggedIn password ts final) (ground (arith, e, a, r.found, d))
                    (subst (LoggedIn password _) (sym (ground (arith, e, a, r.found, d))) at_end)
            ]
      ]
    ]

  module _ (username password : String) (now : ℕ) (uuid : String) (tokens : Tokens)
      (w : World sv) where
    -- When login hands out tokens, JwtStrategy.validate accepts their payload at once for the row
    -- of the user, and Redis holds the master key that the password decrypts from that row.
    pub login-LoggedIn :
        (login sv crypto jwt username password now uuid w).0 ≡ ok (logged_in tokens)
        → LoggedIn password tokens (login sv crypto jwt username password now uuid w).1
    unfolding login answer_pending
    login-LoggedIn h = elim (Option-cases (user_named sv crypto jwt username w)) [
      | inl e ↦ absurd (ground (arith, e))
      | inr (u, e) ↦ elim (Bool-cases (sv.bcrypt_compare password u.password)) [
        | inr b ↦ absurd (ground (arith, e, b))
        | inl b ↦ elim (Result-cases (prepare_pending_deletion_login sv u.id now uuid w).0) [
          | inr (x, p) ↦ absurd (ground (arith, e, b, p))
          | inl (r, p) ↦ elim (Option-cases r) [
            | inr (q, n) ↦ absurd (ground (arith, e, b, p, n))
            | inl n ↦
                let w1 = (prepare_pending_deletion_login sv u.id now uuid w).1 in
                subst (LoggedIn password tokens) (sym (ground (arith, e, b, p, n))) (
                  login_authenticated-LoggedIn u.id password now uuid tokens w1
                    (ground (arith, e, b, p, n)))
          ]
        ]
      ]
    ]
