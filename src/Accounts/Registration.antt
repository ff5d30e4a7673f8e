-- ===== src/Accounts/Registration.antt =====
-- Registration, and the invite codes that users generate.
use mathlib.Core.Option
use redbox.Prelude.{
  find-snoc, ℕ, zero, suc, ◌+◌, ◌-◌, ◌≤◌, ◌<◌, min, String, ◌≡◌, refl, ap, ◌∙◌, true, none, some,
  arith, ok, err, bad_request, Option-cases, Bool-cases, inl, inr, [], ◌∷◌, ◌++◌, ===_refl, leb,
  ◌===◌, subst, find, sym, Result,
}
use redbox.Accounts.State.{User, InviteCode, Services, World, active, master_key_key}
use redbox.Accounts.Users.{user_of}
use redbox.Accounts.Lifecycle.{Drawn, generate_invite_code, create_invite}
use redbox.Accounts.Secrets.{
  Crypto, Jwt, Tokens, get_tokens, decrypt_master_key, decrypt_recovery_key,
  generate_master_key_store,
}
use redbox.Accounts.Auth.{
  RegisterDto, RegisterDraws, Defaults, register, register_with, new_user, create_user, user_named,
  is_usable, invite_with, set_master_key,
}
use redbox.Accounts.Rows.{user_of-update_user}
use redbox.Accounts.Tokens.{Granted, granted}

module _ (sv : Services) where
  abbrev count_ok : Result (Unit {0}) → ℕ
  count_ok (ok t) = 1
  count_ok (err e) = 0

  -- How many of `n` calls of `generateInviteCode` in a row succeed.
  unfoldable pub generated : ℕ → String → (ℕ → Drawn) → World sv → ℕ
  generated zero user_id drawn w = 0
  generated (suc n) user_id drawn w =
      let (r, w') = generate_invite_code sv user_id (drawn n) w in
      count_ok r + generated n user_id drawn w'

  module _ (user_id : String) where
    abbrev one_more : User → User
    one_more u = record u { issued_codes = u.issued_codes + 1 }

    accepted :
        (drawn : Drawn) (u : User) (w : World sv)
        → user_of sv user_id w ≡ some u
        → u.status ≡ active
        → u.issued_codes < 2
        → generate_invite_code sv user_id drawn w ≡ (ok tt, create_invite sv user_id drawn w)
    unfolding generate_invite_code
    accepted drawn u w e s l = ground (arith, e, s)

    refused :
        (drawn : Drawn) (u : User) (w : World sv)
        → user_of sv user_id w ≡ some u
        → u.status ≡ active
        → 2 ≤ u.issued_codes
        → generate_invite_code sv user_id drawn w ≡ (err (bad_request "Invite-Limit reached"), w)
    unfolding generate_invite_code
    refused drawn u w e s l = ground (arith, e, s)

    -- For an active user, exactly the smaller of n and what is left of two invite codes of n calls
    -- in a row succeed.
    pub generated-min :
        (n : ℕ) (drawn : ℕ → Drawn) (u : User) (w : World sv)
        → user_of sv user_id w ≡ some u
        → u.status ≡ active
        → generated n user_id drawn w ≡ min n (2 - u.issued_codes)
    unfolding generated
    generated-min zero drawn u w e s = ground arith
    generated-min (suc n) drawn u w e s = elim (Bool-cases (leb 2 u.issued_codes)) [
      | inl l ↦
          ground
            (arith, l, refused (drawn n) u w e s (ground (arith, l)), generated-min n drawn u w e s)
      | inr l ↦
          let v = one_more u in
          let w' = create_invite sv user_id (drawn n) w in
          let f : user_of sv user_id w' ≡ some v =
            user_of-update_user sv user_id one_more (λ x. refl) w ∙ ap (Option.map one_more) e in
          ground (
            arith,
            l,
            accepted (drawn n) u w e s (ground (arith, l)),
            generated-min n drawn v w' f s,
          )
    ]

module _ (sv : Services) (crypto : Crypto) (jwt : Jwt) (dto : RegisterDto) (draws : RegisterDraws)
    (defaults : Defaults) where
  -- What a registration that returns tokens has done.
  pub record Registered (tokens : Tokens) (w w' : World sv) : Type 0 where
    pub row : User
    pub invite : InviteCode
    pub usable : invite_with sv crypto jwt dto.invite_code w ≡ some invite
    pub counted : is_usable sv crypto jwt (some invite) ≡ true
    pub fresh : user_named sv crypto jwt dto.username w ≡ none
    pub rows : sv.users.rows w'.users ≡ sv.users.rows w.users ++ row ∷ []
    pub grant : Granted sv crypto jwt tokens row w'
    pub opened : decrypt_master_key crypto dto.password row ≡ some draws.raw_master_key
    pub recoverable :
        decrypt_recovery_key crypto dto.recovery_phrase row ≡ some draws.raw_master_key
    pub cached : sv.texts.get w'.master_keys (master_key_key row.id) ≡ some draws.raw_master_key

  abbrev row_of : User
  row_of = new_user sv crypto jwt dto draws defaults

  row_opens : decrypt_master_key crypto dto.password row_of ≡ some draws.raw_master_key
  unfolding decrypt_master_key generate_master_key_store
  row_opens =
      crypto.decrypt-encrypt (crypto.scrypt dto.password draws.seeds.salt) draws.seeds.iv
        draws.raw_master_key

  row_recovers : decrypt_recovery_key crypto dto.recovery_phrase row_of ≡ some draws.raw_master_key
  unfolding decrypt_recovery_key generate_master_key_store
  row_recovers =
      crypto.decrypt-encrypt (crypto.scrypt dto.recovery_phrase draws.recovery_seeds.salt)
        draws.recovery_seeds.iv draws.raw_master_key

  abbrev registered : String → World sv → World sv
  registered invite_id w =
      set_master_key sv crypto jwt draws.id draws.raw_master_key
        (create_user sv crypto jwt row_of invite_id w)

  registration :
      (invite : InviteCode) (w : World sv)
      → user_of sv draws.id w ≡ none
      → invite_with sv crypto jwt dto.invite_code w ≡ some invite
      → is_usable sv crypto jwt (some invite) ≡ true
      → user_named sv crypto jwt dto.username w ≡ none
      → Registered
          (get_tokens jwt draws.id dto.username draws.session_key)
          w
          (registered invite.id w)
  registration invite w new i c f =
      let key = master_key_key draws.id in
      let rows = sv.users.rows-create w.users row_of in
      record {
        row = row_of;
        invite = invite;
        usable = i;
        counted = c;
        fresh = f;
        rows = rows;
        grant =
            granted sv crypto jwt row_of (registered invite.id w)
              (ap (find (λ u. u.id === draws.id)) rows
                ∙ find-snoc (λ u. u.id === draws.id) (sv.users.rows w.users) row_of new
                    (===_refl draws.id))
              refl;
        opened = row_opens;
        recoverable = row_recovers;
        cached =
            rw (sv.texts.get-set w.master_keys key draws.raw_master_key 86400 key, ===_refl key);
      }

  module _ (tokens : Tokens) (w : World sv) where
    -- When register returns tokens and the drawn id is new, the invite code was usable and the name
    -- free, the table has gained one row at its end, the tokens open that row, the password and the
    -- recovery phrase each decrypt the drawn master key from it, and Redis holds that key.
    pub register-Registered :
        user_of sv draws.id w ≡ none
        → (register sv crypto jwt dto draws defaults w).0 ≡ ok tokens
        → Registered tokens w (register sv crypto jwt dto draws defaults w).1
    unfolding register register_with
    register-Registered new h = elim (Option-cases (invite_with sv crypto jwt dto.invite_code w)) [
      | inl i ↦ absurd (ground (arith, i))
      | inr (v, i) ↦ elim (Bool-cases (is_usable sv crypto jwt (some v))) [
        | inr c ↦ absurd (ground (arith, i, c))
        | inl c ↦ elim (Option-cases (user_named sv crypto jwt dto.username w)) [
          | inr (u, f) ↦ absurd (ground (arith, i, c, f))
          | inl f ↦
              let at_end = registration v w new i c f in
              let final = (register sv crypto jwt dto draws defaults w).1 in
              subst (λ t. Registered t w final) (ground (arith, i, c, f))
                (subst (Registered _ w) (sym (ground (arith, i, c, f))) at_end)
        ]
      ]
    ]
