-- ===== src/Accounts/Auth.antt =====
-- preValidate, login and register of auth/auth.service.ts.
use redbox.Prelude.{
  ℕ, String, Bool, false, not, ◌&&◌, Option, none, some, ◌===◌, if◌then◌else◌, prev, is_some,
  is_positive, Exec, unauthorized, conflict, fault, pure, throw, gets, modify, check, ◌>>=◌, ◌>>◌,
}
use redbox.Database.{find_first}
use redbox.Accounts.State.{
  active, User, DeletionRequest, InviteCode, Services, World, master_key_key,
}
use redbox.Accounts.Users.{user_of}
use redbox.Accounts.Lifecycle.{prepare_pending_deletion_login, assert_user_can_login}
use redbox.Accounts.Secrets.{
  Crypto, Jwt, Seeds, Tokens, generate_master_key_store, decrypt_master_key, hash_recovery_phrase,
  get_tokens, get_reactivation_token,
}

-- The two answers of `login`.
pub data LoginAnswer : Type 0 where
  logged_in : Tokens → LoginAnswer
  pending_deletion : (delete_after_at : ℕ) (reactivation_token : String) → LoginAnswer

pub record RegisterDto : Type 0 where
  pub username : String
  pub password : String
  pub invite_code : String
  pub recovery_phrase : String

-- What `register` draws: random bytes, the RSA key pair, the session key and the id of the row.
pub record RegisterDraws : Type 0 where
  pub id : String
  pub session_key : String
  pub raw_master_key : String
  pub seeds : Seeds
  pub recovery_seeds : Seeds
  pub public_key : String
  pub private_key : String
  pub private_key_iv : String

-- The column defaults of schema.prisma for a new row.
pub record Defaults : Type 0 where
  pub avatar : String

-- `Option` as an exception of another class.
abbrev pub or_fault : {S A : Type 0} → Option A → Exec S A
or_fault none = throw fault
or_fault (some a) = pure a

module _ (sv : Services) (crypto : Crypto) (jwt : Jwt) where
  abbrev pub user_named : String → World sv → Option User
  user_named username w = find_first sv.users w.users (λ u. sv.same_text u.username username)

  abbrev pub set_master_key : String → String → World sv → World sv
  set_master_key user_id key w = record w {
    master_keys = sv.texts.set w.master_keys (master_key_key user_id) key 86400;
  }

  abbrev pub is_usable : Option InviteCode → Bool
  is_usable none = false
  is_usable (some i) = i.is_valid && is_positive i.usage

  abbrev pub invite_with : String → World sv → Option InviteCode
  invite_with code w = find_first sv.invite_codes w.invite_codes (λ c. sv.same_text c.code code)

  unfoldable pub pre_validate : String → String → Exec (World sv) (Unit {0})
  pre_validate username invite_code = do
    invite ← gets (invite_with invite_code)
    check (is_usable invite) (unauthorized "Invalid or expired invite code")
    existing ← gets (user_named username)
    check (not (is_some existing)) (conflict "Username already taken")

  -- The rest of `login` once no deletion is pending.
  unfoldable pub login_authenticated : String → String → ℕ → String → Exec (World sv) LoginAnswer
  login_authenticated user_id password now uuid = do
    current ← gets (user_of sv user_id)
    elim current [
      | none ↦ throw (unauthorized "Invalid username or password")
      | some c ↦ do
        assert_user_can_login sv c now uuid
        authenticated ← gets (user_of sv user_id)
        elim authenticated [
          | none ↦ throw (unauthorized "Invalid username or password")
          | some a ↦ do
            master_key ← or_fault (decrypt_master_key crypto password a)
            modify (set_master_key a.id master_key)
            pure (logged_in (get_tokens jwt a.id a.username a.session_key))
        ]
    ]

  unfoldable pub answer_pending :
      User → String → ℕ → String → Option DeletionRequest → Exec (World sv) LoginAnswer
  answer_pending u password now uuid none = login_authenticated u.id password now uuid
  answer_pending u password now uuid (some request) = pure (
      pending_deletion request.delete_after_at
        (get_reactivation_token jwt u.id u.username u.session_key request.id))

  unfoldable pub login : String → String → ℕ → String → Exec (World sv) LoginAnswer
  login username password now uuid = do
    found ← gets (user_named username)
    elim found [
      | none ↦ throw (unauthorized "Invalid username or password")
      | some u ↦
          if not (sv.bcrypt_compare password u.password)
          then throw (unauthorized "Invalid username or password")
          else prepare_pending_deletion_login sv u.id now uuid
            >>= answer_pending u password now uuid
    ]

  abbrev pub new_user : RegisterDto → RegisterDraws → Defaults → User
  new_user dto draws defaults =
      let mk = generate_master_key_store crypto dto.password draws.raw_master_key draws.seeds in
      let recovery =
        generate_master_key_store crypto dto.recovery_phrase draws.raw_master_key
          draws.recovery_seeds in
      record {
        id = draws.id;
        username = dto.username;
        password = sv.bcrypt_hash dto.password;
        avatar = defaults.avatar;
        status = active;
        session_key = draws.session_key;
        issued_codes = 0;
        encrypted_master_key = mk.encrypted;
        master_key_iv = mk.iv;
        master_key_salt = mk.salt;
        recovery_phrase_hash = hash_recovery_phrase crypto sv.bcrypt_hash dto.recovery_phrase;
        recovery_encrypted_master_key = recovery.encrypted;
        recovery_master_key_iv = recovery.iv;
        recovery_master_key_salt = recovery.salt;
        public_key = draws.public_key;
        encrypted_private_key =
            crypto.encrypt draws.raw_master_key draws.private_key_iv draws.private_key;
        private_key_iv = draws.private_key_iv;
      }

  abbrev pub create_user : User → String → World sv → World sv
  create_user u invite_id w = record w {
    users = sv.users.create w.users u;
    invite_codes =
        sv.invite_codes.update_many w.invite_codes (λ c. c.id === invite_id)
          (λ c. record c { usage = prev c.usage });
  }

  -- The unique index on `username` is what makes the transaction fail with P2002.
  unfoldable pub register_with :
      RegisterDto → RegisterDraws → Defaults → Option InviteCode → Exec (World sv) Tokens
  register_with dto draws defaults none = throw (unauthorized "Invalid or expired invite code")
  register_with dto draws defaults (some invite) =
      if not (is_usable (some invite))
      then throw (unauthorized "Invalid or expired invite code")
      else (do
        taken ← gets (user_named dto.username)
        check (not (is_some taken)) (conflict "Username already taken")
        modify (create_user (new_user dto draws defaults) invite.id)
        modify (set_master_key draws.id draws.raw_master_key)
        pure (get_tokens jwt draws.id dto.username draws.session_key))

  unfoldable pub register : RegisterDto → RegisterDraws → Defaults → Exec (World sv) Tokens
  register dto draws defaults =
      gets (invite_with dto.invite_code) >>= register_with dto draws defaults
