-- ===== src/Tests/Sessions.antt =====
-- Sessions and passwords of a user in memory.
use redbox.Prelude.{
  ℕ, String, ◌≡◌, refl, ◌≢◌, eq_iff, true, false, [], ◌∷◌, none, some, arith, ok, err, forbidden,
  unauthorized, ◌===◌, pos,
}
use redbox.Redis.Scan.{listed_texts, scan, contains-scan}
use redbox.Redis.Memory.{memory_sets, memory_texts}
use redbox.Storage.Memory.{memory_storage}
use redbox.Database.Memory.{memory_table}
use redbox.Dates.{utc}
use redbox.Accounts.State.{
  active, User, DeletionRequest, Restriction, InviteCode, AuditLog, OwnedRow, FileRow, MailRow,
  UploadRef, Services, World,
}
use redbox.Accounts.Lifecycle.{prepare_pending_deletion_login, assert_user_can_login, Drawn}
use redbox.Accounts.Secrets.{
  Crypto, Jwt, Payload, Seeds, Tokens, get_tokens, decrypt_master_key, decrypt_recovery_key,
  compare_recovery_phrase,
}
use redbox.Accounts.Auth.{
  login, login_authenticated, answer_pending, logged_in, RegisterDto, RegisterDraws, Defaults,
  register, register_with,
}
use redbox.Accounts.Credentials.{refresh_token, logout, change_password, recover_password, validate}
use redbox.Accounts.Tokens.{LoggedIn, login-LoggedIn, Granted}
use redbox.Accounts.Rotation.{refresh_token-Granted, refresh_token_once}
use redbox.Accounts.Revocation.{
  logout-validate, Rekeyed, change_password-Rekeyed, change_password-validate,
}
use redbox.Accounts.Recovery.{Recovered, recover_password-Recovered}
use redbox.Accounts.Registration.{generated, generated-min, Registered, register-Registered}

abbrev pub services : Services
services = record {
  Json = UploadRef;
  documents = listed_texts UploadRef;
  sets = memory_sets;
  parse_ref = some;
  scan = scan UploadRef;
  scan_complete = contains-scan UploadRef;
  texts = memory_texts String;
  users = memory_table User;
  deletion_requests = memory_table DeletionRequest;
  restrictions = memory_table Restriction;
  invite_codes = memory_table InviteCode;
  audit_logs = memory_table AuditLog;
  owned = memory_table OwnedRow;
  files = memory_table FileRow;
  mails = memory_table MailRow;
  storage = memory_storage;
  dates = utc;
  bcrypt_hash = λ s. s;
  same_text = λ a b. a === b;
  bcrypt_compare = λ a b. a === b;
}

abbrev pub crypto : Crypto
crypto = record {
  scrypt = λ secret salt. secret;
  encrypt = λ key iv text. text;
  decrypt = λ key iv text. some text;
  sha256 = λ s. s;
  decrypt-encrypt = λ key iv text. refl;
}

abbrev pub jwt : Jwt
jwt = record {
  sign_access = λ p. p.session_key;
  sign_refresh = λ p. p.session_key;
  sign_reactivation = λ p. p.sub;
  verify_reactivation = λ s. none;
}

abbrev pub alice : User
alice = record {
  id = "u";
  username = "alice";
  password = "pw";
  avatar = "a";
  status = active;
  session_key = "s0";
  issued_codes = 1;
  encrypted_master_key = "mk";
  master_key_iv = "";
  master_key_salt = "";
  recovery_phrase_hash = "words";
  recovery_encrypted_master_key = "mk";
  recovery_master_key_iv = "";
  recovery_master_key_salt = "";
  public_key = "";
  encrypted_private_key = "";
  private_key_iv = "";
}

abbrev pub start : World services
start = record {
  master_keys = λ k. none;
  upload_metas = record { names = []; value = λ k. none };
  active_uploads = λ k. [];
  users = alice ∷ [];
  deletion_requests = [];
  restrictions = [];
  invite_codes =
      record { id = "i"; code = "RB-1"; usage = pos 1; is_valid = true; user_id = none } ∷ [];
  audit_logs = [];
  links = [];
  bins = [];
  blocked_senders = [];
  files = [];
  mails = [];
  file_storage = record { opened = λ k. true; objects = λ k. false; content_length = 0 };
  mail_storage = record { opened = λ k. true; objects = λ k. false; content_length = 0 };
}

abbrev seeds : Seeds
seeds = record { iv = "iv"; salt = "salt" }

abbrev tokens_with : String → Tokens
tokens_with key = record { access_token = key; refresh_token = key }

other_key : ◌≢◌ {A = String} "s1" "s0"
other_key e = let f : false ≡ true = (eq_iff "s1" "s0").1 e in ground (arith, f)

login_ok :
    (login services crypto jwt "alice" "pw" 0 "x" start).0 ≡ ok (logged_in (tokens_with "s0"))
unfolding login prepare_pending_deletion_login answer_pending login_authenticated
    assert_user_can_login decrypt_master_key get_tokens
login_ok = refl

login-LoggedIn_example :
    LoggedIn services crypto jwt "pw"
      (tokens_with "s0")
      (login services crypto jwt "alice" "pw" 0 "x" start).1
login-LoggedIn_example =
    login-LoggedIn services crypto jwt "alice" "pw" 0 "x" (tokens_with "s0") start login_ok

refresh_ok : (refresh_token services crypto jwt "u" "s0" 0 "x" "s1" start).0 ≡ ok (tokens_with "s1")
unfolding refresh_token assert_user_can_login get_tokens
refresh_ok = refl

refresh_token-Granted_example :
    (row : User) × Granted services crypto jwt
      (tokens_with "s1")
      row
      (refresh_token services crypto jwt "u" "s0" 0 "x" "s1" start).1
refresh_token-Granted_example =
    refresh_token-Granted services crypto jwt "u" "s0" "s1" 0 "x" (tokens_with "s1") start
      refresh_ok

refresh_token_once_example :
    ((username : String)
      → (validate services
          (record { sub = "u"; username = username; session_key = "s0" })
          (refresh_token services crypto jwt "u" "s0" 0 "x" "s1" start).1).0
        ≡ err (unauthorized "Access Denied (Session Expired)"))
    × ((later : ℕ) (drawn2 uuid2 : String)
        → (refresh_token services crypto jwt "u" "s0" later drawn2 uuid2
            (refresh_token services crypto jwt "u" "s0" 0 "x" "s1" start).1).0
          ≡ err (forbidden "Access Denied (Session invalid)"))
refresh_token_once_example =
    refresh_token_once services crypto jwt "u" "s0" "s1" 0 "x" (tokens_with "s1") start other_key
      refresh_ok

abbrev pub session : Payload
session = record { sub = "u"; username = "alice"; session_key = "s0" }

logout-validate_example :
    (validate services session (logout services crypto jwt "u" "s1" start).1).0
    ≡ err (unauthorized "Access Denied (Session Expired)")
logout-validate_example = logout-validate services crypto jwt session "s1" start other_key

change_ok : (change_password services crypto jwt "u" "pw" "new" seeds "s1" start).0 ≡ ok tt
unfolding change_password decrypt_master_key
change_ok = refl

change_password-Rekeyed_example :
    Rekeyed services crypto jwt "u" "pw" "new" "s1" start
      (change_password services crypto jwt "u" "pw" "new" seeds "s1" start).1
change_password-Rekeyed_example =
    change_password-Rekeyed services crypto jwt "u" "pw" "new" seeds "s1" start change_ok

change_password-validate_example :
    (validate services session
      (change_password services crypto jwt "u" "pw" "new" seeds "s1" start).1).0
    ≡ err (unauthorized "Access Denied (Session Expired)")
change_password-validate_example =
    change_password-validate services crypto jwt session "pw" "new" seeds "s1" start other_key
      change_ok

recover_ok : (recover_password services crypto jwt "alice" "words" "new" seeds "s1" start).0 ≡ ok tt
unfolding recover_password decrypt_recovery_key compare_recovery_phrase
recover_ok = refl

recover_password-Recovered_example :
    Recovered services crypto jwt alice "words" "new" "s1"
      (recover_password services crypto jwt "alice" "words" "new" seeds "s1" start).1
recover_password-Recovered_example =
    recover_password-Recovered services crypto jwt alice "words" "new" seeds "s1" start refl refl
      recover_ok

abbrev draws : ℕ → Drawn
draws n = record { id = "d"; text = "00" }

generated-min_example : generated services 3 "u" draws start ≡ 1
generated-min_example = generated-min services "u" 3 draws alice start refl refl

abbrev dto : RegisterDto
dto = record {
  username = "bob";
  password = "pw2";
  invite_code = "RB-1";
  recovery_phrase = "words2";
}

abbrev register_draws : RegisterDraws
register_draws = record {
  id = "v";
  session_key = "s2";
  raw_master_key = "mk2";
  seeds = seeds;
  recovery_seeds = seeds;
  public_key = "";
  private_key = "";
  private_key_iv = "";
}

abbrev defaults : Defaults
defaults = record { avatar = "a" }

register_ok :
    (register services crypto jwt dto register_draws defaults start).0 ≡ ok (tokens_with "s2")
unfolding register register_with get_tokens
register_ok = refl

register-Registered_example :
    Registered services crypto jwt dto register_draws defaults
      (tokens_with "s2")
      start
      (register services crypto jwt dto register_draws defaults start).1
register-Registered_example =
    register-Registered services crypto jwt dto register_draws defaults (tokens_with "s2") start
      refl register_ok
