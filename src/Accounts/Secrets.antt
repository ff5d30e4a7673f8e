-- ===== src/Accounts/Secrets.antt =====
-- What auth.service.ts uses of crypto, bcryptjs and JwtService, and its methods on the master key.
-- Bytes and their hexadecimal texts are not told apart.
use redbox.Prelude.{String, ◌≡◌, Option, some}
use redbox.Accounts.State.{User}

-- scrypt, the AES-256-CBC cipher under a key and an initialisation vector, and SHA-256. A decipher
-- that meets bad padding throws: `none`.
pub record Crypto : Type 0 where
  pub scrypt : String → String → String
  pub encrypt : String → String → String → String
  pub decrypt : String → String → String → Option String
  pub sha256 : String → String
  pub decrypt-encrypt : (key iv text : String) → decrypt key iv (encrypt key iv text) ≡ some text

pub record Payload : Type 0 where
  pub sub : String
  pub username : String
  pub session_key : String

pub record ReactivationPayload : Type 0 where
  pub sub : String
  pub username : String
  pub session_key : String
  pub deletion_request_id : String
  pub purpose : String

-- `signAsync` with the three secrets, and `verifyAsync` of a reactivation token.
pub record Jwt : Type 0 where
  pub sign_access : Payload → String
  pub sign_refresh : Payload → String
  pub sign_reactivation : ReactivationPayload → String
  pub verify_reactivation : String → Option ReactivationPayload

pub record MasterKeyStore : Type 0 where
  pub encrypted : String
  pub iv : String
  pub salt : String

-- The `randomBytes` of a master key store.
pub record Seeds : Type 0 where
  pub iv : String
  pub salt : String

pub record Tokens : Type 0 where
  pub access_token : String
  pub refresh_token : String

module _ (crypto : Crypto) where
  -- `generateMasterKeyStore`, and `reEncryptMasterKey` with the same body.
  unfoldable pub generate_master_key_store : String → String → Seeds → MasterKeyStore
  generate_master_key_store secret raw_master_key seeds = record {
    encrypted = crypto.encrypt (crypto.scrypt secret seeds.salt) seeds.iv raw_master_key;
    iv = seeds.iv;
    salt = seeds.salt;
  }

  unfoldable pub re_encrypt_master_key : String → String → Seeds → MasterKeyStore
  re_encrypt_master_key raw_master_key new_password seeds = record {
    encrypted = crypto.encrypt (crypto.scrypt new_password seeds.salt) seeds.iv raw_master_key;
    iv = seeds.iv;
    salt = seeds.salt;
  }

  unfoldable pub decrypt_master_key : String → User → Option String
  decrypt_master_key password u =
      crypto.decrypt (crypto.scrypt password u.master_key_salt) u.master_key_iv
        u.encrypted_master_key

  -- The decryption in `recoverPassword`.
  unfoldable pub decrypt_recovery_key : String → User → Option String
  decrypt_recovery_key phrase u =
      crypto.decrypt (crypto.scrypt phrase u.recovery_master_key_salt) u.recovery_master_key_iv
        u.recovery_encrypted_master_key

  unfoldable pub hash_recovery_phrase : (String → String) → String → String
  hash_recovery_phrase bcrypt_hash phrase = bcrypt_hash (crypto.sha256 phrase)

  unfoldable pub compare_recovery_phrase {ℓ} :
      {B : Type ℓ} → (String → String → B) → String → String → B
  compare_recovery_phrase bcrypt_compare phrase hash = bcrypt_compare (crypto.sha256 phrase) hash

unfoldable pub get_tokens : Jwt → String → String → String → Tokens
get_tokens jwt user_id username session_key =
    let payload : Payload = record {
      sub = user_id;
      username = username;
      session_key = session_key;
    } in
    record { access_token = jwt.sign_access payload; refresh_token = jwt.sign_refresh payload }

unfoldable pub get_reactivation_token : Jwt → String → String → String → String → String
get_reactivation_token jwt user_id username session_key deletion_request_id =
    jwt.sign_reactivation (record {
      sub = user_id;
      username = username;
      session_key = session_key;
      deletion_request_id = deletion_request_id;
      purpose = "account_reactivation";
    })
