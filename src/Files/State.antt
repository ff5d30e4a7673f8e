-- ===== src/Files/State.antt =====
-- The services that files.service.ts works with, the state that it reads and writes, and the
-- records that it keeps in Redis and in the database.
--
-- Redis keys of different families differ in their prefix (`upload:meta:`, `upload:s3:`,
-- `upload:init-lock:`, `masterkey:`, `upload:active:`), so each family is a component of the
-- state. Redis and database calls do not fail; storage calls may.
use redbox.Prelude.{
  ℕ, String, ◌≡◌, Bool, List, Option, some, Exec, ok, err, template, ◌∷◌, [], Result,
}
use redbox.Redis.{Texts, Sets, Counters}
use redbox.Database.{Table}
use redbox.Storage.{Storage, Part}
use redbox.Dates.{DateFns}

-- JSON.stringify and JSON.parse for the values of one type, where `Json` is the type of JSON
-- texts; `none` is a syntax error.
pub record Codec (A Json : Type 0) : Type 0 where
  pub stringify : A → Json
  pub parse : Json → Option A
  pub parse-stringify : (a : A) → parse (stringify a) ≡ some a

pub record UploadMeta : Type 0 where
  pub total_chunks : ℕ
  pub next_expected_chunk : ℕ
  pub file_size : ℕ
  pub password_hash : Option String
  pub expires_in : String
  pub storage_key : String
  pub s3_upload_id : Option String
  pub parts : List Part
  pub created_at : Option ℕ
  pub updated_at : Option ℕ

pub record UploadStorageIndex : Type 0 where
  pub meta_key : String
  pub active_key : String
  pub upload_id : String

-- A row of the table File, and what is read of a row of User.
pub record File : Type 0 where
  pub id : String
  pub share_token : String
  pub original_name : String
  pub storage_name : String
  pub size : ℕ
  pub mimetype : String
  pub user_id : String
  pub password_hash : Option String
  pub expires_at : ℕ
  pub encrypted_file_key : String
  pub file_key_iv : String

pub record User : Type 0 where
  pub id : String
  pub username : String

pub record Services : Type 1 where
  pub Json : Type 0
  pub texts : Texts String
  pub documents : Texts Json
  pub sets : Sets
  pub counters : Counters
  pub storage : Storage
  pub files : Table File
  pub users : Table User
  pub metas : Codec UploadMeta Json
  pub indexes : Codec UploadStorageIndex Json
  pub dates : DateFns
  -- getAdminForwardUsername()
  pub admin_username : Option String
  -- bcrypt.hash and bcrypt.compare
  pub bcrypt_hash : String → String
  pub bcrypt_compare : String → String → Bool
  -- AES-256-CBC under a master key and an initialisation vector
  pub encrypt : String → String → String → String
  -- the SHA-256 prefix of rate-limit.service.ts
  pub hash : String → String

pub record World (sv : Services) : Type 0 where
  pub metas : sv.documents.State
  pub indexes : sv.documents.State
  pub locks : sv.texts.State
  pub master_keys : sv.texts.State
  pub active : sv.sets.State
  pub counters : sv.counters.State
  pub storage : sv.storage.State
  pub files : sv.files.State
  pub users : sv.users.State

unfoldable pub get_active_upload_key : String → String
get_active_upload_key user_id = template ("upload:active:" ∷ user_id ∷ [])

unfoldable pub get_upload_meta_key : String → String → String
get_upload_meta_key user_id upload_id = template ("upload:meta:" ∷ user_id ∷ ":" ∷ upload_id ∷ [])

unfoldable pub get_upload_storage_index_key : String → String
get_upload_storage_index_key s3_upload_id = template ("upload:s3:" ∷ s3_upload_id ∷ [])

unfoldable pub init_lock_key : String → String
init_lock_key user_id = template ("upload:init-lock:" ∷ user_id ∷ [])

unfoldable pub master_key_key : String → String
master_key_key user_id = template ("masterkey:" ∷ user_id ∷ [])

-- `prisma.$transaction`: what the callback wrote is undone when it throws.
abbrev pub roll_back {ℓ} : {S A : Type ℓ} → S → Result A × S → Result A × S
roll_back before (ok a, after) = (ok a, after)
roll_back before (err e, after) = (err e, before)

abbrev pub transaction {ℓ} : {S A : Type ℓ} → Exec S A → Exec S A
transaction callback s = roll_back s (callback s)
