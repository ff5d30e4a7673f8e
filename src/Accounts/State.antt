-- ===== src/Accounts/State.antt =====
-- The rows that the account services read and write, the services they work with, and their
-- state. Of a row only the columns that the services use are kept. Redis and database calls do
-- not fail; a failed deletion of a storage object is logged and ignored by the source.
use redbox.Prelude.{
  contains, ℕ, String, ◌≡◌, Bool, true, false, List, [], ◌∷◌, Option, none, some, ltb,
  if◌then◌else◌, ℤ, template,
}
use redbox.Redis.{Texts, Sets}
use redbox.Database.{Table}
use redbox.Storage.{Storage}
use redbox.Dates.{DateFns}

-- The enums of schema.prisma.
pub data UserStatus : Type 0 where
  active banned locked pending deleted : UserStatus

pub data RestrictionType : Type 0 where
  lock ban : RestrictionType

pub data ActorType : Type 0 where
  admin user system : ActorType

abbrev pub status_eq : UserStatus → UserStatus → Bool
status_eq active active = true
status_eq banned banned = true
status_eq locked locked = true
status_eq pending pending = true
status_eq deleted deleted = true
status_eq _ _ = false

abbrev pub type_eq : RestrictionType → RestrictionType → Bool
type_eq lock lock = true
type_eq ban ban = true
type_eq _ _ = false

pub record User : Type 0 where
  pub id : String
  pub username : String
  pub password : String
  pub avatar : String
  pub status : UserStatus
  pub session_key : String
  pub issued_codes : ℕ
  pub encrypted_master_key : String
  pub master_key_iv : String
  pub master_key_salt : String
  pub recovery_phrase_hash : String
  pub recovery_encrypted_master_key : String
  pub recovery_master_key_iv : String
  pub recovery_master_key_salt : String
  pub public_key : String
  pub encrypted_private_key : String
  pub private_key_iv : String

pub record DeletionRequest : Type 0 where
  pub id : String
  pub user_id : String
  pub requested_at : ℕ
  pub delete_after_at : ℕ
  pub cancelled_at : Option ℕ
  pub processed_at : Option ℕ

pub record Restriction : Type 0 where
  pub id : String
  pub user_id : String
  pub kind : RestrictionType
  pub reason : String
  pub is_permanent : Bool
  pub expires_at : Option ℕ
  pub created_at : ℕ
  pub resolved_at : Option ℕ

pub record InviteCode : Type 0 where
  pub id : String
  pub code : String
  pub usage : ℤ
  pub is_valid : Bool
  pub user_id : Option String

pub record AuditLog : Type 0 where
  pub actor_type : ActorType
  pub admin_user_id : Option String
  pub target_user_id : String
  pub action : String
  pub previous_status : Option UserStatus
  pub new_status : Option UserStatus
  pub reason : Option String

-- Rows of Link, Bin and BlockedSender, of File, and of Mail with its attachments; what JSON.parse
-- of an upload's metadata has of the admin service's UploadMeta.
pub record OwnedRow : Type 0 where
  pub id : String
  pub user_id : String

pub record FileRow : Type 0 where
  pub id : String
  pub user_id : String
  pub storage_name : String

pub record MailRow : Type 0 where
  pub user_id : String
  pub storage_key : String
  pub attachment_keys : List String

pub record UploadRef : Type 0 where
  pub storage_key : Option String
  pub s3_upload_id : Option String

pub record Services : Type 1 where
  pub Json : Type 0
  pub documents : Texts Json
  pub sets : Sets
  -- JSON.parse of an upload's metadata, `none` where it throws.
  pub parse_ref : Json → Option UploadRef
  -- The keys with a prefix that a full SCAN returns: at least those that have a value.
  pub scan : documents.State → String → List String
  pub scan_complete :
      (s : documents.State) (prefix rest : String) (v : Json)
      → documents.get s (template (prefix ∷ rest ∷ [])) ≡ some v
      → contains (template (prefix ∷ rest ∷ [])) (scan s prefix) ≡ true
  pub texts : Texts String
  pub users : Table User
  pub deletion_requests : Table DeletionRequest
  pub restrictions : Table Restriction
  pub invite_codes : Table InviteCode
  pub audit_logs : Table AuditLog
  pub owned : Table OwnedRow
  pub files : Table FileRow
  pub mails : Table MailRow
  pub storage : Storage
  pub dates : DateFns
  -- Equality of names and codes in a query: under the database's collation, which ignores case.
  pub same_text : String → String → Bool
  -- bcrypt.hash and bcrypt.compare
  pub bcrypt_hash : String → String
  pub bcrypt_compare : String → String → Bool

pub record World (sv : Services) : Type 0 where
  pub master_keys : sv.texts.State
  pub upload_metas : sv.documents.State
  pub active_uploads : sv.sets.State
  pub users : sv.users.State
  pub deletion_requests : sv.deletion_requests.State
  pub restrictions : sv.restrictions.State
  pub invite_codes : sv.invite_codes.State
  pub audit_logs : sv.audit_logs.State
  pub links : sv.owned.State
  pub bins : sv.owned.State
  pub blocked_senders : sv.owned.State
  pub files : sv.files.State
  pub mails : sv.mails.State
  pub file_storage : sv.storage.State
  pub mail_storage : sv.storage.State

unfoldable pub master_key_key : String → String
master_key_key user_id = template ("masterkey:" ∷ user_id ∷ [])

-- The row with the largest key: `findFirst` in descending order. Of equal keys the first.
module _ {A : Type 0} (key : A → ℕ) where
  abbrev pub later : A → Option A → Option A
  later a none = some a
  later a (some b) = if ltb (key a) (key b) then some b else some a

  abbrev pub latest : List A → Option A
  latest [] = none
  latest (x ∷ xs) = later x (latest xs)
