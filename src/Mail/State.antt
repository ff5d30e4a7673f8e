-- ===== src/Mail/State.antt =====
-- The rows that mail.service.ts reads and writes, what it works with, and its state. Of a row only
-- the columns that the service uses are kept. Redis and database calls do not fail.
use Prim.Native.Char.{len_utf8}
use redbox.Prelude.{ℕ, ◌+◌, ◌*◌, String, Bool, List, [], ◌∷◌, ◌++◌, Option, none}
use redbox.Redis.{Texts}
use redbox.Database.{Table}
use redbox.Storage.Objects.{Objects}
use redbox.Accounts.State.{User}
use redbox.Accounts.Secrets.{Crypto}

pub record MailAttachment : Type 0 where
  pub id : String
  pub filename : String
  pub mimetype : String
  pub size : ℕ
  pub storage_key : String

-- A row of Mail with its attachments.
pub record Mail : Type 0 where
  pub id : String
  pub user_id : String
  pub sender : String
  pub recipient : String
  pub subject : String
  pub storage_key : String
  pub content_size : ℕ
  pub encrypted_mail_key : String
  pub mail_key_iv : String
  pub created_at : ℕ
  pub is_read : Bool
  pub is_archived : Bool
  pub is_spam : Bool
  pub attachments : List MailAttachment

-- Rows of InternalMail with its attachments, and of InternalMailDelivery.
pub record InternalMailAttachment : Type 0 where
  pub id : String
  pub name : String
  pub size : ℕ
  pub mimetype : String
  pub storage_key : Option String

pub record InternalMail : Type 0 where
  pub id : String
  pub to_one_user : Bool
  pub attachments : List InternalMailAttachment

pub record InternalMailDelivery : Type 0 where
  pub internal_mail_id : String
  pub user_id : String
  pub mail_id : Option String
  pub recalled_at : Option ℕ

pub record BlockedSender : Type 0 where
  pub user_id : String
  pub email : String

-- MailPushEvent, with the user that it is for.
pub record MailEvent : Type 0 where
  pub user_id : String
  pub kind : String
  pub mail_ids : List String
  pub source : String
  pub folder : Option String
  pub is_read : Option Bool
  pub count : Option ℕ
  pub reason : Option String

-- publicEncrypt and privateDecrypt of crypto, `none` where they throw.
pub record Rsa : Type 0 where
  pub public_encrypt : String → String → Option String
  pub private_decrypt : String → String → Option String

pub record Services : Type 1 where
  pub texts : Texts String
  pub users : Table User
  pub mails : Table Mail
  pub internal_mails : Table InternalMail
  pub deliveries : Table InternalMailDelivery
  pub blocked_senders : Table BlockedSender
  -- Equality of names and `contains` in a query: under the database's collation, which ignores
  -- case.
  pub same_text : String → String → Bool
  pub like : String → String → Bool
  pub objects : Objects
  pub crypto : Crypto
  pub rsa : Rsa

-- `events` are those that emitToUser publishes, in order.
pub record World (sv : Services) : Type 0 where
  pub master_keys : sv.texts.State
  pub users : sv.users.State
  pub mails : sv.mails.State
  pub internal_mails : sv.internal_mails.State
  pub deliveries : sv.deliveries.State
  pub blocked_senders : sv.blocked_senders.State
  pub objects : sv.objects.State
  pub events : List MailEvent

-- DEFAULT_MAIL_QUOTA_BYTES and ADMIN_FORWARD_MAIL_QUOTA_BYTES
abbrev pub default_mail_quota_bytes : ℕ
default_mail_quota_bytes = 500 * 1024 * 1024

abbrev pub admin_forward_mail_quota_bytes : ℕ
admin_forward_mail_quota_bytes = 50 * 1024 * 1024 * 1024

-- `Buffer.byteLength(s, 'utf8')`
unfoldable pub byte_length : String → ℕ
byte_length String.[] = 0
byte_length (String.◌∷◌ c s) = len_utf8 c + byte_length s

-- An event of a kind for a mail, without the other fields.
abbrev pub mail_event : String → String → List String → String → MailEvent
mail_event user_id kind mail_ids source = record {
  user_id = user_id;
  kind = kind;
  mail_ids = mail_ids;
  source = source;
  folder = none;
  is_read = none;
  count = none;
  reason = none;
}

module _ (sv : Services) where
  unfoldable pub emit_to_user : MailEvent → World sv → World sv
  emit_to_user event w = record w { events = w.events ++ event ∷ [] }

  -- `mail.update` and `mail.updateMany`
  abbrev pub update_mails : (Mail → Bool) → (Mail → Mail) → World sv → World sv
  update_mails p f w = record w { mails = sv.mails.update_many w.mails p f }
