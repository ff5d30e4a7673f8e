-- ===== src/Mail/Reading.antt =====
-- Reading mails: getUserMailStorageUsed, getMailQuotaLimitForUsername, getUserMails,
-- getSingleMail and downloadAttachment.
use redbox.Prelude.{
  ℕ, ◌+◌, String, Bool, true, false, not, ◌&&◌, List, [], ◌∷◌, ◌++◌, map, Option, none, some, ◌===◌,
  if◌then◌else◌, find, is_some, Exec, Result, ok, err, not_found, unauthorized, fault, pure, throw,
  gets, modify, ◌>>=◌, ◌>>◌,
}
use redbox.Prelude.Text.{truthy}
use redbox.Database.{find_first, find_many}
use redbox.Accounts.State.{User, master_key_key}
use redbox.Mail.State.{
  MailAttachment, Mail, InternalMail, InternalMailAttachment, InternalMailDelivery, Services, World,
  mail_event, emit_to_user, update_mails, default_mail_quota_bytes, admin_forward_mail_quota_bytes,
}
use redbox.Mail.Aliases.{MailEnv, get_admin_forward_username}
use redbox.Mail.Mailbox.{mail_with, download_storage_object_by_key}

-- A sum over rows.
abbrev pub total {ℓ} : {A : Type ℓ} → (A → ℕ) → List A → ℕ
total f [] = 0
total f (x ∷ xs) = f x + total f xs

abbrev pub attachments_size : Mail → ℕ
attachments_size mail = total (λ a. a.size) mail.attachments

-- The attachments of an internal mail that have an object.
abbrev pub stored_attachments : List InternalMailAttachment → List InternalMailAttachment
stored_attachments [] = []
stored_attachments (a ∷ rest) =
    if is_some a.storage_key then a ∷ stored_attachments rest else stored_attachments rest

-- One attachment as a mail's answer lists it.
pub record AttachmentView : Type 0 where
  pub id : String
  pub filename : String
  pub mimetype : String
  pub size : ℕ
  pub is_shared_internal : Bool

abbrev pub view_of : MailAttachment → AttachmentView
view_of a = record {
  id = a.id;
  filename = a.filename;
  mimetype = a.mimetype;
  size = a.size;
  is_shared_internal = false;
}

abbrev pub shared_view_of : InternalMailAttachment → AttachmentView
shared_view_of a = record {
  id = a.id;
  filename = a.name;
  mimetype = a.mimetype;
  size = a.size;
  is_shared_internal = true;
}

-- `safeMailData` with the content and the attachments.
pub record MailView : Type 0 where
  pub id : String
  pub user_id : String
  pub sender : String
  pub recipient : String
  pub subject : String
  pub content_size : ℕ
  pub created_at : ℕ
  pub is_read : Bool
  pub is_archived : Bool
  pub is_spam : Bool
  pub content : String
  pub attachments : List AttachmentView

pub record Download : Type 0 where
  pub buffer : String
  pub filename : String
  pub mimetype : String
  pub size : ℕ

-- The username that the environment names, where it throws on a malformed one.
unfoldable pub get_mail_quota_limit_for_username : MailEnv → String → Result ℕ
get_mail_quota_limit_for_username env username = elim (get_admin_forward_username env) [
  | err e ↦ err e
  | ok none ↦ ok default_mail_quota_bytes
  | ok (some admin) ↦
      ok (if username === admin then admin_forward_mail_quota_bytes else default_mail_quota_bytes)
]

module _ (sv : Services) where
  -- A delivery of a direct internal mail that still is in the user's mailbox.
  abbrev pub is_delivered : String → InternalMail → InternalMailDelivery → Bool
  is_delivered user_id mail d =
      d.internal_mail_id === mail.id
      && d.user_id === user_id
      && is_some d.mail_id
      && not (is_some d.recalled_at)

  abbrev pub counts_for : String → World sv → InternalMail → Bool
  counts_for user_id w mail =
      mail.to_one_user
      && is_some (find_first sv.deliveries w.deliveries (is_delivered user_id mail))

  unfoldable pub get_user_mail_storage_used : String → World sv → ℕ
  get_user_mail_storage_used user_id w =
      let mine = find_many sv.mails w.mails (λ m. m.user_id === user_id) in
      total (λ m. m.content_size) mine
      + total attachments_size mine
      + total (λ m. total (λ a. a.size) (stored_attachments m.attachments))
          (find_many sv.internal_mails w.internal_mails (counts_for user_id w))

  abbrev pub user_with : String → World sv → Option User
  user_with user_id w = find_first sv.users w.users (λ u. u.id === user_id)

  -- `mail.internalMailDelivery?.internalMail.attachments`, those with an object.
  abbrev pub delivery_of : String → World sv → Option InternalMailDelivery
  delivery_of mail_id w =
      find_first sv.deliveries w.deliveries
        (λ d. elim d.mail_id [ none ↦ false | some m ↦ m === mail_id ])

  abbrev pub internal_mail_of : String → World sv → Option InternalMail
  internal_mail_of mail_id w = elim (delivery_of mail_id w) [
    | none ↦ none
    | some d ↦ find_first sv.internal_mails w.internal_mails (λ m. m.id === d.internal_mail_id)
  ]

  abbrev pub shared_attachments : String → World sv → List InternalMailAttachment
  shared_attachments mail_id w = elim (internal_mail_of mail_id w) [
    | none ↦ []
    | some m ↦ stored_attachments m.attachments
  ]

  -- The AES key of a mail: by the master key in Redis and the user's private key.
  unfoldable pub open_mail_key : String → User → Mail → World sv → Result String
  open_mail_key user_id user mail w =
      elim (truthy (sv.texts.get w.master_keys (master_key_key user_id))) [
        | none ↦ err (unauthorized "MasterKey not found in cache. Please re-login.")
        | some master_key ↦
            elim (sv.crypto.decrypt master_key user.private_key_iv user.encrypted_private_key) [
              | none ↦ err fault
              | some private_key ↦
                  elim (sv.rsa.private_decrypt private_key mail.encrypted_mail_key) [
                    | none ↦ err fault
                    | some mail_key ↦ ok mail_key
                  ]
            ]
      ]

  abbrev pub decrypted : Option String → Result String
  decrypted none = err fault
  decrypted (some text) = ok text

  -- GetObject without the test for a missing object, and the decryption.
  unfoldable pub read_content : Mail → String → World sv → Result String
  read_content mail mail_key w = elim (sv.objects.get w.objects mail.storage_key) [
    | none ↦ err fault
    | some none ↦ err fault
    | some (some body) ↦ decrypted (sv.crypto.decrypt mail_key mail.mail_key_iv body)
  ]

  unfoldable pub mark_read : String → Mail → World sv → World sv
  mark_read user_id mail w =
      if mail.is_read
      then w
      else emit_to_user sv
          (record (mail_event user_id "mail.updated" (mail.id ∷ []) "user") { is_read = some true })
          (update_mails sv (λ m. m.id === mail.id) (λ m. record m { is_read = true }) w)

  abbrev pub mail_view : Mail → String → List InternalMailAttachment → MailView
  mail_view mail content shared = record {
    id = mail.id;
    user_id = mail.user_id;
    sender = mail.sender;
    recipient = mail.recipient;
    subject = mail.subject;
    content_size = mail.content_size;
    created_at = mail.created_at;
    is_read = mail.is_read;
    is_archived = mail.is_archived;
    is_spam = mail.is_spam;
    content = content;
    attachments = map view_of mail.attachments ++ map shared_view_of shared;
  }

  -- The mail and the user, if the mail is the user's.
  abbrev pub own_mail : String → Option Mail → Option User → Option (Mail × User)
  own_mail user_id (some mail) (some user) =
      if mail.user_id === user_id then some (mail, user) else none
  own_mail user_id _ _ = none

  abbrev pub lift : {A : Type 0} → (World sv → Result A) → Exec (World sv) A
  lift f w = (f w, w)

  unfoldable pub get_single_mail : String → String → Exec (World sv) MailView
  get_single_mail user_id mail_id = do
    found ← gets (λ w. own_mail user_id (mail_with sv mail_id w) (user_with user_id w))
    elim found [
      | none ↦ throw (not_found "Mail not found")
      | some (mail, user) ↦ do
        mail_key ← lift (open_mail_key user_id user mail)
        content ← lift (read_content mail mail_key)
        shared ← gets (shared_attachments mail_id)
        modify (mark_read user_id mail)
        pure (mail_view mail content shared)
    ]

  abbrev pub attachment_with : String → Mail → Option MailAttachment
  attachment_with attachment_id mail = find (λ a. a.id === attachment_id) mail.attachments

  abbrev pub shared_with : String → String → World sv → Option InternalMailAttachment
  shared_with mail_id attachment_id w =
      find (λ a. a.id === attachment_id) (shared_attachments mail_id w)

  -- The attachment of a mail's own, decrypted.
  unfoldable pub download_own : String → User → Mail → MailAttachment → Exec (World sv) Download
  download_own user_id user mail attachment = do
    mail_key ← lift (open_mail_key user_id user mail)
    body ← download_storage_object_by_key sv attachment.storage_key
    buffer ← lift (λ w. decrypted (sv.crypto.decrypt mail_key mail.mail_key_iv body))
    pure (record {
      buffer = buffer;
      filename = attachment.filename;
      mimetype = attachment.mimetype;
      size = attachment.size;
    })

  unfoldable pub download_shared : Option InternalMailAttachment → Exec (World sv) Download
  download_shared none = throw (not_found "Attachment not found or access denied")
  download_shared (some a) = elim (truthy a.storage_key) [
    | none ↦ throw (not_found "Attachment not found or access denied")
    | some key ↦ do
      buffer ← download_storage_object_by_key sv key
      pure (record { buffer = buffer; filename = a.name; mimetype = a.mimetype; size = a.size })
  ]

  unfoldable pub download_attachment : String → String → String → Exec (World sv) Download
  download_attachment user_id mail_id attachment_id = do
    found ← gets (λ w. own_mail user_id (mail_with sv mail_id w) (user_with user_id w))
    shared ← gets (shared_with mail_id attachment_id)
    elim found [
      | none ↦ throw (not_found "Attachment not found or access denied")
      | some (mail, user) ↦ elim (attachment_with attachment_id mail) [
        | none ↦ download_shared shared
        | some attachment ↦ download_own user_id user mail attachment
      ]
    ]
