-- ===== src/Mail/Mailbox.antt =====
-- Storing and deleting the mails of a mailbox: storeMailboxMailForUser, createInternalInboxMail,
-- deleteMailRecordById and the methods on storage objects. Storage calls that run side by side
-- are made one after the other.
use redbox.Prelude.{
  ℕ, ◌+◌, String, Bool, true, false, List, [], ◌∷◌, map, Option, none, some, ◌===◌, if◌then◌else◌,
  or_else, template, Exec, Result, ok, err, not_found, fault, pure, throw, gets, modify, ◌>>=◌,
  ◌>>◌,
}
use redbox.Prelude.Text.{truthy}
use redbox.Database.{find_first}
use redbox.Accounts.State.{User}
use redbox.Mail.State.{
  MailAttachment, Mail, InternalMailDelivery, Services, World, mail_event, emit_to_user,
  byte_length,
}

pub record MailboxAttachmentInput : Type 0 where
  pub content : String
  pub filename : String
  pub mimetype : String
  pub size : ℕ
  pub storage_key : Option String

pub record StoredMailboxMailInput : Type 0 where
  pub sender : String
  pub recipient : String
  pub subject : String
  pub content : String
  pub attachments : List MailboxAttachmentInput

pub record SharedInternalAttachmentInput : Type 0 where
  pub buffer : String
  pub original_name : String
  pub mimetype : String
  pub size : ℕ

pub record SharedInternalAttachment : Type 0 where
  pub name : String
  pub size : ℕ
  pub mimetype : String
  pub storage_key : String

-- What storing draws; `attachment_id` and `attachment_uuid` by the attachment's place.
pub record MailDraws : Type 0 where
  pub mail_id : String
  pub uuid : String
  pub mail_key : String
  pub mail_iv : String
  pub now : ℕ
  pub attachment_id : ℕ → String
  pub attachment_uuid : ℕ → String

abbrev pub mail_storage_key : String → String
mail_storage_key uuid = template ("mail_" ∷ uuid ∷ ".bin" ∷ [])

abbrev pub attachment_storage_key : String → String
attachment_storage_key uuid = template ("mail_att_" ∷ uuid ∷ ".bin" ∷ [])

-- `s3KeysToDelete` of a mail.
abbrev pub object_keys : Mail → List String
object_keys mail = mail.storage_key ∷ map (λ a. a.storage_key) mail.attachments

module _ (sv : Services) where
  abbrev pub put_done : sv.objects.State × Bool → World sv → Result (Unit {0}) × World sv
  put_done (s, true) w = (ok tt, record w { objects = s })
  put_done (s, false) w = (err fault, record w { objects = s })

  -- PutObject
  unfoldable pub put_object : String → String → Exec (World sv) (Unit {0})
  put_object key body w = put_done (sv.objects.put w.objects key body) w

  abbrev pub attachment_row : MailDraws → ℕ → MailboxAttachmentInput → MailAttachment
  attachment_row draws n a = record {
    id = draws.attachment_id n;
    filename = a.filename;
    mimetype = a.mimetype;
    size = a.size;
    storage_key = or_else (truthy a.storage_key) (attachment_storage_key (draws.attachment_uuid n));
  }

  -- The loop over the attachments from the n-th on: the rows to create.
  unfoldable pub put_attachments :
      MailDraws → ℕ → List MailboxAttachmentInput → Exec (World sv) (List MailAttachment)
  put_attachments draws n [] = pure []
  put_attachments draws n (a ∷ attachments) = do
    put_object (attachment_row draws n a).storage_key
        (sv.crypto.encrypt draws.mail_key draws.mail_iv a.content)
    rows ← put_attachments draws (n + 1) attachments
    pure (attachment_row draws n a ∷ rows)

  abbrev pub mail_row :
      String → StoredMailboxMailInput → MailDraws → List MailAttachment → String → Mail
  mail_row user_id input draws attachments encrypted_mail_key = record {
    id = draws.mail_id;
    user_id = user_id;
    sender = input.sender;
    recipient = input.recipient;
    subject = input.subject;
    storage_key = mail_storage_key draws.uuid;
    content_size = byte_length input.content;
    encrypted_mail_key = encrypted_mail_key;
    mail_key_iv = draws.mail_iv;
    created_at = draws.now;
    is_read = false;
    is_archived = false;
    is_spam = false;
    attachments = attachments;
  }

  abbrev pub create_mail : Mail → World sv → World sv
  create_mail mail w = record w { mails = sv.mails.create w.mails mail }

  unfoldable pub store_mailbox_mail_for_user :
      User → StoredMailboxMailInput → MailDraws → Exec (World sv) Mail
  store_mailbox_mail_for_user user input draws = do
    put_object (mail_storage_key draws.uuid)
        (sv.crypto.encrypt draws.mail_key draws.mail_iv input.content)
    attachments ← put_attachments draws 0 input.attachments
    elim (sv.rsa.public_encrypt user.public_key draws.mail_key) [
      | none ↦ throw fault
      | some encrypted ↦ do
        modify (create_mail (mail_row user.id input draws attachments encrypted))
        pure (mail_row user.id input draws attachments encrypted)
    ]

  -- The id of the new mail.
  unfoldable pub create_internal_inbox_mail :
      User → String → String → String → MailDraws → Exec (World sv) String
  create_internal_inbox_mail user sender subject body draws = do
    mail ←
        store_mailbox_mail_for_user user
          (record {
            sender = sender;
            recipient = template (user.username ∷ "@redbox.cx" ∷ []);
            subject = subject;
            content = body;
            attachments = [];
          })
          draws
    modify (emit_to_user sv (mail_event user.id "mail.created" (mail.id ∷ []) "internal"))
    pure mail.id

  abbrev pub shared_attachment_key : String → String
  shared_attachment_key uuid = template ("internal_mail_att_" ∷ uuid ∷ ".bin" ∷ [])

  -- The object is not encrypted.
  unfoldable pub store_shared_internal_attachment :
      SharedInternalAttachmentInput → String → Exec (World sv) SharedInternalAttachment
  store_shared_internal_attachment attachment uuid = do
    put_object (shared_attachment_key uuid) attachment.buffer
    pure (record {
      name = or_else (truthy (some attachment.original_name)) "attachment";
      size = attachment.size;
      mimetype = or_else (truthy (some attachment.mimetype)) "application/octet-stream";
      storage_key = shared_attachment_key uuid;
    })

  unfoldable pub delete_storage_object_by_key : String → World sv → World sv
  delete_storage_object_by_key key w = record w { objects = (sv.objects.delete w.objects key).0 }

  unfoldable pub delete_storage_objects : List String → World sv → World sv
  delete_storage_objects [] w = w
  delete_storage_objects (key ∷ keys) w =
      delete_storage_objects keys (delete_storage_object_by_key key w)

  unfoldable pub download_storage_object_by_key : String → Exec (World sv) String
  download_storage_object_by_key key w = elim (sv.objects.get w.objects key) [
    | none ↦ (err fault, w)
    | some none ↦ (err (not_found "Stored mail object not found"), w)
    | some (some body) ↦ (ok body, w)
  ]

  abbrev pub mail_with : String → World sv → Option Mail
  mail_with mail_id w = find_first sv.mails w.mails (λ m. m.id === mail_id)

  -- The database's foreign key sets the `mailId` of a deleted mail's delivery to null.
  abbrev pub names_mail : (String → Bool) → InternalMailDelivery → Bool
  names_mail gone d = elim d.mail_id [ none ↦ false | some mail_id ↦ gone mail_id ]

  abbrev pub unlink_deliveries : (String → Bool) → World sv → sv.deliveries.State
  unlink_deliveries gone w =
      sv.deliveries.update_many w.deliveries (names_mail gone) (λ d. record d { mail_id = none })

  abbrev pub delete_mail_row : String → World sv → World sv
  delete_mail_row mail_id w = record w {
    mails = sv.mails.delete_many w.mails (λ m. m.id === mail_id);
    deliveries = unlink_deliveries (λ id. id === mail_id) w;
  }

  -- Of `eventType` the source tells 'mail.recalled' from the others. Whether a mail was deleted.
  unfoldable pub delete_mail_record_by_id :
      String → Bool → Option String → Option String → Exec (World sv) Bool
  delete_mail_record_by_id mail_id throw_if_missing event_type reason = do
    found ← gets (mail_with mail_id)
    elim found [
      | none ↦ if throw_if_missing then throw (not_found "Mail not found") else pure false
      | some mail ↦ do
        modify (delete_storage_objects (object_keys mail))
        modify (delete_mail_row mail_id)
        modify (
            emit_to_user sv
              (record (mail_event mail.user_id (or_else event_type "mail.deleted") (mail_id ∷ [])
                (if or_else event_type "" === "mail.recalled" then "admin" else "user")) {
                  reason = reason;
                }))
        pure true
    ]
