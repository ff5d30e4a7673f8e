-- ===== src/Mail/Incoming.antt =====
-- processIncomingMail: mail from outside, as the mail server posts it.
use redbox.Prelude.{
  ℕ, ◌+◌, String, Bool, ◌&&◌, ◌||◌, List, [], ◌∷◌, ◌++◌, Option, none, some, ltb, ◌==◌, ◌===◌,
  if◌then◌else◌, or_else, or_try, is_some, find, contains, not, Exec, fault, pure, throw, gets,
  modify, ◌>>=◌, ◌>>◌,
}
use redbox.Prelude.Text.{truthy, trim, includes, is_blank}
use redbox.Database.{find_first}
use redbox.Accounts.State.{active, status_eq, User}
use redbox.Mail.State.{BlockedSender, Services, World, mail_event, emit_to_user, byte_length}
use redbox.Mail.Aliases.{
  MailEnv, extract_mail_address, resolve_incoming_recipient_address,
  resolve_incoming_mailbox_username,
}
use redbox.Mail.Mailbox.{
  MailboxAttachmentInput, StoredMailboxMailInput, MailDraws, attachment_storage_key,
  store_mailbox_mail_for_user,
}
use redbox.Mail.Reading.{total, lift, get_user_mail_storage_used, get_mail_quota_limit_for_username}

pub record IncomingMailDto : Type 0 where
  pub sender : String
  pub recipient : String
  pub subject : Option String
  pub raw : String

-- What the service uses of a parsed mail (simpleParser of mailparser). `content_length` is the
-- length of the content's buffer.
pub record ParsedAttachment : Type 0 where
  pub content : String
  pub content_length : ℕ
  pub filename : Option String
  pub content_type : Option String
  pub size : Option ℕ

pub data Recipients : Type 0 where
  many : List String → Recipients
  one : Option String → Recipients

pub record ParsedMail : Type 0 where
  pub sender : Option String
  pub recipients : Recipients
  pub subject : Option String
  pub html : Option String
  pub text_as_html : Option String
  pub text : Option String
  pub attachments : List ParsedAttachment

pub data Outcome : Type 0 where
  ignored : String → Outcome
  success : String → Outcome

abbrev pub no_text : String → Bool
unfolding is_blank
no_text s = is_blank s

unfoldable pub parsed_recipient : Recipients → Option String
parsed_recipient (many texts) = find (λ s. not (no_text s)) texts
parsed_recipient (one t) = t

unfoldable pub display_from : ParsedMail → IncomingMailDto → String
unfolding truthy trim
display_from parsed dto = elim parsed.sender [
  | none ↦ dto.sender
  | some s ↦ or_else (truthy (some (trim s))) dto.sender
]

-- The two addresses without empty ones and a repetition.
unfoldable pub sender_emails : String → String → List String
unfolding extract_mail_address is_blank
sender_emails display envelope =
    let first = extract_mail_address (some display) in
    let second = extract_mail_address (some envelope) in
    (if is_blank first then [] else first ∷ [])
    ++ (if is_blank second || first === second then [] else second ∷ [])

unfoldable pub mail_content : ParsedMail → String
unfolding truthy
mail_content parsed =
    or_else (or_try (truthy parsed.html) (or_try (truthy parsed.text_as_html) (truthy parsed.text)))
      "(No content)"

-- `attachment.size || attachment.content.length`
abbrev pub size_of : ParsedAttachment → ℕ
size_of a = elim a.size [
  | none ↦ a.content_length
  | some n ↦ if n == 0 then a.content_length else n
]

-- The attachments from the n-th on, with their drawn storage keys.
unfoldable pub prepare_attachments :
    (ℕ → String) → ℕ → List ParsedAttachment → List MailboxAttachmentInput
unfolding truthy
prepare_attachments uuids n [] = []
prepare_attachments uuids n (a ∷ rest) =
    record {
      content = a.content;
      filename = or_else (truthy a.filename) "unknown_file";
      mimetype = or_else (truthy a.content_type) "application/octet-stream";
      size = size_of a;
      storage_key = some (attachment_storage_key (uuids n));
    }
    ∷ prepare_attachments uuids (n + 1) rest

abbrev pub sizes_of : List MailboxAttachmentInput → ℕ
sizes_of attachments = total (λ a. a.size) attachments

pub record Delivery : Type 0 where
  pub input : StoredMailboxMailInput
  pub sender_emails : List String

module _ (sv : Services) (env : MailEnv) where
  abbrev pub blocked_by : String → List String → World sv → Option BlockedSender
  blocked_by user_id emails w =
      find_first sv.blocked_senders w.blocked_senders
        (λ b. b.user_id === user_id && contains b.email emails)

  unfoldable pub store_and_notify :
      User → StoredMailboxMailInput → MailDraws → Exec (World sv) Outcome
  store_and_notify user input draws = do
    mail ← store_mailbox_mail_for_user sv user input draws
    modify (emit_to_user sv (mail_event user.id "mail.created" (mail.id ∷ []) "external"))
    pure (success mail.id)

  unfoldable pub deliver_within_quota :
      User → StoredMailboxMailInput → MailDraws → Exec (World sv) Outcome
  deliver_within_quota user input draws = do
    usage ← gets (get_user_mail_storage_used sv user.id)
    quota ← lift sv (λ w. get_mail_quota_limit_for_username env user.username)
    if ltb quota (usage + (byte_length input.content + sizes_of input.attachments))
        then pure (ignored "Mailbox quota exceeded")
        else store_and_notify user input draws

  unfoldable pub deliver_to_user : User → Delivery → MailDraws → Exec (World sv) Outcome
  deliver_to_user user delivery draws =
      if not (status_eq user.status active)
      then pure (ignored "User account is not active")
      else (do
        blocked ← gets (blocked_by user.id delivery.sender_emails)
        if is_some blocked
            then pure (ignored "Sender is blocked")
            else deliver_within_quota user delivery.input draws)

  abbrev pub user_named : String → World sv → Option User
  user_named username w = find_first sv.users w.users (λ u. sv.same_text u.username username)

  unfoldable pub deliver_to_mailbox : String → Delivery → MailDraws → Exec (World sv) Outcome
  unfolding includes
  deliver_to_mailbox username delivery draws =
      if includes b'*' username
      then pure (ignored "Broadcast delivery is only supported for internal admin mail")
      else (do
        found ← gets (user_named username)
        elim found [
          | none ↦ pure (ignored "User not found")
          | some user ↦ deliver_to_user user delivery draws
        ])

  unfoldable pub delivery_of : ParsedMail → IncomingMailDto → String → (ℕ → String) → Delivery
  unfolding truthy
  delivery_of parsed dto clean_email uuids =
      let sender = display_from parsed dto in
      record {
        input = record {
          sender = sender;
          recipient = clean_email;
          subject = or_else (or_try (truthy parsed.subject) (truthy dto.subject)) "(No subject)";
          content = mail_content parsed;
          attachments = prepare_attachments uuids 0 parsed.attachments;
        };
        sender_emails = sender_emails sender dto.sender;
      }

  -- `simple_parser` is `none` where simpleParser throws.
  unfoldable pub process_incoming_mail :
      (String → Option ParsedMail)
      → IncomingMailDto
      → (ℕ → String)
      → MailDraws
      → Exec (World sv) Outcome
  process_incoming_mail simple_parser dto uuids draws = elim (simple_parser dto.raw) [
    | none ↦ throw fault
    | some parsed ↦ do
      clean_email ← lift sv (λ w.
          resolve_incoming_recipient_address env
            (parsed_recipient parsed.recipients ∷ some dto.recipient ∷ []))
      username ← lift sv (λ w. resolve_incoming_mailbox_username env (some clean_email))
      deliver_to_mailbox username (delivery_of parsed dto clean_email uuids) draws
  ]
