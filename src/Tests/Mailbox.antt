-- ===== src/Tests/Mailbox.antt =====
-- Mail in memory: a mailbox with a stored mail, and a mail from outside.
use redbox.Prelude.{
  String, ◌≡◌, refl, ◌≢◌, eq_iff, true, false, [], ◌∷◌, none, some, arith, ok, err, not_found,
  ◌===◌, find, subst, Bool-cases, inl, inr,
}
use redbox.Redis.Memory.{memory_texts}
use redbox.Storage.Objects.{memory_objects}
use redbox.Database.Memory.{memory_table}
use redbox.Accounts.State.{User}
use redbox.Mail.Addresses.{
  angle_match, domain_match, domain_rest, email_at, first_email, is_digit, is_domain, is_letter,
  is_local, is_lower, letter_at, lower_char, size, span, to_lower_case, top_level,
}
use redbox.Prelude.Text.{before, includes, is_blank, is_space, split, split_where, trim, truthy}
use redbox.Mail.State.{
  Mail, InternalMail, InternalMailDelivery, BlockedSender, Services, World, byte_length,
  emit_to_user,
}
use redbox.Mail.Aliases.{
  MailEnv, all_chars, choose_recipient, extract_mail_address, has_dot_before_end, has_inner_dot,
  is_address_char, is_separator, is_username_char, local_part, username_pattern,
  resolve_incoming_recipient_address, get_admin_forward_username, resolve_incoming_mailbox_username,
  get_admin_forward_aliases, is_full_email_address,
}
use redbox.Mail.Mailbox.{
  StoredMailboxMailInput, MailDraws, store_mailbox_mail_for_user, put_object, put_attachments,
}
use redbox.Mail.Reading.{
  mail_view, get_single_mail, get_mail_quota_limit_for_username, get_user_mail_storage_used,
}
use redbox.Mail.Actions.{delete_mail, move_mail, set_read_status, filed}
use redbox.Mail.RoundTrip.{get_single_mail-store}
use redbox.Mail.Incoming.{
  IncomingMailDto, ParsedMail, one, success, process_incoming_mail, display_from, sender_emails,
  parsed_recipient, deliver_to_mailbox, deliver_to_user, deliver_within_quota, delivery_of,
  mail_content, prepare_attachments, store_and_notify,
}
use redbox.Mail.Quota.{Processed, process_incoming_mail-Processed}
use redbox.Mail.Owners.{Keyed, Untouched}
use redbox.Mail.Steps.{move_step, idle, then_step, UserRun-Untouched}
use redbox.Mail.Listing.{in_folder}
use redbox.Mail.Folders.{archive, spam, move_mail-in_folder, foreign_mail}
use redbox.Tests.Sessions.{crypto, alice}

abbrev services : Services
services = record {
  texts = memory_texts String;
  users = memory_table User;
  mails = memory_table Mail;
  internal_mails = memory_table InternalMail;
  deliveries = memory_table InternalMailDelivery;
  blocked_senders = memory_table BlockedSender;
  same_text = λ a b. a === b;
  like = λ term s. true;
  objects = memory_objects;
  crypto = crypto;
  rsa = record { public_encrypt = λ key s. some s; private_decrypt = λ key s. some s };
}

abbrev empty : World services
empty = record {
  master_keys = λ k. some "mk";
  users = alice ∷ [];
  mails = [];
  internal_mails = [];
  deliveries = [];
  blocked_senders = [];
  objects = λ k. none;
  events = [];
}

abbrev input : StoredMailboxMailInput
input = record {
  sender = "bob@example.org";
  recipient = "alice@redbox.cx";
  subject = "hi";
  content = "hello";
  attachments =
      record {
        content = "file";
        filename = "a.txt";
        mimetype = "text/plain";
        size = 4;
        storage_key = none;
      }
      ∷ [];
}

abbrev draws : MailDraws
draws = record {
  mail_id = "m1";
  uuid = "1";
  mail_key = "k";
  mail_iv = "iv";
  now = 7;
  attachment_id = λ n. "a";
  attachment_uuid = λ n. "2";
}

abbrev stored : Mail
stored = record {
  id = "m1";
  user_id = "u";
  sender = "bob@example.org";
  recipient = "alice@redbox.cx";
  subject = "hi";
  storage_key = "mail_1.bin";
  content_size = 5;
  encrypted_mail_key = "k";
  mail_key_iv = "iv";
  created_at = 7;
  is_read = false;
  is_archived = false;
  is_spam = false;
  attachments =
      record {
        id = "a";
        filename = "a.txt";
        mimetype = "text/plain";
        size = 4;
        storage_key = "mail_att_2.bin";
      }
      ∷ [];
}

store_ok : (store_mailbox_mail_for_user services alice input draws empty).0 ≡ ok stored
unfolding store_mailbox_mail_for_user put_object put_attachments byte_length truthy
store_ok = refl

other_key : ◌≢◌ {A = String} "mail_att_2.bin" "mail_1.bin"
other_key e = let f : false ≡ true = (eq_iff "mail_att_2.bin" "mail_1.bin").1 e in ground (arith, f)

stored_body :
    services.objects.get
      (store_mailbox_mail_for_user services alice input draws empty).1.objects
      "mail_1.bin"
    ≡ some (some "hello")
unfolding store_mailbox_mail_for_user put_object put_attachments byte_length truthy
stored_body = refl

get_single_mail-store_example :
    (get_single_mail services "u" "m1"
      (store_mailbox_mail_for_user services alice input draws empty).1).0
    ≡ ok (mail_view services stored "hello" [])
unfolding truthy
get_single_mail-store_example =
    get_single_mail-store services alice input draws "mk" "" (some "hello") stored empty store_ok
      refl refl refl refl (λ key wrapped h. ground (arith, h)) (other_key, tt) stored_body

abbrev env : MailEnv
env = record { forward_username = none; forward_aliases = none }

abbrev parsed : ParsedMail
parsed = record {
  sender = some "Bob <bob@example.org>";
  recipients = one (some "alice@redbox.cx");
  subject = none;
  html = none;
  text_as_html = none;
  text = some "hi";
  attachments = [];
}

abbrev dto : IncomingMailDto
dto = record {
  sender = "bob@example.org";
  recipient = "alice@redbox.cx";
  subject = some "hello";
  raw = "";
}

process_ok :
    (process_incoming_mail services env (λ raw. some parsed) dto (λ n. "3") draws empty).0
    ≡ ok (success "m1")
unfolding process_incoming_mail store_mailbox_mail_for_user angle_match domain_match domain_rest
    email_at first_email is_digit is_domain is_letter is_local is_lower letter_at lower_char size
    span to_lower_case top_level all_chars choose_recipient extract_mail_address has_dot_before_end
    has_inner_dot is_address_char is_separator is_username_char local_part username_pattern
    display_from sender_emails put_attachments put_object emit_to_user before includes is_blank
    is_space split split_where trim truthy resolve_incoming_recipient_address parsed_recipient
    get_admin_forward_username resolve_incoming_mailbox_username get_admin_forward_aliases
    is_full_email_address deliver_to_mailbox deliver_to_user deliver_within_quota
    get_mail_quota_limit_for_username get_user_mail_storage_used byte_length delivery_of
    mail_content prepare_attachments store_and_notify
process_ok = refl

process_incoming_mail-Processed_example :
    Processed services env draws
      (λ raw. some parsed)
      dto
      (λ n. "3")
      empty
      (success "m1")
      (process_incoming_mail services env (λ raw. some parsed) dto (λ n. "3") draws empty).1
process_incoming_mail-Processed_example =
    process_incoming_mail-Processed services env draws (λ raw. some parsed) dto (λ n. "3")
      (success "m1") empty process_ok

-- A mail of alice and one of another user.
abbrev shared_world : World services
shared_world = record empty { mails = stored ∷ record stored { id = "m2"; user_id = "v" } ∷ [] }

two_owners : Keyed (stored ∷ record stored { id = "m2"; user_id = "v" } ∷ [])
two_owners u k h = (
  λ e.
      let n : ("m2" === k) ≡ false = subst (λ x. ("m2" === x) ≡ false) ((eq_iff "m1" k).0 e) refl in
      elim (Bool-cases ("u" === u)) [
        | inl g ↦ (eq_iff "u" u).0 g
        | inr g ↦ absurd (ground (arith, h, e, g, n))
      ],
  (
    λ e.
        let n : ("m1" === k) ≡ false =
          subst (λ x. ("m1" === x) ≡ false) ((eq_iff "m2" k).0 e) refl in
        elim (Bool-cases ("v" === u)) [
          | inl g ↦ (eq_iff "v" u).0 g
          | inr g ↦ absurd (ground (arith, h, e, g, n))
        ],
    tt,
  ),
)

not_alice : ◌≢◌ {A = String} "u" "v"
not_alice e = let f : false ≡ true = (eq_iff "u" "v").1 e in ground (arith, f)

abbrev moved : World services
moved = (move_mail services "u" "m1" "spam" shared_world).1

UserRun-Untouched_example :
    Untouched services "v" shared_world (move_mail services "u" "m2" "archive" moved).1
UserRun-Untouched_example =
    UserRun-Untouched services "u" "v" not_alice
      (then_step (then_step idle (move_step "m1" "spam")) (move_step "m2" "archive")) two_owners

move_ok : (move_mail services "u" "m1" "spam" shared_world).0 ≡ ok tt
unfolding move_mail
move_ok = refl

move_found : find (λ m. m.id === "m1") moved.mails ≡ some (record stored { is_spam = true })
unfolding move_mail filed emit_to_user
move_found = refl

move_mail-in_folder_example : in_folder "archive" (record stored { is_spam = true }) ≡ false
move_mail-in_folder_example =
    move_mail-in_folder services "u" "m1" shared_world spam archive
      (record stored { is_spam = true }) move_ok move_found

foreign_mail_example :
    (get_single_mail services "u" "m2" shared_world
      ≡ (err (not_found "Mail not found"), shared_world))
    × (delete_mail services "u" "m2" shared_world
        ≡ (err (not_found "Mail not found"), shared_world))
    × (move_mail services "u" "m2" "spam" shared_world
        ≡ (err (not_found "Mail not found"), shared_world))
    × (set_read_status services "u" "m2" true shared_world
        ≡ (err (not_found "Mail not found"), shared_world))
foreign_mail_example = foreign_mail services "u" "m2" shared_world "spam" true refl
