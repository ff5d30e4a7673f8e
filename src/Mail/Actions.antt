-- ===== src/Mail/Actions.antt =====
-- What users do with their mails: deleteMail, moveMail, setReadStatus and the bulk actions.
use redbox.Prelude.{
  ℕ, String, Bool, true, ◌&&◌, List, [], ◌∷◌, ◌++◌, length, Option, none, some, ◌===◌, contains,
  is_some, Exec, not_found, pure, throw, gets, modify, ◌>>=◌, ◌>>◌,
}
use redbox.Database.{find_first, find_many}
use redbox.Mail.State.{Mail, MailEvent, Services, World, mail_event, emit_to_user, update_mails}
use redbox.Mail.Mailbox.{
  object_keys, delete_storage_objects, delete_mail_record_by_id, unlink_deliveries,
}

-- The two flags that a folder's name stands for.
unfoldable pub filed : String → Mail → Mail
filed folder m = record m { is_archived = folder === "archive"; is_spam = folder === "spam" }

abbrev pub is_among : String → List String → Mail → Bool
is_among user_id mail_ids m = contains m.id mail_ids && m.user_id === user_id

abbrev pub all_object_keys : List Mail → List String
all_object_keys [] = []
all_object_keys (m ∷ ms) = object_keys m ++ all_object_keys ms

module _ (sv : Services) where
  abbrev pub find_own : String → String → Exec (World sv) Mail
  find_own user_id mail_id = do
    found ← gets (λ w. find_first sv.mails w.mails (λ m. m.id === mail_id && m.user_id === user_id))
    elim found [ none ↦ throw (not_found "Mail not found") | some mail ↦ pure mail ]

  unfoldable pub delete_mail : String → String → Exec (World sv) Bool
  delete_mail user_id mail_id = do
    mail ← find_own user_id mail_id
    delete_mail_record_by_id sv mail.id true none none

  abbrev pub update_by_id : String → (Mail → Mail) → World sv → World sv
  update_by_id mail_id = update_mails sv (λ m. m.id === mail_id)

  unfoldable pub move_mail : String → String → String → Exec (World sv) (Unit {0})
  move_mail user_id mail_id folder = do
    find_own user_id mail_id
    modify (update_by_id mail_id (filed folder))
    modify (
        emit_to_user sv (record (mail_event user_id "mail.updated" (mail_id ∷ []) "user") {
          folder = some folder;
        }))

  abbrev pub count_among : String → List String → World sv → ℕ
  count_among user_id mail_ids w = length (find_many sv.mails w.mails (is_among user_id mail_ids))

  abbrev pub bulk_event : String → List String → ℕ → Option String → Option Bool → MailEvent
  bulk_event user_id mail_ids n folder is_read =
      record (mail_event user_id "mail.bulk-updated" mail_ids "user") {
        folder = folder;
        is_read = is_read;
        count = some n;
      }

  -- `updateMany` of the user's mails among the ids and the event: the number of updated mails.
  abbrev pub bulk_update :
      String → List String → (Mail → Mail) → Option String → Option Bool → Exec (World sv) ℕ
  bulk_update user_id mail_ids f folder is_read = do
    n ← gets (count_among user_id mail_ids)
    modify (update_mails sv (is_among user_id mail_ids) f)
    modify (emit_to_user sv (bulk_event user_id mail_ids n folder is_read))
    pure n

  unfoldable pub bulk_move_mails : String → List String → String → Exec (World sv) ℕ
  bulk_move_mails user_id mail_ids folder =
      bulk_update user_id mail_ids (filed folder) (some folder) none

  unfoldable pub set_read_status : String → String → Bool → Exec (World sv) (Unit {0})
  set_read_status user_id mail_id is_read = do
    find_own user_id mail_id
    modify (update_by_id mail_id (λ m. record m { is_read = is_read }))
    modify (
        emit_to_user sv (record (mail_event user_id "mail.updated" (mail_id ∷ []) "user") {
          is_read = some is_read;
        }))

  -- `deleteMany`, with the foreign key of the deliveries.
  abbrev pub delete_mail_rows : String → List String → World sv → World sv
  delete_mail_rows user_id mail_ids w = record w {
    mails = sv.mails.delete_many w.mails (is_among user_id mail_ids);
    deliveries =
        unlink_deliveries sv
          (λ id.
            is_some (find_first sv.mails w.mails (λ m. m.id === id && is_among user_id mail_ids m)))
          w;
  }

  unfoldable pub bulk_delete_mails : String → List String → Exec (World sv) ℕ
  bulk_delete_mails user_id mail_ids = do
    mails ← gets (λ w. find_many sv.mails w.mails (is_among user_id mail_ids))
    modify (delete_storage_objects sv (all_object_keys mails))
    n ← gets (count_among user_id mail_ids)
    modify (delete_mail_rows user_id mail_ids)
    modify (
        emit_to_user sv
          (record (mail_event user_id "mail.bulk-deleted" mail_ids "user") { count = some n }))
    pure n

  -- The spam flag stays as it is.
  unfoldable pub bulk_archive_mails : String → List String → Exec (World sv) ℕ
  bulk_archive_mails user_id mail_ids =
      bulk_update user_id mail_ids (λ m. record m { is_archived = true }) (some "archive") none

  unfoldable pub bulk_set_read_status : String → List String → Bool → Exec (World sv) ℕ
  bulk_set_read_status user_id mail_ids is_read =
      bulk_update user_id mail_ids (λ m. record m { is_read = is_read }) none (some is_read)
