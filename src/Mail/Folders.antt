-- ===== src/Mail/Folders.antt =====
-- Where a moved mail is listed, and what a user can do with a mail of another user.
use mathlib.Core.Option
use redbox.Prelude.{
  String, ◌≡◌, refl, ap, ◌∙◌, Bool, [], ◌∷◌, none, some, arith, ◌===◌, find, ok, err, not_found,
  Bool-cases, Option-cases, inl, inr,
}
use redbox.Accounts.Rows.{find-update}
use redbox.Mail.State.{Mail, Services, World, emit_to_user, mail_event, MailEvent}
use redbox.Mail.Mailbox.{mail_with}
use redbox.Mail.Reading.{get_single_mail, user_with}
use redbox.Mail.Listing.{in_folder}
use redbox.Mail.Actions.{filed, update_by_id, delete_mail, move_mail, set_read_status}
use redbox.Mail.Owners.{is_own, found-own}

-- The folders of a mailbox.
pub data Folder : Type 0 where
  inbox archive spam : Folder

abbrev pub folder_name : Folder → String
folder_name inbox = "inbox"
folder_name archive = "archive"
folder_name spam = "spam"

in_folder-filed :
    (f g : Folder) (m : Mail)
    → in_folder (folder_name g) (filed (folder_name f) m) ≡ (folder_name g === folder_name f)
unfolding in_folder filed
in_folder-filed inbox inbox m = refl
in_folder-filed inbox archive m = refl
in_folder-filed inbox spam m = refl
in_folder-filed archive inbox m = refl
in_folder-filed archive archive m = refl
in_folder-filed archive spam m = refl
in_folder-filed spam inbox m = refl
in_folder-filed spam archive m = refl
in_folder-filed spam spam m = refl

module _ (sv : Services) (u mail_id : String) (w : World sv) where
  mail_with-move_mail :
      (folder : String)
      → (move_mail sv u mail_id folder w).0 ≡ ok tt
      → mail_with sv mail_id (move_mail sv u mail_id folder w).1
        ≡ Option.map (filed folder) (mail_with sv mail_id w)
  unfolding move_mail emit_to_user filed
  mail_with-move_mail folder h =
      let rows = sv.mails.rows w.mails in
      elim (Option-cases (find (is_own u mail_id) rows)) [
        | inl e ↦ absurd (ground (arith, h, e))
        | inr (mail, e) ↦
            let event : MailEvent = record (mail_event u "mail.updated" (mail_id ∷ []) "user") {
              folder = some folder;
            } in
            let last : (move_mail sv u mail_id folder w).1
                ≡ emit_to_user sv event (update_by_id sv mail_id (filed folder) w) =
              ground (arith, e) in
            ap (λ t. mail_with sv mail_id t) last
            ∙ (ap (find (λ m. m.id === mail_id))
                  (sv.mails.rows-update_many w.mails (λ m. m.id === mail_id) (filed folder))
                ∙ find-update (λ m. m.id === mail_id) (filed folder) (λ m. refl) rows)
      ]

  -- After moveMail to a folder succeeded, the mail is listed in this folder and in no other one.
  pub move_mail-in_folder :
      (f g : Folder) (mail : Mail)
      → (move_mail sv u mail_id (folder_name f) w).0 ≡ ok tt
      → mail_with sv mail_id (move_mail sv u mail_id (folder_name f) w).1 ≡ some mail
      → in_folder (folder_name g) mail ≡ (folder_name g === folder_name f)
  move_mail-in_folder f g mail h e = elim (Option-cases (mail_with sv mail_id w)) [
    | inl a ↦ absurd (ground (arith, a, e, mail_with-move_mail (folder_name f) h))
    | inr (before, a) ↦
        let same : mail ≡ filed (folder_name f) before =
          ground (arith, a, e, mail_with-move_mail (folder_name f) h) in
        ap (in_folder (folder_name g)) same ∙ in_folder-filed f g before
  ]

  get_single_mail-foreign :
      find (is_own u mail_id) (sv.mails.rows w.mails) ≡ none
      → get_single_mail sv u mail_id w ≡ (err (not_found "Mail not found"), w)
  unfolding get_single_mail
  get_single_mail-foreign h = elim (Option-cases (mail_with sv mail_id w)) [
    | inl e ↦ ground (arith, e)
    | inr (mail, e) ↦ elim (Option-cases (user_with sv u w)) [
      | inl f ↦ ground (arith, e, f)
      | inr (user, f) ↦ elim (Bool-cases (mail.user_id === u)) [
        | inr g ↦ ground (arith, e, f, g)
        | inl g ↦ absurd (ground (arith, h, found-own u mail_id mail (sv.mails.rows w.mails) e g))
      ]
    ]
  ]

  -- For a mail that is not there or is another user's, getSingleMail, deleteMail, moveMail and
  -- setReadStatus answer that it is not found and change nothing.
  pub foreign_mail :
      (folder : String) (b : Bool)
      → find (is_own u mail_id) (sv.mails.rows w.mails) ≡ none
      → (get_single_mail sv u mail_id w ≡ (err (not_found "Mail not found"), w))
        × (delete_mail sv u mail_id w ≡ (err (not_found "Mail not found"), w))
        × (move_mail sv u mail_id folder w ≡ (err (not_found "Mail not found"), w))
        × (set_read_status sv u mail_id b w ≡ (err (not_found "Mail not found"), w))
  unfolding delete_mail move_mail set_read_status
  foreign_mail folder b h =
      (get_single_mail-foreign h, ground (arith, h), ground (arith, h), ground (arith, h))
