-- ===== src/Mail/RoundTrip.antt =====
-- Storing a mail for a user and reading it.
use redbox.Prelude.{
  String, ◌≡◌, refl, ap, ◌∙◌, subst, Option, none, some, arith, ◌===◌, find, ok, ===_refl,
  find-snoc, eq_iff,
}
use redbox.Prelude.Text.{truthy}
use redbox.Accounts.State.{User, master_key_key}
use redbox.Mail.State.{Mail, Services, World}
use redbox.Mail.Mailbox.{
  StoredMailboxMailInput, MailDraws, mail_storage_key, mail_with, store_mailbox_mail_for_user,
}
use redbox.Mail.Reading.{
  user_with, shared_attachments, own_mail, open_mail_key, read_content, mail_view, get_single_mail,
}
use redbox.Mail.Storing.{Apart, store_mailbox_mail_for_user-StoredMail}

module _ (sv : Services) (user : User) (input : StoredMailboxMailInput) (draws : MailDraws)
    (master_key private_key : String) (reply : Option String) where
  reads :
      (mail : Mail) (w : World sv)
      → own_mail sv user.id (mail_with sv mail.id w) (user_with sv user.id w) ≡ some (mail, user)
      → (mail_key content : String) → open_mail_key sv user.id user mail w ≡ ok mail_key
      → read_content sv mail mail_key w ≡ ok content
      → (get_single_mail sv user.id mail.id w).0
        ≡ ok (mail_view sv mail content (shared_attachments sv mail.id w))
  unfolding get_single_mail
  reads mail w found mail_key content e f = ground (arith, found, e, f)

  opens :
      (mail : Mail) (w : World sv) (mail_key : String)
      → truthy (sv.texts.get w.master_keys (master_key_key user.id)) ≡ some master_key
      → sv.crypto.decrypt master_key user.private_key_iv user.encrypted_private_key
        ≡ some private_key
      → sv.rsa.private_decrypt private_key mail.encrypted_mail_key ≡ some mail_key
      → open_mail_key sv user.id user mail w ≡ ok mail_key
  unfolding open_mail_key
  opens mail w mail_key a b c = ground (arith, a, b, c)

  content_of :
      (mail : Mail) (w : World sv) (mail_key body text : String)
      → sv.objects.get w.objects mail.storage_key ≡ some (some body)
      → sv.crypto.decrypt mail_key mail.mail_key_iv body ≡ some text
      → read_content sv mail mail_key w ≡ ok text
  unfolding read_content
  content_of mail w mail_key body text a b = ground (arith, a, b)

  own_of :
      (mail : Mail) (w : World sv)
      → mail_with sv mail.id w ≡ some mail
      → user_with sv user.id w ≡ some user
      → mail.user_id ≡ user.id
      → own_mail sv user.id (mail_with sv mail.id w) (user_with sv user.id w) ≡ some (mail, user)
  own_of mail w a b c = ground (arith, a, b, c, (eq_iff mail.user_id user.id).1 c)

  -- For a user of the table whose master key is in Redis and opens the private key of the user's key
  -- pair, under a fresh mail id and storage keys apart from each other: after a mail was stored,
  -- getSingleMail answers it with the content that was stored, if the GetObject call answers.
  pub get_single_mail-store :
      (mail : Mail) (w : World sv)
      → (store_mailbox_mail_for_user sv user input draws w).0 ≡ ok mail
      → user_with sv user.id w ≡ some user
      → mail_with sv draws.mail_id w ≡ none
      → truthy (sv.texts.get w.master_keys (master_key_key user.id)) ≡ some master_key
      → sv.crypto.decrypt master_key user.private_key_iv user.encrypted_private_key
        ≡ some private_key
      → ((key wrapped : String)
          → sv.rsa.public_encrypt user.public_key key ≡ some wrapped
          → sv.rsa.private_decrypt private_key wrapped ≡ some key)
      → Apart sv (mail_storage_key draws.uuid) draws 0 input.attachments
      → sv.objects.get
          (store_mailbox_mail_for_user sv user input draws w).1.objects
          (mail_storage_key draws.uuid)
        ≡ some reply
      → (get_single_mail sv user.id draws.mail_id
          (store_mailbox_mail_for_user sv user input draws w).1).0
        ≡ ok (mail_view sv mail input.content (shared_attachments sv draws.mail_id w))
  get_single_mail-store mail w h found fresh session opened pair apart answered =
      let w' = (store_mailbox_mail_for_user sv user input draws w).1 in
      let s = store_mailbox_mail_for_user-StoredMail sv draws user input mail w h in
      let key = mail_storage_key draws.uuid in
      let id_of : mail.id ≡ draws.mail_id = ap (λ m. m.id) s.row in
      let owner : mail.user_id ≡ user.id = ap (λ m. m.user_id) s.row in
      let row_found : mail_with sv draws.mail_id w' ≡ some mail =
        ap (λ v. mail_with sv draws.mail_id v) s.frame
        ∙ (ap (find (λ m. m.id === draws.mail_id)) (sv.mails.rows-create w.mails mail)
            ∙ find-snoc (λ m. m.id === draws.mail_id) (sv.mails.rows w.mails) mail fresh
                (rw (id_of, ===_refl draws.mail_id) refl)) in
      let user_found : user_with sv user.id w' ≡ some user =
        ap (λ v. user_with sv user.id v) s.frame ∙ found in
      let own : own_mail sv user.id (mail_with sv mail.id w') (user_with sv user.id w')
          ≡ some (mail, user) =
        own_of mail w' (ap (λ i. mail_with sv i w') id_of ∙ row_found) user_found owner in
      let body = sv.crypto.encrypt draws.mail_key draws.mail_iv input.content in
      let replied : sv.objects.get w'.objects mail.storage_key ≡ some (some body) =
        ap (λ m. sv.objects.get w'.objects m.storage_key) s.row
        ∙ (answered
            ∙ ap some (sv.objects.get_reply w'.objects key reply answered ∙ s.content apart)) in
      let iv : mail.mail_key_iv ≡ draws.mail_iv = ap (λ m. m.mail_key_iv) s.row in
      let answer =
        reads mail w' own draws.mail_key input.content
          (opens mail w' draws.mail_key
            (ap (λ v. truthy (sv.texts.get v.master_keys (master_key_key user.id))) s.frame
              ∙ session)
            opened
            (ap (λ m. sv.rsa.private_decrypt private_key m.encrypted_mail_key) s.row
              ∙ pair draws.mail_key s.encrypted s.wrapped))
          (content_of mail w' draws.mail_key body input.content replied (
            ap (λ i. sv.crypto.decrypt draws.mail_key i body) iv
            ∙ sv.crypto.decrypt-encrypt draws.mail_key draws.mail_iv input.content)) in
      subst
        (λ i.
          (get_single_mail sv user.id i w').0
          ≡ ok (mail_view sv mail input.content (shared_attachments sv i w)))
        id_of
        (answer
          ∙ ap (λ v. ok (mail_view sv mail input.content (shared_attachments sv mail.id v)))
              s.frame)
