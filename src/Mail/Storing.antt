-- ===== src/Mail/Storing.antt =====
-- What storeMailboxMailForUser leaves in the database and in storage.
use redbox.Prelude.{
  ℕ, ◌+◌, String, ◌≡◌, refl, sym, ap, ◌∙◌, subst, ◌≢◌, true, false, List, [], ◌∷◌, some, arith, ok,
  err, fault, Bool-cases, Option-cases, Result-cases, inl, inr, ===_refl,
}
use redbox.Accounts.State.{User}
use redbox.Accounts.Rows.{differ}
use redbox.Mail.State.{MailAttachment, Mail, Services, World}
use redbox.Mail.Mailbox.{
  MailboxAttachmentInput, StoredMailboxMailInput, MailDraws, mail_storage_key, put_object,
  attachment_row, put_attachments, mail_row, create_mail, store_mailbox_mail_for_user,
}
use redbox.Mail.Reading.{total}
use redbox.Mail.Incoming.{sizes_of}

-- No attachment goes under a key.
abbrev pub Apart : (sv : Services) → String → MailDraws → ℕ → List MailboxAttachmentInput → Type 0
Apart sv key draws n [] = Unit
Apart sv key draws n (a ∷ rest) =
    ((attachment_row sv draws n a).storage_key ≢ key) × Apart sv key draws (n + 1) rest

module _ (sv : Services) where
  put_object-ok :
      (key body : String) (w : World sv)
      → (put_object sv key body w).0 ≡ ok tt
      → (sv.objects.put w.objects key body).1 ≡ true
  unfolding put_object
  put_object-ok key body w h = elim (Bool-cases (sv.objects.put w.objects key body).1) [
    | inl e ↦ e
    | inr e ↦ absurd (ground (arith, e, h))
  ]

  put_object_frame :
      (key body : String) (w : World sv)
      → (put_object sv key body w).1 ≡ record w { objects = (sv.objects.put w.objects key body).0 }
  unfolding put_object
  put_object_frame key body w = elim (Bool-cases (sv.objects.put w.objects key body).1) [
    | inl e ↦ ground (arith, e)
    | inr e ↦ ground (arith, e)
  ]

  -- A put that succeeds, with the world it leaves.
  put_object_runs :
      (key body : String) (w : World sv)
      → (sv.objects.put w.objects key body).1 ≡ true
      → put_object sv key body w
        ≡ (ok tt, record w { objects = (sv.objects.put w.objects key body).0 })
  unfolding put_object
  put_object_runs key body w e = ground (arith, e)

  put_object_fails :
      (key body : String) (w : World sv)
      → (sv.objects.put w.objects key body).1 ≡ false
      → put_object sv key body w
        ≡ (err fault, record w { objects = (sv.objects.put w.objects key body).0 })
  unfolding put_object
  put_object_fails key body w e = ground (arith, e)

  module _ (draws : MailDraws) where
    -- The loop over the attachments changes the objects alone, keeps an object apart from them, and
    -- its rows have the attachments' sizes.
    pub record Put (n : ℕ) (attachments : List MailboxAttachmentInput) (rows : List MailAttachment)
        (w w' : World sv) : Type 0 where
      pub frame : w' ≡ record w { objects = w'.objects }
      pub sizes : total (λ a. a.size) rows ≡ sizes_of attachments
      pub kept :
          (key : String)
          → Apart sv key draws n attachments
          → sv.objects.stored w'.objects key ≡ sv.objects.stored w.objects key

    put_attachments-Put :
        (n : ℕ) (attachments : List MailboxAttachmentInput) (rows : List MailAttachment)
        (w : World sv)
        → (put_attachments sv draws n attachments w).0 ≡ ok rows
        → Put n attachments rows w (put_attachments sv draws n attachments w).1
    unfolding put_attachments
    put_attachments-Put n [] rows w h = record {
      frame = refl;
      sizes = ground (arith, h);
      kept = λ key apart. refl;
    }
    put_attachments-Put n (a ∷ rest) rows w h =
        let key = (attachment_row sv draws n a).storage_key in
        let body = sv.crypto.encrypt draws.mail_key draws.mail_iv a.content in
        let w1 : World sv = record w { objects = (sv.objects.put w.objects key body).0 } in
        elim (Bool-cases (sv.objects.put w.objects key body).1) [
          | inr e ↦ absurd (ground (arith, h, put_object_fails key body w e))
          | inl e ↦ elim (Result-cases (put_attachments sv draws (n + 1) rest w1).0) [
            | inr (x, f) ↦ absurd (ground (arith, h, f, put_object_runs key body w e))
            | inl (others, f) ↦
                let p = put_attachments-Put (n + 1) rest others w1 f in
                let last : (put_attachments sv draws n (a ∷ rest) w).1
                    ≡ (put_attachments sv draws (n + 1) rest w1).1 =
                  ground (arith, f, put_object_runs key body w e) in
                let same : rows ≡ attachment_row sv draws n a ∷ others =
                  ground (arith, h, f, put_object_runs key body w e) in
                subst (Put n (a ∷ rest) rows w) (sym last) (record {
                  frame = p.frame;
                  sizes = ap (total (λ b. b.size)) same ∙ ground (arith, p.sizes);
                  kept = λ other apart.
                      p.kept other apart.1
                      ∙ sv.objects.stored-put w.objects key body other e
                      ∙ rw (differ key other apart.0) refl;
                })
          ]
        ]

    -- A mail is stored: one row, and the objects.
    pub record StoredMail (user : User) (input : StoredMailboxMailInput) (mail : Mail)
        (w w' : World sv) : Type 0 where
      pub encrypted : String
      pub attachments : List MailAttachment
      pub wrapped : sv.rsa.public_encrypt user.public_key draws.mail_key ≡ some encrypted
      pub row : mail ≡ mail_row sv user.id input draws attachments encrypted
      pub frame : w' ≡ record w { objects = w'.objects; mails = sv.mails.create w.mails mail }
      pub sizes : total (λ a. a.size) attachments ≡ sizes_of input.attachments
      pub content :
          Apart sv (mail_storage_key draws.uuid) draws 0 input.attachments
          → sv.objects.stored w'.objects (mail_storage_key draws.uuid)
            ≡ some (sv.crypto.encrypt draws.mail_key draws.mail_iv input.content)

    pub store_mailbox_mail_for_user-StoredMail :
        (user : User) (input : StoredMailboxMailInput) (mail : Mail) (w : World sv)
        → (store_mailbox_mail_for_user sv user input draws w).0 ≡ ok mail
        → StoredMail user input mail w (store_mailbox_mail_for_user sv user input draws w).1
    unfolding store_mailbox_mail_for_user
    store_mailbox_mail_for_user-StoredMail user input mail w h =
        let key = mail_storage_key draws.uuid in
        let body = sv.crypto.encrypt draws.mail_key draws.mail_iv input.content in
        let w1 : World sv = record w { objects = (sv.objects.put w.objects key body).0 } in
        elim (Bool-cases (sv.objects.put w.objects key body).1) [
          | inr e ↦ absurd (ground (arith, h, put_object_fails key body w e))
          | inl e ↦ elim (Result-cases (put_attachments sv draws 0 input.attachments w1).0) [
            | inr (x, f) ↦ absurd (ground (arith, h, f, put_object_runs key body w e))
            | inl (rows, f) ↦
                let w2 = (put_attachments sv draws 0 input.attachments w1).1 in
                let p = put_attachments-Put 0 input.attachments rows w1 f in
                elim (Option-cases (sv.rsa.public_encrypt user.public_key draws.mail_key)) [
                  | inl g ↦ absurd (ground (arith, h, f, g, put_object_runs key body w e))
                  | inr (encrypted, g) ↦
                      let row = mail_row sv user.id input draws rows encrypted in
                      let same : mail ≡ row =
                        ground (arith, h, f, g, put_object_runs key body w e) in
                      let last : (store_mailbox_mail_for_user sv user input draws w).1
                          ≡ create_mail sv row w2 =
                        ground (arith, f, g, put_object_runs key body w e) in
                      subst (StoredMail user input mail w) (sym last) (record {
                        encrypted = encrypted;
                        attachments = rows;
                        wrapped = g;
                        row = same;
                        frame =
                            ap (create_mail sv row) p.frame
                            ∙ ap
                                (λ m. record w {
                                  objects = w2.objects;
                                  mails = sv.mails.create w.mails m;
                                })
                                (sym same);
                        sizes = p.sizes;
                        content = λ apart.
                            p.kept key apart
                            ∙ (sv.objects.stored-put w.objects key body key e
                                ∙ rw (===_refl key) refl);
                      })
                ]
          ]
        ]
