-- ===== src/Mail/Quota.antt =====
-- Incoming mail and the quota of the mailbox.
use redbox.Prelude.{
  ℕ, ◌+◌, ◌≤◌, String, ◌≡◌, refl, sym, ap, ◌∙◌, subst, Bool, true, false, List, [], ◌∷◌, ◌++◌,
  Option, none, some, arith, ltb, ◌===◌, keep, ok, Bool-cases, Option-cases, Result-cases, inl, inr,
  ===_refl,
}
use redbox.Prelude.Text.{includes}
use redbox.Accounts.State.{UserStatus, active, status_eq, User}
use redbox.Mail.State.{Mail, Services, World, mail_event, emit_to_user, byte_length}
use redbox.Mail.Aliases.{
  MailEnv, resolve_incoming_recipient_address, resolve_incoming_mailbox_username,
}
use redbox.Mail.Mailbox.{StoredMailboxMailInput, MailDraws, store_mailbox_mail_for_user}
use redbox.Mail.Reading.{
  total, attachments_size, get_user_mail_storage_used, get_mail_quota_limit_for_username,
}
use redbox.Mail.Incoming.{
  IncomingMailDto, ParsedMail, Outcome, ignored, success, sizes_of, Delivery, blocked_by,
  store_and_notify, deliver_within_quota, deliver_to_user, user_named, deliver_to_mailbox,
  delivery_of, process_incoming_mail, parsed_recipient,
}
use redbox.Mail.Storing.{StoredMail, store_mailbox_mail_for_user-StoredMail}

total-snoc :
    {A : Type 0} (f : A → ℕ) (p : A → Bool) (xs : List A) (x : A)
    → p x ≡ true
    → total f (keep p (xs ++ x ∷ [])) ≡ total f (keep p xs) + f x
total-snoc f p [] x h = ground (arith, h)
total-snoc f p (y ∷ ys) x h = elim (Bool-cases (p y)) [
  | inl e ↦ ground (arith, e, total-snoc f p ys x h)
  | inr e ↦ ground (arith, e, total-snoc f p ys x h)
]

is_active : (s : UserStatus) → status_eq s active ≡ true → s ≡ active
is_active active h = refl
is_active UserStatus.banned h = absurd (ground (arith, h))
is_active UserStatus.locked h = absurd (ground (arith, h))
is_active UserStatus.pending h = absurd (ground (arith, h))
is_active UserStatus.deleted h = absurd (ground (arith, h))

module _ (sv : Services) (env : MailEnv) (draws : MailDraws) where
  used_with :
      (user : User) (input : StoredMailboxMailInput) (mail : Mail) (w w' : World sv)
      → StoredMail sv draws user input mail w w'
      → get_user_mail_storage_used sv user.id w'
        ≡ get_user_mail_storage_used sv user.id w
          + (byte_length input.content + sizes_of input.attachments)
  unfolding get_user_mail_storage_used
  used_with user input mail w w' s =
      let own : Mail → Bool = λ m. m.user_id === user.id in
      let rows = sv.mails.rows-create w.mails mail in
      let owned : own mail ≡ true = ap (λ m. m.user_id === user.id) s.row ∙ ===_refl user.id in
      let contents =
        ap (λ r. total (λ m. m.content_size) (keep own r)) rows
        ∙ total-snoc (λ m. m.content_size) own (sv.mails.rows w.mails) mail owned in
      let files =
        ap (λ r. total attachments_size (keep own r)) rows
        ∙ total-snoc attachments_size own (sv.mails.rows w.mails) mail owned in
      let content : mail.content_size ≡ byte_length input.content =
        ap (λ m. m.content_size) s.row in
      let size : attachments_size mail ≡ sizes_of input.attachments =
        ap attachments_size s.row ∙ s.sizes in
      ap (get_user_mail_storage_used sv user.id) s.frame
      ∙ omega (arith, contents, files, content, size)

  -- One mail more for an active user who has not blocked its senders, within the user's quota.
  pub record Delivered (delivery : Delivery) (user : User) (mail_id : String) (w w' : World sv)
      : Type 0 where
    pub mail : Mail
    pub quota : ℕ
    pub id : mail.id ≡ mail_id
    pub owner : mail.user_id ≡ user.id
    pub mails : w'.mails ≡ sv.mails.create w.mails mail
    pub is_active : user.status ≡ active
    pub unblocked : blocked_by sv env user.id delivery.sender_emails w ≡ none
    pub limit : get_mail_quota_limit_for_username env user.username ≡ ok quota
    pub within : get_user_mail_storage_used sv user.id w' ≤ quota

  -- An ignored mail changes nothing; one that is accepted is delivered.
  pub data Handled (delivery : Delivery) (user : User) (w : World sv)
      : Outcome → World sv → Type 0 where
    nothing : (reason : String) → Handled delivery user w (ignored reason) w
    stored :
        {w' : World sv} (mail_id : String)
        → Delivered delivery user mail_id w w'
        → Handled delivery user w (success mail_id) w'

  store_and_notify-Handled :
      (delivery : Delivery) (user : User) (quota : ℕ) (o : Outcome) (w : World sv)
      → user.status ≡ active
      → blocked_by sv env user.id delivery.sender_emails w ≡ none
      → get_mail_quota_limit_for_username env user.username ≡ ok quota
      → get_user_mail_storage_used sv user.id w
          + (byte_length delivery.input.content + sizes_of delivery.input.attachments)
        ≤ quota
      → (store_and_notify sv env user delivery.input draws w).0 ≡ ok o
      → Handled delivery user w o (store_and_notify sv env user delivery.input draws w).1
  unfolding store_and_notify emit_to_user get_user_mail_storage_used
  store_and_notify-Handled delivery user quota o w a b l f h =
      let input = delivery.input in
      let w1 = (store_mailbox_mail_for_user sv user input draws w).1 in
      elim (Result-cases (store_mailbox_mail_for_user sv user input draws w).0) [
        | inr (x, e) ↦ absurd (ground (arith, h, e))
        | inl (mail, e) ↦
            let s = store_mailbox_mail_for_user-StoredMail sv draws user input mail w e in
            let w' : World sv =
              emit_to_user sv (mail_event user.id "mail.created" (mail.id ∷ []) "external") w1 in
            let last : store_and_notify sv env user input draws w ≡ (ok (success mail.id), w') =
              ground (arith, e) in
            let same : o ≡ success mail.id = ground (arith, h, last) in
            subst (λ v. Handled delivery user w o v) (sym (ap (λ r. r.1) last))
              (subst (λ q. Handled delivery user w q w') (sym same)
                (stored mail.id (record {
                  mail = mail;
                  quota = quota;
                  id = refl;
                  owner = ap (λ m. m.user_id) s.row;
                  mails = ap (λ v. v.mails) s.frame;
                  is_active = a;
                  unblocked = b;
                  limit = l;
                  within = let used = used_with user input mail w w1 s in omega (arith, f, used);
                })))
      ]

  deliver_to_user-Handled :
      (delivery : Delivery) (user : User) (o : Outcome) (w : World sv)
      → (deliver_to_user sv env user delivery draws w).0 ≡ ok o
      → Handled delivery user w o (deliver_to_user sv env user delivery draws w).1
  unfolding deliver_to_user deliver_within_quota
  deliver_to_user-Handled delivery user o w h =
      let r = deliver_to_user sv env user delivery draws w in
      let idle : (reason : String) → r ≡ (ok (ignored reason), w) → Handled delivery user w o r.1 =
        λ reason e.
          subst (λ v. Handled delivery user w o v) (sym (ap (λ x. x.1) e))
            (subst (λ q. Handled delivery user w q w)
              (sym (let same : o ≡ ignored reason = ground (arith, h, e) in same))
              (nothing reason)) in
      elim (Bool-cases (status_eq user.status active)) [
        | inr a ↦ idle "User account is not active" (ground (arith, a))
        | inl a ↦ elim (Option-cases (blocked_by sv env user.id delivery.sender_emails w)) [
          | inr (row, b) ↦ idle "Sender is blocked" (ground (arith, a, b))
          | inl b ↦ elim (Result-cases (get_mail_quota_limit_for_username env user.username)) [
            | inr (x, l) ↦ absurd (ground (arith, h, a, b, l))
            | inl (quota, l) ↦
                let needed =
                  get_user_mail_storage_used sv user.id w
                  + (byte_length delivery.input.content + sizes_of delivery.input.attachments) in
                elim (Bool-cases (ltb quota needed)) [
                  | inl f ↦ idle "Mailbox quota exceeded" (ground (arith, a, b, l, f))
                  | inr f ↦
                      let last : r ≡ store_and_notify sv env user delivery.input draws w =
                        ground (arith, a, b, l, f) in
                      subst (λ v. Handled delivery user w o v) (sym (ap (λ x. x.1) last))
                        (store_and_notify-Handled delivery user quota o w (is_active user.status a)
                          b l (ground (arith, f)) (sym (ap (λ x. x.0) last) ∙ h))
                ]
          ]
        ]
      ]

  module _ (simple_parser : String → Option ParsedMail) (dto : IncomingMailDto)
      (uuids : ℕ → String) where
    -- The same for a mail as it comes in: an ignored mail changes nothing. An accepted one is
    -- delivered to the active user whose name its addresses lead to.
    pub data Processed (w : World sv) : Outcome → World sv → Type 0 where
      nothing_done : (reason : String) → Processed w (ignored reason) w
      delivered :
          {w' : World sv} (mail_id : String) (parsed : ParsedMail) (clean_email username : String)
          (user : User)
          → simple_parser dto.raw ≡ some parsed
          → resolve_incoming_recipient_address env
              (parsed_recipient parsed.recipients ∷ some dto.recipient ∷ [])
            ≡ ok clean_email
          → resolve_incoming_mailbox_username env (some clean_email) ≡ ok username
          → includes b'*' username ≡ false
          → user_named sv env username w ≡ some user
          → Delivered (delivery_of sv env parsed dto clean_email uuids) user mail_id w w'
          → Processed w (success mail_id) w'

    processed :
        {w w' : World sv} {o : Outcome} (parsed : ParsedMail) (clean_email username : String)
        (user : User)
        → simple_parser dto.raw ≡ some parsed
        → resolve_incoming_recipient_address env
            (parsed_recipient parsed.recipients ∷ some dto.recipient ∷ [])
          ≡ ok clean_email
        → resolve_incoming_mailbox_username env (some clean_email) ≡ ok username
        → includes b'*' username ≡ false
        → user_named sv env username w ≡ some user
        → Handled (delivery_of sv env parsed dto clean_email uuids) user w o w'
        → Processed w o w'
    processed parsed clean_email username user a b c d e (nothing reason) = nothing_done reason
    processed parsed clean_email username user a b c d e (stored mail_id done) =
        delivered mail_id parsed clean_email username user a b c d e done

    -- When processIncomingMail answers that it ignored a mail, it changed nothing. When it answers
    -- success, the mailbox user that the recipient's address resolves to exists, is active and has
    -- blocked neither sender address, one mail was added, for this user, and the mailbox is within
    -- the user's quota.
    pub process_incoming_mail-Processed :
        (o : Outcome) (w : World sv)
        → (process_incoming_mail sv env simple_parser dto uuids draws w).0 ≡ ok o
        → Processed w o (process_incoming_mail sv env simple_parser dto uuids draws w).1
    unfolding process_incoming_mail deliver_to_mailbox
    process_incoming_mail-Processed o w h =
        let r = process_incoming_mail sv env simple_parser dto uuids draws w in
        let idle : (reason : String) → r ≡ (ok (ignored reason), w) → Processed w o r.1 =
          λ reason e.
            subst (λ v. Processed w o v) (sym (ap (λ x. x.1) e))
              (subst (λ q. Processed w q w)
                (sym (let same : o ≡ ignored reason = ground (arith, h, e) in same))
                (nothing_done reason)) in
        elim (Option-cases (simple_parser dto.raw)) [
          | inl a ↦ absurd (ground (arith, h, a))
          | inr (parsed, a) ↦
              elim (Result-cases (
                resolve_incoming_recipient_address env
                  (parsed_recipient parsed.recipients ∷ some dto.recipient ∷ []))) [
                    | inr (x, b) ↦ absurd (ground (arith, h, a, b))
                    | inl (clean_email, b) ↦
                        elim (Result-cases
                          (resolve_incoming_mailbox_username env (some clean_email))) [
                            | inr (x, c) ↦ absurd (ground (arith, h, a, b, c))
                            | inl (username, c) ↦ elim (Bool-cases (includes b'*' username)) [
                              | inl d ↦
                                  idle
                                    "Broadcast delivery is only supported for internal admin mail"
                                    (ground (arith, a, b, c, d))
                              | inr d ↦ elim (Option-cases (user_named sv env username w)) [
                                | inl e ↦ idle "User not found" (ground (arith, a, b, c, d, e))
                                | inr (user, e) ↦
                                    let delivery =
                                      delivery_of sv env parsed dto clean_email uuids in
                                    let last : r ≡ deliver_to_user sv env user delivery draws w =
                                      ground (arith, a, b, c, d, e) in
                                    let handled =
                                      deliver_to_user-Handled delivery user o w
                                        (sym (ap (λ x. x.0) last) ∙ h) in
                                    subst (λ v. Processed w o v) (sym (ap (λ x. x.1) last))
                                      (processed parsed clean_email username user a b c d e handled)
                              ]
                            ]
                          ]
                  ]
        ]
