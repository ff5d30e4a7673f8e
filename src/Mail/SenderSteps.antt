-- ===== src/Mail/SenderSteps.antt =====
-- Bulk deletion and the blocking of senders, seen by another user.
use redbox.Prelude.{
  String, ◌≡◌, refl, sym, ap, ◌∙◌, ◌≢◌, subst, Bool, true, ◌&&◌, List, some, arith, ◌===◌, ◌==◌,
  keep, is_some, contains, map, length, Bool-cases, inl, inr, eq_iff,
}
use redbox.Database.{find_first, find_many}
use redbox.Accounts.Rows.{differ}
use redbox.Accounts.AdminContent.{unique}
use redbox.Mail.State.{BlockedSender, MailEvent, Services, World, mail_event}
use redbox.Mail.Mailbox.{delete_storage_objects}
use redbox.Mail.Actions.{
  is_among, all_object_keys, count_among, delete_mail_rows, bulk_delete_mails,
}
use redbox.Mail.Senders.{clean_address, blocks, block_sender, unblock_sender, bulk_unblock_senders}
use redbox.Mail.Owners.{
  keep-snoc, keep-without, Untouched, Untouched-same, Untouched-trans, Untouched-emit,
  Untouched-delete, Untouched-objects, Within-delete_storage_objects,
}
use redbox.Mail.Isolation.{among-Within}

module _ (sv : Services) (u v : String) (other : u ≢ v) where
  pub bulk_delete_mails-Untouched :
      (mail_ids : List String) (w : World sv)
      → Untouched sv v w (bulk_delete_mails sv u mail_ids w).1
  unfolding bulk_delete_mails
  bulk_delete_mails-Untouched mail_ids w =
      let p = is_among u mail_ids in
      let keys = all_object_keys (find_many sv.mails w.mails p) in
      let w1 = delete_storage_objects sv keys w in
      let w2 = delete_mail_rows sv u mail_ids w1 in
      let event : MailEvent = record (mail_event u "mail.bulk-deleted" mail_ids "user") {
        count = some (count_among sv u mail_ids w1);
      } in
      Untouched-trans sv v (Untouched-objects sv v keys w) (
        Untouched-trans sv v
          (Untouched-delete sv v u other p (delete_mail_rows sv u mail_ids w1).deliveries w1 (
            Within-delete_storage_objects sv v keys p u w
              (among-Within sv u v other mail_ids (sv.mails.rows w.mails))))
          (Untouched-emit sv v u other event w2 refl))

  -- Blocked senders of a user come and go.
  blocked_gone :
      (p : BlockedSender → Bool) (w : World sv)
      → ((b : BlockedSender) → p b ≡ true → b.user_id ≡ u)
      → Untouched sv v w
          (record w { blocked_senders = sv.blocked_senders.delete_many w.blocked_senders p })
  blocked_gone p w own = record {
    mails = refl;
    blocked_senders =
        ap (keep (λ b. b.user_id === v)) (sv.blocked_senders.rows-delete_many w.blocked_senders p)
        ∙ keep-without (λ b. b.user_id === v) p
            (λ b h. ap (λ x. x === v) (own b h) ∙ differ u v other)
            (sv.blocked_senders.rows w.blocked_senders);
    events = refl;
    keyed = λ k. k;
  }

  blocked_added :
      (email : String) (w : World sv)
      → Untouched sv v w (record w {
        blocked_senders =
            sv.blocked_senders.create w.blocked_senders (record { user_id = u; email = email });
      })
  blocked_added email w =
      let b : BlockedSender = record { user_id = u; email = email } in
      record {
        mails = refl;
        blocked_senders =
            ap (keep (λ x. x.user_id === v)) (sv.blocked_senders.rows-create w.blocked_senders b)
            ∙ keep-snoc (λ x. x.user_id === v) (sv.blocked_senders.rows w.blocked_senders) b
                (differ u v other);
        events = refl;
        keyed = λ k. k;
      }

  pub block_sender-Untouched :
      (email : String) (w : World sv) → Untouched sv v w (block_sender sv u email w).1
  unfolding block_sender
  block_sender-Untouched email w =
      let address = clean_address email in
      let t = (block_sender sv u email w).1 in
      elim (Bool-cases
        (is_some (find_first sv.blocked_senders w.blocked_senders (blocks u address)))) [
          | inl e ↦ Untouched-same sv v w t (ground (arith, e))
          | inr e ↦
              let row : BlockedSender = record { user_id = u; email = address } in
              let last : t
                  ≡ record w { blocked_senders = sv.blocked_senders.create w.blocked_senders row } =
                ground (arith, e) in
              subst (Untouched sv v w) (sym last) (blocked_added address w)
        ]

  pub unblock_sender-Untouched :
      (email : String) (w : World sv) → Untouched sv v w (unblock_sender sv u email w).1
  unfolding unblock_sender
  unblock_sender-Untouched email w =
      let p = blocks u (clean_address email) in
      let t = (unblock_sender sv u email w).1 in
      let w' : World sv = record w {
        blocked_senders = sv.blocked_senders.delete_many w.blocked_senders p;
      } in
      let last : t ≡ w' =
        elim (Bool-cases (length (find_many sv.blocked_senders w.blocked_senders p) == 0)) [
          | inl e ↦ ground (arith, e)
          | inr e ↦ ground (arith, e)
        ] in
      subst (Untouched sv v w) (sym last)
        (blocked_gone p w (λ b h. (eq_iff b.user_id u).0 (ground (arith, h))))

  pub bulk_unblock_senders-Untouched :
      (emails : List String) (w : World sv)
      → Untouched sv v w (bulk_unblock_senders sv u emails w).1
  unfolding bulk_unblock_senders
  bulk_unblock_senders-Untouched emails w =
      blocked_gone (λ b. b.user_id === u && contains b.email (unique (map clean_address emails))) w
        (λ b h. (eq_iff b.user_id u).0 (ground (arith, h)))
