-- ===== src/Mail/Steps.antt =====
-- What users do with their own mailbox as steps, in any order, and what other users see of it.
use redbox.Prelude.{String, ◌≢◌, refl, Bool, true, List, some, none}
use redbox.Mail.State.{Services, World}
use redbox.Mail.Reading.{get_single_mail}
use redbox.Mail.Actions.{
  delete_mail, filed, move_mail, bulk_move_mails, set_read_status, bulk_delete_mails,
  bulk_archive_mails, bulk_set_read_status,
}
use redbox.Mail.Senders.{block_sender, unblock_sender, bulk_unblock_senders}
use redbox.Mail.Owners.{Keyed, Untouched, Untouched-refl, Untouched-trans}
use redbox.Mail.Isolation.{
  bulk_update-Untouched, move_mail-Untouched, set_read_status-Untouched, delete_mail-Untouched,
  get_single_mail-Untouched,
}
use redbox.Mail.SenderSteps.{
  bulk_delete_mails-Untouched, block_sender-Untouched, unblock_sender-Untouched,
  bulk_unblock_senders-Untouched,
}

module _ (sv : Services) (u : String) where
  -- One call of a user.
  pub data UserStep (w : World sv) : World sv → Type 0 where
    read_step : (mail_id : String) → UserStep w (get_single_mail sv u mail_id w).1
    delete_step : (mail_id : String) → UserStep w (delete_mail sv u mail_id w).1
    move_step : (mail_id folder : String) → UserStep w (move_mail sv u mail_id folder w).1
    bulk_move_step :
        (mail_ids : List String) (folder : String)
        → UserStep w (bulk_move_mails sv u mail_ids folder w).1
    status_step : (mail_id : String) (b : Bool) → UserStep w (set_read_status sv u mail_id b w).1
    bulk_delete_step : (mail_ids : List String) → UserStep w (bulk_delete_mails sv u mail_ids w).1
    bulk_archive_step : (mail_ids : List String) → UserStep w (bulk_archive_mails sv u mail_ids w).1
    bulk_status_step :
        (mail_ids : List String) (b : Bool) → UserStep w (bulk_set_read_status sv u mail_ids b w).1
    block_step : (email : String) → UserStep w (block_sender sv u email w).1
    unblock_step : (email : String) → UserStep w (unblock_sender sv u email w).1
    bulk_unblock_step : (emails : List String) → UserStep w (bulk_unblock_senders sv u emails w).1

  pub data UserRun (w : World sv) : World sv → Type 0 where
    idle : UserRun w w
    then_step : {w1 w2 : World sv} → UserRun w w1 → UserStep w1 w2 → UserRun w w2

  module _ (v : String) (other : u ≢ v) where
    UserStep-Untouched :
        {w w' : World sv} → UserStep w w' → Keyed (sv.mails.rows w.mails) → Untouched sv v w w'
    unfolding bulk_move_mails bulk_archive_mails bulk_set_read_status filed
    UserStep-Untouched {w} (read_step mail_id) k =
        get_single_mail-Untouched sv u v other mail_id w k
    UserStep-Untouched {w} (delete_step mail_id) k = delete_mail-Untouched sv u v other mail_id w k
    UserStep-Untouched {w} (move_step mail_id folder) k =
        move_mail-Untouched sv u v other mail_id folder w k
    UserStep-Untouched {w} (bulk_move_step mail_ids folder) k =
        bulk_update-Untouched sv u v other mail_ids (filed folder) (some folder) none w (λ m. refl)
          (λ m. refl)
    UserStep-Untouched {w} (status_step mail_id b) k =
        set_read_status-Untouched sv u v other mail_id b w k
    UserStep-Untouched {w} (bulk_delete_step mail_ids) k =
        bulk_delete_mails-Untouched sv u v other mail_ids w
    UserStep-Untouched {w} (bulk_archive_step mail_ids) k =
        bulk_update-Untouched sv u v other mail_ids (λ m. record m { is_archived = true })
          (some "archive") none w (λ m. refl) (λ m. refl)
    UserStep-Untouched {w} (bulk_status_step mail_ids b) k =
        bulk_update-Untouched sv u v other mail_ids (λ m. record m { is_read = b }) none (some b) w
          (λ m. refl) (λ m. refl)
    UserStep-Untouched {w} (block_step email) k = block_sender-Untouched sv u v other email w
    UserStep-Untouched {w} (unblock_step email) k = unblock_sender-Untouched sv u v other email w
    UserStep-Untouched {w} (bulk_unblock_step emails) k =
        bulk_unblock_senders-Untouched sv u v other emails w

    -- Whatever a user reads, deletes, moves, marks, blocks or unblocks, in any order and with any
    -- arguments, every other user's mails, blocked senders and events stay as they are, if a mail id
    -- has one owner to start with.
    pub UserRun-Untouched :
        {w w' : World sv} → UserRun w w' → Keyed (sv.mails.rows w.mails) → Untouched sv v w w'
    UserRun-Untouched {w} idle k = Untouched-refl sv v w
    UserRun-Untouched (then_step r s) k =
        let before = UserRun-Untouched r k in
        Untouched-trans sv v before (UserStep-Untouched s (before.keyed k))
