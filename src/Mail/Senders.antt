-- ===== src/Mail/Senders.antt =====
-- Blocking senders: blockSender, getBlockedSenders, unblockSender and bulkUnblockSenders.
use redbox.Prelude.{
  ℕ, String, Bool, ◌&&◌, List, map, length, ◌===◌, ◌==◌, if◌then◌else◌, is_some, contains, Exec,
  not_found, pure, throw, gets, modify, ◌>>=◌, ◌>>◌,
}
use redbox.Prelude.Text.{trim}
use redbox.Database.{find_first, find_many}
use redbox.Accounts.AdminContent.{unique}
use redbox.Mail.Addresses.{to_lower_case}
use redbox.Mail.State.{BlockedSender, Services, World}

-- `email.toLowerCase().trim()`
unfoldable pub clean_address : String → String
unfolding to_lower_case trim
clean_address email = trim (to_lower_case email)

abbrev pub blocks : String → String → BlockedSender → Bool
blocks user_id email b = b.user_id === user_id && b.email === email

module _ (sv : Services) where
  -- `upsert` with an empty update.
  abbrev pub add_blocked : String → String → World sv → World sv
  add_blocked user_id email w =
      if is_some (find_first sv.blocked_senders w.blocked_senders (blocks user_id email))
      then w
      else record w {
        blocked_senders =
            sv.blocked_senders.create w.blocked_senders
              (record { user_id = user_id; email = email });
      }

  -- The blocked address.
  unfoldable pub block_sender : String → String → Exec (World sv) String
  unfolding clean_address
  block_sender user_id email_to_block = do
    modify (add_blocked user_id (clean_address email_to_block))
    pure (clean_address email_to_block)

  unfoldable pub get_blocked_senders : String → World sv → List BlockedSender
  get_blocked_senders user_id w =
      find_many sv.blocked_senders w.blocked_senders (λ b. b.user_id === user_id)

  unfoldable pub unblock_sender : String → String → Exec (World sv) String
  unfolding clean_address
  unblock_sender user_id email_to_unblock = do
    n ← gets (λ w. length (
        find_many sv.blocked_senders w.blocked_senders
          (blocks user_id (clean_address email_to_unblock))))
    modify (λ w. record w {
      blocked_senders =
          sv.blocked_senders.delete_many w.blocked_senders
            (blocks user_id (clean_address email_to_unblock));
    })
    if n == 0
        then throw (not_found "Blocked sender not found")
        else pure (clean_address email_to_unblock)

  -- The number of addresses, and of those that were blocked.
  unfoldable pub bulk_unblock_senders : String → List String → Exec (World sv) (ℕ × ℕ)
  unfolding clean_address unique
  bulk_unblock_senders user_id emails_to_unblock = do
    n ← gets (λ w. length (
        find_many sv.blocked_senders w.blocked_senders (λ b.
          b.user_id === user_id
          && contains b.email (unique (map clean_address emails_to_unblock)))))
    modify (λ w. record w {
      blocked_senders = sv.blocked_senders.delete_many w.blocked_senders (λ b.
          b.user_id === user_id && contains b.email (unique (map clean_address emails_to_unblock)));
    })
    pure (length (unique (map clean_address emails_to_unblock)), n)
