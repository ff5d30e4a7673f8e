-- ===== src/Tests/Deletions.antt =====
-- A deletion request in memory.
use redbox.Prelude.{◌≡◌, ◌<◌, ◌≤◌, refl, arith, ok, err, forbidden}
use redbox.Dates.{utc}
use redbox.Accounts.State.{World}
use redbox.Accounts.Users.{get_active_deletion_request}
use redbox.Accounts.Lifecycle.{
  Pending, Drawn, request_account_deletion, prepare_pending_deletion_login,
  reactivate_pending_account,
}
use redbox.Accounts.Sessions.{HasActive}
use redbox.Accounts.Deletion.{
  Waiting, requested, HasDeleted, request_account_deletion-Waiting,
  prepare_pending_deletion_login-due, reactivate_pending_account-HasActive,
}
use redbox.Tests.Sessions.{services, start}

abbrev drawn : Drawn
drawn = record { id = "r"; text = "s1" }

abbrev answer : Pending
answer = record { delete_after_at = services.dates.add_days 1000 7 }

request_ok : (request_account_deletion services "u" "pw" 1000 drawn start).0 ≡ ok answer
unfolding request_account_deletion get_active_deletion_request
request_ok = refl

abbrev waiting : World services
waiting = (request_account_deletion services "u" "pw" 1000 drawn start).1

request_account_deletion-Waiting_example :
    Waiting services "u" (requested services "u" 1000 drawn) waiting
request_account_deletion-Waiting_example =
    request_account_deletion-Waiting services "u" "pw" 1000 drawn answer start request_ok

waiting-Waiting : Waiting services "u" (requested services "u" 1000 drawn) waiting
waiting-Waiting =
    request_account_deletion-Waiting services "u" "pw" 1000 drawn answer start request_ok

soon : 2000 < (requested services "u" 1000 drawn).delete_after_at
unfolding utc
soon = omega arith

over : (requested services "u" 1000 drawn).delete_after_at ≤ 604801000
unfolding utc
over = omega arith

prepare_pending_deletion_login-due_example :
    ((prepare_pending_deletion_login services "u" 604801000 "s2" waiting).0
      ≡ err (forbidden "This account has been deleted."))
    × HasDeleted services "u" (prepare_pending_deletion_login services "u" 604801000 "s2" waiting).1
prepare_pending_deletion_login-due_example =
    prepare_pending_deletion_login-due services "u" (requested services "u" 1000 drawn) 604801000
      "s2" waiting waiting-Waiting over

reactivate_pending_account-HasActive_example :
    ((reactivate_pending_account services "u" "r" 2000 "s2" waiting).0 ≡ ok tt)
    × HasActive services "u" (reactivate_pending_account services "u" "r" 2000 "s2" waiting).1
reactivate_pending_account-HasActive_example =
    reactivate_pending_account-HasActive services "u" (requested services "u" 1000 drawn) 2000 "s2"
      waiting waiting-Waiting soon
