-- ===== src/Tests/Administration.antt =====
-- Administrators change and clear an account in memory.
use redbox.Prelude.{
  String, ◌≢◌, inl, inr, ◌≡◌, refl, sym, ◌∙◌, eq_iff, [], ◌∷◌, none, some, ok, if◌then◌else◌, ◌===◌,
}
use mathlib.Core.Bool.{false≢true}
use redbox.Redis.Memory.{put_set}
use redbox.Prelude.Text.{truthy}
use redbox.Accounts.State.{banned, deleted, User, World}
use redbox.Accounts.AdminContent.{
  clear_user_data, find_user_or_throw, create_content_audit_log, clear_user_content_records,
  clear_user_redis_data, abort_redis_backed_uploads, delete_redis_keys, delete_meta_keys,
  upload_meta_keys, DeletionCounts, RedisCleanup, count_user_content, get_active_upload_meta_keys,
  unique, get_active_upload_key, get_upload_meta_key, upload_meta_prefix, abort_ref,
  delete_snapshot,
}
use redbox.Accounts.AdminUsers.{UpdateAdminUserStatusDto, StatusDraws, update_user_status}
use redbox.Accounts.Steps.{
  status_step, start, next, SetsKey, SetKeys, Settled, Reach-Settled, StillDeleted,
  Reach-StillDeleted,
}
use redbox.Accounts.Cleared.{Emptied, clear_user_data-Emptied}
use redbox.Tests.Sessions.{services, crypto, jwt, alice, session}
use redbox.Tests.Sessions

abbrev world : World services
world = Sessions.start

abbrev ban_dto : UpdateAdminUserStatusDto
ban_dto = record { status = banned; reason = some "spam"; permanent = none; duration_days = some 3 }

abbrev draws : StatusDraws
draws = record { session_key = "s1"; restriction_id = "x" }

banned_keys :
    (key : String)
    → SetKeys services crypto jwt {w = world}
        (next start (status_step "admin" "u" ban_dto 0 draws))
        key
    → key ≢ alice.session_key
unfolding SetKeys SetsKey
banned_keys key (inl k) e = elim k [ ]
banned_keys key (inr k) e = false≢true ((eq_iff "s1" "s0").1 (sym k ∙ e))

Reach-Settled_example :
    Settled services crypto jwt alice session
      (update_user_status services "admin" "u" ban_dto 0 draws world).1
Reach-Settled_example =
    Reach-Settled services crypto jwt alice session
      (next start (status_step "admin" "u" ban_dto 0 draws)) refl refl banned_keys

abbrev gone : User
gone = record alice { status = deleted }

abbrev gone_world : World services
gone_world = record world { users = gone ∷ [] }

Reach-StillDeleted_example :
    StillDeleted services crypto jwt "u"
      (update_user_status services "admin" "u" ban_dto 0 draws gone_world).1
Reach-StillDeleted_example =
    Reach-StillDeleted services crypto jwt "u" gone
      (next start (status_step "admin" "u" ban_dto 0 draws)) refl refl

-- A user with a file and an upload that is open.
abbrev full_world : World services
full_world = record world {
  files = record { id = "f"; user_id = "u"; storage_name = "f.bin" } ∷ [];
  active_uploads = put_set (λ k. []) "upload:active:u" ("up" ∷ []);
  upload_metas = record {
    names = "upload:meta:u:up" ∷ [];
    value = λ k.
        if k === "upload:meta:u:up"
        then some (record { storage_key = some "k"; s3_upload_id = some "m" })
        else none;
  };
}

abbrev answer : DeletionCounts × RedisCleanup
answer = (
  record {
    deleted_uploads_count = 1;
    deleted_mails_count = 0;
    deleted_bins_count = 0;
    deleted_links_count = 0;
  },
  record { deleted_redis_keys_count = 2; aborted_active_uploads_count = 1 },
)

clear_ok : (clear_user_data services "admin" "u" none full_world).0 ≡ ok answer
unfolding clear_user_data find_user_or_throw create_content_audit_log clear_user_content_records
    clear_user_redis_data abort_redis_backed_uploads delete_redis_keys delete_meta_keys
    upload_meta_keys count_user_content get_active_upload_meta_keys unique delete_snapshot
    get_upload_meta_key get_active_upload_key upload_meta_prefix abort_ref truthy
clear_ok = refl

clear_user_data-Emptied_example :
    Emptied services "u" (clear_user_data services "admin" "u" none full_world).1
clear_user_data-Emptied_example =
    clear_user_data-Emptied services "u" "admin" none answer full_world clear_ok
