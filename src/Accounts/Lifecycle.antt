-- ===== src/Accounts/Lifecycle.antt =====
-- The public methods of users.service.ts, with the cron jobs.
use redbox.Prelude.{
  ℕ, ◌+◌, String, Bool, true, not, ◌&&◌, List, [], ◌∷◌, Option, none, some, ◌===◌, if◌then◌else◌,
  leb, is_some, pos, Exec, bad_request, template, unauthorized, forbidden, not_found, fault, pure,
  throw, gets, modify, ◌>>=◌, ◌>>◌,
}
use redbox.Database.{find_many}
use redbox.Accounts.State.{
  UserStatus, active, banned, locked, pending, deleted, ban, user, system, status_eq, type_eq, User,
  DeletionRequest, Restriction, InviteCode, Services, World,
}
use redbox.Accounts.Users.{
  AuditOptions, user_of, update_user, get_active_deletion_request, get_active_restriction,
  drop_master_key, create_audit_log, reactivate_user, finalize_pending_deletion, is_null,
  expired_at, owns_code,
}

-- The answer of `requestAccountDeletion`, and of `reactivatePendingAccount`.
pub record Pending : Type 0 where
  pub delete_after_at : ℕ

-- What a new row draws: its id, and for an invite code 16 hexadecimal digits in upper case.
pub record Drawn : Type 0 where
  pub id : String
  pub text : String

-- The audit log entries.
abbrev pub deletion_requested : AuditOptions
deletion_requested = record {
  actor_type = user;
  admin_user_id = none;
  action = "user_delete_requested";
  reason = none;
}

abbrev pub status_normalized : AuditOptions
status_normalized = record {
  actor_type = system;
  admin_user_id = none;
  action = "user_status_normalized";
  reason = some "Pending deletion request missing during login check";
}

abbrev pub deletion_cancelled : AuditOptions
deletion_cancelled = record {
  actor_type = user;
  admin_user_id = none;
  action = "user_delete_cancelled";
  reason = none;
}

abbrev pub ban_expired : AuditOptions
ban_expired = record {
  actor_type = system;
  admin_user_id = none;
  action = "user_status_auto_reactivated";
  reason = some "Temporary ban expired";
}

module _ (sv : Services) where
  -- The columns that `getProfile` selects are those of the row.
  unfoldable pub get_profile : String → World sv → Option User
  get_profile user_id w = user_of sv user_id w

  -- An update of a row that is not there is an exception.
  unfoldable pub update_avatar : String → String → Exec (World sv) (Unit {0})
  update_avatar user_id avatar = do
    found ← gets (user_of sv user_id)
    elim found [
      | none ↦ throw fault
      | some u ↦ modify (update_user sv user_id (λ u. record u { avatar = avatar }))
    ]

  abbrev pub create_invite : String → Drawn → World sv → World sv
  create_invite user_id drawn w =
      update_user sv user_id (λ u. record u { issued_codes = u.issued_codes + 1 })
        (record w {
          invite_codes = sv.invite_codes.create w.invite_codes (record {
            id = drawn.id;
            code = template ("RB-" ∷ drawn.text ∷ []);
            usage = pos 1;
            is_valid = true;
            user_id = some user_id;
          });
        })

  unfoldable pub generate_invite_code : String → Drawn → Exec (World sv) (Unit {0})
  generate_invite_code user_id drawn = do
    found ← gets (user_of sv user_id)
    elim found [
      | none ↦ throw (forbidden "User not found")
      | some u ↦
          if not (status_eq u.status active)
          then throw (forbidden "Only active users can generate invite codes")
          else if leb 2 u.issued_codes
          then throw (bad_request "Invite-Limit reached")
          else modify (create_invite user_id drawn)
    ]

  -- `getMyInvites`, unordered.
  unfoldable pub get_my_invites : String → World sv → List InviteCode
  get_my_invites user_id w = find_many sv.invite_codes w.invite_codes (owns_code user_id)

  abbrev pub enter_pending : String → UserStatus → ℕ → Drawn → World sv → World sv
  enter_pending user_id previous now drawn w = drop_master_key sv user_id (
      create_audit_log sv deletion_requested user_id previous pending
        (record (update_user sv user_id
          (λ u. record u { status = pending; session_key = drawn.text }) w) {
            deletion_requests = sv.deletion_requests.create w.deletion_requests (record {
              id = drawn.id;
              user_id = user_id;
              requested_at = now;
              delete_after_at = sv.dates.add_days now 7;
              cancelled_at = none;
              processed_at = none;
            });
          }))

  unfoldable pub request_account_deletion : String → String → ℕ → Drawn → Exec (World sv) Pending
  request_account_deletion user_id password now drawn = do
    found ← gets (user_of sv user_id)
    request ← gets (get_active_deletion_request sv user_id)
    elim found [
      | none ↦ throw (not_found "User not found")
      | some u ↦
          if not (sv.bcrypt_compare password u.password)
          then throw (unauthorized "Invalid password")
          else if status_eq u.status deleted
          then throw (bad_request "This account has already been deleted")
          else if is_some request
          then throw (bad_request "Account deletion has already been requested")
          else (do
            modify (enter_pending user_id u.status now drawn)
            pure (record { delete_after_at = sv.dates.add_days now 7 }))
    ]

  -- The rest of `preparePendingDeletionLogin` for a pending user.
  unfoldable pub prepare_request :
      String → Option DeletionRequest → ℕ → String → Exec (World sv) (Option DeletionRequest)
  prepare_request user_id none now uuid = do
    reactivate_user sv user_id status_normalized now uuid
    pure none
  prepare_request user_id (some request) now uuid =
      if leb request.delete_after_at now
      then modify (finalize_pending_deletion sv user_id request.id now uuid)
        >> throw (forbidden "This account has been deleted.")
      else pure (some request)

  unfoldable pub prepare_pending_deletion_login :
      String → ℕ → String → Exec (World sv) (Option DeletionRequest)
  prepare_pending_deletion_login user_id now uuid = do
    found ← gets (user_of sv user_id)
    request ← gets (get_active_deletion_request sv user_id)
    elim found [
      | none ↦ pure none
      | some u ↦
          if status_eq u.status pending then prepare_request user_id request now uuid else pure none
    ]

  -- The end of `reactivatePendingAccount` for a pending user.
  unfoldable pub reactivate_request :
      String → String → Option DeletionRequest → ℕ → String → Exec (World sv) (Unit {0})
  reactivate_request user_id request_id none now uuid =
      throw (bad_request "No active deletion request found")
  reactivate_request user_id request_id (some request) now uuid =
      if not (request.id === request_id)
      then throw (bad_request "No active deletion request found")
      else if leb request.delete_after_at now
      then modify (finalize_pending_deletion sv user_id request.id now uuid)
        >> throw (forbidden "This account has been deleted.")
      else reactivate_user sv user_id deletion_cancelled now uuid

  unfoldable pub reactivate_pending_account :
      String → String → ℕ → String → Exec (World sv) (Unit {0})
  reactivate_pending_account user_id request_id now uuid = do
    found ← gets (user_of sv user_id)
    request ← gets (get_active_deletion_request sv user_id)
    elim found [
      | none ↦ throw (not_found "User not found")
      | some u ↦ elim u.status [
        | deleted ↦ throw (bad_request "This account has already been deleted")
        | active ↦ pure tt
        | pending ↦ reactivate_request user_id request_id request now uuid
        | _ ↦ throw (bad_request "No active deletion request found")
      ]
    ]

  -- `assertUserCanLogin` for a banned user; the messages leave the reason and the date out.
  unfoldable pub assert_not_banned :
      String → Option Restriction → ℕ → String → Exec (World sv) (Unit {0})
  assert_not_banned user_id none now uuid = throw (forbidden "This user has been banned.")
  assert_not_banned user_id (some r) now uuid =
      if not r.is_permanent && expired_at r.expires_at now
      then reactivate_user sv user_id ban_expired now uuid
      else if r.is_permanent
      then throw (forbidden "This user has been permanently banned.")
      else if is_some r.expires_at
      then throw (forbidden "This user has been banned until a date.")
      else throw (forbidden "This user has been banned.")

  abbrev pub assert_not_pending : Option DeletionRequest → Exec (World sv) (Unit {0})
  assert_not_pending none = pure tt
  assert_not_pending (some request) = throw (forbidden "This account is pending deletion.")

  unfoldable pub assert_user_can_login : User → ℕ → String → Exec (World sv) (Unit {0})
  assert_user_can_login u now uuid = elim u.status [
    | active ↦ pure tt
    | deleted ↦ throw (forbidden "This account has been deleted.")
    | pending ↦ prepare_pending_deletion_login u.id now uuid >>= assert_not_pending
    | locked ↦ throw (forbidden "This user has been locked.")
    | banned ↦ do
      restriction ← gets (get_active_restriction sv u.id ban)
      assert_not_banned u.id restriction now uuid
  ]

  -- The cron jobs; `uuids` has a session key for each row.
  abbrev pub is_due : ℕ → DeletionRequest → Bool
  is_due now r = is_null r.cancelled_at && is_null r.processed_at && leb r.delete_after_at now

  unfoldable pub finalize_all : List DeletionRequest → ℕ → (String → String) → World sv → World sv
  finalize_all [] now uuids w = w
  finalize_all (r ∷ rs) now uuids w =
      finalize_all rs now uuids (finalize_pending_deletion sv r.user_id r.id now (uuids r.id) w)

  unfoldable pub process_pending_deletion_requests : ℕ → (String → String) → World sv → World sv
  process_pending_deletion_requests now uuids w =
      finalize_all (find_many sv.deletion_requests w.deletion_requests (is_due now)) now uuids w

  abbrev pub is_expired_ban : ℕ → Restriction → Bool
  is_expired_ban now r =
      type_eq r.kind ban
      && is_null r.resolved_at
      && not r.is_permanent
      && expired_at r.expires_at now

  unfoldable pub reactivate_all :
      List Restriction → ℕ → (String → String) → Exec (World sv) (Unit {0})
  reactivate_all [] now uuids = pure tt
  reactivate_all (r ∷ rs) now uuids = do
    reactivate_user sv r.user_id ban_expired now (uuids r.id)
    reactivate_all rs now uuids

  unfoldable pub process_expired_restrictions : ℕ → (String → String) → Exec (World sv) (Unit {0})
  process_expired_restrictions now uuids w =
      reactivate_all (find_many sv.restrictions w.restrictions (is_expired_ban now)) now uuids w
