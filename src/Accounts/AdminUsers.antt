-- ===== src/Accounts/AdminUsers.antt =====
-- The public methods of admin/users/admin-users.service.ts that change a user. Its private copies of
-- methods of users.service.ts (reactivateUser, setInviteCodesValidity, resolveOpenRestrictions,
-- cancelActiveDeletionRequests, createAuditLog) have the code of those and are those of `Users`.
use redbox.Prelude.{
  ℕ, String, Bool, false, not, ◌&&◌, Option, none, some, ◌===◌, if◌then◌else◌, is_some, or_else,
  Exec, bad_request, conflict, pure, throw, gets, modify, ◌>>=◌, ◌>>◌, ◌==◌,
}
use redbox.Prelude.Text.{truthy}
use redbox.Database.{find_first}
use redbox.Accounts.State.{
  UserStatus, active, banned, locked, pending, deleted, RestrictionType, lock, ban, admin,
  status_eq, User, Restriction, Services, World,
}
use redbox.Accounts.Users.{
  AuditOptions, update_user, drop_master_key, set_invite_codes_validity, resolve_open_restrictions,
  cancel_active_deletion_requests, create_audit_log, reactivate_user,
}
use redbox.Accounts.AdminContent.{find_user_or_throw, delete_user_data_and_mark_deleted}

-- `pending` passes the type of toUserStatus but not the validation of the request.
pub record UpdateAdminUserStatusDto : Type 0 where
  pub status : UserStatus
  pub reason : Option String
  pub permanent : Option Bool
  pub duration_days : Option ℕ

-- What an update draws: a session key and the id of a restriction.
pub record StatusDraws : Type 0 where
  pub session_key : String
  pub restriction_id : String

abbrev pub by_admin : String → String → Option String → AuditOptions
by_admin admin_user_id action reason = record {
  actor_type = admin;
  admin_user_id = some admin_user_id;
  action = action;
  reason = reason;
}

-- `dto.permanent` and `!dto.durationDays`.
abbrev pub is_permanent : UpdateAdminUserStatusDto → Bool
is_permanent dto = or_else dto.permanent false

abbrev pub days_of : UpdateAdminUserStatusDto → Option ℕ
days_of dto = elim dto.duration_days [ none ↦ none | some n ↦ if n == 0 then none else some n ]

module _ (sv : Services) where
  unfoldable pub get_user_by_id : String → Exec (World sv) User
  unfolding find_user_or_throw
  get_user_by_id user_id = find_user_or_throw sv user_id

  unfoldable pub rotate_user_session : String → String → World sv → World sv
  rotate_user_session user_id uuid w =
      drop_master_key sv user_id (update_user sv user_id (λ u. record u { session_key = uuid }) w)

  -- The transaction that locks or bans, and the Redis call after it.
  unfoldable pub restrict :
      String
      → AuditOptions
      → UserStatus
      → UserStatus
      → Restriction
      → ℕ
      → String
      → World sv
      → World sv
  restrict user_id o previous next restriction now uuid w =
      let freed =
        resolve_open_restrictions sv user_id now
          (cancel_active_deletion_requests sv user_id now w) in
      let updated =
        update_user sv user_id (λ u. record u { status = next; session_key = uuid }) freed in
      drop_master_key sv user_id (
        create_audit_log sv o user_id previous next (
          set_invite_codes_validity sv user_id false (record updated {
            restrictions = sv.restrictions.create updated.restrictions restriction;
          })))

  abbrev pub new_restriction :
      String → RestrictionType → String → Bool → Option ℕ → ℕ → StatusDraws → Restriction
  new_restriction user_id kind reason permanent expires_at now draws = record {
    id = draws.restriction_id;
    user_id = user_id;
    kind = kind;
    reason = reason;
    is_permanent = permanent;
    expires_at = expires_at;
    created_at = now;
    resolved_at = none;
  }

  unfoldable pub lock_user :
      String → String → UserStatus → Option String → ℕ → StatusDraws → Exec (World sv) (Unit {0})
  lock_user admin_user_id user_id previous none now draws =
      throw (bad_request "Reason is required when locking a user")
  lock_user admin_user_id user_id previous (some reason) now draws = modify (
      restrict user_id (by_admin admin_user_id "user_status_changed" (some reason)) previous locked
        (new_restriction user_id lock reason false none now draws) now draws.session_key)

  abbrev pub ban_expiry : Bool → Option ℕ → ℕ → Option ℕ
  ban_expiry permanent none now = none
  ban_expiry permanent (some n) now = if permanent then none else some (sv.dates.add_days now n)

  unfoldable pub ban_user :
      String
      → String
      → UserStatus
      → Option String
      → Bool
      → Option ℕ
      → ℕ
      → StatusDraws
      → Exec (World sv) (Unit {0})
  ban_user admin_user_id user_id previous none permanent days now draws =
      throw (bad_request "Reason is required when banning a user")
  ban_user admin_user_id user_id previous (some reason) permanent days now draws =
      if not permanent && not (is_some days)
      then throw (bad_request "Duration days are required for temporary bans")
      else modify (
          restrict user_id (by_admin admin_user_id "user_status_changed" (some reason)) previous
            banned
            (new_restriction user_id ban reason permanent (ban_expiry permanent days now) now draws)
            now draws.session_key)

  unfoldable pub delete_user :
      String → String → UserStatus → Option String → ℕ → StatusDraws → Exec (World sv) (Unit {0})
  delete_user admin_user_id user_id previous none now draws =
      throw (bad_request "Reason is required when deleting a user")
  delete_user admin_user_id user_id previous (some reason) now draws = modify (
      delete_user_data_and_mark_deleted sv user_id
        (by_admin admin_user_id "user_status_changed" (some reason)) previous none now
        draws.session_key)

  -- The branch for the status that was asked for.
  unfoldable pub enter_status :
      String
      → String
      → UserStatus
      → UpdateAdminUserStatusDto
      → ℕ
      → StatusDraws
      → Exec (World sv) (Unit {0})
  enter_status admin_user_id user_id previous dto now draws = elim dto.status [
    | active ↦
        reactivate_user sv user_id
          (by_admin admin_user_id "user_status_changed"
            (some (or_else (truthy dto.reason) "Status set to active")))
          now draws.session_key
    | locked ↦ lock_user admin_user_id user_id previous (truthy dto.reason) now draws
    | banned ↦
        ban_user admin_user_id user_id previous (truthy dto.reason) (is_permanent dto) (days_of dto)
          now draws
    | deleted ↦ delete_user admin_user_id user_id previous (truthy dto.reason) now draws
    | pending ↦ pure tt
  ]

  unfoldable pub update_user_status :
      String → String → UpdateAdminUserStatusDto → ℕ → StatusDraws → Exec (World sv) User
  update_user_status admin_user_id user_id dto now draws = do
    u ← find_user_or_throw sv user_id
    if status_eq u.status deleted && not (status_eq dto.status deleted)
        then throw (bad_request "Deleted users cannot be reactivated")
        else enter_status admin_user_id user_id u.status dto now draws
    get_user_by_id user_id

  unfoldable pub force_logout_user : String → String → Option String → String → Exec (World sv) User
  force_logout_user admin_user_id user_id reason uuid = do
    u ← find_user_or_throw sv user_id
    modify (rotate_user_session user_id uuid)
    modify (
        create_audit_log sv (by_admin admin_user_id "user_force_logout" reason) user_id u.status
          u.status)
    pure u

  -- The unique index on `username`: another row has the name.
  abbrev pub is_taken : String → String → World sv → Bool
  is_taken username user_id w = is_some (
      find_first sv.users w.users (λ u. sv.same_text u.username username && not (u.id === user_id)))

  abbrev pub rename : String → String → String → World sv → World sv
  rename user_id username uuid =
      update_user sv user_id (λ u. record u { username = username; session_key = uuid })

  unfoldable pub change_username :
      String → String → String → Option String → String → Exec (World sv) User
  change_username admin_user_id user_id new_username reason uuid = do
    u ← find_user_or_throw sv user_id
    taken ← gets (is_taken new_username user_id)
    if taken then throw (conflict "Username already taken") else (do
      modify (rename user_id new_username uuid)
      modify (
          create_audit_log sv (by_admin admin_user_id "user_username_changed" reason) user_id
            u.status u.status)
      modify (drop_master_key sv user_id)
      get_user_by_id user_id)
