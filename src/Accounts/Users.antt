-- ===== src/Accounts/Users.antt =====
-- users.service.ts. Values that the source draws are arguments: `now` for `new Date()`, `uuid` for
-- the session key of `randomUUID()`.
use redbox.Prelude.{
  ℕ, String, Bool, true, false, ◌&&◌, List, [], ◌∷◌, ◌++◌, map, Option, none, some, ◌===◌,
  if◌then◌else◌, leb, is_positive, Exec, bad_request, not_found, throw, gets, modify, ◌>>=◌,
}
use redbox.Database.{find_first, find_many}
use redbox.Prelude.Text.{is_blank}
use redbox.Accounts.State.{
  UserStatus, active, deleted, RestrictionType, ActorType, system, status_eq, type_eq, User,
  DeletionRequest, Restriction, InviteCode, MailRow, Services, World, master_key_key, latest,
}

-- `is_none(x)`: the filter `x: null`.
abbrev pub is_null : Option ℕ → Bool
is_null none = true
is_null (some t) = false

-- The deletion requests that are neither cancelled nor processed, and the open restrictions.
abbrev pub is_active_request : String → DeletionRequest → Bool
is_active_request user_id r =
    r.user_id === user_id && is_null r.cancelled_at && is_null r.processed_at

abbrev pub is_open_restriction : String → Restriction → Bool
is_open_restriction user_id r = r.user_id === user_id && is_null r.resolved_at

abbrev pub owns_code : String → InviteCode → Bool
owns_code user_id c = elim c.user_id [ none ↦ false | some o ↦ o === user_id ]

-- `expiresAt: { lte: now }`, false on null.
abbrev pub expired_at : Option ℕ → ℕ → Bool
expired_at none now = false
expired_at (some t) now = leb t now

-- What `reactivateUser` is told about the audit log.
pub record AuditOptions : Type 0 where
  pub actor_type : ActorType
  pub admin_user_id : Option String
  pub action : String
  pub reason : Option String

abbrev pub deletion_processed : AuditOptions
deletion_processed = record {
  actor_type = system;
  admin_user_id = none;
  action = "user_deletion_processed";
  reason = none;
}

module _ (sv : Services) where
  abbrev pub user_of : String → World sv → Option User
  user_of user_id w = find_first sv.users w.users (λ u. u.id === user_id)

  -- `prisma.user.update({ where: { id } })` of a row that is there.
  abbrev pub update_user : String → (User → User) → World sv → World sv
  update_user user_id f w = record w {
    users = sv.users.update_many w.users (λ u. u.id === user_id) f;
  }

  unfoldable pub get_active_deletion_request : String → World sv → Option DeletionRequest
  get_active_deletion_request user_id w =
      latest (λ r. r.requested_at)
        (find_many sv.deletion_requests w.deletion_requests (is_active_request user_id))

  unfoldable pub get_active_restriction : String → RestrictionType → World sv → Option Restriction
  get_active_restriction user_id kind w =
      latest (λ r. r.created_at)
        (find_many sv.restrictions w.restrictions
          (λ r. is_open_restriction user_id r && type_eq r.kind kind))

  abbrev pub drop_master_key : String → World sv → World sv
  drop_master_key user_id w = record w {
    master_keys = sv.texts.del w.master_keys (master_key_key user_id);
  }

  unfoldable pub set_invite_codes_validity : String → Bool → World sv → World sv
  set_invite_codes_validity user_id is_valid w = record w {
    invite_codes =
        sv.invite_codes.update_many w.invite_codes (λ c. owns_code user_id c && is_positive c.usage)
          (λ c. record c { is_valid = is_valid });
  }

  unfoldable pub resolve_open_restrictions : String → ℕ → World sv → World sv
  resolve_open_restrictions user_id now w = record w {
    restrictions =
        sv.restrictions.update_many w.restrictions (is_open_restriction user_id)
          (λ r. record r { resolved_at = some now });
  }

  unfoldable pub cancel_active_deletion_requests : String → ℕ → World sv → World sv
  cancel_active_deletion_requests user_id now w = record w {
    deletion_requests =
        sv.deletion_requests.update_many w.deletion_requests (is_active_request user_id)
          (λ r. record r { cancelled_at = some now });
  }

  abbrev pub create_audit_log :
      AuditOptions → String → UserStatus → UserStatus → World sv → World sv
  create_audit_log o user_id previous next w = record w {
    audit_logs = sv.audit_logs.create w.audit_logs (record {
      actor_type = o.actor_type;
      admin_user_id = o.admin_user_id;
      target_user_id = user_id;
      action = o.action;
      previous_status = some previous;
      new_status = some next;
      reason = o.reason;
    });
  }

  -- The transaction of `reactivateUser`, and the Redis call after it.
  unfoldable pub reactivated : String → AuditOptions → UserStatus → ℕ → String → World sv → World sv
  reactivated user_id o previous now uuid w = drop_master_key user_id (
      create_audit_log o user_id previous active (
        set_invite_codes_validity user_id true (
          update_user user_id (λ u. record u { status = active; session_key = uuid })
            (cancel_active_deletion_requests user_id now
              (resolve_open_restrictions user_id now w)))))

  unfoldable pub reactivate_user : String → AuditOptions → ℕ → String → Exec (World sv) (Unit {0})
  reactivate_user user_id o now uuid = do
    found ← gets (user_of user_id)
    elim found [
      | none ↦ throw (not_found "User not found")
      | some u ↦
          if status_eq u.status deleted
          then throw (bad_request "Deleted users cannot be reactivated")
          else modify (reactivated user_id o u.status now uuid)
    ]

  -- `deleteS3Objects`: blank keys are skipped, failures ignored.
  unfoldable pub delete_s3_objects : List String → sv.storage.State → sv.storage.State
  unfolding is_blank
  delete_s3_objects [] s = s
  delete_s3_objects (key ∷ keys) s =
      delete_s3_objects keys (if is_blank key then s else (sv.storage.delete_object s key).0)

  abbrev pub mail_keys : List MailRow → List String
  mail_keys [] = []
  mail_keys (m ∷ ms) = (m.storage_key ∷ m.attachment_keys) ++ mail_keys ms

  -- The rows of the user in the six tables.
  unfoldable pub delete_owned : String → World sv → World sv
  delete_owned user_id w = record w {
    blocked_senders = sv.owned.delete_many w.blocked_senders (λ r. r.user_id === user_id);
    links = sv.owned.delete_many w.links (λ r. r.user_id === user_id);
    bins = sv.owned.delete_many w.bins (λ r. r.user_id === user_id);
    mails = sv.mails.delete_many w.mails (λ r. r.user_id === user_id);
    files = sv.files.delete_many w.files (λ r. r.user_id === user_id);
    invite_codes = sv.invite_codes.delete_many w.invite_codes (owns_code user_id);
  }

  abbrev pub delete_objects_of : String → World sv → World sv
  delete_objects_of user_id w = record w {
    file_storage =
        delete_s3_objects
          (map (λ f. f.storage_name) (find_many sv.files w.files (λ r. r.user_id === user_id)))
          w.file_storage;
    mail_storage =
        delete_s3_objects (mail_keys (find_many sv.mails w.mails (λ r. r.user_id === user_id)))
          w.mail_storage;
  }

  abbrev pub process_request : String → ℕ → World sv → World sv
  process_request request_id now w = record w {
    deletion_requests =
        sv.deletion_requests.update_many w.deletion_requests (λ r. r.id === request_id)
          (λ r. record r { processed_at = some now });
  }

  -- The request that the deletion carries out, or else all active ones are cancelled.
  abbrev pub settle_request : String → Option String → ℕ → World sv → World sv
  settle_request user_id none now w = cancel_active_deletion_requests user_id now w
  settle_request user_id (some request_id) now w = process_request request_id now w

  unfoldable pub delete_user_data_and_mark_deleted :
      String → AuditOptions → UserStatus → Option String → ℕ → String → World sv → World sv
  delete_user_data_and_mark_deleted user_id o previous request now uuid w =
      let cleared =
        resolve_open_restrictions user_id now
          (delete_owned user_id (delete_objects_of user_id w)) in
      drop_master_key user_id (
        create_audit_log o user_id previous deleted (
          update_user user_id
            (λ u. record u { status = deleted; issued_codes = 0; session_key = uuid })
            (settle_request user_id request now cleared)))

  unfoldable pub finalize_pending_deletion : String → String → ℕ → String → World sv → World sv
  finalize_pending_deletion user_id request_id now uuid w = elim (user_of user_id w) [
    | none ↦ w
    | some u ↦
        if status_eq u.status deleted
        then w
        else delete_user_data_and_mark_deleted user_id deletion_processed u.status (some request_id)
            now uuid w
  ]
