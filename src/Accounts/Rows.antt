-- ===== src/Accounts/Rows.antt =====
-- What the operations on accounts leave in the row that a read by id finds.
use mathlib.Core.Option
use redbox.Prelude.{
  ℕ, String, false, ◌≢◌, ◌≡◌, refl, Bool, true, List, [], ◌∷◌, map, Option, none, some, arith,
  ◌===◌, if◌then◌else◌, find, Bool-cases, inl, inr, eq_iff, ◌∙◌, ap,
}
use redbox.Accounts.State.{UserStatus, active, deleted, User, Services, World}
use redbox.Accounts.Users.{
  AuditOptions, user_of, update_user, set_invite_codes_validity, resolve_open_restrictions,
  cancel_active_deletion_requests, reactivated, delete_owned, delete_user_data_and_mark_deleted,
  settle_request, delete_objects_of,
}

pub differ : (a b : String) → a ≢ b → (a === b) ≡ false
differ a b n = elim (Bool-cases (a === b)) [ inl e ↦ absurd (n ((eq_iff a b).0 e)) | inr e ↦ e ]

module _ {A : Type 0} (q : A → Bool) where
  pub find-map :
      (g : A → A)
      → ((a : A) → q (g a) ≡ q a)
      → (xs : List A) → find q (map g xs) ≡ Option.map g (find q xs)
  find-map g keeps [] = refl
  find-map g keeps (x ∷ xs) = elim (Bool-cases (q x)) [
    | inl e ↦ ground (arith, e, keeps x)
    | inr e ↦ ground (arith, e, keeps x, find-map g keeps xs)
  ]

  pub find_holds : (xs : List A) (a : A) → find q xs ≡ some a → q a ≡ true
  find_holds [] a h = absurd (ground arith)
  find_holds (x ∷ xs) a h = elim (Bool-cases (q x)) [
    | inl e ↦ ground (arith, e)
    | inr e ↦ find_holds xs a (ground (arith, e))
  ]

  pub find-update :
      (f : A → A)
      → ((a : A) → q (f a) ≡ q a)
      → (xs : List A) → find q (map (λ a. if q a then f a else a) xs) ≡ Option.map f (find q xs)
  find-update f keeps [] = refl
  find-update f keeps (x ∷ xs) = elim (Bool-cases (q x)) [
    | inl e ↦ ground (arith, e, keeps x)
    | inr e ↦ ground (arith, e, find-update f keeps xs)
  ]

abbrev pub reactivated_row : String → User → User
reactivated_row uuid u = record u { status = active; session_key = uuid }

abbrev pub deleted_row : String → User → User
deleted_row uuid u = record u { status = deleted; issued_codes = 0; session_key = uuid }

module _ (sv : Services) (user_id : String) where
  pub user_of_id : (u : User) (w : World sv) → user_of sv user_id w ≡ some u → u.id ≡ user_id
  user_of_id u w h =
      (eq_iff u.id user_id).0 (find_holds (λ v. v.id === user_id) (sv.users.rows w.users) u h)

  pub user_of-update_user :
      (f : User → User)
      → ((u : User) → (f u).id ≡ u.id)
      → (w : World sv)
      → user_of sv user_id (update_user sv user_id f w) ≡ Option.map f (user_of sv user_id w)
  user_of-update_user f keeps w =
      rw (sv.users.rows-update_many w.users (λ u. u.id === user_id) f)
        (find-update (λ u. u.id === user_id) f (λ u. rw (keeps u)) (sv.users.rows w.users))

  pub user_of-reactivated :
      (o : AuditOptions) (previous : UserStatus) (now : ℕ) (uuid : String) (w : World sv)
      → user_of sv user_id (reactivated sv user_id o previous now uuid w)
        ≡ Option.map (reactivated_row uuid) (user_of sv user_id w)
  unfolding reactivated set_invite_codes_validity resolve_open_restrictions
      cancel_active_deletion_requests
  user_of-reactivated o previous now uuid w = user_of-update_user _ (λ u. refl) w

  pub users-settle_request :
      (request : Option String) (now : ℕ) (w : World sv)
      → (settle_request sv user_id request now w).users ≡ w.users
  unfolding cancel_active_deletion_requests
  users-settle_request none now w = refl
  users-settle_request (some r) now w = refl

  pub user_of-delete_user_data_and_mark_deleted :
      (o : AuditOptions) (previous : UserStatus) (request : Option String) (now : ℕ) (uuid : String)
      (w : World sv)
      → user_of sv user_id
          (delete_user_data_and_mark_deleted sv user_id o previous request now uuid w)
        ≡ Option.map (deleted_row uuid) (user_of sv user_id w)
  unfolding delete_user_data_and_mark_deleted resolve_open_restrictions delete_owned
  user_of-delete_user_data_and_mark_deleted o previous request now uuid w =
      let settled = settle_request sv user_id request now (
        resolve_open_restrictions sv user_id now
          (delete_owned sv user_id (delete_objects_of sv user_id w))) in
      user_of-update_user (deleted_row uuid) (λ u. refl) settled
      ∙ ap (λ s. Option.map (deleted_row uuid) (find (λ u. u.id === user_id) (sv.users.rows s)))
          (users-settle_request request now _)
