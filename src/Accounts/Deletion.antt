-- ===== src/Accounts/Deletion.antt =====
-- A deletion request and what becomes of the account: `requestAccountDeletion` followed by the check
-- of the next login or by `reactivatePendingAccount`.
use mathlib.Core.Option
use redbox.Prelude.{
  ℕ, ◌≤◌, ◌<◌, String, ◌≡◌, refl, sym, ap, ◌∙◌, true, Bool, none, some, arith, ok, err, forbidden,
  Option-cases, Bool-cases, inl, inr, List, [], ◌∷◌, ◌++◌, keep, ===_refl, ltb, subst,
}
use redbox.Accounts.State.{
  User, UserStatus, DeletionRequest, Services, World, pending, deleted, latest, status_eq,
}
use redbox.Accounts.Users.{
  deletion_processed, user_of, get_active_deletion_request, is_active_request,
  finalize_pending_deletion, reactivate_user,
}
use redbox.Accounts.Lifecycle.{
  deletion_cancelled, Pending, Drawn, request_account_deletion, enter_pending,
  prepare_pending_deletion_login, prepare_request, reactivate_pending_account, reactivate_request,
}
use redbox.Accounts.Sessions.{HasActive, reactivate_user-HasActive}
use redbox.Accounts.Rows.{
  user_of-update_user, user_of-delete_user_data_and_mark_deleted, deleted_row,
}

module _ {A : Type 0} where
  latest-none : (key : A → ℕ) (xs : List A) → latest key xs ≡ none → xs ≡ []
  latest-none key [] h = refl
  latest-none key (x ∷ xs) h = elim (Option-cases (latest key xs)) [
    | inl e ↦ absurd (ground (arith, e))
    | inr (y, e) ↦ elim (Bool-cases (ltb (key x) (key y))) [
      | inl l ↦ absurd (ground (arith, e, l))
      | inr l ↦ absurd (ground (arith, e, l))
    ]
  ]

  keep-snoc :
      (p : A → Bool) (xs : List A) (x : A)
      → keep p xs ≡ []
      → p x ≡ true
      → keep p (xs ++ x ∷ []) ≡ x ∷ []
  keep-snoc p [] x h e = ground (arith, e)
  keep-snoc p (y ∷ ys) x h e = elim (Bool-cases (p y)) [
    | inl q ↦ absurd (ground (arith, q))
    | inr q ↦ ground (arith, q, keep-snoc p ys x (ground (arith, q)) e)
  ]

module _ (sv : Services) (user_id : String) where
  -- The request row that `requestAccountDeletion` writes.
  abbrev pub requested : ℕ → Drawn → DeletionRequest
  requested now drawn = record {
    id = drawn.id;
    user_id = user_id;
    requested_at = now;
    delete_after_at = sv.dates.add_days now 7;
    cancelled_at = none;
    processed_at = none;
  }

  -- A pending user whose latest active request is `request`.
  pub record Waiting (request : DeletionRequest) (w : World sv) : Type 0 where
    pub row : User
    pub found : user_of sv user_id w ≡ some row
    pub status : row.status ≡ pending
    pub open_request : get_active_deletion_request sv user_id w ≡ some request

  active_after :
      (previous : UserStatus) (now : ℕ) (drawn : Drawn) (w : World sv)
      → get_active_deletion_request sv user_id w ≡ none
      → get_active_deletion_request sv user_id (enter_pending sv user_id previous now drawn w)
        ≡ some (requested now drawn)
  unfolding get_active_deletion_request
  active_after previous now drawn w h =
      rw (sv.deletion_requests.rows-create w.deletion_requests (requested now drawn)) (
        ap (latest (λ r. r.requested_at)) (
          keep-snoc (is_active_request user_id) (sv.deletion_requests.rows w.deletion_requests)
            (requested now drawn) (latest-none (λ r. r.requested_at) _ h)
            (rw (===_refl user_id) refl)))

  abbrev pending_row : Drawn → User → User
  pending_row drawn u = record u { status = pending; session_key = drawn.text }

  user_of-enter_pending :
      (previous : UserStatus) (now : ℕ) (drawn : Drawn) (w : World sv)
      → user_of sv user_id (enter_pending sv user_id previous now drawn w)
        ≡ Option.map (pending_row drawn) (user_of sv user_id w)
  user_of-enter_pending previous now drawn w =
      user_of-update_user sv user_id (pending_row drawn) (λ u. refl) w

  module _ (password : String) (now : ℕ) (drawn : Drawn) (answer : Pending) (w : World sv) where
    -- An accepted deletion request leaves the user pending with exactly this request active, due
    -- seven days after now.
    pub request_account_deletion-Waiting :
        (request_account_deletion sv user_id password now drawn w).0 ≡ ok answer
        → Waiting (requested now drawn) (request_account_deletion sv user_id password now drawn w).1
    unfolding request_account_deletion
    request_account_deletion-Waiting h = elim (Option-cases (user_of sv user_id w)) [
      | inl e ↦ absurd (ground (arith, e))
      | inr (u, e) ↦ elim (Bool-cases (sv.bcrypt_compare password u.password)) [
        | inr b ↦ absurd (ground (arith, e, b))
        | inl b ↦ elim (Bool-cases (status_eq u.status deleted)) [
          | inl d ↦ absurd (ground (arith, e, b, d))
          | inr d ↦ elim (Option-cases (get_active_deletion_request sv user_id w)) [
            | inr (r, a) ↦ absurd (ground (arith, e, b, d, a))
            | inl a ↦
                let w' = enter_pending sv user_id u.status now drawn w in
                subst (Waiting (requested now drawn)) (sym (ground (arith, e, b, d, a))) (record {
                  row = pending_row drawn u;
                  found =
                      user_of-enter_pending u.status now drawn w
                      ∙ ap (Option.map (pending_row drawn)) e;
                  status = refl;
                  open_request = active_after u.status now drawn w a;
                })
          ]
        ]
      ]
    ]

  -- The row of a deleted user.
  pub record HasDeleted (w' : World sv) : Type 0 where
    pub row : User
    pub found : user_of sv user_id w' ≡ some row
    pub status : row.status ≡ deleted

  module _ (request : DeletionRequest) (now : ℕ) (uuid : String) (w : World sv) where
    finalize_pending_deletion-HasDeleted :
        Waiting request w → HasDeleted (finalize_pending_deletion sv user_id request.id now uuid w)
    unfolding finalize_pending_deletion
    finalize_pending_deletion-HasDeleted h = record {
      row = deleted_row uuid h.row;
      found = ground (
        arith,
        h.found,
        h.status,
        user_of-delete_user_data_and_mark_deleted sv user_id deletion_processed pending
            (some request.id) now uuid w,
      );
      status = refl;
    }

    -- While a request is not due, the check at login answers with it and changes nothing.
    pub prepare_pending_deletion_login-early :
        Waiting request w
        → now < request.delete_after_at
        → prepare_pending_deletion_login sv user_id now uuid w ≡ (ok (some request), w)
    unfolding prepare_pending_deletion_login prepare_request
    prepare_pending_deletion_login-early h l = ground (arith, h.found, h.status, h.open_request)

    -- Once it is due, that check deletes the account and refuses.
    pub prepare_pending_deletion_login-due :
        Waiting request w
        → request.delete_after_at ≤ now
        → ((prepare_pending_deletion_login sv user_id now uuid w).0
            ≡ err (forbidden "This account has been deleted."))
          × HasDeleted (prepare_pending_deletion_login sv user_id now uuid w).1
    unfolding prepare_pending_deletion_login prepare_request
    prepare_pending_deletion_login-due h l = (
      ground (arith, h.found, h.status, h.open_request),
      subst HasDeleted (sym (ground (arith, h.found, h.status, h.open_request)))
          (finalize_pending_deletion-HasDeleted h),
    )

    reactivation_succeeds :
        Waiting request w → (reactivate_user sv user_id deletion_cancelled now uuid w).0 ≡ ok tt
    unfolding reactivate_user
    reactivation_succeeds h = ground (arith, h.found, h.status)

    reactivate_pending_account-eq-reactivate_user :
        Waiting request w
        → now < request.delete_after_at
        → reactivate_pending_account sv user_id request.id now uuid w
          ≡ reactivate_user sv user_id deletion_cancelled now uuid w
    unfolding reactivate_pending_account reactivate_request
    reactivate_pending_account-eq-reactivate_user h l =
        ground (arith, h.found, h.status, h.open_request, ===_refl request.id)

    -- While it is not due, reactivatePendingAccount with its id succeeds and the user is active.
    pub reactivate_pending_account-HasActive :
        Waiting request w
        → now < request.delete_after_at
        → ((reactivate_pending_account sv user_id request.id now uuid w).0 ≡ ok tt)
          × HasActive sv user_id (reactivate_pending_account sv user_id request.id now uuid w).1
    reactivate_pending_account-HasActive h l =
        let e = reactivate_pending_account-eq-reactivate_user h l in
        let k = reactivation_succeeds h in
        (
          ap (λ p. p.0) e ∙ k,
          subst (λ p. HasActive sv user_id p.1) (sym e)
              (reactivate_user-HasActive sv user_id now uuid w deletion_cancelled k),
        )
