-- ===== src/Guards/Exclusion.antt =====
-- The lock of an upload's chunks, and a second request while it is held.
use redbox.Prelude.{
  String, ◌≡◌, sym, ap, ◌∙◌, ◌≢◌, true, false, Option, none, some, arith, ok, err, conflict, ◌===◌,
  or_try, Option-cases, inl, inr, ===_refl,
}
use redbox.Prelude.Text.{truthy}
use redbox.Redis.{Texts, release_script}
use redbox.Accounts.Rows.{differ}
use redbox.Guards.ChunkLock.{
  Lock, is_uuid, lock_key, acquired, can_activate, release, upload_request_lock_seconds,
}

module _ (redis : Texts String) where
  open redis use {State, get, set_nx}

  -- The lock is free or held.
  can_activate_runs :
      (user_id user_sub : Option String) (user upload_id token : String) (s : State)
      → truthy (or_try user_id user_sub) ≡ some user
      → is_uuid upload_id ≡ true
      → can_activate redis user_id user_sub upload_id token s
        ≡ acquired redis
            (lock_key user upload_id)
            token
            (set_nx s (lock_key user upload_id) token upload_request_lock_seconds)
  unfolding can_activate
  can_activate_runs user_id user_sub user upload_id token s a b = ground (arith, a, b)

  module _ (user_id user_sub : Option String) (user upload_id token : String) (s : State)
      (authenticated : truthy (or_try user_id user_sub) ≡ some user)
      (valid : is_uuid upload_id ≡ true) where
    -- A request that is admitted finds the lock free and holds it.
    pub record Held (lock : Lock redis) (s' : State) : Type 0 where
      pub lock_of : lock ≡ record { key = lock_key user upload_id; token = token; released = false }
      pub free : get s (lock_key user upload_id) ≡ none
      pub held : get s' (lock_key user upload_id) ≡ some token

    can_activate-Held :
        (lock : Lock redis)
        → (can_activate redis user_id user_sub upload_id token s).0 ≡ ok lock
        → Held lock (can_activate redis user_id user_sub upload_id token s).1
    can_activate-Held lock h =
        let key = lock_key user upload_id in
        let r = can_activate redis user_id user_sub upload_id token s in
        let runs = can_activate_runs user_id user_sub user upload_id token s authenticated valid in
        let reply = redis.set_nx_reply s key token upload_request_lock_seconds in
        elim (Option-cases (get s key)) [
          | inr (other, e) ↦ absurd (ground (arith, h, runs, reply, e))
          | inl e ↦ record {
            lock_of = ground (arith, h, runs, reply, e);
            free = e;
            held =
                ap (λ x. get x.1 key) runs
                ∙ ground (
                  arith,
                  reply,
                  e,
                  redis.get-set_nx s key token upload_request_lock_seconds key,
                  ===_refl key,
                );
          }
        ]

    -- After a request was admitted, a second one for the same user and upload is refused, with the
    -- lock still held. Releasing with another token keeps it held; releasing with the token of the
    -- first admits a new request.
    pub lock_excludes :
        (lock : Lock redis) (second : String)
        → (can_activate redis user_id user_sub upload_id token s).0 ≡ ok lock
        → second ≢ token
        → ((can_activate redis user_id user_sub upload_id second
              (can_activate redis user_id user_sub upload_id token s).1).0
            ≡ err (conflict "Another chunk is already being uploaded"))
          × (get
                (release redis
                  (record { key = lock_key user upload_id; token = second; released = false })
                  (can_activate redis user_id user_sub upload_id token s).1).1
                (lock_key user upload_id)
              ≡ some token)
          × ((can_activate redis user_id user_sub upload_id second
                (release redis lock (can_activate redis user_id user_sub upload_id token s).1).1).0
              ≡ ok (record { key = lock_key user upload_id; token = second; released = false }))
    unfolding release release_script
    lock_excludes lock second h other =
        let key = lock_key user upload_id in
        let s1 = (can_activate redis user_id user_sub upload_id token s).1 in
        let s2 = (release redis lock s1).1 in
        let held = can_activate-Held lock h in
        let again =
          can_activate_runs user_id user_sub user upload_id second s1 authenticated valid in
        let later =
          can_activate_runs user_id user_sub user upload_id second s2 authenticated valid in
        let kept : (token === second) ≡ false = differ token second (λ e. other (sym e)) in
        let freed : get s2 key ≡ none =
          ap (λ l. get (release redis l s1).1 key) held.lock_of
          ∙ ground (arith, held.held, ===_refl token, ===_refl key, redis.get-del s1 key key) in
        (
          ground (
            arith,
            again,
            held.held,
            redis.set_nx_reply s1 key second upload_request_lock_seconds,
          ),
          ground (arith, held.held, kept),
          ground
              (arith, later, freed, redis.set_nx_reply s2 key second upload_request_lock_seconds),
        )
