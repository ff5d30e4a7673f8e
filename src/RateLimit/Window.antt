-- ===== src/RateLimit/Window.antt =====
-- The fixed window of `consume`, `consumeAttempt`, `assertAvailable` and `clearAttempts`.
use redbox.Prelude.{
  ℕ, zero, suc, ◌+◌, ◌-◌, ◌<◌, min, String, ◌≡◌, ◌⊎◌, Bool, true, false, none, some, arith, ◌===◌,
  if◌then◌else◌, ===_refl, ltb, pos, is_some, Result, ok, err,
}
use redbox.Redis.{Counters}
use redbox.RateLimit.{
  count_of, consume, consume_attempt, assert_available, clear_attempts, build_rate_limit_key,
}

abbrev pub succeeds {ℓ} : {A : Type ℓ} → Result A → Bool
succeeds (ok a) = true
succeeds (err e) = false

module _ (redis : Counters) where
  open redis use {State, read, ttl}

  pub read-consume :
      (key : String) (limit w m : ℕ) (s : State) (j : String)
      → 0 < w
      → count_of redis s key ≡ pos m
      → read (consume redis key limit w s).1 j
        ≡ (if key === j then some (pos (suc m)) else read s j)
  unfolding consume
  read-consume key limit w m s j h e = ground (
    arith,
    redis.incr_reply s key,
    redis.read-incr s key j,
    redis.read-expire (redis.incr s key).0 key j w,
  )

  module _ (hash : String → String) (ns subject : String) where
    abbrev pub attempts_key : String
    attempts_key = build_rate_limit_key hash ns subject

    -- An attempt is let through exactly when fewer than `limit` were counted before it.
    pub consume_attempt_admits :
        (limit w m : ℕ) (s : State)
        → 0 < w
        → count_of redis s attempts_key ≡ pos m
        → succeeds (consume_attempt redis hash ns subject limit w s).0 ≡ ltb m limit
    unfolding consume_attempt
    consume_attempt_admits limit w m s h e =
        ground (arith, redis.incr_reply s (build_rate_limit_key hash ns subject))

    pub read-consume_attempt :
        (limit w m : ℕ) (s : State) (j : String)
        → 0 < w
        → count_of redis s attempts_key ≡ pos m
        → read (consume_attempt redis hash ns subject limit w s).1 j
          ≡ (if attempts_key === j then some (pos (suc m)) else read s j)
    unfolding consume_attempt
    read-consume_attempt limit w m s j h e =
        ground (arith, read-consume (build_rate_limit_key hash ns subject) limit w m s j h e)

    -- How many of `k` attempts in a row are let through.
    pub admitted : ℕ → ℕ → ℕ → State → ℕ
    admitted limit w zero s = 0
    admitted limit w (suc k) s =
        let r = consume_attempt redis hash ns subject limit w s in
        (if succeeds r.0 then 1 else 0) + admitted limit w k r.1

    admitted_from :
        (limit w k m : ℕ) (s : State)
        → 0 < w
        → count_of redis s attempts_key ≡ pos m
        → admitted limit w k s ≡ min k (limit - m)
    unfolding admitted
    admitted_from limit w zero m s h e = omega arith
    admitted_from limit w (suc k) m s h e = ground (
      arith,
      consume_attempt_admits limit w m s h e,
      ===_refl attempts_key,
      read-consume_attempt limit w m s attempts_key h e,
      admitted_from limit w k (suc m) (consume_attempt redis hash ns subject limit w s).1 h,
    )

    -- On a key that does not exist, exactly the first `limit` attempts of a window are let
    -- through, however many follow.
    pub admitted-min :
        (limit w k : ℕ) (s : State)
        → 0 < w
        → read s attempts_key ≡ none
        → admitted limit w k s ≡ min k limit
    admitted-min limit w k s h e = omega (arith, admitted_from limit w k 0 s h (rw e))

    -- `assertAvailable` lets a request through exactly when the next `consumeAttempt` with the
    -- same arguments would, and it changes nothing.
    pub assert_available-consume_attempt :
        (limit w m : ℕ) (s : State)
        → 0 < w
        → count_of redis s attempts_key ≡ pos m
        → (succeeds (assert_available redis hash ns subject limit w s).0
            ≡ succeeds (consume_attempt redis hash ns subject limit w s).0)
          × ((assert_available redis hash ns subject limit w s).1 ≡ s)
    unfolding assert_available
    assert_available-consume_attempt limit w m s h e =
        (ground (arith, consume_attempt_admits limit w m s h e), ground arith)

    -- A window is fixed: the attempt that creates the key sets its time to live to the window's
    -- length, and no later attempt changes it.
    pub ttl-consume_attempt :
        (limit w m : ℕ) (s : State)
        → 0 < w
        → (read s attempts_key ≡ none) ⊎ (read s attempts_key ≡ some (pos (suc m)))
        → ttl (consume_attempt redis hash ns subject limit w s).1 attempts_key
          ≡ (if is_some (read s attempts_key) then ttl s attempts_key else pos w)
    unfolding consume_attempt consume
    ttl-consume_attempt limit w m s h e =
        let key = attempts_key in
        ground (
          arith,
          e,
          ===_refl key,
          redis.incr_reply s key,
          redis.read-incr s key key,
          redis.ttl-incr s key key,
          redis.ttl-expire (redis.incr s key).0 key key w,
        )

    -- Clearing forgets the attempts of this subject, and of no other key.
    pub admitted-clear_attempts :
        (limit w k : ℕ) (s : State)
        → 0 < w
        → admitted limit w k (clear_attempts redis hash ns subject s).1 ≡ min k limit
    unfolding clear_attempts
    admitted-clear_attempts limit w k s h =
        admitted-min limit w k (redis.del s attempts_key) h
          (rw (redis.read-del s attempts_key attempts_key, ===_refl attempts_key))
