-- ===== src/RateLimit.antt =====
-- apps/backend/src/common/rate-limit/rate-limit.service.ts: fixed windows and open streams,
-- counted in Redis. `hash` is the service's SHA-256 prefix.
pub mod Window
pub mod Streams
pub mod Sse
use redbox.Prelude.{
  ℕ, ◌*◌, String, Bool, true, false, not, List, [], ◌∷◌, ◌++◌, Option, none, some, ◌===◌,
  if◌then◌else◌, or_else, ltb, leb, ◌==◌, ℤ, pos, negsuc, minus, is_negative, is_positive, exceeds,
  at_least, equals, pos_part, template, Exec, Error, Result, ok, err, pure, throw, gets, modify,
  check, continue, ◌>>=◌, ◌>>◌, rate_limited,
}
use redbox.Redis.{Counters}

pub record RateLimitResult : Type 0 where
  pub key : String
  pub limit : ℕ
  pub remaining : ℤ
  pub ttl_seconds : ℕ

-- DEFAULT_CONCURRENCY_TTL_SECONDS
abbrev pub default_concurrency_ttl_seconds : ℕ
default_concurrency_ttl_seconds = 2 * 60 * 60

module _ (hash : String → String) where
  unfoldable pub build_rate_limit_key : String → String → String
  build_rate_limit_key namespace subject =
      template ("rl:" ∷ hash namespace ∷ ":" ∷ hash subject ∷ [])

  unfoldable pub build_concurrency_key : String → String → String → String
  build_concurrency_key scope kind subject =
      template ("rlcon:" ∷ hash scope ∷ ":" ∷ kind ∷ ":" ∷ hash subject ∷ [])

-- `ttl > 0 ? ttl : windowSeconds`
abbrev pub retry_after : ℤ → ℕ → ℕ
retry_after ttl window_seconds = if is_positive ttl then pos_part ttl else window_seconds

abbrev pub too_many_attempts : ℕ → Error
too_many_attempts seconds = rate_limited "Too many attempts. Please try again later." (some seconds)

-- One of the keys that an event stream takes, with its limit.
pub record Entry : Type 0 where
  pub key : String
  pub limit : ℕ

module _ (redis : Counters) where
  open redis use {State, read, ttl, incr, decr, expire, del}

  -- Number(await this.redis.get(key) ?? 0)
  abbrev pub count_of : State → String → ℤ
  count_of s key = or_else (read s key) (pos 0)

  abbrev incr_key : String → Exec State ℤ
  incr_key key s = (ok (incr s key).1, (incr s key).0)

  abbrev decr_key : String → Exec State ℤ
  decr_key key s = (ok (decr s key).1, (decr s key).0)

  -- `if (count === 1) await this.redis.expire(key, seconds)`
  abbrev start_window : ℤ → String → ℕ → Exec State (Unit {0})
  start_window count key seconds =
      if equals count 1 then modify (λ s. expire s key seconds) else pure tt

  -- INCR, and the expiry of a key that it created: the first lines of `consume` and of the loop
  -- in `acquireConcurrentKeys`.
  unfoldable pub take_key : String → ℕ → Exec State ℤ
  take_key key seconds = do count ← incr_key key; start_window count key seconds; pure count

  unfoldable pub consume : String → ℕ → ℕ → Exec State RateLimitResult
  unfolding take_key
  consume key limit window_seconds = do
    count ← take_key key window_seconds
    left ← gets (λ s. ttl s key)
    pure (record {
      key = key;
      limit = limit;
      remaining = minus limit count;
      ttl_seconds = retry_after left window_seconds;
    })

  -- `releaseConcurrentKeys` for one key, and for each key in turn.
  unfoldable pub release_key : String → Exec State (Unit {0})
  release_key key = do
    count ← decr_key key
    if is_positive count then pure tt else modify (λ s. del s key)

  unfoldable pub release_concurrent_keys : List String → Exec State (Unit {0})
  unfolding release_key
  release_concurrent_keys [] = pure tt
  release_concurrent_keys (key ∷ keys) = do release_key key; release_concurrent_keys keys

  -- The loop over the entries; `acquired` holds the keys taken so far.
  unfoldable pub acquire_loop : List String → List Entry → ℕ → Exec State (Unit {0})
  unfolding release_concurrent_keys
  acquire_loop acquired [] ttl_seconds = pure tt
  acquire_loop acquired (entry ∷ entries) ttl_seconds = do
    count ← take_key entry.key ttl_seconds
    let rest = acquire_loop (acquired ++ entry.key ∷ []) entries ttl_seconds
    if exceeds count entry.limit
        then (do
          decr_key entry.key
          release_concurrent_keys acquired
          throw (rate_limited "Too many open event streams" none))
        else rest

  unfoldable pub acquire_concurrent_keys : List Entry → ℕ → Exec State (Unit {0})
  unfolding acquire_loop
  acquire_concurrent_keys entries ttl_seconds = acquire_loop [] entries ttl_seconds

  module _ (hash : String → String) where
    unfoldable pub consume_rule : String → ℕ → ℕ → String → Exec State RateLimitResult
    unfolding consume build_rate_limit_key
    consume_rule name limit window_seconds subject =
        consume (build_rate_limit_key hash name subject) limit window_seconds

    unfoldable pub assert_available : String → String → ℕ → ℕ → Exec State (Unit {0})
    unfolding build_rate_limit_key
    assert_available namespace subject limit window_seconds = do
      let key = build_rate_limit_key hash namespace subject
      count ← gets (λ s. count_of s key)
      left ← gets (λ s. ttl s key)
      if at_least count limit
          then throw (too_many_attempts (retry_after left window_seconds))
          else pure tt

    unfoldable pub consume_attempt : String → String → ℕ → ℕ → Exec State RateLimitResult
    unfolding consume build_rate_limit_key
    consume_attempt namespace subject limit window_seconds = do
      result ← consume (build_rate_limit_key hash namespace subject) limit window_seconds
      if is_negative result.remaining
          then throw (too_many_attempts result.ttl_seconds)
          else pure result

    unfoldable pub clear_attempts : String → String → Exec State (Unit {0})
    unfolding build_rate_limit_key
    clear_attempts namespace subject =
        modify λ s. del s (build_rate_limit_key hash namespace subject)
