-- ===== src/RateLimit/Sse.antt =====
-- trackConcurrentSse of apps/backend/src/common/rate-limit/rate-limit.service.ts. The promise of
-- `acquireConcurrentKeys` and the teardown of the observable happen in either order.
use redbox.Prelude.{
  ℕ, ◌+◌, ◌<◌, String, ◌≡◌, refl, Bool, true, false, List, [], ◌∷◌, Option, or_else, arith, pos,
  if◌then◌else◌, map,
}
use redbox.Redis.{Counters}
use redbox.RateLimit.{
  Entry, count_of, build_concurrency_key, default_concurrency_ttl_seconds, acquire_concurrent_keys,
  release_concurrent_keys,
}
use redbox.RateLimit.Window.{succeeds}
use redbox.RateLimit.Streams.{occurs, count-acquire_concurrent_keys, release-acquire}

pub record SseOptions : Type 0 where
  pub scope : String
  pub user_subject : String
  pub user_limit : ℕ
  pub ip_subject : String
  pub ip_limit : ℕ
  pub ttl_seconds : Option ℕ

module _ (redis : Counters) (hash : String → String) where
  open redis use {State}

  -- The counters, `acquired`, and whether the source is subscribed to.
  pub record Track : Type 0 where
    pub counters : State
    pub acquired : Bool
    pub is_subscribed : Bool

  unfoldable pub entries : SseOptions → List Entry
  unfolding build_concurrency_key
  entries o =
      record {
        key = build_concurrency_key hash o.scope "user" o.user_subject;
        limit = o.user_limit;
      }
      ∷ record { key = build_concurrency_key hash o.scope "ip" o.ip_subject; limit = o.ip_limit }
      ∷ []

  abbrev pub ttl_of : SseOptions → ℕ
  ttl_of o = or_else o.ttl_seconds default_concurrency_ttl_seconds

  abbrev pub start_track : State → Track
  start_track s = record { counters = s; acquired = false; is_subscribed = false }

  -- `acquireConcurrentKeys(...).then(...)`; an error goes to the subscriber.
  unfoldable pub acquisition : SseOptions → Track → Track
  acquisition o t =
      let r = acquire_concurrent_keys redis (entries o) (ttl_of o) t.counters in
      record {
        counters = r.1;
        acquired = if succeeds r.0 then true else t.acquired;
        is_subscribed = if succeeds r.0 then true else t.is_subscribed;
      }

  -- The function that the observable returns.
  unfoldable pub teardown : SseOptions → Track → Track
  teardown o t = record t {
    counters =
        if t.acquired
        then (release_concurrent_keys redis (map (λ e. e.key) (entries o)) t.counters).1
        else t.counters;
    is_subscribed = false;
  }

  -- From counters that are numbers of slots, for a stream that finds slots free: closed after the
  -- acquisition, it gives its slots back and its subscription ends. Closed before, it keeps its
  -- slots in both counters and its subscription.
  pub teardown-acquisition :
      (o : SseOptions) (s : State) (n : String → ℕ)
      → 0 < ttl_of o
      → ((j : String) → count_of redis s j ≡ pos (n j))
      → succeeds (acquire_concurrent_keys redis (entries o) (ttl_of o) s).0 ≡ true
      → (((j : String)
            → count_of redis (teardown o (acquisition o (start_track s))).counters j
              ≡ count_of redis s j)
          × ((teardown o (acquisition o (start_track s))).is_subscribed ≡ false))
        × (((j : String)
              → count_of redis (acquisition o (teardown o (start_track s))).counters j
                ≡ pos (n j + occurs j (map (λ e. e.key) (entries o))))
            × ((acquisition o (teardown o (start_track s))).is_subscribed ≡ true))
  unfolding acquisition teardown
  teardown-acquisition o s n t h done = (
    (λ j. ground (arith, done, release-acquire redis (entries o) (ttl_of o) s n t h done j), refl),
    (
      λ j.
          ground
            (arith, done, count-acquire_concurrent_keys redis (entries o) (ttl_of o) s n t h j),
      ground (arith, done),
    ),
  )
