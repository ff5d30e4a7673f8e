-- ===== src/Tests/Limits.antt =====
-- Rate limiting on a Redis server in memory.
use redbox.Prelude.{
  ℕ, String, ◌≡◌, refl, true, false, ◌≢◌, [], ◌∷◌, arith, eq_iff, pos, if◌then◌else◌, ◌+◌, none,
  map,
}
use mathlib.Core.Bool.{false≢true}
use redbox.Redis.Memory.{memory_counters, no_counters}
use redbox.RateLimit.{
  Entry, count_of, consume_attempt, assert_available, acquire_concurrent_keys, acquire_loop,
  take_key, build_concurrency_key,
}
use redbox.RateLimit.Window.{succeeds, admitted, admitted-min, assert_available-consume_attempt}
use redbox.RateLimit.Streams.{count-acquire_concurrent_keys, acquire_concurrent_keys_admits, occurs}
use redbox.RateLimit.Sse.{
  SseOptions, Track, entries, start_track, acquisition, teardown, teardown-acquisition,
}

abbrev plain : String → String
plain s = s

admitted-min_example : admitted memory_counters plain "login" "ip" 10 900 12 no_counters ≡ 10
admitted-min_example =
    admitted-min memory_counters plain "login" "ip" 10 900 12 no_counters (omega arith) refl

assert_available-consume_attempt_example :
    (succeeds (assert_available memory_counters plain "login" "ip" 10 900 no_counters).0
      ≡ succeeds (consume_attempt memory_counters plain "login" "ip" 10 900 no_counters).0)
    × ((assert_available memory_counters plain "login" "ip" 10 900 no_counters).1 ≡ no_counters)
assert_available-consume_attempt_example =
    assert_available-consume_attempt memory_counters plain "login" "ip" 10 900 0 no_counters
      (omega arith) refl

abbrev user_entry : Entry
user_entry = record { key = "rlcon:mail:user:1"; limit = 3 }

abbrev ip_entry : Entry
ip_entry = record { key = "rlcon:mail:ip:1"; limit = 0 }

abbrev none_open : String → ℕ
none_open j = 0

counts_zero : (j : String) → count_of memory_counters no_counters j ≡ pos 0
counts_zero j = refl

count-acquire_concurrent_keys_example :
    count_of memory_counters
      (acquire_concurrent_keys memory_counters (user_entry ∷ ip_entry ∷ []) 7200 no_counters).1
      "rlcon:mail:user:1"
    ≡ pos (
        0
        + (if succeeds
              (acquire_concurrent_keys memory_counters
                (user_entry ∷ ip_entry ∷ [])
                7200
                no_counters).0
            then 1
            else 0))
count-acquire_concurrent_keys_example =
    count-acquire_concurrent_keys memory_counters (user_entry ∷ ip_entry ∷ []) 7200 no_counters
      none_open (omega arith) counts_zero "rlcon:mail:user:1"

abbrev options : SseOptions
options = record {
  scope = "mail";
  user_subject = "1";
  user_limit = 3;
  ip_subject = "2";
  ip_limit = 5;
  ttl_seconds = none;
}

one_stream :
    succeeds
      (acquire_concurrent_keys memory_counters
        (entries memory_counters plain options)
        7200
        no_counters).0
    ≡ true
unfolding acquire_concurrent_keys acquire_loop take_key entries build_concurrency_key
one_stream = refl

abbrev fresh : Track memory_counters plain
fresh = start_track memory_counters plain no_counters

teardown-acquisition_example :
    (((j : String)
        → count_of memory_counters
            (teardown memory_counters plain options
              (acquisition memory_counters plain options fresh)).counters
            j
          ≡ pos 0)
      × ((teardown memory_counters plain options
            (acquisition memory_counters plain options fresh)).is_subscribed
          ≡ false))
    × (((j : String)
          → count_of memory_counters
              (acquisition memory_counters plain options
                (teardown memory_counters plain options fresh)).counters
              j
            ≡ pos (0 + occurs j (map (λ e. e.key) (entries memory_counters plain options))))
        × ((acquisition memory_counters plain options
              (teardown memory_counters plain options fresh)).is_subscribed
            ≡ true))
teardown-acquisition_example =
    teardown-acquisition memory_counters plain options no_counters none_open (omega arith)
      counts_zero one_stream

keys_differ : user_entry.key ≢ ip_entry.key
keys_differ e = false≢true ((eq_iff user_entry.key ip_entry.key).1 e)

acquire_concurrent_keys_admits_example :
    succeeds
      (acquire_concurrent_keys memory_counters (user_entry ∷ ip_entry ∷ []) 7200 no_counters).0
    ≡ false
acquire_concurrent_keys_admits_example =
    acquire_concurrent_keys_admits memory_counters user_entry ip_entry 7200 0 0 no_counters
      (omega arith) keys_differ refl refl
