-- ===== src/Tests/Guards.antt =====
-- The guards on a Redis server in memory.
use redbox.Prelude.{
  String, ◌≡◌, refl, ◌≢◌, eq_iff, true, false, [], ◌∷◌, Option, none, some, ok, err, conflict,
}
use mathlib.Core.Bool.{false≢true}
use redbox.Prelude.Text.{truthy, split, digit}
use redbox.Redis.Memory.{memory_counters, memory_texts, no_counters}
use redbox.RateLimit.{consume_attempt}
use redbox.RateLimit.Window.{succeeds}
use redbox.ClientIp.{ProxyEnv}
use redbox.Mail.Addresses.{size}
use redbox.Mail.Aliases.{MailEnv, all_chars}
use redbox.Guards.Rules.{
  RateLimitRule, RateLimitRequest, GuardWorld, by_user, resolve_subject, can_activate,
}
use redbox.Guards.Attempts.{can_activate-consume_attempt}
use redbox.Guards.ChunkLock.{Lock, is_uuid, is_hex, first_within, lock_key, release}
use redbox.Guards.ChunkLock
use redbox.Guards.Exclusion.{lock_excludes}

abbrev proxies : ProxyEnv
proxies = record { trusted_proxy_cidrs = none; trusted_proxy_ips = none }

abbrev env : MailEnv
env = record { forward_username = none; forward_aliases = none }

abbrev rule : RateLimitRule
rule = record {
  name = "bins:create";
  limit = 2;
  window_seconds = 60;
  subject = by_user;
  param_name = none;
  message = none;
}

abbrev request : RateLimitRequest
request = record {
  client = record { remote_address = some "10.0.0.1"; ip = none; header = λ h. none };
  user_id = some "u";
  user_sub = none;
  is_get = false;
  body_username = none;
  body_to = none;
  params = λ p. none;
}

abbrev start : GuardWorld (λ s. 4) proxies env memory_counters (λ s. s)
start = record { counters = no_counters; headers = [] }

subject_ok : resolve_subject (λ s. 4) proxies env rule request ≡ ok "user:u"
unfolding resolve_subject
subject_ok = refl

can_activate-consume_attempt_example :
    (succeeds
        (can_activate
          (λ s. 4)
          proxies
          env
          memory_counters
          (λ s. s)
          (record { explicit_rules = some (rule ∷ []); use_admin_default = false })
          request
          start).0
      ≡ succeeds
          (consume_attempt memory_counters (λ s. s) "bins:create" "user:u" 2 60 no_counters).0)
    × ((can_activate
          (λ s. 4)
          proxies
          env
          memory_counters
          (λ s. s)
          (record { explicit_rules = some (rule ∷ []); use_admin_default = false })
          request
          start).1.counters
        ≡ (consume_attempt memory_counters (λ s. s) "bins:create" "user:u" 2 60 no_counters).1)
can_activate-consume_attempt_example =
    can_activate-consume_attempt (λ s. 4) proxies env memory_counters (λ s. s) rule false request
      "user:u" start subject_ok

abbrev upload : String
upload = "0a000000-0000-4000-8000-000000000000"

abbrev no_locks : String → Option String
no_locks k = none

uuid_ok : is_uuid upload ≡ true
unfolding is_uuid is_hex first_within split digit size all_chars
uuid_ok = refl

user_ok : truthy (some "u") ≡ some "u"
unfolding truthy
user_ok = refl

abbrev first_lock : Lock (memory_texts String)
first_lock = record { key = lock_key "u" upload; token = "t1"; released = false }

lock_ok :
    (ChunkLock.can_activate (memory_texts String) (some "u") none upload "t1" no_locks).0
    ≡ ok first_lock
unfolding ChunkLock.can_activate is_uuid is_hex first_within split digit size all_chars truthy
lock_ok = refl

tokens_differ : ◌≢◌ {A = String} "t2" "t1"
tokens_differ e = false≢true ((eq_iff "t2" "t1").1 e)

lock_excludes_example :
    ((ChunkLock.can_activate
        (memory_texts String)
        (some "u")
        none
        upload
        "t2"
        (ChunkLock.can_activate (memory_texts String) (some "u") none upload "t1" no_locks).1).0
      ≡ err (conflict "Another chunk is already being uploaded"))
    × ((release
            (memory_texts String)
            (record { key = lock_key "u" upload; token = "t2"; released = false })
            (ChunkLock.can_activate (memory_texts String) (some "u") none upload "t1" no_locks).1).1
          (lock_key "u" upload)
        ≡ some "t1")
    × ((ChunkLock.can_activate
          (memory_texts String)
          (some "u")
          none
          upload
          "t2"
          (release
            (memory_texts String)
            first_lock
            (ChunkLock.can_activate
              (memory_texts String)
              (some "u")
              none
              upload
              "t1"
              no_locks).1).1).0
        ≡ ok (record { key = lock_key "u" upload; token = "t2"; released = false }))
lock_excludes_example =
    lock_excludes (memory_texts String) (some "u") none "u" upload "t1" no_locks user_ok uuid_ok
      first_lock "t2" lock_ok tokens_differ
