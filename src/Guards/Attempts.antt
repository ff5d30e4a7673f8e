-- ===== src/Guards/Attempts.antt =====
-- A rule of the rate limit guard beside consumeAttempt of the rate limiting service.
use redbox.Prelude.{
  ℕ, String, ◌≡◌, Bool, [], ◌∷◌, some, arith, ok, Result-cases, Bool-cases, is_negative, inl, inr,
}
use redbox.Redis.{Counters}
use redbox.RateLimit.{consume, consume_rule, consume_attempt, build_rate_limit_key}
use redbox.RateLimit.Window.{succeeds}
use redbox.ClientIp.{ProxyEnv}
use redbox.Mail.Aliases.{MailEnv}
use redbox.Guards.Rules.{
  RateLimitRule, RateLimitRequest, GuardWorld, get_rules, resolve_subject, apply_rule, apply_rules,
  can_activate,
}

module _ (is_ip : String → ℕ) (proxies : ProxyEnv) (env : MailEnv) (redis : Counters)
    (hash : String → String) where
  -- Under one rule whose subject resolves, the guard admits a request exactly when consumeAttempt of
  -- the rule's name and this subject accepts, and it leaves the counters that consumeAttempt leaves.
  pub can_activate-consume_attempt :
      (rule : RateLimitRule) (admin_default : Bool) (request : RateLimitRequest) (subject : String)
      (w : GuardWorld is_ip proxies env redis hash)
      → resolve_subject is_ip proxies env rule request ≡ ok subject
      → (succeeds
            (can_activate is_ip proxies env redis hash
              (record { explicit_rules = some (rule ∷ []); use_admin_default = admin_default })
              request
              w).0
          ≡ succeeds
              (consume_attempt redis hash rule.name subject rule.limit rule.window_seconds
                w.counters).0)
        × ((can_activate is_ip proxies env redis hash
              (record { explicit_rules = some (rule ∷ []); use_admin_default = admin_default })
              request
              w).1.counters
            ≡ (consume_attempt redis hash rule.name subject rule.limit rule.window_seconds
                w.counters).1)
  unfolding can_activate apply_rules apply_rule get_rules consume_rule consume_attempt
  can_activate-consume_attempt rule admin_default request subject w e =
      let key = build_rate_limit_key hash rule.name subject in
      let r = consume redis key rule.limit rule.window_seconds w.counters in
      elim (Result-cases r.0) [
        | inr (x, f) ↦ (ground (arith, e, f), ground (arith, e, f))
        | inl (result, f) ↦ elim (Bool-cases (is_negative result.remaining)) [
          | inl g ↦ (ground (arith, e, f, g), ground (arith, e, f, g))
          | inr g ↦ (ground (arith, e, f, g), ground (arith, e, f, g))
        ]
      ]
