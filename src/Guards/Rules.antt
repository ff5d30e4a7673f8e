-- ===== src/Guards/Rules.antt =====
-- apps/backend/src/common/rate-limit/rate-limit.guard.ts, with the rules of rate-limit.types.ts. The
-- decorators' metadata and what a request has are arguments; the values of the headers stay
-- numbers.
use redbox.Prelude.{
  ℕ, ◌*◌, String, Bool, List, [], ◌∷◌, ◌++◌, Option, none, some, if◌then◌else◌, or_else, or_try,
  is_negative, pos_part, template, Exec, Error, Result, ok, err, rate_limited, pure, throw, modify,
  ◌>>=◌, ◌>>◌,
}
use redbox.Prelude.Text.{truthy, trim}
use redbox.Redis.{Counters}
use redbox.RateLimit.{RateLimitResult, consume_rule}
use redbox.ClientIp.{ProxyEnv, get_client_ip}
use redbox.ClientIp
use redbox.Mail.Addresses.{to_lower_case}
use redbox.Mail.Aliases.{MailEnv, resolve_incoming_mailbox_username}

pub data RateLimitSubject : Type 0 where
  by_ip by_user by_admin by_username_ip by_param_ip by_param_user by_mail_recipient :
      RateLimitSubject

pub record RateLimitRule : Type 0 where
  pub name : String
  pub limit : ℕ
  pub window_seconds : ℕ
  pub subject : RateLimitSubject
  pub param_name : Option String
  pub message : Option String

-- What the guard reads of a request. Of `body.username` and `body.to`, a value that is no text is
-- `none`.
pub record RateLimitRequest : Type 0 where
  pub client : ClientIp.Request
  pub user_id : Option String
  pub user_sub : Option String
  pub is_get : Bool
  pub body_username : Option String
  pub body_to : Option String
  pub params : String → Option String

-- The rules of the decorators, if there are any, and the default of the admin controllers.
pub record RuleMetadata : Type 0 where
  pub explicit_rules : Option (List RateLimitRule)
  pub use_admin_default : Bool

abbrev pub admin_read_rule : RateLimitRule
admin_read_rule = record {
  name = "admin:read";
  limit = 300;
  window_seconds = 5 * 60;
  subject = by_admin;
  param_name = none;
  message = none;
}

abbrev pub admin_write_rule : RateLimitRule
admin_write_rule = record {
  name = "admin:write";
  limit = 60;
  window_seconds = 5 * 60;
  subject = by_admin;
  param_name = none;
  message = none;
}

unfoldable pub get_rules : RuleMetadata → RateLimitRequest → List RateLimitRule
get_rules metadata request = elim metadata.explicit_rules [
  | some rules ↦ rules
  | none ↦
      if metadata.use_admin_default
      then (if request.is_get then admin_read_rule else admin_write_rule) ∷ []
      else []
]

unfoldable pub normalize_value : Option String → String
unfolding truthy trim to_lower_case
normalize_value none = "unknown"
normalize_value (some value) = elim (truthy (some (trim value))) [
  | none ↦ "unknown"
  | some text ↦ to_lower_case text
]

-- A header that the guard sets.
pub record Header : Type 0 where
  pub name : String
  pub value : ℕ

module _ (is_ip : String → ℕ) (proxies : ProxyEnv) (env : MailEnv) where
  abbrev pub user_of : RateLimitRequest → String
  user_of request = or_else (or_try request.user_id request.user_sub) "anonymous"

  -- An undefined parameter name prints as `undefined`.
  abbrev pub param_text : RateLimitRule → RateLimitRequest → String
  param_text rule request = template (
      or_else rule.param_name "undefined"
      ∷ ":"
      ∷ normalize_value (request.params (or_else rule.param_name "id"))
      ∷ ":"
      ∷ [])

  unfoldable pub resolve_subject : RateLimitRule → RateLimitRequest → Result String
  resolve_subject rule request =
      let ip = get_client_ip is_ip proxies request.client in
      let user_id = user_of request in
      elim rule.subject [
        | by_ip ↦ ok (template ("ip:" ∷ ip ∷ []))
        | by_user ↦ ok (template ("user:" ∷ user_id ∷ []))
        | by_admin ↦ ok (template ("admin:" ∷ user_id ∷ []))
        | by_username_ip ↦
            ok (template ("username-ip:" ∷ normalize_value request.body_username ∷ ":" ∷ ip ∷ []))
        | by_param_ip ↦ ok (template ("param-ip:" ∷ param_text rule request ∷ ip ∷ []))
        | by_param_user ↦ ok (template ("param-user:" ∷ param_text rule request ∷ user_id ∷ []))
        | by_mail_recipient ↦ elim (resolve_incoming_mailbox_username env request.body_to) [
          | err e ↦ err e
          | ok username ↦ ok (template ("mail-recipient:" ∷ username ∷ []))
        ]
      ]

  module _ (redis : Counters) (hash : String → String) where
    -- The counters, and the headers in the order in which they were set.
    pub record GuardWorld : Type 0 where
      pub counters : redis.State
      pub headers : List Header

    abbrev pub set_header : String → ℕ → GuardWorld → GuardWorld
    set_header name value w = record w {
      headers = w.headers ++ record { name = name; value = value } ∷ [];
    }

    abbrev pub on_counters : {A : Type 0} → Exec redis.State A → Exec GuardWorld A
    on_counters m w = ((m w.counters).0, record w { counters = (m w.counters).1 })

    abbrev pub refused : RateLimitRule → RateLimitResult → Error
    refused rule result =
        rate_limited (or_else rule.message "Too many requests. Please try again later.")
          (some result.ttl_seconds)

    abbrev pub lift_result : {A : Type 0} → Result A → Exec GuardWorld A
    lift_result r w = (r, w)

    unfoldable pub apply_rule : RateLimitRule → RateLimitRequest → Exec GuardWorld (Unit {0})
    unfolding resolve_subject
    apply_rule rule request = do
      subject ← lift_result (resolve_subject rule request)
      result ←
          on_counters (consume_rule redis hash rule.name rule.limit rule.window_seconds subject)
      modify (set_header "X-RateLimit-Limit" rule.limit)
      modify (set_header "X-RateLimit-Remaining" (pos_part result.remaining))
      modify (set_header "X-RateLimit-Reset" result.ttl_seconds)
      if is_negative result.remaining
          then (do
            modify (set_header "Retry-After" result.ttl_seconds)
            throw (refused rule result))
          else pure tt

    unfoldable pub apply_rules : List RateLimitRule → RateLimitRequest → Exec GuardWorld (Unit {0})
    unfolding apply_rule
    apply_rules [] request = pure tt
    apply_rules (rule ∷ rules) request = do apply_rule rule request; apply_rules rules request

    unfoldable pub can_activate : RuleMetadata → RateLimitRequest → Exec GuardWorld (Unit {0})
    unfolding apply_rules get_rules
    can_activate metadata request = apply_rules (get_rules metadata request) request
