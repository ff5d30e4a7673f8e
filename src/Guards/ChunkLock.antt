-- ===== src/Guards/ChunkLock.antt =====
-- apps/backend/src/files/upload-chunk-concurrency.guard.ts: one chunk of an upload at a time.
use redbox.Prelude.{
  ℕ, ◌*◌, String, Bool, true, false, ◌&&◌, [], ◌∷◌, Option, none, some, leb, ◌==◌, if◌then◌else◌,
  is_some, template, Exec, Result, ok, err, bad_request, conflict, or_try,
}
use redbox.Prelude.Text.{split, digit, truthy}
use redbox.Redis.{Texts, release_script}
use redbox.Mail.Addresses.{size}
use redbox.Mail.Aliases.{all_chars}

abbrev pub upload_request_lock_seconds : ℕ
upload_request_lock_seconds = 60 * 60

-- [0-9a-f]{n}, in any case.
unfoldable pub is_hex : ℕ → String → Bool
unfolding digit all_chars size
is_hex n s = size s == n && all_chars (λ c. is_some (digit c)) s

-- The first character's value, from `low` to `high`.
unfoldable pub first_within : ℕ → ℕ → String → Bool
unfolding digit
first_within low high String.[] = false
first_within low high (String.◌∷◌ c s) = elim (digit c) [
  | none ↦ false
  | some d ↦ leb low d && leb d high
]

-- UUID_PATTERN
unfoldable pub is_uuid : String → Bool
unfolding split is_hex first_within
is_uuid s = elim (split b'-' s) [
  | a ∷ b ∷ c ∷ d ∷ e ∷ [] ↦
      is_hex 8 a
      && is_hex 4 b
      && (is_hex 4 c && first_within 1 5 c)
      && (is_hex 4 d && first_within 8 11 d)
      && is_hex 12 e
  | _ ↦ false
]

unfoldable pub lock_key : String → String → String
lock_key user_id upload_id = template ("upload:request-lock:" ∷ user_id ∷ ":" ∷ upload_id ∷ [])

-- What the closure `release` works on: `released` beside Redis.
module _ (redis : Texts String) where
  open redis use {State, set_nx}

  pub record Lock : Type 0 where
    pub key : String
    pub token : String
    pub released : Bool

  abbrev pub acquired : String → String → State × Bool → Result Lock × State
  acquired key token (s, true) = (ok (record { key = key; token = token; released = false }), s)
  acquired key token (s, false) = (err (conflict "Another chunk is already being uploaded"), s)

  -- `token` is the drawn uuid.
  unfoldable pub can_activate : Option String → Option String → String → String → Exec State Lock
  unfolding truthy is_uuid lock_key
  can_activate user_id user_sub upload_id token s = elim (truthy (or_try user_id user_sub)) [
    | none ↦ (err (bad_request "Authenticated user is missing"), s)
    | some user ↦
        if is_uuid upload_id
        then acquired (lock_key user upload_id) token
            (set_nx s (lock_key user upload_id) token upload_request_lock_seconds)
        else (err (bad_request "Invalid Upload ID"), s)
  ]

  -- `release`, which `finish` and `close` of the response call.
  unfoldable pub release : Lock → State → Lock × State
  release lock s =
      if lock.released
      then (lock, s)
      else (record lock { released = true }, release_script redis lock.key lock.token s)
