-- ===== src/Sharing/Bins.antt =====
-- bins.service.ts. Drawn values (the id, the share token, the initialisation vector) and the time
-- are arguments; BIN_LIMIT is a field of the services. Lists are unordered. `createdAt` and the
-- size are kept as they are given.
use redbox.Prelude.{
  ℕ, ◌*◌, String, Bool, false, not, List, [], ◌∷◌, map, length, Option, none, some, ◌===◌,
  if◌then◌else◌, ltb, leb, or_else, template, Exec, bad_request, unauthorized, forbidden, not_found,
  pure, throw, gets, modify, ◌>>=◌, ◌>>◌,
}
use redbox.Prelude.Text.{truthy}
use redbox.Redis.{Counters, Texts}
use redbox.Database.{Table, find_first, find_many}
use redbox.Dates.{DateFns}
use redbox.RateLimit.{assert_available, consume_attempt, clear_attempts}

pub record Bin : Type 0 where
  pub id : String
  pub content : String
  pub size : ℕ
  pub title : String
  pub user_id : String
  pub expires_at : Option ℕ
  pub password_hash : Option String
  pub encrypted_bin_key : String
  pub bin_key_iv : String
  pub share_token : String

pub record CreateBinDto : Type 0 where
  pub content : String
  pub size : ℕ
  pub title : Option String
  pub bin_key : String
  pub password : Option String
  pub expires_in : Option String

pub record BinDraws : Type 0 where
  pub id : String
  pub share_token : String
  pub bin_key_iv : String

-- An entry of `getUserBins`, and the answer of `getBinContent`.
pub record BinEntry : Type 0 where
  pub id : String
  pub title : String
  pub share_link : String

pub record BinContent : Type 0 where
  pub title : String
  pub content : String
  pub expires_at : Option ℕ

-- `decrypt` is `none` where the decipher throws.
pub record Services : Type 1 where
  pub texts : Texts String
  pub counters : Counters
  pub bins : Table Bin
  pub dates : DateFns
  pub hash : String → String
  pub bcrypt_hash : String → String
  pub bcrypt_compare : String → String → Bool
  pub encrypt : String → String → String → String
  pub decrypt : String → String → String → Option String
  pub bin_limit : ℕ

pub record World (sv : Services) : Type 0 where
  pub master_keys : sv.texts.State
  pub counters : sv.counters.State
  pub bins : sv.bins.State

unfoldable pub calculate_expiration : DateFns → ℕ → Option String → Option ℕ
unfolding truthy
calculate_expiration dates now expires_in = elim (truthy expires_in) [
  | none ↦ some (dates.add_days now 30)
  | some e ↦
      if e === "30d"
      then some (dates.add_days now 30)
      else if e === "never"
      then none
      else if e === "1h"
      then some (dates.add_hours now 1)
      else if e === "24h"
      then some (dates.add_hours now 24)
      else if e === "7d"
      then some (dates.add_days now 7)
      else some (dates.add_days now 30)
]

-- `expiresAt && new Date() > expiresAt`
abbrev pub has_expired : ℕ → Bin → Bool
has_expired now b = elim b.expires_at [ none ↦ false | some t ↦ ltb t now ]

abbrev pub password_namespace : String
password_namespace = "bins:get:password-failure"

unfoldable pub password_attempt_subject : String → String → String
password_attempt_subject id client_ip = template ("bin:" ∷ id ∷ ":ip:" ∷ client_ip ∷ [])

abbrev pub password_limit : ℕ
password_limit = 10

abbrev pub password_window : ℕ
password_window = 15 * 60

module _ (sv : Services) where
  abbrev pub bin_with : String → World sv → Option Bin
  bin_with bin_id w = find_first sv.bins w.bins (λ b. b.id === bin_id)

  abbrev pub delete_row : String → World sv → World sv
  delete_row bin_id w = record w { bins = sv.bins.delete_many w.bins (λ b. b.id === bin_id) }

  -- A call of the rate limit service.
  abbrev pub on_counters : {A : Type 0} → Exec sv.counters.State A → Exec (World sv) A
  on_counters m w = ((m w.counters).0, record w { counters = (m w.counters).1 })

  abbrev pub session_key : String → World sv → Option String
  session_key user_id w =
      truthy (sv.texts.get w.master_keys (template ("masterkey:" ∷ user_id ∷ [])))

  abbrev pub new_bin : String → CreateBinDto → ℕ → BinDraws → String → Bin
  new_bin user_id dto now draws master_key = record {
    id = draws.id;
    content = dto.content;
    size = dto.size;
    title = or_else (truthy dto.title) "Untitled Bin";
    user_id = user_id;
    expires_at = calculate_expiration sv.dates now dto.expires_in;
    password_hash = elim (truthy dto.password) [ none ↦ none | some p ↦ some (sv.bcrypt_hash p) ];
    encrypted_bin_key = sv.encrypt master_key draws.bin_key_iv dto.bin_key;
    bin_key_iv = draws.bin_key_iv;
    share_token = draws.share_token;
  }

  unfoldable pub create_bin : String → CreateBinDto → ℕ → BinDraws → Exec (World sv) Bin
  create_bin user_id dto now draws = do
    session ← gets (session_key user_id)
    mine ← gets (λ w. find_many sv.bins w.bins (λ b. b.user_id === user_id))
    elim session [
      | none ↦ throw (unauthorized "Session expired")
      | some master_key ↦
          if leb sv.bin_limit (length mine)
          then throw (bad_request "You have reached your limit of bins.")
          else (do
            let bin = new_bin user_id dto now draws master_key
            modify (λ w. record w { bins = sv.bins.create w.bins bin })
            pure bin)
    ]

  abbrev pub entry_of : String → Bin → BinEntry
  entry_of master_key b = record {
    id = b.id;
    title = b.title;
    share_link = template (
        "/b/"
        ∷ b.id
        ∷ "?token="
        ∷ b.share_token
        ∷ "#"
        ∷ or_else (sv.decrypt master_key b.bin_key_iv b.encrypted_bin_key) "error"
        ∷ []);
  }

  unfoldable pub get_user_bins : String → Exec (World sv) (List BinEntry)
  get_user_bins user_id = do
    session ← gets (session_key user_id)
    mine ← gets (λ w. find_many sv.bins w.bins (λ b. b.user_id === user_id))
    elim session [
      | none ↦ throw (unauthorized "Session expired")
      | some master_key ↦ pure (map (entry_of master_key) mine)
    ]

  -- The comparison of the given password.
  unfoldable pub compare_password : String → String → String → Exec (World sv) (Unit {0})
  compare_password subject provided password_hash =
      if sv.bcrypt_compare provided password_hash
      then on_counters (clear_attempts sv.counters sv.hash password_namespace subject)
      else on_counters (
          consume_attempt sv.counters sv.hash password_namespace subject password_limit
            password_window)
        >> throw (forbidden "Incorrect password")

  -- The password gatekeeper.
  unfoldable pub check_password :
      Option String → String → String → Option String → Exec (World sv) (Unit {0})
  check_password none id client_ip provided = pure tt
  check_password (some password_hash) id client_ip none =
      throw (forbidden "This bin is password protected")
  check_password (some password_hash) id client_ip (some provided) = do
    on_counters (
        assert_available sv.counters sv.hash password_namespace
          (password_attempt_subject id client_ip) password_limit password_window)
    compare_password (password_attempt_subject id client_ip) provided password_hash

  unfoldable pub get_bin_content :
      String → String → Option String → String → ℕ → Exec (World sv) BinContent
  get_bin_content bin_id token provided_password client_ip now = do
    found ← gets (bin_with bin_id)
    elim found [
      | none ↦ throw (not_found "Bin not found or invalid token")
      | some b ↦
          if not (b.share_token === token)
          then throw (not_found "Bin not found or invalid token")
          else if has_expired now b
          then modify (delete_row b.id) >> throw (not_found "Bin has expired")
          else check_password (truthy b.password_hash) b.id client_ip (truthy provided_password)
            >> pure (record { title = b.title; content = b.content; expires_at = b.expires_at })
    ]

  unfoldable pub delete_bin : String → String → Exec (World sv) (Unit {0})
  delete_bin user_id bin_id = do
    found ← gets (bin_with bin_id)
    elim found [
      | none ↦ throw (not_found "Bin not found")
      | some b ↦
          if not (b.user_id === user_id)
          then throw (not_found "Bin not found")
          else modify (delete_row bin_id)
    ]

  unfoldable pub handle_cleanup : ℕ → World sv → World sv
  handle_cleanup now w = record w { bins = sv.bins.delete_many w.bins (has_expired now) }
