-- ===== src/Tests/Sharing.antt =====
-- A link and a bin with a password, in memory.
use redbox.Prelude.{
  ℕ, String, ◌≡◌, refl, [], ◌∷◌, none, some, ok, ◌===◌, ===_refl, ◌==◌, if◌then◌else◌,
}
use redbox.Prelude.Text.{is_blank, truthy}
use redbox.Redis.Memory.{memory_counters, no_counters, memory_texts}
use redbox.Database.Memory.{memory_table}
use redbox.Dates.{utc}
use redbox.Sharing.Links.{LinkServices, Link, Draw, create_link, attempt_create, get_original_url}
use redbox.Sharing.Codes.{get_original_url-create_link}
use redbox.Sharing.Bins.{
  Bin, BinContent, Services, World, get_bin_content, check_password, compare_password,
}
use redbox.Sharing.Gate.{Opened, get_bin_content-Opened}
use redbox.Sharing.Lockout.{IsGuarded, guesses, Refused, get_bin_content_locks}
use redbox.RateLimit.{assert_available, clear_attempts, build_rate_limit_key}

abbrev link_services : LinkServices
link_services = record {
  links = memory_table Link;
  same_text = λ a b. a === b;
  same_text-refl = ===_refl;
}

abbrev link_of : String → Link
link_of code = record {
  id = "l";
  original_url = "url";
  short_code = code;
  user_id = "u";
  created_at = 5;
}

-- The first code that is drawn is taken.
abbrev codes : ℕ → Draw
codes n = record { id = "l"; short_code = if n == 7 then "aa" else "bb" }

created : (create_link link_services 2 "u" "url" 5 codes (link_of "aa" ∷ [])).0 ≡ ok (link_of "bb")
unfolding create_link attempt_create
created = refl

get_original_url-create_link_example :
    ((get_original_url link_services "bb"
        (create_link link_services 2 "u" "url" 5 codes (link_of "aa" ∷ [])).1).0
      ≡ ok "url")
    × ((code other : String)
        → (get_original_url link_services code (link_of "aa" ∷ [])).0 ≡ ok other
        → (get_original_url link_services code
            (create_link link_services 2 "u" "url" 5 codes (link_of "aa" ∷ [])).1).0
          ≡ ok other)
get_original_url-create_link_example =
    get_original_url-create_link link_services 2 "u" "url" 5 codes (link_of "bb")
      (link_of "aa" ∷ []) created

abbrev services : Services
services = record {
  texts = memory_texts String;
  counters = memory_counters;
  bins = memory_table Bin;
  dates = utc;
  hash = λ s. s;
  bcrypt_hash = λ s. s;
  bcrypt_compare = λ a b. a === b;
  encrypt = λ key iv text. text;
  decrypt = λ key iv text. some text;
  bin_limit = 100;
}

abbrev bin : Bin
bin = record {
  id = "b";
  content = "text";
  size = 4;
  title = "t";
  user_id = "u";
  expires_at = some 100;
  password_hash = some "pw";
  encrypted_bin_key = "k";
  bin_key_iv = "iv";
  share_token = "tok";
}

abbrev world : World services
world = record { master_keys = λ k. none; counters = no_counters; bins = bin ∷ [] }

abbrev content : BinContent
content = record { title = "t"; content = "text"; expires_at = some 100 }

opened : (get_bin_content services "b" "tok" (some "pw") "1.2.3.4" 50 world).0 ≡ ok content
unfolding get_bin_content check_password compare_password truthy is_blank assert_available
    clear_attempts build_rate_limit_key
opened = refl

get_bin_content-Opened_example : Opened services "b" "tok" (some "pw") 50 content world
get_bin_content-Opened_example =
    get_bin_content-Opened services "b" "tok" (some "pw") "1.2.3.4" 50 content world opened

guarded : IsGuarded services bin "pw" "1.2.3.4" 50 world
unfolding truthy is_blank
guarded = record { found = refl; live = refl; locked = refl }

given : truthy (some "no") ≡ some "no"
unfolding truthy is_blank
given = refl

right : truthy (some "pw") ≡ some "pw"
unfolding truthy is_blank
right = refl

get_bin_content_locks_example :
    Refused services bin "pw" "1.2.3.4" 50
      (get_bin_content services "b" "tok"
        (some "pw")
        "1.2.3.4"
        50
        (guesses services bin "pw" "1.2.3.4" 50 10 (λ i. "no") world)).0
get_bin_content_locks_example =
    get_bin_content_locks services bin "pw" "1.2.3.4" 50 (λ i. "no") "pw" world guarded (λ i. given)
      (λ i. refl) refl right
