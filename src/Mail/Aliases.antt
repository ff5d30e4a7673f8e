-- ===== src/Mail/Aliases.antt =====
-- common/mail/admin-mail-aliases.ts: the addresses of a mail, and the mailbox that they lead to.
use Prim.Native.Char.{Char, code}
use redbox.Prelude.{
  String, Bool, true, false, not, ◌&&◌, ◌||◌, List, [], ◌∷◌, map, Option, none, some, leb, ◌==◌,
  ◌===◌, if◌then◌else◌, or_else, or_try, find, keep, contains, template, Result, ok, err, fault,
}
use redbox.Prelude.Text.{is_space, is_blank, trim, split, split_where, truthy}
use redbox.Mail.Addresses.{is_lower, is_digit, size, first_email, angle_match, to_lower_case}

-- MAIL_ADMIN_FORWARD_USERNAME and MAIL_ADMIN_FORWARD_ALIASES, as optionalEnv reads them.
pub record MailEnv : Type 0 where
  pub forward_username : Option String
  pub forward_aliases : Option String

-- A value that is no text is `none`.
unfoldable pub extract_mail_address : Option String → String
unfolding trim to_lower_case angle_match first_email
extract_mail_address none = ""
extract_mail_address (some value) =
    let trimmed = trim value in
    trim (to_lower_case (or_else (or_try (angle_match trimmed) (first_email trimmed)) trimmed))

-- [,\s;]
unfoldable pub is_separator : Char → Bool
unfolding is_space
is_separator c = code c == b',' || code c == b';' || is_space c

-- A run of separators splits at each of them: the empty texts between them are filtered out.
unfoldable pub get_admin_forward_aliases : MailEnv → List String
unfolding split_where is_separator extract_mail_address is_blank
get_admin_forward_aliases env =
    let raw = or_else env.forward_aliases "" in
    keep (λ s. not (is_blank s))
      (map (λ alias. extract_mail_address (some alias)) (split_where is_separator raw))

-- [a-z0-9_-]
unfoldable pub is_username_char : Char → Bool
unfolding is_lower is_digit
is_username_char c = is_lower c || is_digit c || code c == b'_' || code c == b'-'

unfoldable pub all_chars : (Char → Bool) → String → Bool
all_chars p String.[] = true
all_chars p (String.◌∷◌ c s) = p c && all_chars p s

-- USERNAME_PATTERN
unfoldable pub username_pattern : String → Bool
unfolding size all_chars is_username_char
username_pattern s = leb 3 (size s) && leb (size s) 50 && all_chars is_username_char s

unfoldable pub get_admin_forward_username : MailEnv → Result (Option String)
unfolding username_pattern truthy
get_admin_forward_username env = elim (truthy env.forward_username) [
  | none ↦ ok none
  | some username ↦ if username_pattern username then ok (some username) else err fault
]

-- [^\s@<>]
unfoldable pub is_address_char : Char → Bool
unfolding is_space
is_address_char c = not (is_space c || code c == b'@' || code c == b'<' || code c == b'>')

-- A dot with something after it.
unfoldable pub has_dot_before_end : String → Bool
unfolding is_blank
has_dot_before_end String.[] = false
has_dot_before_end (String.◌∷◌ c s) = (code c == b'.' && not (is_blank s)) || has_dot_before_end s

-- A dot with something before and after it.
unfoldable pub has_inner_dot : String → Bool
unfolding has_dot_before_end
has_inner_dot String.[] = false
has_inner_dot (String.◌∷◌ c s) = has_dot_before_end s

unfoldable pub is_full_email_address : String → Bool
unfolding split is_address_char all_chars has_inner_dot is_blank
is_full_email_address value = elim (split b'@' value) [
  | local ∷ domain ∷ [] ↦
      not (is_blank local)
      && all_chars is_address_char local
      && all_chars is_address_char domain
      && has_inner_dot domain
  | _ ↦ false
]

-- `recipient !== primaryAdminAddress`
abbrev pub is_not_primary : Option String → String → Bool
is_not_primary none recipient = true
is_not_primary (some username) recipient =
    not (recipient === template (username ∷ "@redbox.cx" ∷ []))

unfoldable pub choose_recipient : List String → Option String → List String → String → String
choose_recipient aliases username recipients first =
    or_else
      (or_try (find (λ r. is_not_primary username r && contains r aliases) recipients) (
        or_try (find (λ r. contains r aliases) recipients) (find is_full_email_address recipients)))
      first

unfoldable pub resolve_incoming_recipient_address : MailEnv → List (Option String) → Result String
unfolding extract_mail_address is_blank choose_recipient
resolve_incoming_recipient_address env raw_recipients =
    elim (keep (λ s. not (is_blank s)) (map extract_mail_address raw_recipients)) [
      | [] ↦ ok "unknown"
      | first ∷ others ↦ elim (get_admin_forward_username env) [
        | err e ↦ err e
        | ok username ↦
            ok (choose_recipient (get_admin_forward_aliases env) username (first ∷ others) first)
      ]
    ]

-- `cleanEmail.split('@')[0]?.trim() || 'unknown'`
unfoldable pub local_part : String → String
unfolding split trim truthy
local_part clean_email = elim (split b'@' clean_email) [
  | [] ↦ "unknown"
  | head ∷ rest ↦ or_else (truthy (some (trim head))) "unknown"
]

unfoldable pub resolve_incoming_mailbox_username : MailEnv → Option String → Result String
unfolding extract_mail_address is_blank local_part
resolve_incoming_mailbox_username env raw_recipient =
    let clean_email = extract_mail_address raw_recipient in
    if is_blank clean_email then ok "unknown" else elim (get_admin_forward_username env) [
      | err e ↦ err e
      | ok none ↦ ok (local_part clean_email)
      | ok (some username) ↦ ok (
          if contains clean_email (get_admin_forward_aliases env)
          then username
          else local_part clean_email)
    ]
