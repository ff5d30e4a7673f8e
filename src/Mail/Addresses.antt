-- ===== src/Mail/Addresses.antt =====
-- The regular expressions of common/mail/admin-mail-aliases.ts, as functions on texts.
use Prim.Native.Char.{Char, code}
use redbox.Prelude.{
  ℕ, ◌+◌, ◌-◌, zero, suc, String, Bool, not, ◌&&◌, ◌||◌, Option, none, some, leb, ◌==◌,
  if◌then◌else◌, [], ◌∷◌, or_try, template,
}
use redbox.Prelude.Text.{is_blank, before}

unfoldable pub is_lower : Char → Bool
is_lower c = leb b'a' (code c) && leb (code c) b'z'

unfoldable pub is_letter : Char → Bool
unfolding is_lower
is_letter c = is_lower c || (leb b'A' (code c) && leb (code c) b'Z')

unfoldable pub is_digit : Char → Bool
is_digit c = leb b'0' (code c) && leb (code c) b'9'

-- [A-Z0-9._%+-] and [A-Z0-9.-], in any case.
unfoldable pub is_local : Char → Bool
unfolding is_letter is_digit
is_local c =
    let n = code c in
    is_letter c || is_digit c || n == b'.' || n == b'_' || n == b'%' || n == b'+' || n == b'-'

unfoldable pub is_domain : Char → Bool
unfolding is_letter is_digit
is_domain c = let n = code c in is_letter c || is_digit c || n == b'.' || n == b'-'

-- The longest beginning whose characters all pass, and what is after it.
unfoldable pub span : (Char → Bool) → String → String × String
span p String.[] = (String.[], String.[])
span p (String.◌∷◌ c s) =
    let rest = span p s in
    if p c then (String.◌∷◌ c rest.0, rest.1) else (String.[], String.◌∷◌ c s)

unfoldable pub size : String → ℕ
size String.[] = 0
size (String.◌∷◌ c s) = size s + 1

-- `\.[A-Z]{2,}` at the start.
unfoldable pub top_level : String → Option String
unfolding span size is_letter
top_level String.[] = none
top_level (String.◌∷◌ c s) =
    let letters = (span is_letter s).0 in
    if code c == b'.' && leb 2 (size letters) then some (String.◌∷◌ c letters) else none

-- `[A-Z0-9.-]*\.[A-Z]{2,}` at the start of a run of domain characters: the last dot that serves.
unfoldable pub domain_rest : String → Option String
unfolding top_level
domain_rest String.[] = none
domain_rest (String.◌∷◌ c s) =
    let later = domain_rest s in
    let here = top_level (String.◌∷◌ c s) in
    elim later [ some d ↦ some (String.◌∷◌ c d) | none ↦ here ]

-- `[A-Z0-9.-]+\.[A-Z]{2,}`
unfoldable pub domain_match : String → Option String
unfolding span is_domain domain_rest
domain_match s = elim (span is_domain s).0 [
  | String.[] ↦ none
  | String.◌∷◌ c run ↦ elim (domain_rest run) [ none ↦ none | some d ↦ some (String.◌∷◌ c d) ]
]

-- `[A-Z0-9._%+-]+@[A-Z0-9.-]+\.[A-Z]{2,}` at the start of a run of local characters.
unfoldable pub email_at : String → Option String
unfolding span is_local domain_match is_blank
email_at s =
    let (local, rest) = span is_local s in
    elim rest [
      | String.[] ↦ none
      | String.◌∷◌ c t ↦
          if code c == b'@' && not (is_blank local)
          then elim (domain_match t) [
            | none ↦ none
            | some d ↦ some (template (local ∷ "@" ∷ d ∷ []))
          ]
          else none
    ]

-- The first match. A later start in one run of local characters meets the same `@`.
unfoldable pub first_email : String → Option String
unfolding email_at
first_email String.[] = none
first_email (String.◌∷◌ c s) = or_try (email_at (String.◌∷◌ c s)) (first_email s)

-- `<([^>]+)>`: the first match's group.
unfoldable pub angle_match : String → Option String
unfolding before is_blank
angle_match String.[] = none
angle_match (String.◌∷◌ c s) =
    let later = angle_match s in
    if code c == b'<'
    then elim (before b'>' s) [ none ↦ later | some g ↦ if is_blank g then later else some g ]
    else later

unfoldable pub letter_at : ℕ → String → Char → Char
letter_at n String.[] d = d
letter_at zero (String.◌∷◌ c s) d = c
letter_at (suc n) (String.◌∷◌ c s) d = letter_at n s d

unfoldable pub lower_char : Char → Char
unfolding letter_at
lower_char c =
    if leb b'A' (code c) && leb (code c) b'Z'
    then letter_at (code c - b'A') "abcdefghijklmnopqrstuvwxyz" c
    else c

-- `toLowerCase()` on ASCII.
unfoldable pub to_lower_case : String → String
unfolding lower_char
to_lower_case String.[] = String.[]
to_lower_case (String.◌∷◌ c s) = String.◌∷◌ (lower_char c) (to_lower_case s)
