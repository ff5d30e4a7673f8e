-- ===== src/Prelude/Text.antt =====
-- The JavaScript string functions that the sources use, over texts as lists of characters.
-- `toLowerCase` is for ASCII; `trim` removes the white space of ECMAScript.
use Prim.Native.Nat.{ℕ, ◌+◌, ◌-◌, ◌*◌}
use Prim.Native.Char.{Char, code}
use Prim.Native.String.{String}
use mathlib.Core.Bool.{Bool, true, false, ◌&&◌, ◌||◌}
use mathlib.Core.Option.{Option, none, some}
use mathlib.Core.List.{List, [], ◌∷◌}
use redbox.Prelude.Tests.{ltb, leb, ◌==◌, if◌then◌else◌}

unfoldable pub is_space : Char → Bool
is_space c =
    let n = code c in
    (leb 9 n && leb n 13)
    || n == 32
    || n == 160
    || n == 0x1680
    || (leb 0x2000 n && leb n 0x200a)
    || n == 0x2028
    || n == 0x2029
    || n == 0x202f
    || n == 0x205f
    || n == 0x3000
    || n == 0xfeff

unfoldable pub is_blank : String → Bool
is_blank String.[] = true
is_blank (String.◌∷◌ c s) = false

trim_start : String → String
unfolding is_space
trim_start String.[] = String.[]
trim_start (String.◌∷◌ c s) = let rest = trim_start s in if is_space c then rest else String.◌∷◌ c s

trim_end : String → String
unfolding is_space is_blank
trim_end String.[] = String.[]
trim_end (String.◌∷◌ c s) =
    let rest = trim_end s in if is_space c && is_blank rest then String.[] else String.◌∷◌ c rest

-- `s.trim()`
unfoldable pub trim : String → String
unfolding trim_start trim_end
trim s = trim_end (trim_start s)

-- A digit's value in hexadecimal, or none.
unfoldable pub digit : Char → Option ℕ
digit c =
    let n = code c in
    if leb b'0' n && leb n b'9'
    then some (n - b'0')
    else if leb b'a' n && leb n b'f'
    then some (n - b'a' + 10)
    else if leb b'A' n && leb n b'F'
    then some (n - b'A' + 10)
    else none

unfoldable pub is_decimal : Char → Bool
is_decimal c = leb b'0' (code c) && leb (code c) b'9'

unfoldable pub all_decimal : String → Bool
unfolding is_decimal
all_decimal String.[] = true
all_decimal (String.◌∷◌ c s) = is_decimal c && all_decimal s

-- `s.includes(c)` for one character, by its number.
unfoldable pub includes : ℕ → String → Bool
includes n String.[] = false
includes n (String.◌∷◌ c s) = code c == n || includes n s

unfoldable pub starts_with_char : ℕ → String → Bool
starts_with_char n String.[] = false
starts_with_char n (String.◌∷◌ c s) = code c == n

add_head : Char → List String → List String
add_head c [] = String.◌∷◌ c String.[] ∷ []
add_head c (w ∷ ws) = String.◌∷◌ c w ∷ ws

-- `s.split(c)` for one character.
unfoldable pub split : ℕ → String → List String
unfolding add_head
split n String.[] = "" ∷ []
split n (String.◌∷◌ c s) =
    let rest = split n s in if code c == n then "" ∷ rest else add_head c rest

-- `s.split(/[...]/)` for a set of characters.
unfoldable pub split_where : (Char → Bool) → String → List String
unfolding add_head
split_where p String.[] = "" ∷ []
split_where p (String.◌∷◌ c s) =
    let rest = split_where p s in if p c then "" ∷ rest else add_head c rest

-- The part before the first `n`; `none` if there is none.
unfoldable pub before : ℕ → String → Option String
before n String.[] = none
before n (String.◌∷◌ c s) =
    let rest = before n s in
    if code c == n
    then some String.[]
    else elim rest [ none ↦ none | some w ↦ some (String.◌∷◌ c w) ]

-- `s.slice(0, -1)`
unfoldable pub drop_last : String → String
drop_last String.[] = String.[]
drop_last (String.◌∷◌ c String.[]) = String.[]
drop_last (String.◌∷◌ c (String.◌∷◌ d s)) = String.◌∷◌ c (drop_last (String.◌∷◌ d s))

unfoldable pub tail : String → String
tail String.[] = String.[]
tail (String.◌∷◌ c s) = s

-- The value of a run of digits in base `b`, up to the first character that is none: `parseInt`.
unfoldable pub digits_value : ℕ → ℕ → String → ℕ
unfolding digit
digits_value b acc String.[] = acc
digits_value b acc (String.◌∷◌ c s) = elim (digit c) [
  | none ↦ acc
  | some d ↦ if ltb d b then digits_value b (acc * b + d) s else acc
]

-- A text that is missing or empty is falsy.
unfoldable pub truthy : Option String → Option String
unfolding is_blank
truthy none = none
truthy (some s) = if is_blank s then none else some s
