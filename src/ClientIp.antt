-- ===== src/ClientIp.antt =====
-- apps/backend/src/common/http/client-ip.ts: the client's address behind trusted proxies.
-- `is_ip` is `isIP` of node:net (4, 6, or 0 for no address). A bigint is a natural number, and
-- `Number` reads decimal digits only: other spellings of a number in a CIDR prefix are refused
-- here.
pub mod Audit
use Prim.Native.Nat.{bit_and}
use Prim.Native.Char.{code}
use redbox.Prelude.{
  ℕ, zero, suc, ◌+◌, ◌-◌, ◌*◌, ◌^◌, String, Bool, true, false, ◌&&◌, ◌||◌, List, [], ◌∷◌, ◌++◌, map,
  Option, none, some, ◌==◌, ◌===◌, if◌then◌else◌, or_else, or_try, leb, ltb, length, not, is_empty,
}
use mathlib.Core.List.{head?}
use redbox.Prelude.Text.{
  trim, is_blank, starts_with_char, tail, before, drop_last, includes, all_decimal, split,
  digits_value,
}

pub record TrustedNetwork : Type 0 where
  pub family : ℕ
  pub base : ℕ
  pub mask : ℕ

pub record ParsedIp : Type 0 where
  pub family : ℕ
  pub value : ℕ

-- What is read of an Express request.
pub record Request : Type 0 where
  pub remote_address : Option String
  pub ip : Option String
  pub header : String → Option String

-- TRUSTED_PROXY_CIDRS and TRUSTED_PROXY_IPS of the environment.
pub record ProxyEnv : Type 0 where
  pub trusted_proxy_cidrs : Option String
  pub trusted_proxy_ips : Option String

-- `trimmed.startsWith('[') ? trimmed.slice(1, trimmed.indexOf(']')) : trimmed`; without a
-- closing bracket `indexOf` is -1 and the slice ends before the last character.
unfoldable pub without_brackets : String → String
unfolding starts_with_char tail before drop_last
without_brackets s =
    if starts_with_char b'[' s then or_else (before b']' (tail s)) (drop_last (tail s)) else s

-- `s.replace(/:\d+$/, '')`
unfoldable pub strip_port : String → String
unfolding all_decimal is_blank
strip_port String.[] = String.[]
strip_port (String.◌∷◌ c s) =
    let rest = strip_port s in
    if code c == b':' && not (is_blank s) && all_decimal s then String.[] else String.◌∷◌ c rest

abbrev is_letter_f : ℕ → Bool
is_letter_f n = n == b'f' || n == b'F'

-- `s.replace(/^::ffff:/i, '')`
unfoldable pub strip_mapped : String → String
strip_mapped
      (String.◌∷◌ a (
        String.◌∷◌ b
          (String.◌∷◌ c (String.◌∷◌ d (String.◌∷◌ e (String.◌∷◌ f (String.◌∷◌ g s))))))) =
    if code a == b':'
      && code b == b':'
      && is_letter_f (code c)
      && is_letter_f (code d)
      && is_letter_f (code e)
      && is_letter_f (code f)
      && code g == b':'
    then s
    else String.◌∷◌ a
        (String.◌∷◌ b (String.◌∷◌ c (String.◌∷◌ d (String.◌∷◌ e (String.◌∷◌ f (String.◌∷◌ g s))))))
strip_mapped s = s

-- The groups of `ip.split('::')`: before the first `::`, and after it up to a second one.
unfoldable pub split_gap : String → String × String
split_gap String.[] = (String.[], String.[])
split_gap (String.◌∷◌ c String.[]) = (String.◌∷◌ c String.[], String.[])
split_gap (String.◌∷◌ c (String.◌∷◌ d s)) =
    let rest = split_gap (String.◌∷◌ d s) in
    let after = split_gap s in
    if code c == b':' && code d == b':' then (String.[], after.0) else (String.◌∷◌ c rest.0, rest.1)

-- `(acc << bits) + value` over the parts' values.
abbrev pub shift_in : ℕ → ℕ → List ℕ → ℕ
shift_in bits acc [] = acc
shift_in bits acc (v ∷ vs) = shift_in bits (acc * 2 ^ bits + v) vs

unfoldable pub ipv4_to_big_int : String → ℕ
unfolding split digits_value
ipv4_to_big_int ip = shift_in 8 0 (map (digits_value 10 0) (split b'.' ip))

-- `head ? head.split(':') : []`
abbrev groups : String → List String
groups s = if is_blank s then [] else split b':' s

-- `part ? parseInt(part, 16) : 0`
abbrev group_value : String → ℕ
group_value part = digits_value 16 0 part

abbrev zeros : ℕ → List ℕ
zeros zero = []
zeros (suc n) = 0 ∷ zeros n

unfoldable pub ipv6_to_big_int : String → ℕ
unfolding split digits_value split_gap is_blank
ipv6_to_big_int ip =
    let (head, rest) = split_gap ip in
    let head_parts = groups head in
    let tail_parts = groups rest in
    let missing_parts = 8 - length head_parts - length tail_parts in
    shift_in 16 0 (map group_value head_parts ++ zeros missing_parts ++ map group_value tail_parts)

-- `Number(s)`, or none for NaN.
unfoldable pub number : String → Option ℕ
unfolding trim is_blank all_decimal digits_value
number s =
    let t = trim s in
    if is_blank t then some 0 else if all_decimal t then some (digits_value 10 0 t) else none

abbrev pub non_blank : String → Option String
non_blank s = if is_blank s then none else some s

abbrev pub mask_of : ℕ → ℕ → ℕ
mask_of max_bits prefix =
    let all_bits = 2 ^ max_bits - 1 in
    let host_bits = max_bits - prefix in
    if host_bits == max_bits then 0 else bit_and (all_bits * 2 ^ host_bits) all_bits

abbrev pub holds : ParsedIp → TrustedNetwork → Bool
holds parsed network =
    network.family == parsed.family && bit_and parsed.value network.mask == network.base

unfoldable pub some_network : ParsedIp → List TrustedNetwork → Bool
some_network parsed [] = false
some_network parsed (network ∷ networks) = holds parsed network || some_network parsed networks

module _ (is_ip : String → ℕ) where
  unfoldable pub normalize_text : String → Option String
  unfolding trim is_blank without_brackets includes strip_port strip_mapped
  normalize_text value =
      let trimmed = trim value in
      let bare = without_brackets trimmed in
      let without_port =
        if includes b'.' bare && includes b':' bare then strip_port bare else bare in
      let address = strip_mapped without_port in
      if is_blank trimmed then none else if is_ip address == 0 then none else some address

  unfoldable pub normalize_ip : Option String → Option String
  unfolding normalize_text
  normalize_ip none = none
  normalize_ip (some value) = normalize_text value

  unfoldable pub parsed_of : String → Option ParsedIp
  unfolding ipv4_to_big_int ipv6_to_big_int
  parsed_of ip =
      let family = is_ip ip in
      if family == 4
      then some (record { family = 4; value = ipv4_to_big_int ip })
      else if family == 6
      then some (record { family = 6; value = ipv6_to_big_int ip })
      else none

  unfoldable pub ip_to_big_int : String → Option ParsedIp
  unfolding normalize_ip parsed_of
  ip_to_big_int ip = elim (normalize_ip (some ip)) [
    | none ↦ none
    | some normalized ↦ parsed_of normalized
  ]

  unfoldable pub network_of : String → Option ℕ → Option TrustedNetwork
  unfolding ip_to_big_int
  network_of ip none = none
  network_of ip (some prefix) =
      let max_bits = if is_ip ip == 4 then 32 else 128 in
      let mask = mask_of max_bits prefix in
      if ltb max_bits prefix then none else elim (ip_to_big_int ip) [
        | none ↦ none
        | some parsed ↦
            some (record { family = parsed.family; base = bit_and parsed.value mask; mask = mask })
      ]

  -- `[rawIp, rawPrefix]` of the entry; no prefix means the family's full width.
  unfoldable pub cidr_of : List String → Option TrustedNetwork
  unfolding normalize_ip network_of number
  cidr_of [] = none
  cidr_of (raw_ip ∷ []) = elim (normalize_ip (some raw_ip)) [
    | none ↦ none
    | some ip ↦ network_of ip (some (if is_ip ip == 4 then 32 else 128))
  ]
  cidr_of (raw_ip ∷ raw_prefix ∷ rest) = elim (normalize_ip (some raw_ip)) [
    | none ↦ none
    | some ip ↦ network_of ip (number raw_prefix)
  ]

  unfoldable pub parse_cidr : String → Option TrustedNetwork
  unfolding cidr_of split trim
  parse_cidr entry = cidr_of (split b'/' (trim entry))

  unfoldable pub networks_of : List String → List TrustedNetwork
  unfolding parse_cidr trim is_blank
  networks_of [] = []
  networks_of (entry ∷ entries) =
      let rest = networks_of entries in
      if is_blank (trim entry)
      then rest
      else elim (parse_cidr (trim entry)) [ none ↦ rest | some network ↦ network ∷ rest ]

  unfoldable pub get_trusted_proxy_networks : ProxyEnv → List TrustedNetwork
  unfolding networks_of split
  get_trusted_proxy_networks env =
      networks_of (split b',' (or_else (or_try env.trusted_proxy_cidrs env.trusted_proxy_ips) ""))

  unfoldable pub is_trusted_proxy : Option String → List TrustedNetwork → Bool
  unfolding ip_to_big_int some_network is_blank
  is_trusted_proxy none networks = false
  is_trusted_proxy (some remote_ip) networks =
      if is_blank remote_ip || is_empty networks then false else elim (ip_to_big_int remote_ip) [
        | none ↦ false
        | some parsed ↦ some_network parsed networks
      ]

  unfoldable pub first_forwarded_ip : Option String → Option String
  unfolding normalize_ip split
  first_forwarded_ip none = none
  first_forwarded_ip (some value) = normalize_ip (head? (split b',' value))

  abbrev pub forwarded : Request → Option String
  forwarded request = or_try (normalize_ip (request.header "cf-connecting-ip")) (
      or_try (normalize_ip (request.header "true-client-ip"))
        (first_forwarded_ip (request.header "x-forwarded-for")))

  unfoldable pub get_client_ip : ProxyEnv → Request → String
  get_client_ip env request =
      let remote_address =
        or_else (or_try (normalize_ip request.remote_address) (normalize_ip request.ip))
          "unknown" in
      if is_trusted_proxy (some remote_address) (get_trusted_proxy_networks env)
      then or_else (forwarded request) remote_address
      else remote_address
