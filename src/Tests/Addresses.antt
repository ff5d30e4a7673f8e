-- ===== src/Tests/Addresses.antt =====
-- Client addresses behind a proxy.
use redbox.Prelude.{
  ℕ, String, ◌≡◌, refl, ◌≢◌, true, Option, none, some, or_else, if◌then◌else◌, ◌===◌, eq_iff,
}
use mathlib.Core.List.{Memᴰ}
use mathlib.Core.Bool.{false≢true}
use redbox.Prelude.Text.{includes}
use redbox.ClientIp.{
  ParsedIp, holds, Request, ProxyEnv, TrustedNetwork, get_client_ip, is_trusted_proxy, normalize_ip,
  ip_to_big_int, get_trusted_proxy_networks, first_forwarded_ip,
}
use redbox.ClientIp.Audit.{
  get_client_ip_audit_context, audit-get_client_ip, headers_need_trust, get_client_ip-IsAddress,
  IsAddress, reported,
}

-- Texts with a dot are IPv4 addresses, and texts with a colon IPv6 addresses.
simple_is_ip : String → ℕ
unfolding includes
simple_is_ip s = if includes b'.' s then 4 else if includes b':' s then 6 else 0

abbrev proxy_env : ProxyEnv
proxy_env = record { trusted_proxy_cidrs = some "10.0.0.0/8, ::1"; trusted_proxy_ips = none }

abbrev header_of : String → String → Option String
header_of value name = if name === "x-forwarded-for" then some value else none

abbrev request_of : String → Request
request_of value = record {
  remote_address = some "::ffff:10.1.2.3";
  ip = none;
  header = header_of value;
}

forwarded_first :
    get_client_ip simple_is_ip proxy_env (request_of " 203.0.113.9:443, 10.0.0.1") ≡ "203.0.113.9"
unfolding get_client_ip simple_is_ip normalize_ip is_trusted_proxy get_trusted_proxy_networks
    first_forwarded_ip
forwarded_first = refl

unknown_is_no_ip : simple_is_ip "unknown" ≡ 0
unfolding simple_is_ip
unknown_is_no_ip = refl

audit-get_client_ip_example :
    or_else
      (get_client_ip_audit_context simple_is_ip proxy_env (request_of "203.0.113.9")).ip_address
      "unknown"
    ≡ get_client_ip simple_is_ip proxy_env (request_of "203.0.113.9")
audit-get_client_ip_example =
    audit-get_client_ip simple_is_ip proxy_env (request_of "203.0.113.9") unknown_is_no_ip

get_client_ip-IsAddress_example :
    IsAddress simple_is_ip (get_client_ip simple_is_ip proxy_env (request_of "nonsense"))
get_client_ip-IsAddress_example =
    get_client_ip-IsAddress simple_is_ip proxy_env (request_of "nonsense")

headers_matter :
    get_client_ip simple_is_ip proxy_env
      (record (request_of "203.0.113.9") { header = header_of "1.2.3.4" })
    ≢ get_client_ip simple_is_ip proxy_env (request_of "203.0.113.9")
unfolding get_client_ip simple_is_ip normalize_ip is_trusted_proxy get_trusted_proxy_networks
    first_forwarded_ip
headers_matter e = false≢true ((eq_iff "1.2.3.4" "203.0.113.9").1 e)

headers_need_trust_example :
    (parsed : ParsedIp) × (network : TrustedNetwork) × (ip_to_big_int simple_is_ip
        (reported simple_is_ip (request_of "203.0.113.9"))
      ≡ some parsed)
    × Memᴰ network (get_trusted_proxy_networks simple_is_ip proxy_env)
    × (holds parsed network ≡ true)
headers_need_trust_example =
    headers_need_trust simple_is_ip proxy_env (request_of "203.0.113.9") (header_of "1.2.3.4")
      headers_matter

-- A prefix that is left empty, as in `10.0.0.0/`, reads as the number 0: the network holds every
-- address of its family.
empty_prefix_trusts_all :
    is_trusted_proxy simple_is_ip (some "203.0.113.9") (
      get_trusted_proxy_networks simple_is_ip
        (record { trusted_proxy_cidrs = some "10.0.0.0/"; trusted_proxy_ips = none }))
    ≡ true
unfolding simple_is_ip is_trusted_proxy get_trusted_proxy_networks
empty_prefix_trusts_all = refl
