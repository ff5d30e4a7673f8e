-- ===== src/ClientIp/Audit.antt =====
-- `getClientIpAuditContext` of client-ip.ts, and what it and `getClientIp` promise.
use redbox.Prelude.{
  ℕ, String, ◌≡◌, ◌≢◌, ◌⊎◌, inl, inr, Bool, true, false, refl, List, [], ◌∷◌, Option, none, some,
  arith, if◌then◌else◌, or_else, or_try, not, Option-cases, Bool-cases,
}
use mathlib.Core.List.{Memᴰ, head?}
use redbox.Prelude.Text.{is_blank, split}
use redbox.ClientIp.{
  Request, ProxyEnv, TrustedNetwork, ParsedIp, normalize_ip, normalize_text, is_trusted_proxy,
  some_network, get_trusted_proxy_networks, first_forwarded_ip, get_client_ip, holds, ip_to_big_int,
}

pub record AuditContext : Type 0 where
  pub ip_address : Option String
  pub ip_source : Option String
  pub proxy_trusted : Bool
  pub remote_address : Option String

-- A text that a condition takes for true.
unfoldable pub truthy : Option String → Bool
unfolding is_blank
truthy none = false
truthy (some s) = not (is_blank s)

some_network_sound :
    (parsed : ParsedIp) (networks : List TrustedNetwork)
    → some_network parsed networks ≡ true
    → (network : TrustedNetwork) × Memᴰ network networks × (holds parsed network ≡ true)
unfolding some_network
some_network_sound parsed [] h = cc
some_network_sound parsed (n ∷ ns) h = elim (Bool-cases (holds parsed n)) [
  | inl hit ↦ (n, Memᴰ.head refl, hit)
  | inr miss ↦
      let (m, listed, held) = some_network_sound parsed ns (ground arith) in
      (m, Memᴰ.tail listed, held)
]

module _ (is_ip : String → ℕ) where
  unfoldable pub get_client_ip_audit_context : ProxyEnv → Request → AuditContext
  unfolding truthy
  get_client_ip_audit_context env request =
      let remote =
        or_try (normalize_ip is_ip request.remote_address) (normalize_ip is_ip request.ip) in
      let trusted = is_trusted_proxy is_ip remote (get_trusted_proxy_networks is_ip env) in
      let cf = if trusted then normalize_ip is_ip (request.header "cf-connecting-ip") else none in
      let client = if trusted then normalize_ip is_ip (request.header "true-client-ip") else none in
      let first =
        if trusted then first_forwarded_ip is_ip (request.header "x-forwarded-for") else none in
      record {
        ip_address = or_try cf (or_try client (or_try first remote));
        ip_source =
            if truthy cf
            then some "cf-connecting-ip"
            else if truthy client
            then some "true-client-ip"
            else if truthy first
            then some "x-forwarded-for"
            else if truthy remote
            then some "remote-address"
            else none;
        proxy_trusted = trusted;
        remote_address = remote;
      }

  -- "unknown" is no address, so it is never a trusted proxy.
  unknown_untrusted :
      (networks : List TrustedNetwork)
      → is_ip "unknown" ≡ 0
      → is_trusted_proxy is_ip (some "unknown") networks ≡ false
  unfolding is_trusted_proxy
  unknown_untrusted networks h = ground arith

  none_untrusted : (networks : List TrustedNetwork) → is_trusted_proxy is_ip none networks ≡ false
  unfolding is_trusted_proxy
  none_untrusted networks = refl

  -- The audit log records the address that rate limiting uses, whatever the request.
  pub audit-get_client_ip :
      (env : ProxyEnv) (request : Request)
      → is_ip "unknown" ≡ 0
      → or_else (get_client_ip_audit_context env request).ip_address "unknown"
        ≡ get_client_ip is_ip env request
  unfolding get_client_ip_audit_context get_client_ip
  audit-get_client_ip env request h = ground (
    arith,
    unknown_untrusted (get_trusted_proxy_networks is_ip env) h,
    none_untrusted (get_trusted_proxy_networks is_ip env),
  )

  is_trusted_proxy_sound :
      (ip : String) (networks : List TrustedNetwork)
      → is_trusted_proxy is_ip (some ip) networks ≡ true
      → (parsed : ParsedIp) × (network : TrustedNetwork) × (ip_to_big_int is_ip ip ≡ some parsed)
        × Memᴰ network networks
        × (holds parsed network ≡ true)
  unfolding is_trusted_proxy
  is_trusted_proxy_sound ip networks h = elim (Option-cases (ip_to_big_int is_ip ip)) [
    | inl e ↦ absurd (ground arith)
    | inr (parsed, e) ↦
        let (network, listed, held) = some_network_sound parsed networks (ground arith) in
        (parsed, network, e, listed, held)
  ]

  -- The address that the socket or Express reports.
  abbrev pub reported : Request → String
  reported request =
      or_else (or_try (normalize_ip is_ip request.remote_address) (normalize_ip is_ip request.ip))
        "unknown"

  -- Headers change the client's address only where the reported address lies in a configured
  -- network: no other client can choose the address under which it is counted.
  pub headers_need_trust :
      (env : ProxyEnv) (request : Request) (headers : String → Option String)
      → get_client_ip is_ip env (record request { header = headers })
        ≢ get_client_ip is_ip env request
      → (parsed : ParsedIp) × (network : TrustedNetwork) × (ip_to_big_int is_ip (reported request)
          ≡ some parsed)
        × Memᴰ network (get_trusted_proxy_networks is_ip env)
        × (holds parsed network ≡ true)
  unfolding get_client_ip
  headers_need_trust env request headers h =
      is_trusted_proxy_sound (reported request) (get_trusted_proxy_networks is_ip env)
        (ground arith)

  normalize_text-is_ip : (value ip : String) → normalize_text is_ip value ≡ some ip → is_ip ip ≢ 0
  unfolding normalize_text
  normalize_text-is_ip value ip h = ground arith

  abbrev pub IsAddress : String → Type 0
  IsAddress ip = (is_ip ip ≢ 0) ⊎ (ip ≡ "unknown")

  normalize_ip-is_ip :
      (value : Option String) → (ip : String) → normalize_ip is_ip value ≡ some ip → is_ip ip ≢ 0
  unfolding normalize_ip
  normalize_ip-is_ip none ip h = cc
  normalize_ip-is_ip (some value) ip h = normalize_text-is_ip value ip h

  first_forwarded_ip-is_ip :
      (value : Option String) (ip : String)
      → first_forwarded_ip is_ip value ≡ some ip
      → is_ip ip ≢ 0
  unfolding first_forwarded_ip
  first_forwarded_ip-is_ip none ip h = cc
  first_forwarded_ip-is_ip (some value) ip h = normalize_ip-is_ip (head? (split b',' value)) ip h

  -- Whatever the headers hold, the client's address is an IP address or "unknown".
  pub get_client_ip-IsAddress :
      (env : ProxyEnv) (request : Request) → IsAddress (get_client_ip is_ip env request)
  unfolding get_client_ip
  get_client_ip-IsAddress env request =
      let ip = get_client_ip is_ip env request in
      ground (
        arith,
        normalize_ip-is_ip request.remote_address ip,
        normalize_ip-is_ip request.ip ip,
        normalize_ip-is_ip (request.header "cf-connecting-ip") ip,
        normalize_ip-is_ip (request.header "true-client-ip") ip,
        first_forwarded_ip-is_ip (request.header "x-forwarded-for") ip,
      )
