-- ===== src/RateLimit/ClientIp.antt =====
-- The address that the limiter counts a request under (`client_identifier` and
-- `effective_client_ip` of lineagelens-backend/app/core/rate_limit.py).
use lineagelens.Prelude.{
  String, ◌≡◌, ap, ◌∙◌, Bool, true, false, not, Option, none, some, List, [], ◌∷◌, ◌++◌, any,
  filter, map, reverse, str_eq, if◌then◌else◌, All,
}
use lineagelens.Attestation.{text_or}

-- `str.strip()` and `str.split(",")`.
pub record Splitting : Type 0 where
  pub strip : String → String
  pub split : String → List String

abbrev pub is_blank : String → Bool
is_blank s = str_eq s ""

abbrev pub is_member : String → List String → Bool
is_member ip ips = any (str_eq ip) ips

-- The first of `ips` that is not trusted.
unfoldable pub first_untrusted : List String → List String → Option String
first_untrusted trusted [] = none
first_untrusted trusted (ip ∷ ips) =
    let rest = first_untrusted trusted ips in if is_member ip trusted then rest else some ip

module _ (t : Splitting) where
  unfoldable pub client_identifier : Option String → String
  client_identifier client_host =
      let host = t.strip (text_or client_host "") in if is_blank host then "unknown" else host

  -- `[e.strip() for e in header.split(",") if e.strip()]`
  unfoldable pub entries : String → List String
  entries header = filter (λ e. not (is_blank e)) (map t.strip (t.split header))

  -- `_parse_trusted_proxy_ips`
  unfoldable pub parse_trusted_proxy_ips : Option String → List String
  unfolding entries
  parse_trusted_proxy_ips trusted_proxy_ips =
      let raw = t.strip (text_or trusted_proxy_ips "") in if is_blank raw then [] else entries raw

  -- `X-Real-IP`, then the direct peer.
  unfoldable pub real_or_peer : Option String → String → String
  unfolding client_identifier
  real_or_peer peer_host real_ip_header =
      if is_blank (t.strip real_ip_header)
      then client_identifier peer_host
      else client_identifier (some (t.strip real_ip_header))

  unfoldable pub effective_client_ip : Option String → String → String → Option String → String
  unfolding client_identifier parse_trusted_proxy_ips real_or_peer first_untrusted
  effective_client_ip peer_host forwarded_for_header real_ip_header trusted_proxy_ips =
      let trusted = parse_trusted_proxy_ips trusted_proxy_ips in
      if not (is_member (t.strip (text_or peer_host "")) trusted)
      then client_identifier peer_host
      else if is_blank (t.strip forwarded_for_header)
      then real_or_peer peer_host real_ip_header
      else elim (first_untrusted trusted (reverse (entries forwarded_for_header))) [
        | none ↦ real_or_peer peer_host real_ip_header
        | some ip ↦ client_identifier (some ip)
      ]

first_untrusted-append :
    (trusted proxies : List String) (client : String) (rest : List String)
    → All (λ ip. is_member ip trusted ≡ true) proxies
    → is_member client trusted ≡ false
    → first_untrusted trusted (proxies ++ client ∷ rest) ≡ some client
unfolding first_untrusted
first_untrusted-append trusted [] client rest known unknown = rw unknown
first_untrusted-append trusted (ip ∷ proxies) client rest known unknown =
    rw known.0 (first_untrusted-append trusted proxies client rest known.1 unknown)

module _ (t : Splitting) where
  -- A client behind trusted proxies cannot choose its address: whatever entries it puts in front of
  -- the one that the outermost trusted proxy has added, that one is taken. The entries of the header
  -- are read from the right, `proxies` being those that are trusted.
  pub effective_client_ip_unspoofed :
      (peer_host trusted_proxy_ips : Option String)
      (forwarded_for_header real_ip_header client : String) (proxies spoofed : List String)
      → let trusted = parse_trusted_proxy_ips t trusted_proxy_ips in
        is_member (t.strip (text_or peer_host "")) trusted ≡ true
        → is_blank (t.strip forwarded_for_header) ≡ false
        → reverse (entries t forwarded_for_header) ≡ proxies ++ client ∷ spoofed
        → All (λ ip. is_member ip trusted ≡ true) proxies
        → is_member client trusted ≡ false
        → effective_client_ip t peer_host forwarded_for_header real_ip_header trusted_proxy_ips
          ≡ client_identifier t (some client)
  unfolding effective_client_ip
  effective_client_ip_unspoofed peer_host trusted_proxy_ips forwarded_for_header real_ip_header
        client proxies spoofed peer given chain known unknown =
      let found : first_untrusted (parse_trusted_proxy_ips t trusted_proxy_ips)
            (reverse (entries t forwarded_for_header))
          ≡ some client =
        ap (first_untrusted (parse_trusted_proxy_ips t trusted_proxy_ips)) chain
        ∙ first_untrusted-append (parse_trusted_proxy_ips t trusted_proxy_ips) proxies client
            spoofed known unknown in
      rw (peer, given, found)

  -- A request that does not come from a trusted proxy is counted under its peer, whatever its headers
  -- say.
  pub effective_client_ip_direct :
      (peer_host trusted_proxy_ips : Option String) (forwarded real forwarded' real' : String)
      → is_member (t.strip (text_or peer_host "")) (parse_trusted_proxy_ips t trusted_proxy_ips)
        ≡ false
      → effective_client_ip t peer_host forwarded real trusted_proxy_ips
        ≡ effective_client_ip t peer_host forwarded' real' trusted_proxy_ips
  unfolding effective_client_ip
  effective_client_ip_direct peer_host trusted_proxy_ips forwarded real forwarded' real' direct =
      rw direct
