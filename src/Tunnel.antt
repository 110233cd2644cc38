-- ===== src/Tunnel.antt =====
-- The CONNECT tunnel of the proxy (lineagelens-proxy/connect_tunnel.py): which requests are let
-- through, and to which address. The text functions, the reading of addresses and the resolver are
-- arguments. A timeout of the reader, which closes the connection, is left out.
pub mod Addresses
pub mod Guard
mod Tests
use Prim.Native.String
use lineagelens.Prelude.{
  ℕ, zero, suc, String, Bool, true, false, not, ◌&&◌, ◌||◌, Option, none, some, List, [], ◌∷◌, any,
  str_eq, ◌==◌, leb, if◌then◌else◌, length,
}

-- The properties of an `ipaddress` object that `_is_internal_addr` reads.
pub record Addr : Type 0 where
  pub is_private : Bool
  pub is_loopback : Bool
  pub is_link_local : Bool
  pub is_unspecified : Bool
  pub is_multicast : Bool
  pub is_reserved : Bool

unfoldable pub is_internal_addr : Addr → Bool
is_internal_addr a =
    a.is_private || a.is_loopback || a.is_link_local || a.is_unspecified || a.is_multicast
    || a.is_reserved

-- `_BLOCKED_CONNECT_HOSTS`
abbrev pub blocked_connect_hosts : List String
blocked_connect_hosts =
    "localhost" ∷ "ip6-localhost" ∷ "ip6-loopback" ∷ "broadcasthost" ∷ "0.0.0.0" ∷ []

-- `_KNOWN_LLM_DOMAINS`
abbrev pub known_llm_domains : List String
known_llm_domains =
    "api.anthropic.com" ∷ "api.openai.com" ∷ "generativelanguage.googleapis.com"
    ∷ "api.together.xyz" ∷ "api.groq.com" ∷ "api.fireworks.ai" ∷ "api.mistral.ai"
    ∷ "openai.azure.com" ∷ []

abbrev pub is_in : String → List String → Bool
is_in x xs = any (str_eq x) xs

-- What the tunnel takes from elsewhere.
pub record Net : Type 0 where
  -- `host.strip().lower()`
  pub strip_lower : String → String
  -- `s[1:-1]` of a text in brackets, any other as it is.
  pub unbracket : String → String
  -- `s.strip("[]")`
  pub strip_brackets : String → String
  -- `s.split("%")[0]`
  pub before_scope : String → String
  -- `ipaddress.ip_address`, `none` for a `ValueError`.
  pub ip_address : String → Option Addr
  -- The addresses that `getaddrinfo` gives, `none` for an `OSError`.
  pub getaddrinfo : String → Option (List String)
  -- Whether a text is ASCII; `compare_digest` raises on others.
  pub is_ascii : String → Bool

module _ (n : Net) where
  -- The loop over the results, with `pinned_ip`; an internal address ends it with `None`.
  unfoldable pub pin : Option String → List String → Option String
  unfolding is_internal_addr
  pin pinned_ip [] = pinned_ip
  pin pinned_ip (result ∷ results) =
      let raw_ip = n.before_scope result in
      let skipped = pin pinned_ip results in
      let first = pin (elim pinned_ip [ none ↦ some raw_ip | some ip ↦ some ip ]) results in
      elim (n.ip_address raw_ip) [
        | none ↦ skipped
        | some addr ↦ if is_internal_addr addr then none else first
      ]

  unfoldable pub resolve : String → Option String
  unfolding pin
  resolve host_lower = elim (n.getaddrinfo host_lower) [
    | none ↦ none
    | some results ↦ pin none results
  ]

  -- `_resolve_and_validate_host`
  unfoldable pub resolve_and_validate_host : String → Option String
  unfolding resolve is_internal_addr
  resolve_and_validate_host host =
      let host_lower = n.before_scope (n.unbracket (n.strip_lower host)) in
      if is_in host_lower blocked_connect_hosts then none else elim (n.ip_address host_lower) [
        | some addr ↦ if is_internal_addr addr then none else some host_lower
        | none ↦ resolve host_lower
      ]

-- A header line, as the loop sees it: blank, without a colon, or a name, stripped and in lower case,
-- and a stripped value.
pub data HeaderLine : Type 0 where
  blank colonless : HeaderLine
  header : String → String → HeaderLine

-- The first line: `parts[0].upper()`, and `parts[1]` taken apart at its last colon; the port is
-- `none` where `port_str.isdigit()` is false.
pub data RequestLine : Type 0 where
  malformed : RequestLine
  request_line : String → String → Option ℕ → RequestLine

pub data Refusal : Type 0 where
  bad_request fields_too_large authentication_required forbidden : Refusal

-- The tunnel's target, the answer that was written, or an exception.
pub data Parsed : Type 0 where
  raised : Parsed
  target : String → String → ℕ → Parsed
  refused : Refusal → Parsed

-- At most `budget` lines are read. The value of the last `proxy-authorization`; `none` where no
-- blank line was met. After the last line the reader gives blank ones.
unfoldable pub read_headers : ℕ → String → List HeaderLine → Option String
read_headers zero value lines = none
read_headers (suc budget) value [] = some value
read_headers (suc budget) value (blank ∷ lines) = some value
read_headers (suc budget) value (colonless ∷ lines) = read_headers budget value lines
read_headers (suc budget) value (header name text ∷ lines) =
    read_headers budget (if str_eq name "proxy-authorization" then text else value) lines

abbrev pub or_443 : Option ℕ → ℕ
or_443 none = 443
or_443 (some port) = port

module _ (n : Net) (proxy_connect_token : String) where
  -- `f"Bearer {PROXY_CONNECT_TOKEN}"`
  unfoldable pub expected : String
  expected = String.◌++◌ "Bearer " proxy_connect_token

  -- From the host check on.
  unfoldable pub check_target : String → ℕ → Parsed
  unfolding resolve_and_validate_host
  check_target host port =
      if not (is_in (n.strip_brackets (n.strip_lower host)) known_llm_domains)
      then refused forbidden
      else if not (port == 443)
      then refused forbidden
      else elim (resolve_and_validate_host n host) [
        | none ↦ refused forbidden
        | some pinned_ip ↦ target host pinned_ip port
      ]

  -- `_parse_connect_request`
  unfoldable pub parse_connect_request : RequestLine → List HeaderLine → Parsed
  unfolding read_headers expected check_target
  parse_connect_request malformed lines = refused bad_request
  parse_connect_request (request_line method host port) lines =
      if not (str_eq method "CONNECT")
      then refused bad_request
      else elim (read_headers 100 "" lines) [
        | none ↦ refused fields_too_large
        | some value ↦
            if str_eq proxy_connect_token ""
            then check_target host (or_443 port)
            else if not (n.is_ascii value && n.is_ascii expected)
            then raised
            else if str_eq value expected
            then check_target host (or_443 port)
            else refused authentication_required
      ]

-- `_assert_not_open_relay`: whether the server starts; `has_prefix` is `str.startswith`.
unfoldable pub is_started : (String → String → Bool) → String → String → Bool
is_started has_prefix proxy_host proxy_connect_token =
    str_eq proxy_host "localhost"
    || has_prefix proxy_host "127."
    || has_prefix proxy_host "::1"
    || not (str_eq proxy_connect_token "")
