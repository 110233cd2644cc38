-- ===== src/Tunnel/Tests.antt =====
-- A request that is let through, by a resolver with one address.
use lineagelens.Prelude.{
  String, ℕ, ◌≡◌, ◌⊎◌, refl, true, false, none, some, List, [], ◌∷◌, str_eq, if◌then◌else◌,
}
use lineagelens.Tunnel.{
  Addr, Net, is_internal_addr, known_llm_domains, is_in, pin, resolve, resolve_and_validate_host,
  HeaderLine, header, blank, RequestLine, request_line, target, read_headers, expected,
  check_target, parse_connect_request,
}
use lineagelens.Tunnel.Addresses.{IsVetted, lowered}
use lineagelens.Tunnel.Guard.{parse_connect_request_guarded}

abbrev public : Addr
public = record {
  is_private = false;
  is_loopback = false;
  is_link_local = false;
  is_unspecified = false;
  is_multicast = false;
  is_reserved = false;
}

abbrev net : Net
net = record {
  strip_lower = λ s. s;
  unbracket = λ s. s;
  strip_brackets = λ s. s;
  before_scope = λ s. s;
  ip_address = λ s. if str_eq s "1.2.3.4" then some public else none;
  getaddrinfo = λ s. some ("1.2.3.4" ∷ []);
  is_ascii = λ s. true;
}

abbrev line : RequestLine
line = request_line "CONNECT" "api.openai.com" (some 443)

abbrev lines : List HeaderLine
lines = header "proxy-authorization" "Bearer t" ∷ blank ∷ []

accepted : parse_connect_request net "t" line lines ≡ target "api.openai.com" "1.2.3.4" 443
unfolding parse_connect_request read_headers expected check_target resolve_and_validate_host resolve
    pin is_internal_addr
accepted = refl

parse_connect_request_guarded_example :
    (◌≡◌ {A = ℕ} 443 443)
    × (is_in "api.openai.com" known_llm_domains ≡ true)
    × ((◌≡◌ {A = String} "t" "") ⊎ (read_headers 100 "" lines ≡ some (expected net "t")))
    × IsVetted net (lowered net "api.openai.com") "1.2.3.4"
parse_connect_request_guarded_example =
    parse_connect_request_guarded net "t" line lines "api.openai.com" "1.2.3.4" 443 accepted
