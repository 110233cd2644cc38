-- ===== src/Tunnel/Guard.antt =====
-- What an accepted CONNECT request guarantees.
use mathlib.Core.Path.{subst}
use lineagelens.Prelude.{
  ℕ, String, ◌≡◌, refl, sym, ap, ◌∙◌, true, not, ◌&&◌, ◌⊎◌, inl, inr, Option, some, List, arith,
  str_eq, eq_iff, ◌==◌, if◌then◌else◌, Bool-cases, Option-cases,
}
use lineagelens.Tunnel.{
  Net, known_llm_domains, is_in, resolve_and_validate_host, HeaderLine, RequestLine, malformed,
  request_line, Parsed, raised, target, refused, authentication_required, read_headers, or_443,
  expected, check_target, parse_connect_request,
}
use lineagelens.Tunnel.Addresses.{IsVetted, lowered, resolve_and_validate_host-IsVetted}

target_inj :
    {h h' ip ip' : String} {p p' : ℕ}
    → target h ip p ≡ target h' ip' p'
    → (h ≡ h') × (ip ≡ ip') × (p ≡ p')
target_inj e = (cc, cc, cc)

module _ (n : Net) (token : String) where
  -- What is established about a target.
  abbrev Guarded : String → String → ℕ → Type 0
  Guarded host ip port =
      (port ≡ 443)
      × (is_in (n.strip_brackets (n.strip_lower host)) known_llm_domains ≡ true)
      × IsVetted n (lowered n host) ip

  check_target_lem :
      (asked : String) (wanted : ℕ) (host ip : String) (port : ℕ)
      → check_target n token asked wanted ≡ target host ip port
      → (asked ≡ host) × (wanted ≡ port) × Guarded asked ip wanted
  unfolding check_target
  check_target_lem asked wanted host ip port e =
      elim (Bool-cases (is_in (n.strip_brackets (n.strip_lower asked)) known_llm_domains)) [
        | inr unknown ↦ absurd (ground (arith, e, unknown))
        | inl known ↦ elim (Bool-cases (wanted == 443)) [
          | inr other ↦ absurd (ground (arith, e, known, other))
          | inl https ↦ elim (Option-cases (resolve_and_validate_host n asked)) [
            | inl fails ↦ absurd (ground (arith, e, known, https, fails))
            | inr (pinned, vetted) ↦
                let same : target asked pinned wanted ≡ target host ip port =
                  ground (arith, e, known, https, vetted) in
                let (same_host, same_ip, same_port) = target_inj same in
                let is_443 : wanted ≡ 443 = ground (arith, https) in
                let found : resolve_and_validate_host n asked ≡ some ip =
                  vetted ∙ ap some same_ip in
                (
                  same_host,
                  same_port,
                  (is_443, known, (resolve_and_validate_host-IsVetted n asked ip found).1),
                )
          ]
        ]
      ]

  -- What is left after the headers.
  abbrev bearer : String → String → ℕ → Parsed
  bearer value asked wanted =
      if str_eq token ""
      then check_target n token asked wanted
      else if not (n.is_ascii value && n.is_ascii (expected n token))
      then raised
      else if str_eq value (expected n token)
      then check_target n token asked wanted
      else refused authentication_required

  parse_complete :
      (method asked : String) (wanted : Option ℕ) (lines : List HeaderLine) (value : String)
      → str_eq method "CONNECT" ≡ true
      → read_headers 100 "" lines ≡ some value
      → parse_connect_request n token (request_line method asked wanted) lines
        ≡ bearer value asked (or_443 wanted)
  unfolding parse_connect_request
  parse_complete method asked wanted lines value connect complete =
      rw (parse_connect_request, connect, complete) refl

  bearer_cases :
      (value : String) (asked : String) (wanted : ℕ) (host ip : String) (port : ℕ)
      → bearer value asked wanted ≡ target host ip port
      → (check_target n token asked wanted ≡ target host ip port)
        × ((token ≡ "") ⊎ (value ≡ expected n token))
  bearer_cases value asked wanted host ip port e = elim (Bool-cases (str_eq token "")) [
    | inl open_relay ↦ (ground (arith, e, open_relay), inl ((eq_iff token "").0 open_relay))
    | inr closed ↦ elim (Bool-cases (not (n.is_ascii value && n.is_ascii (expected n token)))) [
      | inl other ↦ absurd (ground (arith, e, closed, other))
      | inr ascii ↦ elim (Bool-cases (str_eq value (expected n token))) [
        | inr wrong ↦ absurd (ground (arith, e, closed, ascii, wrong))
        | inl right ↦ (
          ground (arith, e, closed, ascii, right),
          inr ((eq_iff value (expected n token)).0 right),
        )
      ]
    ]
  ]

  -- A tunnel is opened only on port 443 to a known LLM host, by a caller whose last
  -- `Proxy-Authorization` within the first 100 lines is the bearer token, if there is one, and to a
  -- public address: the host itself, or one of its resolved addresses, of which none is internal.
  pub parse_connect_request_guarded :
      (line : RequestLine) (lines : List HeaderLine) (host ip : String) (port : ℕ)
      → parse_connect_request n token line lines ≡ target host ip port
      → (port ≡ 443)
        × (is_in (n.strip_brackets (n.strip_lower host)) known_llm_domains ≡ true)
        × ((token ≡ "") ⊎ (read_headers 100 "" lines ≡ some (expected n token)))
        × IsVetted n (lowered n host) ip
  unfolding parse_connect_request
  parse_connect_request_guarded malformed lines host ip port e = absurd (ground (arith, e))
  parse_connect_request_guarded (request_line method asked wanted) lines host ip port e =
      elim (Bool-cases (str_eq method "CONNECT")) [
        | inr other ↦ absurd (ground (arith, e, other))
        | inl connect ↦ elim (Option-cases (read_headers 100 "" lines)) [
          | inl long ↦ absurd (ground (arith, e, connect, long))
          | inr (value, complete) ↦
              let (checked, token_ok) =
                bearer_cases value asked (or_443 wanted) host ip port
                  (sym (parse_complete method asked wanted lines value connect complete) ∙ e) in
              let (same_host, same_port, (https, known, vetted)) =
                check_target_lem asked (or_443 wanted) host ip port checked in
              let host_ok =
                subst
                  (λ x.
                    (is_in (n.strip_brackets (n.strip_lower x)) known_llm_domains ≡ true)
                    × IsVetted n (lowered n x) ip)
                  same_host (known, vetted) in
              let authorised : (token ≡ "")
                  ⊎ (read_headers 100 "" lines ≡ some (expected n token)) =
                elim token_ok [
                  | inl none_set ↦ inl none_set
                  | inr given ↦ inr (complete ∙ ap some given)
                ] in
              (sym same_port ∙ https, host_ok.0, authorised, host_ok.1)
        ]
      ]
