-- ===== src/Tunnel/Addresses.antt =====
-- The addresses that `_resolve_and_validate_host` lets through.
use lineagelens.Prelude.{
  String, ◌≡◌, refl, sym, ap, ◌∙◌, Bool, true, false, not, ◌⊎◌, inl, inr, Option, none, some, List,
  [], ◌∷◌, map, All, arith, str_eq, eq_iff, if◌then◌else◌, Bool-cases, Option-cases, of_some,
}
use lineagelens.Tunnel.{
  Addr, Net, is_internal_addr, blocked_connect_hosts, is_in, pin, resolve,
  resolve_and_validate_host,
}

module _ (n : Net) where
  -- An address that is read, and is not internal.
  abbrev pub IsPublic : String → Type 0
  IsPublic ip = (addr : Addr) × (n.ip_address ip ≡ some addr) × (is_internal_addr addr ≡ false)

  -- A resolver result is not an internal address.
  abbrev pub is_harmless : String → Bool
  is_harmless result = elim (n.ip_address (n.before_scope result)) [
    | none ↦ true
    | some addr ↦ not (is_internal_addr addr)
  ]

  abbrev pub Resolved : List String → String → Type 0
  Resolved results ip =
      All (λ r. is_harmless r ≡ true) results
      × (is_in ip (map n.before_scope results) ≡ true)
      × IsPublic ip

  abbrev Origin : Option String → List String → String → Type 0
  Origin pinned results ip =
      (pinned ≡ some ip) ⊎ ((is_in ip (map n.before_scope results) ≡ true) × IsPublic ip)

  Origin-cons :
      (pinned : Option String) (r : String) (results : List String) (ip : String)
      → Origin pinned results ip
      → Origin pinned (r ∷ results) ip
  Origin-cons pinned r results ip (inl before) = inl before
  Origin-cons pinned r results ip (inr (among, public)) = inr (ground (arith, among), public)

  -- The address that is pinned after a harmless result.
  abbrev or_first : Option String → String → Option String
  or_first pinned r = elim pinned [ none ↦ some (n.before_scope r) | some ip ↦ some ip ]

  Origin-or_first :
      (pinned : Option String) (r : String) (results : List String) (ip : String) (addr : Addr)
      → n.ip_address (n.before_scope r) ≡ some addr
      → is_internal_addr addr ≡ false
      → Origin (or_first pinned r) results ip
      → Origin pinned (r ∷ results) ip
  Origin-or_first (some q) r results ip addr found public o = Origin-cons (some q) r results ip o
  Origin-or_first none r results ip addr found public (inr later) =
      Origin-cons none r results ip (inr later)
  Origin-or_first none r results ip addr found public (inl first) =
      let same : n.before_scope r ≡ ip = of_some first in
      let among : str_eq ip (n.before_scope r) ≡ true =
        (eq_iff ip (n.before_scope r)).1 (sym same) in
      inr (rw among refl, (addr, ap n.ip_address (sym same) ∙ found, public))

  pin-unread :
      (pinned : Option String) (r : String) (results : List String)
      → n.ip_address (n.before_scope r) ≡ none
      → pin n pinned (r ∷ results) ≡ pin n pinned results
  unfolding pin
  pin-unread pinned r results unread = rw (pin, unread) refl

  pin-read :
      (pinned : Option String) (r : String) (results : List String) (addr : Addr)
      → n.ip_address (n.before_scope r) ≡ some addr
      → pin n pinned (r ∷ results) ≡ (
          if is_internal_addr addr
          then none
          else pin n (elim pinned [ none ↦ some (n.before_scope r) | some ip ↦ some ip ]) results)
  unfolding pin is_internal_addr
  pin-read pinned r results addr found = rw (pin, found) refl

  -- The result of the loop was pinned before, or is one of the results.
  pin_lem :
      (pinned : Option String) (results : List String) (ip : String)
      → pin n pinned results ≡ some ip
      → All (λ r. is_harmless r ≡ true) results × Origin pinned results ip
  unfolding pin
  pin_lem pinned [] ip e = (tt, inl e)
  pin_lem pinned (r ∷ results) ip e = elim (Option-cases (n.ip_address (n.before_scope r))) [
    | inl unread ↦
        let rest = pin_lem pinned results ip (sym (pin-unread pinned r results unread) ∙ e) in
        ((rw (is_harmless, unread) refl, rest.0), Origin-cons pinned r results ip rest.1)
    | inr (addr, found) ↦ elim (Bool-cases (is_internal_addr addr)) [
      | inl internal ↦ absurd (ground (arith, pin-read pinned r results addr found, e, internal))
      | inr public ↦
          let harmless : is_harmless r ≡ true = rw (is_harmless, found, public) refl in
          let goes : pin n (or_first pinned r) results ≡ some ip =
            ground (arith, pin-read pinned r results addr found, e, public) in
          let rest = pin_lem (or_first pinned r) results ip goes in
          ((harmless, rest.0), Origin-or_first pinned r results ip addr found public rest.1)
    ]
  ]

  -- What a validated host is: a public address, which is the host itself or one of the results of
  -- a resolution without an internal address.
  abbrev pub IsVetted : String → String → Type 0
  IsVetted host_lower ip =
      IsPublic ip
      × ((ip ≡ host_lower)
          ⊎ ((results : List String) × (n.getaddrinfo host_lower ≡ some results)
              × All (λ r. is_harmless r ≡ true) results
              × (is_in ip (map n.before_scope results) ≡ true)))

  abbrev pub lowered : String → String
  lowered host = n.before_scope (n.unbracket (n.strip_lower host))

  resolve-IsVetted :
      (host_lower ip : String) → resolve n host_lower ≡ some ip → IsVetted host_lower ip
  unfolding resolve
  resolve-IsVetted host_lower ip e = elim (Option-cases (n.getaddrinfo host_lower)) [
    | inl fails ↦ absurd (ground (arith, e, fails))
    | inr (results, found) ↦
        let pinned : pin n none results ≡ some ip = ground (arith, e, found) in
        let (harmless, origin) = pin_lem none results ip pinned in
        elim origin [
          | inl impossible ↦ absurd (ground (arith, impossible))
          | inr (among, public) ↦ (public, inr (results, found, harmless, among))
        ]
  ]

  pub resolve_and_validate_host-IsVetted :
      (host ip : String)
      → resolve_and_validate_host n host ≡ some ip
      → (is_in (lowered host) blocked_connect_hosts ≡ false) × IsVetted (lowered host) ip
  unfolding resolve_and_validate_host
  resolve_and_validate_host-IsVetted host ip e =
      elim (Bool-cases (is_in (lowered host) blocked_connect_hosts)) [
        | inl blocked ↦ absurd (ground (arith, e, blocked))
        | inr free ↦ elim (Option-cases (n.ip_address (lowered host))) [
          | inl name ↦ (free, resolve-IsVetted (lowered host) ip (ground (arith, e, free, name)))
          | inr (addr, literal) ↦ elim (Bool-cases (is_internal_addr addr)) [
            | inl internal ↦ absurd (ground (arith, e, free, literal, internal))
            | inr public ↦
                let same : lowered host ≡ ip = ground (arith, e, free, literal, public) in
                (free, ((addr, ap n.ip_address (sym same) ∙ literal, public), inl (sym same)))
          ]
        ]
      ]
