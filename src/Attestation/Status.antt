-- ===== src/Attestation/Status.antt =====
-- When a signed statement is valid.
use mathlib.Core.Path.{subst}
use lineagelens.Prelude.{
  of_some, ap, ℕ, ◌≤◌, ◌<◌, String, ◌≡◌, ◌≢◌, ◌↔◌, inl, inr, refl, true, false, Option, none, some,
  arith, eq_iff, Dict, lookup, Option-cases,
}
use lineagelens.Attestation.{
  is_trusted, KeyRecord, KeyStatus, valid, Signing, Statement, SignedAttestation, parse_ts,
  key_status_at, moment_of, moment_or, reached, before, after, resolve_key, trust_of,
  verify_attestation, with_signature, sign_attestation, SignedAttestation,
}

-- A property of the value, where there is one.
abbrev pub WhereSome : {A : Type 0} → (A → Type 0) → Option A → Type 0
WhereSome p none = Unit
WhereSome p (some x) = p x

-- The conditions of trust in a key at a moment, with no order among them.
pub record IsTrustedAt (iso : String → Option ℕ) (m : ℕ) (key : KeyRecord) : Type 0 where
  pub not_retired : key.status ≢ "retired"
  pub uncompromised : WhereSome (λ t. m < t) (parse_ts iso key.compromised_at)
  pub started : WhereSome (λ t. t ≤ m) (parse_ts iso key.valid_from)
  pub unexpired : WhereSome (λ t. m ≤ t) (parse_ts iso key.valid_until)

reached_iff : (limit : Option ℕ) (m : ℕ) → (reached limit m ≡ false) ↔ WhereSome (λ t. m < t) limit
reached_iff none m = (λ h. tt, λ h. refl)
reached_iff (some t) m = (λ h. ground arith, λ h. ground arith)

before_iff : (limit : Option ℕ) (m : ℕ) → (before limit m ≡ false) ↔ WhereSome (λ t. t ≤ m) limit
before_iff none m = (λ h. tt, λ h. refl)
before_iff (some t) m = (λ h. ground arith, λ h. ground arith)

after_iff : (limit : Option ℕ) (m : ℕ) → (after limit m ≡ false) ↔ WhereSome (λ t. m ≤ t) limit
after_iff none m = (λ h. tt, λ h. refl)
after_iff (some t) m = (λ h. ground arith, λ h. ground arith)

pub key_status_at-valid :
    (iso : String → Option ℕ) (now : ℕ) (key : KeyRecord) (at : Option ℕ)
    → (key_status_at iso now key at ≡ valid) ↔ IsTrustedAt iso (moment_or at now) key
unfolding key_status_at
key_status_at-valid iso now key at =
    let m = moment_or at now in
    let stop = reached_iff (parse_ts iso key.compromised_at) m in
    let start = before_iff (parse_ts iso key.valid_from) m in
    let end = after_iff (parse_ts iso key.valid_until) m in
    (
      λ h. record {
        not_retired = λ e. ground (arith, eq_iff key.status "retired");
        uncompromised = stop.0 (ground arith);
        started = start.0 (ground arith);
        unexpired = end.0 (ground arith);
      },
      λ h. ground (
        arith,
        h.not_retired,
        eq_iff key.status "retired",
        stop.1 h.uncompromised,
        start.1 h.started,
        end.1 h.unexpired,
      ),
    )

-- The public key that verifies statements of this key id: the registry's, or the loaded one where
-- the registry has no such id.
abbrev pub Verifies :
    {C T : Type 0} (s : Signing C T) → SignedAttestation C → Dict KeyRecord → Type 0
Verifies s signed registry =
    (hex : String) × (resolve_key s (lookup signed.public_key_id registry) ≡ some hex)
    × (s.verify hex signed.signature (s.dumps signed.statement) ≡ true)

-- Trust in the registered key at the moment of the statement; an unregistered key is trusted.
abbrev pub KeyTrusted :
    {C T : Type 0} (s : Signing C T) → SignedAttestation C → Option ℕ → Dict KeyRecord → ℕ → Type 0
KeyTrusted s signed at registry now =
    WhereSome (IsTrustedAt s.fromisoformat (moment_or (moment_of s at signed) now))
      (lookup signed.public_key_id registry)

of_is_trusted : (status : KeyStatus) → is_trusted status ≡ true → status ≡ valid
of_is_trusted valid h = refl
of_is_trusted _ h = absurd (ground arith)

module _ {C T : Type 0} (s : Signing C T) (signed : SignedAttestation C) where
  trust_of-trusted :
      (key : Option KeyRecord) (moment : Option ℕ) (now : ℕ)
      → (is_trusted (trust_of s key moment now) ≡ true)
        ↔ WhereSome (IsTrustedAt s.fromisoformat (moment_or moment now)) key
  unfolding trust_of
  trust_of-trusted none moment now = (λ h. tt, λ h. refl)
  trust_of-trusted (some key) moment now = (
    λ h. (key_status_at-valid s.fromisoformat now key moment).0 (of_is_trusted _ h),
    λ h. ap is_trusted ((key_status_at-valid s.fromisoformat now key moment).1 h),
  )

  -- A statement is valid exactly when its signature verifies under the key that its key id stands
  -- for, and that key, if it is registered, is trusted at the moment of the statement.
  pub verify_attestation_iff :
      (at : Option ℕ) (registry : Dict KeyRecord) (now : ℕ)
      → (verify_attestation s signed at registry now ≡ true)
        ↔ (Verifies s signed registry × KeyTrusted s signed at registry now)
  unfolding verify_attestation
  verify_attestation_iff at registry now =
      let key = lookup signed.public_key_id registry in
      let trusted = trust_of-trusted key (moment_of s at signed) now in
      elim (Option-cases (resolve_key s key)) [
        | inl missing ↦ (λ h. absurd (ground arith), λ h. absurd (ground (arith, h.0.1)))
        | inr (hex, e) ↦ (
          λ h. ((hex, e, ground arith), trusted.0 (ground arith)),
          λ h. ground (arith, h.0.1, h.0.2, e, trusted.1 h.1),
        )
      ]

module _ {C T : Type 0} (s : Signing C T) where
  -- What `sign_attestation` signs is valid where the loaded key is registered under its own public
  -- key and trusted, or is not registered at all, and the signature scheme is correct.
  pub verify_attestation-sign_attestation :
      (statement : Statement C) (signed : SignedAttestation C) (hex : String)
      (registry : Dict KeyRecord) (now : ℕ)
      → ((message : T) → s.verify hex (s.sign message) message ≡ true)
      → resolve_key s (lookup s.public_key_id registry) ≡ some hex
      → sign_attestation s statement ≡ some signed
      → KeyTrusted s signed none registry now
      → verify_attestation s signed none registry now ≡ true
  unfolding sign_attestation with_signature
  verify_attestation-sign_attestation statement signed hex registry now correct e made trusted =
      elim (Option-cases s.public_key_hex) [
        | inl missing ↦ absurd (ground (arith, rw missing at made))
        | inr (own, loaded) ↦
            let same : with_signature s statement ≡ signed = of_some (rw loaded at made) in
            (verify_attestation_iff s signed none registry now).1 (
              subst (λ x. Verifies s x registry) same (hex, e, correct (s.dumps statement)),
              trusted,
            )
      ]
