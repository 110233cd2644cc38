-- ===== src/Verifier/Verdict.antt =====
-- `verify_capsule` (lineagelens-verifier/lineagelens_verifier/verify.py) on an archive that opens,
-- and what its statuses mean.
use lineagelens.Prelude.{
  String, ◌≡◌, ◌↔◌, inl, inr, Bool, true, false, not, ◌||◌, Option, none, some, List, [], ◌∷◌, ◌++◌,
  arith, if◌then◌else◌, Dict, Bool-cases, Option-cases,
}
use lineagelens.Attestation.{is_trusted}
use lineagelens.Chain.{Hashing}
use lineagelens.Verifier.{
  Capsule, KeyEntry, ManifestEntry, Problem, Status, Verifying, is_supported, verify_manifest,
  find_key, verify_key_trust, key_not_found, signature_mismatch, key_status, schema_not_supported,
}
use lineagelens.Verifier.Links.{verify_chain}

-- What `load_capsule` returns.
pub record Archive (T : Type 0) : Type 0 where
  pub capsule : Capsule
  pub manifest : List ManifestEntry
  pub signature : String
  pub public_key_id : String
  pub files : Dict T

pub record VerificationResult : Type 0 where
  pub status : Status
  pub manifest_ok : Bool
  pub signature_ok : Bool
  pub chain_ok : Bool
  pub key_trust_ok : Bool
  pub details : List Problem

-- A result that ends the verification early.
rejected : Status → Bool → List Problem → VerificationResult
rejected status manifest_ok details = record {
  status = status;
  manifest_ok = manifest_ok;
  signature_ok = false;
  chain_ok = false;
  key_trust_ok = false;
  details = details;
}

-- The hex of the first key of the registry with this id.
unfoldable pub signing_key : Option KeyEntry → Option String
signing_key none = none
signing_key (some key) = key.public_key_hex

unfoldable pub final_status : Bool → Bool → Bool → Bool → Status
final_status manifest_ok chain_ok key_trust_ok has_redactions =
    if not manifest_ok || not chain_ok
    then Status.tampered
    else if not key_trust_ok
    then Status.expired_or_compromised_key
    else if has_redactions
    then Status.valid_with_redactions
    else Status.valid

module _ {P T : Type 0} (h : Hashing P T) (v : Verifying T) where
  -- The checks after the signature has verified.
  unfoldable pub judge_capsule : Archive T → VerificationResult
  unfolding final_status verify_manifest verify_key_trust verify_chain
  judge_capsule a =
      let manifest = verify_manifest h v a.files a.manifest in
      let key = verify_key_trust v a.capsule a.public_key_id none in
      let chain = verify_chain h a.capsule in
      record {
        status = final_status manifest.0 chain.is_ok (is_trusted key) chain.has_redactions;
        manifest_ok = manifest.0;
        signature_ok = true;
        chain_ok = chain.is_ok;
        key_trust_ok = is_trusted key;
        details =
            manifest.1 ++ chain.problems ++ (if is_trusted key then [] else key_status key ∷ []);
      }

  unfoldable pub verify_capsule : Archive T → VerificationResult
  unfolding rejected signing_key judge_capsule
  verify_capsule a =
      let manifest = verify_manifest h v a.files a.manifest in
      let judged = judge_capsule a in
      if not (is_supported a.capsule.schema_version)
      then rejected Status.unsupported_schema false
          (schema_not_supported a.capsule.schema_version ∷ [])
      else elim (signing_key (find_key a.public_key_id a.capsule.key_registry)) [
        | none ↦
            rejected Status.unverifiable manifest.0
              (manifest.1 ++ key_not_found a.public_key_id ∷ [])
        | some hex ↦
            if v.verify_signature a.capsule a.signature hex
            then judged
            else rejected Status.tampered manifest.0 (manifest.1 ++ signature_mismatch ∷ [])
      ]

abbrev pub is_accepted : Status → Bool
is_accepted Status.valid = true
is_accepted Status.valid_with_redactions = true
is_accepted _ = false

final_status_iff :
    (manifest_ok chain_ok trusted gone : Bool)
    → (is_accepted (final_status manifest_ok chain_ok trusted gone) ≡ true)
      ↔ ((manifest_ok ≡ true) × (chain_ok ≡ true) × (trusted ≡ true))
unfolding final_status
final_status_iff manifest_ok chain_ok trusted gone =
    (λ e. (ground arith, ground arith, ground arith), λ e. ground (arith, e))

module _ {P T : Type 0} (h : Hashing P T) (v : Verifying T) where
  -- A capsule is accepted, with redactions or without, exactly when its schema is supported, the
  -- registry has a key under the signer's id by which the signature verifies, the manifest is clean,
  -- the key is trusted at the time of generation, and the chain is intact.
  pub verify_capsule_iff :
      (a : Archive T)
      → (is_accepted (verify_capsule h v a).status ≡ true) ↔ (
          (is_supported a.capsule.schema_version ≡ true)
          × ((hex : String) × (signing_key (find_key a.public_key_id a.capsule.key_registry)
                ≡ some hex)
              × (v.verify_signature a.capsule a.signature hex ≡ true))
          × ((verify_manifest h v a.files a.manifest).0 ≡ true)
          × ((verify_chain h a.capsule).is_ok ≡ true)
          × (is_trusted (verify_key_trust v a.capsule a.public_key_id none) ≡ true))
  unfolding verify_capsule judge_capsule rejected
  verify_capsule_iff a =
      let key = signing_key (find_key a.public_key_id a.capsule.key_registry) in
      let final =
        final_status_iff (verify_manifest h v a.files a.manifest).0 (verify_chain h a.capsule).is_ok
          (is_trusted (verify_key_trust v a.capsule a.public_key_id none))
          (verify_chain h a.capsule).has_redactions in
      elim (Bool-cases (is_supported a.capsule.schema_version)) [
        | inr old ↦ (λ e. absurd (ground arith), λ e. absurd (ground (arith, e.0)))
        | inl supported ↦ elim (Option-cases key) [
          | inl missing ↦ (λ e. absurd (ground arith), λ e. absurd (ground (arith, e.1.1)))
          | inr (hex, found) ↦ elim (Bool-cases (v.verify_signature a.capsule a.signature hex)) [
            | inr bad ↦
                (λ e. absurd (ground arith), λ e. absurd (ground (arith, e.1.1, e.1.2, bad, found)))
            | inl good ↦ (
              λ e.
                  let (m, c, t) = final.0 (rw (supported, found, good) at e) in
                  (supported, (hex, found, good), m, c, t),
              λ e. rw (supported, found, good) (final.1 (e.2, e.3, e.4)),
            )
          ]
        ]
      ]
