-- ===== src/Attestation/Tests.antt =====
-- Signed statements under keys of a small registry, and their revocation.
use lineagelens.Prelude.{
  ℕ, String, ◌≡◌, ◌↔◌, refl, Bool, true, false, Option, none, some, List, [], ◌∷◌, arith, eq_iff,
  lookup,
}
use lineagelens.Attestation.{
  KeyRecord, SignedAttestation, build_attestation, moment_of, parse_ts, resolve_key, with_signature,
  sign_attestation, verify_attestation, verify_attestation_detailed, Verdict,
}
use lineagelens.Attestation.Registry.{
  AttestationKey, find_row, load_registry_from_db, mark_compromised, revoke_key,
}
use lineagelens.Attestation.Status.{
  KeyTrusted, Verifies, verify_attestation_iff, verify_attestation-sign_attestation,
}
use lineagelens.Attestation.Revocation.{revoke_rejects, second_revocation_restores}
use lineagelens.Lifecycle.{LifecycleClaims, lifecycle_statement, Request}
use lineagelens.Fixture.{hashing, signing, signing-ReadsBack, code_record}

abbrev request : Request
request = record {
  event_type = "redaction";
  authorized_by = none;
  reason = none;
  policy_ref = none;
}

-- Signed at moment 3 by the key "k1".
abbrev signed : SignedAttestation LifecycleClaims
signed =
    with_signature signing
      (lifecycle_statement hashing signing (code_record "u1" "x = 1" none) request 3)

signed_moment : moment_of signing none signed ≡ some 3
unfolding moment_of lifecycle_statement build_attestation with_signature parse_ts
signed_moment = refl

abbrev key_row : String → String → Option ℕ → AttestationKey
key_row id status compromised_at = record {
  public_key_id = id;
  public_key_hex = "key";
  valid_from = none;
  valid_until = none;
  compromised_at = compromised_at;
  status = status;
  label = none;
  revocation_reason = none;
  revoked_by = none;
}

abbrev two_keys : List AttestationKey
two_keys = key_row "k0" "active" none ∷ key_row "k1" "active" none ∷ []

abbrev revoke : ℕ → AttestationKey → AttestationKey
revoke now row = mark_compromised "stolen" "admin" now row

abbrev revoked_at : ℕ → List AttestationKey
revoked_at now = key_row "k0" "active" none ∷ revoke now (key_row "k1" "active" none) ∷ []

abbrev verdict : List AttestationKey → Verdict
verdict rows =
    verify_attestation_detailed signing signed none (load_registry_from_db signing rows []) 9

abbrev valid_with : List AttestationKey → Bool
valid_with rows = (verdict rows).is_valid

revoked : (now : ℕ) → revoke_key "k1" "stolen" "admin" now two_keys ≡ some (revoked_at now)
unfolding revoke_key
revoked now = refl

verify_attestation_iff_example :
    (verify_attestation signing signed none [] 9 ≡ true)
    ↔ (Verifies signing signed [] × KeyTrusted signing signed none [] 9)
verify_attestation_iff_example = verify_attestation_iff signing signed none [] 9

abbrev k1 : KeyRecord
k1 = record {
  public_key_id = "k1";
  public_key_hex = "key";
  valid_from = none;
  valid_until = some "iiiiii";
  compromised_at = none;
  status = "active";
}

k1_trusted : KeyTrusted signing signed none (("k1", k1) ∷ []) 9
unfolding with_signature lookup parse_ts
k1_trusted = record {
  not_retired = λ e. ground (arith, e, eq_iff "active" "retired");
  uncompromised = tt;
  started = tt;
  unexpired = rw signed_moment (ground arith);
}

verify_attestation-sign_attestation_example :
    verify_attestation signing signed none (("k1", k1) ∷ []) 9 ≡ true
unfolding lookup resolve_key sign_attestation
verify_attestation-sign_attestation_example =
    verify_attestation-sign_attestation signing
      (lifecycle_statement hashing signing (code_record "u1" "x = 1" none) request 3) signed "key"
      (("k1", k1) ∷ []) 9 (λ message. refl) refl refl k1_trusted

revoke_rejects_example : valid_with (revoked_at 2) ≡ false
unfolding find_row with_signature parse_ts
revoke_rejects_example =
    revoke_rejects signing [] signed none "stolen" "admin" 2 3 9 two_keys (revoked_at 2)
      signing-ReadsBack (refl, (refl, tt)) (revoked 2) signed_moment (ground arith)

-- Revoked at 2, and again at 4.
second_revocation_restores_example :
    (valid_with (revoked_at 2) ≡ false)
    × (valid_with
          (key_row "k0" "active" none ∷ revoke 4 (revoke 2 (key_row "k1" "active" none)) ∷ [])
        ≡ true)
unfolding find_row with_signature revoke_key parse_ts mark_compromised
second_revocation_restores_example =
    second_revocation_restores signing [] signed none "stolen" "admin" 2 4 3 9 (revoked_at 2)
      (key_row "k0" "active" none ∷ revoke 4 (revoke 2 (key_row "k1" "active" none)) ∷ [])
      (revoke 2 (key_row "k1" "active" none)) signing-ReadsBack (refl, (refl, tt)) refl refl refl
      refl refl signed_moment (ground arith) (ground arith) refl
