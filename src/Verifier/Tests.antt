-- ===== src/Verifier/Tests.antt =====
-- A capsule of two records, whole and cut, and instances of the theorems.
use lineagelens.Prelude.{
  String, ◌≡◌, ◌↔◌, refl, true, none, some, List, [], ◌∷◌, All, Dict, lookup, map,
}
use lineagelens.Attestation.{KeyRecord, is_trusted, parse_ts}
use lineagelens.Chain.{in_chain}
use lineagelens.Integrity
use lineagelens.Integrity.{report, walk, inspect, inspect_active}
use lineagelens.Chain.{compute_record_hash, compute_prompt_sha256}
use lineagelens.Verifier.{
  Capsule, ManifestEntry, Verifying, find_key, is_supported, verify_key_trust, verify_manifest,
}
use lineagelens.Verifier.Links.{verify_chain}
use lineagelens.Verifier.Manifest.{IsStored, AllListed, verify_manifest_iff}
use lineagelens.Verifier.Trust.{export_keys, status_of, verify_key_trust-export_keys}
use lineagelens.Verifier.Verdict.{
  Archive, is_accepted, signing_key, verify_capsule, verify_capsule_iff,
}
use lineagelens.Verifier.Latest.{export_events}
use lineagelens.Verifier.Export.{record_chain_entry}
use lineagelens.Verifier.Agreement.{resolve_records, verify_chain-HasChain}
use lineagelens.Fixture.{Serialised, text, hashing, signing, read_tally, code_record, two_records}

abbrev verifying : Verifying Serialised
verifying = record {
  size = λ content. 7;
  verify_signature = λ capsule signature hex. true;
  fromisoformat = read_tally;
}

abbrev k1 : KeyRecord
k1 = record {
  public_key_id = "k1";
  public_key_hex = "key";
  valid_from = none;
  valid_until = none;
  compromised_at = none;
  status = "active";
}

abbrev capsule : Capsule
capsule = record {
  schema_version = some "1.0";
  generated_at = some "iii";
  key_registry = export_keys (("k1", k1) ∷ []);
  record_chain = map record_chain_entry (resolve_records "w" two_records.records);
  lifecycle_events = export_events signing [] 9 "w" [];
}

abbrev entries : List ManifestEntry
entries = record { path = "a.txt"; sha256 = "hello"; size_bytes = some 7 } ∷ []

abbrev files : Dict Serialised
files = ("a.txt", text "hello") ∷ []

abbrev archive : Archive Serialised
archive = record {
  capsule = capsule;
  manifest = entries;
  signature = "signed";
  public_key_id = "k1";
  files = files;
}

verify_manifest_iff_example :
    ((verify_manifest hashing verifying files entries).0 ≡ true)
    ↔ (All (IsStored hashing verifying files) entries × AllListed entries files)
verify_manifest_iff_example = verify_manifest_iff hashing verifying files entries

verify_capsule_iff_example :
    (is_accepted (verify_capsule hashing verifying archive).status ≡ true) ↔ (
      (is_supported (some "1.0") ≡ true)
      × ((hex : String) × (signing_key (find_key "k1" capsule.key_registry) ≡ some hex)
          × (true ≡ true))
      × ((verify_manifest hashing verifying files entries).0 ≡ true)
      × ((verify_chain hashing capsule).is_ok ≡ true)
      × (is_trusted (verify_key_trust verifying capsule "k1" none) ≡ true))
verify_capsule_iff_example = verify_capsule_iff hashing verifying archive

verify_key_trust-export_keys_example :
    verify_key_trust verifying capsule "k1" none
    ≡ status_of read_tally 9 2 (lookup "k1" (("k1", k1) ∷ []))
unfolding parse_ts
verify_key_trust-export_keys_example =
    verify_key_trust-export_keys verifying capsule "k1" (("k1", k1) ∷ []) 9 2 (refl, tt) refl refl

two_records_verified :
    (lineagelens.Integrity.verify_chain hashing signing [] 9 "w" "admin" two_records).is_ok ≡ true
unfolding lineagelens.Integrity.verify_chain report walk inspect inspect_active in_chain
    compute_record_hash compute_prompt_sha256
two_records_verified = refl

verify_chain-HasChain_example : (verify_chain hashing capsule).is_ok ≡ true
unfolding in_chain resolve_records
verify_chain-HasChain_example =
    verify_chain-HasChain hashing signing [] 9 "w" "admin" two_records capsule (refl, (refl, tt))
      (refl, refl, (refl, refl, tt)) (refl, refl) two_records_verified

-- The second record alone.
abbrev cut : Capsule
cut = record capsule {
  record_chain = record_chain_entry (code_record "u2" "y = 2" (some "x = 1")) ∷ [];
}
