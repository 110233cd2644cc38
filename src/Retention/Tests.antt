-- ===== src/Retention/Tests.antt =====
-- The sweep of two records: one is old enough to be deleted, the other to be redacted.
use lineagelens.Prelude.{
  ℕ, ◌*◌, ◌+◌, String, ◌≡◌, ◌≢◌, refl, ap, true, Option, none, some, List, [], ◌∷◌, arith, All,
  of_some, lookup,
}
use lineagelens.Attestation.{Statement, verify_attestation, with_signature}
use lineagelens.Chain.{
  Hashing, ProvenanceRecord, in_chain, compute_record_hash, compute_prompt_sha256,
}
use lineagelens.Lifecycle.{LifecycleClaims, Db, apply_lifecycle_event, scrubbed, scrub, put_row}
use lineagelens.Lifecycle.Erasure.{get_row}
use lineagelens.Integrity.{verify_chain, report, walk, inspect, inspect_active}
use lineagelens.Integrity.Tombstone.{IsTable}
use lineagelens.Retention.{
  RetentionPolicy, day, Counts, is_to_delete, is_to_redact, deletion_request, redaction_request,
  apply_events, redact_old, sweep, sweep_all, selected, run_retention_cleanup,
}
use lineagelens.Retention.Versions.{
  Tables, RetentionPolicyVersion, upsert_retention_policy, open_retention_version,
  get_retention_policy,
}
use lineagelens.Retention.Settled.{IsLast}
use lineagelens.Retention.Current.{IsCurrent, upsert_retention_policy-IsCurrent}
use lineagelens.Retention.Chains.{HasDigests, run_retention_cleanup-verified}
use lineagelens.Fixture.{Serialised, hashing, signing, code_record, count, tally}

abbrev lettered : Hashing String Serialised
lettered = record hashing { sha256_hex = λ t. String.◌∷◌ "h" (hashing.sha256_hex t) }

abbrev days_of : String → ℕ
days_of t = count t * day

abbrev stored : String → String → String → Option String → ProvenanceRecord String
stored uuid code timestamp prev = record (code_record uuid code prev) {
  timestamp_iso = timestamp;
  record_hash = some (String.◌∷◌ "h" code);
  prompt_sha256 = some "hprompt";
  content_sha256 = some (String.◌∷◌ "h" code);
}

abbrev old_records : Db String Serialised
old_records = record {
  records =
      stored "u1" "x = 1" (tally 9) none ∷ stored "u2" "y = 2" (tally 49) (some "hx = 1") ∷ [];
  events = [];
  encryption_keys = "u1" ∷ [];
}

abbrev policies : List RetentionPolicy
policies =
    record {
      id = 1;
      workspace_id = "w";
      retain_days = 80;
      redact_after_days = some 30;
      enabled = true;
      current_version = 1;
    }
    ∷ []

abbrev now : ℕ
now = 100 * day + 1

abbrev clean : Option (Counts × Db String Serialised)
clean =
    run_retention_cleanup lettered signing days_of tally (λ uuid. 7) policies none now old_records

rows_differ : IsTable old_records.records
unfolding get_row
rows_differ = (refl, (refl, tt))

-- One deletion and one redaction.
abbrev both : Counts
both = record { deleted = 1; redacted = 1 }

cleaned : (db' : Db String Serialised) × (clean ≡ some (both, db'))
unfolding run_retention_cleanup sweep_all sweep redact_old apply_events is_to_delete is_to_redact
    selected apply_lifecycle_event scrubbed scrub put_row deletion_request redaction_request
cleaned = (_, refl)

lettered_proper : (x : Serialised) → lettered.sha256_hex x ≢ ""
lettered_proper x e = absurd (ground (arith, ap count e))

text_ne : (t : String) → some (String.◌∷◌ "h" t) ≢ some ""
text_ne t e = absurd (ground (arith, ap count (of_some e)))

digests_there : All HasDigests old_records.records
digests_there = ((text_ne "prompt", text_ne "x = 1"), ((text_ne "prompt", text_ne "y = 2"), tt))

signing_verifies :
    (st : Statement LifecycleClaims)
    → verify_attestation signing (with_signature signing st) none [] 9 ≡ true
unfolding verify_attestation with_signature lookup
signing_verifies st = refl

chain_ok : (verify_chain lettered signing [] 9 "w" "admin" old_records).is_ok ≡ true
unfolding verify_chain report walk inspect inspect_active in_chain compute_record_hash
    compute_prompt_sha256
chain_ok = refl

run_retention_cleanup-verified_example :
    (verify_chain lettered signing [] 9 "w" "admin" cleaned.0).is_ok ≡ true
run_retention_cleanup-verified_example =
    run_retention_cleanup-verified lettered signing days_of tally (λ uuid. 7) [] 9 policies none now
      "w" "admin" old_records cleaned.0 both lettered_proper (λ st. refl) signing_verifies
      rows_differ digests_there cleaned.1 chain_ok

abbrev first_version : RetentionPolicyVersion
first_version = record {
  policy_id = 1;
  workspace_id = "w";
  version = 1;
  change_type = "create";
  retain_days = 90;
  redact_after_days = none;
  enabled = true;
  digest = "digest";
  created_by = none;
  superseded_at = none;
}

abbrev first_policy : RetentionPolicy
first_policy = record {
  id = 1;
  workspace_id = "w";
  retain_days = 90;
  redact_after_days = none;
  enabled = true;
  current_version = 1;
}

abbrev written : Tables
written = record { policies = first_policy ∷ []; versions = first_version ∷ [] }

created :
    upsert_retention_policy
      (λ days after. "digest")
      1
      5
      "w"
      90
      none
      true
      (record { policies = []; versions = [] })
    ≡ some written
unfolding upsert_retention_policy
created = refl

upsert_retention_policy-IsCurrent_example :
    (tables' : Tables) × (upsert_retention_policy
        (λ days after. "digest")
        2
        9
        "w"
        60
        (some 30)
        true
        written
      ≡ some tables')
    × IsCurrent (λ days after. "digest") "w" 60 (some 30) true 1 2 tables'
    × IsLast 1 2 tables'.versions
unfolding open_retention_version get_retention_policy
upsert_retention_policy-IsCurrent_example =
    upsert_retention_policy-IsCurrent (λ days after. "digest") 2 9 "w" 60 (some 30) true written
      (refl, (refl, tt))
