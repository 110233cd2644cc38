-- ===== src/Integrity/Tests.antt =====
-- The walk on a chain of two records, and instances of the theorems about it.
use lineagelens.Prelude.{
  ℕ, suc, ◌+◌, String, ◌≡◌, ◌≢◌, refl, true, false, none, some, List, [], ◌∷◌, ◌++◌, arith, eq_iff,
  filter, take, get_elem?, lookup,
}
use lineagelens.Attestation.{verify_attestation, with_signature}
use lineagelens.Chain.{
  ProvenanceRecord, in_chain, attach_hash_chain, compute_record_hash, compute_prompt_sha256,
}
use lineagelens.Lifecycle.{
  Db, Request, apply_lifecycle_event, lifecycle_statement, scrubbed, scrub, lifecycle_event,
  get_latest_event, put_row,
}
use lineagelens.Integrity.{
  Report, verify_chain, report, walk, inspect, inspect_active, inspect_scrubbed,
}
use lineagelens.Lifecycle.Erasure.{get_row}
use lineagelens.Integrity.Walk.{is_intact, verify_chain_localises}
use lineagelens.Integrity.Tombstone.{IsTable}
use lineagelens.Integrity.Privacy.{apply_lifecycle_event-verified}
use lineagelens.Integrity.Ingest.{attach_hash_chain-verified}
use lineagelens.Integrity.Detection.{
  unvouched_detected, scrubbed_forgery_unseen, forged, is_vouched,
}
use lineagelens.Fixture.{Serialised, hashing, signing, code_record, two_records}

abbrev answer : Db String Serialised → Report
answer db = verify_chain hashing signing [] 9 "w" "admin" db

two_records_ok : (answer two_records).is_ok ≡ true
unfolding verify_chain report walk inspect inspect_active in_chain compute_record_hash
    compute_prompt_sha256
two_records_ok = refl

abbrev deletion : Request
deletion = record {
  event_type = "deletion";
  authorized_by = some "admin";
  reason = none;
  policy_ref = none;
}

abbrev first : ProvenanceRecord String
first = code_record "u1" "x = 1" none

abbrev after_deletion : Db String Serialised
after_deletion = record {
  records = scrubbed hashing first deletion ∷ code_record "u2" "y = 2" (some "x = 1") ∷ [];
  events = lifecycle_event hashing signing first deletion 5 ∷ [];
  encryption_keys = [];
}

deleted :
    apply_lifecycle_event hashing signing first deletion 5 two_records
    ≡ some (lifecycle_event hashing signing first deletion 5, after_deletion)
unfolding apply_lifecycle_event put_row
deleted = refl

two_records_IsTable : IsTable two_records.records
unfolding get_row
two_records_IsTable = (refl, (refl, tt))

first_present : get_row "u1" two_records.records ≡ some first
unfolding get_row
first_present = refl

first_digest : first.prompt_sha256 ≢ some ""
first_digest e = ground (arith, e, eq_iff "prompt" "")

first_content : first.content_sha256 ≢ some ""
first_content e = ground (arith, e, eq_iff "x = 1" "")

first_signed :
    verify_attestation signing
      (with_signature signing (lifecycle_statement hashing signing first deletion 5))
      none
      []
      9
    ≡ true
unfolding verify_attestation with_signature lookup
first_signed = refl

apply_lifecycle_event-verified_example : (answer after_deletion).is_ok ≡ true
apply_lifecycle_event-verified_example =
    apply_lifecycle_event-verified hashing signing [] 9 first deletion 5 "w" "admin" two_records
      after_deletion (lifecycle_event hashing signing first deletion 5) first_digest first_content
      refl first_signed two_records_IsTable first_present deleted two_records_ok

-- A deletion without its event.
abbrev unsigned : Db String Serialised
unsigned = record after_deletion { events = [] }

unsigned_broken : (answer unsigned).is_ok ≡ false
unfolding verify_chain report walk inspect inspect_active inspect_scrubbed in_chain scrubbed scrub
    get_latest_event compute_record_hash
unsigned_broken = refl

abbrev rows_of : Db String Serialised → List (ProvenanceRecord String)
rows_of db = filter (in_chain "w") db.records

verify_chain_localises_example :
    (k : ℕ) × (r : ProvenanceRecord String) × (get_elem? (rows_of unsigned) k ≡ some r)
    × ((answer unsigned).records_checked ≡ k + 1)
    × ((answer unsigned).first_break_uuid ≡ some r.uuid)
    × (is_intact hashing signing [] 9 [] "w" (take k (rows_of unsigned)) none ≡ true)
    × (is_intact hashing signing [] 9 [] "w" (take (suc k) (rows_of unsigned)) none ≡ false)
verify_chain_localises_example =
    verify_chain_localises hashing signing [] 9 "w" "admin" unsigned unsigned_broken

attach_hash_chain-verified_example :
    (answer (record two_records {
      records = two_records.records ++ attach_hash_chain hashing two_records.records first ∷ [];
    })).is_ok
    ≡ true
attach_hash_chain-verified_example =
    attach_hash_chain-verified hashing signing [] 9 "admin" two_records first refl two_records_ok

abbrev tombstone : ProvenanceRecord String
tombstone = scrubbed hashing first deletion

unvouched_detected_example : (answer unsigned).is_ok ≡ false
unfolding in_chain scrubbed scrub is_vouched get_latest_event
unvouched_detected_example =
    unvouched_detected hashing signing [] 9 "admin" "w" unsigned []
      (code_record "u2" "y = 2" (some "x = 1") ∷ []) tombstone refl refl refl refl

scrubbed_forgery_unseen_example :
    (answer (record after_deletion {
      records =
          forged tombstone "import os" "b.py" none none
          ∷ code_record "u2" "y = 2" (some "x = 1")
          ∷ [];
    })).is_ok
    ≡ (answer after_deletion).is_ok
unfolding scrubbed scrub
scrubbed_forgery_unseen_example =
    scrubbed_forgery_unseen hashing signing [] 9 "admin" "w" after_deletion []
      (code_record "u2" "y = 2" (some "x = 1") ∷ []) tombstone "import os" "b.py" none none refl
      refl
