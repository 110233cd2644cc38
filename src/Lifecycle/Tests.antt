-- ===== src/Lifecycle/Tests.antt =====
-- A redaction of the first of two records.
use lineagelens.Prelude.{String, ◌≡◌, refl, some, none, [], ◌∷◌}
use lineagelens.Chain.{ProvenanceRecord}
use lineagelens.Lifecycle.{Request, Db, apply_lifecycle_event, lifecycle_event, scrubbed, put_row}
use lineagelens.Lifecycle.Erasure.{get_row, IsErased, apply_lifecycle_event_erases}
use lineagelens.Fixture.{Serialised, hashing, signing, code_record, two_records}

abbrev redaction : Request
redaction = record {
  event_type = "redaction";
  authorized_by = none;
  reason = none;
  policy_ref = none;
}

abbrev first : ProvenanceRecord String
first = code_record "u1" "x = 1" none

abbrev after_redaction : Db String Serialised
after_redaction = record {
  records = scrubbed hashing first redaction ∷ code_record "u2" "y = 2" (some "x = 1") ∷ [];
  events = lifecycle_event hashing signing first redaction 5 ∷ [];
  encryption_keys = [];
}

redacted :
    apply_lifecycle_event hashing signing first redaction 5 two_records
    ≡ some (lifecycle_event hashing signing first redaction 5, after_redaction)
unfolding apply_lifecycle_event put_row
redacted = refl

two_records_present : get_row "u1" two_records.records ≡ some first
unfolding get_row
two_records_present = refl

apply_lifecycle_event_erases_example : IsErased first redaction after_redaction
apply_lifecycle_event_erases_example =
    apply_lifecycle_event_erases hashing signing first redaction 5 two_records after_redaction
      (lifecycle_event hashing signing first redaction 5) two_records_present redacted
