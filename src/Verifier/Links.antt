-- ===== src/Verifier/Links.antt =====
-- The hash chain of a capsule: `verify_chain` of
-- lineagelens-verifier/lineagelens_verifier/verify.py.
use lineagelens.Prelude.{
  String, Bool, true, false, ◌&&◌, ◌||◌, Option, none, some, List, [], ◌∷◌, ◌++◌, filter, get_last?,
  str_eq, opt_eq, if◌then◌else◌,
}
use lineagelens.Attestation.{text_or}
use lineagelens.Chain.{Hashing}
use lineagelens.Verifier.{
  ChainEntry, EventEntry, Capsule, Problem, no_valid_event, hash_mismatch, chain_break,
}

-- `rec.get("lifecycleState", "active") in ("redacted", "deleted")`
abbrev pub is_gone : Option String → Bool
is_gone none = false
is_gone (some state) = str_eq state "redacted" || str_eq state "deleted"

abbrev pub event_type_of : Option String → String
event_type_of state = if opt_eq state (some "deleted") then "deletion" else "redaction"

-- `matching[-1] if matching else None`
unfoldable pub latest_matching : List EventEntry → ChainEntry → Option EventEntry
latest_matching events rec = get_last? (
    filter
      (λ e.
        opt_eq e.record_uuid (some rec.uuid)
        && opt_eq e.event_type (some (event_type_of rec.lifecycle_state)))
      events)

-- The event of a scrubbed entry has a valid signature and commits to the entry's digests.
unfoldable pub event_holds : Option EventEntry → ChainEntry → Bool
event_holds none rec = false
event_holds (some event) rec =
    event.signature_valid
    && opt_eq event.content_commitment.prompt_sha256 rec.prompt_sha256
    && opt_eq event.content_commitment.content_sha256 rec.content_sha256

-- The variables of the loop.
pub record LoopState : Type 0 where
  pub is_ok : Bool
  pub has_redactions : Bool
  pub problems : List Problem
  pub expected_prev : Option String

abbrev pub start : LoopState
start = record { is_ok = true; has_redactions = false; problems = []; expected_prev = none }

-- Where the test fails: `ok = False` and `problems.append(problem)`.
abbrev pub expect : Bool → Problem → LoopState → LoopState
expect true problem st = st
expect false problem st = record st { is_ok = false; problems = st.problems ++ problem ∷ [] }

module _ {P T : Type 0} (h : Hashing P T) where
  -- `_compute_record_hash` on the fields of an entry.
  unfoldable pub entry_hash : ChainEntry → String
  entry_hash rec = h.sha256_hex (
      h.dumps_fields (
        ("file_path", rec.file_path)
        ∷ ("inserted_code", text_or rec.inserted_code "")
        ∷ ("model_name", text_or rec.model_name "")
        ∷ ("prev_hash", text_or rec.prev_hash "")
        ∷ ("prompt_sha256", text_or rec.prompt_sha256 "")
        ∷ ("timestamp_iso", rec.timestamp_iso)
        ∷ ("uuid", rec.uuid)
        ∷ ("workspace_id", rec.workspace_id)
        ∷ []))

  -- The two branches on an entry's lifecycle state.
  unfoldable pub check_content : List EventEntry → ChainEntry → LoopState → LoopState
  unfolding latest_matching event_holds entry_hash
  check_content events rec st =
      if is_gone rec.lifecycle_state
      then expect (event_holds (latest_matching events rec) rec) (no_valid_event rec.uuid)
          (record st { has_redactions = true })
      else expect (opt_eq (some (entry_hash rec)) rec.record_hash) (hash_mismatch rec.uuid) st

  -- The body of the loop.
  unfoldable pub check_entry : List EventEntry → ChainEntry → LoopState → LoopState
  unfolding check_content
  check_entry events rec st =
      let linked =
        expect (opt_eq rec.prev_hash st.expected_prev) (chain_break rec.uuid)
          (check_content events rec st) in
      record linked { expected_prev = rec.record_hash }

  unfoldable pub check_entries : List EventEntry → List ChainEntry → LoopState → LoopState
  unfolding check_entry
  check_entries events [] st = st
  check_entries events (rec ∷ recs) st = check_entries events recs (check_entry events rec st)

  unfoldable pub verify_chain : Capsule → LoopState
  unfolding check_entries
  verify_chain capsule = check_entries capsule.lifecycle_events capsule.record_chain start
