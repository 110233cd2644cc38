-- ===== src/Integrity.antt =====
-- `GET /integrity/verify`: the walk over the hash chain of a workspace
-- (lineagelens-backend/app/api/routes/integrity.py). The prose of the answer's `message` is left out.
pub mod Walk
pub mod Tombstone
pub mod Privacy
pub mod Ingest
pub mod Detection
mod Tests
use lineagelens.Prelude.{
  ℕ, zero, ◌+◌, String, Bool, true, false, not, ◌&&◌, ◌||◌, Option, none, some, List, [], ◌∷◌, ◌++◌,
  str_eq, opt_eq, if◌then◌else◌, filter, Dict, ◌==◌,
}
use lineagelens.Attestation.{Signing, KeyRecord, text_or}
use lineagelens.Chain.{
  Hashing, ProvenanceRecord, compute_prompt_sha256, compute_record_hash, in_chain,
}
use lineagelens.Lifecycle.{
  Db, RecordLifecycleEvent, LifecycleClaims, or_else, get_latest_event, verify_event_signature,
  commitment_matches_record,
}

-- The states of `ChainState` that the route answers with.
pub data ChainState : Type 0 where
  fully_available locally_tamper_evident tampered unverifiable : ChainState

-- The dict `states`.
pub record States : Type 0 where
  pub active : ℕ
  pub validly_redacted : ℕ
  pub validly_deleted : ℕ

-- A row of the audit log; `details` maps to texts that may be absent.
pub record AuditEvent : Type 0 where
  pub workspace_id : String
  pub user_id : String
  pub action : String
  pub target_uuid : String
  pub details : List (String × Option String)

pub record Report : Type 0 where
  pub is_ok : Bool
  pub records_checked : ℕ
  pub first_break_uuid : Option String
  pub states : States
  pub chain_state : ChainState
  pub audit : List AuditEvent

-- What a look at one record's content finds: it counts as one of the states, or it is broken and
-- these details go to the audit log.
pub data Finding : Type 0 where
  active redacted deleted : Finding
  broken : List (String × Option String) → Finding

abbrev pub is_sound : Finding → Bool
is_sound (broken details) = false
is_sound _ = true

abbrev pub no_states : States
no_states = record { active = 0; validly_redacted = 0; validly_deleted = 0 }

abbrev pub bump : Finding → States → States
bump active n = record n { active = n.active + 1 }
bump redacted n = record n { validly_redacted = n.validly_redacted + 1 }
bump deleted n = record n { validly_deleted = n.validly_deleted + 1 }
bump (broken details) n = n

abbrev pub is_scrubbed : String → Bool
is_scrubbed lifecycle = str_eq lifecycle "redacted" || str_eq lifecycle "deleted"

abbrev pub expected_type : String → String
expected_type lifecycle = if str_eq lifecycle "deleted" then "deletion" else "redaction"

-- `prompt_messages is not None and prompt_sha256 is not None and recomputed != prompt_sha256`
abbrev pub prompt_differs : {P : Type 0} → Option P → Option String → Option String → Bool
prompt_differs none stored recomputed = false
prompt_differs (some prompt) none recomputed = false
prompt_differs (some prompt) (some stored) recomputed = not (opt_eq recomputed (some stored))

module _ {P T : Type 0} (h : Hashing P T) (s : Signing LifecycleClaims T) where
  module _ (registry : Dict KeyRecord) (clock : ℕ) (events : List (RecordLifecycleEvent T)) where
    unfoldable pub event_valid :
        Option (RecordLifecycleEvent T) → ProvenanceRecord P → String → Bool
    event_valid none r lifecycle = false
    event_valid (some event) r lifecycle =
        str_eq event.event_type (expected_type lifecycle)
        && verify_event_signature s event registry clock
        && commitment_matches_record event r

    -- The branch of a redacted or deleted record.
    unfoldable pub inspect_scrubbed : String → ProvenanceRecord P → String → Finding
    unfolding event_valid
    inspect_scrubbed workspace_id r lifecycle =
        if event_valid (get_latest_event workspace_id r.uuid events) r lifecycle
        then (if str_eq lifecycle "deleted" then deleted else redacted)
        else broken (
            ("lifecycle_state", some lifecycle)
            ∷ ("reason", some "missing_or_invalid_lifecycle_event")
            ∷ [])

    -- The branch of an active record; `prev_hash` is the hash of the record before it.
    unfoldable pub inspect_active : ProvenanceRecord P → Option String → Finding
    inspect_active r prev_hash =
        let recomputed = compute_prompt_sha256 h r.prompt_messages in
        let expected =
          compute_record_hash h r.uuid r.workspace_id r.file_path (some r.inserted_code)
            r.model_name (or_else r.prompt_sha256 recomputed) r.timestamp_iso prev_hash in
        if prompt_differs r.prompt_messages r.prompt_sha256 recomputed
        then broken (
            ("expected_prompt_sha256", r.prompt_sha256)
            ∷ ("recomputed_prompt_sha256", recomputed)
            ∷ ("reason", some "prompt_commitment_mismatch")
            ∷ [])
        else if opt_eq (some expected) r.record_hash
        then active
        else broken (("expected_hash", some expected) ∷ ("stored_hash", r.record_hash) ∷ [])

    unfoldable pub inspect : String → ProvenanceRecord P → Option String → Finding
    unfolding inspect_scrubbed inspect_active
    inspect workspace_id r prev_hash =
        let lifecycle = text_or r.lifecycle_state "active" in
        if is_scrubbed lifecycle
        then inspect_scrubbed workspace_id r lifecycle
        else inspect_active r prev_hash

    tampered_at :
        String → String → ℕ → States → String → String → List (String × Option String) → Report
    tampered_at workspace_id user uuid_count states uuid action details = record {
      is_ok = false;
      records_checked = uuid_count;
      first_break_uuid = some uuid;
      states = states;
      chain_state = tampered;
      audit =
          record {
            workspace_id = workspace_id;
            user_id = user;
            action = action;
            target_uuid = uuid;
            details = details;
          }
          ∷ [];
    }

    passed : ℕ → States → Report
    passed checked states = record {
      is_ok = true;
      records_checked = checked;
      first_break_uuid = none;
      states = states;
      chain_state =
          if (states.validly_redacted == 0) && (states.validly_deleted == 0)
          then fully_available
          else locally_tamper_evident;
      audit = [];
    }

    -- The loop of `verify_chain`, from its counters on.
    unfoldable pub walk :
        String → String → List (ProvenanceRecord P) → ℕ → Option String → States → Report
    unfolding tampered_at passed
    walk workspace_id user [] checked prev_hash states = passed checked states
    walk workspace_id user (r ∷ rows) checked prev_hash states =
        let finding = inspect workspace_id r prev_hash in
        let states' = bump finding states in
        let rest = walk workspace_id user rows (checked + 1) r.record_hash states' in
        elim finding [
          | broken details ↦
              tampered_at workspace_id user (checked + 1) states r.uuid
                "integrity_verify_hash_break" details
          | _ ↦
              if opt_eq r.prev_hash prev_hash
              then rest
              else tampered_at workspace_id user (checked + 1) states' r.uuid
                  "integrity_verify_chain_break"
                  (("expected_prev", prev_hash) ∷ ("stored_prev", r.prev_hash) ∷ [])
        ]

  unverified : Report
  unverified = record {
    is_ok = true;
    records_checked = 0;
    first_break_uuid = none;
    states = no_states;
    chain_state = unverifiable;
    audit = [];
  }

  -- The answer on the chained rows of the workspace.
  unfoldable pub report :
      Dict KeyRecord
      → ℕ
      → String
      → String
      → List (RecordLifecycleEvent T)
      → List (ProvenanceRecord P)
      → Report
  unfolding unverified walk
  report registry clock workspace_id user events [] = unverified
  report registry clock workspace_id user events rows =
      walk registry clock events workspace_id user rows 0 none no_states

  -- `verify_chain`; `user` is `auth.subject`, and `registry` what `_registry()` returns.
  unfoldable pub verify_chain : Dict KeyRecord → ℕ → String → String → Db P T → Report
  unfolding report
  verify_chain registry clock workspace_id user db =
      report registry clock workspace_id user db.events (filter (in_chain workspace_id) db.records)
