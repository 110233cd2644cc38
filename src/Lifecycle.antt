-- ===== src/Lifecycle.antt =====
-- The privacy lifecycle of records: redaction and deletion by signed events
-- (lineagelens-backend/app/services/record_lifecycle_service.py).
pub mod Rows
pub mod Events
pub mod Erasure
mod Tests
use lineagelens.Prelude.{
  ℕ, String, ◌≡◌, Bool, true, false, not, ◌&&◌, Option, none, some, List, [], ◌∷◌, ◌++◌, str_eq,
  opt_eq, if◌then◌else◌, filter, get_last?, Dict, map,
}
use lineagelens.Attestation.{
  Statement, Signing, SignedAttestation, KeyRecord, text_or, build_attestation, with_signature,
  sign_attestation, verify_attestation,
}
use lineagelens.Chain.{Hashing, ProvenanceRecord, compute_prompt_sha256, compute_content_sha256}

-- The names of the columns that an event clears.
pub data Field : Type 0 where
  prompt_messages raw_model_response surrounding_context context_snapshot provenance_payload : Field
  inserted_code embeddings ast_snapshot embedding_vector : Field

abbrev pub redaction_fields : List Field
redaction_fields =
    prompt_messages ∷ raw_model_response ∷ surrounding_context ∷ context_snapshot
    ∷ provenance_payload ∷ []

abbrev pub deletion_fields : List Field
deletion_fields =
    redaction_fields ++ inserted_code ∷ embeddings ∷ ast_snapshot ∷ embedding_vector ∷ []

pub record Commitment : Type 0 where
  pub prompt_sha256 : Option String
  pub content_sha256 : Option String
  pub fields_removed : List Field

-- The `claims` of a lifecycle statement.
pub record LifecycleClaims : Type 0 where
  pub event_type : String
  pub reason : Option String
  pub policy_ref : Option String
  pub authorized_by : Option String
  pub commitment : Commitment

-- A row of `record_lifecycle_events`; `T` is the type of serialised statements.
pub record RecordLifecycleEvent (T : Type 0) : Type 0 where
  pub workspace_id : String
  pub record_uuid : String
  pub event_type : String
  pub reason : Option String
  pub policy_ref : Option String
  pub authorized_by : Option String
  pub content_commitment : Commitment
  pub statement_json : T
  pub signature : String
  pub public_key_id : String
  pub prev_hash : Option String

-- The tables that the service reads and writes, rows by their ids; `encryption_keys` has the
-- `record_uuid` of each row of `record_keys`.
pub record Db (P T : Type 0) : Type 0 where
  pub records : List (ProvenanceRecord P)
  pub events : List (RecordLifecycleEvent T)
  pub encryption_keys : List String

-- `a or b` on two texts that may be absent.
abbrev pub or_else : Option String → Option String → Option String
or_else none b = b
or_else (some a) b = if str_eq a "" then b else some a

-- `x if x is not None else y`
abbrev pub if_none : Option String → Option String → Option String
if_none none b = b
if_none (some a) b = some a

unfoldable pub scrub_field : {P : Type 0} → Field → ProvenanceRecord P → ProvenanceRecord P
scrub_field prompt_messages r = record r { prompt_messages = none }
scrub_field raw_model_response r = record r { raw_model_response = none }
scrub_field surrounding_context r = record r { surrounding_context = none }
scrub_field context_snapshot r = record r { context_snapshot = none }
scrub_field provenance_payload r = record r { provenance_payload = "{}" }
scrub_field inserted_code r = record r { inserted_code = "" }
scrub_field embeddings r = record r { embeddings = none }
scrub_field ast_snapshot r = record r { ast_snapshot = none }
scrub_field embedding_vector r = record r { embedding_vector = none }

-- `_scrub`
unfoldable pub scrub : {P : Type 0} → List Field → ProvenanceRecord P → ProvenanceRecord P
unfolding scrub_field
scrub [] r = r
scrub (field ∷ fields) r = scrub fields (scrub_field field r)

-- Writing a row back; uuids are unique.
unfoldable pub put_row :
    {P : Type 0} → ProvenanceRecord P → List (ProvenanceRecord P) → List (ProvenanceRecord P)
put_row r [] = []
put_row r (old ∷ rows) = if str_eq old.uuid r.uuid then r ∷ rows else old ∷ put_row r rows

abbrev pub is_event_type : String → Bool
is_event_type event_type =
    if str_eq event_type "redaction" then true else str_eq event_type "deletion"

abbrev pub fields_of : String → List Field
fields_of event_type = if str_eq event_type "redaction" then redaction_fields else deletion_fields

abbrev pub state_of : String → String
state_of event_type = if str_eq event_type "deletion" then "deleted" else "redacted"

-- The keyword arguments of `apply_lifecycle_event`.
pub record Request : Type 0 where
  pub event_type : String
  pub authorized_by : Option String
  pub reason : Option String
  pub policy_ref : Option String

module _ {P T : Type 0} (h : Hashing P T) where
  -- `_build_commitment`
  unfoldable pub build_commitment : ProvenanceRecord P → List Field → Commitment
  build_commitment r fields_removed = record {
    prompt_sha256 = or_else r.prompt_sha256 (compute_prompt_sha256 h r.prompt_messages);
    content_sha256 = or_else r.content_sha256 (compute_content_sha256 h (some r.inserted_code));
    fields_removed = fields_removed;
  }

  -- The record after the commitment columns are filled and the fields are scrubbed.
  unfoldable pub scrubbed : ProvenanceRecord P → Request → ProvenanceRecord P
  unfolding build_commitment scrub
  scrubbed r q =
      let commitment = build_commitment r (fields_of q.event_type) in
      let filled = record r {
        prompt_sha256 = if_none r.prompt_sha256 commitment.prompt_sha256;
        content_sha256 = if_none r.content_sha256 commitment.content_sha256;
      } in
      let bare = scrub (fields_of q.event_type) filled in
      record bare { is_redacted = true; lifecycle_state = some (state_of q.event_type) }

module _ {P T : Type 0} (h : Hashing P T) (s : Signing LifecycleClaims T) where
  -- The statement of an event, from the record before it is scrubbed.
  unfoldable pub lifecycle_statement : ProvenanceRecord P → Request → ℕ → Statement LifecycleClaims
  unfolding build_commitment
  lifecycle_statement r q now =
      build_attestation s "record_lifecycle" r.uuid
        (record {
          event_type = q.event_type;
          reason = q.reason;
          policy_ref = q.policy_ref;
          authorized_by = q.authorized_by;
          commitment = build_commitment h r (fields_of q.event_type);
        })
        r.workspace_id r.record_hash now

  -- The event with this signed statement.
  unfoldable pub event_of :
      ProvenanceRecord P → Request → SignedAttestation LifecycleClaims → RecordLifecycleEvent T
  event_of r q signed = record {
    workspace_id = r.workspace_id;
    record_uuid = r.uuid;
    event_type = q.event_type;
    reason = q.reason;
    policy_ref = q.policy_ref;
    authorized_by = q.authorized_by;
    content_commitment = build_commitment h r (fields_of q.event_type);
    statement_json = s.dumps signed.statement;
    signature = signed.signature;
    public_key_id = signed.public_key_id;
    prev_hash = r.record_hash;
  }

  -- The event that the loaded key signs.
  unfoldable pub lifecycle_event : ProvenanceRecord P → Request → ℕ → RecordLifecycleEvent T
  unfolding with_signature event_of
  lifecycle_event r q now = event_of r q (with_signature s (lifecycle_statement r q now))

  -- `apply_lifecycle_event` on a row of the table, at the clock reading `now`; `none` is the
  -- `ValueError` on another event type, or the error of a key that does not load.
  unfoldable pub apply_lifecycle_event :
      ProvenanceRecord P → Request → ℕ → Db P T → Option (RecordLifecycleEvent T × Db P T)
  unfolding sign_attestation lifecycle_event scrubbed put_row
  apply_lifecycle_event r q now db =
      if is_event_type q.event_type
      then elim (sign_attestation s (lifecycle_statement r q now)) [
        | none ↦ none
        | some signed ↦
            let event = event_of r q signed in
            some (
              event,
              record {
                records = put_row (scrubbed h r q) db.records;
                events = db.events ++ event ∷ [];
                encryption_keys = filter (λ u. not (str_eq u r.uuid)) db.encryption_keys;
              },
            )
      ]
      else none

-- `get_latest_event`: the last event of the record by id.
unfoldable pub get_latest_event :
    {T : Type 0} → String → String → List (RecordLifecycleEvent T) → Option (RecordLifecycleEvent T)
get_latest_event workspace_id record_uuid events =
    get_last?
      (filter (λ e. str_eq e.workspace_id workspace_id && str_eq e.record_uuid record_uuid) events)

module _ {T : Type 0} (s : Signing LifecycleClaims T) where
  -- `verify_event_signature`; a statement that does not parse is not verified.
  unfoldable pub verify_event_signature : RecordLifecycleEvent T → Dict KeyRecord → ℕ → Bool
  verify_event_signature event registry clock = elim (s.loads event.statement_json) [
    | none ↦ false
    | some statement ↦
        verify_attestation s
          (record {
            statement = statement;
            signature = event.signature;
            public_key_id = event.public_key_id;
          })
          none registry clock
  ]

-- One column of `commitment_matches_record`: a stored digest is the committed one.
abbrev pub digest_agrees : Option String → Option String → Bool
digest_agrees none committed = true
digest_agrees (some digest) committed = opt_eq committed (some digest)

unfoldable pub commitment_matches_record :
    {P T : Type 0} → RecordLifecycleEvent T → ProvenanceRecord P → Bool
commitment_matches_record event r =
    digest_agrees r.prompt_sha256 event.content_commitment.prompt_sha256
    && digest_agrees r.content_sha256 event.content_commitment.content_sha256
