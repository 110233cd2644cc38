-- ===== src/Chain.antt =====
-- The hash chain of provenance records: the digests of
-- lineagelens-backend/app/services/integrity_service.py, the link that ingest attaches
-- (`_attach_hash_chain` of lineagelens-backend/app/services/provenance_service.py), and the rows of
-- lineagelens-backend/app/db/models.py that they read.
use lineagelens.Prelude.{
  String, Bool, true, false, Option, none, some, List, [], ◌∷◌, str_eq, filter, get_last?, ◌&&◌,
}
use lineagelens.Attestation.{text_or}

-- What the code takes from `hashlib` and `json`. `P` is the type of prompt messages, `T` that of
-- serialised values. `dumps_prompt` gives `none` where `json.dumps` raises.
pub record Hashing (P T : Type 0) : Type 0 where
  pub sha256_hex : T → String
  pub dumps_fields : List (String × String) → T
  pub dumps_prompt : P → Option T
  pub str_prompt : P → T
  pub encode : String → T

-- The columns of `provenance_records` that the chain and the privacy lifecycle touch. `payload` and
-- the other scrubbed columns are kept as texts, `none` for NULL; `timestamp_iso` is the moment in
-- its ISO form.
pub record ProvenanceRecord (P : Type 0) : Type 0 where
  pub uuid : String
  pub workspace_id : String
  pub file_path : String
  pub timestamp_iso : String
  pub prompt_messages : Option P
  pub model_name : Option String
  pub raw_model_response : Option String
  pub inserted_code : String
  pub surrounding_context : Option String
  pub context_snapshot : Option String
  pub provenance_payload : String
  pub embeddings : Option String
  pub ast_snapshot : Option String
  pub embedding_vector : Option String
  pub is_redacted : Bool
  pub record_hash : Option String
  pub prev_hash : Option String
  pub prompt_sha256 : Option String
  pub content_sha256 : Option String
  pub lifecycle_state : Option String

-- The rows that the chain of a workspace is made of, in the order of their ids.
unfoldable pub in_chain : {P : Type 0} → String → ProvenanceRecord P → Bool
in_chain workspace_id r =
    str_eq r.workspace_id workspace_id && elim r.record_hash [ none ↦ false | some hash ↦ true ]

-- `prev_stmt` of `_attach_hash_chain`: the hash of the last chained row of the workspace. The rows
-- are those with a smaller id.
unfoldable pub head_hash : {P : Type 0} → String → List (ProvenanceRecord P) → Option String
unfolding in_chain
head_hash workspace_id rows = elim (get_last? (filter (in_chain workspace_id) rows)) [
  | none ↦ none
  | some r ↦ r.record_hash
]

module _ {P T : Type 0} (h : Hashing P T) where
  -- `compute_prompt_sha256`
  unfoldable pub compute_prompt_sha256 : Option P → Option String
  compute_prompt_sha256 none = none
  compute_prompt_sha256 (some prompt) = some (elim (h.dumps_prompt prompt) [
    | none ↦ h.sha256_hex (h.str_prompt prompt)
    | some canonical ↦ h.sha256_hex canonical
  ])

  -- `compute_content_sha256`
  unfoldable pub compute_content_sha256 : Option String → Option String
  compute_content_sha256 none = none
  compute_content_sha256 (some code) = some (h.sha256_hex (h.encode code))

  -- `compute_record_hash`; the fields in the order of `sort_keys`.
  unfoldable pub compute_record_hash :
      String
      → String
      → String
      → Option String
      → Option String
      → Option String
      → String
      → Option String
      → String
  compute_record_hash record_uuid workspace_id file_path inserted_code model_name prompt_sha256
        timestamp_iso prev_hash =
      h.sha256_hex (
        h.dumps_fields (
          ("file_path", file_path)
          ∷ ("inserted_code", text_or inserted_code "")
          ∷ ("model_name", text_or model_name "")
          ∷ ("prev_hash", text_or prev_hash "")
          ∷ ("prompt_sha256", text_or prompt_sha256 "")
          ∷ ("timestamp_iso", timestamp_iso)
          ∷ ("uuid", record_uuid)
          ∷ ("workspace_id", workspace_id)
          ∷ []))

  -- `_attach_hash_chain` on a row that has its id; `FOR UPDATE` makes it one step.
  unfoldable pub attach_hash_chain :
      List (ProvenanceRecord P) → ProvenanceRecord P → ProvenanceRecord P
  attach_hash_chain rows r =
      let prev_hash = head_hash r.workspace_id rows in
      let prompt_sha = compute_prompt_sha256 r.prompt_messages in
      record r {
        prev_hash = prev_hash;
        prompt_sha256 = prompt_sha;
        content_sha256 = compute_content_sha256 (some r.inserted_code);
        record_hash = some (
            compute_record_hash r.uuid r.workspace_id r.file_path (some r.inserted_code)
              r.model_name prompt_sha r.timestamp_iso prev_hash);
      }
