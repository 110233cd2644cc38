-- ===== src/Lifecycle/Rows.antt =====
-- What an event leaves of its record.
use lineagelens.Prelude.{
  ◌≡◌, refl, true, none, some, List, [], ◌∷◌, arith, str_eq, if◌then◌else◌, Bool-cases, inl, inr,
}
use lineagelens.Chain.{Hashing, ProvenanceRecord, compute_prompt_sha256, compute_content_sha256}
use lineagelens.Lifecycle.{
  Field, Request, scrub_field, scrub, scrubbed, fields_of, state_of, build_commitment, if_none,
  or_else,
}

-- The columns that carry the chain and the commitments.
pub record SameLinks {P : Type 0} (a b : ProvenanceRecord P) : Type 0 where
  pub uuid : a.uuid ≡ b.uuid
  pub workspace_id : a.workspace_id ≡ b.workspace_id
  pub record_hash : a.record_hash ≡ b.record_hash
  pub prev_hash : a.prev_hash ≡ b.prev_hash
  pub prompt_sha256 : a.prompt_sha256 ≡ b.prompt_sha256
  pub content_sha256 : a.content_sha256 ≡ b.content_sha256

module _ {P : Type 0} where
  scrub_field-SameLinks :
      (field : Field) (a b : ProvenanceRecord P) → SameLinks a b → SameLinks (scrub_field field a) b
  unfolding scrub_field
  scrub_field-SameLinks Field.prompt_messages a b e = ground arith
  scrub_field-SameLinks _ a b e = ground arith

  -- Scrubbing never touches the chain or the commitments.
  pub scrub-SameLinks :
      (fields : List Field) (a b : ProvenanceRecord P)
      → SameLinks a b
      → SameLinks (scrub fields a) b
  unfolding scrub
  scrub-SameLinks [] a b e = e
  scrub-SameLinks (field ∷ fields) a b e =
      scrub-SameLinks fields (scrub_field field a) b (scrub_field-SameLinks field a b e)

-- What either event removes.
pub record IsRedacted {P : Type 0} (t : ProvenanceRecord P) : Type 0 where
  pub prompt_messages : t.prompt_messages ≡ none
  pub raw_model_response : t.raw_model_response ≡ none
  pub surrounding_context : t.surrounding_context ≡ none
  pub context_snapshot : t.context_snapshot ≡ none
  pub provenance_payload : t.provenance_payload ≡ "{}"

-- A redaction keeps these columns of `r`; any other event clears them.
pub record IsPurged {P : Type 0} (r t : ProvenanceRecord P) (q : Request) : Type 0 where
  pub inserted_code :
      t.inserted_code ≡ (if str_eq q.event_type "redaction" then r.inserted_code else "")
  pub embeddings : t.embeddings ≡ (if str_eq q.event_type "redaction" then r.embeddings else none)
  pub ast_snapshot :
      t.ast_snapshot ≡ (if str_eq q.event_type "redaction" then r.ast_snapshot else none)
  pub embedding_vector :
      t.embedding_vector ≡ (if str_eq q.event_type "redaction" then r.embedding_vector else none)

module _ {P T : Type 0} (h : Hashing P T) where
  pub record IsTombstone (r t : ProvenanceRecord P) (q : Request) : Type 0 where
    pub uuid : t.uuid ≡ r.uuid
    pub workspace_id : t.workspace_id ≡ r.workspace_id
    pub record_hash : t.record_hash ≡ r.record_hash
    pub prev_hash : t.prev_hash ≡ r.prev_hash
    pub lifecycle_state : t.lifecycle_state ≡ some (state_of q.event_type)
    pub is_redacted : t.is_redacted ≡ true
    pub prompt_sha256 :
        t.prompt_sha256
        ≡ if_none r.prompt_sha256
            (or_else r.prompt_sha256 (compute_prompt_sha256 h r.prompt_messages))
    pub content_sha256 :
        t.content_sha256
        ≡ if_none r.content_sha256
            (or_else r.content_sha256 (compute_content_sha256 h (some r.inserted_code)))

  pub scrubbed-IsTombstone :
      (r : ProvenanceRecord P) (q : Request) → IsTombstone r (scrubbed h r q) q
  unfolding scrubbed build_commitment
  scrubbed-IsTombstone r q =
      let c = build_commitment h r (fields_of q.event_type) in
      let filled : ProvenanceRecord P = record r {
        prompt_sha256 = if_none r.prompt_sha256 c.prompt_sha256;
        content_sha256 = if_none r.content_sha256 c.content_sha256;
      } in
      let e = scrub-SameLinks (fields_of q.event_type) filled filled (record {
        uuid = refl;
        workspace_id = refl;
        record_hash = refl;
        prev_hash = refl;
        prompt_sha256 = refl;
        content_sha256 = refl;
      }) in
      record {
        uuid = e.uuid;
        workspace_id = e.workspace_id;
        record_hash = e.record_hash;
        prev_hash = e.prev_hash;
        lifecycle_state = refl;
        is_redacted = refl;
        prompt_sha256 = e.prompt_sha256;
        content_sha256 = e.content_sha256;
      }

  pub scrubbed-IsRedacted : (r : ProvenanceRecord P) (q : Request) → IsRedacted (scrubbed h r q)
  unfolding scrubbed
  scrubbed-IsRedacted r q = elim (Bool-cases (str_eq q.event_type "redaction")) [
    | inl e ↦ rw e (record {
      prompt_messages = refl;
      raw_model_response = refl;
      surrounding_context = refl;
      context_snapshot = refl;
      provenance_payload = refl;
    })
    | inr e ↦ rw e (record {
      prompt_messages = refl;
      raw_model_response = refl;
      surrounding_context = refl;
      context_snapshot = refl;
      provenance_payload = refl;
    })
  ]

  -- What a redaction keeps and a deletion removes.
  pub scrubbed-IsPurged : (r : ProvenanceRecord P) (q : Request) → IsPurged r (scrubbed h r q) q
  unfolding scrubbed
  scrubbed-IsPurged r q = elim (Bool-cases (str_eq q.event_type "redaction")) [
    | inl e ↦ record {
      inserted_code = rw e refl;
      embeddings = rw e refl;
      ast_snapshot = rw e refl;
      embedding_vector = rw e refl;
    }
    | inr e ↦ record {
      inserted_code = rw e refl;
      embeddings = rw e refl;
      ast_snapshot = rw e refl;
      embedding_vector = rw e refl;
    }
  ]
