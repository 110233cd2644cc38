-- ===== src/Integrity/Tombstone.antt =====
-- How the walk sees the tombstone that a lifecycle event leaves, and the rows beside it.
use lineagelens.Prelude.{
  ℕ, String, ◌≡◌, ◌≢◌, refl, ap, true, ◌&&◌, Option, none, some, List, [], ◌∷◌, ◌++◌, arith, eq_iff,
  opt_eq, str_eq, Bool-cases, inl, inr, filter, Dict,
}
use lineagelens.Attestation.{Signing, KeyRecord, with_signature, verify_attestation, text_or}
use lineagelens.Chain.{Hashing, ProvenanceRecord, in_chain}
use lineagelens.Lifecycle.{
  LifecycleClaims, RecordLifecycleEvent, Request, lifecycle_statement, lifecycle_event, scrubbed,
  is_event_type, state_of,
}
use lineagelens.Lifecycle.Rows.{scrubbed-IsTombstone}
use lineagelens.Lifecycle.Erasure.{get_row}
use lineagelens.Lifecycle.Events.{
  latest-append_self, latest-append_ne, commitment_matches, signature_verifies,
  lifecycle_event_fields,
}
use lineagelens.Integrity.{
  is_sound, inspect, inspect_scrubbed, event_valid, expected_type, is_scrubbed,
}
use lineagelens.Integrity.Walk.{is_intact}

-- The column `uuid` is unique.
abbrev pub IsTable : {P : Type 0} → List (ProvenanceRecord P) → Type 0
IsTable [] = Unit
IsTable (r ∷ rows) = (get_row r.uuid rows ≡ none) × IsTable rows

expected_type-state_of :
    (type : String) → is_event_type type ≡ true → str_eq type (expected_type (state_of type)) ≡ true
expected_type-state_of type h = elim (Bool-cases (str_eq type "deletion")) [
  | inl e ↦ let same : type ≡ "deletion" = (eq_iff type "deletion").0 e in rw same
  | inr e ↦
      let redaction : str_eq type "redaction" ≡ true = ground (arith, h, e) in
      rw ((eq_iff type "redaction").0 redaction)
]

is_scrubbed-state_of :
    (type : String)
    → (text_or (some (state_of type)) "active" ≡ state_of type)
      × (is_scrubbed (state_of type) ≡ true)
is_scrubbed-state_of type = elim (Bool-cases (str_eq type "deletion")) [
  | inl e ↦ rw e (refl, refl)
  | inr e ↦ rw e (refl, refl)
]

module _ {P T : Type 0} (h : Hashing P T) (s : Signing LifecycleClaims T)
    (registry : Dict KeyRecord) (clock : ℕ) where
  -- An event of another record does not change what the walk sees of this one.
  pub inspect-append_ne :
      (events : List (RecordLifecycleEvent T)) (event : RecordLifecycleEvent T) (ws : String)
      (r : ProvenanceRecord P) (prev_hash : Option String)
      → event.record_uuid ≢ r.uuid
      → inspect h s registry clock (events ++ event ∷ []) ws r prev_hash
        ≡ inspect h s registry clock events ws r prev_hash
  unfolding inspect inspect_scrubbed
  inspect-append_ne events event ws r prev_hash ne = rw (latest-append_ne ws r.uuid events event ne)

  module _ (r : ProvenanceRecord P) (q : Request) (now : ℕ) where
    abbrev pub event : RecordLifecycleEvent T
    event = lifecycle_event h s r q now

    -- What the theorem asks of the record, of the request, and of the signature on the event.
    pub record CanSign : Type 0 where
      pub known_type : is_event_type q.event_type ≡ true
      pub prompt_digest : r.prompt_sha256 ≢ some ""
      pub content_digest : r.content_sha256 ≢ some ""
      pub reads_back :
          s.loads (s.dumps (lifecycle_statement h s r q now))
          ≡ some (lifecycle_statement h s r q now)
      pub signed :
          verify_attestation s
            (with_signature s (lifecycle_statement h s r q now))
            none
            registry
            clock
          ≡ true

    module _ (c : CanSign) where
      event_valid-event :
          (events : List (RecordLifecycleEvent T))
          → event_valid h s registry clock events
              (some event)
              (scrubbed h r q)
              (state_of q.event_type)
            ≡ true
      unfolding event_valid
      event_valid-event events = ground (
        arith,
        lifecycle_event_fields h s r q now,
        expected_type-state_of q.event_type c.known_type,
        signature_verifies h s r q now clock registry c.reads_back c.signed,
        commitment_matches h s r q now c.prompt_digest c.content_digest,
      )

      -- The walk accepts the tombstone by its event.
      pub tombstone_sound :
          (events : List (RecordLifecycleEvent T)) (prev_hash : Option String)
          → is_sound (
              inspect h s registry clock
                (events ++ event ∷ [])
                r.workspace_id
                (scrubbed h r q)
                prev_hash)
            ≡ true
      unfolding inspect inspect_scrubbed
      tombstone_sound events prev_hash =
          let t = scrubbed-IsTombstone h r q in
          let e = lifecycle_event_fields h s r q now in
          let latest = latest-append_self r.workspace_id r.uuid events event e.2 e.1 in
          rw (t.lifecycle_state, t.uuid, latest)
            (ground
              (arith, event_valid-event (events ++ event ∷ []), is_scrubbed-state_of q.event_type))

      -- Rows that are not the record's are seen as before.
      pub others_intact :
          (events : List (RecordLifecycleEvent T)) (ws : String) (rows : List (ProvenanceRecord P))
          (prev_hash : Option String)
          → get_row r.uuid rows ≡ none
          → is_intact h s registry clock
              (events ++ event ∷ [])
              ws
              (filter (in_chain ws) rows)
              prev_hash
            ≡ is_intact h s registry clock events ws (filter (in_chain ws) rows) prev_hash
      unfolding is_intact get_row
      others_intact events ws [] prev_hash absent = refl
      others_intact events ws (x ∷ rows) prev_hash absent = elim (Bool-cases (in_chain ws x)) [
        | inl chained ↦
            let e = lifecycle_event_fields h s r q now in
            let ne : event.record_uuid ≢ x.uuid =
              λ p. ground (arith, eq_iff x.uuid r.uuid, e.1, p) in
            rw (chained, inspect-append_ne events event ws x prev_hash ne)
              (ap
                (λ b.
                  is_sound (inspect h s registry clock events ws x prev_hash)
                  && (opt_eq x.prev_hash prev_hash && b))
                (others_intact events ws rows x.record_hash (ground arith)))
        | inr apart ↦ rw apart (others_intact events ws rows prev_hash (ground arith))
      ]
