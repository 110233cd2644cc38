-- ===== src/Integrity/Privacy.antt =====
-- Redaction and deletion keep the chain of every workspace verifiable.
use lineagelens.Prelude.{
  ℕ, String, ◌≡◌, ◌≢◌, true, Option, none, some, List, [], ◌∷◌, ◌++◌, arith, eq_iff, str_eq,
  Bool-cases, inl, inr, filter, Dict, of_some,
}
use lineagelens.Attestation.{Signing, KeyRecord, verify_attestation, with_signature}
use lineagelens.Chain.{Hashing, ProvenanceRecord, in_chain}
use lineagelens.Lifecycle.{
  LifecycleClaims, RecordLifecycleEvent, Request, Db, lifecycle_statement, scrubbed, put_row,
  apply_lifecycle_event,
}
use lineagelens.Lifecycle.Rows.{scrubbed-IsTombstone}
use lineagelens.Lifecycle.Events.{lifecycle_event_fields, apply_lifecycle_event-eq_some}
use lineagelens.Integrity.{verify_chain}
use lineagelens.Lifecycle.Erasure.{get_row}
use lineagelens.Integrity.Walk.{is_intact, verify_chain-is_ok}
use lineagelens.Integrity.Tombstone.{
  IsTable, CanSign, event, tombstone_sound, others_intact, inspect-append_ne,
}

module _ {P T : Type 0} (h : Hashing P T) (s : Signing LifecycleClaims T)
    (registry : Dict KeyRecord) (clock : ℕ) (r : ProvenanceRecord P) (q : Request) (now : ℕ)
    (c : CanSign h s registry clock r q now) where
  in_chain-tombstone : (ws : String) → in_chain ws (scrubbed h r q) ≡ in_chain ws r
  unfolding in_chain
  in_chain-tombstone ws = let t = scrubbed-IsTombstone h r q in rw (t.workspace_id, t.record_hash)

  in_chain-workspace : (ws : String) → in_chain ws r ≡ true → r.workspace_id ≡ ws
  unfolding in_chain
  in_chain-workspace ws e = ground (arith, eq_iff r.workspace_id ws)

  -- The row of the record is replaced by its tombstone, and the links stay.
  put_row-intact :
      (events : List (RecordLifecycleEvent T)) (ws : String) (rows : List (ProvenanceRecord P))
      (prev_hash : Option String)
      → IsTable rows
      → get_row r.uuid rows ≡ some r
      → is_intact h s registry clock events ws (filter (in_chain ws) rows) prev_hash ≡ true
      → is_intact h s registry clock
          (events ++ event h s registry clock r q now ∷ [])
          ws
          (filter (in_chain ws) (put_row (scrubbed h r q) rows))
          prev_hash
        ≡ true
  unfolding is_intact get_row put_row
  put_row-intact events ws [] prev_hash t present ok = absurd (ground arith)
  put_row-intact events ws (x ∷ rows) prev_hash t present ok =
      let tomb = scrubbed-IsTombstone h r q in
      let ev = event h s registry clock r q now in
      elim (Bool-cases (str_eq x.uuid r.uuid)) [
        | inl here ↦
            let is_r : x ≡ r = of_some (rw here at present) in
            let absent : get_row r.uuid rows ≡ none = rw ((eq_iff x.uuid r.uuid).0 here) at t.0 in
            let rest = λ (p : Option String).
              others_intact h s registry clock r q now c events ws rows p absent in
            elim (Bool-cases (in_chain ws r)) [
              | inl chained ↦
                  let sound = tombstone_sound h s registry clock r q now c events prev_hash in
                  let same_ws = in_chain-workspace ws chained in
                  ground (
                    arith,
                    tomb.uuid,
                    here,
                    chained,
                    in_chain-tombstone ws,
                    is_r,
                    sound,
                    same_ws,
                    tomb.prev_hash,
                    tomb.record_hash,
                    rest r.record_hash,
                  )
              | inr apart ↦
                  ground
                    (arith, tomb.uuid, here, apart, in_chain-tombstone ws, is_r, rest prev_hash)
            ]
        | inr other ↦
            let e = lifecycle_event_fields h s r q now in
            let ne : ev.record_uuid ≢ x.uuid = λ p. ground (arith, eq_iff x.uuid r.uuid, e.1, p) in
            let same = inspect-append_ne h s registry clock events ev ws x prev_hash ne in
            elim (Bool-cases (in_chain ws x)) [
              | inl chained ↦ ground (
                arith,
                tomb.uuid,
                other,
                chained,
                same,
                put_row-intact events ws rows x.record_hash t.1,
              )
              | inr apart ↦
                  ground
                    (arith, tomb.uuid, other, apart, put_row-intact events ws rows prev_hash t.1)
            ]
      ]

-- Redacting or deleting a row of the table, whose uuids are unique, leaves every workspace that
-- verified verified, where the statement reads back as it was written and its signature verifies at
-- the next walk. The row may be of another workspace, unchained, or already redacted; its stored
-- digests are not the empty text.
pub apply_lifecycle_event-verified :
    {P T : Type 0} (h : Hashing P T) (s : Signing LifecycleClaims T) (registry : Dict KeyRecord)
    (clock : ℕ) (r : ProvenanceRecord P) (q : Request) (now : ℕ) (ws user : String)
    (db db' : Db P T) (event : RecordLifecycleEvent T)
    → r.prompt_sha256 ≢ some ""
    → r.content_sha256 ≢ some ""
    → s.loads (s.dumps (lifecycle_statement h s r q now)) ≡ some (lifecycle_statement h s r q now)
    → verify_attestation s (with_signature s (lifecycle_statement h s r q now)) none registry clock
      ≡ true
    → IsTable db.records
    → get_row r.uuid db.records ≡ some r
    → apply_lifecycle_event h s r q now db ≡ some (event, db')
    → (verify_chain h s registry clock ws user db).is_ok ≡ true
    → (verify_chain h s registry clock ws user db').is_ok ≡ true
apply_lifecycle_event-verified h s registry clock r q now ws user db db' event prompt content
      reads_back signed t present done ok =
    let written = apply_lifecycle_event-eq_some h s r q now db db' event done in
    let c : CanSign h s registry clock r q now = record {
      known_type = written.0;
      prompt_digest = prompt;
      content_digest = content;
      reads_back = reads_back;
      signed = signed;
    } in
    let before = rw (verify_chain-is_ok h s registry clock ws user db) at ok in
    rw (verify_chain-is_ok h s registry clock ws user db', written.2, written.3)
      (put_row-intact h s registry clock r q now c db.events ws db.records none t present before)
