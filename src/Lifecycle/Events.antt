-- ===== src/Lifecycle/Events.antt =====
-- The event that `apply_lifecycle_event` writes is found, verifies, and matches its record.
use mathlib.Core.List.{append-nil}
use lineagelens.Prelude.{
  ℕ, String, ◌≡◌, ◌≢◌, refl, ap, sym, Bool, true, not, ◌&&◌, Option, none, some, List, [], ◌∷◌,
  ◌++◌, arith, eq_iff, eq_refl, str_eq, Bool-cases, Option-cases, inl, inr, filter, filter-append,
  get_last?, get_last?-append, Dict, of_some,
}
use lineagelens.Attestation.{Signing, KeyRecord, with_signature, verify_attestation}
use lineagelens.Chain.{Hashing, ProvenanceRecord, compute_prompt_sha256, compute_content_sha256}
use lineagelens.Lifecycle.{
  LifecycleClaims, RecordLifecycleEvent, Request, Db, build_commitment, lifecycle_statement,
  lifecycle_event, scrubbed, is_event_type, if_none, or_else, digest_agrees, get_latest_event,
  verify_event_signature, commitment_matches_record, apply_lifecycle_event, put_row,
}
use lineagelens.Lifecycle.Rows.{scrubbed-IsTombstone}

module _ {T : Type 0} where
  pub latest-append_self :
      (ws uuid : String) (events : List (RecordLifecycleEvent T)) (event : RecordLifecycleEvent T)
      → event.workspace_id ≡ ws
      → event.record_uuid ≡ uuid
      → get_latest_event ws uuid (events ++ event ∷ []) ≡ some event
  unfolding get_latest_event
  latest-append_self ws uuid events event w u =
      rw
        (
          filter-append (λ e. str_eq e.workspace_id ws && str_eq e.record_uuid uuid) events
              (event ∷ []),
          (eq_iff event.workspace_id ws).1 w,
          (eq_iff event.record_uuid uuid).1 u,
        )
        (get_last?-append
          (filter (λ e. str_eq e.workspace_id ws && str_eq e.record_uuid uuid) events) event)

  pub latest-append_ne :
      (ws uuid : String) (events : List (RecordLifecycleEvent T)) (event : RecordLifecycleEvent T)
      → event.record_uuid ≢ uuid
      → get_latest_event ws uuid (events ++ event ∷ []) ≡ get_latest_event ws uuid events
  unfolding get_latest_event
  latest-append_ne ws uuid events event ne =
      let p : RecordLifecycleEvent T → Bool =
        λ e. str_eq e.workspace_id ws && str_eq e.record_uuid uuid in
      let same : filter p (events ++ event ∷ []) ≡ filter p events = ground (
        arith,
        filter-append p events (event ∷ []),
        append-nil (filter p events),
        eq_iff event.record_uuid uuid,
      ) in
      ap get_last? same

-- A stored digest is the one that an event commits to, unless it is the empty text.
digest_agrees-commitment :
    (stored computed : Option String)
    → stored ≢ some ""
    → digest_agrees (if_none stored (or_else stored computed)) (or_else stored computed) ≡ true
digest_agrees-commitment none none ne = refl
digest_agrees-commitment none (some c) ne = eq_refl c
digest_agrees-commitment (some d) computed ne = ground (arith, eq_iff d "", eq_refl d)

module _ {P T : Type 0} (h : Hashing P T) (s : Signing LifecycleClaims T) where
  pub commitment_matches :
      (r : ProvenanceRecord P) (q : Request) (now : ℕ)
      → r.prompt_sha256 ≢ some ""
      → r.content_sha256 ≢ some ""
      → commitment_matches_record (lifecycle_event h s r q now) (scrubbed h r q) ≡ true
  unfolding commitment_matches_record lifecycle_event build_commitment
  commitment_matches r q now p c =
      let t = scrubbed-IsTombstone h r q in
      rw (
        t.prompt_sha256,
        t.content_sha256,
        digest_agrees-commitment r.prompt_sha256 (compute_prompt_sha256 h r.prompt_messages) p,
        digest_agrees-commitment r.content_sha256 (compute_content_sha256 h (some r.inserted_code))
            c,
      )

  pub signature_verifies :
      (r : ProvenanceRecord P) (q : Request) (now clock : ℕ) (registry : Dict KeyRecord)
      → let st = lifecycle_statement h s r q now in
        s.loads (s.dumps st) ≡ some st
        → verify_attestation s (with_signature s st) none registry clock ≡ true
        → verify_event_signature s (lifecycle_event h s r q now) registry clock ≡ true
  unfolding verify_event_signature lifecycle_event with_signature
  signature_verifies r q now clock registry reads valid = ground (arith, reads, valid)

  pub lifecycle_event_fields :
      (r : ProvenanceRecord P) (q : Request) (now : ℕ)
      → let event = lifecycle_event h s r q now in
        (event.event_type ≡ q.event_type)
        × (event.record_uuid ≡ r.uuid)
        × (event.workspace_id ≡ r.workspace_id)
  unfolding lifecycle_event
  lifecycle_event_fields r q now = (refl, refl, refl)

  pub apply_lifecycle_event-eq_some :
      (r : ProvenanceRecord P) (q : Request) (now : ℕ) (db db' : Db P T)
      (event : RecordLifecycleEvent T)
      → apply_lifecycle_event h s r q now db ≡ some (event, db')
      → (is_event_type q.event_type ≡ true)
        × (event ≡ lifecycle_event h s r q now)
        × (db'.events ≡ db.events ++ lifecycle_event h s r q now ∷ [])
        × (db'.records ≡ put_row (scrubbed h r q) db.records)
        × (db'.encryption_keys ≡ filter (λ u. not (str_eq u r.uuid)) db.encryption_keys)
  unfolding apply_lifecycle_event
  apply_lifecycle_event-eq_some r q now db db' event e =
      elim (Bool-cases (is_event_type q.event_type)) [
        | inl known ↦ elim (Option-cases s.public_key_hex) [
          | inl missing ↦ absurd (ground (arith, rw (known, missing) at e))
          | inr (hex, loaded) ↦
              let e' = of_some (rw (known, loaded) at e) in
              (
                known,
                sym (ap (λ p. p.0) e'),
                sym (ap (λ p. p.1.events) e'),
                sym (ap (λ p. p.1.records) e'),
                sym (ap (λ p. p.1.encryption_keys) e'),
              )
        ]
        | inr bad ↦ absurd (ground arith)
      ]
