-- ===== src/Retention/Total.antt =====
-- The sweep runs through where the signing key loads and no policy reaches back too far.
use lineagelens.Prelude.{
  length, ◌+◌, ℕ, String, ◌≡◌, refl, Bool, true, ◌&&◌, Option, none, some, List, [], ◌∷◌, arith,
  Option-cases, inl, inr, filter, All,
}
use lineagelens.Attestation.{Signing, sign_attestation}
use lineagelens.Chain.{Hashing, ProvenanceRecord}
use lineagelens.Lifecycle.{
  LifecycleClaims, Request, Db, RecordLifecycleEvent, apply_lifecycle_event, is_event_type,
}
use lineagelens.Retention.{
  RetentionPolicy, is_moment, is_to_delete, is_to_redact, deletion_request, redaction_request,
  Counts, apply_events, redact_old, sweep, sweep_all,
}

abbrev has_redaction_moment : ℕ → Option ℕ → Bool
has_redaction_moment now none = true
has_redaction_moment now (some days) = is_moment now days

-- Both limits of the policy are moments.
abbrev pub has_moments : ℕ → RetentionPolicy → Bool
has_moments now p = is_moment now p.retain_days && has_redaction_moment now p.redact_after_days

module _ {P T : Type 0} (h : Hashing P T) (s : Signing LifecycleClaims T) (moment_of : String → ℕ)
    (str_int : ℕ → String) (clock : String → ℕ) (hex : String)
    (loaded : s.public_key_hex ≡ some hex) where
  apply_succeeds :
      (r : ProvenanceRecord P) (q : Request) (db : Db P T)
      → is_event_type q.event_type ≡ true
      → (event : RecordLifecycleEvent T) × (db' : Db P T) × (apply_lifecycle_event h s r q
            (clock r.uuid)
            db
          ≡ some (event, db'))
  unfolding apply_lifecycle_event sign_attestation
  apply_succeeds r q db known =
      elim (Option-cases (apply_lifecycle_event h s r q (clock r.uuid) db)) [
        | inl fails ↦ absurd (ground (arith, rw (apply_lifecycle_event, known, loaded) at fails))
        | inr ((event, db'), applied) ↦ (event, db', applied)
      ]

  apply_events_total :
      (q : Request) (rows : List (ProvenanceRecord P)) (db : Db P T)
      → is_event_type q.event_type ≡ true
      → (db' : Db P T) × (apply_events h s clock q rows db ≡ some db')
  unfolding apply_events
  apply_events_total q [] db known = (db, refl)
  apply_events_total q (r ∷ rows) db known =
      let (event, next, applied) = apply_succeeds r q db known in
      let (db', runs) = apply_events_total q rows next known in
      (db', rw (apply_events, applied) runs)

  redact_old_total :
      (policy : RetentionPolicy) (days : Option ℕ) (now : ℕ) (counts : Counts) (db : Db P T)
      → has_redaction_moment now days ≡ true
      → (counts' : Counts) × (db' : Db P T) × (redact_old h s moment_of str_int clock policy days
            now counts db
          ≡ some (counts', db'))
  unfolding redact_old redaction_request
  redact_old_total policy none now counts db dated = (counts, db, refl)
  redact_old_total policy (some days) now counts db dated =
      let (db', runs) =
        apply_events_total (redaction_request str_int policy days)
          (filter (is_to_redact moment_of policy days now) db.records) db refl in
      let redacted =
        counts.redacted + length (filter (is_to_redact moment_of policy days now) db.records) in
      (record counts { redacted = redacted }, db', rw (redact_old, dated, runs) refl)

  sweep_total :
      (policy : RetentionPolicy) (now : ℕ) (counts : Counts) (db : Db P T)
      → has_moments now policy ≡ true
      → (counts' : Counts) × (db' : Db P T) × (sweep h s moment_of str_int clock policy now counts
            db
          ≡ some (counts', db'))
  unfolding sweep deletion_request
  sweep_total policy now counts db dated =
      let (first, runs) =
        apply_events_total (deletion_request str_int policy)
          (filter (is_to_delete moment_of policy now) db.records) db refl in
      let more = record counts {
        deleted = counts.deleted + length (filter (is_to_delete moment_of policy now) db.records);
      } in
      let (counts', db', rest) =
        redact_old_total policy policy.redact_after_days now more first (ground (arith, dated)) in
      let early : is_moment now policy.retain_days ≡ true = ground (arith, dated) in
      (counts', db', rw (sweep, early, runs) rest)

  pub sweep_all_total :
      (policies : List RetentionPolicy) (now : ℕ) (counts : Counts) (db : Db P T)
      → All (λ p. has_moments now p ≡ true) policies
      → (counts' : Counts) × (db' : Db P T) × (sweep_all h s moment_of str_int clock policies now
            counts db
          ≡ some (counts', db'))
  unfolding sweep_all
  sweep_all_total [] now counts db dated = (counts, db, refl)
  sweep_all_total (policy ∷ policies) now counts db dated =
      let (more, first, runs) = sweep_total policy now counts db dated.0 in
      let (counts', db', rest) = sweep_all_total policies now more first dated.1 in
      (counts', db', rw (sweep_all, runs) rest)
