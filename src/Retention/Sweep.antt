-- ===== src/Retention/Sweep.antt =====
-- The sweep rewrites each record by itself, whatever the order of the events.
use mathlib.Core.Path.{subst}
use mathlib.Core.List.{append_assoc}
use lineagelens.Prelude.{
  ℕ, String, ◌≡◌, refl, sym, ap, ◌∙◌, Bool, Option, none, some, List, [], ◌∷◌, ◌++◌, arith, of_some,
  Bool-cases, Option-cases, inl, inr, map, filter, All, if◌then◌else◌,
}
use lineagelens.Attestation.{Signing}
use lineagelens.Chain.{Hashing, ProvenanceRecord}
use lineagelens.Lifecycle.{
  LifecycleClaims, Request, Db, RecordLifecycleEvent, apply_lifecycle_event, scrubbed, put_row,
}
use lineagelens.Lifecycle.Erasure.{get_row}
use lineagelens.Lifecycle.Events.{apply_lifecycle_event-eq_some}
use lineagelens.Lifecycle.Rows.{scrubbed-IsTombstone}
use lineagelens.Integrity.Tombstone.{IsTable}
use lineagelens.Retention.{
  RetentionPolicy, is_to_delete, is_to_redact, deletion_request, redaction_request, apply_events,
}
use lineagelens.Retention.Rows.{uuids, get_row-append, put_row-append, IsTable-append}

module _ {P T : Type 0} (h : Hashing P T) where
  -- A row that an event of this kind reaches or not.
  abbrev pub rewritten : Request → Bool → ProvenanceRecord P → ProvenanceRecord P
  rewritten q due r = if due then scrubbed h r q else r

  pub uuids-rewritten :
      (q : Request) (due : ProvenanceRecord P → Bool) (rows : List (ProvenanceRecord P))
      → uuids (map (λ r. rewritten q (due r) r) rows) ≡ uuids rows
  uuids-rewritten q due [] = refl
  uuids-rewritten q due (r ∷ rows) =
      let tomb = scrubbed-IsTombstone h r q in ground (arith, tomb.uuid, uuids-rewritten q due rows)

module _ {P T : Type 0} (h : Hashing P T) (s : Signing LifecycleClaims T) (clock : String → ℕ)
    (Inv : Db P T → Type 0) (Sound : ProvenanceRecord P → Type 0) where
  -- What one event keeps.
  abbrev pub Keeps : Type 0
  Keeps =
      (r : ProvenanceRecord P) (q : Request) (event : RecordLifecycleEvent T) (db db' : Db P T)
      → IsTable db.records
      → get_row r.uuid db.records ≡ some r
      → Sound r
      → apply_lifecycle_event h s r q (clock r.uuid) db ≡ some (event, db')
      → Inv db
      → Inv db'

  -- The events of the rows that are due, where the rows in front have had theirs.
  pub apply_events_lem :
      (keeps : Keeps) (q : Request) (due : ProvenanceRecord P → Bool)
      (front rows : List (ProvenanceRecord P)) (db db' : Db P T)
      → db.records ≡ front ++ rows
      → IsTable db.records
      → All Sound rows
      → apply_events h s clock q (filter due rows) db ≡ some db'
      → (db'.records ≡ front ++ map (λ r. rewritten h q (due r) r) rows) × (Inv db → Inv db')
  unfolding apply_events
  apply_events_lem keeps q due front [] db db' e t sound done =
      let same = of_some done in (ap (λ d. d.records) (sym same) ∙ e, λ i. subst Inv same i)
  apply_events_lem keeps q due front (r ∷ rows) db db' e t sound done = elim (Bool-cases (due r)) [
    | inr other ↦
        let shifted = e ∙ sym (append_assoc front (r ∷ []) rows) in
        let (out, inv) =
          apply_events_lem keeps q due (front ++ r ∷ []) rows db db' shifted t sound.1
            (rw other at done) in
        (rw other (out ∙ append_assoc front (r ∷ []) _), inv)
    | inl reached ↦ elim (Option-cases (apply_lifecycle_event h s r q (clock r.uuid) db)) [
      | inl fails ↦ absurd (ground (arith, rw (reached, apply_events, fails) at done))
      | inr ((event, next), applied) ↦
          let written =
            (apply_lifecycle_event-eq_some h s r q (clock r.uuid) db next event applied).3 in
          let table : IsTable (front ++ r ∷ rows) = subst IsTable e t in
          let here : get_row r.uuid db.records ≡ some r =
            ap (get_row r.uuid) e ∙ get_row-append front r rows table in
          let tomb = scrubbed-IsTombstone h r q in
          let placed : next.records ≡ front ++ scrubbed h r q ∷ rows =
            written
            ∙ ap (put_row (scrubbed h r q)) e
            ∙ put_row-append front r (scrubbed h r q) rows table tomb.uuid in
          let moved : next.records ≡ (front ++ scrubbed h r q ∷ []) ++ rows =
            placed ∙ sym (append_assoc front (scrubbed h r q ∷ []) rows) in
          let table' : IsTable next.records =
            subst IsTable (sym placed)
              (IsTable-append front r (scrubbed h r q) rows tomb.uuid table) in
          let (out, inv) =
            apply_events_lem keeps q due (front ++ scrubbed h r q ∷ []) rows next db' moved table'
              sound.1 (rw (reached, apply_events, applied) at done) in
          (
            rw reached (out ∙ append_assoc front (scrubbed h r q ∷ []) _),
            λ i. inv (keeps r q event db next t here sound.0 applied i),
          )
    ]
  ]

-- What the sweep makes of a row: the specification of one policy.
module _ {P T : Type 0} (h : Hashing P T) (moment_of : String → ℕ) (str_int : ℕ → String) where
  abbrev pub redacted_by : RetentionPolicy → ℕ → Option ℕ → ProvenanceRecord P → ProvenanceRecord P
  redacted_by policy now none r = r
  redacted_by policy now (some days) r =
      rewritten h (redaction_request str_int policy days) (is_to_redact moment_of policy days now r)
        r

  -- Deleted where it is past the retention, else redacted where it is past that age, else as it is.
  abbrev pub settled : RetentionPolicy → ℕ → ProvenanceRecord P → ProvenanceRecord P
  settled policy now r =
      if is_to_delete moment_of policy now r
      then scrubbed h r (deletion_request str_int policy)
      else redacted_by policy now policy.redact_after_days r

  abbrev pub settled_all : List RetentionPolicy → ℕ → ProvenanceRecord P → ProvenanceRecord P
  settled_all [] now r = r
  settled_all (policy ∷ policies) now r = settled_all policies now (settled policy now r)

  -- A tombstone is not redacted again.
  redacted_by-scrubbed :
      (policy : RetentionPolicy) (now : ℕ) (days : Option ℕ) (q : Request) (r : ProvenanceRecord P)
      → redacted_by policy now days (scrubbed h r q) ≡ scrubbed h r q
  unfolding is_to_redact
  redacted_by-scrubbed policy now none q r = refl
  redacted_by-scrubbed policy now (some days) q r =
      let tomb = scrubbed-IsTombstone h r q in ground (arith, tomb.is_redacted)

  pub settled_lem :
      (policy : RetentionPolicy) (now : ℕ) (r : ProvenanceRecord P)
      → redacted_by policy now policy.redact_after_days
          (rewritten h (deletion_request str_int policy) (is_to_delete moment_of policy now r) r)
        ≡ settled policy now r
  settled_lem policy now r = elim (Bool-cases (is_to_delete moment_of policy now r)) [
    | inl due ↦ rw due (
        redacted_by-scrubbed policy now policy.redact_after_days (deletion_request str_int policy)
          r)
    | inr other ↦ rw other refl
  ]
