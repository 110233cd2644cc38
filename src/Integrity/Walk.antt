-- ===== src/Integrity/Walk.antt =====
-- When the walk passes, and what it then counts.
use lineagelens.Prelude.{
  ℕ, suc, ◌+◌, String, ◌≡◌, refl, Bool, true, false, ◌&&◌, Option, none, some, List, [], ◌∷◌, arith,
  opt_eq, filter, length, Dict, Bool-cases, inl, inr, take, get_elem?, Bool-cases, inl, inr, take,
  get_elem?,
}
use lineagelens.Attestation.{Signing, KeyRecord}
use lineagelens.Chain.{Hashing, ProvenanceRecord, in_chain}
use lineagelens.Lifecycle.{Db, RecordLifecycleEvent, LifecycleClaims}
use lineagelens.Integrity.{States, is_sound, inspect, walk, report, verify_chain, no_states, bump}

-- All that the answer counts.
abbrev pub total : States → ℕ
total n = n.active + n.validly_redacted + n.validly_deleted

module _ {P T : Type 0} (h : Hashing P T) (s : Signing LifecycleClaims T)
    (registry : Dict KeyRecord) (clock : ℕ) where
  -- Every record is sound and links to the one before it.
  unfoldable pub is_intact :
      List (RecordLifecycleEvent T) → String → List (ProvenanceRecord P) → Option String → Bool
  is_intact events ws [] prev_hash = true
  is_intact events ws (r ∷ rows) prev_hash =
      is_sound (inspect h s registry clock events ws r prev_hash)
      && (opt_eq r.prev_hash prev_hash && is_intact events ws rows r.record_hash)

  pub walk-is_ok :
      (events : List (RecordLifecycleEvent T)) (ws user : String) (rows : List (ProvenanceRecord P))
      (checked : ℕ) (prev_hash : Option String) (states : States)
      → (walk h s registry clock events ws user rows checked prev_hash states).is_ok
        ≡ is_intact events ws rows prev_hash
  unfolding walk is_intact
  walk-is_ok events ws user [] checked prev_hash states = refl
  walk-is_ok events ws user (r ∷ rows) checked prev_hash states =
      let finding = inspect h s registry clock events ws r prev_hash in
      ground
        (arith, walk-is_ok events ws user rows (checked + 1) r.record_hash (bump finding states))

  report-is_ok :
      (ws user : String) (events : List (RecordLifecycleEvent T)) (rows : List (ProvenanceRecord P))
      → (report h s registry clock ws user events rows).is_ok ≡ is_intact events ws rows none
  unfolding report is_intact
  report-is_ok ws user events [] = refl
  report-is_ok ws user events (r ∷ rows) = walk-is_ok events ws user (r ∷ rows) 0 none no_states

  pub verify_chain-is_ok :
      (ws user : String) (db : Db P T)
      → (verify_chain h s registry clock ws user db).is_ok
        ≡ is_intact db.events ws (filter (in_chain ws) db.records) none
  unfolding verify_chain
  verify_chain-is_ok ws user db = report-is_ok ws user db.events (filter (in_chain ws) db.records)

  walk_counts :
      (events : List (RecordLifecycleEvent T)) (ws user : String) (rows : List (ProvenanceRecord P))
      (checked : ℕ) (prev_hash : Option String) (states : States)
      → let answer = walk h s registry clock events ws user rows checked prev_hash states in
        answer.is_ok ≡ true
        → (answer.records_checked ≡ checked + length rows)
          × (total answer.states ≡ total states + length rows)
          × (answer.first_break_uuid ≡ none)
          × (answer.audit ≡ [])
  unfolding walk
  walk_counts events ws user [] checked prev_hash states ok = ground arith
  walk_counts events ws user (r ∷ rows) checked prev_hash states ok =
      let finding = inspect h s registry clock events ws r prev_hash in
      ground
        (arith, walk_counts events ws user rows (checked + 1) r.record_hash (bump finding states))

  walk_breaks :
      (events : List (RecordLifecycleEvent T)) (ws user : String) (rows : List (ProvenanceRecord P))
      (checked : ℕ) (prev_hash : Option String) (states : States)
      → let answer = walk h s registry clock events ws user rows checked prev_hash states in
        answer.is_ok ≡ false
        → (k : ℕ) × (r : ProvenanceRecord P) × (get_elem? rows k ≡ some r)
          × (answer.records_checked ≡ checked + k + 1)
          × (answer.first_break_uuid ≡ some r.uuid)
          × (is_intact events ws (take k rows) prev_hash ≡ true)
          × (is_intact events ws (take (suc k) rows) prev_hash ≡ false)
  unfolding walk is_intact
  walk_breaks events ws user [] checked prev_hash states broken = absurd (ground arith)
  walk_breaks events ws user (r ∷ rows) checked prev_hash states broken =
      let finding = inspect h s registry clock events ws r prev_hash in
      elim (Bool-cases (is_sound finding && opt_eq r.prev_hash prev_hash)) [
        | inr here ↦ (0, r, refl, ground arith, ground arith, refl, ground arith)
        | inl fine ↦
            let later =
              walk_breaks events ws user rows (checked + 1) r.record_hash (bump finding states)
                (ground arith) in
            (
              suc later.0,
              later.1,
              later.2,
              ground (arith, later.3),
              ground (arith, later.4),
              ground (arith, later.5),
              ground (arith, later.6),
            )
      ]

  report_counts :
      (ws user : String) (events : List (RecordLifecycleEvent T)) (rows : List (ProvenanceRecord P))
      → let answer = report h s registry clock ws user events rows in
        answer.is_ok ≡ true
        → (answer.records_checked ≡ length rows)
          × (total answer.states ≡ length rows)
          × (answer.first_break_uuid ≡ none)
          × (answer.audit ≡ [])
  unfolding report
  report_counts ws user events [] ok = (refl, refl, refl, refl)
  report_counts ws user events (r ∷ rows) ok =
      ground (arith, walk_counts events ws user (r ∷ rows) 0 none no_states ok)

  report_breaks :
      (ws user : String) (events : List (RecordLifecycleEvent T)) (rows : List (ProvenanceRecord P))
      → let answer = report h s registry clock ws user events rows in
        answer.is_ok ≡ false
        → (k : ℕ) × (r : ProvenanceRecord P) × (get_elem? rows k ≡ some r)
          × (answer.records_checked ≡ k + 1)
          × (answer.first_break_uuid ≡ some r.uuid)
          × (is_intact events ws (take k rows) none ≡ true)
          × (is_intact events ws (take (suc k) rows) none ≡ false)
  unfolding report
  report_breaks ws user events [] broken = absurd (ground arith)
  report_breaks ws user events (r ∷ rows) broken =
      let (k, x, at, checked, uuid, fine, bad) =
        walk_breaks events ws user (r ∷ rows) 0 none no_states broken in
      (k, x, at, omega (arith, checked), uuid, fine, bad)

  -- A pass over a workspace checks every chained record, counts each in exactly one state, names no
  -- break and writes nothing to the audit log.
  pub verify_chain_counts :
      (ws user : String) (db : Db P T)
      → (verify_chain h s registry clock ws user db).is_ok ≡ true
      → let answer = verify_chain h s registry clock ws user db in
        let chained = filter (in_chain ws) db.records in
        (answer.records_checked ≡ length chained)
        × (total answer.states ≡ length chained)
        × (answer.first_break_uuid ≡ none)
        × (answer.audit ≡ [])
  unfolding verify_chain
  verify_chain_counts ws user db ok =
      report_counts ws user db.events (filter (in_chain ws) db.records) ok

  -- A failed walk names the first record of the chain that breaks it: the chained records before it
  -- are intact, with it they are not, and the answer has counted up to it.
  pub verify_chain_localises :
      (ws user : String) (db : Db P T)
      → (verify_chain h s registry clock ws user db).is_ok ≡ false
      → let answer = verify_chain h s registry clock ws user db in
        let chained = filter (in_chain ws) db.records in
        (k : ℕ) × (r : ProvenanceRecord P) × (get_elem? chained k ≡ some r)
        × (answer.records_checked ≡ k + 1)
        × (answer.first_break_uuid ≡ some r.uuid)
        × (is_intact db.events ws (take k chained) none ≡ true)
        × (is_intact db.events ws (take (suc k) chained) none ≡ false)
  unfolding verify_chain
  verify_chain_localises ws user db broken =
      report_breaks ws user db.events (filter (in_chain ws) db.records) broken
