-- ===== src/Verifier/Agreement.antt =====
-- A workspace that the backend verifies, verified again offline.
use lineagelens.Prelude.{
  ℕ, String, ◌≡◌, refl, ap, sym, ◌∙◌, true, false, none, some, List, [], ◌∷◌, arith, str_eq, filter,
  map, Dict,
}
use lineagelens.Attestation.{Signing, KeyRecord}
use lineagelens.Chain.{Hashing, ProvenanceRecord, in_chain}
use lineagelens.Lifecycle.{Db, LifecycleClaims}
use lineagelens.Integrity
use lineagelens.Integrity.Walk.{is_intact, verify_chain-is_ok}
use lineagelens.Verifier.{ChainEntry, Capsule}
use lineagelens.Verifier.Links.{start, verify_chain}
use lineagelens.Verifier.Latest.{export_events}
use lineagelens.Verifier.Export.{record_chain_entry, is_linked, check_entries-is_ok}
use lineagelens.Verifier.Rows.{AllCommitted, is_linked-record_chain_entry}

-- The rows of the workspace (`_resolve_records` without options).
unfoldable pub resolve_records :
    {P : Type 0} → String → List (ProvenanceRecord P) → List (ProvenanceRecord P)
resolve_records ws rows = filter (λ r. str_eq r.workspace_id ws) rows

-- Every row of the workspace has a hash.
abbrev pub AllChained : {P : Type 0} → String → List (ProvenanceRecord P) → Type 0
AllChained ws [] = Unit
AllChained ws (r ∷ rows) = (in_chain ws r ≡ str_eq r.workspace_id ws) × AllChained ws rows

resolve_records_chained :
    {P : Type 0} (ws : String) (rows : List (ProvenanceRecord P))
    → AllChained ws rows
    → resolve_records ws rows ≡ filter (in_chain ws) rows
unfolding resolve_records
resolve_records_chained ws [] c = refl
resolve_records_chained ws (r ∷ rows) c = ground (arith, c.0, resolve_records_chained ws rows c.1)

-- What `build_capsule` without dates and uuids writes of the chain: its rows and its events.
abbrev pub HasChain :
    {P T : Type 0} (s : Signing LifecycleClaims T)
    → Dict KeyRecord
    → ℕ
    → String
    → Db P T
    → Capsule
    → Type 0
HasChain s registry clock ws db capsule =
    (capsule.record_chain ≡ map record_chain_entry (resolve_records ws db.records))
    × (capsule.lifecycle_events ≡ export_events s registry clock ws db.events)

module _ {P T : Type 0} (h : Hashing P T) (s : Signing LifecycleClaims T)
    (registry : Dict KeyRecord) (clock : ℕ) where
  -- A workspace whose rows are all chained and carry two digests that are not empty, and that the
  -- route verifies, has a capsule whose chain the offline verifier accepts.
  pub verify_chain-HasChain :
      (ws user : String) (db : Db P T) (capsule : Capsule)
      → AllChained ws db.records
      → AllCommitted (resolve_records ws db.records)
      → HasChain s registry clock ws db capsule
      → (lineagelens.Integrity.verify_chain h s registry clock ws user db).is_ok ≡ true
      → (verify_chain h capsule).is_ok ≡ true
  unfolding verify_chain
  verify_chain-HasChain ws user db capsule chained committed c ok =
      let rows = resolve_records ws db.records in
      let entries = export_events s registry clock ws db.events in
      let intact : is_intact h s registry clock db.events ws rows none ≡ true =
        ap (λ x. is_intact h s registry clock db.events ws x none)
          (resolve_records_chained ws db.records chained)
        ∙ sym (verify_chain-is_ok h s registry clock ws user db)
        ∙ ok in
      check_entries-is_ok h capsule.lifecycle_events capsule.record_chain start
      ∙ ap (λ x. is_linked h x capsule.record_chain none) c.1
      ∙ ap (λ x. is_linked h entries x none) c.0
      ∙ is_linked-record_chain_entry h s registry clock ws db.events rows none committed intact

module _ {P T : Type 0} (h : Hashing P T) where
  -- A capsule whose first row has a predecessor, as one that is cut by date or by uuid has, is
  -- reported as tampered with, whatever the rest.
  pub verify_chain_partial :
      (capsule : Capsule) (rec : ChainEntry) (recs : List ChainEntry) (prev : String)
      → capsule.record_chain ≡ rec ∷ recs
      → rec.prev_hash ≡ some prev
      → (verify_chain h capsule).is_ok ≡ false
  unfolding verify_chain is_linked
  verify_chain_partial capsule rec recs prev e p =
      check_entries-is_ok h capsule.lifecycle_events capsule.record_chain start
      ∙ ap (λ x. is_linked h capsule.lifecycle_events x none) e
      ∙ ground (arith, p)
