-- ===== src/Integrity/Ingest.antt =====
-- A record that ingest links to the chain is accepted by the walk.
use lineagelens.Prelude.{
  ℕ, String, ◌≡◌, refl, ◌∙◌, true, false, ◌&&◌, Option, none, some, List, [], ◌∷◌, ◌++◌, arith,
  eq_refl, opt_eq, opt_eq_refl, filter, filter-append, get_last?, Dict,
}
use lineagelens.Attestation.{Signing, KeyRecord, text_or}
use lineagelens.Chain.{
  Hashing, ProvenanceRecord, in_chain, head_hash, attach_hash_chain, compute_prompt_sha256,
  compute_record_hash,
}
use lineagelens.Lifecycle.{LifecycleClaims, RecordLifecycleEvent, Db, or_else}
use lineagelens.Integrity.{
  is_sound, is_scrubbed, inspect, inspect_active, verify_chain, prompt_differs,
}
use lineagelens.Integrity.Walk.{is_intact, verify_chain-is_ok}

-- The hash that the next record must link to.
pub chain_end : {P : Type 0} → List (ProvenanceRecord P) → Option String → Option String
chain_end [] prev_hash = prev_hash
chain_end (r ∷ rows) prev_hash = chain_end rows r.record_hash

abbrev last_hash : {P : Type 0} → Option (ProvenanceRecord P) → Option String → Option String
last_hash none prev_hash = prev_hash
last_hash (some r) prev_hash = r.record_hash

-- A list with a last element has one whatever the default.
last_hash_of_cons :
    {P : Type 0} (x : ProvenanceRecord P) (rows : List (ProvenanceRecord P)) (p p' : Option String)
    → last_hash (get_last? (x ∷ rows)) p ≡ last_hash (get_last? (x ∷ rows)) p'
last_hash_of_cons x [] p p' = refl
last_hash_of_cons x (y ∷ rows) p p' = last_hash_of_cons y rows p p'

chain_end-eq-last :
    {P : Type 0} (rows : List (ProvenanceRecord P)) (prev_hash : Option String)
    → chain_end rows prev_hash ≡ last_hash (get_last? rows) prev_hash
unfolding chain_end
chain_end-eq-last [] prev_hash = refl
chain_end-eq-last (r ∷ []) prev_hash = refl
chain_end-eq-last (r ∷ x ∷ rows) prev_hash =
    chain_end-eq-last (x ∷ rows) r.record_hash ∙ last_hash_of_cons x rows r.record_hash prev_hash

chain_end-eq-head_hash :
    {P : Type 0} (ws : String) (rows : List (ProvenanceRecord P))
    → chain_end (filter (in_chain ws) rows) none ≡ head_hash ws rows
unfolding head_hash
chain_end-eq-head_hash ws rows =
    rw (chain_end-eq-last (filter (in_chain ws) rows) none) (ground arith)

prompt_differs_refl :
    {P : Type 0} (prompt : Option P) (digest : Option String)
    → prompt_differs prompt digest digest ≡ false
prompt_differs_refl none digest = refl
prompt_differs_refl (some prompt) none = refl
prompt_differs_refl (some prompt) (some d) = rw (eq_refl d)

or_else_self : (digest : Option String) → or_else digest digest ≡ digest
or_else_self none = refl
or_else_self (some d) = ground arith

module _ {P T : Type 0} (h : Hashing P T) (s : Signing LifecycleClaims T)
    (registry : Dict KeyRecord) (clock : ℕ) where
  pub is_intact-append_one :
      (events : List (RecordLifecycleEvent T)) (ws : String) (rows : List (ProvenanceRecord P))
      (y : ProvenanceRecord P) (prev_hash : Option String)
      → let end = chain_end rows prev_hash in
        is_intact h s registry clock events ws (rows ++ y ∷ []) prev_hash
        ≡ is_intact h s registry clock events ws rows prev_hash
          && (is_sound (inspect h s registry clock events ws y end) && opt_eq y.prev_hash end)
  unfolding is_intact chain_end
  is_intact-append_one events ws [] y prev_hash = ground arith
  is_intact-append_one events ws (r ∷ rows) y prev_hash =
      ground (arith, is_intact-append_one events ws rows y r.record_hash)

  new_in_chain :
      (rows : List (ProvenanceRecord P)) (r : ProvenanceRecord P)
      → in_chain r.workspace_id (attach_hash_chain h rows r) ≡ true
  unfolding in_chain attach_hash_chain
  new_in_chain rows r = rw (eq_refl r.workspace_id)

  new_links :
      (rows : List (ProvenanceRecord P)) (r : ProvenanceRecord P)
      → opt_eq (attach_hash_chain h rows r).prev_hash (head_hash r.workspace_id rows) ≡ true
  unfolding attach_hash_chain
  new_links rows r = opt_eq_refl (head_hash r.workspace_id rows)

  new_sound :
      (events : List (RecordLifecycleEvent T)) (rows : List (ProvenanceRecord P))
      (r : ProvenanceRecord P)
      → is_scrubbed (text_or r.lifecycle_state "active") ≡ false
      → is_sound (
          inspect h s registry clock events r.workspace_id
            (attach_hash_chain h rows r)
            (head_hash r.workspace_id rows))
        ≡ true
  unfolding inspect inspect_active attach_hash_chain
  new_sound events rows r fresh =
      let digest = compute_prompt_sha256 h r.prompt_messages in
      let hash =
        compute_record_hash h r.uuid r.workspace_id r.file_path (some r.inserted_code) r.model_name
          digest r.timestamp_iso (head_hash r.workspace_id rows) in
      rw (fresh, prompt_differs_refl r.prompt_messages digest, or_else_self digest)
        (ground (arith, eq_refl hash))

  -- Ingest of an active row into a workspace that verifies: linking it to the last chained row of its
  -- workspace and appending it leaves the workspace verified.
  pub attach_hash_chain-verified :
      (user : String) (db : Db P T) (r : ProvenanceRecord P)
      → is_scrubbed (text_or r.lifecycle_state "active") ≡ false
      → (verify_chain h s registry clock r.workspace_id user db).is_ok ≡ true
      → let db' : Db P T = record db {
        records = db.records ++ attach_hash_chain h db.records r ∷ [];
      } in
        (verify_chain h s registry clock r.workspace_id user db').is_ok ≡ true
  attach_hash_chain-verified user db r fresh ok =
      let ws = r.workspace_id in
      let new = attach_hash_chain h db.records r in
      let db' : Db P T = record db { records = db.records ++ new ∷ [] } in
      let end = chain_end-eq-head_hash ws db.records in
      rw
        (
          verify_chain-is_ok h s registry clock ws user db',
          filter-append (in_chain ws) db.records (new ∷ []),
          new_in_chain db.records r,
          is_intact-append_one db.events ws (filter (in_chain ws) db.records) new none,
          end,
        )
        (ground (
          arith,
          new_sound db.events db.records r fresh,
          verify_chain-is_ok h s registry clock ws user db,
          ok,
          new_links db.records r,
        ))
