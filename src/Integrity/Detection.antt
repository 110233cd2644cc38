-- ===== src/Integrity/Detection.antt =====
-- Which tampering the walk reports, and which it cannot see.
use lineagelens.Prelude.{
  ℕ, String, ◌≡◌, refl, Bool, true, false, ◌&&◌, Option, none, some, List, [], ◌∷◌, ◌++◌, arith,
  str_eq, Bool-cases, inl, inr, filter, filter-append, Dict,
}
use lineagelens.Attestation.{Signing, KeyRecord, text_or}
use lineagelens.Chain.{Hashing, ProvenanceRecord, in_chain}
use lineagelens.Lifecycle.{
  LifecycleClaims, RecordLifecycleEvent, Db, get_latest_event, verify_event_signature,
  commitment_matches_record,
}
use lineagelens.Integrity.{
  is_sound, is_scrubbed, expected_type, inspect, inspect_scrubbed, event_valid, verify_chain,
}
use lineagelens.Integrity.Walk.{is_intact, verify_chain-is_ok}

-- A record with other code, file, model and prompt under the same identity, hashes and state.
abbrev pub forged :
    {P : Type 0}
    → ProvenanceRecord P
    → String
    → String
    → Option String
    → Option P
    → ProvenanceRecord P
forged r code path model prompt = record r {
  inserted_code = code;
  file_path = path;
  model_name = model;
  prompt_messages = prompt;
}

module _ {P T : Type 0} (h : Hashing P T) (s : Signing LifecycleClaims T)
    (registry : Dict KeyRecord) (clock : ℕ) where
  -- The latest event of a scrubbed record has its type, verifies, and commits to its digests.
  unfoldable pub is_vouched : List (RecordLifecycleEvent T) → String → ProvenanceRecord P → Bool
  is_vouched events ws r = elim (get_latest_event ws r.uuid events) [
    | none ↦ false
    | some event ↦
        str_eq event.event_type (expected_type (text_or r.lifecycle_state "active"))
        && (verify_event_signature s event registry clock && commitment_matches_record event r)
  ]

  unvouched_breaks :
      (events : List (RecordLifecycleEvent T)) (ws : String) (r : ProvenanceRecord P)
      (prev_hash : Option String)
      → is_scrubbed (text_or r.lifecycle_state "active") ≡ true
      → is_vouched events ws r ≡ false
      → is_sound (inspect h s registry clock events ws r prev_hash) ≡ false
  unfolding inspect inspect_scrubbed event_valid is_vouched
  unvouched_breaks events ws r prev_hash gone bad =
      let e : event_valid h s registry clock events (get_latest_event ws r.uuid events) r
            (text_or r.lifecycle_state "active")
          ≡ false =
        ground (arith, bad) in
      rw (gone, e)

  intact_breaks :
      (events : List (RecordLifecycleEvent T)) (ws : String)
      (before after : List (ProvenanceRecord P)) (r : ProvenanceRecord P)
      (prev_hash : Option String)
      → ((p : Option String) → is_sound (inspect h s registry clock events ws r p) ≡ false)
      → is_intact h s registry clock events ws (before ++ r ∷ after) prev_hash ≡ false
  unfolding is_intact
  intact_breaks events ws [] after r prev_hash bad = ground (arith, bad prev_hash)
  intact_breaks events ws (x ∷ before) after r prev_hash bad =
      ground (arith, intact_breaks events ws before after r x.record_hash bad)

  -- A chained record that is marked redacted or deleted fails the walk of its workspace unless its
  -- latest event has the matching type, verifies, and commits to the digests that the record stores.
  pub unvouched_detected :
      (user ws : String) (db : Db P T) (before after : List (ProvenanceRecord P))
      (r : ProvenanceRecord P)
      → db.records ≡ before ++ r ∷ after
      → in_chain ws r ≡ true
      → is_scrubbed (text_or r.lifecycle_state "active") ≡ true
      → is_vouched db.events ws r ≡ false
      → (verify_chain h s registry clock ws user db).is_ok ≡ false
  unvouched_detected user ws db before after r e chained gone bad =
      rw
        (
          verify_chain-is_ok h s registry clock ws user db,
          e,
          filter-append (in_chain ws) before (r ∷ after),
          chained,
        )
        (intact_breaks db.events ws (filter (in_chain ws) before) (filter (in_chain ws) after) r
          none (λ p. unvouched_breaks db.events ws r p gone bad))

  forged_valid :
      (events : List (RecordLifecycleEvent T)) (found : Option (RecordLifecycleEvent T))
      (r : ProvenanceRecord P) (code path lifecycle : String) (model : Option String)
      (prompt : Option P)
      → event_valid h s registry clock events found (forged r code path model prompt) lifecycle
        ≡ event_valid h s registry clock events found r lifecycle
  unfolding event_valid commitment_matches_record
  forged_valid events none r code path lifecycle model prompt = refl
  forged_valid events (some event) r code path lifecycle model prompt = refl

  forged_same :
      (events : List (RecordLifecycleEvent T)) (ws : String) (r : ProvenanceRecord P)
      (code path : String) (model : Option String) (prompt : Option P) (prev_hash : Option String)
      → is_scrubbed (text_or r.lifecycle_state "active") ≡ true
      → inspect h s registry clock events ws (forged r code path model prompt) prev_hash
        ≡ inspect h s registry clock events ws r prev_hash
  unfolding inspect inspect_scrubbed
  forged_same events ws r code path model prompt prev_hash gone = rw (
    gone,
    forged_valid events (get_latest_event ws r.uuid events) r code path
        (text_or r.lifecycle_state "active") model prompt,
  )

  forged_intact :
      (events : List (RecordLifecycleEvent T)) (ws : String)
      (before after : List (ProvenanceRecord P)) (r f : ProvenanceRecord P)
      (prev_hash : Option String)
      → ((p : Option String)
          → inspect h s registry clock events ws f p ≡ inspect h s registry clock events ws r p)
      → f.prev_hash ≡ r.prev_hash
      → f.record_hash ≡ r.record_hash
      → is_intact h s registry clock events ws (before ++ f ∷ after) prev_hash
        ≡ is_intact h s registry clock events ws (before ++ r ∷ after) prev_hash
  unfolding is_intact
  forged_intact events ws [] after r f prev_hash same p e = rw (same prev_hash, p, e)
  forged_intact events ws (x ∷ before) after r f prev_hash same p e =
      rw (forged_intact events ws before after r f x.record_hash same p e)

  -- Rewriting the code, the file, the model and the prompt of a redacted or deleted record, and
  -- nothing else, does not change whether any workspace verifies.
  pub scrubbed_forgery_unseen :
      (user ws : String) (db : Db P T) (before after : List (ProvenanceRecord P))
      (r : ProvenanceRecord P) (code path : String) (model : Option String) (prompt : Option P)
      → db.records ≡ before ++ r ∷ after
      → is_scrubbed (text_or r.lifecycle_state "active") ≡ true
      → let db' : Db P T = record db {
        records = before ++ forged r code path model prompt ∷ after;
      } in
        (verify_chain h s registry clock ws user db').is_ok
        ≡ (verify_chain h s registry clock ws user db).is_ok
  unfolding in_chain
  scrubbed_forgery_unseen user ws db before after r code path model prompt e gone =
      let f = forged r code path model prompt in
      let db' : Db P T = record db { records = before ++ f ∷ after } in
      let same = λ (p : Option String). forged_same db.events ws r code path model prompt p gone in
      rw
        (
          verify_chain-is_ok h s registry clock ws user db',
          verify_chain-is_ok h s registry clock ws user db,
          e,
          filter-append (in_chain ws) before (f ∷ after),
          filter-append (in_chain ws) before (r ∷ after),
        )
        (elim (Bool-cases (in_chain ws r)) [
          | inl chained ↦ rw chained (
              forged_intact db.events ws (filter (in_chain ws) before) (filter (in_chain ws) after)
                r f none same refl refl)
          | inr apart ↦ rw apart
        ])
