-- ===== src/Verifier/Rows.antt =====
-- One row as the route finds it and as its exported entry, and the rows of a workspace in order.
use lineagelens.Prelude.{
  ℕ, String, ◌≡◌, refl, sym, ◌∙◌, Bool, true, false, not, Option, none, some, List, [], ◌∷◌, arith,
  eq_iff, opt_eq, eq_of_opt_eq, str_eq, Bool-cases, inl, inr, map, Dict,
}
use lineagelens.Attestation.{Signing, KeyRecord, text_or}
use lineagelens.Chain.{Hashing, ProvenanceRecord, compute_prompt_sha256, compute_record_hash}
use lineagelens.Lifecycle.{
  LifecycleClaims, RecordLifecycleEvent, or_else, get_latest_event, commitment_matches_record,
}
use lineagelens.Integrity.{
  is_sound, is_scrubbed, expected_type, event_valid, inspect, inspect_scrubbed, inspect_active,
}
use lineagelens.Integrity.Walk.{is_intact}
use lineagelens.Verifier.{ChainEntry}
use lineagelens.Verifier.Links.{is_gone, event_type_of, latest_matching, event_holds, entry_hash}
use lineagelens.Verifier.Latest.{
  lifecycle_event_entry, export_events, latest_matching-export_events,
}
use lineagelens.Verifier.Export.{record_chain_entry, content_ok, is_linked}

-- A digest that Python takes for true.
abbrev pub is_digest : Option String → Bool
is_digest none = false
is_digest (some d) = not (str_eq d "")

-- Both digests of every row are there and not empty.
abbrev pub AllCommitted : {P : Type 0} → List (ProvenanceRecord P) → Type 0
AllCommitted [] = Unit
AllCommitted (r ∷ rows) =
    (is_digest r.prompt_sha256 ≡ true) × (is_digest r.content_sha256 ≡ true) × AllCommitted rows

is_scrubbed-is_gone : (state : Option String) → is_scrubbed (text_or state "active") ≡ is_gone state
is_scrubbed-is_gone none = refl
is_scrubbed-is_gone (some state) = elim (Bool-cases (str_eq state "")) [
  | inl empty ↦ rw ((eq_iff state "").0 empty)
  | inr named ↦ rw named
]

expected_type-event_type_of :
    (state : Option String)
    → is_gone state ≡ true
    → expected_type (text_or state "active") ≡ event_type_of state
expected_type-event_type_of none gone = absurd (ground arith)
expected_type-event_type_of (some state) gone = elim (Bool-cases (str_eq state "")) [
  | inl empty ↦ rw ((eq_iff state "").0 empty)
  | inr named ↦ rw named
]

text_or-or_else :
    (stored computed : Option String)
    → is_digest stored ≡ true
    → text_or (or_else stored computed) "" ≡ text_or stored ""
text_or-or_else none computed e = absurd (ground arith)
text_or-or_else (some d) computed e = ground (arith, eq_iff d "")

module _ {P T : Type 0} (h : Hashing P T) (s : Signing LifecycleClaims T)
    (registry : Dict KeyRecord) (clock : ℕ) (ws : String)
    (events : List (RecordLifecycleEvent T)) where
  scrubbed_agrees :
      (r : ProvenanceRecord P) (found : Option (RecordLifecycleEvent T))
      → get_latest_event ws r.uuid events ≡ found
      → is_gone r.lifecycle_state ≡ true
      → is_digest r.prompt_sha256 ≡ true
      → is_digest r.content_sha256 ≡ true
      → event_valid h s registry clock events found r (text_or r.lifecycle_state "active") ≡ true
      → event_holds
          (latest_matching (export_events s registry clock ws events) (record_chain_entry r))
          (record_chain_entry r)
        ≡ true
  unfolding event_valid event_holds record_chain_entry lifecycle_event_entry
      commitment_matches_record
  scrubbed_agrees r none e gone prompt content ok = absurd (ground arith)
  scrubbed_agrees r (some event) e gone prompt content ok =
      let type : str_eq event.event_type (event_type_of r.lifecycle_state) ≡ true =
        rw (sym (expected_type-event_type_of r.lifecycle_state gone)) (ground (arith, ok)) in
      rw
        (latest_matching-export_events s registry clock ws (record_chain_entry r) events event e
          type)
        (ground (arith, ok, prompt, content))

  scrubbed_sound :
      (r : ProvenanceRecord P)
      → is_sound
          (inspect_scrubbed h s registry clock events ws r (text_or r.lifecycle_state "active"))
        ≡ true
      → event_valid h s registry clock events
          (get_latest_event ws r.uuid events)
          r
          (text_or r.lifecycle_state "active")
        ≡ true
  unfolding inspect_scrubbed
  scrubbed_sound r ok = ground arith

  same_hash :
      (r : ProvenanceRecord P) (prev_hash computed : Option String)
      → r.prev_hash ≡ prev_hash
      → is_digest r.prompt_sha256 ≡ true
      → entry_hash h (record_chain_entry r)
        ≡ compute_record_hash h r.uuid r.workspace_id r.file_path
            (some r.inserted_code)
            r.model_name
            (or_else r.prompt_sha256 computed)
            r.timestamp_iso
            prev_hash
  unfolding entry_hash record_chain_entry compute_record_hash
  same_hash r prev_hash computed link prompt =
      let same = text_or-or_else r.prompt_sha256 computed prompt in
      rw (entry_hash, compute_record_hash, record_chain_entry, ← link, same)

  active_agrees :
      (r : ProvenanceRecord P) (prev_hash : Option String)
      → r.prev_hash ≡ prev_hash
      → is_digest r.prompt_sha256 ≡ true
      → is_sound (inspect_active h s registry clock events r prev_hash) ≡ true
      → opt_eq (some (entry_hash h (record_chain_entry r))) r.record_hash ≡ true
  unfolding inspect_active
  active_agrees r prev_hash link prompt ok =
      rw (same_hash r prev_hash (compute_prompt_sha256 h r.prompt_messages) link prompt)
        (ground arith)

  content_agrees :
      (r : ProvenanceRecord P) (prev_hash : Option String)
      → r.prev_hash ≡ prev_hash
      → is_digest r.prompt_sha256 ≡ true
      → is_digest r.content_sha256 ≡ true
      → is_sound (inspect h s registry clock events ws r prev_hash) ≡ true
      → content_ok h (export_events s registry clock ws events) (record_chain_entry r) ≡ true
  unfolding content_ok inspect record_chain_entry
  content_agrees r prev_hash link prompt content ok =
      elim (Bool-cases (is_gone r.lifecycle_state)) [
        | inl gone ↦
            let scrubbed : is_scrubbed (text_or r.lifecycle_state "active") ≡ true =
              is_scrubbed-is_gone r.lifecycle_state ∙ gone in
            rw gone (
              scrubbed_agrees r (get_latest_event ws r.uuid events) refl gone prompt content
                (scrubbed_sound r (rw scrubbed at ok)))
        | inr live ↦
            let active : is_scrubbed (text_or r.lifecycle_state "active") ≡ false =
              is_scrubbed-is_gone r.lifecycle_state ∙ live in
            rw live (active_agrees r prev_hash link prompt (rw active at ok))
      ]

  intact_cons :
      (r : ProvenanceRecord P) (rows : List (ProvenanceRecord P)) (prev_hash : Option String)
      → is_intact h s registry clock events ws (r ∷ rows) prev_hash ≡ true
      → (is_sound (inspect h s registry clock events ws r prev_hash) ≡ true)
        × (opt_eq r.prev_hash prev_hash ≡ true)
        × (is_intact h s registry clock events ws rows r.record_hash ≡ true)
  unfolding is_intact
  intact_cons r rows prev_hash ok = (ground arith, ground arith, ground arith)

  linked_nil :
      (expected : Option String)
      → is_linked h (export_events s registry clock ws events) [] expected ≡ true
  unfolding is_linked
  linked_nil expected = refl

  linked_cons :
      (rec : ChainEntry) (recs : List ChainEntry) (expected : Option String)
      → content_ok h (export_events s registry clock ws events) rec ≡ true
      → opt_eq rec.prev_hash expected ≡ true
      → is_linked h (export_events s registry clock ws events) recs rec.record_hash ≡ true
      → is_linked h (export_events s registry clock ws events) (rec ∷ recs) expected ≡ true
  unfolding is_linked
  linked_cons rec recs expected content link rest = rw (content, link, rest)

  pub is_linked-record_chain_entry :
      (rows : List (ProvenanceRecord P)) (prev_hash : Option String)
      → AllCommitted rows
      → is_intact h s registry clock events ws rows prev_hash ≡ true
      → is_linked h
          (export_events s registry clock ws events)
          (map record_chain_entry rows)
          prev_hash
        ≡ true
  unfolding record_chain_entry
  is_linked-record_chain_entry [] prev_hash c ok = linked_nil prev_hash
  is_linked-record_chain_entry (r ∷ rows) prev_hash c ok =
      let (sound, link, rest) = intact_cons r rows prev_hash ok in
      linked_cons (record_chain_entry r) (map record_chain_entry rows) prev_hash
        (content_agrees r prev_hash (eq_of_opt_eq r.prev_hash prev_hash link) c.0 c.1 sound) link
        (is_linked-record_chain_entry rows r.record_hash c.2 rest)
