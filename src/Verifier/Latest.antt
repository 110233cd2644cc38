-- ===== src/Verifier/Latest.antt =====
-- The event that the verifier takes for a record, against the one that the backend takes.
use lineagelens.Prelude.{
  ℕ, String, ◌≡◌, refl, ap, sym, ◌∙◌, Bool, true, ◌&&◌, Option, none, some, List, [], ◌∷◌, arith,
  opt_eq, str_eq, Bool-cases, Option-cases, inl, inr, filter, get_last?, map, Dict, of_some,
}
use lineagelens.Attestation.{Signing, KeyRecord}
use lineagelens.Lifecycle.{
  LifecycleClaims, RecordLifecycleEvent, get_latest_event, verify_event_signature,
}
use lineagelens.Verifier.{ChainEntry, EventEntry}
use lineagelens.Verifier.Links.{event_type_of, latest_matching}

module _ {ℓ} {A : Type ℓ} where
  abbrev or_last : Option A → A → Option A
  or_last none x = some x
  or_last (some y) x = some y

  get_last?-cons : (x : A) (xs : List A) → get_last? (x ∷ xs) ≡ or_last (get_last? xs) x
  get_last?-cons x [] = refl
  get_last?-cons x (y ∷ []) = refl
  get_last?-cons x (y ∷ z ∷ xs) = get_last?-cons x (z ∷ xs)

  or_last-some : (o : Option A) (x : A) → or_last o x ≡ none → o ≡ some x
  or_last-some none x e = absurd (ground arith)
  or_last-some (some y) x e = absurd (ground arith)

  no_last :
      (p r : A → Bool) (xs : List A)
      → get_last? (filter p xs) ≡ none
      → get_last? (filter (λ x. p x && r x) xs) ≡ none
  no_last p r [] e = refl
  no_last p r (x ∷ xs) e = elim (Bool-cases (p x)) [
    | inl hits ↦
        let e' : or_last (get_last? (filter p xs)) x ≡ none =
          sym (get_last?-cons x (filter p xs)) ∙ rw hits at e in
        absurd (ground (arith, or_last-some (get_last? (filter p xs)) x e', e'))
    | inr misses ↦ rw misses (no_last p r xs (rw misses at e))
  ]

  -- The last that passes one test, if it passes another, is the last that passes both.
  last_of_both :
      (p r : A → Bool) (xs : List A) (y : A)
      → get_last? (filter p xs) ≡ some y
      → r y ≡ true
      → get_last? (filter (λ x. p x && r x) xs) ≡ some y
  last_of_both p r [] y e good = absurd (ground arith)
  last_of_both p r (x ∷ xs) y e good = elim (Bool-cases (p x)) [
    | inr misses ↦ rw misses (last_of_both p r xs y (rw misses at e) good)
    | inl hits ↦
        let both : A → Bool = λ z. p z && r z in
        let e' : or_last (get_last? (filter p xs)) x ≡ some y =
          sym (get_last?-cons x (filter p xs)) ∙ rw hits at e in
        elim (Option-cases (get_last? (filter p xs))) [
          | inl only ↦
              let same : x ≡ y = of_some (rw only at e') in
              let good_x : r x ≡ true = rw same good in
              rw (hits, good_x)
                (get_last?-cons x (filter both xs) ∙ rw (no_last p r xs only) (ap some same))
          | inr (z, later) ↦
              let same : z ≡ y = of_some (rw later at e') in
              let rest : get_last? (filter both xs) ≡ some y =
                last_of_both p r xs y (later ∙ ap some same) good in
              elim (Bool-cases (r x)) [
                | inl good_x ↦ rw (hits, good_x) (get_last?-cons x (filter both xs) ∙ rw rest refl)
                | inr miss ↦ rw (hits, miss) rest
              ]
        ]
  ]

abbrev map_some {ℓ κ} : {A : Type ℓ} {B : Type κ} → (A → B) → Option A → Option B
map_some f none = none
map_some f (some x) = some (f x)

get_last?-map {ℓ κ} :
    {A : Type ℓ} {B : Type κ} (f : A → B) (xs : List A)
    → get_last? (map f xs) ≡ map_some f (get_last? xs)
get_last?-map f [] = refl
get_last?-map f (x ∷ []) = refl
get_last?-map f (x ∷ y ∷ xs) = get_last?-map f (y ∷ xs)

module _ {T : Type 0} (s : Signing LifecycleClaims T) (registry : Dict KeyRecord) (clock : ℕ) where
  -- `_lifecycle_event_to_dict`
  unfoldable pub lifecycle_event_entry : RecordLifecycleEvent T → EventEntry
  lifecycle_event_entry event = record {
    record_uuid = some event.record_uuid;
    event_type = some event.event_type;
    content_commitment = event.content_commitment;
    signature_valid = verify_event_signature s event registry clock;
  }

  -- The events of a workspace, as a capsule without dates has them.
  unfoldable pub export_events : String → List (RecordLifecycleEvent T) → List EventEntry
  unfolding lifecycle_event_entry
  export_events ws events =
      map lifecycle_event_entry (filter (λ e. str_eq e.workspace_id ws) events)

  exported_filter :
      (ws : String) (rec : ChainEntry) (events : List (RecordLifecycleEvent T))
      → filter
          (λ e.
            opt_eq e.record_uuid (some rec.uuid)
            && opt_eq e.event_type (some (event_type_of rec.lifecycle_state)))
          (export_events ws events)
        ≡ map lifecycle_event_entry (
            filter
              (λ e.
                (str_eq e.workspace_id ws && str_eq e.record_uuid rec.uuid)
                && str_eq e.event_type (event_type_of rec.lifecycle_state))
              events)
  unfolding export_events lifecycle_event_entry
  exported_filter ws rec [] = refl
  exported_filter ws rec (event ∷ events) = ground (arith, exported_filter ws rec events)

  -- If the latest event of a record has the type that its state asks for, then it is the one that the
  -- verifier finds among the exported.
  pub latest_matching-export_events :
      (ws : String) (rec : ChainEntry) (events : List (RecordLifecycleEvent T))
      (event : RecordLifecycleEvent T)
      → get_latest_event ws rec.uuid events ≡ some event
      → str_eq event.event_type (event_type_of rec.lifecycle_state) ≡ true
      → latest_matching (export_events ws events) rec ≡ some (lifecycle_event_entry event)
  unfolding latest_matching get_latest_event
  latest_matching-export_events ws rec events event found type =
      let p : RecordLifecycleEvent T → Bool =
        λ e. str_eq e.workspace_id ws && str_eq e.record_uuid rec.uuid in
      let r : RecordLifecycleEvent T → Bool =
        λ e. str_eq e.event_type (event_type_of rec.lifecycle_state) in
      ap get_last? (exported_filter ws rec events)
      ∙ get_last?-map lifecycle_event_entry (filter (λ e. p e && r e) events)
      ∙ ap (map_some lifecycle_event_entry) (last_of_both p r events event found type)
