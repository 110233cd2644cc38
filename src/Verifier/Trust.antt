-- ===== src/Verifier/Trust.antt =====
-- The verifier's key trust against that of the backend.
use lineagelens.Prelude.{
  ℕ, String, ◌≡◌, ◌≢◌, refl, ap, eq_of_opt_eq, ◌∙◌, Bool-cases, inl, inr, true, Option, none, some,
  List, [], ◌∷◌, arith, Dict, lookup,
}
use lineagelens.Attestation.{KeyRecord, KeyStatus, unknown_key, key_status_at, parse_ts}
use lineagelens.Verifier.{
  Capsule, KeyEntry, Verifying, find_key, found_status, entry_status, verify_key_trust,
  anchor_agrees,
}

-- An entry of `key_registry_out` (`build_capsule`,
-- lineagelens-backend/app/services/capsule_service.py).
unfoldable pub key_entry : KeyRecord → KeyEntry
key_entry key = record {
  public_key_id = some key.public_key_id;
  public_key_hex = some key.public_key_hex;
  valid_from = key.valid_from;
  valid_until = key.valid_until;
  compromised_at = key.compromised_at;
  status = some key.status;
}

unfoldable pub export_keys : Dict KeyRecord → List KeyEntry
unfolding key_entry
export_keys [] = []
export_keys ((id, key) ∷ registry) = key_entry key ∷ export_keys registry

-- The registry has every key under its own id.
abbrev pub IsRegistry : Dict KeyRecord → Type 0
IsRegistry [] = Unit
IsRegistry ((id, key) ∷ registry) = (key.public_key_id ≡ id) × IsRegistry registry

abbrev pub export_key : Option KeyRecord → Option KeyEntry
export_key none = none
export_key (some key) = some (key_entry key)

pub find_key-export_keys :
    (id : String) (registry : Dict KeyRecord)
    → IsRegistry registry
    → find_key id (export_keys registry) ≡ export_key (lookup id registry)
unfolding find_key export_keys key_entry lookup
find_key-export_keys id [] t = refl
find_key-export_keys id ((k, key) ∷ registry) t =
    ground (arith, t.0, find_key-export_keys id registry t.1)

entry_status-key_entry :
    (iso : String → Option ℕ) (now m : ℕ) (key : KeyRecord)
    → entry_status iso (key_entry key) (some m) ≡ key_status_at iso now key (some m)
unfolding entry_status key_entry key_status_at
entry_status-key_entry iso now m key = refl

abbrev pub status_of : (String → Option ℕ) → ℕ → ℕ → Option KeyRecord → KeyStatus
status_of iso now m none = unknown_key
status_of iso now m (some key) = key_status_at iso now key (some m)

found_status-export_key :
    (iso : String → Option ℕ) (now m : ℕ) (found : Option KeyRecord)
    → found_status iso (export_key found) (some m) ≡ status_of iso now m found
unfolding found_status
found_status-export_key iso now m none = refl
found_status-export_key iso now m (some key) = entry_status-key_entry iso now m key

-- On a capsule with the exported registry, which has every key under its own id, and a generation
-- time that parses, the verifier without anchors finds the status that the backend gives the
-- registered key at that time, and an unknown key where the id is not registered.
pub verify_key_trust-export_keys :
    {T : Type 0} (v : Verifying T) (capsule : Capsule) (id : String) (registry : Dict KeyRecord)
    (now m : ℕ)
    → IsRegistry registry
    → capsule.key_registry ≡ export_keys registry
    → parse_ts v.fromisoformat capsule.generated_at ≡ some m
    → verify_key_trust v capsule id none ≡ status_of v.fromisoformat now m (lookup id registry)
unfolding verify_key_trust
verify_key_trust-export_keys v capsule id registry now m t e moment =
    let found : find_key id capsule.key_registry ≡ export_key (lookup id registry) =
      ap (find_key id) e ∙ find_key-export_keys id registry t in
    rw (found, moment) (found_status-export_key v.fromisoformat now m (lookup id registry))

anchor_agrees-true :
    (embedded : Option KeyEntry) (anchor : Option String)
    → anchor_agrees embedded anchor ≡ true
    → (key : KeyEntry) × (hex : String) × (embedded ≡ some key)
      × (anchor ≡ some hex)
      × (key.public_key_hex ≡ some hex)
unfolding anchor_agrees
anchor_agrees-true none none e = absurd (ground arith)
anchor_agrees-true (some key) none e = absurd (ground arith)
anchor_agrees-true none (some hex) e = absurd (ground arith)
anchor_agrees-true (some key) (some hex) e =
    (key, hex, refl, refl, eq_of_opt_eq key.public_key_hex (some hex) e)

-- With anchors, no status but an unknown key is reported for a key whose hex is not the anchor's.
pub verify_key_trust_anchored :
    {T : Type 0} (v : Verifying T) (capsule : Capsule) (id : String) (anchors : Dict String)
    → verify_key_trust v capsule id (some anchors) ≢ unknown_key
    → (key : KeyEntry) × (hex : String) × (find_key id capsule.key_registry ≡ some key)
      × (lookup id anchors ≡ some hex)
      × (key.public_key_hex ≡ some hex)
      × (verify_key_trust v capsule id (some anchors) ≡ verify_key_trust v capsule id none)
unfolding verify_key_trust
verify_key_trust_anchored v capsule id anchors known =
    let key = find_key id capsule.key_registry in
    elim (Bool-cases (anchor_agrees key (lookup id anchors))) [
      | inr differs ↦ absurd (known (rw differs))
      | inl agrees ↦
          let (k, hex, found, anchor, same) = anchor_agrees-true key (lookup id anchors) agrees in
          (k, hex, found, anchor, same, rw agrees)
    ]
