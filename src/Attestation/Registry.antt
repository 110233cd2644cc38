-- ===== src/Attestation/Registry.antt =====
-- The key registry: `_registry`, `load_registry_from_db`, `register_key` and `revoke_key`
-- (lineagelens-backend/app/core/attestation.py), over the table of attestation keys.
use lineagelens.Prelude.{
  ℕ, String, ◌≡◌, refl, Option, none, some, List, [], ◌∷◌, ◌++◌, arith, eq_iff, str_eq,
  if◌then◌else◌, Dict, lookup, insert, set_default, lookup-insert,
}
use lineagelens.Attestation.{KeyRecord, Signing}

-- A row of `attestation_keys`; the column `public_key_id` is unique.
pub record AttestationKey : Type 0 where
  pub public_key_id : String
  pub public_key_hex : String
  pub valid_from : Option ℕ
  pub valid_until : Option ℕ
  pub compromised_at : Option ℕ
  pub status : String
  pub label : Option String
  pub revocation_reason : Option String
  pub revoked_by : Option String

-- The entries of ATTESTATION_KEY_REGISTRY; `none` is one that lacks a field, at which the loop ends.
pub add_entries : List (Option KeyRecord) → Dict KeyRecord → Dict KeyRecord
add_entries [] records = records
add_entries (none ∷ entries) records = records
add_entries (some rec ∷ entries) records =
    add_entries entries (insert rec.public_key_id rec records)

-- `row.x.isoformat() if row.x else None`
abbrev pub iso_or_none : (ℕ → String) → Option ℕ → Option String
iso_or_none iso none = none
iso_or_none iso (some t) = some (iso t)

unfoldable pub key_record_from_row : (ℕ → String) → AttestationKey → KeyRecord
key_record_from_row iso row = record {
  public_key_id = row.public_key_id;
  public_key_hex = row.public_key_hex;
  valid_from = iso_or_none iso row.valid_from;
  valid_until = iso_or_none iso row.valid_until;
  compromised_at = iso_or_none iso row.compromised_at;
  status = row.status;
}

unfoldable pub merge_rows : (ℕ → String) → List AttestationKey → Dict KeyRecord → Dict KeyRecord
merge_rows iso [] merged = merged
merge_rows iso (row ∷ rows) merged =
    merge_rows iso rows (insert row.public_key_id (key_record_from_row iso row) merged)

module _ {C T : Type 0} (s : Signing C T) where
  -- `_registry`: the environment's entries, and the loaded key unless they name it.
  pub env_registry : List (Option KeyRecord) → Dict KeyRecord
  unfolding add_entries
  env_registry entries =
      let records = add_entries entries [] in
      elim s.public_key_hex [
        | none ↦ records
        | some hex ↦
            set_default s.public_key_id
              (record {
                public_key_id = s.public_key_id;
                public_key_hex = hex;
                valid_from = none;
                valid_until = none;
                compromised_at = none;
                status = "active";
              })
              records
      ]

  unfoldable pub load_registry_from_db : List AttestationKey → Dict KeyRecord → Dict KeyRecord
  unfolding merge_rows key_record_from_row
  load_registry_from_db rows env = merge_rows s.isoformat rows env

pub register_key :
    String → String → Option ℕ → Option String → List AttestationKey → List AttestationKey
register_key public_key_id public_key_hex valid_from label rows =
    rows
    ++ record {
      public_key_id = public_key_id;
      public_key_hex = public_key_hex;
      valid_from = valid_from;
      valid_until = none;
      compromised_at = none;
      status = "active";
      label = label;
      revocation_reason = none;
      revoked_by = none;
    }
      ∷ []

unfoldable pub mark_compromised : String → String → ℕ → AttestationKey → AttestationKey
mark_compromised reason revoked_by now row = record row {
  compromised_at = some now;
  status = "compromised";
  revocation_reason = some reason;
  revoked_by = some revoked_by;
}

-- `revoke_key` at the clock reading `now`; `none` is its `ValueError` on an unknown key.
unfoldable pub revoke_key :
    String → String → String → ℕ → List AttestationKey → Option (List AttestationKey)
unfolding mark_compromised
revoke_key public_key_id reason revoked_by now [] = none
revoke_key public_key_id reason revoked_by now (row ∷ rows) =
    let rest = revoke_key public_key_id reason revoked_by now rows in
    if str_eq row.public_key_id public_key_id
    then some (mark_compromised reason revoked_by now row ∷ rows)
    else elim rest [ none ↦ none | some others ↦ some (row ∷ others) ]

-- The row of a key.
unfoldable pub find_row : String → List AttestationKey → Option AttestationKey
find_row public_key_id [] = none
find_row public_key_id (row ∷ rows) =
    if str_eq row.public_key_id public_key_id then some row else find_row public_key_id rows

-- The column is unique: no two rows have one id.
abbrev pub IsKeyTable : List AttestationKey → Type 0
IsKeyTable [] = Unit
IsKeyTable (row ∷ rows) = (find_row row.public_key_id rows ≡ none) × IsKeyTable rows

abbrev pub or_env : (ℕ → String) → Option AttestationKey → Option KeyRecord → Option KeyRecord
or_env iso none env = env
or_env iso (some row) env = some (key_record_from_row iso row)

merge_rows-absent :
    (iso : ℕ → String) (id : String) (rows : List AttestationKey) (env : Dict KeyRecord)
    → find_row id rows ≡ none
    → lookup id (merge_rows iso rows env) ≡ lookup id env
unfolding merge_rows find_row
merge_rows-absent iso id [] env h = refl
merge_rows-absent iso id (row ∷ rows) env h = ground (
  arith,
  merge_rows-absent iso id rows (insert row.public_key_id (key_record_from_row iso row) env),
  lookup-insert row.public_key_id id (key_record_from_row iso row) env,
)

-- A row of the table takes precedence over an environment entry of the same id.
pub lookup-merge_rows :
    (iso : ℕ → String) (id : String) (rows : List AttestationKey) (env : Dict KeyRecord)
    → IsKeyTable rows
    → lookup id (merge_rows iso rows env) ≡ or_env iso (find_row id rows) (lookup id env)
unfolding merge_rows find_row
lookup-merge_rows iso id [] env h = refl
lookup-merge_rows iso id (row ∷ rows) env h =
    let env' = insert row.public_key_id (key_record_from_row iso row) env in
    ground (
      arith,
      eq_iff row.public_key_id id,
      merge_rows-absent iso id rows env',
      lookup-merge_rows iso id rows env' h.1,
      lookup-insert row.public_key_id id (key_record_from_row iso row) env,
    )
