-- ===== src/Retention/Versions.antt =====
-- Writing a retention policy: `upsert_retention_policy` of
-- lineagelens-backend/app/services/retention_service.py with `append_retention_version` of
-- lineagelens-backend/app/services/policy_version_service.py.
use lineagelens.Prelude.{
  ℕ, ◌+◌, String, Bool, ◌&&◌, Option, none, some, List, [], ◌∷◌, ◌++◌, map, any, ltb, ◌==◌, str_eq,
  if◌then◌else◌,
}
use lineagelens.PolicyVersions.{is_open}
use lineagelens.Retention.{RetentionPolicy}

-- A row of `retention_policy_versions`; the columns `policy_id` and `version` together are unique.
pub record RetentionPolicyVersion : Type 0 where
  pub policy_id : ℕ
  pub workspace_id : String
  pub version : ℕ
  pub change_type : String
  pub retain_days : ℕ
  pub redact_after_days : Option ℕ
  pub enabled : Bool
  pub digest : String
  pub created_by : Option String
  pub superseded_at : Option ℕ

abbrev pub later :
    RetentionPolicyVersion → Option RetentionPolicyVersion → Option RetentionPolicyVersion
later v none = some v
later v (some w) = if ltb w.version v.version then some v else some w

-- The open version of the policy with the largest number.
unfoldable pub open_retention_version :
    ℕ → List RetentionPolicyVersion → Option RetentionPolicyVersion
open_retention_version policy_id [] = none
open_retention_version policy_id (v ∷ rows) =
    let rest = open_retention_version policy_id rows in
    if (v.policy_id == policy_id) && is_open v.superseded_at then later v rest else rest

-- `prev.superseded_at = now`, where there is a `prev`.
unfoldable pub supersede_retention :
    Option RetentionPolicyVersion → ℕ → RetentionPolicyVersion → RetentionPolicyVersion
supersede_retention none now v = v
supersede_retention (some prev) now v =
    if (v.policy_id == prev.policy_id) && (v.version == prev.version)
    then record v { superseded_at = some now }
    else v

abbrev pub next_retention_version : Option RetentionPolicyVersion → ℕ
next_retention_version none = 1
next_retention_version (some prev) = prev.version + 1

-- The tables of the policies and of their versions.
pub record Tables : Type 0 where
  pub policies : List RetentionPolicy
  pub versions : List RetentionPolicyVersion

-- `get_retention_policy`; the column `workspace_id` is unique.
unfoldable pub get_retention_policy : String → List RetentionPolicy → Option RetentionPolicy
get_retention_policy workspace_id [] = none
get_retention_policy workspace_id (p ∷ policies) =
    if str_eq p.workspace_id workspace_id
    then some p
    else get_retention_policy workspace_id policies

-- Writing a policy back.
unfoldable pub put_policy : RetentionPolicy → List RetentionPolicy → List RetentionPolicy
put_policy p [] = p ∷ []
put_policy p (old ∷ policies) =
    if str_eq old.workspace_id p.workspace_id then p ∷ policies else old ∷ put_policy p policies

abbrev pub has_number : ℕ → ℕ → RetentionPolicyVersion → Bool
has_number policy_id number v = (v.policy_id == policy_id) && (v.version == number)

-- `compute_retention_digest` is an argument.
module _ (compute_retention_digest : ℕ → Option ℕ → String) where
  -- `append_retention_version` at the clock reading `now`: the version, and the table; `none` is the
  -- `IntegrityError` on a number that the policy has already.
  unfoldable pub append_retention_version :
      RetentionPolicy
      → String
      → Option String
      → ℕ
      → List RetentionPolicyVersion
      → Option (RetentionPolicyVersion × List RetentionPolicyVersion)
  unfolding open_retention_version supersede_retention
  append_retention_version policy change_type created_by now rows =
      let prev = open_retention_version policy.id rows in
      let version : RetentionPolicyVersion = record {
        policy_id = policy.id;
        workspace_id = policy.workspace_id;
        version = next_retention_version prev;
        change_type = change_type;
        retain_days = policy.retain_days;
        redact_after_days = policy.redact_after_days;
        enabled = policy.enabled;
        digest = compute_retention_digest policy.retain_days policy.redact_after_days;
        created_by = created_by;
        superseded_at = none;
      } in
      if any (has_number policy.id version.version) rows
      then none
      else some (version, map (supersede_retention prev now) rows ++ version ∷ [])

  -- The row with its version, which sets `current_version`.
  unfoldable pub versioned : RetentionPolicy → String → ℕ → Tables → Option Tables
  unfolding append_retention_version put_policy
  versioned policy change_type now tables =
      elim (append_retention_version policy change_type none now tables.versions) [
        | none ↦ none
        | some (version, versions) ↦ some record {
          policies =
              put_policy (record policy { current_version = version.version }) tables.policies;
          versions = versions;
        }
      ]

  -- `upsert_retention_policy`; `fresh_id` is the id that a new row gets.
  unfoldable pub upsert_retention_policy :
      ℕ → ℕ → String → ℕ → Option ℕ → Bool → Tables → Option Tables
  unfolding get_retention_policy versioned
  upsert_retention_policy fresh_id now workspace_id retain_days redact_after_days enabled tables =
      elim (get_retention_policy workspace_id tables.policies) [
        | none ↦
            versioned
              record {
                id = fresh_id;
                workspace_id = workspace_id;
                retain_days = retain_days;
                redact_after_days = redact_after_days;
                enabled = enabled;
                current_version = 1;
              }
              "create" now tables
        | some existing ↦
            versioned
              (record existing {
                retain_days = retain_days;
                redact_after_days = redact_after_days;
                enabled = enabled;
              })
              "update" now tables
      ]
