-- ===== src/PolicyVersions.antt =====
-- The append-only versions of policies (lineagelens-backend/app/services/policy_version_service.py).
-- `C` is the type of a policy's configuration.
pub mod History
mod Tests
use lineagelens.Prelude.{
  ℕ, ◌+◌, String, Bool, true, false, ◌&&◌, Option, none, some, List, [], ◌∷◌, ◌++◌, ltb, ◌==◌,
  str_eq, if◌then◌else◌, map, filter,
}
use lineagelens.Attestation.{text_or}

-- The columns of a policy that a version freezes, and its pointer to the current one.
pub record StoredPolicy (C : Type 0) : Type 0 where
  pub id : String
  pub workspace_id : String
  pub name : String
  pub description : Option String
  pub policy_type : String
  pub config : C
  pub action : String
  pub enabled : Bool
  pub current_version : Option ℕ
  pub current_digest : Option String

-- A row of `policy_versions`; the columns `policy_id` and `version` together are unique.
pub record PolicyVersion (C : Type 0) : Type 0 where
  pub policy_id : String
  pub workspace_id : String
  pub version : ℕ
  pub change_type : String
  pub name : String
  pub description : Option String
  pub policy_type : String
  pub config : C
  pub action : String
  pub enabled : Bool
  pub digest : String
  pub evaluator_version : String
  pub created_by : Option String
  pub superseded_at : Option ℕ

-- What is hashed: the name, the description, the type, the configuration and the action.
pub record Canonical (C : Type 0) : Type 0 where
  pub name : String
  pub description : String
  pub policy_type : String
  pub config : C
  pub action : String

-- `superseded_at IS NULL`
abbrev pub is_open : Option ℕ → Bool
is_open none = true
is_open (some at) = false

module _ {C : Type 0} where
  abbrev pub later : PolicyVersion C → Option (PolicyVersion C) → Option (PolicyVersion C)
  later v none = some v
  later v (some w) = if ltb w.version v.version then some v else some w

  -- The open version of the policy with the largest number.
  unfoldable pub open_version : String → List (PolicyVersion C) → Option (PolicyVersion C)
  open_version policy_id [] = none
  open_version policy_id (v ∷ rows) =
      let rest = open_version policy_id rows in
      if str_eq v.policy_id policy_id && is_open v.superseded_at then later v rest else rest

  -- `prev.superseded_at = now`, where there is a `prev`.
  unfoldable pub supersede : Option (PolicyVersion C) → ℕ → PolicyVersion C → PolicyVersion C
  supersede none now v = v
  supersede (some prev) now v =
      if str_eq v.policy_id prev.policy_id && (v.version == prev.version)
      then record v { superseded_at = some now }
      else v

  abbrev pub next_version : Option (PolicyVersion C) → ℕ
  next_version none = 1
  next_version (some prev) = prev.version + 1

module _ {C : Type 0} (sha256_dumps : Canonical C → String) where
  -- `compute_policy_digest`
  unfoldable pub compute_policy_digest : StoredPolicy C → String
  compute_policy_digest policy = sha256_dumps (record {
    name = policy.name;
    description = text_or policy.description "";
    policy_type = policy.policy_type;
    config = policy.config;
    action = policy.action;
  })

  unfoldable pub version_of : StoredPolicy C → String → Option String → ℕ → PolicyVersion C
  unfolding compute_policy_digest
  version_of policy change_type created_by number = record {
    policy_id = policy.id;
    workspace_id = policy.workspace_id;
    version = number;
    change_type = change_type;
    name = policy.name;
    description = policy.description;
    policy_type = policy.policy_type;
    config = policy.config;
    action = policy.action;
    enabled = policy.enabled;
    digest = compute_policy_digest policy;
    evaluator_version = "policy-eval-1";
    created_by = created_by;
    superseded_at = none;
  }

  -- `append_version` at the clock reading `now`: the policy with its new pointer, and the table.
  unfoldable pub append_version :
      StoredPolicy C
      → String
      → Option String
      → ℕ
      → List (PolicyVersion C)
      → StoredPolicy C × List (PolicyVersion C)
  unfolding open_version supersede version_of
  append_version policy change_type created_by now rows =
      let prev = open_version policy.id rows in
      let number = next_version prev in
      (
        record policy {
          current_version = some number;
          current_digest = some (compute_policy_digest policy);
        },
        map (supersede prev now) rows ++ version_of policy change_type created_by number ∷ [],
      )
