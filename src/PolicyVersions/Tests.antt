-- ===== src/PolicyVersions/Tests.antt =====
-- Two versions of a policy.
use lineagelens.Prelude.{String, ◌≡◌, refl, true, none, some, List, [], ◌∷◌}
use lineagelens.PolicyVersions.{Canonical, PolicyVersion, StoredPolicy, append_version, version_of}
use lineagelens.PolicyVersions.History.{append_version-is_history, is_history}

abbrev policy : StoredPolicy String
policy = record {
  id = "p";
  workspace_id = "w";
  name = "models";
  description = none;
  policy_type = "blocklist";
  config = "{}";
  action = "block";
  enabled = true;
  current_version = none;
  current_digest = none;
}

abbrev digest : Canonical String → String
digest canonical = canonical.name

abbrev one_version : List (PolicyVersion String)
one_version = version_of digest policy "create" none 1 ∷ []

append_version-is_history_example :
    let after = append_version digest policy "update" none 7 one_version in
    (is_history "p" 1 after.1 ≡ true) × (after.0.current_version ≡ some 2)
unfolding is_history version_of
append_version-is_history_example =
    append_version-is_history digest policy "update" none 7 one_version refl
