-- ===== src/Policy/Tests.antt =====
-- Three policies on a record: the first blocks, the second flags, the third is malformed.
use lineagelens.Prelude.{String, ◌≡◌, ◌↔◌, true, false, not, none, some, List, [], ◌∷◌, any, filter}
use lineagelens.Policy.{Config, Matching, Policy, RecordData, evaluate_policies, pos}
use lineagelens.Policy.Meaning.{Triggers}
use lineagelens.Policy.Decision.{evaluate_policies_lem}
use lineagelens.Policy.Extends.{acts, fires, ids, names, violation_ids}

abbrev matching : Matching
matching = record { lower = λ s. s; has_i = λ s. false; search = λ pattern ignore_case s. none }

abbrev no_config : Config
no_config = record {
  field = none;
  values = [];
  threshold = none;
  operator = none;
  pattern = none;
  flags = none;
}

abbrev policy : String → String → String → Config → Policy
policy name policy_type action config = record {
  id = name;
  name = name;
  policy_type = policy_type;
  action = action;
  enabled = true;
  config = config;
  current_version = none;
  current_digest = none;
}

abbrev three : List Policy
three =
    policy "old models" "blocklist" "block" (record no_config { values = "gpt-3" ∷ [] })
    ∷ policy "risky" "risk_rule" "flag" no_config
    ∷ policy "passwords" "prompt_pattern" "block" (record no_config { pattern = some "(" })
    ∷ []

abbrev candidate : RecordData
candidate = record {
  fields = ("model_name", "gpt-3") ∷ [];
  risk_score = some (pos 90);
  prompt_text = "";
}

evaluate_policies_lem_example :
    let result = evaluate_policies matching three candidate in
    (result.passed ≡ not (any (acts matching candidate "block") three))
    × (violation_ids result.violations ≡ ids (filter (fires matching candidate) three))
    × (result.flags ≡ names (filter (acts matching candidate "flag") three))
    × (result.alerts ≡ names (filter (acts matching candidate "alert") three))
    × ((p : Policy)
        → (fires matching candidate p ≡ true)
          ↔ ((p.enabled ≡ true) × Triggers matching p candidate))
evaluate_policies_lem_example = evaluate_policies_lem matching three candidate
