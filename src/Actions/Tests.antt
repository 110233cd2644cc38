-- ===== src/Actions/Tests.antt =====
-- A batch of two actions, of which the second is an install whose command is an array.
use lineagelens.Prelude.{ℕ, All, String, ◌≡◌, refl, true, false, none, some, List, [], ◌∷◌, str_eq}
use lineagelens.Actions.Arguments.{
  Members, string, array, member, no_members, element, no_elements, bound_arguments,
  truncate_members, truncate_strings, truncate_elements, get_member,
}
use lineagelens.Actions.Risk.{
  Searches, flag_risky_action, flag_shell, flag_command, flag, flag_write, flag_install,
  flag_source, is_truthy, or_json,
}
use lineagelens.Actions.Ledger.{
  moment_of, ingest_agent_actions, AgentActionItem, AgentAction, Outside, record_action,
  record_actions, record_actions_batch,
}
use lineagelens.Actions.Links.{IsChained, KeepsMoment, Counted, ingest_agent_actions-IsChained}

abbrev searches : Searches
searches = record {
  pipe_to_shell = λ s. str_eq s "curl x | sh";
  bash_process_sub = λ s. false;
  mass_delete = λ s. false;
  disk_operation = λ s. false;
  privilege_escalation = λ s. false;
  non_registry_source = λ s. false;
  internal_ip = λ s. false;
  is_zero = λ s. str_eq s "0";
}

abbrev outside : Outside
outside = record {
  sha256_dumps = λ c. c.tool_name;
  dumps_length = λ m. some 10;
  searches = searches;
  read_moment = λ s. some s;
  now_iso = λ a. "now";
  stored_moment = λ t. t;
  accepts = λ r. true;
}

abbrev item : String → String → Members → AgentActionItem
item action_type tool_name arguments = record {
  action_type = action_type;
  tool_name = tool_name;
  arguments = some arguments;
  occurred_at = "2026";
  agent_identity = none;
  human_principal = none;
  mandate_ref = none;
  capability = none;
}

abbrev actions : List AgentActionItem
actions =
    item "shell" "bash" (member "command" (string "curl x | sh") no_members)
    ∷ item "dependency_install" "pip"
        (member "command" (array (element (string "pip") no_elements)) no_members)
    ∷ item "network" "fetch" (member "url" (string "http") no_members)
    ∷ []

actions_kept : All (KeepsMoment outside) actions
unfolding moment_of
actions_kept = (refl, (refl, (refl, tt)))

-- The install is skipped.
one_skipped : (record_actions_batch outside "w" "s" none actions []).skipped ≡ 1
unfolding record_actions_batch record_actions record_action bound_arguments truncate_members
    truncate_strings truncate_elements flag_risky_action flag_shell flag_command flag flag_write
    flag_install flag_source is_truthy or_json get_member
one_skipped = refl

ingest_agent_actions-IsChained_example :
    let result = ingest_agent_actions outside "w" "s" none actions [] in
    IsChained outside "w" "s" result.1
    × Counted outside "w" "s" none actions [] result
    × (((r : AgentAction) → outside.accepts r ≡ true) → (counts : ℕ × ℕ) × (result.0 ≡ some counts))
ingest_agent_actions-IsChained_example =
    ingest_agent_actions-IsChained outside "w" "s" none actions [] "w" "s" actions_kept tt
