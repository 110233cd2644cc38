-- ===== src/Actions/Risk.antt =====
-- `flag_risky_action` of lineagelens-backend/app/services/agent_action_service.py. The searches by
-- regular expression are an argument.
use lineagelens.Prelude.{
  ℕ, String, Bool, true, false, not, ◌&&◌, ◌||◌, Option, none, some, List, [], ◌∷◌, ◌++◌, str_eq,
  ltb, if◌then◌else◌,
}
use text.Mathlib.Text.{starts_with}
use lineagelens.Actions.Arguments.{
  Json, Members, null, boolean, number, string, array, object, no_members, member, no_elements,
  element, get_member,
}

-- `re.search` of each pattern, and whether the text of a number is that of a zero.
pub record Searches : Type 0 where
  pub pipe_to_shell : String → Bool
  pub bash_process_sub : String → Bool
  pub mass_delete : String → Bool
  pub disk_operation : String → Bool
  pub privilege_escalation : String → Bool
  pub non_registry_source : String → Bool
  pub internal_ip : String → Bool
  pub is_zero : String → Bool

pub record RiskFlags : Type 0 where
  pub patterns : List String
  pub risk_level : String

-- `order.get(level, 0)`
abbrev pub order : String → ℕ
order level = if str_eq level "high" then 2 else if str_eq level "medium" then 1 else 0

-- `_upgrade`
unfoldable pub upgrade : String → String → String
upgrade new_level risk_level =
    if ltb (order risk_level) (order new_level) then new_level else risk_level

-- `patterns.append(…)` and `_upgrade(…)`, where the test succeeds.
unfoldable pub flag : Bool → String → String → RiskFlags → RiskFlags
unfolding upgrade
flag found pattern level flags =
    if found
    then record {
      patterns = flags.patterns ++ pattern ∷ [];
      risk_level = upgrade level flags.risk_level;
    }
    else flags

module _ (r : Searches) where
  -- The truth value of a JSON value.
  unfoldable pub is_truthy : Json → Bool
  is_truthy null = false
  is_truthy (boolean b) = b
  is_truthy (number n) = not (r.is_zero n)
  is_truthy (string t) = not (str_eq t "")
  is_truthy (array no_elements) = false
  is_truthy (array (element v vs)) = true
  is_truthy (object no_members) = false
  is_truthy (object (member k v ms)) = true

  -- `a or b`
  unfoldable pub or_json : Json → Json → Json
  unfolding is_truthy
  or_json a b = if is_truthy a then a else b

  -- The block under `isinstance(cmd, str)`.
  unfoldable pub flag_command : Json → RiskFlags → RiskFlags
  unfolding flag
  flag_command (string cmd) flags =
      flag (r.privilege_escalation cmd) "privilege_escalation" "medium" (
        flag (r.disk_operation cmd) "disk_operation" "high" (
          flag (r.mass_delete cmd) "mass_delete" "high" (
            flag (r.bash_process_sub cmd) "bash_process_sub" "high"
              (flag (r.pipe_to_shell cmd) "pipe_to_shell" "high" flags))))
  flag_command _ flags = flags

  unfoldable pub flag_shell : String → Members → RiskFlags → RiskFlags
  unfolding flag_command or_json get_member
  flag_shell action_type arguments flags =
      if str_eq action_type "shell" || str_eq action_type "dependency_install"
      then flag_command
          (or_json
            (or_json (get_member "command" (string "") arguments)
              (get_member "cmd" (string "") arguments))
            (string ""))
          flags
      else flags

  unfoldable pub flag_path : Json → RiskFlags → RiskFlags
  unfolding flag
  flag_path (string path) flags =
      flag (starts_with path "/" && not (starts_with path "/workspace")) "write_outside_workspace"
        "medium" flags
  flag_path _ flags = flags

  unfoldable pub flag_write : String → Members → RiskFlags → RiskFlags
  unfolding flag_path or_json get_member
  flag_write action_type arguments flags =
      if str_eq action_type "file_write"
      then flag_path
          (or_json
            (or_json (get_member "file_path" (string "") arguments)
              (get_member "path" (string "") arguments))
            (string ""))
          flags
      else flags

  -- `re.search` raises a `TypeError` on what is not a text: `none`.
  unfoldable pub flag_source : Json → RiskFlags → Option RiskFlags
  unfolding flag
  flag_source (string cmd) flags =
      some (flag (r.non_registry_source cmd) "non_registry_source" "medium" flags)
  flag_source _ flags = none

  unfoldable pub flag_install : String → Members → RiskFlags → Option RiskFlags
  unfolding flag_source or_json get_member
  flag_install action_type arguments flags =
      if str_eq action_type "dependency_install"
      then flag_source (or_json (get_member "command" (string "") arguments) (string "")) flags
      else some flags

  unfoldable pub flag_url : Json → RiskFlags → RiskFlags
  unfolding flag
  flag_url (string url) flags = flag (r.internal_ip url) "ssrf_risk" "medium" flags
  flag_url _ flags = flags

  unfoldable pub flag_network : String → Members → RiskFlags → RiskFlags
  unfolding flag_url or_json get_member
  flag_network action_type arguments flags =
      if str_eq action_type "network"
      then flag_url (or_json (get_member "url" (string "") arguments) (string "")) flags
      else flags

  abbrev pub reported : RiskFlags → Option RiskFlags
  reported flags = elim flags.patterns [ [] ↦ none | p ∷ patterns ↦ some flags ]

  -- `none` where it raises, `some none` where it returns `None`.
  unfoldable pub flag_risky_action : String → Option Members → Option (Option RiskFlags)
  unfolding flag_shell flag_write flag_install flag_network
  flag_risky_action action_type none = some none
  flag_risky_action action_type (some no_members) = some none
  flag_risky_action action_type (some (member k v ms)) =
      let arguments = member k v ms in
      let unflagged : RiskFlags = record { patterns = []; risk_level = "low" } in
      elim (flag_install action_type arguments
        (flag_write action_type arguments (flag_shell action_type arguments unflagged))) [
          | none ↦ none
          | some flags ↦ some (reported (flag_network action_type arguments flags))
        ]
