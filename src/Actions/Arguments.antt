-- ===== src/Actions/Arguments.antt =====
-- The arguments of an action, cut to size: `_truncate_strings` and `_bound_arguments` of
-- lineagelens-backend/app/services/agent_action_service.py.
use lineagelens.Prelude.{
  ℕ, ◌+◌, String, Bool, true, Option, none, some, str_eq, ltb, leb, if◌then◌else◌,
}
use lineagelens.Pairing.{take_text}

-- A parsed JSON value; a number is its text.
mutual
  pub data Json : Type 0 where
    null : Json
    boolean : Bool → Json
    number : String → Json
    string : String → Json
    array : Elements → Json
    object : Members → Json

  pub data Elements : Type 0 where
    no_elements : Elements
    element : Json → Elements → Elements

  -- A dict, in insertion order.
  pub data Members : Type 0 where
    no_members : Members
    member : String → Json → Members → Members

-- `value[:max_len] if len(value) > max_len else value`, which is the prefix either way.
unfoldable mutual
  pub truncate_strings : ℕ → Json → Json
  truncate_strings max_len null = null
  truncate_strings max_len (boolean b) = boolean b
  truncate_strings max_len (number n) = number n
  truncate_strings max_len (string t) = string (take_text max_len t)
  truncate_strings max_len (array vs) = array (truncate_elements max_len vs)
  truncate_strings max_len (object ms) = object (truncate_members max_len ms)

  pub truncate_elements : ℕ → Elements → Elements
  truncate_elements max_len no_elements = no_elements
  truncate_elements max_len (element v vs) =
      element (truncate_strings max_len v) (truncate_elements max_len vs)

  pub truncate_members : ℕ → Members → Members
  truncate_members max_len no_members = no_members
  truncate_members max_len (member k v ms) =
      member k (truncate_strings max_len v) (truncate_members max_len ms)

-- `d[k] = v`
unfoldable pub set_member : String → Json → Members → Members
set_member k v no_members = member k v no_members
set_member k v (member j w ms) =
    if str_eq j k then member j v ms else member j w (set_member k v ms)

-- `d.get(k, default)`
unfoldable pub get_member : String → Json → Members → Json
get_member k default no_members = default
get_member k default (member j v ms) = if str_eq j k then v else get_member k default ms

abbrev pub args_max_bytes : ℕ
args_max_bytes = 4096

abbrev pub arg_string_truncate : ℕ
arg_string_truncate = 1024

-- `dumps_length` is the length of `json.dumps(…, default=str)`, `none` where it raises.
module _ (dumps_length : Members → Option ℕ) where
  -- The loop over `truncated.items()`, with `result` and `seen`.
  unfoldable pub keep_fitting : Members → ℕ → Members → Option Members
  unfolding set_member
  keep_fitting result seen no_members = some result
  keep_fitting result seen (member k v ms) = elim (dumps_length (member k v no_members)) [
    | none ↦ none
    | some chunk ↦
        let rest = keep_fitting (set_member k v result) (seen + chunk) ms in
        if ltb args_max_bytes (seen + chunk)
        then some (set_member "__truncated__" (boolean true) result)
        else rest
  ]

  abbrev pub or_error : Option Members → Members
  or_error none = member "__error__" (string "serialisation_failed") no_members
  or_error (some ms) = ms

  unfoldable pub bound_arguments : Option Members → Option Members
  unfolding truncate_members keep_fitting
  bound_arguments none = none
  bound_arguments (some no_members) = some no_members
  bound_arguments (some (member k v ms)) =
      let truncated = truncate_members arg_string_truncate (member k v ms) in
      some (
        or_error (elim (dumps_length truncated) [
          | none ↦ none
          | some serialised ↦
              if leb serialised args_max_bytes
              then some truncated
              else keep_fitting no_members 0 truncated
        ]))
