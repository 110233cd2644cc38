-- ===== src/Actions/Ledger.antt =====
-- The rows of the ledger: `compute_action_hash`, `record_action` and `record_actions_batch` of
-- lineagelens-backend/app/services/agent_action_service.py. Moments are in their ISO form.
use lineagelens.Prelude.{
  ℕ, suc, String, Bool, true, false, ◌&&◌, Option, none, some, List, [], ◌∷◌, ◌++◌, str_eq,
  if◌then◌else◌, filter, get_last?,
}
use lineagelens.Attestation.{text_or}
use lineagelens.Actions.Arguments.{Members, no_members, bound_arguments}
use lineagelens.Actions.Risk.{Searches, RiskFlags, flag_risky_action}

-- `AgentActionItem`
pub record AgentActionItem : Type 0 where
  pub action_type : String
  pub tool_name : String
  pub arguments : Option Members
  pub occurred_at : String
  pub agent_identity : Option String
  pub human_principal : Option String
  pub mandate_ref : Option String
  pub capability : Option String

-- A row of `agent_actions`.
pub record AgentAction : Type 0 where
  pub workspace_id : String
  pub session_key : String
  pub prompt_context_id : Option String
  pub action_type : String
  pub tool_name : String
  pub arguments_json : Option Members
  pub risk_flags_json : Option RiskFlags
  pub agent_identity : Option String
  pub human_principal : Option String
  pub mandate_ref : Option String
  pub capability : Option String
  pub authority_state : String
  pub record_hash : Option String
  pub prev_hash : Option String
  pub occurred_at : String

-- The dict that is serialised, with `or ""` applied.
pub record Canonical : Type 0 where
  pub workspace_id : String
  pub session_key : String
  pub action_type : String
  pub tool_name : String
  pub arguments_json : Members
  pub occurred_at : String
  pub prev_hash : String
  pub agent_identity : String
  pub human_principal : String
  pub mandate_ref : String
  pub capability : String
  pub authority_state : String

-- What the ledger takes from elsewhere.
pub record Outside : Type 0 where
  -- `sha256(json.dumps(…).encode()).hexdigest()`
  pub sha256_dumps : Canonical → String
  pub dumps_length : Members → Option ℕ
  pub searches : Searches
  -- `fromisoformat` of the text with `Z` replaced, then `isoformat`; `none` where it raises.
  pub read_moment : String → Option String
  -- The clock at this action, in ISO form.
  pub now_iso : AgentActionItem → String
  -- What the column `occurred_at` gives back of a moment, in ISO form: the offset may be another.
  pub stored_moment : String → String
  -- Whether the database accepts a row.
  pub accepts : AgentAction → Bool

-- How an attempt to record an action ends: an exception before `session.flush()`, one in it, or the
-- row and the table with it.
pub data Attempt : Type 0 where
  raised flush_failed : Attempt
  added : AgentAction → List AgentAction → Attempt

-- `{}` for no arguments.
abbrev pub or_empty : Option Members → Members
or_empty none = no_members
or_empty (some ms) = ms

unfoldable pub authority_of : Option String → String
authority_of mandate_ref = if str_eq (text_or mandate_ref "") "" then "unmandated" else "mandated"

module _ (o : Outside) where
  -- `compute_action_hash` on the columns of a row.
  unfoldable pub compute_action_hash : AgentAction → String
  compute_action_hash r = o.sha256_dumps record {
    workspace_id = r.workspace_id;
    session_key = r.session_key;
    action_type = r.action_type;
    tool_name = r.tool_name;
    arguments_json = or_empty r.arguments_json;
    occurred_at = r.occurred_at;
    prev_hash = text_or r.prev_hash "";
    agent_identity = text_or r.agent_identity "";
    human_principal = text_or r.human_principal "";
    mandate_ref = text_or r.mandate_ref "";
    capability = text_or r.capability "";
    authority_state = text_or (some r.authority_state) "";
  }

  unfoldable pub moment_of : AgentActionItem → String
  moment_of action = elim (o.read_moment action.occurred_at) [
    | none ↦ o.now_iso action
    | some t ↦ t
  ]

  -- The row before it has its hash.
  unfoldable pub unhashed_row :
      String
      → String
      → Option String
      → AgentActionItem
      → Option Members
      → Option RiskFlags
      → Option String
      → AgentAction
  unfolding moment_of authority_of
  unhashed_row workspace_id session_key prompt_context_id action args risk prev_hash = record {
    workspace_id = workspace_id;
    session_key = session_key;
    prompt_context_id = prompt_context_id;
    action_type = action.action_type;
    tool_name = action.tool_name;
    arguments_json = args;
    risk_flags_json = risk;
    agent_identity = action.agent_identity;
    human_principal = action.human_principal;
    mandate_ref = action.mandate_ref;
    capability = action.capability;
    authority_state = authority_of action.mandate_ref;
    record_hash = none;
    prev_hash = prev_hash;
    occurred_at = moment_of action;
  }

  abbrev pub hashed : AgentAction → AgentAction
  hashed r = record r { record_hash = some (compute_action_hash r) }

  abbrev pub as_stored : AgentAction → AgentAction
  as_stored r = record r { occurred_at = o.stored_moment r.occurred_at }

  -- `record_action` in a session that is active or not, on the rows of its transaction. The audit
  -- log, which never raises, is left out.
  unfoldable pub record_action :
      String
      → String
      → Option String
      → AgentActionItem
      → Option String
      → Bool
      → List AgentAction
      → Attempt
  unfolding unhashed_row compute_action_hash flag_risky_action bound_arguments
  record_action workspace_id session_key prompt_context_id action prev_hash is_active rows =
      let args = bound_arguments o.dumps_length action.arguments in
      elim (flag_risky_action o.searches action.action_type args) [
        | none ↦ raised
        | some risk ↦
            let row = hashed (
              unhashed_row workspace_id session_key prompt_context_id action args risk prev_hash) in
            if is_active && o.accepts row
            then added row (rows ++ as_stored row ∷ [])
            else flush_failed
      ]

  -- The rows of a session, in the order of their ids.
  abbrev pub in_session : String → String → AgentAction → Bool
  in_session workspace_id session_key r =
      str_eq r.workspace_id workspace_id && str_eq r.session_key session_key

  -- `tail_result.scalar_one_or_none()`
  unfoldable pub tail_hash : String → String → List AgentAction → Option String
  tail_hash workspace_id session_key rows =
      elim (get_last? (filter (in_session workspace_id session_key) rows)) [
        | none ↦ none
        | some r ↦ r.record_hash
      ]

  -- The rows of the transaction and the variables of the loop. A flush that fails rolls the
  -- transaction back, and the session is not active then: it refuses each later flush, and the commit.
  pub record Batch : Type 0 where
    pub rows : List AgentAction
    pub recorded : ℕ
    pub skipped : ℕ
    pub is_active : Bool

  -- `for action in actions: try: … except Exception: …`
  unfoldable pub record_actions :
      String → String → Option String → List AgentActionItem → Option String → Batch → Batch
  unfolding record_action
  record_actions workspace_id session_key prompt_context_id [] prev_hash batch = batch
  record_actions workspace_id session_key prompt_context_id (action ∷ actions) prev_hash batch =
      elim (record_action workspace_id session_key prompt_context_id action prev_hash
        batch.is_active batch.rows) [
          | raised ↦
              record_actions workspace_id session_key prompt_context_id actions prev_hash
                (record batch { skipped = suc batch.skipped })
          | flush_failed ↦
              record_actions workspace_id session_key prompt_context_id actions prev_hash
                (record batch { skipped = suc batch.skipped; is_active = false })
          | added row rows ↦
              record_actions workspace_id session_key prompt_context_id actions row.record_hash
                (record batch { rows = rows; recorded = suc batch.recorded })
        ]

  unfoldable pub record_actions_batch :
      String → String → Option String → List AgentActionItem → List AgentAction → Batch
  unfolding record_actions tail_hash
  record_actions_batch workspace_id session_key prompt_context_id actions rows =
      record_actions workspace_id session_key prompt_context_id actions
        (tail_hash workspace_id session_key rows)
        (record { rows = rows; recorded = 0; skipped = 0; is_active = true })

  -- The route `ingest_agent_actions` once access is granted: its answer, `none` where the commit
  -- raises, and the table after it.
  unfoldable pub ingest_agent_actions :
      String
      → String
      → Option String
      → List AgentActionItem
      → List AgentAction
      → Option (ℕ × ℕ) × List AgentAction
  unfolding record_actions_batch
  ingest_agent_actions workspace_id session_key prompt_context_id [] rows = (some (0, 0), rows)
  ingest_agent_actions workspace_id session_key prompt_context_id (action ∷ actions) rows =
      let batch =
        record_actions_batch workspace_id session_key prompt_context_id (action ∷ actions) rows in
      if batch.is_active then (some (batch.recorded, batch.skipped), batch.rows) else (none, rows)
