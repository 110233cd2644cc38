-- ===== src/Retention.antt =====
-- The retention sweep (`run_retention_cleanup` of
-- lineagelens-backend/app/services/retention_service.py). Moments are whole microseconds, and
-- `moment_of` reads the column `timestamp_iso`.
pub mod Versions
pub mod Numbers
pub mod Settled
pub mod Current
pub mod Rows
pub mod Sweep
pub mod Total
pub mod Cleanup
pub mod Chains
mod Tests
use Prim.Native.String
use lineagelens.Prelude.{
  ℕ, zero, suc, ◌+◌, ◌*◌, String, Bool, true, false, not, ◌&&◌, Option, none, some, List, [], ◌∷◌,
  ◌++◌, str_eq, leb, ltb, if◌then◌else◌, filter, length,
}
use lineagelens.Attestation.{Signing, text_or}
use lineagelens.Chain.{Hashing, ProvenanceRecord}
use lineagelens.Lifecycle.{LifecycleClaims, Request, Db, apply_lifecycle_event}

pub record RetentionPolicy : Type 0 where
  pub id : ℕ
  pub workspace_id : String
  pub retain_days : ℕ
  pub redact_after_days : Option ℕ
  pub enabled : Bool
  pub current_version : ℕ

-- The microseconds in a day.
abbrev pub day : ℕ
day = 86400000000

-- `now - timedelta(days=days)` is a moment: otherwise Python raises `OverflowError`. Moments count
-- from the first one of the year 1.
abbrev pub is_moment : ℕ → ℕ → Bool
is_moment now days = leb (days * day) now

-- `timestamp < now - timedelta(days=days)`, where that is a moment.
abbrev pub is_older : ℕ → ℕ → ℕ → Bool
is_older now days moment = ltb (moment + days * day) now

-- The clauses of the SQL filters, where a state that is NULL satisfies no comparison.
module _ (moment_of : String → ℕ) where
  unfoldable pub is_to_delete : {P : Type 0} → RetentionPolicy → ℕ → ProvenanceRecord P → Bool
  is_to_delete policy now r =
      str_eq r.workspace_id policy.workspace_id
      && is_older now policy.retain_days (moment_of r.timestamp_iso)
      && elim r.lifecycle_state [ none ↦ false | some state ↦ not (str_eq state "deleted") ]

  unfoldable pub is_to_redact : {P : Type 0} → RetentionPolicy → ℕ → ℕ → ProvenanceRecord P → Bool
  is_to_redact policy days now r =
      str_eq r.workspace_id policy.workspace_id
      && is_older now days (moment_of r.timestamp_iso)
      && not (is_older now policy.retain_days (moment_of r.timestamp_iso))
      && not r.is_redacted

module _ (str_int : ℕ → String) where
  unfoldable pub deletion_request : RetentionPolicy → Request
  deletion_request policy = record {
    event_type = "deletion";
    authorized_by = some "retention-policy";
    reason =
        some
          (String.◌++◌ "retention: older than " (String.◌++◌ (str_int policy.retain_days) " days"));
    policy_ref = some (String.◌++◌ "retention_policy:" policy.workspace_id);
  }

  unfoldable pub redaction_request : RetentionPolicy → ℕ → Request
  redaction_request policy days = record {
    event_type = "redaction";
    authorized_by = some "retention-policy";
    reason = some (String.◌++◌ "retention: redact after " (String.◌++◌ (str_int days) " days"));
    policy_ref = some (String.◌++◌ "retention_policy:" policy.workspace_id);
  }

-- The counts of the answer.
pub record Counts : Type 0 where
  pub deleted : ℕ
  pub redacted : ℕ

-- A `workspace_id` that is absent or empty selects the policies of every workspace.
unfoldable pub selected : List RetentionPolicy → Option String → List RetentionPolicy
selected policies workspace_id =
    let enabled = filter (λ p. p.enabled) policies in
    let ws = text_or workspace_id "" in
    if str_eq ws "" then enabled else filter (λ p. str_eq p.workspace_id ws) enabled

module _ {P T : Type 0} (h : Hashing P T) (s : Signing LifecycleClaims T) (clock : String → ℕ) where
  -- `for record in …: await apply_lifecycle_event(…)`; the event of a record is stamped with the
  -- clock reading for its uuid.
  unfoldable pub apply_events : Request → List (ProvenanceRecord P) → Db P T → Option (Db P T)
  apply_events q [] db = some db
  apply_events q (r ∷ rs) db = elim (apply_lifecycle_event h s r q (clock r.uuid) db) [
    | none ↦ none
    | some (event, changed) ↦ apply_events q rs changed
  ]

module _ {P T : Type 0} (h : Hashing P T) (s : Signing LifecycleClaims T) (moment_of : String → ℕ)
    (str_int : ℕ → String) (clock : String → ℕ) where
  -- `if policy.redact_after_days is not None: …`
  unfoldable pub redact_old :
      RetentionPolicy → Option ℕ → ℕ → Counts → Db P T → Option (Counts × Db P T)
  unfolding apply_events
  redact_old policy none now counts db = some (counts, db)
  redact_old policy (some days) now counts db =
      if not (is_moment now days)
      then none
      else let records_to_redact = filter (is_to_redact moment_of policy days now) db.records in
        elim (apply_events h s clock (redaction_request str_int policy days) records_to_redact db) [
          | none ↦ none
          | some changed ↦
              some
                (record counts { redacted = counts.redacted + length records_to_redact }, changed)
        ]

  -- The body of `for policy in policies`.
  unfoldable pub sweep : RetentionPolicy → ℕ → Counts → Db P T → Option (Counts × Db P T)
  unfolding apply_events redact_old
  sweep policy now counts db =
      if not (is_moment now policy.retain_days)
      then none
      else let records_to_delete = filter (is_to_delete moment_of policy now) db.records in
        elim (apply_events h s clock (deletion_request str_int policy) records_to_delete db) [
          | none ↦ none
          | some changed ↦
              redact_old policy policy.redact_after_days now
                (record counts { deleted = counts.deleted + length records_to_delete }) changed
        ]

  unfoldable pub sweep_all : List RetentionPolicy → ℕ → Counts → Db P T → Option (Counts × Db P T)
  unfolding sweep
  sweep_all [] now counts db = some (counts, db)
  sweep_all (policy ∷ policies) now counts db = elim (sweep policy now counts db) [
    | none ↦ none
    | some (more, changed) ↦ sweep_all policies now more changed
  ]

  -- `none` where `apply_lifecycle_event` or the subtraction of days raises; nothing is committed then.
  unfoldable pub run_retention_cleanup :
      List RetentionPolicy → Option String → ℕ → Db P T → Option (Counts × Db P T)
  unfolding sweep_all selected
  run_retention_cleanup policies workspace_id now db =
      sweep_all (selected policies workspace_id) now (record { deleted = 0; redacted = 0 }) db
