-- ===== src/Recall.antt =====
-- Recall campaigns: lineagelens-backend/app/services/recall_service.py, and the routes of
-- lineagelens-backend/app/api/routes/recall.py that change state. A handler is one step on the
-- tables. Of the audit details and of the criteria that a campaign stores, only the counts are kept.
pub mod Affected
pub mod Blast
pub mod Scope
pub mod Runs
pub mod Frozen
mod Tests
use lineagelens.Prelude.{
  ℕ, ◌+◌, String, Bool, true, false, not, ◌&&◌, ◌||◌, Option, none, some, List, [], ◌∷◌, ◌++◌, ◌==◌,
  any, map, filter, length, str_eq, if◌then◌else◌,
}

-- `_VALID_QUARANTINE_STATUSES`
pub data QuarantineStatus : Type 0 where
  active flagged quarantined cleared : QuarantineStatus

-- The columns of `ProvenanceRecord` that recalls read or write; a uuid and the prompt messages are
-- the texts that `str` gives.
pub record RecallRow : Type 0 where
  pub uuid : String
  pub workspace_id : String
  pub model_name : Option String
  pub timestamp_iso : ℕ
  pub prompt_messages : Option String
  pub lineage_node_id : Option String
  pub file_path : String
  pub quarantine_status : QuarantineStatus
  pub quarantine_recall_id : Option ℕ
  pub quarantined_at : Option ℕ

pub record RecallCampaign : Type 0 where
  pub id : ℕ
  pub workspace_id : String
  pub created_by : String
  pub status : String
  pub matched_count : ℕ
  pub member_uuids : List String
  pub member_digest : Option String
  pub member_signature : Option String
  pub member_public_key_id : Option String
  pub blast_uuids : List String
  pub blast_coverage_status : Option String
  pub graph_checkpoint : Option String
  pub closed_at : Option ℕ

-- A row of the audit log, with the count in its details.
pub record RecallEvent : Type 0 where
  pub workspace_id : String
  pub user_id : String
  pub action : String
  pub target : ℕ
  pub count : ℕ

pub record Tables : Type 0 where
  pub records : List RecallRow
  pub campaigns : List RecallCampaign
  pub audit : List RecallEvent

-- What the service takes from `uuid`, `hashlib`, `json`, the signing key and `re`, and from the
-- database's LIKE. `parse_uuid` is `str(UUID(u))`; `none` is an exception.
pub record Services : Type 0 where
  pub parse_uuid : String → Option String
  pub strip : String → String
  -- `.lower()` without `%`, `_` and the backslash.
  pub lower_clean : String → String
  pub like : String → String → Bool
  pub compile : String → Option (String → Bool)
  pub member_digest : List String → String
  pub sign_detached : String → Option (String × String)

abbrev pub is_in : List String → String → Bool
is_in uuids u = any (λ v. str_eq v u) uuids

-- The loops that keep what `UUID` reads.
unfoldable pub parsed : (String → Option String) → List String → List String
parsed parse_uuid [] = []
parsed parse_uuid (u ∷ us) =
    let rest = parsed parse_uuid us in elim (parse_uuid u) [ none ↦ rest | some v ↦ v ∷ rest ]

-- The condition of an `update`, and what it sets.
abbrev pub in_update : String → List String → RecallRow → Bool
in_update ws uuids r = str_eq r.workspace_id ws && is_in uuids r.uuid

abbrev pub as_flagged : ℕ → RecallRow → RecallRow
as_flagged campaign_id r = record r {
  quarantine_status = flagged;
  quarantine_recall_id = some campaign_id;
}

abbrev pub as_quarantined : ℕ → ℕ → RecallRow → RecallRow
as_quarantined campaign_id now r = record r {
  quarantine_status = quarantined;
  quarantine_recall_id = some campaign_id;
  quarantined_at = some now;
}

abbrev pub update_rows :
    (RecallRow → Bool) → (RecallRow → RecallRow) → List RecallRow → List RecallRow
update_rows chosen change rows = map (λ r. if chosen r then change r else r) rows

abbrev pub log_event : String → String → String → ℕ → ℕ → Tables → Tables
log_event ws user action target count db = record db {
  audit =
      db.audit
      ++ record {
        workspace_id = ws;
        user_id = user;
        action = action;
        target = target;
        count = count;
      }
        ∷ [];
}

abbrev pub is_nil : List String → Bool
is_nil [] = true
is_nil (u ∷ us) = false

module _ (o : Services) where
  -- `_flag_records`: the tables and the count.
  unfoldable pub flag_records : String → String → List String → ℕ → Tables → Tables × ℕ
  unfolding parsed
  flag_records ws user record_uuids campaign_id db =
      let uuids = parsed o.parse_uuid record_uuids in
      let count = length (filter (in_update ws uuids) db.records) in
      if is_nil uuids then (db, 0) else (
        log_event ws user "recall.flag" campaign_id count (record db {
          records = update_rows (in_update ws uuids) (as_flagged campaign_id) db.records;
        }),
        count,
      )

  -- `quarantine_records`; the duplicates that `dict.fromkeys` drops do not matter to the update.
  unfoldable pub quarantine_records :
      String → String → ℕ → List String → List String → ℕ → Tables → Tables × ℕ
  unfolding parsed
  quarantine_records ws user campaign_id record_uuids blast_uuids now db =
      let uuids = parsed o.parse_uuid (record_uuids ++ blast_uuids) in
      let count = length (filter (in_update ws uuids) db.records) in
      if is_nil uuids then (db, 0) else (
        log_event ws user "recall.quarantine" campaign_id count (record db {
          records = update_rows (in_update ws uuids) (as_quarantined campaign_id now) db.records;
        }),
        count,
      )

abbrev pub has_recall : ℕ → Option ℕ → Bool
has_recall campaign_id none = false
has_recall campaign_id (some id) = id == campaign_id

abbrev pub in_campaign : String → ℕ → RecallRow → Bool
in_campaign ws campaign_id r =
    str_eq r.workspace_id ws && has_recall campaign_id r.quarantine_recall_id

unfoldable pub clear_records : String → String → ℕ → Tables → Tables × ℕ
clear_records ws user campaign_id db =
    let count = length (filter (in_campaign ws campaign_id) db.records) in
    (
      log_event ws user "recall.clear" campaign_id count (record db {
        records =
            update_rows (in_campaign ws campaign_id) (λ r. record r { quarantine_status = cleared })
              db.records;
      }),
      count,
    )

-- `_get_campaign_or_404`
abbrev pub is_campaign : ℕ → String → RecallCampaign → Bool
is_campaign campaign_id ws c = c.id == campaign_id && str_eq c.workspace_id ws

unfoldable pub get_campaign : ℕ → String → List RecallCampaign → Option RecallCampaign
get_campaign campaign_id ws [] = none
get_campaign campaign_id ws (c ∷ campaigns) =
    if is_campaign campaign_id ws c then some c else get_campaign campaign_id ws campaigns

abbrev pub as_closed : ℕ → RecallCampaign → RecallCampaign
as_closed now c = record c { status = "closed"; closed_at = some now }

-- The object that `close_recall` mutates is the row of the campaign.
unfoldable pub put_closed : ℕ → String → ℕ → List RecallCampaign → List RecallCampaign
put_closed campaign_id ws now [] = []
put_closed campaign_id ws now (c ∷ campaigns) =
    if is_campaign campaign_id ws c
    then as_closed now c ∷ campaigns
    else c ∷ put_closed campaign_id ws now campaigns

unfoldable pub close_recall : String → String → RecallCampaign → ℕ → Tables → Tables
unfolding put_closed
close_recall ws user campaign now db =
    log_event ws user "recall.close" campaign.id campaign.matched_count
      (record db { campaigns = put_closed campaign.id ws now db.campaigns })

-- What a route answers: the tables with a count, or the status 404 or 409.
pub data Reply : Type 0 where
  done : Tables → ℕ → Reply
  not_found : Reply
  conflict : Reply

unfoldable pub quarantine_campaign : Services → ℕ → String → String → ℕ → Tables → Reply
unfolding get_campaign quarantine_records
quarantine_campaign o campaign_id ws user now db = elim (get_campaign campaign_id ws db.campaigns) [
  | none ↦ not_found
  | some c ↦
      let (db', count) =
        quarantine_records o ws user campaign_id c.member_uuids c.blast_uuids now db in
      if not (str_eq c.status "open") then conflict else done db' count
]

unfoldable pub clear_campaign : ℕ → String → String → Tables → Reply
unfolding get_campaign clear_records
clear_campaign campaign_id ws user db = elim (get_campaign campaign_id ws db.campaigns) [
  | none ↦ not_found
  | some c ↦ let (db', count) = clear_records ws user campaign_id db in done db' count
]

unfoldable pub close_campaign : ℕ → String → String → ℕ → Tables → Reply
unfolding get_campaign close_recall
close_campaign campaign_id ws user now db = elim (get_campaign campaign_id ws db.campaigns) [
  | none ↦ not_found
  | some c ↦
      if str_eq c.status "closed"
      then conflict
      else done (close_recall ws user c now db) c.matched_count
]
