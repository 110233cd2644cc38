-- ===== src/Recall/Blast.antt =====
-- The descendants of the matched records, `compute_blast_radius`, and the opening of a campaign.
pub mod Rows
pub mod Honest
pub mod Coverage
use lineagelens.Prelude.{
  ℕ, ◌+◌, String, Bool, true, false, not, ◌&&◌, ◌||◌, Option, none, some, List, [], ◌∷◌, ◌++◌, leb,
  ltb, take, any, filter, map, length, str_eq, if◌then◌else◌,
}
use lineagelens.Recall.{
  RecallRow, RecallCampaign, Tables, Services, is_in, is_nil, parsed, log_event, flag_records,
}
use lineagelens.Recall.Affected.{RecallCriteria, find_affected_records}

abbrev pub max_blast_radius_results : ℕ
max_blast_radius_results = 5000

pub record BlastRadiusResult : Type 0 where
  pub descendant_uuids : List String
  pub coverage_status : String
  pub sources_checked : List String
  pub graph_checkpoint : Option String
  pub limitations : List String

-- `neo4j_service`: the versions that its query returns for the seeds, the workspace and the limit,
-- or `none` where it raises. A row may lack its `versionId`.
abbrev pub Graph : Type 0
Graph = List String → String → ℕ → Option (List (Option String))

abbrev pub checked_empty : String → String → BlastRadiusResult
checked_empty source checkpoint = record {
  descendant_uuids = [];
  coverage_status = "checked_empty";
  sources_checked = source ∷ [];
  graph_checkpoint = some checkpoint;
  limitations = [];
}

-- The list cut at the cap, with what it covers.
unfoldable pub capped : ℕ → String → String → List String → List String → BlastRadiusResult
capped cap source checkpoint limitations descendants =
    let truncated = ltb cap (length descendants) in
    record {
      descendant_uuids = if truncated then take cap descendants else descendants;
      coverage_status =
          if truncated
          then "blast_radius_partial"
          else if is_nil descendants
          then "checked_empty"
          else "checked";
      sources_checked = source ∷ [];
      graph_checkpoint = some checkpoint;
      limitations =
          limitations ++ (if truncated then "result truncated at 5000 descendants" ∷ [] else []);
    }

-- Earliest first.
unfoldable pub insert_earliest : RecallRow → List RecallRow → List RecallRow
insert_earliest r [] = r ∷ []
insert_earliest r (x ∷ xs) =
    if leb r.timestamp_iso x.timestamp_iso then r ∷ x ∷ xs else x ∷ insert_earliest r xs

unfoldable pub earliest_first : List RecallRow → List RecallRow
unfolding insert_earliest
earliest_first [] = []
earliest_first (r ∷ rows) = insert_earliest r (earliest_first rows)

abbrev pub has_node : Option String → Bool
has_node none = false
has_node (some node) = not (str_eq node "")

abbrev pub same_node : Option String → Option String → Bool
same_node (some a) (some b) = not (str_eq a "") && str_eq a b
same_node _ _ = false

-- The row has the lineage node of the seed, or is a later state of its file.
abbrev pub descends_from : RecallRow → RecallRow → Bool
descends_from r seed =
    same_node seed.lineage_node_id r.lineage_node_id
    || (not (str_eq seed.file_path "")
        && str_eq seed.file_path r.file_path
        && ltb seed.timestamp_iso r.timestamp_iso)

abbrev pub has_clause : RecallRow → Bool
has_clause seed = has_node seed.lineage_node_id || not (str_eq seed.file_path "")

abbrev pub is_seed : String → List String → RecallRow → Bool
is_seed ws uuids r = str_eq r.workspace_id ws && is_in uuids r.uuid

-- The condition of the query for descendants.
abbrev pub is_descendant : String → List String → List RecallRow → RecallRow → Bool
is_descendant ws uuids seeds r =
    str_eq r.workspace_id ws && not (is_in uuids r.uuid) && any (descends_from r) seeds

-- The fallback on the tables. The last test on the uuids drops nothing, and is written as it stands.
unfoldable pub sql_blast_radius :
    ℕ
    → (String → Option String)
    → List String
    → String
    → List RecallRow
    → String
    → BlastRadiusResult
unfolding parsed capped earliest_first
sql_blast_radius cap parse_uuid record_uuids ws rows checkpoint =
    let uuids = parsed parse_uuid record_uuids in
    let seeds = filter (is_seed ws uuids) rows in
    let found = take (cap + 1) (earliest_first (filter (is_descendant ws uuids seeds) rows)) in
    let seed_uuids = map (λ r. r.uuid) seeds in
    let descendants = filter (λ u. not (is_in seed_uuids u)) (map (λ r. r.uuid) found) in
    if is_nil record_uuids || is_nil uuids || is_nil seed_uuids || not (any has_clause seeds)
    then checked_empty "sql_canonical" checkpoint
    else capped cap "sql_canonical" checkpoint
        ("sql_graph_fallback: neo4j_disabled, computed lineage via canonical SQL store" ∷ [])
        descendants

-- `[r["versionId"] for r in rows if r.get("versionId")]`
unfoldable pub version_ids : List (Option String) → List String
version_ids [] = []
version_ids (none ∷ rows) = version_ids rows
version_ids (some id ∷ rows) =
    let rest = version_ids rows in if str_eq id "" then rest else id ∷ rest

unfoldable pub unavailable : BlastRadiusResult
unavailable = record {
  descendant_uuids = [];
  coverage_status = "unavailable";
  sources_checked = [];
  graph_checkpoint = none;
  limitations = "neo4j_disabled — descendant lineage was not checked" ∷ [];
}

-- `compute_blast_radius`; `session` is the table of records, where a session is given, and
-- `checkpoint` the text of the clock. `none` is an exception: the handler of a failed query names a
-- `logger` that the module does not define, so the fallback behind it is never reached.
unfoldable pub compute_blast_radius :
    Services
    → Option Graph
    → List String
    → String
    → Option (List RecallRow)
    → Bool
    → String
    → Option BlastRadiusResult
unfolding sql_blast_radius version_ids capped unavailable
compute_blast_radius o none record_uuids ws none use_sql_fallback checkpoint = some unavailable
compute_blast_radius o none record_uuids ws (some rows) use_sql_fallback checkpoint = some (
    if use_sql_fallback
    then sql_blast_radius max_blast_radius_results o.parse_uuid record_uuids ws rows checkpoint
    else unavailable)
compute_blast_radius o (some graph) record_uuids ws session use_sql_fallback checkpoint =
    if is_nil record_uuids
    then some (checked_empty "neo4j" checkpoint)
    else elim (graph record_uuids ws (max_blast_radius_results + 1)) [
      | none ↦ none
      | some rows ↦ some (capped max_blast_radius_results "neo4j" checkpoint [] (version_ids rows))
    ]

-- `open_recall` for the campaign with the id `campaign_id`.
unfoldable pub open_recall :
    Services
    → ℕ
    → String
    → String
    → ℕ
    → List String
    → BlastRadiusResult
    → Tables
    → RecallCampaign × Tables
open_recall o campaign_id ws created_by matched_count members blast db =
    let member_digest = if is_nil members then none else some (o.member_digest members) in
    let signed = if is_nil members then none else o.sign_detached (o.member_digest members) in
    let campaign : RecallCampaign = record {
      id = campaign_id;
      workspace_id = ws;
      created_by = created_by;
      status = "open";
      matched_count = matched_count;
      member_uuids = members;
      member_digest = member_digest;
      member_signature = elim signed [ none ↦ none | some (signature, key_id) ↦ some signature ];
      member_public_key_id = elim signed [ none ↦ none | some (signature, key_id) ↦ some key_id ];
      blast_uuids = blast.descendant_uuids;
      blast_coverage_status = some blast.coverage_status;
      graph_checkpoint = blast.graph_checkpoint;
      closed_at = none;
    } in
    (
      campaign,
      log_event ws created_by "recall.open" campaign_id matched_count
          (record db { campaigns = db.campaigns ++ campaign ∷ [] }),
    )

-- `create_recall`, with the default limit of the search; `none` is the exception of
-- `compute_blast_radius`, before which nothing is written.
unfoldable pub create_recall :
    Services → Option Graph → RecallCriteria → ℕ → String → String → String → Tables → Option Tables
unfolding find_affected_records compute_blast_radius open_recall flag_records
create_recall o graph criteria campaign_id ws user checkpoint db =
    let matched = map (λ r. r.uuid) (find_affected_records o ws criteria 1000 db.records) in
    elim (compute_blast_radius o graph matched ws none false checkpoint) [
      | none ↦ none
      | some blast ↦
          let (campaign, db') =
            open_recall o campaign_id ws user (length matched) matched blast db in
          some (flag_records o ws user matched campaign_id db').0
    ]
