-- ===== src/Recall/Tests.antt =====
-- A recall that is opened and quarantined, and a search for descendants.
use lineagelens.Prelude.{ℕ, String, ◌≡◌, refl, true, Option, none, some, List, [], ◌∷◌, str_eq, inl}
use lineagelens.Recall.{
  QuarantineStatus, active, flagged, quarantined, RecallRow, RecallCampaign, Tables, Services,
  parsed, Reply, done, get_campaign, quarantine_campaign,
}
use lineagelens.Recall.Affected.{RecallCriteria}
use lineagelens.Recall.Blast.{
  BlastRadiusResult, compute_blast_radius, create_recall, sql_blast_radius, Graph,
}
use lineagelens.Recall.Blast.Honest.{IsHonest}
use lineagelens.Recall.Blast.Coverage.{compute_blast_radius-IsHonest}
use lineagelens.Recall.Scope.{SameSnapshot, IsScoped}
use lineagelens.Recall.Runs.{Reach, here, next, created, quarantines}
use lineagelens.Recall.Frozen.{Reach-IsScoped, Reach-frozen}

abbrev services : Services
services = record {
  parse_uuid = λ u. some u;
  strip = λ s. s;
  lower_clean = λ s. s;
  like = λ s t. str_eq s t;
  compile = λ s. none;
  member_digest = λ us. "digest";
  sign_detached = λ s. some ("signature", "k1");
}

abbrev row : String → String → ℕ → RecallRow
row uuid model t = record {
  uuid = uuid;
  workspace_id = "w";
  model_name = some model;
  timestamp_iso = t;
  prompt_messages = none;
  lineage_node_id = none;
  file_path = "a.py";
  quarantine_status = active;
  quarantine_recall_id = none;
  quarantined_at = none;
}

abbrev start : Tables
start = record {
  records = row "r1" "gpt" 1 ∷ row "r2" "claude" 2 ∷ row "r3" "gpt" 3 ∷ [];
  campaigns = [];
  audit = [];
}

abbrev criteria : RecallCriteria
criteria = record {
  model = some "gpt";
  model_version = none;
  prompt_pattern_regex = none;
  date_from = none;
  date_to = none;
  record_uuid = none;
}

-- A graph in which "r2" descends from the matched records.
abbrev graph : Graph
graph seeds ws limit = some (some "r2" ∷ none ∷ [])

abbrev or_start : Option Tables → Tables
or_start none = start
or_start (some db) = db

abbrev tables_of : Reply → Tables
tables_of (done db count) = db
tables_of _ = start

abbrev opened : Tables
opened = or_start (create_recall services (some graph) criteria 1 "w" "admin" "t0" start)

abbrev held : Tables
held = tables_of (quarantine_campaign services 1 "w" "admin" 9 opened)

abbrev statuses : List RecallRow → List QuarantineStatus
statuses [] = []
statuses (r ∷ rows) = r.quarantine_status ∷ statuses rows

opened_lem : statuses opened.records ≡ flagged ∷ active ∷ flagged ∷ []
unfolding create_recall
opened_lem = refl

held_lem : statuses held.records ≡ quarantined ∷ quarantined ∷ quarantined ∷ []
unfolding create_recall quarantine_campaign
held_lem = refl

-- A second recall of one of the records takes it over, and it is only flagged again.
abbrev retaken : Tables
retaken = or_start (
    create_recall services (some graph) (record criteria { record_uuid = some "r1" }) 2 "w" "admin"
      "t1" held)

retaken_lem : statuses retaken.records ≡ flagged ∷ quarantined ∷ quarantined ∷ []
unfolding create_recall quarantine_campaign
retaken_lem = refl

-- A query that fails ends the request.
failing :
    create_recall services (some (λ seeds ws limit. none)) criteria 1 "w" "admin" "t0" start ≡ none
unfolding create_recall
failing = refl

run : Reach services start held
unfolding create_recall quarantine_campaign get_campaign
run =
    next (next here (created (some graph) criteria 1 "w" "admin" "t0" refl refl))
      (quarantines 1 "w" "admin" 9 3 refl)

Reach-IsScoped_example : IsScoped services.parse_uuid held
Reach-IsScoped_example =
    Reach-IsScoped services start held run
      (inl (refl, refl), (inl (refl, refl), (inl (refl, refl), tt)))

abbrev campaign : RecallCampaign
campaign = record {
  id = 1;
  workspace_id = "w";
  created_by = "admin";
  status = "open";
  matched_count = 2;
  member_uuids = "r3" ∷ "r1" ∷ [];
  member_digest = some "digest";
  member_signature = some "signature";
  member_public_key_id = some "k1";
  blast_uuids = "r2" ∷ [];
  blast_coverage_status = some "checked";
  graph_checkpoint = some "t0";
  closed_at = none;
}

held_later : Reach services opened held
unfolding create_recall quarantine_campaign get_campaign
held_later = next here (quarantines 1 "w" "admin" 9 3 refl)

found_open : get_campaign 1 "w" opened.campaigns ≡ some campaign
unfolding create_recall get_campaign
found_open = refl

Reach-frozen_example :
    (d : RecallCampaign) × (get_campaign 1 "w" held.campaigns ≡ some d) × SameSnapshot d campaign
Reach-frozen_example = Reach-frozen services opened held 1 "w" campaign held_later found_open

compute_blast_radius-IsHonest_example :
    (r : BlastRadiusResult) × (compute_blast_radius services none
        ("r1" ∷ [])
        "w"
        (some start.records)
        true
        "t0"
      ≡ some r)
    × IsHonest 5000 "w" (parsed services.parse_uuid ("r1" ∷ [])) start.records r
compute_blast_radius-IsHonest_example =
    compute_blast_radius-IsHonest services ("r1" ∷ []) "w" start.records "t0"

descendants :
    (sql_blast_radius 5000 services.parse_uuid ("r1" ∷ []) "w" start.records "t0").descendant_uuids
    ≡ "r2" ∷ "r3" ∷ []
unfolding sql_blast_radius
descendants = refl
