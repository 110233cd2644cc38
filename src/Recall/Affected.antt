-- ===== src/Recall/Affected.antt =====
-- The records that a recall matches: `find_affected_records`.
use lineagelens.Prelude.{
  ℕ, String, Bool, true, false, ◌&&◌, Option, none, some, List, [], ◌∷◌, leb, take, filter, str_eq,
  if◌then◌else◌,
}
use lineagelens.Recall.{RecallRow, Services}
use lineagelens.Attestation.{text_or}

pub record RecallCriteria : Type 0 where
  pub model : Option String
  pub model_version : Option String
  pub prompt_pattern_regex : Option String
  pub date_from : Option ℕ
  pub date_to : Option ℕ
  pub record_uuid : Option String

-- Latest first. The order of rows with one timestamp is the database's, here that of the table.
unfoldable pub insert_latest : RecallRow → List RecallRow → List RecallRow
insert_latest r [] = r ∷ []
insert_latest r (x ∷ xs) =
    if leb x.timestamp_iso r.timestamp_iso then r ∷ x ∷ xs else x ∷ insert_latest r xs

unfoldable pub latest_first : List RecallRow → List RecallRow
unfolding insert_latest
latest_first [] = []
latest_first (r ∷ rows) = insert_latest r (latest_first rows)

abbrev pub not_before : Option ℕ → ℕ → Bool
not_before none t = true
not_before (some date_from) t = leb date_from t

abbrev pub not_after : Option ℕ → ℕ → Bool
not_after none t = true
not_after (some date_to) t = leb t date_to

abbrev pub has_uuid : Option String → String → Bool
has_uuid none u = true
has_uuid (some wanted) u = str_eq u wanted

module _ (o : Services) where
  -- The filter on the model name, by the model and again by its version.
  unfoldable pub has_model : Option String → Option String → Bool
  has_model none model_name = true
  has_model (some model) model_name =
      let clean = o.lower_clean (o.strip model) in
      if str_eq (o.strip model) ""
      then true
      else if str_eq clean ""
      then true
      else o.like clean (text_or model_name "")

  -- The filters of the database.
  unfoldable pub is_selected : String → Option String → RecallCriteria → RecallRow → Bool
  unfolding has_model
  is_selected ws wanted c r =
      str_eq r.workspace_id ws
      && has_uuid wanted r.uuid
      && has_model c.model r.model_name
      && has_model c.model_version r.model_name
      && not_before c.date_from r.timestamp_iso
      && not_after c.date_to r.timestamp_iso

  abbrev pub prompt_found : (String → Bool) → Option String → Bool
  prompt_found search none = false
  prompt_found search (some prompt) = search prompt

  -- The filter in Python, after the limit.
  unfoldable pub by_prompt : Option String → List RecallRow → List RecallRow
  by_prompt none rows = rows
  by_prompt (some pattern_) rows = if str_eq pattern_ "" then rows else elim (o.compile pattern_) [
    | none ↦ []
    | some search ↦ filter (λ r. prompt_found search r.prompt_messages) rows
  ]

  -- From the parsed uuid on.
  unfoldable pub find_selected :
      String → RecallCriteria → ℕ → Option String → List RecallRow → List RecallRow
  unfolding latest_first is_selected by_prompt
  find_selected ws c limit wanted rows =
      by_prompt c.prompt_pattern_regex
        (take limit (latest_first (filter (is_selected ws wanted c) rows)))

  unfoldable pub find_affected_records :
      String → RecallCriteria → ℕ → List RecallRow → List RecallRow
  unfolding find_selected
  find_affected_records ws c limit rows = elim c.record_uuid [
    | none ↦ find_selected ws c limit none rows
    | some u ↦ elim (o.parse_uuid u) [
      | none ↦ []
      | some wanted ↦ find_selected ws c limit (some wanted) rows
    ]
  ]
