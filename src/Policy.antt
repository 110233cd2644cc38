-- ===== src/Policy.antt =====
-- The evaluation of policies on a candidate record (lineagelens-backend/app/core/policy.py). Log
-- lines are left out, and the prose of a violation's reason is a value. Risk scores and thresholds
-- are integers, the other fields of the record texts.
pub mod Scores
pub mod Meaning
pub mod Extends
pub mod Decision
mod Tests
use lineagelens.Prelude.{
  ℕ, String, Bool, true, false, not, ◌&&◌, ◌||◌, Option, none, some, List, [], ◌∷◌, ◌++◌, any, leb,
  ltb, ◌==◌, str_eq, if◌then◌else◌, map, Dict, lookup,
}
use lineagelens.Attestation.{text_or}

-- The integers, over the natural numbers of the other files.
pub data ℤ : Type 0 where
  pos negsuc : ℕ → ℤ

-- The keys of a policy's `config` that the code reads, `none` where one is missing. A threshold that
-- `int` refuses is `some none`; keys whose values have another type are left out.
pub record Config : Type 0 where
  pub field : Option String
  pub values : List String
  pub threshold : Option (Option ℤ)
  pub operator : Option String
  pub pattern : Option String
  pub flags : Option String

pub record Policy : Type 0 where
  pub id : String
  pub name : String
  pub policy_type : String
  pub action : String
  pub enabled : Bool
  pub config : Config
  pub current_version : Option ℕ
  pub current_digest : Option String

-- `record_data`: its text fields by name, its risk score, and the joined text of its messages.
pub record RecordData : Type 0 where
  pub fields : Dict String
  pub risk_score : Option ℤ
  pub prompt_text : String

-- Why a policy triggers.
pub data Why : Type 0 where
  not_in_allowlist in_blocklist : String → String → Why
  risk_reached : ℤ → String → ℤ → Why
  matched_pattern : String → Why

pub record PolicyViolation : Type 0 where
  pub policy_id : String
  pub policy_name : String
  pub policy_type : String
  pub action : String
  pub reason : Why
  pub policy_version : Option ℕ
  pub policy_digest : Option String

pub record PolicyEvalResult : Type 0 where
  pub passed : Bool
  pub violations : List PolicyViolation
  pub flags : List String
  pub alerts : List String

-- What the module takes from Python's texts and `re`. `search` gives `none` where `re.search` raises
-- on a malformed pattern.
pub record Matching : Type 0 where
  pub lower : String → String
  pub has_i : String → Bool
  pub search : String → Bool → String → Option Bool

-- The result of a check; `failed` is an exception, which `evaluate_policies` catches.
pub data Check : Type 0 where
  triggered : Why → Check
  quiet failed : Check

-- `d.get(k, default)`
abbrev pub or_default {ℓ} : {A : Type ℓ} → Option A → A → A
or_default none d = d
or_default (some a) d = a

abbrev pub leb_int : ℤ → ℤ → Bool
leb_int (pos a) (pos b) = leb a b
leb_int (pos a) (negsuc b) = false
leb_int (negsuc a) (pos b) = true
leb_int (negsuc a) (negsuc b) = leb b a

-- `ops.get(operator, False)`
unfoldable pub compare_risk : String → ℤ → ℤ → Bool
compare_risk operator risk threshold =
    if str_eq operator "gte"
    then leb_int threshold risk
    else if str_eq operator "gt"
    then not (leb_int risk threshold)
    else if str_eq operator "lte"
    then leb_int risk threshold
    else if str_eq operator "lt"
    then not (leb_int threshold risk)
    else if str_eq operator "eq"
    then leb_int risk threshold && leb_int threshold risk
    else false

abbrev pub is_empty {ℓ} : {A : Type ℓ} → List A → Bool
is_empty [] = true
is_empty (x ∷ xs) = false

module _ (m : Matching) where
  -- `str(record_data.get(field_name) or "").lower()`
  unfoldable pub field_value : String → RecordData → String
  field_value field_name data_ = m.lower (text_or (lookup field_name data_.fields) "")

  -- `value in [str(v).lower() for v in values]`
  unfoldable pub is_listed : String → List String → Bool
  is_listed value values = any (λ v. str_eq (m.lower v) value) values

  unfoldable pub check_allowlist : Config → RecordData → Check
  unfolding field_value is_listed
  check_allowlist cfg data_ =
      let field_name = or_default cfg.field "model_name" in
      let value = field_value field_name data_ in
      if not (is_empty cfg.values) && not (is_listed value cfg.values)
      then triggered (not_in_allowlist field_name value)
      else quiet

  unfoldable pub check_blocklist : Config → RecordData → Check
  unfolding field_value is_listed
  check_blocklist cfg data_ =
      let field_name = or_default cfg.field "model_name" in
      let value = field_value field_name data_ in
      if is_listed value cfg.values then triggered (in_blocklist field_name value) else quiet

  unfoldable pub check_risk : Config → RecordData → Check
  unfolding compare_risk
  check_risk cfg data_ =
      let operator = or_default cfg.operator "gte" in
      let score = or_default data_.risk_score (pos 0) in
      elim (or_default cfg.threshold (some (pos 80))) [
        | none ↦ failed
        | some threshold ↦
            if compare_risk operator score threshold
            then triggered (risk_reached score operator threshold)
            else quiet
      ]

  unfoldable pub check_pattern : Config → RecordData → Check
  check_pattern cfg data_ =
      let pattern = or_default cfg.pattern "" in
      if str_eq pattern ""
      then quiet
      else elim (m.search pattern (m.has_i (or_default cfg.flags "")) data_.prompt_text) [
        | none ↦ failed
        | some found ↦ if found then triggered (matched_pattern pattern) else quiet
      ]

  -- `_check_policy`
  unfoldable pub check_policy : Policy → RecordData → Check
  unfolding check_allowlist check_blocklist check_risk check_pattern
  check_policy policy data_ =
      if str_eq policy.policy_type "allowlist"
      then check_allowlist policy.config data_
      else if str_eq policy.policy_type "blocklist"
      then check_blocklist policy.config data_
      else if str_eq policy.policy_type "risk_rule"
      then check_risk policy.config data_
      else if str_eq policy.policy_type "prompt_pattern"
      then check_pattern policy.config data_
      else quiet

  abbrev violation : Policy → Why → PolicyViolation
  violation policy why = record {
    policy_id = policy.id;
    policy_name = policy.name;
    policy_type = policy.policy_type;
    action = policy.action;
    reason = why;
    policy_version = policy.current_version;
    policy_digest = policy.current_digest;
  }

  -- What a triggered policy does to the result.
  unfoldable pub add_violation : Policy → Why → PolicyEvalResult → PolicyEvalResult
  add_violation policy why result =
      let noted = record result { violations = result.violations ++ violation policy why ∷ [] } in
      if str_eq policy.action "block"
      then record noted { passed = false }
      else if str_eq policy.action "flag"
      then record noted { flags = result.flags ++ policy.name ∷ [] }
      else if str_eq policy.action "alert"
      then record noted { alerts = result.alerts ++ policy.name ∷ [] }
      else noted

  -- A check that triggers changes the result; one that does not, or that raises, leaves it.
  unfoldable pub add_check : Policy → Check → PolicyEvalResult → PolicyEvalResult
  unfolding add_violation
  add_check policy (triggered why) result = add_violation policy why result
  add_check policy quiet result = result
  add_check policy failed result = result

  -- The body of the loop of `evaluate_policies`.
  unfoldable pub evaluate_policy : Policy → RecordData → PolicyEvalResult → PolicyEvalResult
  unfolding check_policy add_check
  evaluate_policy policy data_ result =
      if not policy.enabled then result else add_check policy (check_policy policy data_) result

  unfoldable pub evaluate_from : List Policy → RecordData → PolicyEvalResult → PolicyEvalResult
  unfolding evaluate_policy
  evaluate_from [] data_ result = result
  evaluate_from (policy ∷ policies) data_ result =
      evaluate_from policies data_ (evaluate_policy policy data_ result)

  unfoldable pub evaluate_policies : List Policy → RecordData → PolicyEvalResult
  unfolding evaluate_from
  evaluate_policies policies data_ =
      evaluate_from policies data_
        (record { passed = true; violations = []; flags = []; alerts = [] })
