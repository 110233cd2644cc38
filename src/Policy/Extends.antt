-- ===== src/Policy/Extends.antt =====
-- What one policy adds to the result of an evaluation.
use mathlib.Core.List.{append-nil, append_assoc}
use lineagelens.Prelude.{
  String, ◌≡◌, refl, ap, sym, ◌∙◌, Bool, true, false, not, ◌&&◌, List, [], ◌∷◌, ◌++◌, any, filter,
  arith, eq_iff, str_eq, if◌then◌else◌, Bool-cases, inl, inr,
}
use lineagelens.Policy.Meaning.{is_triggered}
use lineagelens.Policy.{
  Matching, Policy, RecordData, PolicyEvalResult, PolicyViolation, check_policy, add_violation, Why,
}

abbrev pub names : List Policy → List String
names [] = []
names (policy ∷ policies) = policy.name ∷ names policies

abbrev pub ids : List Policy → List String
ids [] = []
ids (policy ∷ policies) = policy.id ∷ ids policies

abbrev pub violation_ids : List PolicyViolation → List String
violation_ids [] = []
violation_ids (v ∷ vs) = v.policy_id ∷ violation_ids vs

violation_ids-append :
    (us vs : List PolicyViolation) → violation_ids (us ++ vs) ≡ violation_ids us ++ violation_ids vs
violation_ids-append [] vs = refl
violation_ids-append (u ∷ us) vs = ap (λ x. u.policy_id ∷ x) (violation_ids-append us vs)

module _ (m : Matching) (data_ : RecordData) where
  -- The policy is enabled and its check triggers; one that raises does not.
  unfoldable pub fires : Policy → Bool
  fires policy = policy.enabled && is_triggered (check_policy m policy data_)

  -- It fires and has the action.
  unfoldable pub acts : String → Policy → Bool
  acts action policy = fires policy && str_eq policy.action action

  -- The result on these policies, added to a result.
  pub record Extends (policies : List Policy) (r r' : PolicyEvalResult) : Type 0 where
    pub passed : r'.passed ≡ (r.passed && not (any (acts "block") policies))
    pub violated :
        violation_ids r'.violations ≡ violation_ids r.violations ++ ids (filter fires policies)
    pub flags : r'.flags ≡ r.flags ++ names (filter (acts "flag") policies)
    pub alerts : r'.alerts ≡ r.alerts ++ names (filter (acts "alert") policies)

  added_passed :
      (policy : Policy) (why : Why) (r : PolicyEvalResult)
      → (add_violation m policy why r).passed ≡ (r.passed && not (str_eq policy.action "block"))
  unfolding add_violation
  added_passed policy why r = ground arith

  added_ids :
      (policy : Policy) (why : Why) (r : PolicyEvalResult)
      → violation_ids (add_violation m policy why r).violations
        ≡ violation_ids r.violations ++ policy.id ∷ []
  unfolding add_violation
  added_ids policy why r = ground (
    arith,
    violation_ids-append r.violations (
        record {
          policy_id = policy.id;
          policy_name = policy.name;
          policy_type = policy.policy_type;
          action = policy.action;
          reason = why;
          policy_version = policy.current_version;
          policy_digest = policy.current_digest;
        }
        ∷ []),
  )

  added_flags :
      (policy : Policy) (why : Why) (r : PolicyEvalResult)
      → (add_violation m policy why r).flags
        ≡ r.flags ++ (if str_eq policy.action "flag" then policy.name ∷ [] else [])
  unfolding add_violation
  added_flags policy why r = elim (Bool-cases (str_eq policy.action "block")) [
    | inl blocks ↦ rw ((eq_iff policy.action "block").0 blocks) (sym (append-nil r.flags))
    | inr passes ↦ ground (arith, append-nil r.flags)
  ]

  added_alerts :
      (policy : Policy) (why : Why) (r : PolicyEvalResult)
      → (add_violation m policy why r).alerts
        ≡ r.alerts ++ (if str_eq policy.action "alert" then policy.name ∷ [] else [])
  unfolding add_violation
  added_alerts policy why r = elim (Bool-cases (str_eq policy.action "block")) [
    | inl blocks ↦ rw ((eq_iff policy.action "block").0 blocks) (sym (append-nil r.alerts))
    | inr passes ↦ elim (Bool-cases (str_eq policy.action "flag")) [
      | inl flags ↦ rw ((eq_iff policy.action "flag").0 flags) (sym (append-nil r.alerts))
      | inr unflagged ↦ ground (arith, append-nil r.alerts)
    ]
  ]

  pub skip-Extends :
      (policy : Policy) (policies : List Policy) (r r' : PolicyEvalResult)
      → fires policy ≡ false
      → Extends policies r r'
      → Extends (policy ∷ policies) r r'
  unfolding acts
  skip-Extends policy policies r r' quiet_ x = record {
    passed = ground (arith, x.passed);
    violated = rw quiet_ x.violated;
    flags = rw quiet_ x.flags;
    alerts = rw quiet_ x.alerts;
  }

  names-filter_cons :
      (p : Policy → Bool) (policy : Policy) (policies : List Policy)
      → names (filter p (policy ∷ policies))
        ≡ (if p policy then policy.name ∷ [] else []) ++ names (filter p policies)
  names-filter_cons p policy policies = ground arith

  pub fire-Extends :
      (policy : Policy) (why : Why) (policies : List Policy) (r r' : PolicyEvalResult)
      → fires policy ≡ true
      → Extends policies (add_violation m policy why r) r'
      → Extends (policy ∷ policies) r r'
  fire-Extends policy why policies r r' fired x =
      let flagged : acts "flag" policy ≡ str_eq policy.action "flag" =
        unfold acts in rw fired refl in
      let alerted : acts "alert" policy ≡ str_eq policy.action "alert" =
        unfold acts in rw fired refl in
      let blocked : acts "block" policy ≡ str_eq policy.action "block" =
        unfold acts in rw fired refl in
      record {
        passed = ground (arith, x.passed, added_passed policy why r, blocked);
        violated = rw fired (
            x.violated
            ∙ ap (λ y. y ++ ids (filter fires policies)) (added_ids policy why r)
            ∙ append_assoc (violation_ids r.violations) (policy.id ∷ [])
                (ids (filter fires policies)));
        flags =
            x.flags
            ∙ ap (λ y. y ++ names (filter (acts "flag") policies)) (added_flags policy why r)
            ∙ append_assoc r.flags (if str_eq policy.action "flag" then policy.name ∷ [] else [])
                (names (filter (acts "flag") policies))
            ∙ ap (λ y. r.flags ++ y)
                (ap
                    (λ b.
                      (if b then policy.name ∷ [] else []) ++ names (filter (acts "flag") policies))
                    (sym flagged)
                  ∙ sym (names-filter_cons (acts "flag") policy policies));
        alerts =
            x.alerts
            ∙ ap (λ y. y ++ names (filter (acts "alert") policies)) (added_alerts policy why r)
            ∙ append_assoc r.alerts (if str_eq policy.action "alert" then policy.name ∷ [] else [])
                (names (filter (acts "alert") policies))
            ∙ ap (λ y. r.alerts ++ y)
                (ap
                    (λ b.
                      (if b then policy.name ∷ [] else [])
                      ++ names (filter (acts "alert") policies))
                    (sym alerted)
                  ∙ sym (names-filter_cons (acts "alert") policy policies));
      }
