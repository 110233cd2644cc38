-- ===== src/Policy/Decision.antt =====
-- What an evaluation decides, told without its loop.
use mathlib.Core.List.{append-nil}
use lineagelens.Prelude.{
  Bool, ◌&&◌, ◌≡◌, ◌⊎◌, ◌↔◌, refl, ap, sym, ◌∙◌, true, false, not, List, [], ◌∷◌, any, filter,
  arith, Bool-cases, inl, inr,
}
use lineagelens.Policy.{
  Matching, Policy, RecordData, PolicyEvalResult, Check, triggered, quiet, failed, check_policy,
  add_check, add_violation, evaluate_from, evaluate_policy, evaluate_policies, Why,
}
use lineagelens.Policy.Meaning.{is_triggered, Triggers, check_policy_iff}
use lineagelens.Policy.Extends.{
  names, ids, violation_ids, fires, acts, Extends, skip-Extends, fire-Extends,
}

module _ (m : Matching) (data_ : RecordData) where
  evaluate_policy-cases :
      (policy : Policy) (r : PolicyEvalResult)
      → ((fires m data_ policy ≡ false) × (evaluate_policy m policy data_ r ≡ r))
        ⊎ ((why : Why) × (fires m data_ policy ≡ true)
            × (evaluate_policy m policy data_ r ≡ add_violation m policy why r))
  evaluate_policy-cases policy r = elim (Bool-cases policy.enabled) [
    | inr off ↦ inl (unfold fires in ground arith, unfold evaluate_policy in ground arith)
    | inl on ↦
        by_check (check_policy m policy data_) refl (unfold fires in ground (arith, on))
          (unfold evaluate_policy in ground (arith, on))
  ]
    where
      by_check :
          (c : Check)
          → check_policy m policy data_ ≡ c
          → fires m data_ policy ≡ is_triggered (check_policy m policy data_)
          → evaluate_policy m policy data_ r ≡ add_check m policy (check_policy m policy data_) r
          → ((fires m data_ policy ≡ false) × (evaluate_policy m policy data_ r ≡ r))
            ⊎ ((why : Why) × (fires m data_ policy ≡ true)
                × (evaluate_policy m policy data_ r ≡ add_violation m policy why r))
      by_check (triggered why) e f g = inr (
        why,
        f ∙ ap is_triggered e,
        g ∙ ap (λ c. add_check m policy c r) e ∙ unfold add_check in refl,
      )
      by_check quiet e f g =
          inl (
            f ∙ ap is_triggered e,
            g ∙ ap (λ c. add_check m policy c r) e ∙ unfold add_check in refl,
          )
      by_check failed e f g =
          inl (
            f ∙ ap is_triggered e,
            g ∙ ap (λ c. add_check m policy c r) e ∙ unfold add_check in refl,
          )

  evaluate_from-Extends :
      (policies : List Policy) (r : PolicyEvalResult)
      → Extends m data_ policies r (evaluate_from m policies data_ r)
  unfolding evaluate_from
  evaluate_from-Extends [] r = record {
    passed = ground arith;
    violated = sym (append-nil (violation_ids r.violations));
    flags = sym (append-nil r.flags);
    alerts = sym (append-nil r.alerts);
  }
  evaluate_from-Extends (policy ∷ policies) r = elim (evaluate_policy-cases policy r) [
    | inl (quiet_, e) ↦ rw e (
        skip-Extends m data_ policy policies r (evaluate_from m policies data_ r) quiet_
          (evaluate_from-Extends policies r))
    | inr (why, fired, e) ↦
        let next = add_violation m policy why r in
        rw e (
          fire-Extends m data_ policy why policies r (evaluate_from m policies data_ next) fired
            (evaluate_from-Extends policies next))
  ]

both_iff : (a b : Bool) → (a && b ≡ true) ↔ ((a ≡ true) × (b ≡ true))
both_iff true true = (λ h. (refl, h), λ h. h.1)
both_iff true false = (λ h. (refl, h), λ h. h.1)
both_iff false b = (λ h. absurd (ground (arith, h)), λ h. absurd (ground (arith, h.0)))

fires_iff :
    (m : Matching) (data_ : RecordData) (p : Policy)
    → (fires m data_ p ≡ true) ↔ ((p.enabled ≡ true) × Triggers m p data_)
unfolding fires
fires_iff m data_ p =
    let meaning = check_policy_iff m p data_ in
    let parts = both_iff p.enabled (is_triggered (check_policy m p data_)) in
    (λ h. let (on, hit) = parts.0 h in (on, meaning.0 hit), λ h. parts.1 (h.0, meaning.1 h.1))

-- A record passes exactly when no enabled policy that blocks triggers. The violations are the
-- policies that trigger, those with the action `allow` among them; the flags and the alerts are the
-- names of those with that action; all are in the order of the policies. A policy fires exactly when
-- it is enabled and triggers: an allowlist that is not empty and has not the field's value, a
-- blocklist that has it, a score that stands to the threshold as the operator says, or a well-formed
-- pattern that occurs in the prompt. One whose check raises does not.
pub evaluate_policies_lem :
    (m : Matching) (policies : List Policy) (data_ : RecordData)
    → let result = evaluate_policies m policies data_ in
      (result.passed ≡ not (any (acts m data_ "block") policies))
      × (violation_ids result.violations ≡ ids (filter (fires m data_) policies))
      × (result.flags ≡ names (filter (acts m data_ "flag") policies))
      × (result.alerts ≡ names (filter (acts m data_ "alert") policies))
      × ((p : Policy) → (fires m data_ p ≡ true) ↔ ((p.enabled ≡ true) × Triggers m p data_))
unfolding evaluate_policies
evaluate_policies_lem m policies data_ =
    let x =
      evaluate_from-Extends m data_ policies
        (record { passed = true; violations = []; flags = []; alerts = [] }) in
    (x.passed, x.violated, x.flags, x.alerts, fires_iff m data_)
