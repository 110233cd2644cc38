-- ===== src/Policy/Meaning.antt =====
-- When a policy triggers, in words of its own.
use mathlib.Core.Path.{subst}
use lineagelens.Prelude.{
  String, ◌≡◌, ◌⊎◌, ◌↔◌, refl, sym, ap, ◌∙◌, Bool, true, false, some, List, [], ◌∷◌, str_eq, eq_iff,
  arith, Bool-cases, Option-cases, inl, inr, of_some,
}
use lineagelens.Policy.{
  ℤ, pos, Config, Matching, Policy, RecordData, Check, triggered, or_default, compare_risk,
  is_listed, field_value, is_empty, check_allowlist, check_blocklist, check_risk, check_pattern,
  check_policy,
}
use lineagelens.Policy.Scores.{Compares, compare_risk_iff}

abbrev pub is_triggered : Check → Bool
is_triggered (triggered why) = true
is_triggered _ = false

module _ (m : Matching) where
  -- One of the values, in lower case, is the field's.
  abbrev pub Listed : String → List String → Type 0
  Listed value [] = true ≡ false
  Listed value (v ∷ values) = (m.lower v ≡ value) ⊎ Listed value values

  is_listed_iff :
      (value : String) (values : List String)
      → (is_listed m value values ≡ true) ↔ Listed value values
  unfolding is_listed
  is_listed_iff value [] = (λ h. absurd (ground (arith, h)), λ h. absurd (ground (arith, h)))
  is_listed_iff value (v ∷ values) = elim (Bool-cases (str_eq (m.lower v) value)) [
    | inl here ↦ (λ h. inl ((eq_iff (m.lower v) value).0 here), λ h. rw here refl)
    | inr other ↦ (
      λ h. inr ((is_listed_iff value values).0 (rw other at h)),
      λ h. elim h [
        | inl same ↦ absurd (ground (arith, other, (eq_iff (m.lower v) value).1 same))
        | inr later ↦ rw other ((is_listed_iff value values).1 later)
      ],
    )
  ]

  -- The field that the policy looks at, `model_name` by default, in lower case and empty where absent.
  abbrev pub value_of : Config → RecordData → String
  value_of cfg data_ = field_value m (or_default cfg.field "model_name") data_

  -- There is an allowlist, and the value is not in it.
  abbrev pub IsForeign : Config → RecordData → Type 0
  IsForeign cfg data_ =
      (is_empty cfg.values ≡ false) × (Listed (value_of cfg data_) cfg.values → true ≡ false)

  -- The threshold is a number, 80 by default, and the score, 0 by default, stands to it so.
  abbrev pub IsRisky : Config → RecordData → Type 0
  IsRisky cfg data_ =
      (threshold : ℤ) × (or_default cfg.threshold (some (pos 80)) ≡ some threshold)
      × Compares (or_default cfg.operator "gte") (or_default data_.risk_score (pos 0)) threshold

  -- There is a pattern, it is well-formed, and it occurs in the prompt.
  abbrev pub IsMatched : Config → RecordData → Type 0
  IsMatched cfg data_ =
      (str_eq (or_default cfg.pattern "") "" ≡ false)
      × (m.search (or_default cfg.pattern "") (m.has_i (or_default cfg.flags "")) data_.prompt_text
          ≡ some true)

  abbrev pub Triggers : Policy → RecordData → Type 0
  Triggers p data_ =
      ((p.policy_type ≡ "allowlist") × IsForeign p.config data_)
      ⊎ (((p.policy_type ≡ "blocklist") × Listed (value_of p.config data_) p.config.values)
          ⊎ (((p.policy_type ≡ "risk_rule") × IsRisky p.config data_)
              ⊎ ((p.policy_type ≡ "prompt_pattern") × IsMatched p.config data_)))

  check_allowlist_iff :
      (cfg : Config) (data_ : RecordData)
      → (is_triggered (check_allowlist m cfg data_) ≡ true) ↔ IsForeign cfg data_
  unfolding check_allowlist
  check_allowlist_iff cfg data_ =
      let value = value_of cfg data_ in
      let listed = is_listed_iff value cfg.values in
      elim (Bool-cases (is_empty cfg.values)) [
        | inl empty ↦ (
          λ h. absurd (ground (arith, rw (check_allowlist, empty) at h)),
          λ h. absurd (ground (arith, empty, h.0)),
        )
        | inr full ↦ elim (Bool-cases (is_listed m value cfg.values)) [
          | inl found ↦ (
            λ h. absurd (ground (arith, rw (check_allowlist, full, found) at h)),
            λ h. absurd (ground (arith, h.1 (listed.0 found))),
          )
          | inr absent ↦ (
            λ h. (full, λ l. sym (listed.1 l) ∙ absent),
            λ h. rw (check_allowlist, full, absent) refl,
          )
        ]
      ]

  check_blocklist_iff :
      (cfg : Config) (data_ : RecordData)
      → (is_triggered (check_blocklist m cfg data_) ≡ true) ↔ Listed (value_of cfg data_) cfg.values
  unfolding check_blocklist
  check_blocklist_iff cfg data_ =
      let value = value_of cfg data_ in
      let listed = is_listed_iff value cfg.values in
      elim (Bool-cases (is_listed m value cfg.values)) [
        | inl found ↦ (λ h. listed.0 found, λ h. rw (check_blocklist, found) refl)
        | inr absent ↦ (
          λ h. absurd (ground (arith, rw (check_blocklist, absent) at h)),
          λ h. absurd (ground (arith, absent, listed.1 h)),
        )
      ]

  check_risk_iff :
      (cfg : Config) (data_ : RecordData)
      → (is_triggered (check_risk m cfg data_) ≡ true) ↔ IsRisky cfg data_
  unfolding check_risk
  check_risk_iff cfg data_ =
      let operator = or_default cfg.operator "gte" in
      let score = or_default data_.risk_score (pos 0) in
      elim (Option-cases (or_default cfg.threshold (some (pos 80)))) [
        | inl unread ↦ (
          λ h. absurd (ground (arith, rw (check_risk, unread) at h)),
          λ h. absurd (ground (arith, unread, h.1)),
        )
        | inr (t, read) ↦
            let compares = compare_risk_iff operator score t in
            elim (Bool-cases (compare_risk operator score t)) [
              | inl holds ↦
                  (λ h. (t, read, compares.0 holds), λ h. rw (check_risk, read, holds) refl)
              | inr fails ↦ (
                λ h. absurd (ground (arith, rw (check_risk, read, fails) at h)),
                λ h.
                    let same = of_some (sym h.1 ∙ read) in
                    let holds = compares.1 (subst (λ x. Compares operator score x) same h.2) in
                    absurd (ground (arith, fails, holds)),
              )
            ]
      ]

  check_pattern_iff :
      (cfg : Config) (data_ : RecordData)
      → (is_triggered (check_pattern m cfg data_) ≡ true) ↔ IsMatched cfg data_
  unfolding check_pattern
  check_pattern_iff cfg data_ =
      let pattern = or_default cfg.pattern "" in
      let result = m.search pattern (m.has_i (or_default cfg.flags "")) data_.prompt_text in
      elim (Bool-cases (str_eq pattern "")) [
        | inl empty ↦ (
          λ h. absurd (ground (arith, rw (check_pattern, empty) at h)),
          λ h. absurd (ground (arith, empty, h.0)),
        )
        | inr full ↦ elim (Option-cases result) [
          | inl raises ↦ (
            λ h. absurd (ground (arith, rw (check_pattern, full, raises) at h)),
            λ h. absurd (ground (arith, raises, h.1)),
          )
          | inr (found, searched) ↦ elim (Bool-cases found) [
            | inl hit ↦ (
              λ h. (full, searched ∙ ap some hit),
              λ h. rw (check_pattern, full, searched, hit) refl,
            )
            | inr miss ↦ (
              λ h. absurd (ground (arith, rw (check_pattern, full, searched, miss) at h)),
              λ h. absurd (ground (arith, miss, of_some (sym searched ∙ h.1))),
            )
          ]
        ]
      ]

  -- A policy triggers exactly where its type says so.
  pub check_policy_iff :
      (p : Policy) (data_ : RecordData)
      → (is_triggered (check_policy m p data_) ≡ true) ↔ Triggers p data_
  unfolding check_policy
  check_policy_iff p data_ = (there, back)
    where
      differs :
          (other : String) {own : String}
          → p.policy_type ≡ own
          → str_eq own other ≡ false
          → str_eq p.policy_type other ≡ false
      differs other e h = ap (λ x. str_eq x other) e ∙ h

      there : is_triggered (check_policy m p data_) ≡ true → Triggers p data_
      there h = elim (Bool-cases (str_eq p.policy_type "allowlist")) [
        | inl e ↦ inl (
          (eq_iff p.policy_type "allowlist").0 e,
          (check_allowlist_iff p.config data_).0 (rw (check_policy, e) at h),
        )
        | inr e ↦ inr (elim (Bool-cases (str_eq p.policy_type "blocklist")) [
          | inl f ↦ inl (
            (eq_iff p.policy_type "blocklist").0 f,
            (check_blocklist_iff p.config data_).0 (rw (check_policy, e, f) at h),
          )
          | inr f ↦ inr (elim (Bool-cases (str_eq p.policy_type "risk_rule")) [
            | inl g ↦ inl (
              (eq_iff p.policy_type "risk_rule").0 g,
              (check_risk_iff p.config data_).0 (rw (check_policy, e, f, g) at h),
            )
            | inr g ↦ inr (elim (Bool-cases (str_eq p.policy_type "prompt_pattern")) [
              | inl k ↦ (
                (eq_iff p.policy_type "prompt_pattern").0 k,
                (check_pattern_iff p.config data_).0 (rw (check_policy, e, f, g, k) at h),
              )
              | inr k ↦ absurd (ground (arith, rw (check_policy, e, f, g, k) at h))
            ])
          ])
        ])
      ]

      back : Triggers p data_ → is_triggered (check_policy m p data_) ≡ true
      back (inl (e, h)) =
          let t = (eq_iff p.policy_type "allowlist").1 e in
          rw (check_policy, t) ((check_allowlist_iff p.config data_).1 h)
      back (inr (inl (e, h))) =
          rw (check_policy, differs "allowlist" e refl, (eq_iff p.policy_type "blocklist").1 e)
            ((check_blocklist_iff p.config data_).1 h)
      back (inr (inr (inl (e, h)))) =
          rw
            (
              check_policy,
              differs "allowlist" e refl,
              differs "blocklist" e refl,
              (eq_iff p.policy_type "risk_rule").1 e,
            )
            ((check_risk_iff p.config data_).1 h)
      back (inr (inr (inr (e, h)))) =
          rw
            (
              check_policy,
              differs "allowlist" e refl,
              differs "blocklist" e refl,
              differs "risk_rule" e refl,
              (eq_iff p.policy_type "prompt_pattern").1 e,
            )
            ((check_pattern_iff p.config data_).1 h)
