-- ===== src/Retention/Current.antt =====
-- What a written retention policy reads as, and the version that stands for it.
use lineagelens.Prelude.{
  ◌+◌, any, true, ◌++◌, ℕ, String, ◌≡◌, refl, sym, ap, ◌∙◌, Bool, false, Option, none, some, List,
  [], ◌∷◌, map, str_eq, arith, eq_iff, Bool-cases, Option-cases, inl, inr,
}
use lineagelens.Retention.{RetentionPolicy}
use lineagelens.Retention.Versions.{
  has_number, RetentionPolicyVersion, open_retention_version, supersede_retention,
  next_retention_version, Tables, get_retention_policy, put_policy, append_retention_version,
  versioned, upsert_retention_policy,
}
use lineagelens.Retention.Numbers.{
  AllBelow, open_retention_version-append, AllBelow-none, AllBelow-some,
  AllBelow-supersede_retention,
}
use lineagelens.Retention.Settled.{is_settled, IsLast, number_free, all_superseded, settled-append}

get_retention_policy-put_policy :
    (ws : String) (p : RetentionPolicy) (policies : List RetentionPolicy)
    → p.workspace_id ≡ ws
    → get_retention_policy ws (put_policy p policies) ≡ some p
unfolding get_retention_policy put_policy
get_retention_policy-put_policy ws p [] e = ground (arith, eq_iff p.workspace_id ws, e)
get_retention_policy-put_policy ws p (old ∷ policies) e =
    elim (Bool-cases (str_eq old.workspace_id p.workspace_id)) [
      | inl here ↦ ground (arith, here, eq_iff p.workspace_id ws, e)
      | inr other ↦
          let apart : str_eq old.workspace_id ws ≡ false =
            ap (str_eq old.workspace_id) (sym e) ∙ other in
          rw (other, apart) (get_retention_policy-put_policy ws p policies e)
    ]

get_retention_policy-workspace_id :
    (ws : String) (policies : List RetentionPolicy) (p : RetentionPolicy)
    → get_retention_policy ws policies ≡ some p
    → p.workspace_id ≡ ws
unfolding get_retention_policy
get_retention_policy-workspace_id ws [] p e = absurd (ground (arith, e))
get_retention_policy-workspace_id ws (x ∷ policies) p e =
    elim (Bool-cases (str_eq x.workspace_id ws)) [
      | inl here ↦
          let same : x ≡ p = ground (arith, e, here) in
          ap (λ r. r.workspace_id) (sym same) ∙ (eq_iff x.workspace_id ws).0 here
      | inr other ↦ get_retention_policy-workspace_id ws policies p (ground (arith, e, other))
    ]

-- The id and the last number of the versions of a policy, or of a new one.
abbrev pub last_version : ℕ → Option RetentionPolicy → ℕ × ℕ
last_version fresh_id none = (fresh_id, 0)
last_version fresh_id (some p) = (p.id, p.current_version)

module _ (compute_retention_digest : ℕ → Option ℕ → String) where
  -- The policy of the workspace has these settings and this version, and the version that is open for
  -- it has the number, the settings and their digest.
  pub record IsCurrent (ws : String) (retain_days : ℕ) (redact_after_days : Option ℕ)
      (enabled : Bool) (id n : ℕ) (tables : Tables) : Type 0 where
    pub policy : RetentionPolicy
    pub version : RetentionPolicyVersion
    pub stored : get_retention_policy ws tables.policies ≡ some policy
    pub numbered : (policy.id ≡ id) × (policy.current_version ≡ n)
    pub settings :
        (policy.retain_days ≡ retain_days)
        × (policy.redact_after_days ≡ redact_after_days)
        × (policy.enabled ≡ enabled)
    pub opened : open_retention_version id tables.versions ≡ some version
    pub version_number : version.version ≡ n
    pub version_settings :
        (version.retain_days ≡ retain_days)
        × (version.redact_after_days ≡ redact_after_days)
        × (version.enabled ≡ enabled)
    pub version_digest : version.digest ≡ compute_retention_digest retain_days redact_after_days

  versioned-IsCurrent :
      (ws : String) (policy : RetentionPolicy) (change_type : String) (now n : ℕ) (tables : Tables)
      → policy.workspace_id ≡ ws
      → IsLast policy.id n tables.versions
      → (tables' : Tables) × (versioned compute_retention_digest policy change_type now tables
          ≡ some tables')
        × IsCurrent ws policy.retain_days policy.redact_after_days policy.enabled policy.id
            (n + 1)
            tables'
        × IsLast policy.id (n + 1) tables'.versions
  unfolding versioned append_retention_version
  versioned-IsCurrent ws policy change_type now n tables e last =
      let rows = tables.versions in
      let prev = open_retention_version policy.id rows in
      let number = next_retention_version prev in
      let version : RetentionPolicyVersion = record {
        policy_id = policy.id;
        workspace_id = policy.workspace_id;
        version = number;
        change_type = change_type;
        retain_days = policy.retain_days;
        redact_after_days = policy.redact_after_days;
        enabled = policy.enabled;
        digest = compute_retention_digest policy.retain_days policy.redact_after_days;
        created_by = none;
        superseded_at = none;
      } in
      let changed = record policy { current_version = number } in
      let versions = map (supersede_retention prev now) rows ++ version ∷ [] in
      let free : any (has_number policy.id number) rows ≡ false =
        ap (λ k. any (has_number policy.id k) rows) last.0 ∙ number_free policy.id n rows last.1 in
      let below : AllBelow policy.id number rows = elim (Option-cases prev) [
        | inl nothing ↦ rw nothing (AllBelow-none policy.id 1 rows nothing)
        | inr (w, found) ↦ rw found (AllBelow-some policy.id rows w found)
      ] in
      let opened =
        open_retention_version-append policy.id number (map (supersede_retention prev now) rows)
          version (AllBelow-supersede_retention policy.id number now prev rows below) refl
          (ground arith) in
      let number_settled : is_settled policy.id (n + 1) version ≡ true =
        let next = last.0 in ground (arith, next) in
      (
        record { policies = put_policy changed tables.policies; versions = versions },
        rw (versioned, append_retention_version, free) refl,
        record {
          policy = changed;
          version = version;
          stored = get_retention_policy-put_policy ws changed tables.policies e;
          numbered = (refl, last.0);
          settings = (refl, refl, refl);
          opened = opened;
          version_number = last.0;
          version_settings = (refl, refl, refl);
          version_digest = refl;
        },
        (
          ap next_retention_version opened ∙ ap (λ k. k + 1) last.0,
          settled-append policy.id (n + 1) (map (supersede_retention prev now) rows) version
              (all_superseded policy.id n now rows last) number_settled,
        ),
      )

  -- Where the version that the policy names is its last, and the only one that may be open, writing
  -- the policy of a workspace succeeds and leaves it so: the policy is read back with the written
  -- settings and the next number, the version with this number, these settings and their digest is
  -- found as its open one, and every earlier version of it is superseded. The same holds of a
  -- workspace without a policy, whose new row gets an id that no version has, and the number 1.
  pub upsert_retention_policy-IsCurrent :
      (fresh_id now : ℕ) (ws : String) (retain_days : ℕ) (redact_after_days : Option ℕ)
      (enabled : Bool) (tables : Tables)
      → let (id, n) = last_version fresh_id (get_retention_policy ws tables.policies) in
        IsLast id n tables.versions
        → (tables' : Tables) × (upsert_retention_policy compute_retention_digest fresh_id now ws
              retain_days redact_after_days enabled tables
            ≡ some tables')
          × IsCurrent ws retain_days redact_after_days enabled id (n + 1) tables'
          × IsLast id (n + 1) tables'.versions
  unfolding upsert_retention_policy
  upsert_retention_policy-IsCurrent fresh_id now ws retain_days redact_after_days enabled tables =
      elim (Option-cases (get_retention_policy ws tables.policies)) [
        | inl absent ↦
            rw (upsert_retention_policy, absent)
              (versioned-IsCurrent ws
                record {
                  id = fresh_id;
                  workspace_id = ws;
                  retain_days = retain_days;
                  redact_after_days = redact_after_days;
                  enabled = enabled;
                  current_version = 1;
                }
                "create" now 0 tables refl)
        | inr (existing, found) ↦
            rw (upsert_retention_policy, found)
              (versioned-IsCurrent ws
                (record existing {
                  retain_days = retain_days;
                  redact_after_days = redact_after_days;
                  enabled = enabled;
                })
                "update" now existing.current_version tables
                (get_retention_policy-workspace_id ws tables.policies existing found))
      ]
