-- ===== src/PolicyVersions/History.antt =====
-- The versions of a policy are numbered from one without a gap, and only the last is open.
use lineagelens.Prelude.{
  ℕ, suc, ◌+◌, ◌≤◌, String, ◌≡◌, refl, ap, sym, ◌∙◌, Bool, true, false, not, ◌&&◌, Option, none,
  some, List, [], ◌∷◌, ◌++◌, any, ◌==◌, str_eq, eq_iff, eq_refl, if◌then◌else◌, map, arith,
  Bool-cases, inl, inr,
}
use lineagelens.PolicyVersions.{
  StoredPolicy, PolicyVersion, Canonical, is_open, open_version, supersede, version_of,
  append_version,
}

module _ {C : Type 0} (id : String) where
  abbrev pub has_rows : List (PolicyVersion C) → Bool
  has_rows rows = any (λ v. str_eq v.policy_id id) rows

  abbrev pub count_rows : List (PolicyVersion C) → ℕ
  count_rows [] = 0
  count_rows (v ∷ rows) = if str_eq v.policy_id id then suc (count_rows rows) else count_rows rows

  -- The rows of the policy are numbered from `k` on, and a row is open if no other follows.
  unfoldable pub is_history : ℕ → List (PolicyVersion C) → Bool
  is_history k [] = true
  is_history k (v ∷ rows) =
      let rest = is_history (suc k) rows in
      let skipped = is_history k rows in
      if str_eq v.policy_id id
      then (v.version == k)
        && ((if has_rows rows then not (is_open v.superseded_at) else is_open v.superseded_at)
            && rest)
      else skipped

  open_version-none :
      (rows : List (PolicyVersion C)) → has_rows rows ≡ false → open_version id rows ≡ none
  unfolding open_version
  open_version-none [] h = refl
  open_version-none (v ∷ rows) h = ground (arith, open_version-none rows)

  count_rows_none : (rows : List (PolicyVersion C)) → has_rows rows ≡ false → count_rows rows ≡ 0
  count_rows_none [] h = refl
  count_rows_none (v ∷ rows) h = ground (arith, count_rows_none rows)

  count_rows_some : (rows : List (PolicyVersion C)) → has_rows rows ≡ true → 1 ≤ count_rows rows
  count_rows_some [] h = absurd (ground arith)
  count_rows_some (v ∷ rows) h = ground (arith, count_rows_some rows)

  open_version-some :
      (k : ℕ) (rows : List (PolicyVersion C))
      → is_history k rows ≡ true
      → has_rows rows ≡ true
      → (v : PolicyVersion C) × (open_version id rows ≡ some v)
        × (v.version + 1 ≡ k + count_rows rows)
        × (v.policy_id ≡ id)
  unfolding open_version is_history
  open_version-some k [] h own = absurd (ground arith)
  open_version-some k (v ∷ rows) h own = elim (Bool-cases (str_eq v.policy_id id)) [
    | inr foreign ↦
        let (w, e, n, i) = open_version-some k rows (ground arith) (ground arith) in
        (w, ground (arith, e), ground (arith, n), i)
    | inl mine ↦ elim (Bool-cases (has_rows rows)) [
      | inl more ↦
          let (w, e, n, i) = open_version-some (suc k) rows (ground arith) more in
          (w, ground (arith, e), ground (arith, n), i)
      | inr final ↦ (
        v,
        ground (arith, open_version-none rows final),
        ground (arith, count_rows_none rows final),
        (eq_iff v.policy_id id).0 mine,
      )
    ]
  ]

  supersede-policy_id :
      (prev : Option (PolicyVersion C)) (now : ℕ) (v : PolicyVersion C)
      → (supersede prev now v).policy_id ≡ v.policy_id
  unfolding supersede
  supersede-policy_id none now v = refl
  supersede-policy_id (some p) now v = ground arith

  has_rows-append :
      (prev : Option (PolicyVersion C)) (now : ℕ) (new : PolicyVersion C)
      (rows : List (PolicyVersion C))
      → str_eq new.policy_id id ≡ true
      → has_rows (map (supersede prev now) rows ++ new ∷ []) ≡ true
  has_rows-append prev now new [] e = ground arith
  has_rows-append prev now new (v ∷ rows) e = ground (arith, has_rows-append prev now new rows e)

  fresh_history :
      (k : ℕ) (prev : Option (PolicyVersion C)) (now : ℕ) (new : PolicyVersion C)
      (rows : List (PolicyVersion C))
      → has_rows rows ≡ false
      → str_eq new.policy_id id ≡ true
      → new.version ≡ k
      → is_open new.superseded_at ≡ true
      → is_history k (map (supersede prev now) rows ++ new ∷ []) ≡ true
  unfolding is_history
  fresh_history k prev now new [] h own number fresh = ground arith
  fresh_history k prev now new (v ∷ rows) h own number fresh =
      ground (arith, supersede-policy_id prev now v, fresh_history k prev now new rows)

  supersede_miss :
      (prev : PolicyVersion C) (now : ℕ) (v : PolicyVersion C)
      → (v.version == prev.version) ≡ false
      → supersede (some prev) now v ≡ v
  unfolding supersede
  supersede_miss prev now v miss = ground arith

  supersede_hit :
      (prev : PolicyVersion C) (now : ℕ) (v : PolicyVersion C)
      → v.policy_id ≡ prev.policy_id
      → v.version ≡ prev.version
      → (is_open (supersede (some prev) now v).superseded_at ≡ false)
        × ((supersede (some prev) now v).version ≡ v.version)
  unfolding supersede
  supersede_hit prev now v same number = (
    ground (arith, eq_iff v.policy_id prev.policy_id),
    ground (arith, eq_iff v.policy_id prev.policy_id),
  )

  next_history :
      (k : ℕ) (prev : PolicyVersion C) (now : ℕ) (new : PolicyVersion C)
      (rows : List (PolicyVersion C))
      → is_history k rows ≡ true
      → has_rows rows ≡ true
      → prev.policy_id ≡ id
      → prev.version + 1 ≡ k + count_rows rows
      → str_eq new.policy_id id ≡ true
      → new.version ≡ k + count_rows rows
      → is_open new.superseded_at ≡ true
      → is_history k (map (supersede (some prev) now) rows ++ new ∷ []) ≡ true
  unfolding is_history
  next_history k prev now new [] h own same at mine number fresh = absurd (ground arith)
  next_history k prev now new (v ∷ rows) h own same at mine number fresh =
      let tail = map (supersede (some prev) now) rows ++ new ∷ [] in
      elim (Bool-cases (str_eq v.policy_id id)) [
        | inr foreign ↦
            ground (arith, supersede-policy_id (some prev) now v, next_history k prev now new rows)
        | inl ours ↦
            let kept = has_rows-append (some prev) now new rows mine in
            elim (Bool-cases (has_rows rows)) [
              | inl more ↦
                  let some_rows = count_rows_some rows more in
                  let miss : (v.version == prev.version) ≡ false = ground arith in
                  ground (
                    arith,
                    supersede_miss prev now v miss,
                    kept,
                    next_history (suc k) prev now new rows,
                  )
              | inr final ↦
                  let no_rows = count_rows_none rows final in
                  let hit : v.version ≡ prev.version = ground arith in
                  let mine_v : v.policy_id ≡ prev.policy_id =
                    (eq_iff v.policy_id id).0 ours ∙ sym same in
                  ground (
                    arith,
                    supersede_hit prev now v mine_v hit,
                    supersede-policy_id (some prev) now v,
                    kept,
                    fresh_history (suc k) (some prev) now new rows,
                  )
            ]
      ]

module _ {C : Type 0} (sha256_dumps : Canonical C → String) where
  -- Where the versions of a policy are numbered from one and only the last of them is open, a further
  -- version leaves them so, and the policy points to its number, which is one more than there were.
  pub append_version-is_history :
      (policy : StoredPolicy C) (change_type : String) (created_by : Option String) (now : ℕ)
      (rows : List (PolicyVersion C))
      → is_history policy.id 1 rows ≡ true
      → let after = append_version sha256_dumps policy change_type created_by now rows in
        (is_history policy.id 1 after.1 ≡ true)
        × (after.0.current_version ≡ some (count_rows policy.id rows + 1))
  unfolding append_version version_of
  append_version-is_history policy change_type created_by now rows h =
      let new = λ (n : ℕ). version_of sha256_dumps policy change_type created_by n in
      elim (Bool-cases (has_rows policy.id rows)) [
        | inr first ↦
            let none_open = open_version-none policy.id rows first in
            let zero_rows = count_rows_none policy.id rows first in
            rw none_open (
              fresh_history policy.id 1 none now (new 1) rows first (eq_refl policy.id) refl refl,
              ap (λ n. some (n + 1)) (sym zero_rows),
            )
        | inl some_rows ↦
            let (prev, e, n, i) = open_version-some policy.id 1 rows h some_rows in
            rw e (
              next_history policy.id 1 prev now (new (prev.version + 1)) rows h some_rows i n
                  (eq_refl policy.id) n refl,
              ap some (n ∙ omega arith),
            )
      ]
