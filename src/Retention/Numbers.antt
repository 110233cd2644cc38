-- ===== src/Retention/Numbers.antt =====
-- The open version of a retention policy has the largest number.
use lineagelens.Prelude.{
  ℕ, ◌+◌, ◌≤◌, ◌<◌, ◌≡◌, refl, ap, Bool, true, false, ◌&&◌, Option, none, some, List, [], ◌∷◌, ◌++◌,
  map, ltb, ◌==◌, arith, All, Bool-cases, Option-cases, inl, inr,
}
use lineagelens.PolicyVersions.{is_open}
use lineagelens.Retention.Versions.{
  RetentionPolicyVersion, open_retention_version, supersede_retention,
}

-- An open version of the policy.
abbrev pub is_current : ℕ → RetentionPolicyVersion → Bool
is_current id v = (v.policy_id == id) && is_open v.superseded_at

-- The open versions of the policy are numbered below `n`.
abbrev pub AllBelow : ℕ → ℕ → List RetentionPolicyVersion → Type 0
AllBelow id n = All (λ v. is_current id v ≡ true → v.version < n)

pub open_retention_version-append :
    (id n : ℕ) (rows : List RetentionPolicyVersion) (new : RetentionPolicyVersion)
    → AllBelow id n rows
    → new.version ≡ n
    → is_current id new ≡ true
    → open_retention_version id (rows ++ new ∷ []) ≡ some new
unfolding open_retention_version
open_retention_version-append id n [] new h e c = rw c refl
open_retention_version-append id n (v ∷ rows) new h e c =
    let rest = open_retention_version-append id n rows new h.1 e c in
    elim (Bool-cases (is_current id v)) [
      | inr other ↦ rw (other, rest) refl
      | inl own ↦
          let lower : v.version < n = h.0 own in
          let below : ltb new.version v.version ≡ false = ground (arith, lower, e) in
          rw (own, rest, below) refl
    ]

AllBelow-mono :
    (id n m : ℕ) (rows : List RetentionPolicyVersion)
    → n ≤ m
    → AllBelow id n rows
    → AllBelow id m rows
AllBelow-mono id n m [] le h = tt
AllBelow-mono id n m (v ∷ rows) le h =
    (λ c. let lower = h.0 c in omega (arith, lower, le), AllBelow-mono id n m rows le h.1)

pub AllBelow-none :
    (id n : ℕ) (rows : List RetentionPolicyVersion)
    → open_retention_version id rows ≡ none
    → AllBelow id n rows
unfolding open_retention_version
AllBelow-none id n [] h = tt
AllBelow-none id n (v ∷ rows) h = elim (Bool-cases (is_current id v)) [
  | inr other ↦
      (λ c. absurd (ground (arith, c, other)), AllBelow-none id n rows (ground (arith, h, other)))
  | inl own ↦ elim (Option-cases (open_retention_version id rows)) [
    | inl nothing ↦ absurd (ground (arith, h, own, nothing))
    | inr (w, found) ↦ absurd (ground (arith, h, own, found))
  ]
]

pub AllBelow-some :
    (id : ℕ) (rows : List RetentionPolicyVersion) (prev : RetentionPolicyVersion)
    → open_retention_version id rows ≡ some prev
    → AllBelow id (prev.version + 1) rows
unfolding open_retention_version
AllBelow-some id [] prev h = absurd (ground (arith, h))
AllBelow-some id (v ∷ rows) prev h = elim (Bool-cases (is_current id v)) [
  | inr other ↦ (
    λ c. absurd (ground (arith, c, other)),
    AllBelow-some id rows prev (ground (arith, h, other)),
  )
  | inl own ↦ elim (Option-cases (open_retention_version id rows)) [
    | inl nothing ↦
        let same : v ≡ prev = ground (arith, h, own, nothing) in
        let number = ap (λ r. r.version) same in
        (λ c. omega (arith, number), AllBelow-none id (prev.version + 1) rows nothing)
    | inr (w, found) ↦ elim (Bool-cases (ltb w.version v.version)) [
      | inl larger ↦
          let same : v ≡ prev = ground (arith, h, own, found, larger) in
          let number = ap (λ r. r.version) same in
          let lower : w.version < v.version = ground (arith, larger) in
          (
            λ c. omega (arith, number),
            AllBelow-mono id (w.version + 1) (prev.version + 1) rows (omega (arith, number, lower))
                (AllBelow-some id rows w found),
          )
      | inr smaller ↦
          let same : w ≡ prev = ground (arith, h, own, found, smaller) in
          let number = ap (λ r. r.version) same in
          let upper : v.version ≤ w.version = ground (arith, smaller) in
          (
            λ c. omega (arith, number, upper),
            AllBelow-mono id (w.version + 1) (prev.version + 1) rows (omega (arith, number))
                (AllBelow-some id rows w found),
          )
    ]
  ]
]

pub AllBelow-supersede_retention :
    (id n now : ℕ) (prev : Option RetentionPolicyVersion) (rows : List RetentionPolicyVersion)
    → AllBelow id n rows
    → AllBelow id n (map (supersede_retention prev now) rows)
unfolding supersede_retention
AllBelow-supersede_retention id n now prev [] h = tt
AllBelow-supersede_retention id n now none (v ∷ rows) h =
    (h.0, AllBelow-supersede_retention id n now none rows h.1)
AllBelow-supersede_retention id n now (some prev) (v ∷ rows) h =
    let rest = AllBelow-supersede_retention id n now (some prev) rows h.1 in
    elim (Bool-cases ((v.policy_id == prev.policy_id) && (v.version == prev.version))) [
      | inl closed ↦ (λ c. absurd (ground (arith, c, closed)), rest)
      | inr kept ↦ (rw kept h.0, rest)
    ]
