-- ===== src/Retention/Settled.antt =====
-- The numbers of the versions of a retention policy, and which of them may be open.
use lineagelens.Prelude.{
  ◌+◌, ◌==◌, ◌&&◌, ◌||◌, not, leb, ltb, any, All, true, ◌++◌, of_some, ℕ, ◌≡◌, refl, sym, ap, ◌∙◌,
  Bool, false, none, some, List, [], ◌∷◌, map, arith, Bool-cases, Option-cases, inl, inr,
}
use lineagelens.PolicyVersions.{is_open}
use lineagelens.Retention.Versions.{
  has_number, RetentionPolicyVersion, open_retention_version, supersede_retention,
  next_retention_version,
}
use lineagelens.Retention.Numbers.{AllBelow, is_current, AllBelow-none}

-- A version of another policy, or one that is numbered up to `n` and open only if it has this number.
abbrev pub is_settled : ℕ → ℕ → RetentionPolicyVersion → Bool
is_settled id n v =
    not (v.policy_id == id)
    || (leb v.version n && (not (is_open v.superseded_at) || v.version == n))

-- `n` is the last number that the policy has, and its next version is numbered after it.
abbrev pub IsLast : ℕ → ℕ → List RetentionPolicyVersion → Type 0
IsLast id n rows =
    (next_retention_version (open_retention_version id rows) ≡ n + 1)
    × All (λ v. is_settled id n v ≡ true) rows

pub number_free :
    (id n : ℕ) (rows : List RetentionPolicyVersion)
    → All (λ v. is_settled id n v ≡ true) rows
    → any (has_number id (n + 1)) rows ≡ false
number_free id n [] h = refl
number_free id n (v ∷ rows) h = ground (arith, h.0, number_free id n rows h.1)

open_retention_version-policy_id :
    (id : ℕ) (rows : List RetentionPolicyVersion) (w : RetentionPolicyVersion)
    → open_retention_version id rows ≡ some w
    → w.policy_id ≡ id
unfolding open_retention_version
open_retention_version-policy_id id [] w h = absurd (ground (arith, h))
open_retention_version-policy_id id (v ∷ rows) w h =
    elim (Bool-cases ((v.policy_id == id) && is_open v.superseded_at)) [
      | inr other ↦ open_retention_version-policy_id id rows w (rw other at h)
      | inl own ↦
          let here : v.policy_id ≡ id = ground (arith, own) in
          elim (Option-cases (open_retention_version id rows)) [
            | inl nothing ↦ ap (λ r. r.policy_id) (sym (of_some (rw (own, nothing) at h))) ∙ here
            | inr (x, found) ↦ elim (Bool-cases (ltb x.version v.version)) [
              | inl larger ↦
                  ap (λ r. r.policy_id) (sym (of_some (rw (own, found, larger) at h))) ∙ here
              | inr smaller ↦
                  ap (λ r. r.policy_id) (sym (of_some (rw (own, found, smaller) at h)))
                  ∙ open_retention_version-policy_id id rows x found
            ]
          ]
    ]

supersede-settled :
    (id n now : ℕ) (w v : RetentionPolicyVersion)
    → w.policy_id ≡ id
    → w.version ≡ n
    → is_settled id n v ≡ true
    → is_settled id (n + 1) (supersede_retention (some w) now v) ≡ true
unfolding supersede_retention
supersede-settled id n now w v e f h =
    elim (Bool-cases ((v.policy_id == w.policy_id) && (v.version == w.version))) [
      | inl same ↦ rw same (ground (arith, h))
      | inr apart ↦ rw apart (ground (arith, h, e, f, apart))
    ]

pub settled-append :
    (id n : ℕ) (rows : List RetentionPolicyVersion) (new : RetentionPolicyVersion)
    → All (λ v. is_settled id n v ≡ true) rows
    → is_settled id n new ≡ true
    → All (λ v. is_settled id n v ≡ true) (rows ++ new ∷ [])
settled-append id n [] new h e = (e, tt)
settled-append id n (v ∷ rows) new h e = (h.0, settled-append id n rows new h.1 e)

map_settled :
    (id n now : ℕ) (w : RetentionPolicyVersion) (rows : List RetentionPolicyVersion)
    → w.policy_id ≡ id
    → w.version ≡ n
    → All (λ v. is_settled id n v ≡ true) rows
    → All (λ v. is_settled id (n + 1) v ≡ true) (map (supersede_retention (some w) now) rows)
map_settled id n now w [] e f h = tt
map_settled id n now w (v ∷ rows) e f h =
    (supersede-settled id n now w v e f h.0, map_settled id n now w rows e f h.1)

-- Without an open version there is none to supersede.
none_settled :
    (id n now : ℕ) (rows : List RetentionPolicyVersion)
    → AllBelow id 0 rows
    → All (λ v. is_settled id n v ≡ true) rows
    → All (λ v. is_settled id (n + 1) v ≡ true) (map (supersede_retention none now) rows)
unfolding supersede_retention
none_settled id n now [] below h = tt
none_settled id n now (v ∷ rows) below h = elim (Bool-cases (is_current id v)) [
  | inl own ↦ let absurd_ = below.0 own in absurd (omega (arith, absurd_))
  | inr other ↦ (ground (arith, h.0, other), none_settled id n now rows below.1 h.1)
]

pub all_superseded :
    (id n now : ℕ) (rows : List RetentionPolicyVersion)
    → IsLast id n rows
    → All
        (λ v. is_settled id (n + 1) v ≡ true)
        (map (supersede_retention (open_retention_version id rows) now) rows)
all_superseded id n now rows (next, h) = elim (Option-cases (open_retention_version id rows)) [
  | inl nothing ↦ rw nothing (none_settled id n now rows (AllBelow-none id 0 rows nothing) h)
  | inr (w, found) ↦
      let number : w.version ≡ n = let e = rw found at next in omega (arith, e) in
      rw found
        (map_settled id n now w rows (open_retention_version-policy_id id rows w found) number h)
]
