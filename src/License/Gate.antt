-- ===== src/License/Gate.antt =====
-- What a request that passes the gate on plans shows of the licence.
use mathlib.Core.Path.{subst}
use mathlib.Core.List.{append-nil, append_assoc}
use lineagelens.Prelude.{
  List, ◌∷◌, ◌++◌, any, ◌==◌, ◌∙◌, refl, ◌⊎◌, Option, none, ℕ, suc, ◌≤◌, min, String, ◌≡◌, inl, inr,
  sym, ap, true, some, [], arith, leb, Bool-cases, Option-cases, of_some,
}
use lineagelens.License.{Licensing, plan_rank, Entitlement, free, is_empty, no_license}
use lineagelens.License.Verify.{public_key}
use lineagelens.License.Plans.{
  Environment, PlanRequest, cache_after, read_entitlement, license_key, load_entitlement,
  mode_ceiling, or_zero, effective_plan, passes_gate, require_plan,
}
use lineagelens.License.Signed.{Vouched, IsGranted, verify_license-Vouched}

-- The rank of a plan, with that of the free plan for a plan that is not known.
abbrev pub rank_of : String → ℕ
rank_of plan = or_zero (plan_rank plan)

pub effective_plan_lem :
    (e : Entitlement) (mode : String)
    → rank_of (effective_plan e mode) ≡ min (rank_of e.plan) (rank_of (mode_ceiling mode))
unfolding effective_plan
effective_plan_lem e mode = elim (Bool-cases (leb (rank_of e.plan) (rank_of (mode_ceiling mode)))) [
  | inl fits ↦ rw fits (ground arith)
  | inr over ↦ rw over (ground arith)
]

passes_gate-rank :
    (needed : ℕ) (current : String)
    → passes_gate true needed current ≡ true
    → needed ≤ rank_of current
unfolding passes_gate
passes_gate-rank needed current h = elim (Option-cases (plan_rank current)) [
  | inl unknown ↦ absurd (ground (arith, h, unknown))
  | inr (rank, known) ↦ ground (arith, h, known)
]

paid-IsGranted :
    (l : Licensing) (today : ℕ) (e : Entitlement) (n : ℕ)
    → suc n ≤ rank_of e.plan
    → IsGranted l today e
unfolding free plan_rank
paid-IsGranted l today e n h why same =
    let zero_rank : rank_of e.plan ≡ 0 = ap (λ (x : Entitlement). rank_of x.plan) (sym same) in
    omega (arith, zero_rank, h)

read_entitlement-Vouched :
    (l : Licensing) (env : Environment) (today : ℕ) (e : Entitlement)
    → read_entitlement l env today ≡ some e
    → IsGranted l today e
    → Vouched l today (public_key l [] env.license_public_key) e
unfolding read_entitlement
read_entitlement-Vouched l env today e h granted =
    elim (Bool-cases (is_empty (license_key l env))) [
      | inl absent ↦ absurd (granted no_license (of_some (rw absent at h)))
      | inr present ↦
          verify_license-Vouched l today (license_key l env) [] env.license_public_key e
            (rw present at h) granted
    ]

module _ (l : Licensing) (env : Environment) (mode : String) where
  -- The entitlement was read from the environment on the day of one of the requests.
  abbrev pub IsLoaded : List PlanRequest → Entitlement → Type 0
  IsLoaded requests e =
      (day : ℕ) × (any (λ r. r.today == day) requests ≡ true)
      × (read_entitlement l env day ≡ some e)

  -- The cache holds what one of the requests loaded, if anything.
  abbrev AreLoaded : List PlanRequest → Option Entitlement → Type 0
  AreLoaded requests cached = (e : Entitlement) → cached ≡ some e → IsLoaded requests e

  IsLoaded-append :
      (requests more : List PlanRequest) (e : Entitlement)
      → IsLoaded requests e
      → IsLoaded (requests ++ more) e
  IsLoaded-append requests more e (day, found, loaded) = (day, grow requests found, loaded)
    where
      grow :
          (rs : List PlanRequest)
          → any (λ r. r.today == day) rs ≡ true
          → any (λ r. r.today == day) (rs ++ more) ≡ true
      grow [] h = absurd (ground (arith, h))
      grow (r ∷ rs) h = elim (Bool-cases (r.today == day)) [
        | inl here ↦ rw here refl
        | inr other ↦ rw other (grow rs (ground (arith, h, other)))
      ]

  any_last :
      (requests : List PlanRequest) (r : PlanRequest)
      → any (λ x. x.today == r.today) (requests ++ r ∷ []) ≡ true
  any_last [] r = ground arith
  any_last (x ∷ requests) r = ground (arith, any_last requests r)

  load_entitlement-IsLoaded :
      (past : List PlanRequest) (r : PlanRequest) (cached : Option Entitlement) (e : Entitlement)
      → AreLoaded past cached
      → load_entitlement l env r.today cached ≡ some e
      → IsLoaded (past ++ r ∷ []) e
  unfolding load_entitlement
  load_entitlement-IsLoaded past r none e h loaded = (r.today, any_last past r, loaded)
  load_entitlement-IsLoaded past r (some kept) e h loaded =
      IsLoaded-append past (r ∷ []) e (h e loaded)

  -- A request leaves the cache, or leaves in it what it loaded.
  require_plan_cases :
      (r : PlanRequest) (cached : Option Entitlement)
      → ((require_plan l env mode r cached).1 ≡ cached)
        ⊎ ((e : Entitlement) × (load_entitlement l env r.today cached ≡ some e)
            × ((require_plan l env mode r cached).1 ≡ some e))
  unfolding require_plan
  require_plan_cases r cached = elim (Option-cases (plan_rank r.min_plan)) [
    | inl unknown ↦ inl (rw (require_plan, unknown) refl)
    | inr (needed, known) ↦ elim (Bool-cases r.license_enforcement) [
      | inr off ↦ inl (rw (require_plan, known, off) refl)
      | inl on ↦ elim (Option-cases (load_entitlement l env r.today cached)) [
        | inl raised ↦ inl (rw (require_plan, known, on, raised) refl)
        | inr (e, loaded) ↦ inr (e, loaded, rw (require_plan, known, on, loaded) refl)
      ]
    ]
  ]

  require_plan-AreLoaded :
      (past : List PlanRequest) (r : PlanRequest) (cached : Option Entitlement)
      → AreLoaded past cached
      → AreLoaded (past ++ r ∷ []) (require_plan l env mode r cached).1
  require_plan-AreLoaded past r cached h e same = elim (require_plan_cases r cached) [
    | inl kept ↦ IsLoaded-append past (r ∷ []) e (h e (sym kept ∙ same))
    | inr (x, loaded, kept) ↦ load_entitlement-IsLoaded past r cached e h (loaded ∙ sym kept ∙ same)
  ]

  cache_after-AreLoaded :
      (past requests : List PlanRequest) (cached : Option Entitlement)
      → AreLoaded past cached
      → AreLoaded (past ++ requests) (cache_after l env mode requests cached)
  unfolding cache_after
  cache_after-AreLoaded past [] cached h =
      subst (λ rs. AreLoaded rs cached) (sym (append-nil past)) h
  cache_after-AreLoaded past (r ∷ requests) cached h =
      subst
        (λ rs. AreLoaded rs (cache_after l env mode requests (require_plan l env mode r cached).1))
        (append_assoc past (r ∷ []) requests)
        (cache_after-AreLoaded (past ++ r ∷ []) requests (require_plan l env mode r cached).1
          (require_plan-AreLoaded past r cached h))

  -- In a process whose environment does not change, a request with enforcement on that passes the
  -- gate of a paid plan, after any requests to gates, does so by an entitlement that was read from
  -- the environment on the day of one of those requests or of its own: the key in force verifies a
  -- statement of the issuer that names its plan and that is not over on that day, unless it is
  -- perpetual; the plan is at least the one that is asked for, and so is the ceiling of the deployed
  -- mode.
  pub require_plan-Vouched :
      (earlier : List PlanRequest) (r : PlanRequest) (n : ℕ)
      → plan_rank r.min_plan ≡ some (suc n)
      → r.license_enforcement ≡ true
      → (require_plan l env mode r (cache_after l env mode earlier none)).0 ≡ some true
      → (e : Entitlement) × (day : ℕ) × (any (λ x. x.today == day) (earlier ++ r ∷ []) ≡ true)
        × (read_entitlement l env day ≡ some e)
        × Vouched l day (public_key l [] env.license_public_key) e
        × (suc n ≤ rank_of e.plan)
        × (suc n ≤ rank_of (mode_ceiling mode))
  unfolding require_plan
  require_plan-Vouched earlier r n paid on h =
      let cached = cache_after l env mode earlier none in
      let held = cache_after-AreLoaded [] earlier none (λ e same. absurd (ground (arith, same))) in
      elim (Option-cases (load_entitlement l env r.today cached)) [
        | inl raised ↦ absurd (ground (arith, rw (require_plan, paid, on, raised) at h))
        | inr (e, loaded) ↦
            let passed : passes_gate true (suc n) (effective_plan e mode) ≡ true =
              ap (λ b. passes_gate b (suc n) (effective_plan e mode)) (sym on)
              ∙ of_some (rw (require_plan, paid, on, loaded) at h) in
            let enough = passes_gate-rank (suc n) (effective_plan e mode) passed in
            let least = effective_plan_lem e mode in
            let entitled : suc n ≤ rank_of e.plan = omega (arith, enough, least) in
            let (day, found, read) = load_entitlement-IsLoaded earlier r cached e held loaded in
            (
              e,
              day,
              found,
              read,
              read_entitlement-Vouched l env day e read (paid-IsGranted l day e n entitled),
              entitled,
              omega (arith, enough, least),
            )
      ]
