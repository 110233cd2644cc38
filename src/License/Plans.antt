-- ===== src/License/Plans.antt =====
-- The licence of the environment, and the gate on plans.
use lineagelens.Prelude.{
  ℕ, String, Bool, true, Option, none, some, List, [], ◌∷◌, ltb, leb, not, str_eq, if◌then◌else◌,
}
use lineagelens.License.{Text, Licensing, is_empty, Entitlement, free, no_license, plan_rank}
use lineagelens.License.Verify.{verify_license}

-- The variables of the environment that matter, a variable that is not set being the empty text, and
-- the file that `LINEAGELENS_LICENSE_FILE` names, if it can be read.
pub record Environment : Type 0 where
  pub license : Text
  pub license_file : Text
  pub license_public_key : Text
  pub read_file : Text → Option Text

unfoldable pub key_of_file : Licensing → Environment → Text
key_of_file l env =
    let path = l.strip env.license_file in
    if is_empty path
    then []
    else elim (env.read_file path) [ none ↦ [] | some content ↦ l.strip content ]

-- The key that `load_entitlement` verifies.
unfoldable pub license_key : Licensing → Environment → Text
unfolding key_of_file
license_key l env = let key = l.strip env.license in if is_empty key then key_of_file l env else key

-- The body of `load_entitlement`; `none` is an exception.
unfoldable pub read_entitlement : Licensing → Environment → ℕ → Option Entitlement
unfolding license_key free
read_entitlement l env today =
    let key = license_key l env in
    if is_empty key
    then some (free no_license)
    else verify_license l key [] env.license_public_key today

-- `load_entitlement` with its `lru_cache`, which is a parameter: what the body returned before is
-- returned again, and an exception is not kept.
unfoldable pub load_entitlement :
    Licensing → Environment → ℕ → Option Entitlement → Option Entitlement
unfolding read_entitlement
load_entitlement l env today (some e) = some e
load_entitlement l env today none = read_entitlement l env today

-- `_MODE_CEILING.get(backend_mode, "plus")`
unfoldable pub mode_ceiling : String → String
mode_ceiling backend_mode =
    if str_eq backend_mode "solo"
    then "lite"
    else if str_eq backend_mode "enterprise"
    then "max"
    else "plus"

abbrev pub or_zero : Option ℕ → ℕ
or_zero none = 0
or_zero (some rank) = rank

unfoldable pub effective_plan : Entitlement → String → String
unfolding plan_rank mode_ceiling
effective_plan entitlement backend_mode =
    let ceiling = mode_ceiling backend_mode in
    if leb (or_zero (plan_rank entitlement.plan)) (or_zero (plan_rank ceiling))
    then entitlement.plan
    else ceiling

-- `PLAN_RANK.get(current, -1) < PLAN_RANK[min_plan]`
abbrev pub is_below : Option ℕ → ℕ → Bool
is_below none needed = true
is_below (some rank) needed = ltb rank needed

-- The dependency that `require_plan(min_plan)` builds, with `needed` for the rank of `min_plan`: the
-- request passes or gets the status 403.
unfoldable pub passes_gate : Bool → ℕ → String → Bool
unfolding plan_rank
passes_gate license_enforcement needed current =
    if not license_enforcement then true else not (is_below (plan_rank current) needed)

-- A request to a route with the gate.
pub record PlanRequest : Type 0 where
  pub today : ℕ
  pub license_enforcement : Bool
  pub min_plan : String

-- `require_plan` at a request: its answer, `none` for the error of an unknown plan or of the licence,
-- and the cache of the process after it.
unfoldable pub require_plan :
    Licensing
    → Environment
    → String
    → PlanRequest
    → Option Entitlement
    → Option Bool × Option Entitlement
unfolding passes_gate load_entitlement effective_plan plan_rank
require_plan l env backend_mode r cached = elim (plan_rank r.min_plan) [
  | none ↦ (none, cached)
  | some needed ↦
      if not r.license_enforcement
      then (some true, cached)
      else elim (load_entitlement l env r.today cached) [
        | none ↦ (none, cached)
        | some e ↦ (
          some (passes_gate r.license_enforcement needed (effective_plan e backend_mode)),
          some e,
        )
      ]
]

-- The cache after these requests.
unfoldable pub cache_after :
    Licensing → Environment → String → List PlanRequest → Option Entitlement → Option Entitlement
unfolding require_plan
cache_after l env mode [] cached = cached
cache_after l env mode (r ∷ requests) cached =
    cache_after l env mode requests (require_plan l env mode r cached).1
