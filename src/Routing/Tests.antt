-- ===== src/Routing/Tests.antt =====
-- A policy that is disabled after the first refresh.
use lineagelens.Prelude.{
  ℕ, String, ◌≡◌, ◌≢◌, refl, true, false, Bool, Option, none, some, List, [], ◌∷◌, arith, eq_iff,
}
use lineagelens.Routing.{
  RoutingPolicy, get_routing_policies_internal, get_entry, put_entry, store, store_all, refresh_all,
  served, get_policy,
}
use lineagelens.Routing.Fetched.{latest}
use lineagelens.Routing.Latest.{latest_all, refreshes, get_policy-latest_all}

abbrev row : Bool → RoutingPolicy ℕ
row enabled = record { workspace_id = "w"; provider = "openai"; mappings = 1; enabled = enabled }

abbrev states : List (ℕ × List (RoutingPolicy ℕ))
states = (1, row true ∷ []) ∷ (2, row false ∷ []) ∷ []

still_served :
    (get_policy 60 "w" "openai" 3 3
      (get_routing_policies_internal (some "w") (some "openai") (row false ∷ []))
      (refreshes states [])).policy
    ≡ some (row true)
unfolding get_policy get_routing_policies_internal refresh_all store_all store put_entry get_entry
    served
still_served = refl

w_ne : ◌≢◌ {A = String} "w" ""
w_ne e = ground (arith, e, eq_iff "w" "")

openai_ne : ◌≢◌ {A = String} "openai" ""
openai_ne e = ground (arith, e, eq_iff "openai" "")

get_policy-latest_all_example :
    (get_policy 60 "w" "openai" 3 3
      (get_routing_policies_internal (some "w") (some "openai") (row false ∷ []))
      (refreshes states [])).policy
    ≡ elim (latest_all "w" "openai" states none) as (λ o. Option (RoutingPolicy ℕ)) [
      | none ↦ latest "w" "openai" (row false ∷ []) none
      | some p ↦ some p
    ]
get_policy-latest_all_example =
    get_policy-latest_all "w" "openai" w_ne openai_ne 60 3 3 states (row false ∷ [])
