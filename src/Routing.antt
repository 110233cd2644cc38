-- ===== src/Routing.antt =====
-- Routing policies: what the backend hands out (`get_routing_policies_internal` of
-- lineagelens-backend/app/api/routes/policies.py), and the cache of the proxy
-- (lineagelens-proxy/routing_cache.py). `M` is the type of a policy's mappings; the clock is in
-- whole units. A fetch gives the policies of the answer, none for any failure.
pub mod Fetched
pub mod Latest
mod Tests
use lineagelens.Prelude.{
  ℕ, ◌+◌, String, Bool, true, false, not, ◌&&◌, ◌||◌, Option, none, some, List, [], ◌∷◌, str_eq,
  ltb, if◌then◌else◌, filter,
}
use lineagelens.Attestation.{text_or}

-- A row of `routing_policies`, and its JSON, which the proxy reads back as it was written.
pub record RoutingPolicy (M : Type 0) : Type 0 where
  pub workspace_id : String
  pub provider : String
  pub mappings : M
  pub enabled : Bool

pub record Entry (M : Type 0) : Type 0 where
  pub policy : RoutingPolicy M
  pub fetched_at : ℕ

-- `_cache`, whose keys are pairs.
abbrev pub Cache : Type 0 → Type 0
Cache M = List ((String × String) × Entry M)

-- An argument that is absent or empty does not restrict.
abbrev pub admits : Option String → String → Bool
admits wanted value = str_eq (text_or wanted "") "" || str_eq value (text_or wanted "")

abbrev pub same_key : String → String → String → String → Bool
same_key ws provider ws' provider' = str_eq ws ws' && str_eq provider provider'

-- The answer of `get_policy`, the cache after it, and whether it starts a refresh.
pub record Answer (M : Type 0) : Type 0 where
  pub policy : Option (RoutingPolicy M)
  pub cache : Cache M
  pub refreshes : Bool

module _ {M : Type 0} where
  -- The policies of the answer.
  unfoldable pub get_routing_policies_internal :
      Option String → Option String → List (RoutingPolicy M) → List (RoutingPolicy M)
  get_routing_policies_internal workspace_id provider rows =
      filter (λ p. p.enabled && admits workspace_id p.workspace_id && admits provider p.provider)
        rows

  unfoldable pub get_entry : String → String → Cache M → Option (Entry M)
  get_entry ws provider [] = none
  get_entry ws provider (((ws', provider'), entry) ∷ cache) =
      if same_key ws' provider' ws provider then some entry else get_entry ws provider cache

  -- `_cache[(ws, provider)] = entry`
  unfoldable pub put_entry : String → String → Entry M → Cache M → Cache M
  put_entry ws provider entry [] = ((ws, provider), entry) ∷ []
  put_entry ws provider entry (((ws', provider'), old) ∷ cache) =
      if same_key ws' provider' ws provider
      then ((ws', provider'), entry) ∷ cache
      else ((ws', provider'), old) ∷ put_entry ws provider entry cache

  -- The body of `for p in policies`.
  unfoldable pub store : ℕ → RoutingPolicy M → Cache M → Cache M
  unfolding put_entry
  store now p cache =
      if not (str_eq p.workspace_id "") && not (str_eq p.provider "")
      then put_entry p.workspace_id p.provider (record { policy = p; fetched_at = now }) cache
      else cache

  unfoldable pub store_all : ℕ → List (RoutingPolicy M) → Cache M → Cache M
  unfolding store
  store_all now [] cache = cache
  store_all now (p ∷ policies) cache = store_all now policies (store now p cache)

  -- `refresh_all`, with the policies that were fetched.
  unfoldable pub refresh_all : ℕ → List (RoutingPolicy M) → Cache M → Cache M
  unfolding store_all
  refresh_all now policies cache = store_all now policies cache

  unfoldable pub served : ℕ → ℕ → Option (Entry M) → Cache M → Answer M
  served ttl now none cache = record { policy = none; cache = cache; refreshes = false }
  served ttl now (some entry) cache = record {
    policy = if entry.policy.enabled then some entry.policy else none;
    cache = cache;
    refreshes = ltb (entry.fetched_at + ttl) now;
  }

  -- `get_policy` at the moment `now`; a missing entry is fetched, at the moment `fetched`.
  unfoldable pub get_policy :
      ℕ → String → String → ℕ → ℕ → List (RoutingPolicy M) → Cache M → Answer M
  unfolding get_entry store_all served
  get_policy ttl ws provider now fetched policies cache =
      let filled = store_all fetched policies cache in
      if str_eq ws "" || str_eq provider ""
      then record { policy = none; cache = cache; refreshes = false }
      else elim (get_entry ws provider cache) [
        | some entry ↦ served ttl now (some entry) cache
        | none ↦ served ttl now (get_entry ws provider filled) filled
      ]
