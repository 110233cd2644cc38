-- ===== src/Routing/Latest.antt =====
-- What the cache answers after any refreshes.
use mathlib.Core.Path.{subst}
use lineagelens.Prelude.{
  ℕ, String, ◌≡◌, ◌≢◌, refl, sym, ap, ◌∙◌, true, false, ◌&&◌, ◌||◌, Option, none, some, List, [],
  ◌∷◌, str_eq, arith, eq_iff, Bool-cases, Option-cases, inl, inr,
}
use lineagelens.Routing.{
  RoutingPolicy, Entry, Cache, get_routing_policies_internal, same_key, get_entry, store_all,
  refresh_all, served, get_policy,
}
use lineagelens.Routing.Fetched.{policy_of, latest, fetched_all, fetched_one}

module _ {M : Type 0} where
  -- The refreshes of the cache, each at a moment and with the table of the backend at it.
  abbrev pub refreshes : List (ℕ × List (RoutingPolicy M)) → Cache M → Cache M
  refreshes [] cache = cache
  refreshes ((now, rows) ∷ states) cache =
      refreshes states (refresh_all now (get_routing_policies_internal none none rows) cache)

  abbrev pub latest_all :
      String
      → String
      → List (ℕ × List (RoutingPolicy M))
      → Option (RoutingPolicy M)
      → Option (RoutingPolicy M)
  latest_all ws provider [] before = before
  latest_all ws provider ((now, rows) ∷ states) before =
      latest_all ws provider states (latest ws provider rows before)

  abbrev Enabled : Option (RoutingPolicy M) → Type 0
  Enabled none = Unit
  Enabled (some p) = p.enabled ≡ true

  Enabled-latest :
      (ws provider : String) (rows : List (RoutingPolicy M)) (before : Option (RoutingPolicy M))
      → Enabled before
      → Enabled (latest ws provider rows before)
  Enabled-latest ws provider [] before h = h
  Enabled-latest ws provider (p ∷ rows) before h =
      elim (Bool-cases (p.enabled && same_key p.workspace_id p.provider ws provider)) [
        | inl taken ↦ rw taken (Enabled-latest ws provider rows (some p) (ground (arith, taken)))
        | inr other ↦ rw other (Enabled-latest ws provider rows before h)
      ]

  Enabled-latest_all :
      (ws provider : String) (states : List (ℕ × List (RoutingPolicy M)))
      (before : Option (RoutingPolicy M))
      → Enabled before
      → Enabled (latest_all ws provider states before)
  Enabled-latest_all ws provider [] before h = h
  Enabled-latest_all ws provider ((now, rows) ∷ states) before h =
      Enabled-latest_all ws provider states (latest ws provider rows before)
        (Enabled-latest ws provider rows before h)

  served_lem :
      (ttl now : ℕ) (entry : Option (Entry M)) (cache : Cache M)
      → Enabled (policy_of entry)
      → (served ttl now entry cache).policy ≡ policy_of entry
  unfolding served
  served_lem ttl now none cache h = refl
  served_lem ttl now (some entry) cache h = rw h refl

  module _ (ws provider : String) (some_ws : ws ≢ "") (some_provider : provider ≢ "") where
    refreshes_lem :
        (states : List (ℕ × List (RoutingPolicy M))) (cache : Cache M)
        → policy_of (get_entry ws provider (refreshes states cache))
          ≡ latest_all ws provider states (policy_of (get_entry ws provider cache))
    unfolding refresh_all
    refreshes_lem [] cache = refl
    refreshes_lem ((now, rows) ∷ states) cache =
        let filled = store_all now (get_routing_policies_internal none none rows) cache in
        refreshes_lem states filled
        ∙ ap (latest_all ws provider states)
            (fetched_all ws provider some_ws some_provider now rows cache)

    serves_cached :
        (ttl now fetched : ℕ) (answer : List (RoutingPolicy M)) (cache : Cache M) (entry : Entry M)
        → (str_eq ws "" || str_eq provider "") ≡ false
        → get_entry ws provider cache ≡ some entry
        → get_policy ttl ws provider now fetched answer cache ≡ served ttl now (some entry) cache
    unfolding get_policy
    serves_cached ttl now fetched answer cache entry named cached =
        rw (get_policy, named, cached) refl

    serves_filled :
        (ttl now fetched : ℕ) (answer : List (RoutingPolicy M)) (cache : Cache M)
        → (str_eq ws "" || str_eq provider "") ≡ false
        → get_entry ws provider cache ≡ none
        → get_policy ttl ws provider now fetched answer cache
          ≡ served ttl now
              (get_entry ws provider (store_all fetched answer cache))
              (store_all fetched answer cache)
    unfolding get_policy
    serves_filled ttl now fetched answer cache named missing = rw (get_policy, named, missing) refl

    -- What the proxy answers for a key, after any refreshes, is the policy that was enabled last in
    -- the tables that the refreshes saw, even where a later table has it disabled or not at all.
    -- If there was none, it is the one that the backend has at the moment.
    pub get_policy-latest_all :
        (ttl now fetched : ℕ) (states : List (ℕ × List (RoutingPolicy M)))
        (current : List (RoutingPolicy M))
        → (get_policy ttl ws provider now fetched
            (get_routing_policies_internal (some ws) (some provider) current)
            (refreshes states [])).policy
          ≡ elim (latest_all ws provider states none) [
            | none ↦ latest ws provider current none
            | some p ↦ some p
          ]
    unfolding get_policy
    get_policy-latest_all ttl now fetched states current =
        let cache = refreshes states [] in
        let answer = get_routing_policies_internal (some ws) (some provider) current in
        let filled = store_all fetched answer cache in
        let seen : policy_of (get_entry ws provider cache) ≡ latest_all ws provider states none =
          refreshes_lem states [] in
        let named : (str_eq ws "" || str_eq provider "") ≡ false =
          ground (arith, eq_iff ws "", eq_iff provider "", some_ws, some_provider) in
        elim (Option-cases (get_entry ws provider cache)) [
          | inl missing ↦
              let nothing : latest_all ws provider states none ≡ none =
                sym seen ∙ ap policy_of missing in
              let found : policy_of (get_entry ws provider filled)
                  ≡ latest ws provider current none =
                fetched_one ws provider some_ws some_provider fetched current cache
                ∙ ap (λ e. latest ws provider current (policy_of e)) missing in
              let on : Enabled (policy_of (get_entry ws provider filled)) =
                subst Enabled (sym found) (Enabled-latest ws provider current none tt) in
              rw nothing (
                ap (λ a. a.policy) (serves_filled ttl now fetched answer cache named missing)
                ∙ served_lem ttl now (get_entry ws provider filled) filled on
                ∙ found)
          | inr (entry, cached) ↦
              let kept : latest_all ws provider states none ≡ some entry.policy =
                sym seen ∙ ap policy_of cached in
              let on : Enabled (some entry.policy) =
                subst Enabled kept (Enabled-latest_all ws provider states none tt) in
              rw kept (
                ap (λ a. a.policy) (serves_cached ttl now fetched answer cache entry named cached)
                ∙ served_lem ttl now (some entry) cache on)
        ]
