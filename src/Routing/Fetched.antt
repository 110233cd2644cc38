-- ===== src/Routing/Fetched.antt =====
-- The cache after one fetch.
use lineagelens.Prelude.{
  ℕ, String, ◌≡◌, ◌≢◌, refl, Bool, true, false, not, ◌&&◌, ◌||◌, Option, none, some, List, [], ◌∷◌,
  str_eq, if◌then◌else◌, filter, arith, eq_iff, eq_refl, Bool-cases, inl, inr,
}
use lineagelens.Routing.{
  RoutingPolicy, Entry, Cache, admits, get_routing_policies_internal, same_key, get_entry,
  put_entry, store, store_all,
}

admits_given :
    (wanted value : String) → str_eq value wanted ≡ true → admits (some wanted) value ≡ true
admits_given wanted value h = elim (Bool-cases (str_eq wanted "")) [
  | inl free ↦ rw free refl
  | inr bound ↦ rw (bound, h) (or_true (str_eq wanted ""))
]
  where
    or_true : (b : Bool) → (b || true) ≡ true
    or_true true = refl
    or_true false = refl

module _ {M : Type 0} where
  get_entry-put_entry :
      (ws provider ws' provider' : String) (entry : Entry M) (cache : Cache M)
      → get_entry ws provider (put_entry ws' provider' entry cache)
        ≡ (if same_key ws' provider' ws provider then some entry else get_entry ws provider cache)
  unfolding get_entry put_entry
  get_entry-put_entry ws provider ws' provider' entry [] = refl
  get_entry-put_entry ws provider ws' provider' entry (((a, b), old) ∷ cache) =
      elim (Bool-cases (same_key a b ws' provider')) [
        | inl here ↦ ground (arith, here, eq_iff a ws', eq_iff b provider')
        | inr other ↦ elim (Bool-cases (same_key a b ws provider)) [
          | inl wanted ↦ ground (
            arith,
            other,
            wanted,
            eq_iff a ws,
            eq_iff b provider,
            eq_iff ws' ws,
            eq_iff provider' provider,
            eq_refl ws,
            eq_refl provider,
            eq_iff a ws',
            eq_iff b provider',
          )
          | inr apart ↦
              rw (other, apart) (get_entry-put_entry ws provider ws' provider' entry cache)
        ]
      ]

  abbrev pub policy_of : Option (Entry M) → Option (RoutingPolicy M)
  policy_of none = none
  policy_of (some entry) = some entry.policy

  -- The last enabled row of the key, else what there was before.
  abbrev pub latest :
      String → String → List (RoutingPolicy M) → Option (RoutingPolicy M) → Option (RoutingPolicy M)
  latest ws provider [] before = before
  latest ws provider (p ∷ rows) before =
      latest ws provider rows
        (if p.enabled && same_key p.workspace_id p.provider ws provider then some p else before)

  module _ (ws provider : String) (some_ws : ws ≢ "") (some_provider : provider ≢ "") where
    store_lem :
        (now : ℕ) (p : RoutingPolicy M) (cache : Cache M)
        → policy_of (get_entry ws provider (store now p cache)) ≡ (
            if same_key p.workspace_id p.provider ws provider
            then some p
            else policy_of (get_entry ws provider cache))
    unfolding store
    store_lem now p cache =
        let entry : Entry M = record { policy = p; fetched_at = now } in
        elim (Bool-cases (not (str_eq p.workspace_id "") && not (str_eq p.provider ""))) [
          | inl named ↦
              rw
                (
                  store,
                  named,
                  get_entry-put_entry ws provider p.workspace_id p.provider entry cache,
                )
                (of_choice (same_key p.workspace_id p.provider ws provider) entry
                  (get_entry ws provider cache))
          | inr blank ↦
              let other : same_key p.workspace_id p.provider ws provider ≡ false = ground (
                arith,
                blank,
                eq_iff p.workspace_id ws,
                eq_iff p.provider provider,
                eq_iff p.workspace_id "",
                eq_iff p.provider "",
                some_ws,
                some_provider,
              ) in
              rw (store, blank, other) refl
        ]
      where
        of_choice :
            (b : Bool) (entry : Entry M) (old : Option (Entry M))
            → policy_of (if b then some entry else old)
              ≡ (if b then some entry.policy else policy_of old)
        of_choice true entry old = refl
        of_choice false entry old = refl

    -- The policies that a fetch gives: none that is disabled, all that are enabled under the key.
    store_all-filter :
        (picks : RoutingPolicy M → Bool)
        → ((p : RoutingPolicy M) → picks p ≡ true → p.enabled ≡ true)
        → ((p : RoutingPolicy M)
            → p.enabled ≡ true
            → same_key p.workspace_id p.provider ws provider ≡ true
            → picks p ≡ true)
        → (now : ℕ) (rows : List (RoutingPolicy M)) (cache : Cache M)
        → policy_of (get_entry ws provider (store_all now (filter picks rows) cache))
          ≡ latest ws provider rows (policy_of (get_entry ws provider cache))
    unfolding store_all
    store_all-filter picks sound full now [] cache = refl
    store_all-filter picks sound full now (p ∷ rows) cache = elim (Bool-cases (picks p)) [
      | inl picked ↦
          rw
            (
              picked,
              store_all-filter picks sound full now rows (store now p cache),
              store_lem now p cache,
              sound p picked,
            )
            refl
      | inr dropped ↦
          let apart : (p.enabled && same_key p.workspace_id p.provider ws provider) ≡ false =
            ground (arith, dropped, full p) in
          rw (dropped, apart) (store_all-filter picks sound full now rows cache)
    ]

    pub fetched_all :
        (now : ℕ) (rows : List (RoutingPolicy M)) (cache : Cache M)
        → policy_of (
            get_entry ws provider
              (store_all now (get_routing_policies_internal none none rows) cache))
          ≡ latest ws provider rows (policy_of (get_entry ws provider cache))
    unfolding get_routing_policies_internal
    fetched_all now rows cache =
        store_all-filter (λ p. p.enabled && admits none p.workspace_id && admits none p.provider)
          (λ p h. ground (arith, h)) (λ p on key. rw on refl) now rows cache

    pub fetched_one :
        (now : ℕ) (rows : List (RoutingPolicy M)) (cache : Cache M)
        → policy_of (
            get_entry ws provider
              (store_all now (get_routing_policies_internal (some ws) (some provider) rows) cache))
          ≡ latest ws provider rows (policy_of (get_entry ws provider cache))
    unfolding get_routing_policies_internal
    fetched_one now rows cache =
        store_all-filter
          (λ p. p.enabled && admits (some ws) p.workspace_id && admits (some provider) p.provider)
          (λ p h. ground (arith, h))
          (λ p on key.
            ground
              (arith, on, key, admits_given ws p.workspace_id, admits_given provider p.provider))
          now rows cache
