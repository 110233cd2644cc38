-- ===== src/Recall/Scope.antt =====
-- The campaigns that rows name, over any sequence of the routes.
use lineagelens.Prelude.{
  ℕ, String, ◌≡◌, ◌⊎◌, inl, inr, refl, ap, ◌∙◌, Bool, true, Option, none, some, List, [], ◌∷◌, ◌++◌,
  arith, eq_iff, eq_refl, All, Bool-cases, Option-cases,
}
use lineagelens.Recall.{
  active, cleared, RecallRow, RecallCampaign, Tables, is_in, parsed, in_update, update_rows,
  in_campaign, is_campaign, get_campaign, as_closed, put_closed,
}

-- The campaign has the snapshot of the other.
abbrev pub SameSnapshot : RecallCampaign → RecallCampaign → Type 0
SameSnapshot c d =
    (c.member_uuids ≡ d.member_uuids)
    × (c.member_digest ≡ d.member_digest)
    × (c.member_signature ≡ d.member_signature)
    × (c.blast_uuids ≡ d.blast_uuids)

pub get_campaign-append :
    (id : ℕ) (ws : String) (cs : List RecallCampaign) (new c : RecallCampaign)
    → get_campaign id ws cs ≡ some c
    → get_campaign id ws (cs ++ new ∷ []) ≡ some c
unfolding get_campaign
get_campaign-append id ws [] new c h = absurd (ground (arith, h))
get_campaign-append id ws (x ∷ cs) new c h = ground (arith, h, get_campaign-append id ws cs new c)

pub get_campaign_new :
    (cs : List RecallCampaign) (new : RecallCampaign)
    → get_campaign new.id new.workspace_id cs ≡ none
    → get_campaign new.id new.workspace_id (cs ++ new ∷ []) ≡ some new
unfolding get_campaign
get_campaign_new [] new h = ground (arith, eq_refl new.workspace_id)
get_campaign_new (x ∷ cs) new h = ground (arith, h, get_campaign_new cs new)

pub get_campaign-put_closed :
    (id j : ℕ) (ws v : String) (now : ℕ) (cs : List RecallCampaign) (c : RecallCampaign)
    → get_campaign j v cs ≡ some c
    → (c' : RecallCampaign) × (get_campaign j v (put_closed id ws now cs) ≡ some c')
      × SameSnapshot c' c
unfolding get_campaign put_closed
get_campaign-put_closed id j ws v now [] c h = absurd (ground (arith, h))
get_campaign-put_closed id j ws v now (x ∷ cs) c h = elim (Bool-cases (is_campaign id ws x)) [
  | inl closes ↦ elim (Bool-cases (is_campaign j v x)) [
    | inl here ↦
        let same : x ≡ c = ground (arith, h, here) in
        (
          as_closed now x,
          rw (closes, here) refl,
          (
            ap (λ (y : RecallCampaign). y.member_uuids) same,
            ap (λ (y : RecallCampaign). y.member_digest) same,
            ap (λ (y : RecallCampaign). y.member_signature) same,
            ap (λ (y : RecallCampaign). y.blast_uuids) same,
          ),
        )
    | inr other ↦ (c, rw (closes, other) (ground (arith, h, other)), (refl, refl, refl, refl))
  ]
  | inr stays ↦ elim (Bool-cases (is_campaign j v x)) [
    | inl here ↦ (c, rw (stays, here) (ground (arith, h, here)), (refl, refl, refl, refl))
    | inr other ↦
        let (c', found, same) =
          get_campaign-put_closed id j ws v now cs c (ground (arith, h, other)) in
        (c', rw (stays, other) found, same)
  ]
]

pub is_in-parsed_append :
    (parse_uuid : String → Option String) (us vs : List String) (u : String)
    → is_in (parsed parse_uuid us) u ≡ true
    → is_in (parsed parse_uuid (us ++ vs)) u ≡ true
unfolding parsed
is_in-parsed_append parse_uuid [] vs u h = absurd (ground (arith, h))
is_in-parsed_append parse_uuid (x ∷ us) vs u h = elim (Option-cases (parse_uuid x)) [
  | inl bad ↦ rw bad (is_in-parsed_append parse_uuid us vs u (ground (arith, h, bad)))
  | inr (y, good) ↦ rw good (ground (arith, h, good, is_in-parsed_append parse_uuid us vs u))
]

module _ (parse_uuid : String → Option String) where
  -- The uuid is in the frozen membership or in the frozen blast radius.
  abbrev pub is_frozen_in : RecallCampaign → String → Bool
  is_frozen_in c u = is_in (parsed parse_uuid (c.member_uuids ++ c.blast_uuids)) u

  -- A row is active and names no campaign, or it names one of its workspace that has it.
  abbrev pub RowScoped : List RecallCampaign → RecallRow → Type 0
  RowScoped cs r =
      ((r.quarantine_status ≡ active) × (r.quarantine_recall_id ≡ none))
      ⊎ ((id : ℕ) × (c : RecallCampaign) × (r.quarantine_recall_id ≡ some id)
          × (get_campaign id r.workspace_id cs ≡ some c)
          × (is_frozen_in c r.uuid ≡ true))

  abbrev pub IsScoped : Tables → Type 0
  IsScoped db = All (RowScoped db.campaigns) db.records

  pub RowScoped-append :
      (cs : List RecallCampaign) (new : RecallCampaign) (r : RecallRow)
      → RowScoped cs r
      → RowScoped (cs ++ new ∷ []) r
  RowScoped-append cs new r (inl a) = inl a
  RowScoped-append cs new r (inr (id, c, names, found, has)) =
      inr (id, c, names, get_campaign-append id r.workspace_id cs new c found, has)

  pub RowScoped-put_closed :
      (id : ℕ) (ws : String) (now : ℕ) (cs : List RecallCampaign) (r : RecallRow)
      → RowScoped cs r
      → RowScoped (put_closed id ws now cs) r
  RowScoped-put_closed id ws now cs r (inl a) = inl a
  RowScoped-put_closed id ws now cs r (inr (j, c, names, found, has)) =
      let (c', found', same) = get_campaign-put_closed id j ws r.workspace_id now cs c found in
      inr (j, c', names, found', rw (same.0, same.3) has)

  pub All-RowScoped :
      (cs ds : List RecallCampaign) (rows : List RecallRow)
      → ((r : RecallRow) → RowScoped cs r → RowScoped ds r)
      → All (RowScoped cs) rows
      → All (RowScoped ds) rows
  All-RowScoped cs ds [] f h = tt
  All-RowScoped cs ds (r ∷ rows) f h = (f r h.0, All-RowScoped cs ds rows f h.1)

  -- An update that sets the campaign of the rows in its frozen set.
  pub update-RowScoped :
      (cs : List RecallCampaign) (ws : String) (uuids : List String) (c : RecallCampaign) (id : ℕ)
      (change : RecallRow → RecallRow) (rows : List RecallRow)
      → get_campaign id ws cs ≡ some c
      → ((u : String) → is_in uuids u ≡ true → is_frozen_in c u ≡ true)
      → ((r : RecallRow)
          → ((change r).quarantine_recall_id ≡ some id)
            × ((change r).workspace_id ≡ r.workspace_id)
            × ((change r).uuid ≡ r.uuid))
      → All (RowScoped cs) rows
      → All (RowScoped cs) (update_rows (in_update ws uuids) change rows)
  update-RowScoped cs ws uuids c id change [] found has sets h = tt
  update-RowScoped cs ws uuids c id change (r ∷ rows) found has sets h =
      let rest = update-RowScoped cs ws uuids c id change rows found has sets h.1 in
      elim (Bool-cases (in_update ws uuids r)) [
        | inr other ↦ rw other (h.0, rest)
        | inl chosen ↦
            let place : (change r).workspace_id ≡ ws =
              (sets r).1 ∙ (eq_iff r.workspace_id ws).0 (ground (arith, chosen)) in
            let row : is_frozen_in c (change r).uuid ≡ true =
              ap (is_frozen_in c) (sets r).2 ∙ has r.uuid (ground (arith, chosen)) in
            rw chosen
              (inr (id, c, (sets r).0, ap (λ v. get_campaign id v cs) place ∙ found, row), rest)
      ]

  pub clear-RowScoped :
      (cs : List RecallCampaign) (ws : String) (id : ℕ) (rows : List RecallRow)
      → All (RowScoped cs) rows
      → All
          (RowScoped cs)
          (update_rows (in_campaign ws id) (λ r. record r { quarantine_status = cleared }) rows)
  clear-RowScoped cs ws id [] h = tt
  clear-RowScoped cs ws id (r ∷ rows) h =
      let rest = clear-RowScoped cs ws id rows h.1 in
      elim (Bool-cases (in_campaign ws id r)) [
        | inr other ↦ rw other (h.0, rest)
        | inl chosen ↦ rw chosen (named chosen h.0, rest)
      ]
    where
      named :
          in_campaign ws id r ≡ true
          → RowScoped cs r
          → RowScoped cs (record r { quarantine_status = cleared })
      named chosen (inl (idle, unnamed)) = absurd (ground (arith, chosen, unnamed))
      named chosen (inr s) = inr s
