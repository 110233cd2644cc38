-- ===== src/Recall/Frozen.antt =====
-- What holds of the tables after any sequence of the routes.
use mathlib.Core.Path.{subst}
use lineagelens.Prelude.{
  ℕ, String, ◌≡◌, ◌⊎◌, inl, inr, refl, sym, ap, ◌∙◌, none, some, List, [], ◌∷◌, ◌++◌, All,
}
use lineagelens.Recall.{
  RecallRow, RecallCampaign, Tables, Services, parsed, in_update, as_flagged, as_quarantined,
  update_rows, quarantine_records, clear_records, get_campaign, put_closed,
}
use lineagelens.Recall.Scope.{
  SameSnapshot, get_campaign-append, get_campaign_new, get_campaign-put_closed, is_in-parsed_append,
  RowScoped, IsScoped, RowScoped-append, RowScoped-put_closed, All-RowScoped, update-RowScoped,
  clear-RowScoped,
}
use lineagelens.Recall.Runs.{
  Step, created, quarantines, clears, closes, arrives, Reach, here, next, Opened,
  create_recall-Opened, quarantine_records_lem, quarantine_campaign-inv, clear_campaign-inv,
  close_campaign-inv,
}

All-snoc :
    (P : RecallRow → Type 0) (rows : List RecallRow) (r : RecallRow)
    → All P rows
    → P r
    → All P (rows ++ r ∷ [])
All-snoc P [] r h p = (p, tt)
All-snoc P (x ∷ rows) r h p = (h.0, All-snoc P rows r h.1 p)

SameSnapshot-refl : (c : RecallCampaign) → SameSnapshot c c
SameSnapshot-refl c = (refl, refl, refl, refl)

SameSnapshot-trans :
    (a b c : RecallCampaign) → SameSnapshot a b → SameSnapshot b c → SameSnapshot a c
SameSnapshot-trans a b c p q = (p.0 ∙ q.0, p.1 ∙ q.1, p.2 ∙ q.2, p.3 ∙ q.3)

module _ (o : Services) where
  abbrev Scoped : List RecallCampaign → List RecallRow → Type 0
  Scoped cs rows = All (RowScoped o.parse_uuid cs) rows

  -- After an opening.
  Opened-IsScoped :
      (id : ℕ) (ws : String) (db db' : Tables)
      → get_campaign id ws db.campaigns ≡ none
      → Opened o id ws db db'
      → IsScoped o.parse_uuid db
      → IsScoped o.parse_uuid db'
  Opened-IsScoped id ws db db' fresh (new, same_id, same_ws, campaigns, rows) scoped =
      let cs = db.campaigns ++ new ∷ [] in
      let old : Scoped cs db.records =
        All-RowScoped o.parse_uuid db.campaigns cs db.records
          (RowScoped-append o.parse_uuid db.campaigns new) scoped in
      let absent : get_campaign new.id new.workspace_id db.campaigns ≡ none =
        ap (λ i. get_campaign i new.workspace_id db.campaigns) same_id
        ∙ ap (λ v. get_campaign id v db.campaigns) same_ws
        ∙ fresh in
      let found : get_campaign id ws cs ≡ some new =
        ap (λ i. get_campaign i ws cs) (sym same_id)
        ∙ ap (λ v. get_campaign new.id v cs) (sym same_ws)
        ∙ get_campaign_new db.campaigns new absent in
      let flagged_rows : Scoped cs (
          update_rows (in_update ws (parsed o.parse_uuid new.member_uuids)) (as_flagged id)
            db.records) =
        update-RowScoped o.parse_uuid cs ws (parsed o.parse_uuid new.member_uuids) new id
          (as_flagged id) db.records found
          (λ u. is_in-parsed_append o.parse_uuid new.member_uuids new.blast_uuids u)
          (λ r. (refl, refl, refl)) old in
      let all : Scoped cs db'.records = elim rows [
        | inl kept ↦ subst (Scoped cs) (sym kept) old
        | inr changed ↦ subst (Scoped cs) (sym changed) flagged_rows
      ] in
      subst (λ ds. Scoped ds db'.records) (sym campaigns) all

  quarantines-IsScoped :
      (id : ℕ) (ws user : String) (now : ℕ) (c : RecallCampaign) (db db' : Tables)
      → get_campaign id ws db.campaigns ≡ some c
      → (db'.campaigns ≡ db.campaigns)
        × ((db'.records ≡ db.records)
            ⊎ (db'.records
                ≡ update_rows
                    (in_update ws (parsed o.parse_uuid (c.member_uuids ++ c.blast_uuids)))
                    (as_quarantined id now)
                    db.records))
      → IsScoped o.parse_uuid db
      → IsScoped o.parse_uuid db'
  quarantines-IsScoped id ws user now c db db' found (campaigns, rows) scoped =
      let changed_rows =
        update-RowScoped o.parse_uuid db.campaigns ws
          (parsed o.parse_uuid (c.member_uuids ++ c.blast_uuids)) c id (as_quarantined id now)
          db.records found (λ u h. h) (λ r. (refl, refl, refl)) scoped in
      let all : Scoped db.campaigns db'.records = elim rows [
        | inl kept ↦ subst (Scoped db.campaigns) (sym kept) scoped
        | inr changed ↦ subst (Scoped db.campaigns) (sym changed) changed_rows
      ] in
      subst (λ ds. Scoped ds db'.records) (sym campaigns) all

  Step-IsScoped :
      (db db' : Tables) → Step o db db' → IsScoped o.parse_uuid db → IsScoped o.parse_uuid db'
  unfolding clear_records
  Step-IsScoped db db' (created graph criteria id ws user checkpoint fresh h) scoped =
      Opened-IsScoped id ws db db' fresh
        (create_recall-Opened o graph criteria id ws user checkpoint db db' h) scoped
  Step-IsScoped db db' (quarantines id ws user now count h) scoped =
      let (c, found, same) = quarantine_campaign-inv o id ws user now count db db' h in
      subst (IsScoped o.parse_uuid) same (
        quarantines-IsScoped id ws user now c db
          (quarantine_records o ws user id c.member_uuids c.blast_uuids now db).0 found
          (quarantine_records_lem o ws user id c.member_uuids c.blast_uuids now db) scoped)
  Step-IsScoped db db' (clears id ws user count h) scoped =
      subst (IsScoped o.parse_uuid) (clear_campaign-inv id ws user count db db' h)
        (clear-RowScoped o.parse_uuid db.campaigns ws id db.records scoped)
  Step-IsScoped db db' (closes id ws user now count h) scoped =
      let (j, campaigns, rows) = close_campaign-inv id ws user now count db db' h in
      let all : Scoped (put_closed j ws now db.campaigns) db.records =
        All-RowScoped o.parse_uuid db.campaigns (put_closed j ws now db.campaigns) db.records
          (RowScoped-put_closed o.parse_uuid j ws now db.campaigns) scoped in
      subst (λ ds. Scoped ds db'.records) (sym campaigns)
        (subst (Scoped (put_closed j ws now db.campaigns)) (sym rows) all)
  Step-IsScoped db db' (arrives r idle unnamed same) scoped =
      subst (IsScoped o.parse_uuid) (sym same)
        (All-snoc (RowScoped o.parse_uuid db.campaigns) db.records r scoped (inl (idle, unnamed)))

  -- From tables where it holds, such as those without a campaign: after any sequence of openings,
  -- quarantines, clearings and closings, with active records arriving in between and with fresh
  -- ids, each row is active and names no campaign, or it names a campaign of its own workspace
  -- whose frozen membership or blast radius has it.
  pub Reach-IsScoped :
      (start db : Tables)
      → Reach o start db
      → IsScoped o.parse_uuid start
      → IsScoped o.parse_uuid db
  Reach-IsScoped start db here scoped = scoped
  Reach-IsScoped start db (next {db = before} r s) scoped =
      Step-IsScoped before db s (Reach-IsScoped start before r scoped)

  abbrev Keeps : ℕ → String → RecallCampaign → Tables → Type 0
  Keeps id ws c db =
      (d : RecallCampaign) × (get_campaign id ws db.campaigns ≡ some d) × SameSnapshot d c

  Keeps-campaigns :
      (id : ℕ) (ws : String) (c : RecallCampaign) (cs : List RecallCampaign) (db : Tables)
      → db.campaigns ≡ cs
      → (d : RecallCampaign) × (get_campaign id ws cs ≡ some d) × SameSnapshot d c
      → Keeps id ws c db
  Keeps-campaigns id ws c cs db same (d, found, s) = (d, ap (get_campaign id ws) same ∙ found, s)

  Step-Keeps :
      (id : ℕ) (ws : String) (c : RecallCampaign) (db db' : Tables)
      → Step o db db'
      → Keeps id ws c db
      → Keeps id ws c db'
  unfolding clear_records
  Step-Keeps id ws c db db' (created graph criteria j v user checkpoint fresh h) (d, found, same) =
      let (new, same_id, same_ws, campaigns, rows) =
        create_recall-Opened o graph criteria j v user checkpoint db db' h in
      Keeps-campaigns id ws c (db.campaigns ++ new ∷ []) db' campaigns
        (d, get_campaign-append id ws db.campaigns new d found, same)
  Step-Keeps id ws c db db' (quarantines j v user now count h) k =
      let (e, found, same) = quarantine_campaign-inv o j v user now count db db' h in
      let left = quarantine_records_lem o v user j e.member_uuids e.blast_uuids now db in
      Keeps-campaigns id ws c db.campaigns db'
        (ap (λ (t : Tables). t.campaigns) (sym same) ∙ left.0) k
  Step-Keeps id ws c db db' (clears j v user count h) k =
      Keeps-campaigns id ws c db.campaigns db'
        (ap (λ (t : Tables). t.campaigns) (sym (clear_campaign-inv j v user count db db' h))) k
  Step-Keeps id ws c db db' (closes j v user now count h) (d, found, same) =
      let (i, campaigns, rows) = close_campaign-inv j v user now count db db' h in
      let (d', found', same') = get_campaign-put_closed i id v ws now db.campaigns d found in
      Keeps-campaigns id ws c (put_closed i v now db.campaigns) db' campaigns
        (d', found', SameSnapshot-trans d' d c same' same)
  Step-Keeps id ws c db db' (arrives r idle unnamed same) k =
      Keeps-campaigns id ws c db.campaigns db' (ap (λ (t : Tables). t.campaigns) same) k

  -- A campaign is found again after any such sequence, with the members, their digest, its signature
  -- and the blast radius that were frozen.
  pub Reach-frozen :
      (start db : Tables) (id : ℕ) (ws : String) (c : RecallCampaign)
      → Reach o start db
      → get_campaign id ws start.campaigns ≡ some c
      → (d : RecallCampaign) × (get_campaign id ws db.campaigns ≡ some d) × SameSnapshot d c
  Reach-frozen start db id ws c here found = (c, found, SameSnapshot-refl c)
  Reach-frozen start db id ws c (next {db = before} r s) found =
      Step-Keeps id ws c before db s (Reach-frozen start before id ws c r found)
