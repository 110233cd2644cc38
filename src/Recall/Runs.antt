-- ===== src/Recall/Runs.antt =====
-- The tables after any sequence of the routes, with records arriving in between.
use lineagelens.Prelude.{
  ℕ, String, ◌≡◌, ◌⊎◌, inl, inr, refl, sym, ap, ◌∙◌, false, Option, none, some, List, [], ◌∷◌, ◌++◌,
  arith, map, str_eq, Bool-cases, Option-cases, of_some, length,
}
use lineagelens.Recall.{
  active, RecallRow, RecallCampaign, Tables, Services, is_nil, parsed, in_update, as_flagged,
  as_quarantined, update_rows, flag_records, quarantine_records, clear_records, get_campaign,
  put_closed, close_recall, done, quarantine_campaign, clear_campaign, close_campaign,
}
use lineagelens.Recall.Affected.{RecallCriteria, find_affected_records}
use lineagelens.Recall.Blast.{Graph, compute_blast_radius, open_recall, create_recall}

-- One route call that succeeds, or one new record.
pub data Step (o : Services) (db db' : Tables) : Type 0 where
  created :
      (graph : Option Graph) (criteria : RecallCriteria) (id : ℕ) (ws user checkpoint : String)
      → get_campaign id ws db.campaigns ≡ none
      → create_recall o graph criteria id ws user checkpoint db ≡ some db'
      → Step o db db'
  quarantines :
      (id : ℕ) (ws user : String) (now count : ℕ)
      → quarantine_campaign o id ws user now db ≡ done db' count
      → Step o db db'
  clears :
      (id : ℕ) (ws user : String) (count : ℕ)
      → clear_campaign id ws user db ≡ done db' count
      → Step o db db'
  closes :
      (id : ℕ) (ws user : String) (now count : ℕ)
      → close_campaign id ws user now db ≡ done db' count
      → Step o db db'
  arrives :
      (r : RecallRow)
      → r.quarantine_status ≡ active
      → r.quarantine_recall_id ≡ none
      → db' ≡ record db { records = db.records ++ r ∷ [] }
      → Step o db db'

pub data Reach (o : Services) (start : Tables) : Tables → Type 0 where
  here : Reach o start start
  next : {db db' : Tables} → Reach o start db → Step o db db' → Reach o start db'

flag_records_lem :
    (o : Services) (ws user : String) (uuids : List String) (id : ℕ) (db : Tables)
    → let db' = (flag_records o ws user uuids id db).0 in
      (db'.campaigns ≡ db.campaigns)
      × ((db'.records ≡ db.records)
          ⊎ (db'.records
              ≡ update_rows (in_update ws (parsed o.parse_uuid uuids)) (as_flagged id) db.records))
unfolding flag_records
flag_records_lem o ws user uuids id db = elim (Bool-cases (is_nil (parsed o.parse_uuid uuids))) [
  | inl empty ↦ rw empty (refl, inl refl)
  | inr some_ ↦ rw some_ (refl, inr refl)
]

-- A campaign that is opened has a snapshot of its own, and only rows of its membership are flagged.
abbrev pub Opened : Services → ℕ → String → Tables → Tables → Type 0
Opened o id ws db db' =
    (new : RecallCampaign) × (new.id ≡ id)
    × (new.workspace_id ≡ ws)
    × (db'.campaigns ≡ db.campaigns ++ new ∷ [])
    × ((db'.records ≡ db.records)
        ⊎ (db'.records
            ≡ update_rows (in_update ws (parsed o.parse_uuid new.member_uuids)) (as_flagged id)
                db.records))

pub create_recall-Opened :
    (o : Services) (graph : Option Graph) (criteria : RecallCriteria) (id : ℕ)
    (ws user checkpoint : String) (db db' : Tables)
    → create_recall o graph criteria id ws user checkpoint db ≡ some db'
    → Opened o id ws db db'
unfolding create_recall open_recall
create_recall-Opened o graph criteria id ws user checkpoint db db' h =
    let matched =
      map (λ (r : RecallRow). r.uuid) (find_affected_records o ws criteria 1000 db.records) in
    elim (Option-cases (compute_blast_radius o graph matched ws none false checkpoint)) [
      | inl raised ↦ absurd (ground (arith, h, raised))
      | inr (blast, found) ↦
          let opened = open_recall o id ws user (length matched) matched blast db in
          let after = flag_records_lem o ws user matched id opened.1 in
          let same : (flag_records o ws user matched id opened.1).0 ≡ db' =
            of_some (rw (create_recall, found) at h) in
          (
            opened.0,
            refl,
            refl,
            ap (λ (t : Tables). t.campaigns) (sym same) ∙ after.0,
            elim after.1 [
              | inl kept ↦ inl (ap (λ (t : Tables). t.records) (sym same) ∙ kept)
              | inr changed ↦ inr (ap (λ (t : Tables). t.records) (sym same) ∙ changed)
            ],
          )
    ]

pub quarantine_records_lem :
    (o : Services) (ws user : String) (id : ℕ) (us vs : List String) (now : ℕ) (db : Tables)
    → let db' = (quarantine_records o ws user id us vs now db).0 in
      (db'.campaigns ≡ db.campaigns)
      × ((db'.records ≡ db.records)
          ⊎ (db'.records
              ≡ update_rows
                  (in_update ws (parsed o.parse_uuid (us ++ vs)))
                  (as_quarantined id now)
                  db.records))
unfolding quarantine_records
quarantine_records_lem o ws user id us vs now db =
    elim (Bool-cases (is_nil (parsed o.parse_uuid (us ++ vs)))) [
      | inl empty ↦ rw empty (refl, inl refl)
      | inr some_ ↦ rw some_ (refl, inr refl)
    ]

pub quarantine_campaign-inv :
    (o : Services) (id : ℕ) (ws user : String) (now count : ℕ) (db db' : Tables)
    → quarantine_campaign o id ws user now db ≡ done db' count
    → (c : RecallCampaign) × (get_campaign id ws db.campaigns ≡ some c)
      × ((quarantine_records o ws user id c.member_uuids c.blast_uuids now db).0 ≡ db')
unfolding quarantine_campaign
quarantine_campaign-inv o id ws user now count db db' h =
    elim (Option-cases (get_campaign id ws db.campaigns)) [
      | inl absent ↦ absurd (ground (arith, h, absent))
      | inr (c, found) ↦ elim (Bool-cases (str_eq c.status "open")) [
        | inr shut ↦ absurd (ground (arith, h, found, shut))
        | inl is_open ↦ (c, found, ground (arith, h, found, is_open))
      ]
    ]

pub clear_campaign-inv :
    (id : ℕ) (ws user : String) (count : ℕ) (db db' : Tables)
    → clear_campaign id ws user db ≡ done db' count
    → (clear_records ws user id db).0 ≡ db'
unfolding clear_campaign
clear_campaign-inv id ws user count db db' h =
    elim (Option-cases (get_campaign id ws db.campaigns)) [
      | inl absent ↦ absurd (ground (arith, h, absent))
      | inr (c, found) ↦ ground (arith, h, found)
    ]

pub close_campaign-inv :
    (id : ℕ) (ws user : String) (now count : ℕ) (db db' : Tables)
    → close_campaign id ws user now db ≡ done db' count
    → (j : ℕ) × (db'.campaigns ≡ put_closed j ws now db.campaigns) × (db'.records ≡ db.records)
unfolding close_campaign close_recall
close_campaign-inv id ws user now count db db' h =
    elim (Option-cases (get_campaign id ws db.campaigns)) [
      | inl absent ↦ absurd (ground (arith, h, absent))
      | inr (c, found) ↦ elim (Bool-cases (str_eq c.status "closed")) [
        | inl shut ↦ absurd (ground (arith, h, found, shut))
        | inr still ↦
            let same : close_recall ws user c now db ≡ db' = ground (arith, h, found, still) in
            (
              c.id,
              ap (λ (t : Tables). t.campaigns) (sym same),
              ap (λ (t : Tables). t.records) (sym same),
            )
      ]
    ]
