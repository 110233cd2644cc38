-- ===== src/Recall/Blast/Coverage.antt =====
-- What the coverage status of a search for descendants in the tables says.
use lineagelens.Prelude.{
  ℕ, suc, ◌+◌, ◌<◌, String, ◌≡◌, ◌⊎◌, inl, inr, refl, ap, ◌∙◌, true, false, not, ◌||◌, Option, none,
  some, List, [], ◌∷◌, arith, ltb, take, any, filter, length, str_eq, All, Bool-cases,
}
use lineagelens.Recall.{RecallRow, Services, is_in, is_nil, parsed}
use lineagelens.Recall.Blast.{
  BlastRadiusResult, earliest_first, has_clause, is_descendant, sql_blast_radius,
  compute_blast_radius,
}
use lineagelens.Recall.Blast.Rows.{
  any-earliest_first, All-earliest_first, All-filter, All-take, take_whole, uuids_of,
  is_in-uuids_of, All-uuids_of, All-map, kept_found, any-filter, not_seed, nothing_dropped,
  no_clause,
}
use lineagelens.Recall.Blast.Honest.{
  seeds_of, descends, is_found, Covers, IsHonest, capped-IsHonest, checked_empty-IsHonest,
}

module _ (cap : ℕ) (ws : String) (uuids : List String) (rows : List RecallRow) where
  -- The rows of the answer.
  abbrev found : List RecallRow
  found = take (cap + 1) (earliest_first (filter (descends cap ws uuids rows) rows))

  found_lem :
      All
        (λ d. (descends cap ws uuids rows d ≡ true) × (is_found cap ws uuids rows d.uuid ≡ true))
        found
  found_lem =
      All-take
        (λ d. (descends cap ws uuids rows d ≡ true) × (is_found cap ws uuids rows d.uuid ≡ true))
        (cap + 1) (earliest_first (filter (descends cap ws uuids rows) rows))
        (All-earliest_first
          (λ d. (descends cap ws uuids rows d ≡ true) × (is_found cap ws uuids rows d.uuid ≡ true))
          (filter (descends cap ws uuids rows) rows)
          (All-filter
            (λ d.
              (descends cap ws uuids rows d ≡ true) × (is_found cap ws uuids rows d.uuid ≡ true))
            (descends cap ws uuids rows) rows
            (All-map
              (λ d. descends cap ws uuids rows d ≡ true → is_found cap ws uuids rows d.uuid ≡ true)
              (λ d.
                descends cap ws uuids rows d ≡ true
                → (descends cap ws uuids rows d ≡ true)
                  × (is_found cap ws uuids rows d.uuid ≡ true))
              rows (λ d f k. (k, f k)) (kept_found (descends cap ws uuids rows) rows))))

  -- The last filter keeps every row.
  kept :
      filter (λ u. not (is_in (uuids_of (seeds_of ws uuids rows)) u)) (uuids_of found)
      ≡ uuids_of found
  kept = nothing_dropped (uuids_of (seeds_of ws uuids rows)) (uuids_of found) (
      All-uuids_of (λ u. is_in (uuids_of (seeds_of ws uuids rows)) u ≡ false) found
        (All-map
          (λ d. (descends cap ws uuids rows d ≡ true) × (is_found cap ws uuids rows d.uuid ≡ true))
          (λ d. is_in (uuids_of (seeds_of ws uuids rows)) d.uuid ≡ false) found
          (λ d h. not_seed ws uuids d.uuid rows (ground (arith, h.0))) found_lem))

  length-uuids_of : (ds : List RecallRow) → length (uuids_of ds) ≡ length ds
  length-uuids_of [] = refl
  length-uuids_of (d ∷ ds) = ap suc (length-uuids_of ds)

  Covers-found : (cap < length (uuids_of found)) ⊎ Covers cap ws uuids rows (uuids_of found)
  Covers-found = elim (Bool-cases (ltb cap (length (uuids_of found)))) [
    | inl over ↦ inl (ground (arith, over))
    | inr within ↦
        let whole : found ≡ earliest_first (filter (descends cap ws uuids rows) rows) =
          take_whole (cap + 1) (earliest_first (filter (descends cap ws uuids rows) rows))
            (ground (arith, within, length-uuids_of found)) in
        inr (
          All-map
            (λ d. descends cap ws uuids rows d ≡ true → is_found cap ws uuids rows d.uuid ≡ true)
            (λ d. descends cap ws uuids rows d ≡ true → is_in (uuids_of found) d.uuid ≡ true) rows
            (λ d f k.
              is_in-uuids_of d.uuid found
              ∙ ap (any (λ r. str_eq r.uuid d.uuid)) whole
              ∙ any-earliest_first (λ r. str_eq r.uuid d.uuid)
                  (filter (descends cap ws uuids rows) rows)
              ∙ any-filter (descends cap ws uuids rows) (λ r. str_eq r.uuid d.uuid) rows
              ∙ f k)
            (kept_found (descends cap ws uuids rows) rows))
  ]

  -- Without seeds, or with seeds that have neither a node nor a file, nothing (descends cap ws
  -- uuids rows).
  no_seeds :
      (ds seeds : List RecallRow)
      → is_nil (uuids_of seeds) || not (any has_clause seeds) ≡ true
      → All (λ d. is_descendant ws uuids seeds d ≡ false) ds
  no_seeds [] seeds h = tt
  no_seeds (d ∷ ds) [] h = (ground arith, no_seeds ds [] h)
  no_seeds (d ∷ ds) (s ∷ seeds) h =
      (ground (arith, no_clause d (s ∷ seeds) (ground (arith, h))), no_seeds ds (s ∷ seeds) h)

no_uuids : (ws : String) (rows : List RecallRow) → seeds_of ws [] rows ≡ []
no_uuids ws [] = refl
no_uuids ws (r ∷ rows) = ground (arith, no_uuids ws rows)

nil_of : (us : List String) → is_nil us ≡ true → us ≡ []
nil_of [] h = refl
nil_of (u ∷ us) h = absurd (ground (arith, h))

parsed-nil :
    (parse_uuid : String → Option String) (us : List String)
    → is_nil us ≡ true
    → parsed parse_uuid us ≡ []
unfolding parsed
parsed-nil parse_uuid [] h = refl
parsed-nil parse_uuid (u ∷ us) h = absurd (ground (arith, h))

-- Each early return has no seed that anything descends from.
seedless :
    (parse_uuid : String → Option String) (record_uuids : List String) (ws : String)
    (rows : List RecallRow)
    → let uuids = parsed parse_uuid record_uuids in
      let seeds = seeds_of ws uuids rows in
      is_nil record_uuids || is_nil uuids || is_nil (uuids_of seeds) || not (any has_clause seeds)
        ≡ true
      → is_nil (uuids_of seeds) || not (any has_clause seeds) ≡ true
seedless parse_uuid record_uuids ws rows early =
    let uuids = parsed parse_uuid record_uuids in
    elim (Bool-cases (is_nil record_uuids)) [
      | inl none_asked ↦ rw (parsed-nil parse_uuid record_uuids none_asked, no_uuids ws rows) refl
      | inr some_asked ↦ elim (Bool-cases (is_nil uuids)) [
        | inl none_read ↦ rw (nil_of uuids none_read, no_uuids ws rows) refl
        | inr some_read ↦ ground (arith, early, some_asked, some_read)
      ]
    ]

pub sql_blast_radius-IsHonest :
    (cap : ℕ) (parse_uuid : String → Option String) (record_uuids : List String) (ws : String)
    (rows : List RecallRow) (checkpoint : String)
    → IsHonest cap ws
        (parsed parse_uuid record_uuids)
        rows
        (sql_blast_radius cap parse_uuid record_uuids ws rows checkpoint)
unfolding sql_blast_radius
sql_blast_radius-IsHonest cap parse_uuid record_uuids ws rows checkpoint =
    let uuids = parsed parse_uuid record_uuids in
    let seeds = seeds_of ws uuids rows in
    let bare = is_nil (uuids_of seeds) || not (any has_clause seeds) in
    elim (Bool-cases (
      is_nil record_uuids
      || is_nil uuids
      || is_nil (uuids_of seeds)
      || not (any has_clause seeds))) [
        | inl early ↦ rw early (
            checked_empty-IsHonest cap ws uuids rows "sql_canonical" checkpoint (
              no_seeds cap ws uuids rows rows seeds
                (seedless parse_uuid record_uuids ws rows early)))
        | inr late ↦
            rw (late, kept cap ws uuids rows)
              (capped-IsHonest cap ws uuids rows "sql_canonical" checkpoint
                ("sql_graph_fallback: neo4j_disabled, computed lineage via canonical SQL store"
                  ∷ [])
                (uuids_of (found cap ws uuids rows))
                (All-uuids_of (λ u. is_found cap ws uuids rows u ≡ true) (found cap ws uuids rows)
                  (All-map
                    (λ d.
                      (descends cap ws uuids rows d ≡ true)
                      × (is_found cap ws uuids rows d.uuid ≡ true))
                    (λ d. is_found cap ws uuids rows d.uuid ≡ true) (found cap ws uuids rows)
                    (λ d h. h.1) (found_lem cap ws uuids rows)))
                (Covers-found cap ws uuids rows))
      ]

-- Over the tables, the answer is honest: each listed uuid is that of a row of the workspace that was
-- not asked for and descends from a record that was; unless the status says partial, every such row
-- is listed; "checked_empty" says that there is none; and at most 5000 are listed.
pub compute_blast_radius-IsHonest :
    (o : Services) (record_uuids : List String) (ws : String) (rows : List RecallRow)
    (checkpoint : String)
    → (r : BlastRadiusResult) × (compute_blast_radius o none record_uuids ws
          (some rows)
          true
          checkpoint
        ≡ some r)
      × IsHonest 5000 ws (parsed o.parse_uuid record_uuids) rows r
unfolding compute_blast_radius
compute_blast_radius-IsHonest o record_uuids ws rows checkpoint = (
  sql_blast_radius 5000 o.parse_uuid record_uuids ws rows checkpoint,
  refl,
  sql_blast_radius-IsHonest 5000 o.parse_uuid record_uuids ws rows checkpoint,
)
