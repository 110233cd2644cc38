-- ===== src/Recall/Blast/Honest.antt =====
-- When an answer is honest about what it covers, and the cap.
use lineagelens.Prelude.{
  ℕ, ◌≤◌, ◌<◌, String, ◌≡◌, ◌⊎◌, inl, inr, refl, sym, ap, ◌∙◌, Bool, true, false, ◌&&◌, List, [],
  ◌∷◌, arith, ltb, any, filter, length, str_eq, All, Bool-cases,
}
use lineagelens.Recall.{RecallRow, is_in}
use lineagelens.Recall.Blast.{BlastRadiusResult, checked_empty, capped, is_seed, is_descendant}
use lineagelens.Recall.Blast.Rows.{All-take, length-take, All-map}

not_empty : (status : String) → str_eq status "checked_empty" ≡ false → ¬ (status ≡ "checked_empty")
not_empty status h e = ground (arith, h, ap (λ s. str_eq s "checked_empty") e)

-- The records that were asked for.
abbrev pub seeds_of : String → List String → List RecallRow → List RecallRow
seeds_of ws uuids rows = filter (is_seed ws uuids) rows

module _ (cap : ℕ) (ws : String) (uuids : List String) (rows : List RecallRow) where
  -- The row is of the workspace, was not asked for, and descends from a record that was.
  abbrev pub descends : RecallRow → Bool
  descends = is_descendant ws uuids (seeds_of ws uuids rows)

  -- The uuid is that of such a row.
  abbrev pub is_found : String → Bool
  is_found u = any (λ d. descends d && str_eq d.uuid u) rows

  abbrev pub Covers : List String → Type 0
  Covers us = All (λ d. descends d ≡ true → is_in us d.uuid ≡ true) rows

  -- What is listed descends; unless the status says partial, all that descends is listed; "checked
  -- empty" says that there is nothing; and the cap holds.
  pub record IsHonest (r : BlastRadiusResult) : Type 0 where
    pub listed : All (λ u. is_found u ≡ true) r.descendant_uuids
    pub complete : (r.coverage_status ≡ "blast_radius_partial") ⊎ Covers r.descendant_uuids
    pub empty : r.coverage_status ≡ "checked_empty" → All (λ d. descends d ≡ false) rows
    pub bounded : length r.descendant_uuids ≤ cap

  covers_nothing :
      (ds : List RecallRow)
      → All (λ d. descends d ≡ true → is_in [] d.uuid ≡ true) ds
      → All (λ d. descends d ≡ false) ds
  covers_nothing ds h =
      All-map (λ d. descends d ≡ true → is_in [] d.uuid ≡ true) (λ d. descends d ≡ false) ds
        (λ d f. elim (Bool-cases (descends d)) [
          | inl found ↦ absurd (ground (arith, f found))
          | inr other ↦ other
        ])
        h

  status_partial :
      (source checkpoint : String) (limitations us : List String)
      → ltb cap (length us) ≡ true
      → (capped cap source checkpoint limitations us).coverage_status ≡ "blast_radius_partial"
  unfolding capped
  status_partial source checkpoint limitations us h = rw h refl

  status_checked :
      (source checkpoint : String) (limitations : List String) (u : String) (us : List String)
      → ltb cap (length (u ∷ us)) ≡ false
      → (capped cap source checkpoint limitations (u ∷ us)).coverage_status ≡ "checked"
  unfolding capped
  status_checked source checkpoint limitations u us h = rw h refl

  status_empty :
      (source checkpoint : String) (limitations us : List String)
      → ltb cap (length us) ≡ false
      → (capped cap source checkpoint limitations us).coverage_status ≡ "checked_empty"
      → us ≡ []
  status_empty source checkpoint limitations [] h e = refl
  status_empty source checkpoint limitations (u ∷ us) h e =
      absurd
        (not_empty "checked" refl (sym (status_checked source checkpoint limitations u us h) ∙ e))

  pub capped-IsHonest :
      (source checkpoint : String) (limitations us : List String)
      → All (λ u. is_found u ≡ true) us
      → (cap < length us) ⊎ Covers us
      → IsHonest (capped cap source checkpoint limitations us)
  unfolding capped
  capped-IsHonest source checkpoint limitations us listed covers =
      elim (Bool-cases (ltb cap (length us))) [
        | inl over ↦ record {
          listed = rw over (All-take (λ u. is_found u ≡ true) cap us listed);
          complete = inl (status_partial source checkpoint limitations us over);
          empty = λ e. absurd (
              not_empty "blast_radius_partial" refl
                (sym (status_partial source checkpoint limitations us over) ∙ e));
          bounded = rw over (length-take cap us);
        }
        | inr within ↦
            let all : Covers us = elim covers [
              | inl more ↦ absurd (ground (arith, more, within))
              | inr c ↦ c
            ] in
            record {
              listed = rw within listed;
              complete = rw within (inr all);
              empty = λ e.
                  covers_nothing rows
                    (rw (status_empty source checkpoint limitations us within e) at all);
              bounded = rw within (ground (arith, within));
            }
      ]

  pub checked_empty-IsHonest :
      (source checkpoint : String)
      → All (λ d. descends d ≡ false) rows
      → IsHonest (checked_empty source checkpoint)
  checked_empty-IsHonest source checkpoint h = record {
    listed = tt;
    complete = inr (
        All-map (λ d. descends d ≡ false) (λ d. descends d ≡ true → is_in [] d.uuid ≡ true) rows
          (λ d f k. absurd (ground (arith, f, k))) h);
    empty = λ e. h;
    bounded = omega arith;
  }
