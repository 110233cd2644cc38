-- ===== src/Retention/Rows.antt =====
-- A table of records of which a front part has been rewritten.
use mathlib.Core.Path.{subst}
use lineagelens.Prelude.{
  cons_inj, eq_refl, String, ◌≡◌, refl, sym, ap, ◌∙◌, false, none, some, List, [], ◌∷◌, ◌++◌, arith,
  eq_iff, str_eq, Bool-cases, inl, inr, map,
}
use lineagelens.Chain.{ProvenanceRecord}
use lineagelens.Lifecycle.{put_row}
use lineagelens.Lifecycle.Erasure.{get_row}
use lineagelens.Integrity.Tombstone.{IsTable}

module _ {P : Type 0} where
  abbrev pub uuids : List (ProvenanceRecord P) → List String
  uuids rows = map (λ r. r.uuid) rows

  get_row-uuids :
      (u : String) (xs ys : List (ProvenanceRecord P))
      → uuids xs ≡ uuids ys
      → get_row u xs ≡ none
      → get_row u ys ≡ none
  unfolding get_row
  get_row-uuids u [] [] e h = refl
  get_row-uuids u [] (y ∷ ys) e h = ground (arith, e)
  get_row-uuids u (x ∷ xs) [] e h = ground (arith, e)
  get_row-uuids u (x ∷ xs) (y ∷ ys) e h =
      let (same, rest) = cons_inj e in ground (arith, same, get_row-uuids u xs ys rest)

  -- Uniqueness is a matter of the uuids.
  pub IsTable-uuids :
      (xs ys : List (ProvenanceRecord P)) → uuids xs ≡ uuids ys → IsTable xs → IsTable ys
  IsTable-uuids [] [] e h = tt
  IsTable-uuids [] (y ∷ ys) e h = ground (arith, e)
  IsTable-uuids (x ∷ xs) [] e h = ground (arith, e)
  IsTable-uuids (x ∷ xs) (y ∷ ys) e h =
      let (same, rest) = cons_inj e in
      (
        get_row-uuids y.uuid xs ys rest (subst (λ u. get_row u xs ≡ none) same h.0),
        IsTable-uuids xs ys rest h.1,
      )

  apart :
      (x : ProvenanceRecord P) (front : List (ProvenanceRecord P)) (r : ProvenanceRecord P)
      (rows : List (ProvenanceRecord P))
      → IsTable (x ∷ front ++ r ∷ rows)
      → get_row r.uuid (front ++ r ∷ rows) ≡ some r
      → str_eq x.uuid r.uuid ≡ false
  apart x front r rows h found = elim (Bool-cases (str_eq x.uuid r.uuid)) [
    | inr other ↦ other
    | inl same ↦
        let absent =
          subst (λ u. get_row u (front ++ r ∷ rows) ≡ none) ((eq_iff x.uuid r.uuid).0 same) h.0 in
        absurd (ground (arith, absent, found))
  ]

  -- The rows in front of a row have other uuids.
  pub get_row-append :
      (front : List (ProvenanceRecord P)) (r : ProvenanceRecord P)
      (rows : List (ProvenanceRecord P))
      → IsTable (front ++ r ∷ rows)
      → get_row r.uuid (front ++ r ∷ rows) ≡ some r
  unfolding get_row
  get_row-append [] r rows h = ground (arith, eq_refl r.uuid)
  get_row-append (x ∷ front) r rows h =
      rw (apart x front r rows h (get_row-append front r rows h.1))
        (get_row-append front r rows h.1)

  pub put_row-append :
      (front : List (ProvenanceRecord P)) (r t : ProvenanceRecord P)
      (rows : List (ProvenanceRecord P))
      → IsTable (front ++ r ∷ rows)
      → t.uuid ≡ r.uuid
      → put_row t (front ++ r ∷ rows) ≡ front ++ t ∷ rows
  unfolding put_row
  put_row-append [] r t rows h e = ground (arith, e, eq_refl r.uuid)
  put_row-append (x ∷ front) r t rows h e =
      let other : str_eq x.uuid t.uuid ≡ false =
        ap (str_eq x.uuid) e ∙ apart x front r rows h (get_row-append front r rows h.1) in
      rw other (ap (λ rest. x ∷ rest) (put_row-append front r t rows h.1 e))

  uuids-append :
      (front : List (ProvenanceRecord P)) (r t : ProvenanceRecord P)
      (rows : List (ProvenanceRecord P))
      → t.uuid ≡ r.uuid
      → uuids (front ++ r ∷ rows) ≡ uuids (front ++ t ∷ rows)
  uuids-append [] r t rows e = ap (λ u. u ∷ uuids rows) (sym e)
  uuids-append (x ∷ front) r t rows e = ap (λ us. x.uuid ∷ us) (uuids-append front r t rows e)

  -- A row may be replaced by one with its uuid.
  pub IsTable-append :
      (front : List (ProvenanceRecord P)) (r t : ProvenanceRecord P)
      (rows : List (ProvenanceRecord P))
      → t.uuid ≡ r.uuid
      → IsTable (front ++ r ∷ rows)
      → IsTable (front ++ t ∷ rows)
  IsTable-append front r t rows e =
      IsTable-uuids (front ++ r ∷ rows) (front ++ t ∷ rows) (uuids-append front r t rows e)
