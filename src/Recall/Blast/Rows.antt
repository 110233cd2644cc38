-- ===== src/Recall/Blast/Rows.antt =====
-- Rows that are filtered, sorted and cut, and the seeds of a search.
use lineagelens.Prelude.{
  ℕ, zero, suc, ◌≤◌, ◌<◌, String, ◌≡◌, inl, inr, refl, ap, ◌∙◌, Bool, true, false, not, ◌&&◌, ◌||◌,
  Option, none, some, List, [], ◌∷◌, arith, eq_refl, eq_iff, leb, ltb, take, any, filter, map,
  length, str_eq, All, Bool-cases,
}
use lineagelens.Recall.{RecallRow, is_in}
use lineagelens.Recall.Blast.{
  insert_earliest, earliest_first, has_node, same_node, descends_from, has_clause, is_seed,
}

module _ (p : RecallRow → Bool) where
  any-insert_earliest :
      (r : RecallRow) (xs : List RecallRow) → any p (insert_earliest r xs) ≡ p r || any p xs
  unfolding insert_earliest
  any-insert_earliest r [] = refl
  any-insert_earliest r (x ∷ xs) = ground (arith, any-insert_earliest r xs)

  pub any-earliest_first : (xs : List RecallRow) → any p (earliest_first xs) ≡ any p xs
  unfolding earliest_first
  any-earliest_first [] = refl
  any-earliest_first (x ∷ xs) =
      any-insert_earliest x (earliest_first xs) ∙ ap (λ b. p x || b) (any-earliest_first xs)

module _ (P : RecallRow → Type 0) where
  All-insert_earliest :
      (r : RecallRow) (xs : List RecallRow) → P r → All P xs → All P (insert_earliest r xs)
  unfolding insert_earliest
  All-insert_earliest r [] h hs = (h, tt)
  All-insert_earliest r (x ∷ xs) h hs = elim (Bool-cases (leb r.timestamp_iso x.timestamp_iso)) [
    | inl early ↦ rw early (h, hs)
    | inr late ↦ rw late (hs.0, All-insert_earliest r xs h hs.1)
  ]

  pub All-earliest_first : (xs : List RecallRow) → All P xs → All P (earliest_first xs)
  unfolding earliest_first
  All-earliest_first [] h = tt
  All-earliest_first (x ∷ xs) h =
      All-insert_earliest x (earliest_first xs) h.0 (All-earliest_first xs h.1)

  pub All-filter :
      (p : RecallRow → Bool) (xs : List RecallRow)
      → All (λ r. p r ≡ true → P r) xs
      → All P (filter p xs)
  All-filter p [] h = tt
  All-filter p (x ∷ xs) h = elim (Bool-cases (p x)) [
    | inl kept ↦ rw kept (h.0 kept, All-filter p xs h.1)
    | inr gone ↦ rw gone (All-filter p xs h.1)
  ]

pub All-take : {A : Type 0} (P : A → Type 0) (n : ℕ) (xs : List A) → All P xs → All P (take n xs)
All-take P zero xs h = tt
All-take P (suc n) [] h = tt
All-take P (suc n) (x ∷ xs) h = (h.0, All-take P n xs h.1)

pub take_whole : {A : Type 0} (n : ℕ) (xs : List A) → length (take n xs) < n → take n xs ≡ xs
take_whole zero xs h = absurd (omega arith)
take_whole (suc n) [] h = refl
take_whole (suc n) (x ∷ xs) h = ap (λ t. x ∷ t) (take_whole n xs (omega arith))

pub length-take : {A : Type 0} (n : ℕ) (xs : List A) → length (take n xs) ≤ n
length-take zero xs = omega arith
length-take (suc n) [] = omega arith
length-take (suc n) (x ∷ xs) = omega (arith, length-take n xs)

abbrev pub uuids_of : List RecallRow → List String
uuids_of rows = map (λ r. r.uuid) rows

pub is_in-uuids_of :
    (u : String) (rows : List RecallRow) → is_in (uuids_of rows) u ≡ any (λ r. str_eq r.uuid u) rows
is_in-uuids_of u [] = refl
is_in-uuids_of u (r ∷ rows) = ap (λ b. str_eq r.uuid u || b) (is_in-uuids_of u rows)

pub All-uuids_of :
    (P : String → Type 0) (rows : List RecallRow) → All (λ r. P r.uuid) rows → All P (uuids_of rows)
All-uuids_of P [] h = tt
All-uuids_of P (r ∷ rows) h = (h.0, All-uuids_of P rows h.1)

pub All-map :
    {A : Type 0} (P Q : A → Type 0) (xs : List A) → ((x : A) → P x → Q x) → All P xs → All Q xs
All-map P Q [] f h = tt
All-map P Q (x ∷ xs) f h = (f x h.0, All-map P Q xs f h.1)

-- A row that the test keeps is found again, by the test and by its uuid.
pub kept_found :
    (p : RecallRow → Bool) (rows : List RecallRow)
    → All (λ d. p d ≡ true → any (λ x. p x && str_eq x.uuid d.uuid) rows ≡ true) rows
kept_found p [] = tt
kept_found p (r ∷ rows) = (
  λ k. rw (k, eq_refl r.uuid) refl,
  All-map (λ d. p d ≡ true → any (λ x. p x && str_eq x.uuid d.uuid) rows ≡ true)
      (λ d. p d ≡ true → any (λ x. p x && str_eq x.uuid d.uuid) (r ∷ rows) ≡ true) rows
      (λ d f k. ground (arith, f k)) (kept_found p rows),
)

pub any-filter :
    (p q : RecallRow → Bool) (rows : List RecallRow)
    → any q (filter p rows) ≡ any (λ x. p x && q x) rows
any-filter p q [] = refl
any-filter p q (r ∷ rows) = ground (arith, any-filter p q rows)

-- The uuids of the seeds are among those that were asked for.
pub not_seed :
    (ws : String) (uuids : List String) (u : String) (rows : List RecallRow)
    → is_in uuids u ≡ false
    → is_in (uuids_of (filter (is_seed ws uuids) rows)) u ≡ false
not_seed ws uuids u [] h = refl
not_seed ws uuids u (r ∷ rows) h = elim (Bool-cases (is_seed ws uuids r)) [
  | inr other ↦ rw other (not_seed ws uuids u rows h)
  | inl seed ↦ elim (Bool-cases (str_eq r.uuid u)) [
    | inr apart ↦ rw (seed, apart) (not_seed ws uuids u rows h)
    | inl same ↦
        let asked : is_in uuids r.uuid ≡ true = ground (arith, seed) in
        absurd (ground (arith, asked, h, ap (is_in uuids) ((eq_iff r.uuid u).0 same)))
  ]
]

pub nothing_dropped :
    (seed_uuids us : List String)
    → All (λ u. is_in seed_uuids u ≡ false) us
    → filter (λ u. not (is_in seed_uuids u)) us ≡ us
nothing_dropped seed_uuids [] h = refl
nothing_dropped seed_uuids (u ∷ us) h = rw h.0 (ap (λ t. u ∷ t) (nothing_dropped seed_uuids us h.1))

descends_from-clause : (r seed : RecallRow) → has_clause seed ≡ false → descends_from r seed ≡ false
descends_from-clause r seed h =
    by_nodes seed.lineage_node_id r.lineage_node_id (ground arith) (ground arith)
  where
    by_nodes :
        (a b : Option String)
        → has_node a ≡ false
        → str_eq seed.file_path "" ≡ true
        → same_node a b
            || (not (str_eq seed.file_path "")
                && str_eq seed.file_path r.file_path
                && ltb seed.timestamp_iso r.timestamp_iso)
          ≡ false
    by_nodes none b n f = rw f refl
    by_nodes (some a) none n f = rw f refl
    by_nodes (some a) (some b) n f = ground (arith, n, f)

pub no_clause :
    (r : RecallRow) (seeds : List RecallRow)
    → any has_clause seeds ≡ false
    → any (descends_from r) seeds ≡ false
no_clause r [] h = refl
no_clause r (s ∷ seeds) h = ground (arith, no_clause r seeds, descends_from-clause r s)
