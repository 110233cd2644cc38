-- ===== src/Actions/Links.antt =====
-- Every session of the ledger stays a hash chain.
use mathlib.Core.Path.{subst}
use mathlib.Core.List.{append-nil}
use lineagelens.Prelude.{
  ℕ, Bool, ◌&&◌, false, All, suc, ◌+◌, String, ◌≡◌, refl, sym, ap, ◌∙◌, true, ◌⊎◌, Option, none,
  some, List, [], ◌∷◌, ◌++◌, arith, eq_iff, eq_refl, Bool-cases, Option-cases, inl, inr, filter,
  filter-append, get_last?, get_last?-append, length, length-append,
}
use lineagelens.Actions.Arguments.{bound_arguments}
use lineagelens.Actions.Risk.{flag_risky_action}
use lineagelens.Actions.Ledger.{
  AgentActionItem, AgentAction, Outside, compute_action_hash, unhashed_row, hashed, record_action,
  as_stored, moment_of, raised, flush_failed, added, ingest_agent_actions, in_session, tail_hash,
  Batch, record_actions, record_actions_batch,
}

module _ (o : Outside) where
  -- Each row names the hash of the one before it, and its own is that of its columns.
  abbrev pub Linked : Option String → List AgentAction → Type 0
  Linked prev [] = Unit
  Linked prev (r ∷ rows) =
      (r.prev_hash ≡ prev)
      × (r.record_hash ≡ some (compute_action_hash o r))
      × Linked r.record_hash rows

  -- The rows of a session, from the first one on.
  abbrev pub IsChained : String → String → List AgentAction → Type 0
  IsChained workspace_id session_key rows =
      Linked none (filter (in_session o workspace_id session_key) rows)

  abbrev last_hash : Option String → List AgentAction → Option String
  last_hash prev rows = elim (get_last? rows) [ none ↦ prev | some r ↦ r.record_hash ]

  last_hash-cons :
      (p q : Option String) (x : AgentAction) (rows : List AgentAction)
      → last_hash p (x ∷ rows) ≡ last_hash q (x ∷ rows)
  last_hash-cons p q x [] = refl
  last_hash-cons p q x (y ∷ rows) = last_hash-cons p q y rows

  Linked-append :
      (prev : Option String) (rows : List AgentAction) (r : AgentAction)
      → Linked prev rows
      → r.prev_hash ≡ last_hash prev rows
      → r.record_hash ≡ some (compute_action_hash o r)
      → Linked prev (rows ++ r ∷ [])
  Linked-append prev [] r h e hash = (e, hash, tt)
  Linked-append prev (x ∷ []) r h e hash = (h.0, h.1, Linked-append x.record_hash [] r tt e hash)
  Linked-append prev (x ∷ y ∷ rows) r h e hash = (
    h.0,
    h.1,
    Linked-append x.record_hash (y ∷ rows) r h.2 (e ∙ last_hash-cons prev x.record_hash y rows)
        hash,
  )

  -- The column keeps the moment of the action.
  abbrev pub KeepsMoment : AgentActionItem → Type 0
  KeepsMoment action = o.stored_moment (moment_of o action) ≡ moment_of o action

  module _ (ws key : String) (context : Option String) where
    -- It raises, its flush fails, or it adds a row of the session that is linked to the given hash.
    record_action_cases :
        (action : AgentActionItem) (prev : Option String) (active : Bool) (rows : List AgentAction)
        → KeepsMoment action
        → (record_action o ws key context action prev active rows ≡ raised)
          ⊎ ((record_action o ws key context action prev active rows ≡ flush_failed)
              ⊎ ((row : AgentAction) × (row.workspace_id ≡ ws)
                  × (row.session_key ≡ key)
                  × (row.prev_hash ≡ prev)
                  × (row.record_hash ≡ some (compute_action_hash o row))
                  × (record_action o ws key context action prev active rows
                      ≡ added row (rows ++ row ∷ []))))
    unfolding record_action unhashed_row compute_action_hash
    record_action_cases action prev active rows keeps =
        let args = bound_arguments o.dumps_length action.arguments in
        elim (Option-cases (flag_risky_action o.searches action.action_type args)) [
          | inl raises ↦ inl (rw (record_action, raises) refl)
          | inr (risk, flagged) ↦
              let made = hashed o (unhashed_row o ws key context action args risk prev) in
              elim (Bool-cases (active && o.accepts made)) [
                | inr refused ↦ inr (inl (rw (record_action, flagged, refused) refl))
                | inl stored ↦ inr (
                    inr (
                      made,
                      refl,
                      refl,
                      refl,
                      refl,
                      rw (record_action, flagged, stored)
                          (ap (λ t. added made (rows ++ record made { occurred_at = t } ∷ []))
                            keeps),
                    ))
              ]
        ]

    -- A row of this session is linked into whichever session is looked at.
    IsChained-append :
        (ws' key' : String) (rows : List AgentAction) (row : AgentAction)
        → row.workspace_id ≡ ws
        → row.session_key ≡ key
        → row.prev_hash ≡ tail_hash o ws key rows
        → row.record_hash ≡ some (compute_action_hash o row)
        → IsChained ws' key' rows
        → IsChained ws' key' (rows ++ row ∷ [])
    unfolding tail_hash
    IsChained-append ws' key' rows row same_ws same_key prev hash chained =
        let split = filter-append (in_session o ws' key') rows (row ∷ []) in
        elim (Bool-cases (in_session o ws' key' row)) [
          | inr other ↦
              let alone : filter (in_session o ws' key') (row ∷ []) ≡ [] = rw other refl in
              subst (Linked none)
                (sym (
                  split
                  ∙ ap (λ xs. filter (in_session o ws' key') rows ++ xs) alone
                  ∙ append-nil (filter (in_session o ws' key') rows)))
                chained
          | inl here ↦
              let alone : filter (in_session o ws' key') (row ∷ []) ≡ row ∷ [] = rw here refl in
              let is_ws : ws ≡ ws' =
                sym same_ws ∙ ground (arith, here, eq_iff row.workspace_id ws') in
              let is_key : key ≡ key' =
                sym same_key ∙ ground (arith, here, eq_iff row.session_key key') in
              let tail : row.prev_hash ≡ last_hash none (filter (in_session o ws' key') rows) =
                prev
                ∙ ap (λ w. tail_hash o w key rows) is_ws
                ∙ ap (λ k. tail_hash o ws' k rows) is_key in
              subst (Linked none)
                (sym (split ∙ ap (λ xs. filter (in_session o ws' key') rows ++ xs) alone))
                (Linked-append none (filter (in_session o ws' key') rows) row chained tail hash)
        ]

    tail_hash-append :
        (rows : List AgentAction) (row : AgentAction)
        → row.workspace_id ≡ ws
        → row.session_key ≡ key
        → tail_hash o ws key (rows ++ row ∷ []) ≡ row.record_hash
    unfolding tail_hash
    tail_hash-append rows row same_ws same_key =
        let here : in_session o ws key row ≡ true =
          ground (arith, same_ws, same_key, eq_refl ws, eq_refl key) in
        let alone : filter (in_session o ws key) (row ∷ []) ≡ row ∷ [] = rw here refl in
        let split =
          filter-append (in_session o ws key) rows (row ∷ [])
          ∙ ap (λ xs. filter (in_session o ws key) rows ++ xs) alone in
        rw (tail_hash, split, get_last?-append (filter (in_session o ws key) rows) row) refl

    -- The loop, started at the end of the session's chain.
    record_actions_lem :
        (ws' key' : String) (actions : List AgentActionItem) (prev : Option String)
        (batch : Batch o)
        → All KeepsMoment actions
        → prev ≡ tail_hash o ws key batch.rows
        → IsChained ws' key' batch.rows
        → IsChained ws' key' (record_actions o ws key context actions prev batch).rows
          × ((record_actions o ws key context actions prev batch).recorded
                + (record_actions o ws key context actions prev batch).skipped
              ≡ batch.recorded + batch.skipped + length actions)
          × (length (record_actions o ws key context actions prev batch).rows + batch.recorded
              ≡ length batch.rows + (record_actions o ws key context actions prev batch).recorded)
    unfolding record_actions
    record_actions_lem ws' key' [] prev batch keeps e chained = (chained, omega arith, refl)
    record_actions_lem ws' key' (action ∷ actions) prev batch keeps e chained =
        elim (record_action_cases action prev batch.is_active batch.rows keeps.0) [
          | inl raises ↦
              let rest =
                record_actions_lem ws' key' actions prev
                  (record batch { skipped = suc batch.skipped }) keeps.1 e chained in
              rw (record_actions, raises) (rest.0, rest.1 ∙ omega arith, rest.2)
          | inr (inl fails) ↦
              let rest =
                record_actions_lem ws' key' actions prev
                  (record batch { skipped = suc batch.skipped; is_active = false }) keeps.1 e
                  chained in
              rw (record_actions, fails) (rest.0, rest.1 ∙ omega arith, rest.2)
          | inr (inr (row, same_ws, same_key, linked, hash, adds)) ↦
              let rest =
                record_actions_lem ws' key' actions row.record_hash
                  (record batch { rows = batch.rows ++ row ∷ []; recorded = suc batch.recorded })
                  keeps.1 (sym (tail_hash-append batch.rows row same_ws same_key))
                  (IsChained-append ws' key' batch.rows row same_ws same_key (linked ∙ e) hash
                    chained) in
              rw (record_actions, adds)
                (
                  rest.0,
                  rest.1 ∙ omega arith,
                  omega (arith, rest.2, length-append batch.rows (row ∷ [])),
                )
        ]

    -- The session stays active where the database accepts every row.
    record_action_accepted :
        (accepting : (r : AgentAction) → o.accepts r ≡ true) (action : AgentActionItem)
        (prev : Option String) (rows : List AgentAction)
        → (record_action o ws key context action prev true rows ≡ raised)
          ⊎ ((row : AgentAction) × (rows' : List AgentAction) × (record_action o ws key context
                  action prev true rows
                ≡ added row rows'))
    unfolding record_action
    record_action_accepted accepting action prev rows =
        let args = bound_arguments o.dumps_length action.arguments in
        elim (Option-cases (flag_risky_action o.searches action.action_type args)) [
          | inl raises ↦ inl (rw (record_action, raises) refl)
          | inr (risk, flagged) ↦
              let made = hashed o (unhashed_row o ws key context action args risk prev) in
              let taken = accepting made in
              inr (made, rows ++ as_stored o made ∷ [], rw (record_action, flagged, taken) refl)
        ]

    record_actions_active :
        (accepting : (r : AgentAction) → o.accepts r ≡ true) (actions : List AgentActionItem)
        (prev : Option String) (batch : Batch o)
        → batch.is_active ≡ true
        → (record_actions o ws key context actions prev batch).is_active ≡ true
    unfolding record_actions
    record_actions_active accepting [] prev batch active = active
    record_actions_active accepting (action ∷ actions) prev batch active =
        let same = ap (λ b. record_action o ws key context action prev b batch.rows) active in
        elim (record_action_accepted accepting action prev batch.rows) [
          | inl raises ↦
              let e = same ∙ raises in
              rw (record_actions, e)
                (record_actions_active accepting actions prev
                  (record batch { skipped = suc batch.skipped }) active)
          | inr (row, rows', adds) ↦
              let e = same ∙ adds in
              rw (record_actions, e)
                (record_actions_active accepting actions row.record_hash
                  (record batch { rows = rows'; recorded = suc batch.recorded }) active)
        ]

module _ (o : Outside) (ws key : String) (context : Option String) where
  -- An answer counts every action once, as recorded or as skipped, and the table grows by the
  -- recorded ones; without an answer it stays as it was.
  abbrev pub Counted :
      List AgentActionItem → List AgentAction → Option (ℕ × ℕ) × List AgentAction → Type 0
  Counted actions rows result = elim result.0 [
    | none ↦ result.1 ≡ rows
    | some counts ↦
        (counts.0 + counts.1 ≡ length actions) × (length result.1 ≡ length rows + counts.0)
  ]

  -- Where the database gives the moments of the actions back as they are hashed, the route leaves
  -- every session of every workspace a chain, whichever actions raise and whichever flush fails: each
  -- row holds the hash of the row before it and the digest of its own columns. An answer counts every
  -- action once, as recorded or as skipped, and the ledger grows by the recorded ones; without an
  -- answer the ledger stays as it was. There is an answer where the database accepts every row.
  pub ingest_agent_actions-IsChained :
      (actions : List AgentActionItem) (rows : List AgentAction) (ws' key' : String)
      → All (KeepsMoment o) actions
      → IsChained o ws' key' rows
      → let result = ingest_agent_actions o ws key context actions rows in
        IsChained o ws' key' result.1
        × Counted actions rows result
        × (((r : AgentAction) → o.accepts r ≡ true) → (counts : ℕ × ℕ) × (result.0 ≡ some counts))
  unfolding ingest_agent_actions record_actions_batch
  ingest_agent_actions-IsChained [] rows ws' key' keeps chained =
      (chained, (refl, omega arith), λ accepting. ((0, 0), refl))
  ingest_agent_actions-IsChained (action ∷ actions) rows ws' key' keeps chained =
      let batch = record_actions_batch o ws key context (action ∷ actions) rows in
      let start : Batch o = record { rows = rows; recorded = 0; skipped = 0; is_active = true } in
      let (linked, counted, grown) =
        record_actions_lem o ws key context ws' key' (action ∷ actions) (tail_hash o ws key rows)
          start keeps refl chained in
      elim (Bool-cases batch.is_active) [
        | inl active ↦
            rw (ingest_agent_actions, active)
              (
                linked,
                (counted ∙ omega arith, omega (arith, grown)),
                λ accepting. ((batch.recorded, batch.skipped), refl),
              )
        | inr failed ↦
            rw (ingest_agent_actions, failed)
              (
                chained,
                refl,
                λ accepting.
                    let active =
                      record_actions_active o ws key context accepting (action ∷ actions)
                        (tail_hash o ws key rows) start refl in
                    absurd (ground (arith, failed, active)),
              )
      ]
