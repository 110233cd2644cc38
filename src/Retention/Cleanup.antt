-- ===== src/Retention/Cleanup.antt =====
-- The whole sweep against its specification, record by record, and the chains after it.
use mathlib.Core.Path.{subst}
use lineagelens.Prelude.{
  ℕ, String, ◌≡◌, refl, sym, ap, ◌∙◌, Bool, Option, none, some, List, [], ◌∷◌, arith, of_some,
  Option-cases, Bool-cases, inl, inr, map, filter, All,
}
use lineagelens.Attestation.{Signing}
use lineagelens.Chain.{Hashing, ProvenanceRecord}
use lineagelens.Lifecycle.{LifecycleClaims, Request, Db, scrubbed}
use lineagelens.Integrity.Tombstone.{IsTable}
use lineagelens.Retention.{
  RetentionPolicy, is_moment, is_to_delete, is_to_redact, deletion_request, redaction_request,
  Counts, apply_events, redact_old, sweep, sweep_all,
}
use lineagelens.Retention.Rows.{IsTable-uuids}
use lineagelens.Retention.Sweep.{
  rewritten, uuids-rewritten, Keeps, apply_events_lem, redacted_by, settled, settled_lem,
  settled_all,
}

map-map :
    {A : Type 0} (f g k : A → A) (xs : List A)
    → ((x : A) → f (g x) ≡ k x)
    → map f (map g xs) ≡ map k xs
map-map f g k [] e = refl
map-map f g k (x ∷ xs) e = ground (arith, e x, map-map f g k xs e)

map_id : {A : Type 0} (xs : List A) → xs ≡ map (λ x. x) xs
map_id [] = refl
map_id (x ∷ xs) = ap (λ rest. x ∷ rest) (map_id xs)

module _ {P T : Type 0} (h : Hashing P T) (Sound : ProvenanceRecord P → Type 0)
    (stays : (r : ProvenanceRecord P) (q : Request) → Sound r → Sound (scrubbed h r q)) where
  Sound-rewritten :
      (q : Request) (due : ProvenanceRecord P → Bool) (rows : List (ProvenanceRecord P))
      → All Sound rows
      → All Sound (map (λ r. rewritten h q (due r) r) rows)
  Sound-rewritten q due [] sound = tt
  Sound-rewritten q due (r ∷ rows) sound =
      let rest = Sound-rewritten q due rows sound.1 in
      elim (Bool-cases (due r)) [
        | inl reached ↦ rw reached (stays r q sound.0, rest)
        | inr other ↦ rw other (sound.0, rest)
      ]

module _ {P T : Type 0} (h : Hashing P T) (s : Signing LifecycleClaims T) (moment_of : String → ℕ)
    (str_int : ℕ → String) (clock : String → ℕ) (Inv : Db P T → Type 0)
    (Sound : ProvenanceRecord P → Type 0) (keeps : Keeps h s clock Inv Sound)
    (stays : (r : ProvenanceRecord P) (q : Request) → Sound r → Sound (scrubbed h r q)) where
  -- A database after a step that rewrites its rows one by one.
  abbrev After : (ProvenanceRecord P → ProvenanceRecord P) → Db P T → Db P T → Type 0
  After f db db' =
      (db'.records ≡ map f db.records)
      × IsTable db'.records
      × All Sound db'.records
      × (Inv db → Inv db')

  After-refl : (db : Db P T) → IsTable db.records → All Sound db.records → After (λ r. r) db db
  After-refl db t sound = (map_id db.records, t, sound, λ i. i)

  After-trans :
      (f g k : ProvenanceRecord P → ProvenanceRecord P) (db first db' : Db P T)
      → ((r : ProvenanceRecord P) → g (f r) ≡ k r)
      → After f db first
      → After g first db'
      → After k db db'
  After-trans f g k db first db' e (out, table, all, inv) (out', table', all', inv') =
      (out' ∙ ap (map g) out ∙ map-map g f k db.records e, table', all', λ i. inv' (inv i))

  -- The rows stay a table of sound rows.
  events_outcome :
      (q : Request) (due : ProvenanceRecord P → Bool) (db db' : Db P T)
      → IsTable db.records
      → All Sound db.records
      → apply_events h s clock q (filter due db.records) db ≡ some db'
      → After (λ r. rewritten h q (due r) r) db db'
  events_outcome q due db db' t sound done =
      let (out, inv) =
        apply_events_lem h s clock Inv Sound keeps q due [] db.records db db' refl t sound done in
      let rows = map (λ r. rewritten h q (due r) r) db.records in
      let table : IsTable rows =
        IsTable-uuids db.records rows (sym (uuids-rewritten h q due db.records)) t in
      (
        out,
        subst IsTable (sym out) table,
        subst (All Sound) (sym out) (Sound-rewritten h Sound stays q due db.records sound),
        inv,
      )

  redact_old_lem :
      (policy : RetentionPolicy) (days : Option ℕ) (now : ℕ) (counts counts' : Counts)
      (db db' : Db P T)
      → IsTable db.records
      → All Sound db.records
      → redact_old h s moment_of str_int clock policy days now counts db ≡ some (counts', db')
      → After (redacted_by h moment_of str_int policy now days) db db'
  unfolding redact_old
  redact_old_lem policy none now counts counts' db db' t sound done =
      subst (After (λ r. r) db) (ap (λ p. p.1) (of_some done)) (After-refl db t sound)
  redact_old_lem policy (some days) now counts counts' db db' t sound done =
      let q = redaction_request str_int policy days in
      let due = is_to_redact moment_of policy days now in
      elim (Bool-cases (is_moment now days)) [
        | inr early ↦ absurd (ground (arith, rw (redact_old, early) at done))
        | inl dated ↦ elim (Option-cases (apply_events h s clock q (filter due db.records) db)) [
          | inl fails ↦ absurd (ground (arith, rw (redact_old, dated, fails) at done))
          | inr (changed, runs) ↦
              let same = ap (λ p. p.1) (of_some (rw (redact_old, dated, runs) at done)) in
              subst (After (λ r. rewritten h q (due r) r) db) same
                (events_outcome q due db changed t sound runs)
        ]
      ]

  sweep_lem :
      (policy : RetentionPolicy) (now : ℕ) (counts counts' : Counts) (db db' : Db P T)
      → IsTable db.records
      → All Sound db.records
      → sweep h s moment_of str_int clock policy now counts db ≡ some (counts', db')
      → After (settled h moment_of str_int policy now) db db'
  unfolding sweep
  sweep_lem policy now counts counts' db db' t sound done =
      let q = deletion_request str_int policy in
      let due = is_to_delete moment_of policy now in
      let redact = redacted_by h moment_of str_int policy now policy.redact_after_days in
      elim (Bool-cases (is_moment now policy.retain_days)) [
        | inr early ↦ absurd (ground (arith, rw (sweep, early) at done))
        | inl dated ↦ elim (Option-cases (apply_events h s clock q (filter due db.records) db)) [
          | inl fails ↦ absurd (ground (arith, rw (sweep, dated, fails) at done))
          | inr (first, runs) ↦
              let deleted = events_outcome q due db first t sound runs in
              let redacted =
                redact_old_lem policy policy.redact_after_days now _ counts' first db' deleted.1
                  deleted.2 (rw (sweep, dated, runs) at done) in
              After-trans (λ r. rewritten h q (due r) r) redact
                (settled h moment_of str_int policy now) db first db'
                (settled_lem h moment_of str_int policy now) deleted redacted
        ]
      ]

  pub sweep_all_lem :
      (policies : List RetentionPolicy) (now : ℕ) (counts counts' : Counts) (db db' : Db P T)
      → IsTable db.records
      → All Sound db.records
      → sweep_all h s moment_of str_int clock policies now counts db ≡ some (counts', db')
      → After (settled_all h moment_of str_int policies now) db db'
  unfolding sweep_all
  sweep_all_lem [] now counts counts' db db' t sound done =
      subst (After (λ r. r) db) (ap (λ p. p.1) (of_some done)) (After-refl db t sound)
  sweep_all_lem (policy ∷ policies) now counts counts' db db' t sound done =
      elim (Option-cases (sweep h s moment_of str_int clock policy now counts db)) [
        | inl fails ↦ absurd (ground (arith, rw (sweep_all, fails) at done))
        | inr ((more, first), runs) ↦
            let head = sweep_lem policy now counts more db first t sound runs in
            let rest =
              sweep_all_lem policies now more counts' first db' head.1 head.2
                (rw (sweep_all, runs) at done) in
            After-trans (settled h moment_of str_int policy now)
              (settled_all h moment_of str_int policies now)
              (settled_all h moment_of str_int (policy ∷ policies) now) db first db' (λ r. refl)
              head rest
      ]
