-- ===== src/Retention/Chains.antt =====
-- The sweep leaves the chains verifiable.
use lineagelens.Prelude.{
  ℕ, String, ◌≡◌, ◌≢◌, sym, ◌∙◌, true, Option, none, some, List, arith, Option-cases, inl, inr, All,
  Dict, of_some,
}
use lineagelens.Attestation.{Signing, Statement, KeyRecord, with_signature, verify_attestation}
use lineagelens.Chain.{Hashing, ProvenanceRecord, compute_prompt_sha256, compute_content_sha256}
use lineagelens.Lifecycle.{
  LifecycleClaims, Request, Db, scrubbed, lifecycle_statement, if_none, or_else,
}
use lineagelens.Lifecycle.Rows.{scrubbed-IsTombstone}
use lineagelens.Integrity.{verify_chain}
use lineagelens.Integrity.Tombstone.{IsTable}
use lineagelens.Integrity.Privacy.{apply_lifecycle_event-verified}
use lineagelens.Retention.{RetentionPolicy, Counts, run_retention_cleanup, selected}
use lineagelens.Retention.Cleanup.{sweep_all_lem}

-- The stored digests of a row are not the empty text.
abbrev pub HasDigests : {P : Type 0} → ProvenanceRecord P → Type 0
HasDigests r = (r.prompt_sha256 ≢ some "") × (r.content_sha256 ≢ some "")

module _ {P T : Type 0} (h : Hashing P T) (proper : (x : T) → h.sha256_hex x ≢ "") where
  filled_ne :
      (stored computed : Option String)
      → stored ≢ some ""
      → computed ≢ some ""
      → if_none stored (or_else stored computed) ≢ some ""
  filled_ne none computed hs hc = hc
  filled_ne (some a) computed hs hc = hs

  some_ne : (x : T) → some (h.sha256_hex x) ≢ some ""
  some_ne x e = proper x (of_some e)

  compute_prompt_sha256_ne : (prompt : Option P) → compute_prompt_sha256 h prompt ≢ some ""
  unfolding compute_prompt_sha256
  compute_prompt_sha256_ne none e = ground (arith, e)
  compute_prompt_sha256_ne (some prompt) e = elim (Option-cases (h.dumps_prompt prompt)) [
    | inl raises ↦ ground (arith, e, raises, some_ne (h.str_prompt prompt))
    | inr (canonical, dumped) ↦ ground (arith, e, dumped, some_ne canonical)
  ]

  compute_content_sha256_ne : (code : String) → compute_content_sha256 h (some code) ≢ some ""
  unfolding compute_content_sha256
  compute_content_sha256_ne code e = some_ne (h.encode code) e

  HasDigests-scrubbed :
      (r : ProvenanceRecord P) (q : Request) → HasDigests r → HasDigests (scrubbed h r q)
  HasDigests-scrubbed r q sound =
      let tomb = scrubbed-IsTombstone h r q in
      (
        λ e.
            filled_ne r.prompt_sha256 (compute_prompt_sha256 h r.prompt_messages) sound.0
              (compute_prompt_sha256_ne r.prompt_messages) (sym tomb.prompt_sha256 ∙ e),
        λ e.
            filled_ne r.content_sha256 (compute_content_sha256 h (some r.inserted_code)) sound.1
              (compute_content_sha256_ne r.inserted_code) (sym tomb.content_sha256 ∙ e),
      )

-- A workspace whose chain verified before the cleanup verifies after it, whichever workspaces were
-- cleaned, where statements read back as they were written, the signatures of this service verify,
-- a hexadecimal digest is not empty, and neither is a stored one.
pub run_retention_cleanup-verified :
    {P T : Type 0} (h : Hashing P T) (s : Signing LifecycleClaims T) (moment_of : String → ℕ)
    (str_int : ℕ → String) (clock : String → ℕ) (registry : Dict KeyRecord) (at : ℕ)
    (policies : List RetentionPolicy) (workspace_id : Option String) (now : ℕ) (ws user : String)
    (db db' : Db P T) (counts : Counts)
    → ((x : T) → h.sha256_hex x ≢ "")
    → ((st : Statement LifecycleClaims) → s.loads (s.dumps st) ≡ some st)
    → ((st : Statement LifecycleClaims)
        → verify_attestation s (with_signature s st) none registry at ≡ true)
    → IsTable db.records
    → All HasDigests db.records
    → run_retention_cleanup h s moment_of str_int clock policies workspace_id now db
      ≡ some (counts, db')
    → (verify_chain h s registry at ws user db).is_ok ≡ true
    → (verify_chain h s registry at ws user db').is_ok ≡ true
unfolding run_retention_cleanup
run_retention_cleanup-verified h s moment_of str_int clock registry at policies workspace_id now ws
      user db db' counts proper reads_back signed t digests done ok =
    let after =
      sweep_all_lem h s moment_of str_int clock
        (λ d. (verify_chain h s registry at ws user d).is_ok ≡ true) HasDigests
        (λ r q event a b table present sound applied before.
          apply_lifecycle_event-verified h s registry at r q (clock r.uuid) ws user a b event
            sound.0 sound.1 (reads_back (lifecycle_statement h s r q (clock r.uuid)))
            (signed (lifecycle_statement h s r q (clock r.uuid))) table present applied before)
        (HasDigests-scrubbed h proper) (selected policies workspace_id) now
        (record { deleted = 0; redacted = 0 }) counts db db' t digests done in
    after.3 ok
