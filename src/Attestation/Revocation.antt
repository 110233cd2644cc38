-- ===== src/Attestation/Revocation.antt =====
-- What revocation at runtime does to the trust in a key's signatures.
use mathlib.Core.Path.{subst}
use lineagelens.Prelude.{
  ℕ, ◌≤◌, ◌<◌, String, ◌≡◌, ◌≢◌, sym, ap, ◌∙◌, true, false, Option, none, some, List, [], ◌∷◌,
  arith, eq_iff, eq_refl, str_eq, if◌then◌else◌, Dict, lookup, Bool-cases, Option-cases, inl, inr,
  of_some,
}
use lineagelens.Attestation.{
  KeyRecord, Signing, SignedAttestation, parse_ts, moment_of, verify_attestation_detailed,
}
use lineagelens.Attestation.Registry.{
  AttestationKey, IsKeyTable, find_row, mark_compromised, revoke_key, key_record_from_row,
  load_registry_from_db, lookup-merge_rows, or_env,
}

module _ (id reason by_user : String) (now : ℕ) where
  abbrev revoked_row : Option AttestationKey → Option AttestationKey
  revoked_row none = none
  revoked_row (some row) = some (mark_compromised reason by_user now row)

  -- Revoking stamps the row of the key and leaves every other.
  find_row-revoke_key :
      (other : String) (rows rows' : List AttestationKey)
      → revoke_key id reason by_user now rows ≡ some rows'
      → find_row other rows'
        ≡ (if str_eq id other then revoked_row (find_row id rows) else find_row other rows)
  unfolding revoke_key find_row
  find_row-revoke_key other [] rows' h = ground arith
  find_row-revoke_key other (row ∷ rows) rows' h =
      elim (Option-cases (revoke_key id reason by_user now rows)) [
        | inl missing ↦
            ground
              (arith, eq_iff id other, eq_iff row.public_key_id id, eq_iff row.public_key_id other)
        | inr (others, e) ↦ ground (
          arith,
          e,
          find_row-revoke_key other rows others e,
          eq_iff id other,
          eq_iff row.public_key_id id,
          eq_iff row.public_key_id other,
        )
      ]

  find_row-revoked :
      (rows rows' : List AttestationKey)
      → revoke_key id reason by_user now rows ≡ some rows'
      → (row : AttestationKey) × (find_row id rows ≡ some row)
  unfolding revoke_key find_row
  find_row-revoked [] rows' h = absurd (ground arith)
  find_row-revoked (row ∷ rows) rows' h = elim (Bool-cases (str_eq row.public_key_id id)) [
    | inl same ↦ (row, rw same)
    | inr other ↦ elim (Option-cases (revoke_key id reason by_user now rows)) [
      | inl missing ↦ absurd (ground arith)
      | inr (others, e) ↦ let (found, f) = find_row-revoked rows others e in (found, rw other f)
    ]
  ]

  IsKeyTable-revoke_key :
      (rows rows' : List AttestationKey)
      → revoke_key id reason by_user now rows ≡ some rows'
      → IsKeyTable rows
      → IsKeyTable rows'
  unfolding revoke_key
  IsKeyTable-revoke_key [] rows' h t = absurd (ground arith)
  IsKeyTable-revoke_key (row ∷ rows) rows' h t = elim (Bool-cases (str_eq row.public_key_id id)) [
    | inl same ↦ subst IsKeyTable (of_some (rw same at h)) t
    | inr other ↦ elim (Option-cases (revoke_key id reason by_user now rows)) [
      | inl missing ↦ absurd (ground arith)
      | inr (others, e) ↦
          let h' : some (row ∷ others) ≡ some rows' = rw (other, e) at h in
          let absent : find_row row.public_key_id others ≡ none = ground (
            arith,
            find_row-revoke_key row.public_key_id rows others e,
            t.0,
            eq_iff id row.public_key_id,
            eq_iff row.public_key_id id,
          ) in
          subst IsKeyTable (of_some h') (absent, IsKeyTable-revoke_key rows others e t.1)
    ]
  ]

-- `fromisoformat` reads back what `isoformat` writes.
abbrev pub ReadsBack : {C T : Type 0} → Signing C T → Type 0
ReadsBack s = (t : ℕ) → parse_ts s.fromisoformat (some (s.isoformat t)) ≡ some t

module _ {C T : Type 0} (s : Signing C T) (env : Dict KeyRecord) where
  lookup-registry :
      (id : String) (rows : List AttestationKey) (row : AttestationKey)
      → IsKeyTable rows
      → find_row id rows ≡ some row
      → lookup id (load_registry_from_db s rows env) ≡ some (key_record_from_row s.isoformat row)
  unfolding load_registry_from_db
  lookup-registry id rows row t f = rw (lookup-merge_rows s.isoformat id rows env t, f)

  -- The registry entry of a key that has just been revoked.
  revoked_entry :
      (id reason by_user : String) (now : ℕ) (rows rows' : List AttestationKey)
      (row : AttestationKey)
      → IsKeyTable rows
      → find_row id rows ≡ some row
      → revoke_key id reason by_user now rows ≡ some rows'
      → lookup id (load_registry_from_db s rows' env)
        ≡ some (key_record_from_row s.isoformat (mark_compromised reason by_user now row))
  revoked_entry id reason by_user now rows rows' row t f r =
      lookup-registry id rows' (mark_compromised reason by_user now row)
        (IsKeyTable-revoke_key id reason by_user now rows rows' r t)
        (rw (find_row-revoke_key id reason by_user now id rows rows' r, eq_refl id, f))

  -- Where key ids are unique and moments read back as written: once a key is revoked, whatever it
  -- signs at that moment or later is not valid, whether or not the signature verifies.
  pub revoke_rejects :
      (signed : SignedAttestation C) (at : Option ℕ) (reason by_user : String) (now m clock : ℕ)
      (rows rows' : List AttestationKey)
      → ReadsBack s
      → IsKeyTable rows
      → revoke_key signed.public_key_id reason by_user now rows ≡ some rows'
      → moment_of s at signed ≡ some m
      → now ≤ m
      → (verify_attestation_detailed s signed at (load_registry_from_db s rows' env) clock).is_valid
        ≡ false
  unfolding verify_attestation_detailed mark_compromised key_record_from_row
  revoke_rejects signed at reason by_user now m clock rows rows' back t r e late =
      let (row, f) = find_row-revoked signed.public_key_id reason by_user now rows rows' r in
      let entry = revoked_entry signed.public_key_id reason by_user now rows rows' row t f r in
      ground (arith, entry, back now, e, eq_iff "compromised" "retired")

  -- Where key ids are unique, revoking one key leaves the verdict on every statement under another
  -- key id as it was.
  pub revoke_keeps_others :
      (signed : SignedAttestation C) (at : Option ℕ) (id reason by_user : String) (now clock : ℕ)
      (rows rows' : List AttestationKey)
      → IsKeyTable rows
      → revoke_key id reason by_user now rows ≡ some rows'
      → id ≢ signed.public_key_id
      → verify_attestation_detailed s signed at (load_registry_from_db s rows' env) clock
        ≡ verify_attestation_detailed s signed at (load_registry_from_db s rows env) clock
  unfolding load_registry_from_db
  revoke_keeps_others signed at id reason by_user now clock rows rows' t r other =
      let e : find_row signed.public_key_id rows' ≡ find_row signed.public_key_id rows = ground (
        arith,
        eq_iff id signed.public_key_id,
        find_row-revoke_key id reason by_user now signed.public_key_id rows rows' r,
      ) in
      let same : lookup signed.public_key_id (load_registry_from_db s rows' env)
          ≡ lookup signed.public_key_id (load_registry_from_db s rows env) =
        lookup-merge_rows s.isoformat signed.public_key_id rows' env
          (IsKeyTable-revoke_key id reason by_user now rows rows' r t)
        ∙ ap (λ row. or_env s.isoformat row (lookup signed.public_key_id env)) e
        ∙ sym (lookup-merge_rows s.isoformat signed.public_key_id rows env t) in
      unfold verify_attestation_detailed in ground (arith, same)

  -- Where key ids are unique and moments read back as written: a key that was neither retired nor
  -- marked compromised keeps, when it is revoked, the verdict on every statement whose moment lies
  -- before the revocation.
  pub revoke_keeps_earlier :
      (signed : SignedAttestation C) (at : Option ℕ) (reason by_user : String) (now m clock : ℕ)
      (rows rows' : List AttestationKey) (row : AttestationKey)
      → ReadsBack s
      → IsKeyTable rows
      → find_row signed.public_key_id rows ≡ some row
      → row.status ≢ "retired"
      → row.compromised_at ≡ none
      → revoke_key signed.public_key_id reason by_user now rows ≡ some rows'
      → moment_of s at signed ≡ some m
      → m < now
      → verify_attestation_detailed s signed at (load_registry_from_db s rows' env) clock
        ≡ verify_attestation_detailed s signed at (load_registry_from_db s rows env) clock
  unfolding verify_attestation_detailed mark_compromised key_record_from_row
  revoke_keeps_earlier signed at reason by_user now m clock rows rows' row back t f active fresh r e
        early =
      let entry = revoked_entry signed.public_key_id reason by_user now rows rows' row t f r in
      let was = lookup-registry signed.public_key_id rows row t f in
      ground (
        arith,
        entry,
        was,
        fresh,
        back now,
        e,
        eq_iff "compromised" "retired",
        eq_iff row.status "retired",
      )

  -- Where key ids are unique and moments read back as written, a key with no validity window that is
  -- revoked a second time, under which the signature verifies: a statement that it signed after
  -- the first revocation and before the second was not valid, and is valid again.
  pub second_revocation_restores :
      (signed : SignedAttestation C) (at : Option ℕ) (reason by_user : String)
      (first now m clock : ℕ) (rows rows' : List AttestationKey) (row : AttestationKey)
      → ReadsBack s
      → IsKeyTable rows
      → find_row signed.public_key_id rows ≡ some row
      → row.compromised_at ≡ some first
      → row.valid_from ≡ none
      → row.valid_until ≡ none
      → revoke_key signed.public_key_id reason by_user now rows ≡ some rows'
      → moment_of s at signed ≡ some m
      → first ≤ m
      → m < now
      → s.verify row.public_key_hex signed.signature (s.dumps signed.statement) ≡ true
      → ((verify_attestation_detailed s signed at (load_registry_from_db s rows env) clock).is_valid
          ≡ false)
        × ((verify_attestation_detailed s signed at
              (load_registry_from_db s rows' env)
              clock).is_valid
            ≡ true)
  unfolding verify_attestation_detailed mark_compromised key_record_from_row
  second_revocation_restores signed at reason by_user first now m clock rows rows' row back t f old
        from until r e late early sig =
      let entry = revoked_entry signed.public_key_id reason by_user now rows rows' row t f r in
      let was = lookup-registry signed.public_key_id rows row t f in
      ground (
        arith,
        entry,
        was,
        old,
        from,
        until,
        back now,
        back first,
        e,
        eq_iff "compromised" "retired",
        eq_iff row.status "retired",
      )
