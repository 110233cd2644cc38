-- ===== src/Verifier/Export.antt =====
-- The chain that a capsule exports (`_record_chain_entry` and `_lifecycle_event_to_dict` of
-- lineagelens-backend/app/services/capsule_service.py), and what the verifier finds in it.
use lineagelens.Prelude.{
  String, ◌≡◌, refl, Bool, true, false, ◌&&◌, Option, some, List, [], ◌∷◌, arith, opt_eq,
  if◌then◌else◌, Bool-cases, inl, inr,
}
use lineagelens.Chain.{Hashing, ProvenanceRecord}
use lineagelens.Verifier.{
  ChainEntry, EventEntry, Problem, no_valid_event, hash_mismatch, chain_break,
}
use lineagelens.Verifier.Links.{
  LoopState, is_gone, latest_matching, event_holds, entry_hash, expect, check_content, check_entry,
  check_entries,
}

-- `_record_chain_entry`
unfoldable pub record_chain_entry : {P : Type 0} → ProvenanceRecord P → ChainEntry
record_chain_entry r = record {
  uuid = r.uuid;
  workspace_id = r.workspace_id;
  file_path = r.file_path;
  inserted_code = some r.inserted_code;
  model_name = r.model_name;
  prompt_sha256 = r.prompt_sha256;
  content_sha256 = r.content_sha256;
  timestamp_iso = r.timestamp_iso;
  prev_hash = r.prev_hash;
  record_hash = r.record_hash;
  lifecycle_state = r.lifecycle_state;
}

-- What a row's content and its link contribute to `ok`.
unfoldable pub content_ok : {P T : Type 0} → Hashing P T → List EventEntry → ChainEntry → Bool
unfolding latest_matching event_holds entry_hash
content_ok h events rec =
    if is_gone rec.lifecycle_state
    then event_holds (latest_matching events rec) rec
    else opt_eq (some (entry_hash h rec)) rec.record_hash

-- The chain is intact from the expected hash on.
unfoldable pub is_linked :
    {P T : Type 0} → Hashing P T → List EventEntry → List ChainEntry → Option String → Bool
is_linked h events [] expected = true
is_linked h events (rec ∷ recs) expected =
    content_ok h events rec
    && (opt_eq rec.prev_hash expected && is_linked h events recs rec.record_hash)

module _ {P T : Type 0} (h : Hashing P T) (events : List EventEntry) where
  expect-is_ok : (b : Bool) (p : Problem) (st : LoopState) → (expect b p st).is_ok ≡ (b && st.is_ok)
  expect-is_ok true p st = refl
  expect-is_ok false p st = refl

  expect-expected_prev :
      (b : Bool) (p : Problem) (st : LoopState) → (expect b p st).expected_prev ≡ st.expected_prev
  expect-expected_prev true p st = refl
  expect-expected_prev false p st = refl

  check_content-is_ok :
      (rec : ChainEntry) (st : LoopState)
      → ((check_content h events rec st).is_ok ≡ (content_ok h events rec && st.is_ok))
        × ((check_content h events rec st).expected_prev ≡ st.expected_prev)
  unfolding check_content content_ok
  check_content-is_ok rec st = elim (Bool-cases (is_gone rec.lifecycle_state)) [
    | inl gone ↦
        let held = event_holds (latest_matching events rec) rec in
        let st' : LoopState = record st { has_redactions = true } in
        rw gone (
          expect-is_ok held (no_valid_event rec.uuid) st',
          expect-expected_prev held (no_valid_event rec.uuid) st',
        )
    | inr live ↦
        let same = opt_eq (some (entry_hash h rec)) rec.record_hash in
        rw live (
          expect-is_ok same (hash_mismatch rec.uuid) st,
          expect-expected_prev same (hash_mismatch rec.uuid) st,
        )
  ]

  check_entry-is_ok :
      (rec : ChainEntry) (st : LoopState)
      → (check_entry h events rec st).is_ok
        ≡ ((opt_eq rec.prev_hash st.expected_prev && content_ok h events rec) && st.is_ok)
  unfolding check_entry
  check_entry-is_ok rec st =
      let content = check_content-is_ok rec st in
      ground (
        arith,
        content,
        expect-is_ok (opt_eq rec.prev_hash st.expected_prev) (chain_break rec.uuid)
            (check_content h events rec st),
      )

  check_entry-expected_prev :
      (rec : ChainEntry) (st : LoopState)
      → (check_entry h events rec st).expected_prev ≡ rec.record_hash
  unfolding check_entry
  check_entry-expected_prev rec st = refl

  pub check_entries-is_ok :
      (recs : List ChainEntry) (st : LoopState)
      → (check_entries h events recs st).is_ok
        ≡ (st.is_ok && is_linked h events recs st.expected_prev)
  unfolding check_entries is_linked
  check_entries-is_ok [] st = ground arith
  check_entries-is_ok (rec ∷ recs) st = ground (
    arith,
    check_entries-is_ok recs (check_entry h events rec st),
    check_entry-is_ok rec st,
    check_entry-expected_prev rec st,
  )
