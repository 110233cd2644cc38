-- ===== src/Lifecycle/Erasure.antt =====
-- What `apply_lifecycle_event` erases, keeps and records.
use lineagelens.Prelude.{
  ℕ, String, ◌≡◌, ◌≢◌, refl, false, not, Option, none, some, List, [], ◌∷◌, arith, eq_iff, str_eq,
  if◌then◌else◌, filter, any,
}
use lineagelens.Attestation.{Signing}
use lineagelens.Chain.{Hashing, ProvenanceRecord}
use lineagelens.Lifecycle.{
  Db, Request, RecordLifecycleEvent, LifecycleClaims, apply_lifecycle_event, scrubbed, put_row,
  state_of,
}
use lineagelens.Lifecycle.Rows.{
  scrubbed-IsTombstone, scrubbed-IsRedacted, scrubbed-IsPurged, IsRedacted, IsPurged,
}
use lineagelens.Lifecycle.Events.{apply_lifecycle_event-eq_some}

-- The row of a record; uuids are unique.
unfoldable pub get_row :
    {P : Type 0} → String → List (ProvenanceRecord P) → Option (ProvenanceRecord P)
get_row uuid [] = none
get_row uuid (r ∷ rows) = if str_eq r.uuid uuid then some r else get_row uuid rows

get_row-put_row :
    {P : Type 0} (uuid : String) (t : ProvenanceRecord P) (rows : List (ProvenanceRecord P))
    (r : ProvenanceRecord P)
    → t.uuid ≡ uuid
    → get_row uuid rows ≡ some r
    → get_row uuid (put_row t rows) ≡ some t
unfolding get_row put_row
get_row-put_row uuid t [] r e found = ground arith
get_row-put_row uuid t (x ∷ rows) r e found = ground (
  arith,
  get_row-put_row uuid t rows r e,
  eq_iff t.uuid uuid,
  eq_iff x.uuid uuid,
  eq_iff x.uuid t.uuid,
)

get_row-put_row_ne :
    {P : Type 0} (other : String) (t : ProvenanceRecord P) (rows : List (ProvenanceRecord P))
    → t.uuid ≢ other
    → get_row other (put_row t rows) ≡ get_row other rows
unfolding get_row put_row
get_row-put_row_ne other t [] ne = refl
get_row-put_row_ne other t (x ∷ rows) ne = ground (
  arith,
  get_row-put_row_ne other t rows ne,
  eq_iff t.uuid other,
  eq_iff x.uuid other,
  eq_iff x.uuid t.uuid,
)

no_key :
    (uuid : String) (keys : List String)
    → any (λ u. str_eq u uuid) (filter (λ u. not (str_eq u uuid)) keys) ≡ false
no_key uuid [] = refl
no_key uuid (k ∷ keys) = ground (arith, no_key uuid keys)

-- The record's row after an event.
pub record IsErased {P T : Type 0} (r : ProvenanceRecord P) (q : Request) (db' : Db P T)
    : Type 0 where
  pub row : ProvenanceRecord P
  pub found : get_row r.uuid db'.records ≡ some row
  pub bare : IsRedacted row
  pub purged : IsPurged r row q
  pub links : (row.record_hash ≡ r.record_hash) × (row.prev_hash ≡ r.prev_hash)
  pub state : row.lifecycle_state ≡ some (state_of q.event_type)
  pub no_encryption_key : any (λ u. str_eq u r.uuid) db'.encryption_keys ≡ false

module _ {P T : Type 0} (h : Hashing P T) (s : Signing LifecycleClaims T) where
  -- A redaction or deletion of a row of the table clears its prompt, response, context and payload,
  -- and its encryption key; a redaction keeps the code, a deletion clears it with the embeddings
  -- and the syntax tree; the chain's hashes stay, and the state names the event.
  pub apply_lifecycle_event_erases :
      (r : ProvenanceRecord P) (q : Request) (now : ℕ) (db db' : Db P T)
      (event : RecordLifecycleEvent T)
      → get_row r.uuid db.records ≡ some r
      → apply_lifecycle_event h s r q now db ≡ some (event, db')
      → IsErased r q db'
  apply_lifecycle_event_erases r q now db db' event present done =
      let w = apply_lifecycle_event-eq_some h s r q now db db' event done in
      let t = scrubbed-IsTombstone h r q in
      record {
        row = scrubbed h r q;
        found = rw w.3 (get_row-put_row r.uuid (scrubbed h r q) db.records r t.uuid present);
        bare = scrubbed-IsRedacted h r q;
        purged = scrubbed-IsPurged h r q;
        links = (t.record_hash, t.prev_hash);
        state = t.lifecycle_state;
        no_encryption_key = rw w.4 (no_key r.uuid db.encryption_keys);
      }
