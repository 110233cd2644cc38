-- ===== src/Verifier.antt =====
-- The offline verifier of evidence capsules (lineagelens-verifier/lineagelens_verifier/verify.py),
-- from the parsed archive on. A key of a capsule that the code reads by `get` may be absent, `none`;
-- those that it indexes are present. Problems are values; their prose is left out.
pub mod Manifest
pub mod Trust
pub mod Links
pub mod Verdict
pub mod Export
pub mod Latest
pub mod Rows
pub mod Agreement
mod Tests
use lineagelens.Prelude.{
  ℕ, String, Bool, true, false, not, ◌&&◌, ◌||◌, Option, none, some, List, [], ◌∷◌, ◌++◌, map,
  filter, get_last?, any, str_eq, opt_eq, ◌==◌, if◌then◌else◌, Dict, lookup,
}
use lineagelens.Attestation.{
  KeyStatus, retired, compromised, not_yet_valid, expired, unknown_key, parse_ts, reached, before,
  after, text_or,
}
use lineagelens.Chain.{Hashing}
use lineagelens.Lifecycle.{Commitment}

-- An entry of `recordChain`.
pub record ChainEntry : Type 0 where
  pub uuid : String
  pub workspace_id : String
  pub file_path : String
  pub inserted_code : Option String
  pub model_name : Option String
  pub prompt_sha256 : Option String
  pub content_sha256 : Option String
  pub timestamp_iso : String
  pub prev_hash : Option String
  pub record_hash : Option String
  pub lifecycle_state : Option String

-- An entry of `lifecycleEvents`.
pub record EventEntry : Type 0 where
  pub record_uuid : Option String
  pub event_type : Option String
  pub content_commitment : Commitment
  pub signature_valid : Bool

-- An entry of `keyRegistry`.
pub record KeyEntry : Type 0 where
  pub public_key_id : Option String
  pub public_key_hex : Option String
  pub valid_from : Option String
  pub valid_until : Option String
  pub compromised_at : Option String
  pub status : Option String

pub record Capsule : Type 0 where
  pub schema_version : Option String
  pub generated_at : Option String
  pub key_registry : List KeyEntry
  pub record_chain : List ChainEntry
  pub lifecycle_events : List EventEntry

-- An entry of the manifest.
pub record ManifestEntry : Type 0 where
  pub path : String
  pub sha256 : String
  pub size_bytes : Option ℕ

pub data Problem : Type 0 where
  missing_file sha256_mismatch size_mismatch unlisted_file : String → Problem
  no_valid_event hash_mismatch chain_break : String → Problem
  key_not_found : String → Problem
  signature_mismatch : Problem
  key_status : KeyStatus → Problem
  schema_not_supported : Option String → Problem

pub data Status : Type 0 where
  valid valid_with_redactions unverifiable tampered unsupported_schema expired_or_compromised_key :
      Status

-- What the verifier takes from `cryptography`, `datetime` and the bytes of a file.
pub record Verifying (T : Type 0) : Type 0 where
  pub size : T → ℕ
  pub verify_signature : Capsule → String → String → Bool
  pub fromisoformat : String → Option ℕ

pub is_supported : Option String → Bool
is_supported none = false
is_supported (some version) = str_eq version "1.0"

module _ {P T : Type 0} (h : Hashing P T) (v : Verifying T) where
  -- What one entry of the manifest adds to `problems`.
  unfoldable pub entry_problems : Dict T → ManifestEntry → List Problem
  entry_problems files entry = elim (lookup entry.path files) [
    | none ↦ missing_file entry.path ∷ []
    | some content ↦
        (if str_eq (h.sha256_hex content) entry.sha256 then [] else sha256_mismatch entry.path ∷ [])
        ++ (elim entry.size_bytes [
          | none ↦ size_mismatch entry.path ∷ []
          | some size ↦ if v.size content == size then [] else size_mismatch entry.path ∷ []
        ])
  ]

  unfoldable pub manifest_problems : Dict T → List ManifestEntry → List Problem
  unfolding entry_problems
  manifest_problems files [] = []
  manifest_problems files (entry ∷ entries) =
      entry_problems files entry ++ manifest_problems files entries

unfoldable pub unlisted : {T : Type 0} → List ManifestEntry → Dict T → List Problem
unlisted entries [] = []
unlisted entries ((path, content) ∷ files) =
    let rest = unlisted entries files in
    if any (λ (entry : ManifestEntry). str_eq entry.path path) entries
    then rest
    else unlisted_file path ∷ rest

-- `len(problems) == 0`
abbrev pub is_clean : List Problem → Bool
is_clean [] = true
is_clean (p ∷ ps) = false

module _ {P T : Type 0} (h : Hashing P T) (v : Verifying T) where
  unfoldable pub verify_manifest : Dict T → List ManifestEntry → Bool × List Problem
  unfolding manifest_problems unlisted
  verify_manifest files entries =
      let problems = manifest_problems h v files entries ++ unlisted entries files in
      (is_clean problems, problems)

-- `next((r for r in registry if r.get("publicKeyId") == public_key_id), None)`
unfoldable pub find_key : String → List KeyEntry → Option KeyEntry
find_key public_key_id [] = none
find_key public_key_id (key ∷ keys) =
    if opt_eq key.public_key_id (some public_key_id) then some key else find_key public_key_id keys

-- `anchor is None or embedded is None or embedded.get("publicKeyHex") != anchor`, negated.
unfoldable pub anchor_agrees : Option KeyEntry → Option String → Bool
anchor_agrees embedded none = false
anchor_agrees none (some anchor) = false
anchor_agrees (some embedded) (some anchor) = opt_eq embedded.public_key_hex (some anchor)

-- The status of the key at the moment that the capsule was generated.
unfoldable pub entry_status : (String → Option ℕ) → KeyEntry → Option ℕ → KeyStatus
unfolding parse_ts
entry_status iso key none = if opt_eq key.status (some "retired") then retired else unknown_key
entry_status iso key (some moment) =
    if opt_eq key.status (some "retired")
    then retired
    else if reached (parse_ts iso key.compromised_at) moment
    then compromised
    else if before (parse_ts iso key.valid_from) moment
    then not_yet_valid
    else if after (parse_ts iso key.valid_until) moment
    then expired
    else KeyStatus.valid

-- The same of a key that may be missing.
unfoldable pub found_status : (String → Option ℕ) → Option KeyEntry → Option ℕ → KeyStatus
unfolding entry_status
found_status iso none moment = unknown_key
found_status iso (some key) moment = entry_status iso key moment

module _ {T : Type 0} (v : Verifying T) where
  unfoldable pub verify_key_trust : Capsule → String → Option (Dict String) → KeyStatus
  unfolding find_key anchor_agrees found_status
  verify_key_trust capsule public_key_id trusted_public_keys =
      let key = find_key public_key_id capsule.key_registry in
      let moment = parse_ts v.fromisoformat capsule.generated_at in
      let status = found_status v.fromisoformat key moment in
      elim trusted_public_keys [
        | none ↦ status
        | some anchors ↦
            if anchor_agrees key (lookup public_key_id anchors) then status else unknown_key
      ]
