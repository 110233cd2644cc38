-- ===== src/Attestation.antt =====
-- Signed statements and the trust state of signing keys
-- (lineagelens-backend/app/core/attestation.py). Moments are whole microseconds.
pub mod Registry
pub mod Status
pub mod Revocation
mod Tests
use lineagelens.Prelude.{
  ℕ, String, Bool, true, false, Option, none, some, leb, ltb, str_eq, if◌then◌else◌, Dict, lookup,
}

-- The source's dict of a statement; `C` is the type of its claims.
pub record Statement (C : Type 0) : Type 0 where
  pub claims : C
  pub issued_at : String
  pub issuer : String
  pub prev_hash : String
  pub subject_id : String
  pub subject_type : String
  pub workspace_id : String

-- What the module takes from `json`, `datetime`, `cryptography` and the environment's private key.
-- `T` is the type of serialised statements. A malformed key or signature fails to verify.
pub record Signing (C T : Type 0) : Type 0 where
  pub dumps : Statement C → T
  pub loads : T → Option (Statement C)
  pub sign : T → String
  pub verify : String → String → T → Bool
  pub public_key_hex : Option String
  pub public_key_id : String
  pub fromisoformat : String → Option ℕ
  pub isoformat : ℕ → String

pub record SignedAttestation (C : Type 0) : Type 0 where
  pub statement : Statement C
  pub signature : String
  pub public_key_id : String

pub record KeyRecord : Type 0 where
  pub public_key_id : String
  pub public_key_hex : String
  pub valid_from : Option String
  pub valid_until : Option String
  pub compromised_at : Option String
  pub status : String

-- The texts of the source, one constructor for each.
pub data KeyStatus : Type 0 where
  valid not_yet_valid expired compromised retired unknown_key not_applicable : KeyStatus

pub data Reason : Type 0 where
  no_reason no_key_available signature_mismatch : Reason
  key_status : KeyStatus → Reason

-- The result dict of `verify_attestation_detailed`; its `valid` is spelled `is_valid` here.
pub record Verdict : Type 0 where
  pub is_valid : Bool
  pub signature_valid : Bool
  pub status : KeyStatus
  pub public_key_id : String
  pub reason : Reason

-- `x or d` on a text that may be absent.
abbrev pub text_or : Option String → String → String
text_or none d = d
text_or (some s) d = if str_eq s "" then d else s

-- `_parse_ts`; `iso` is `fromisoformat` after the replacement of `Z` and the default time zone.
unfoldable pub parse_ts : (String → Option ℕ) → Option String → Option ℕ
parse_ts iso none = none
parse_ts iso (some value) = if str_eq value "" then none else iso value

-- `limit is not None and moment >= limit`, and its two kin.
abbrev pub reached : Option ℕ → ℕ → Bool
reached none moment = false
reached (some limit) moment = leb limit moment

abbrev pub before : Option ℕ → ℕ → Bool
before none moment = false
before (some limit) moment = ltb moment limit

abbrev pub after : Option ℕ → ℕ → Bool
after none moment = false
after (some limit) moment = ltb limit moment

-- `at or datetime.now(tz=UTC)`
abbrev pub moment_or : Option ℕ → ℕ → ℕ
moment_or none now = now
moment_or (some at) now = at

unfoldable pub key_status_at : (String → Option ℕ) → ℕ → KeyRecord → Option ℕ → KeyStatus
unfolding parse_ts
key_status_at iso now record_ at =
    let moment = moment_or at now in
    if str_eq record_.status "retired"
    then retired
    else if reached (parse_ts iso record_.compromised_at) moment
    then compromised
    else if before (parse_ts iso record_.valid_from) moment
    then not_yet_valid
    else if after (parse_ts iso record_.valid_until) moment
    then expired
    else valid

-- `status == "valid"`
abbrev pub is_trusted : KeyStatus → Bool
is_trusted valid = true
is_trusted _ = false

module _ {C T : Type 0} (s : Signing C T) where
  -- `build_attestation` at the clock reading `now`.
  unfoldable pub build_attestation : String → String → C → String → Option String → ℕ → Statement C
  build_attestation subject_type subject_id claims workspace_id prev_hash now = record {
    claims = claims;
    issued_at = s.isoformat now;
    issuer = "lineagelens-attestation";
    prev_hash = text_or prev_hash "";
    subject_id = subject_id;
    subject_type = subject_type;
    workspace_id = workspace_id;
  }

  -- The statement with the signature of the loaded key.
  unfoldable pub with_signature : Statement C → SignedAttestation C
  with_signature statement = record {
    statement = statement;
    signature = s.sign (s.dumps statement);
    public_key_id = s.public_key_id;
  }

  -- `sign_attestation`; `none` is the `RuntimeError` of a private key that is missing or malformed,
  -- which has no public key either.
  unfoldable pub sign_attestation : Statement C → Option (SignedAttestation C)
  unfolding with_signature
  sign_attestation statement = elim s.public_key_hex [
    | none ↦ none
    | some hex ↦ some (with_signature statement)
  ]

  -- The key to verify with: the registry's, else the loaded one, which may be missing.
  unfoldable pub resolve_key : Option KeyRecord → Option String
  resolve_key none = s.public_key_hex
  resolve_key (some key) = some key.public_key_hex

  -- `key_status_at(record, moment) if record is not None else "valid"`
  unfoldable pub trust_of : Option KeyRecord → Option ℕ → ℕ → KeyStatus
  unfolding key_status_at
  trust_of none moment now = valid
  trust_of (some key) moment now = key_status_at s.fromisoformat now key moment

  -- `at or _parse_ts(signed.statement.get("issued_at"))`
  unfoldable pub moment_of : Option ℕ → SignedAttestation C → Option ℕ
  unfolding parse_ts
  moment_of (some at) signed = some at
  moment_of none signed = parse_ts s.fromisoformat (some signed.statement.issued_at)

  judge : SignedAttestation C → KeyStatus → Verdict
  judge signed status = record {
    is_valid = is_trusted status;
    signature_valid = true;
    status = status;
    public_key_id = signed.public_key_id;
    reason = if is_trusted status then no_reason else key_status status;
  }

  fail : SignedAttestation C → KeyStatus → Reason → Verdict
  fail signed status reason = record {
    is_valid = false;
    signature_valid = false;
    status = status;
    public_key_id = signed.public_key_id;
    reason = reason;
  }

  unfoldable pub verify_attestation_detailed :
      SignedAttestation C → Option ℕ → Dict KeyRecord → ℕ → Verdict
  unfolding resolve_key trust_of moment_of judge fail
  verify_attestation_detailed signed at registry now =
      let key = lookup signed.public_key_id registry in
      elim (resolve_key key) [
        | none ↦ fail signed unknown_key no_key_available
        | some hex ↦
            if s.verify hex signed.signature (s.dumps signed.statement)
            then judge signed (trust_of key (moment_of at signed) now)
            else fail signed not_applicable signature_mismatch
      ]

  -- `verify_attestation`; `registry` is what `_registry()` returns.
  unfoldable pub verify_attestation : SignedAttestation C → Option ℕ → Dict KeyRecord → ℕ → Bool
  unfolding verify_attestation_detailed
  verify_attestation signed at registry now =
      (verify_attestation_detailed signed at registry now).is_valid
