-- ===== src/Fixture.antt =====
-- Small instances of what the program takes from its libraries, for the tests of several modules:
-- moments in unary, serialisation by constructors, a digest that keeps one field, one signing key.
use Prim.Native.String.{String}
use lineagelens.Prelude.{
  ℕ, zero, suc, ◌≡◌, ◌≢◌, ap, refl, false, Option, none, some, List, [], ◌∷◌, arith, eq_iff, str_eq,
}
use lineagelens.Attestation.{Statement, Signing, parse_ts}
use lineagelens.Attestation.Revocation.{ReadsBack}
use lineagelens.Chain.{Hashing, ProvenanceRecord}
use lineagelens.Lifecycle.{LifecycleClaims, Db}

abbrev pub tally : ℕ → String
tally zero = String.◌∷◌ "i" String.[]
tally (suc n) = String.◌∷◌ "i" (tally n)

abbrev pub count : String → ℕ
count String.[] = 0
count (String.◌∷◌ c s) = suc (count s)

abbrev pub read_tally : String → Option ℕ
read_tally String.[] = none
read_tally (String.◌∷◌ c s) = some (count s)

read_tally-tally : (n : ℕ) → read_tally (tally n) ≡ some n
read_tally-tally zero = refl
read_tally-tally (suc n) = ground (arith, count-tally n)
  where
    count-tally : (k : ℕ) → count (tally k) ≡ suc k
    count-tally zero = refl
    count-tally (suc k) = ground (arith, count-tally k)

tally_ne : (n : ℕ) → tally n ≢ ""
tally_ne zero e = omega (arith, ap count e)
tally_ne (suc n) e = omega (arith, ap count e)

pub data Serialised : Type 0 where
  statement : Statement LifecycleClaims → Serialised
  fields : List (String × String) → Serialised
  text : String → Serialised

abbrev load : Serialised → Option (Statement LifecycleClaims)
load (statement st) = some st
load (fields f) = none
load (text t) = none

-- The digest keeps the inserted code.
abbrev digest : Serialised → String
digest (statement st) = "statement"
digest (fields (path ∷ (k, code) ∷ rest)) = code
digest (fields f) = "fields"
digest (text t) = t

abbrev pub hashing : Hashing String Serialised
hashing = record {
  sha256_hex = digest;
  dumps_fields = fields;
  dumps_prompt = λ prompt. some (text prompt);
  str_prompt = text;
  encode = text;
}

abbrev pub signing : Signing LifecycleClaims Serialised
signing = record {
  dumps = statement;
  loads = load;
  sign = λ message. "signed";
  verify = λ hex signature message. str_eq signature "signed";
  public_key_hex = some "key";
  public_key_id = "k1";
  fromisoformat = read_tally;
  isoformat = tally;
}

pub signing-ReadsBack : ReadsBack signing
unfolding parse_ts
signing-ReadsBack t = ground (arith, eq_iff (tally t) "", tally_ne t, read_tally-tally t)

abbrev pub code_record : String → String → Option String → ProvenanceRecord String
code_record uuid code prev = record {
  uuid = uuid;
  workspace_id = "w";
  file_path = "a.py";
  timestamp_iso = "2026";
  prompt_messages = some "prompt";
  model_name = none;
  raw_model_response = some "response";
  inserted_code = code;
  surrounding_context = none;
  context_snapshot = none;
  provenance_payload = "payload";
  embeddings = none;
  ast_snapshot = none;
  embedding_vector = none;
  is_redacted = false;
  record_hash = some code;
  prev_hash = prev;
  prompt_sha256 = some "prompt";
  content_sha256 = some code;
  lifecycle_state = some "active";
}

-- A chain of two records.
abbrev pub two_records : Db String Serialised
two_records = record {
  records = code_record "u1" "x = 1" none ∷ code_record "u2" "y = 2" (some "x = 1") ∷ [];
  events = [];
  encryption_keys = "u1" ∷ [];
}
