-- ===== src/Pairing.antt =====
-- Pairing codes (lineagelens-backend/app/services/pairing_service.py). The calls take a code in its
-- normal form, `none` where `normalize_code` of Pairing/Codes raises; moments are whole microseconds.
-- Randomness is an argument: the code and the key that `secrets` draws.
pub mod Rows
pub mod Uses
pub mod Codes
pub mod Spelling
pub mod Typed
mod Tests
use Prim.Native.String
use lineagelens.Prelude.{
  ℕ, zero, suc, ◌+◌, ◌*◌, String, Bool, true, false, not, ◌&&◌, ◌||◌, Option, none, some, List, [],
  ◌∷◌, ◌++◌, any, leb, str_eq, if◌then◌else◌,
}
use lineagelens.Attestation.{text_or}

pub record PairingCode : Type 0 where
  pub id : String
  pub workspace_id : String
  pub created_by : String
  pub client : String
  pub code_hash : String
  pub label : Option String
  pub scopes : List String
  pub max_uses : ℕ
  pub use_count : ℕ
  pub attempts : ℕ
  pub expires_at : ℕ
  pub revoked_at : Option ℕ
  pub last_redeemed_label : Option String

-- The columns of `api_keys` that a redemption fills.
pub record ApiKey : Type 0 where
  pub workspace_id : String
  pub user_id : String
  pub name : String
  pub key_prefix : String
  pub key_hash : String
  pub scopes : List String
  pub is_active : Bool

-- One constructor for each message.
pub data PairingError : Type 0 where
  unknown_client ttl_out_of_range uses_out_of_range invalid_format invalid_code : PairingError
  locked_out revoked expired already_used not_found : PairingError

unfoldable pub status_code : PairingError → ℕ
status_code unknown_client = 400
status_code ttl_out_of_range = 400
status_code uses_out_of_range = 400
status_code invalid_format = 400
status_code invalid_code = 404
status_code not_found = 404
status_code _ = 410

pub data Outcome (A : Type 0) : Type 0 where
  raised : PairingError → Outcome A
  returned : A → Outcome A

abbrev pub max_ttl_minutes : ℕ
max_ttl_minutes = 120

abbrev pub max_uses : ℕ
max_uses = 25

abbrev pub allowed_clients : List String
allowed_clients = "vscode-power" ∷ "vscode-base" ∷ "mcp" ∷ "cli" ∷ []

-- `x in xs`
abbrev pub is_in : String → List String → Bool
is_in x xs = any (str_eq x) xs

unfoldable pub scopes_for_client : String → List String
scopes_for_client client =
    if str_eq client "vscode-power"
    then "read" ∷ "write" ∷ "provenance:read" ∷ "provenance:write" ∷ []
    else if str_eq client "vscode-base"
    then "provenance:write" ∷ []
    else if str_eq client "mcp"
    then "provenance:read" ∷ []
    else if str_eq client "cli"
    then "read" ∷ "write" ∷ "provenance:read" ∷ "provenance:write" ∷ []
    else "read" ∷ []

-- `text[:n]`
pub take_text : ℕ → String → String
take_text zero s = ""
take_text (suc n) String.[] = ""
take_text (suc n) (String.◌∷◌ c s) = String.◌∷◌ c (take_text n s)

-- `1 <= n <= limit`
abbrev pub in_range : ℕ → ℕ → Bool
in_range n limit = leb 1 n && leb n limit

-- The keyword arguments of `create_pairing_code`.
pub record NewCode : Type 0 where
  pub workspace_id : String
  pub created_by : String
  pub client : String
  pub label : Option String
  pub ttl_minutes : ℕ
  pub max_uses : ℕ

-- A call of `redeem_pairing_code` at the moment `now`; `raw_key` is what `secrets` draws.
pub record Redemption : Type 0 where
  pub code : Option String
  pub client : String
  pub label : Option String
  pub raw_key : String
  pub now : ℕ

-- The microseconds in a minute.
abbrev pub minute : ℕ
minute = 60000000

module _ (sha256_hex : String → String) where
  -- `create_pairing_code` with the row's new id and code.
  unfoldable pub create_pairing_code :
      NewCode → String → String → ℕ → List PairingCode → Outcome PairingCode × List PairingCode
  create_pairing_code new id code now codes =
      let row : PairingCode = record {
        id = id;
        workspace_id = new.workspace_id;
        created_by = new.created_by;
        client = new.client;
        code_hash = sha256_hex code;
        label = new.label;
        scopes = scopes_for_client new.client;
        max_uses = new.max_uses;
        use_count = 0;
        attempts = 0;
        expires_at = now + new.ttl_minutes * minute;
        revoked_at = none;
        last_redeemed_label = none;
      } in
      if not (is_in new.client allowed_clients)
      then (raised unknown_client, codes)
      else if not (in_range new.ttl_minutes max_ttl_minutes)
      then (raised ttl_out_of_range, codes)
      else if not (in_range new.max_uses max_uses)
      then (raised uses_out_of_range, codes)
      else (returned row, codes ++ row ∷ [])

-- `_record_failed_attempt`: the error that is raised, and the row.
unfoldable pub record_failed_attempt : PairingError → ℕ → PairingCode → PairingError × PairingCode
record_failed_attempt error now pairing =
    let counted = record pairing { attempts = pairing.attempts + 1 } in
    elim pairing.revoked_at [
      | some at ↦ (error, counted)
      | none ↦
          if leb 5 (pairing.attempts + 1)
          then (locked_out, record counted { revoked_at = some now })
          else (error, counted)
    ]

-- The guards of a redemption in their order.
unfoldable pub refusal : ℕ → PairingCode → Option PairingError
refusal now pairing = elim pairing.revoked_at [
  | some at ↦ some revoked
  | none ↦
      if leb pairing.expires_at now
      then some expired
      else if leb pairing.max_uses pairing.use_count
      then some already_used
      else none
]

module _ (sha256_hex : String → String) where
  unfoldable pub mint_key : Redemption → PairingCode → ApiKey
  unfolding take_text
  mint_key q pairing =
      let full_key = String.◌++◌ "llk_" q.raw_key in
      let name = String.◌++◌ "pairing:" (
        String.◌++◌ pairing.client
          (String.◌++◌ ":" (text_or q.label (text_or pairing.label pairing.id)))) in
      record {
        workspace_id = pairing.workspace_id;
        user_id = pairing.created_by;
        name = take_text 256 name;
        key_prefix = take_text 12 full_key;
        key_hash = sha256_hex full_key;
        scopes = scopes_for_client q.client;
        is_active = true;
      }

  -- A redemption of the row that has the code.
  unfoldable pub redeem_row : Redemption → PairingCode → Outcome ApiKey × PairingCode
  unfolding record_failed_attempt refusal mint_key
  redeem_row q pairing = elim (refusal q.now pairing) [
    | some error ↦ let (e, row) = record_failed_attempt error q.now pairing in (raised e, row)
    | none ↦ (
      returned (mint_key q pairing),
      record pairing { use_count = pairing.use_count + 1; last_redeemed_label = q.label },
    )
  ]

  -- The row with the hash is redeemed; the column `code_hash` is unique.
  unfoldable pub redeem_by_hash :
      String → Redemption → List PairingCode → Outcome ApiKey × List PairingCode
  unfolding redeem_row
  redeem_by_hash hash q [] = (raised invalid_code, [])
  redeem_by_hash hash q (pairing ∷ codes) =
      let (outcome, row) = redeem_row q pairing in
      let (later, rows) = redeem_by_hash hash q codes in
      if str_eq pairing.code_hash hash then (outcome, row ∷ codes) else (later, pairing ∷ rows)

  unfoldable pub redeem_pairing_code :
      Redemption → List PairingCode → Outcome ApiKey × List PairingCode
  unfolding redeem_by_hash
  redeem_pairing_code q codes =
      if not (is_in q.client allowed_clients) then (raised unknown_client, codes) else elim q.code [
        | none ↦ (raised invalid_format, codes)
        | some code ↦ redeem_by_hash (sha256_hex code) q codes
      ]

unfoldable pub revoke_row : ℕ → PairingCode → PairingCode
revoke_row now pairing = elim pairing.revoked_at [
  | some at ↦ pairing
  | none ↦ record pairing { revoked_at = some now }
]

-- `revoke_pairing_code`; `pairing_id` is `none` where it is no uuid. The column `id` is unique.
unfoldable pub revoke_by_id :
    String → String → ℕ → List PairingCode → Outcome PairingCode × List PairingCode
unfolding revoke_row
revoke_by_id id workspace_id now [] = (raised not_found, [])
revoke_by_id id workspace_id now (pairing ∷ codes) =
    let (later, rows) = revoke_by_id id workspace_id now codes in
    if str_eq pairing.id id && str_eq pairing.workspace_id workspace_id
    then (returned (revoke_row now pairing), revoke_row now pairing ∷ codes)
    else (later, pairing ∷ rows)

unfoldable pub revoke_pairing_code :
    Option String → String → ℕ → List PairingCode → Outcome PairingCode × List PairingCode
unfolding revoke_by_id
revoke_pairing_code none workspace_id now codes = (raised invalid_format, codes)
revoke_pairing_code (some id) workspace_id now codes = revoke_by_id id workspace_id now codes
