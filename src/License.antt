-- ===== src/License.antt =====
-- The offline licence: lineagelens-backend/app/core/license.py, and the gate on plans of
-- lineagelens-backend/app/core/mode_guard.py. Keys are lists of code points, and a JSON value is that
-- of Actions. The prose of the reasons and the logging are left out, and so is the cache of
-- `load_entitlement`.
pub mod Minting
pub mod Verify
pub mod Plans
pub mod Encoding
pub mod Signed
pub mod Gate
pub mod Issue
mod Tests
use lineagelens.Prelude.{
  ℕ, zero, suc, ◌+◌, ◌-◌, ◌%◌, String, Bool, true, false, not, ◌&&◌, ◌||◌, Option, none, some, List,
  [], ◌∷◌, ◌++◌, ltb, leb, ◌==◌, str_eq, if◌then◌else◌, length,
}
use lineagelens.Actions.Arguments.{
  Json, null, boolean, number, string, array, object, Elements, no_elements, element, Members,
  no_members, member, get_member,
}

abbrev pub Text : Type 0
Text = List ℕ

abbrev pub replicate : ℕ → ℕ → Text
replicate zero c = []
replicate (suc n) c = c ∷ replicate n c

abbrev pub same_text : Text → Text → Bool
same_text [] [] = true
same_text (a ∷ s) (b ∷ t) = a == b && same_text s t
same_text _ _ = false

abbrev pub is_empty : Text → Bool
is_empty [] = true
is_empty (c ∷ t) = false

-- What the code takes from `str`, `base64`, `json`, `datetime` and the Ed25519 of `cryptography`.
-- A call that raises is `none`; `verify` is false where reading the key or the signature raises.
pub record Licensing : Type 0 where
  pub strip : Text → Text
  pub b64decode : Text → Option Text
  pub urlsafe_b64encode : Text → Text
  pub urlsafe_b64decode : Text → Option Text
  pub dumps : Json → Text
  pub loads : Text → Option Json
  pub sign : Text → Text → Text
  pub verify : Text → Text → Text → Bool
  pub fromisoformat : String → Option ℕ
  pub isoformat : ℕ → String
  -- A JSON number is zero; the texts of `int(v)` and of `str(v)`.
  pub is_zero : String → Bool
  pub int_text : Json → Option String
  pub str_of : Json → String

abbrev pub issuer : String
issuer = "lineagelens-license"

-- `PLAN_RANK.get(plan)`
unfoldable pub plan_rank : String → Option ℕ
plan_rank plan =
    if str_eq plan "lite"
    then some 0
    else if str_eq plan "plus"
    then some 1
    else if str_eq plan "max"
    then some 2
    else none

-- Why an entitlement is as it is; `no_reason` is the empty text.
pub data Reason : Type 0 where
  no_reason : Reason
  no_license : Reason
  not_configured : Reason
  malformed_key : Reason
  invalid_signature : Reason
  unknown_issuer : Reason
  unknown_plan : Json → Reason
  malformed_expiry : Reason
  expired_on : Json → Reason
  lapsed_on : Json → Reason

pub record Entitlement : Type 0 where
  pub plan : String
  pub seats : String
  pub customer : String
  pub expires : Json
  pub licensed : Bool
  pub reason : Reason
  pub perpetual : Bool
  pub subscription_lapsed : Bool

-- `_free`, and with `no_license` the `FREE_ENTITLEMENT`.
unfoldable pub free : Reason → Entitlement
free reason = record {
  plan = "lite";
  seats = "1";
  customer = "";
  expires = null;
  licensed = false;
  reason = reason;
  perpetual = false;
  subscription_lapsed = false;
}

abbrev pub placeholder_public_key : Text
placeholder_public_key = replicate 64 b'0'

-- `raw.rstrip(b"=")`
unfoldable pub rstrip_pad : Text → Text
rstrip_pad [] = []
rstrip_pad (c ∷ t) = let rest = rstrip_pad t in if is_empty rest && c == b'=' then [] else c ∷ rest

-- `raw.count(".")`
unfoldable pub count_dots : Text → ℕ
count_dots [] = 0
count_dots (c ∷ t) = (if c == b'.' then 1 else 0) + count_dots t

-- `raw.split(".", 1)`
unfoldable pub split_dot : Text → Text × Text
split_dot [] = ([], [])
split_dot (c ∷ t) = let (s, rest) = split_dot t in if c == b'.' then ([], t) else (c ∷ s, rest)

-- `bool(v)`
unfoldable pub is_truthy : Licensing → Json → Bool
is_truthy l null = false
is_truthy l (boolean b) = b
is_truthy l (number n) = not (l.is_zero n)
is_truthy l (string s) = not (str_eq s "")
is_truthy l (array no_elements) = false
is_truthy l (array (element v vs)) = true
is_truthy l (object no_members) = false
is_truthy l (object (member k v ms)) = true

-- `date.fromisoformat(expires)`, which raises for what is not a text.
unfoldable pub date_of : Licensing → Json → Option ℕ
date_of l (string s) = l.fromisoformat s
date_of l _ = none

module _ (l : Licensing) where
  unfoldable pub b64url_encode : Text → Text
  unfolding rstrip_pad
  b64url_encode raw = rstrip_pad (l.urlsafe_b64encode raw)

  unfoldable pub b64url_decode : Text → Option Text
  b64url_decode value = l.urlsafe_b64decode (value ++ replicate ((4 - length value % 4) % 4) b'=')
