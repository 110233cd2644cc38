-- ===== src/License/Tests.antt =====
-- A licence that is minted and read back, on a stand-in for the libraries.
use lineagelens.Prelude.{
  ℕ, any, ◌==◌, ◌≤◌, String, ◌≡◌, refl, true, false, Option, none, some, [], ◌∷◌, ◌++◌, arith,
  str_eq, if◌then◌else◌, ◌&&◌,
}
use lineagelens.Actions.Arguments.{Json, null, number, string, object, get_member}
use lineagelens.License.{Text, replicate, same_text, Licensing, Entitlement, plan_rank}
use lineagelens.License.Minting.{statement_of, issue_license}
use lineagelens.License.Verify.{verify_license, public_key}
use lineagelens.License.Encoding.{IsEncoded}
use lineagelens.License.Plans.{
  Environment, PlanRequest, require_plan, read_entitlement, cache_after, mode_ceiling,
}
use lineagelens.License.Issue.{Documented, entitlement_of, verify_license-issue_license}
use lineagelens.License.Gate.{rank_of, require_plan-Vouched}
use lineagelens.License.Signed.{Vouched}

-- "AQ==" and "Ag==", the encodings of the bytes 1 and 2.
abbrev one : Text
one = b'A' ∷ b'Q' ∷ []

abbrev two : Text
two = b'A' ∷ b'g' ∷ []

abbrev padded : Text → Text
padded body = body ++ replicate 2 b'='

abbrev text_of_json : Json → String
text_of_json (string s) = s
text_of_json _ = ""

abbrev int_of_json : Json → Option String
int_of_json (number n) = some n
int_of_json _ = none

-- Every statement is written as the byte 1, and read as the one of this library; the signature of
-- anything is the byte 2. Two dates have a number.
abbrev library : Json → Licensing
library statement = record {
  strip = λ t. t;
  b64decode = λ t. some (replicate 32 7);
  urlsafe_b64encode = λ raw. if same_text raw (1 ∷ []) then padded one else padded two;
  urlsafe_b64decode = λ t.
      if same_text t (padded one)
      then some (1 ∷ [])
      else if same_text t (padded two)
      then some (2 ∷ [])
      else none;
  dumps = λ j. 1 ∷ [];
  loads = λ t. some statement;
  sign = λ seed payload. 2 ∷ [];
  verify = λ pub_hex signature payload. same_text signature (2 ∷ []) && same_text payload (1 ∷ []);
  fromisoformat = λ day.
      if str_eq day "2026-01-01"
      then some 9497
      else if str_eq day "2026-06-01"
      then some 9648
      else none;
  isoformat = λ n. "2026-01-01";
  is_zero = λ n. str_eq n "0";
  int_text = int_of_json;
  str_of = text_of_json;
}

-- The libraries on the statement of a perpetual "plus" licence for five seats.
abbrev minted : Json
minted = object (statement_of (library null) "plus" "5" "acme" (some "2026-01-01") 9497 true)

abbrev l : Licensing
l = library minted

abbrev vendor_key : Text
vendor_key = replicate 64 b'a'

abbrev minted_key : Text
minted_key = one ++ b'.' ∷ two

IsEncoded-one : IsEncoded l (1 ∷ [])
IsEncoded-one = record {
  body = one;
  padding = 2;
  written = refl;
  alphabet = (refl, (refl, tt));
  short = omega arith;
  aligned = refl;
  decodes = refl;
}

IsEncoded-two : IsEncoded l (2 ∷ [])
IsEncoded-two = record {
  body = two;
  padding = 2;
  written = refl;
  alphabet = (refl, (refl, tt));
  short = omega arith;
  aligned = refl;
  decodes = refl;
}

documented : Documented l
documented = record {
  strip_printable = λ t h. refl;
  int_number = λ n. refl;
  str_string = λ s. refl;
  no_empty_date = refl;
}

issued : issue_license l "plus" [] "5" "acme" (some "2026-01-01") 9497 true ≡ some minted_key
unfolding issue_license
issued = refl

-- Five months after the date, the perpetual licence is still "plus".
verify_license-issue_license_example :
    verify_license l minted_key vendor_key [] 9648
    ≡ some (entitlement_of l 9648 "plus" "5" "acme" (some "2026-01-01") true)
unfolding statement_of
verify_license-issue_license_example =
    verify_license-issue_license l documented "plus" "5" "acme" [] (replicate 32 7) minted_key
      vendor_key [] (some "2026-01-01") 9497 9648 true issued refl IsEncoded-one IsEncoded-two refl
      refl refl refl refl

abbrev environment : Environment
environment = record {
  license = minted_key;
  license_file = [];
  license_public_key = vendor_key;
  read_file = λ path. none;
}

abbrev request : String → PlanRequest
request min_plan = record { today = 9648; license_enforcement = true; min_plan = min_plan }

admitted : (require_plan l environment "team" (request "plus") none).0 ≡ some true
unfolding require_plan verify_license statement_of get_member mode_ceiling
admitted = refl

-- The deployed mode has no vector search, whatever the licence says.
refused : (require_plan l environment "team" (request "max") none).0 ≡ some false
unfolding require_plan verify_license statement_of get_member mode_ceiling
refused = refl

-- A year later, the licence that was loaded before still counts.
admitted_later :
    (require_plan l environment "team"
      (record (request "plus") { today = 10012 })
      (cache_after l environment "team" (request "max" ∷ []) none)).0
    ≡ some true
unfolding cache_after verify_license statement_of get_member mode_ceiling
admitted_later = refl

require_plan-Vouched_example :
    (e : Entitlement) × (day : ℕ) × (any
        (λ x. x.today == day)
        (request "max" ∷ record (request "plus") { today = 10012 } ∷ [])
      ≡ true)
    × (read_entitlement l environment day ≡ some e)
    × Vouched l day (public_key l [] vendor_key) e
    × (1 ≤ rank_of e.plan)
    × (1 ≤ rank_of (mode_ceiling "team"))
unfolding plan_rank
require_plan-Vouched_example =
    require_plan-Vouched l environment "team" (request "max" ∷ [])
      (record (request "plus") { today = 10012 }) 0 refl refl admitted_later
