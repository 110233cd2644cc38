-- ===== src/Pairing/Tests.antt =====
-- A code for two keys: its creation, its redemptions, and its revocation; and a code that is typed
-- by hand.
use lineagelens.Prelude.{ℕ, ◌+◌, ◌≤◌, String, ◌≡◌, refl, none, some, List, [], ◌∷◌, map}
use lineagelens.Pairing.Codes.{Casing, generate_pairing_code, normalize_code, all_symbols}
use lineagelens.Pairing.Spelling.{
  lstrip, rstrip, upper_letter, IsAsciiCasing, writes, are_typed_for,
}
use lineagelens.Pairing.Typed.{normalize_code-generate_pairing_code}
use lineagelens.Pairing.{
  NewCode, PairingCode, create_pairing_code, redeem_by_hash, redeem_pairing_code, redeem_row,
  refusal, record_failed_attempt, returned, scopes_for_client, revoke_pairing_code,
}
use lineagelens.Pairing.Rows.{find_code}
use lineagelens.Pairing.Uses.{
  Call, redeem, revoke, revoked_for_good, total_minted, total_minted_bounded, minted, after_call,
}

abbrev digest : String → String
digest code = code

abbrev new : NewCode
new = record {
  workspace_id = "w";
  created_by = "admin";
  client = "mcp";
  label = none;
  ttl_minutes = 10;
  max_uses = 2;
}

abbrev row : PairingCode
row = record {
  id = "p1";
  workspace_id = "w";
  created_by = "admin";
  client = "mcp";
  code_hash = "LL-00000-00000";
  label = none;
  scopes = "provenance:read" ∷ [];
  max_uses = 2;
  use_count = 0;
  attempts = 0;
  expires_at = 600_000_005;
  revoked_at = none;
  last_redeemed_label = none;
}

abbrev redeem_at : ℕ → Call
redeem_at now = redeem (record {
  code = some "LL-00000-00000";
  client = "mcp";
  label = none;
  raw_key = "secret";
  now = now;
})

abbrev calls : List Call
calls = redeem_at 6 ∷ redeem_at 7 ∷ redeem_at 8 ∷ revoke (some "p1") "w" 9 ∷ redeem_at 10 ∷ []

-- The third redemption finds the code used up.
two_keys : total_minted digest "LL-00000-00000" calls (row ∷ []) ≡ 2
unfolding total_minted minted after_call redeem_pairing_code redeem_by_hash redeem_row refusal
    record_failed_attempt revoke_pairing_code
two_keys = refl

created : create_pairing_code digest new "p1" "LL-00000-00000" 5 [] ≡ (returned row, row ∷ [])
unfolding create_pairing_code scopes_for_client
created = refl

total_minted_bounded_example : 0 + total_minted digest "LL-00000-00000" calls (row ∷ []) ≤ 2
unfolding find_code
total_minted_bounded_example =
    total_minted_bounded digest "LL-00000-00000" calls (row ∷ []) row refl

revoked_for_good_example :
    total_minted digest "LL-00000-00000" calls (record row { revoked_at = some 5 } ∷ []) ≡ 0
unfolding find_code
revoked_for_good_example =
    revoked_for_good digest "LL-00000-00000" calls (record row { revoked_at = some 5 } ∷ [])
      (record row { revoked_at = some 5 }) 5 refl refl

abbrev casing : Casing
casing = record { strip = λ t. rstrip (lstrip t); upper = map upper_letter }

casing-IsAsciiCasing : IsAsciiCasing casing
casing-IsAsciiCasing = record { strip_ascii = λ t h. refl; upper_ascii = λ t h. refl }

abbrev symbols : List ℕ
symbols = b'0' ∷ b'1' ∷ b'2' ∷ b'3' ∷ b'4' ∷ b'5' ∷ b'6' ∷ b'7' ∷ b'8' ∷ b'V' ∷ []

-- ` ll-oi23 4-5678u`
abbrev typed_code : List ℕ
typed_code =
    32 ∷ b'l' ∷ b'l' ∷ b'-' ∷ b'o' ∷ b'i' ∷ b'2' ∷ b'3' ∷ 32 ∷ b'4' ∷ b'-' ∷ b'5' ∷ b'6' ∷ b'7'
    ∷ b'8' ∷ b'u' ∷ []

abbrev letters : List ℕ
letters = b'O' ∷ b'I' ∷ b'2' ∷ b'3' ∷ b'4' ∷ b'5' ∷ b'6' ∷ b'7' ∷ b'8' ∷ b'U' ∷ []

normalize_code-generate_pairing_code_example :
    (normalize_code casing typed_code ≡ some (generate_pairing_code symbols))
    × (normalize_code casing (generate_pairing_code symbols) ≡ some (generate_pairing_code symbols))
unfolding all_symbols writes are_typed_for
normalize_code-generate_pairing_code_example =
    normalize_code-generate_pairing_code casing casing-IsAsciiCasing symbols typed_code letters refl
      refl refl refl
