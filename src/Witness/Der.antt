-- ===== src/Witness/Der.antt =====
-- The DER encoding of a time-stamp request: the `_der_` functions and `build_timestamp_request` of
-- lineagelens-backend/app/services/witness_service.py. A byte above 255, which `bytes([…])`
-- refuses with a `ValueError`, stays a number here.
use lineagelens.Prelude.{
  ℕ, zero, suc, ◌+◌, ◌*◌, ◌/◌, ◌%◌, ltb, ◌==◌, if◌then◌else◌, Bool, true, String, Option, none,
  some, List, [], ◌∷◌, ◌++◌, length,
}
use lineagelens.Witness.Merkle.{Bytes, Digesting}

-- `n.bit_length()`, on fuel; n halvings are enough.
unfoldable pub halvings : ℕ → ℕ → ℕ
halvings zero n = 0
halvings (suc fuel) n = let rest = halvings fuel (n / 2) in if n == 0 then 0 else suc rest

unfoldable pub bit_length : ℕ → ℕ
bit_length n = halvings n n

-- `n.to_bytes(size, "big")` of a number that fits.
unfoldable pub to_bytes : ℕ → ℕ → Bytes
to_bytes zero n = []
to_bytes (suc size) n = to_bytes size (n / 256) ++ n % 256 ∷ []

-- `0x80 | n`
unfoldable pub with_high_bit : ℕ → ℕ
with_high_bit n = n / 256 * 256 + 128 + n % 128

unfoldable pub der_length : ℕ → Bytes
der_length n =
    let encoded = to_bytes ((bit_length n + 7) / 8) n in
    if ltb n 128 then n ∷ [] else with_high_bit (length encoded) ∷ encoded

unfoldable pub der_tlv : ℕ → Bytes → Bytes
der_tlv tag value = tag ∷ der_length (length value) ++ value

-- `… or 1` is written out, although the quotient is never 0.
unfoldable pub der_integer : ℕ → Bytes
der_integer value =
    let size = (bit_length value + 8) / 8 in
    der_tlv 2 (to_bytes (if size == 0 then 1 else size) value)

-- The `while p > 0`, on fuel; the chunk grows at its front.
unfoldable pub septets : ℕ → ℕ → Bytes → Bytes
septets zero p chunk = chunk
septets (suc fuel) p chunk =
    let rest = septets fuel (p / 128) (p % 128 ∷ chunk) in if p == 0 then chunk else rest

-- `chunk[i] |= 0x80` for every i but the last.
unfoldable pub continued : Bytes → Bytes
continued [] = []
continued (b ∷ []) = b ∷ []
continued (b ∷ c ∷ chunk) = with_high_bit b ∷ continued (c ∷ chunk)

unfoldable pub encode_arcs : List ℕ → Bytes
encode_arcs [] = []
encode_arcs (p ∷ parts) =
    (if p == 0 then 0 ∷ [] else continued (septets p p [])) ++ encode_arcs parts

-- The argument is the list of the numbers between the dots; `none` is the `IndexError` for less
-- than two.
unfoldable pub der_oid : List ℕ → Option Bytes
der_oid [] = none
der_oid (a ∷ []) = none
der_oid (a ∷ b ∷ parts) = some (der_tlv 6 ((a * 40 + b) ∷ encode_arcs parts))

unfoldable pub der_octet_string : Bytes → Bytes
der_octet_string octets = der_tlv 4 octets

unfoldable pub joined : List Bytes → Bytes
joined [] = []
joined (part ∷ parts) = part ++ joined parts

unfoldable pub der_sequence : List Bytes → Bytes
der_sequence parts = der_tlv 48 (joined parts)

unfoldable pub der_boolean : Bool → Bytes
der_boolean value = der_tlv 1 ((if value then 255 else 0) ∷ [])

-- 2.16.840.1.101.3.4.2.1
abbrev pub sha256_oid : List ℕ
sha256_oid = 2 ∷ 16 ∷ 840 ∷ 1 ∷ 101 ∷ 3 ∷ 4 ∷ 2 ∷ 1 ∷ []

-- `none` where `bytes.fromhex` raises.
unfoldable pub build_timestamp_request : Digesting → String → Option Bytes
build_timestamp_request d root_hash_hex = elim (der_oid sha256_oid) [
  | none ↦ none
  | some oid ↦ elim (d.fromhex root_hash_hex) [
    | none ↦ none
    | some digest ↦
        let message_imprint =
          der_sequence (der_sequence (oid ∷ []) ∷ der_octet_string digest ∷ []) in
        some (der_sequence (der_integer 1 ∷ message_imprint ∷ der_boolean true ∷ []))
  ]
]
