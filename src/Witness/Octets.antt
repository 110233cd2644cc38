-- ===== src/Witness/Octets.antt =====
-- That the DER encoding consists of bytes, so that `bytes([…])` refuses none of it.
use lineagelens.Prelude.{
  ℕ, zero, suc, ◌+◌, ◌*◌, ◌/◌, ◌%◌, ◌≤◌, ◌<◌, ltb, String, some, [], ◌∷◌, ◌++◌, length, All, arith,
  Bool-cases, inl, inr, ◌≡◌, sym, ◌∙◌, of_some,
}
use mathlib.Core.Path.{subst}
use lineagelens.Witness.Merkle.{Bytes, Digesting}
use lineagelens.Witness.Der.{
  bit_length, to_bytes, with_high_bit, der_length, der_tlv, build_timestamp_request,
}
use lineagelens.Witness.Tlv.{bit_length_le, length-to_bytes}
use lineagelens.Witness.Request.{
  algorithm_of, imprint_of, request_of, sha256_identifier, length-algorithm_of, length-imprint_of,
  length-request_of, build_timestamp_request_lem,
}

abbrev pub AreOctets : Bytes → Type 0
AreOctets = All (λ b. b < 256)

AreOctets-append : (xs ys : Bytes) → AreOctets xs → AreOctets ys → AreOctets (xs ++ ys)
AreOctets-append [] ys hx hy = hy
AreOctets-append (x ∷ xs) ys hx hy = (hx.0, AreOctets-append xs ys hx.1 hy)

AreOctets-to_bytes : (size n : ℕ) → AreOctets (to_bytes size n)
unfolding to_bytes
AreOctets-to_bytes zero n = tt
AreOctets-to_bytes (suc size) n =
    AreOctets-append (to_bytes size (n / 256)) (n % 256 ∷ []) (AreOctets-to_bytes size (n / 256))
      (omega arith, tt)

AreOctets-der_length : (n : ℕ) → bit_length n ≤ 1016 → AreOctets (der_length n)
unfolding der_length with_high_bit
AreOctets-der_length n h = elim (Bool-cases (ltb n 128)) [
  | inl short ↦ rw short (ground arith, tt)
  | inr long ↦
      let size = (bit_length n + 7) / 8 in
      let lead : length (to_bytes size n) / 256 * 256 + 128 + length (to_bytes size n) % 128 < 256 =
        omega (arith, length-to_bytes size n) in
      rw long (lead, AreOctets-to_bytes size n)
]

AreOctets-der_tlv :
    (tag : ℕ) (value : Bytes)
    → tag < 256
    → length value ≤ 1016
    → AreOctets value
    → AreOctets (der_tlv tag value)
unfolding der_tlv
AreOctets-der_tlv tag value ht h hv =
    let small : bit_length (length value) ≤ 1016 = omega (arith, bit_length_le (length value)) in
    (
      ht,
      AreOctets-append (der_length (length value)) value (AreOctets-der_length (length value) small)
          hv,
    )

module _ (v oid digest flag : Bytes) where
  AreOctets-request_of :
      (length v ≤ 10) × AreOctets v
      → (length oid ≤ 10) × AreOctets oid
      → (length digest ≤ 64) × AreOctets digest
      → (length flag ≤ 10) × AreOctets flag
      → AreOctets (der_tlv 48 (request_of v oid digest flag))
  AreOctets-request_of (hv, bv) (ho, bo) (hd, bd) (hf, bf) =
      let algorithm = length-algorithm_of v oid digest flag ho in
      let imprint = length-imprint_of v oid digest flag ho hd in
      let b_algorithm : AreOctets (algorithm_of v oid digest flag) =
        AreOctets-append (der_tlv 6 oid) [] (AreOctets-der_tlv 6 oid (omega arith) (omega arith) bo)
          tt in
      let b_octets =
        AreOctets-append (der_tlv 4 digest) []
          (AreOctets-der_tlv 4 digest (omega arith) (omega arith) bd) tt in
      let b_imprint : AreOctets (imprint_of v oid digest flag) =
        AreOctets-append (der_tlv 48 (algorithm_of v oid digest flag)) (der_tlv 4 digest ++ [])
          (AreOctets-der_tlv 48 (algorithm_of v oid digest flag) (omega arith)
            (omega (arith, algorithm)) b_algorithm)
          b_octets in
      let b_flag =
        AreOctets-append (der_tlv 1 flag) []
          (AreOctets-der_tlv 1 flag (omega arith) (omega arith) bf) tt in
      let b_tail =
        AreOctets-append (der_tlv 48 (imprint_of v oid digest flag)) (der_tlv 1 flag ++ [])
          (AreOctets-der_tlv 48 (imprint_of v oid digest flag) (omega arith)
            (omega (arith, imprint)) b_imprint)
          b_flag in
      AreOctets-der_tlv 48 (request_of v oid digest flag) (omega arith)
        (length-request_of v oid digest flag hv ho hd hf)
        (AreOctets-append (der_tlv 2 v) _ (AreOctets-der_tlv 2 v (omega arith) (omega arith) bv)
          b_tail)

sha256_identifier_octets : AreOctets sha256_identifier
sha256_identifier_octets = (
  omega arith,
  (
    omega arith,
    (
      omega arith,
      (omega arith, (omega arith, (omega arith, (omega arith, (omega arith, (omega arith, tt)))))),
    ),
  ),
)

-- Every number of the request is below 256, for a digest of 32 bytes.
pub build_timestamp_request_octets :
    (d : Digesting) (h : String) (digest request : Bytes)
    → d.fromhex h ≡ some digest
    → length digest ≡ 32
    → AreOctets digest
    → build_timestamp_request d h ≡ some request
    → AreOctets request
build_timestamp_request_octets d h digest request good le octets e =
    subst AreOctets (of_some (sym (build_timestamp_request_lem d h digest good) ∙ e)) (
      AreOctets-request_of (1 ∷ []) sha256_identifier digest (255 ∷ [])
        (omega arith, (omega arith, tt)) (omega arith, sha256_identifier_octets)
        (omega arith, octets) (omega arith, (omega arith, tt)))
