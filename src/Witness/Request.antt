-- ===== src/Witness/Request.antt =====
-- What a time-stamp authority reads in the request that `build_timestamp_request` encodes.
use mathlib.Core.Path.{subst}
use mathlib.Core.List.{append-nil}
use lineagelens.Prelude.{
  ℕ, ◌+◌, ◌≤◌, ltb, ◌==◌, if◌then◌else◌, true, String, Option, none, some, [], ◌∷◌, ◌++◌, length,
  length-append, arith, ◌≡◌, refl, ap, sym, ◌∙◌,
}
use lineagelens.Witness.Merkle.{Bytes, Digesting}
use lineagelens.Witness.Der.{
  halvings, bit_length, to_bytes, with_high_bit, der_length, der_tlv, der_integer, der_oid,
  der_octet_string, der_sequence, der_boolean, joined, encode_arcs, continued, septets,
  build_timestamp_request, sha256_oid,
}
use lineagelens.Witness.Tlv.{parse_tlv, parse_tlv-der_tlv, bit_length_le}

abbrev expect : ℕ → Bytes → Option (Bytes × Bytes)
expect tag bs = elim (parse_tlv bs) [
  | none ↦ none
  | some (t, value, rest) ↦ if t == tag then some (value, rest) else none
]

pub record TimestampRequest : Type 0 where
  pub version : Bytes
  pub algorithm : Bytes
  pub hashed_message : Bytes
  pub cert_req : Bytes

-- The fields of RFC 3161: the version, the algorithm and digest of the imprint, and `certReq`.
-- Nothing may follow an element that should be the last.
abbrev pub read_request : Bytes → Option TimestampRequest
read_request bs = elim (expect 48 bs) [
  | some (request, []) ↦ elim (expect 2 request) [
    | none ↦ none
    | some (version, after_version) ↦ elim (expect 48 after_version) [
      | none ↦ none
      | some (imprint, after_imprint) ↦ elim (expect 48 imprint) [
        | none ↦ none
        | some (algorithm, after_algorithm) ↦ elim (expect 6 algorithm) [
          | some (oid, []) ↦ elim (expect 4 after_algorithm) [
            | some (digest, []) ↦ elim (expect 1 after_imprint) [
              | some (flag, []) ↦ some record {
                version = version;
                algorithm = oid;
                hashed_message = digest;
                cert_req = flag;
              }
              | _ ↦ none
            ]
            | _ ↦ none
          ]
          | _ ↦ none
        ]
      ]
    ]
  ]
  | _ ↦ none
]

expect-der_tlv :
    (tag : ℕ) (value rest : Bytes)
    → length value ≤ 1016
    → expect tag (der_tlv tag value ++ rest) ≡ some (value, rest)
expect-der_tlv tag value rest h =
    let small : bit_length (length value) ≤ 1016 = omega (arith, bit_length_le (length value)) in
    let same : (tag == tag) ≡ true = ground arith in
    rw (expect, parse_tlv-der_tlv tag value rest small, same) refl

expect_alone :
    (tag : ℕ) (value : Bytes)
    → length value ≤ 1016
    → expect tag (der_tlv tag value) ≡ some (value, [])
expect_alone tag value h =
    ap (expect tag) (sym (append-nil (der_tlv tag value))) ∙ expect-der_tlv tag value [] h

length-der_tlv :
    (tag : ℕ) (value : Bytes) → length value ≤ 127 → length (der_tlv tag value) ≡ length value + 2
unfolding der_tlv der_length
length-der_tlv tag value h =
    let short : ltb (length value) 128 ≡ true = ground arith in rw short (omega arith)

abbrev pub sha256_identifier : Bytes
sha256_identifier = 96 ∷ 134 ∷ 72 ∷ 1 ∷ 101 ∷ 3 ∷ 4 ∷ 2 ∷ 1 ∷ []

der_oid-sha256_oid : der_oid sha256_oid ≡ some (der_tlv 6 sha256_identifier)
unfolding der_oid encode_arcs continued septets with_high_bit
der_oid-sha256_oid = refl

module _ (v oid digest flag : Bytes) where
  abbrev pub algorithm_of : Bytes
  algorithm_of = der_tlv 6 oid ++ []

  abbrev pub imprint_of : Bytes
  imprint_of = der_tlv 48 algorithm_of ++ (der_tlv 4 digest ++ [])

  abbrev pub request_of : Bytes
  request_of = der_tlv 2 v ++ (der_tlv 48 imprint_of ++ (der_tlv 1 flag ++ []))

  pub length-algorithm_of : length oid ≤ 10 → length algorithm_of ≡ length oid + 2
  length-algorithm_of ho =
      length-append (der_tlv 6 oid) [] ∙ omega (arith, length-der_tlv 6 oid (omega arith))

  pub length-imprint_of :
      length oid ≤ 10 → length digest ≤ 64 → length imprint_of ≡ length oid + length digest + 6
  length-imprint_of ho hd =
      let algorithm = length-algorithm_of ho in
      let wrapped = length-der_tlv 48 algorithm_of (omega (arith, algorithm)) in
      let octets = length-der_tlv 4 digest (omega arith) in
      length-append (der_tlv 48 algorithm_of) (der_tlv 4 digest ++ [])
      ∙ omega (arith, wrapped, algorithm, length-append (der_tlv 4 digest) [], octets)

  pub length-request_of :
      length v ≤ 10
      → length oid ≤ 10
      → length digest ≤ 64
      → length flag ≤ 10
      → length request_of ≤ 1016
  length-request_of hv ho hd hf =
      let imprint = length-imprint_of ho hd in
      let wrapped = length-der_tlv 48 imprint_of (omega (arith, imprint)) in
      let after = length-append (der_tlv 48 imprint_of) (der_tlv 1 flag ++ []) in
      let whole = length-append (der_tlv 2 v) (der_tlv 48 imprint_of ++ (der_tlv 1 flag ++ [])) in
      subst (λ n. n ≤ 1016) (sym whole)
        (omega (
          arith,
          length-der_tlv 2 v (omega arith),
          after,
          wrapped,
          imprint,
          length-append (der_tlv 1 flag) [],
          length-der_tlv 1 flag (omega arith),
        ))

  read_request-der_tlv :
      length v ≤ 10
      → length oid ≤ 10
      → length digest ≤ 64
      → length flag ≤ 10
      → read_request (der_tlv 48 request_of)
        ≡ some record { version = v; algorithm = oid; hashed_message = digest; cert_req = flag }
  read_request-der_tlv hv ho hd hf =
      let algorithm = length-algorithm_of ho in
      let imprint = length-imprint_of ho hd in
      rw
        (
          read_request,
          expect_alone 48 request_of (length-request_of hv ho hd hf),
          expect-der_tlv 2 v (der_tlv 48 imprint_of ++ (der_tlv 1 flag ++ [])) (omega arith),
          expect-der_tlv 48 imprint_of (der_tlv 1 flag ++ []) (omega (arith, imprint)),
          expect-der_tlv 48 algorithm_of (der_tlv 4 digest ++ []) (omega (arith, algorithm)),
          expect-der_tlv 6 oid [] (omega arith),
          expect-der_tlv 4 digest [] (omega arith),
          expect-der_tlv 1 flag [] (omega arith),
        )
        refl

pub build_timestamp_request_lem :
    (d : Digesting) (h : String) (digest : Bytes)
    → d.fromhex h ≡ some digest
    → build_timestamp_request d h
      ≡ some (der_tlv 48 (request_of (1 ∷ []) sha256_identifier digest (255 ∷ [])))
unfolding build_timestamp_request der_integer der_octet_string der_sequence der_boolean joined
    to_bytes bit_length halvings
build_timestamp_request_lem d h digest good =
    rw (build_timestamp_request, der_oid-sha256_oid, good) refl

-- A digest of 32 bytes always gives a request, and the authority reads in it version 1, the
-- identifier 2.16.840.1.101.3.4.2.1 of SHA-256, the digest unchanged and a `certReq` that is true.
pub read_request-build_timestamp_request :
    (d : Digesting) (h : String) (digest : Bytes)
    → d.fromhex h ≡ some digest
    → length digest ≡ 32
    → (request : Bytes) × (build_timestamp_request d h ≡ some request)
      × (read_request request
          ≡ some record {
            version = 1 ∷ [];
            algorithm = sha256_identifier;
            hashed_message = digest;
            cert_req = 255 ∷ [];
          })
read_request-build_timestamp_request d h digest good le = (
  der_tlv 48 (request_of (1 ∷ []) sha256_identifier digest (255 ∷ [])),
  build_timestamp_request_lem d h digest good,
  read_request-der_tlv (1 ∷ []) sha256_identifier digest (255 ∷ []) (omega arith) (omega arith)
      (omega arith) (omega arith),
)
