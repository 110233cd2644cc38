-- ===== src/Witness/Tlv.antt =====
-- A reader of the DER encoding, and that it gives back what was encoded.
use mathlib.Core.Path.{subst}
use mathlib.Core.List.{append_assoc}
use lineagelens.Prelude.{
  ℕ, zero, suc, ◌+◌, ◌-◌, ◌*◌, ◌/◌, ◌%◌, ◌≤◌, ltb, if◌then◌else◌, false, Option, none, some, [],
  ◌∷◌, ◌++◌, length, length-append, take, arith, Bool-cases, inl, inr, ◌≡◌, refl, ap, ◌∙◌,
}
use lineagelens.Witness.Merkle.{Bytes}
use lineagelens.Witness.Der.{halvings, bit_length, to_bytes, with_high_bit, der_length, der_tlv}

-- A big-endian number.
abbrev of_bytes : ℕ → Bytes → ℕ
of_bytes n [] = n
of_bytes n (b ∷ bs) = of_bytes (n * 256 + b) bs

abbrev drop : ℕ → Bytes → Bytes
drop zero xs = xs
drop (suc n) [] = []
drop (suc n) (x ∷ xs) = drop n xs

of_bytes-append : (n : ℕ) (xs : Bytes) (b : ℕ) → of_bytes n (xs ++ b ∷ []) ≡ of_bytes n xs * 256 + b
of_bytes-append n [] b = refl
of_bytes-append n (x ∷ xs) b = of_bytes-append (n * 256 + x) xs b

halvings_fuel : (f g n : ℕ) → n ≤ f → n ≤ g → halvings f n ≡ halvings g n
unfolding halvings
halvings_fuel zero zero n hf hg = refl
halvings_fuel zero (suc g) n hf hg = ground arith
halvings_fuel (suc f) zero n hf hg = ground arith
halvings_fuel (suc f) (suc g) n hf hg =
    ground (arith, halvings_fuel f g (n / 2) (omega arith) (omega arith))

bit_length-half : (n : ℕ) → 1 ≤ n → bit_length n ≡ suc (bit_length (n / 2))
unfolding bit_length halvings
bit_length-half zero h = absurd (omega arith)
bit_length-half (suc n) h =
    ground (arith, halvings_fuel n (suc n / 2) (suc n / 2) (omega arith) (omega arith))

half_bound : (n k j : ℕ) → bit_length n ≤ k → k ≡ suc j → bit_length (n / 2) ≤ j
unfolding bit_length halvings
half_bound zero k j h e = omega arith
half_bound (suc n) k j h e = omega (arith, bit_length-half (suc n) (omega arith))

-- Eight halvings are a byte.
byte_bound : (n k : ℕ) → bit_length n ≤ 8 + k → bit_length (n / 256) ≤ k
byte_bound n k h =
    let h1 = half_bound n (8 + k) (7 + k) h (omega arith) in
    let h2 = half_bound (n / 2) (7 + k) (6 + k) h1 (omega arith) in
    let h3 = half_bound (n / 2 / 2) (6 + k) (5 + k) h2 (omega arith) in
    let h4 = half_bound (n / 2 / 2 / 2) (5 + k) (4 + k) h3 (omega arith) in
    let h5 = half_bound (n / 2 / 2 / 2 / 2) (4 + k) (3 + k) h4 (omega arith) in
    let h6 = half_bound (n / 2 / 2 / 2 / 2 / 2) (3 + k) (2 + k) h5 (omega arith) in
    let h7 = half_bound (n / 2 / 2 / 2 / 2 / 2 / 2) (2 + k) (1 + k) h6 (omega arith) in
    let h8 = half_bound (n / 2 / 2 / 2 / 2 / 2 / 2 / 2) (1 + k) k h7 (omega arith) in
    let same : n / 2 / 2 / 2 / 2 / 2 / 2 / 2 / 2 ≡ n / 256 = omega arith in
    subst (λ m. bit_length m ≤ k) same h8

of_bytes-to_bytes : (size n : ℕ) → bit_length n ≤ 8 * size → of_bytes 0 (to_bytes size n) ≡ n
unfolding to_bytes bit_length halvings
of_bytes-to_bytes zero zero h = refl
of_bytes-to_bytes zero (suc n) h = omega (arith, bit_length-half (suc n) (omega arith))
of_bytes-to_bytes (suc size) n h =
    let high = of_bytes-to_bytes size (n / 256) (byte_bound n (8 * size) (omega arith)) in
    of_bytes-append 0 (to_bytes size (n / 256)) (n % 256) ∙ omega (arith, high)

pub length-to_bytes : (size n : ℕ) → length (to_bytes size n) ≡ size
unfolding to_bytes
length-to_bytes zero n = refl
length-to_bytes (suc size) n =
    length-append (to_bytes size (n / 256)) (n % 256 ∷ [])
    ∙ omega (arith, length-to_bytes size (n / 256))

take_prefix : (xs ys : Bytes) → take (length xs) (xs ++ ys) ≡ xs
take_prefix [] ys = refl
take_prefix (x ∷ xs) ys = ap (λ zs. x ∷ zs) (take_prefix xs ys)

drop_prefix : (xs ys : Bytes) → drop (length xs) (xs ++ ys) ≡ ys
drop_prefix [] ys = refl
drop_prefix (x ∷ xs) ys = drop_prefix xs ys

-- The length that a DER reader sees, and the bytes after it.
abbrev read_length : Bytes → Option (ℕ × Bytes)
read_length [] = none
read_length (b ∷ bs) =
    if ltb b 128 then some (b, bs) else some (of_bytes 0 (take (b - 128) bs), drop (b - 128) bs)

read_length-der_length :
    (n : ℕ) (rest : Bytes)
    → bit_length n ≤ 1016
    → read_length (der_length n ++ rest) ≡ some (n, rest)
unfolding der_length with_high_bit
read_length-der_length n rest h = elim (Bool-cases (ltb n 128)) [
  | inl short ↦ rw (short, short) refl
  | inr long ↦
      let size = (bit_length n + 7) / 8 in
      let encoded = to_bytes size n in
      let wide : length encoded ≡ size = length-to_bytes size n in
      let few : size ≤ 127 = omega (arith, h) in
      let back : of_bytes 0 encoded ≡ n = of_bytes-to_bytes size n (omega arith) in
      let lead : length encoded / 256 * 256 + 128 + length encoded % 128 ≡ 128 + length encoded =
        omega (arith, wide, few) in
      let not_short : ltb (128 + length encoded) 128 ≡ false = ground arith in
      let less : 128 + length encoded - 128 ≡ length encoded = omega arith in
      rw (long, lead, not_short, less, take_prefix encoded rest, drop_prefix encoded rest, back)
        refl
]

-- The next element: its tag, its value and the bytes after it.
abbrev pub parse_tlv : Bytes → Option (ℕ × Bytes × Bytes)
parse_tlv [] = none
parse_tlv (tag ∷ bs) = elim (read_length bs) [
  | none ↦ none
  | some (n, body) ↦ if ltb (length body) n then none else some (tag, take n body, drop n body)
]

-- A DER reader finds the tag, the value and what follows, for every value whose length is below
-- 2 ^ 1016; longer ones have no length octets that `bytes([…])` accepts.
pub parse_tlv-der_tlv :
    (tag : ℕ) (value rest : Bytes)
    → bit_length (length value) ≤ 1016
    → parse_tlv (der_tlv tag value ++ rest) ≡ some (tag, value, rest)
unfolding der_tlv
parse_tlv-der_tlv tag value rest h =
    let fits : ltb (length (value ++ rest)) (length value) ≡ false =
      ground (arith, length-append value rest) in
    rw
      (
        parse_tlv,
        append_assoc (der_length (length value)) value rest,
        read_length-der_length (length value) (value ++ rest) h,
        fits,
        take_prefix value rest,
        drop_prefix value rest,
      )
      refl

halvings_le : (f n : ℕ) → halvings f n ≤ f
unfolding halvings
halvings_le zero n = omega arith
halvings_le (suc f) n = ground (arith, halvings_le f (n / 2))

pub bit_length_le : (n : ℕ) → bit_length n ≤ n
unfolding bit_length
bit_length_le n = halvings_le n n
