-- ===== src/Witness/Root.antt =====
-- What the root of `compute_periodic_root` commits to.
use lineagelens.Prelude.{
  ℕ, suc, ◌*◌, String, ◌≡◌, ◌⊎◌, inl, inr, refl, ap, sym, ◌∙◌, some, List, [], ◌∷◌, ◌++◌, length,
  length-append, All, arith, of_some, Option-cases,
}
use lineagelens.Witness.Merkle.{Bytes, Digesting, all_bytes, reduce_level, compute_periodic_root}
use lineagelens.Witness.Binding.{Collision, reduce_level_total}
use lineagelens.Witness.Levels.{reduce_level_fuel, reduce_level-binding, reduce_level_repeated}

length-all_bytes :
    (d : Digesting) (hs : List String) (xs : List Bytes)
    → all_bytes d hs ≡ some xs
    → length xs ≡ length hs
unfolding all_bytes
length-all_bytes d [] xs e = ap length (sym (of_some e))
length-all_bytes d (h ∷ hs) xs e = elim (Option-cases (d.fromhex h)) [
  | inl bad ↦ absurd (ground (arith, e, bad))
  | inr (b, good) ↦ elim (Option-cases (all_bytes d hs)) [
    | inl bad ↦ absurd (ground (arith, e, good, bad))
    | inr (bs, rest) ↦ ground (arith, e, good, rest, length-all_bytes d hs bs rest)
  ]
]

run_of :
    (d : Digesting) (h : String) (hs : List String) (level : List Bytes) (root : Bytes)
    → all_bytes d (h ∷ hs) ≡ some level
    → reduce_level d.sha256 (length level) level ≡ some root
    → compute_periodic_root d (h ∷ hs) ≡ some (d.hex root)
unfolding compute_periodic_root
run_of d h hs level root e ends = rw (compute_periodic_root, e, ends) refl

-- Every list of hexadecimal digests has a root: the loop ends, within as many rounds as there are
-- digests. The only failure is that of `bytes.fromhex`.
pub compute_periodic_root_total :
    (d : Digesting) (hs : List String) (level : List Bytes)
    → all_bytes d hs ≡ some level
    → (root : String) × (compute_periodic_root d hs ≡ some root)
unfolding compute_periodic_root
compute_periodic_root_total d [] level e = (_, refl)
compute_periodic_root_total d (h ∷ hs) level e =
    let counted = length-all_bytes d (h ∷ hs) level e in
    let (root, ends) =
      reduce_level_total d.sha256 (length level) level (omega arith) (omega arith) in
    (d.hex root, run_of d h hs level root e ends)

-- With a digest of 32 bytes, and `.hex()` that tells byte strings apart, two lists of as many
-- 32-byte heads that have the same root are the same bytes in the same order, or SHA-256 has a
-- collision, which the proof computes.
pub compute_periodic_root-binding :
    (d : Digesting)
    → ((x : Bytes) → length (d.sha256 x) ≡ 32)
    → ((x y : Bytes) → d.hex x ≡ d.hex y → x ≡ y)
    → (hs ks : List String) (xs ys : List Bytes) → all_bytes d hs ≡ some xs
    → all_bytes d ks ≡ some ys
    → All (λ x. length x ≡ 32) xs
    → All (λ y. length y ≡ 32) ys
    → length hs ≡ length ks
    → compute_periodic_root d hs ≡ compute_periodic_root d ks
    → (xs ≡ ys) ⊎ Collision d.sha256
unfolding all_bytes
compute_periodic_root-binding d wide inj [] [] xs ys hx hy wx wy le e = inl (of_some (sym hx ∙ hy))
compute_periodic_root-binding d wide inj [] (k ∷ ks) xs ys hx hy wx wy le e =
    absurd (omega (arith, le))
compute_periodic_root-binding d wide inj (h ∷ hs) [] xs ys hx hy wx wy le e =
    absurd (omega (arith, le))
compute_periodic_root-binding d wide inj (h ∷ hs) (k ∷ ks) xs ys hx hy wx wy le e =
    let counted = length-all_bytes d (h ∷ hs) xs hx in
    let counted' = length-all_bytes d (k ∷ ks) ys hy in
    let same_length : length ys ≡ length xs = omega (arith, le) in
    let (root, ends) = reduce_level_total d.sha256 (length xs) xs (omega arith) (omega arith) in
    let (root', ends') = reduce_level_total d.sha256 (length ys) ys (omega arith) (omega arith) in
    let same_hex = sym (run_of d h hs xs root hx ends) ∙ e ∙ run_of d k ks ys root' hy ends' in
    let same_root = inj root root' (of_some same_hex) in
    let ends_at =
      reduce_level_fuel d.sha256 (length xs) (length ys) ys (omega arith) (omega arith) in
    reduce_level-binding d.sha256 32 wide (length xs) xs ys wx wy (sym same_length) (omega arith)
      (ends ∙ ap some same_root ∙ sym ends' ∙ sym ends_at)

all_bytes-append :
    (d : Digesting) (hs ks : List String) (xs ys : List Bytes)
    → all_bytes d hs ≡ some xs
    → all_bytes d ks ≡ some ys
    → all_bytes d (hs ++ ks) ≡ some (xs ++ ys)
unfolding all_bytes
all_bytes-append d [] ks xs ys hx hy = hy ∙ ap (λ z. some (z ++ ys)) (of_some hx)
all_bytes-append d (h ∷ hs) ks xs ys hx hy = elim (Option-cases (d.fromhex h)) [
  | inl bad ↦ absurd (ground (arith, hx, bad))
  | inr (b, good) ↦ elim (Option-cases (all_bytes d hs)) [
    | inl bad ↦ absurd (ground (arith, hx, good, bad))
    | inr (bs, rest) ↦
        let split : b ∷ bs ≡ xs = ground (arith, hx, good, rest) in
        let tail_read = all_bytes-append d hs ks bs ys rest hy in
        rw (good, tail_read) (ap (λ z. some (z ++ ys)) split)
  ]
]

read_last :
    (d : Digesting) (h : String) (x : Bytes)
    → d.fromhex h ≡ some x
    → all_bytes d (h ∷ []) ≡ some (x ∷ [])
unfolding all_bytes
read_last d h x good = rw (all_bytes, good) refl

-- The root does not tell how often the last head occurs: after an even number of heads, at least
-- two, one more head gives the same root as that head twice.
pub compute_periodic_root_repeated :
    (d : Digesting) (n : ℕ) (hs : List String) (h : String) (xs : List Bytes) (x : Bytes)
    → length hs ≡ 2 * suc n
    → all_bytes d hs ≡ some xs
    → d.fromhex h ≡ some x
    → compute_periodic_root d (hs ++ h ∷ []) ≡ compute_periodic_root d (hs ++ h ∷ h ∷ [])
compute_periodic_root_repeated d n [] h xs x le hx good = absurd (omega (arith, le))
compute_periodic_root_repeated d n (k ∷ ks) h xs x le hx good =
    let counted : length xs ≡ 2 * suc n = length-all_bytes d (k ∷ ks) xs hx ∙ le in
    let one = length-append xs (x ∷ []) in
    let two = length-append xs (x ∷ x ∷ []) in
    let read_one = all_bytes-append d (k ∷ ks) (h ∷ []) xs (x ∷ []) hx (read_last d h x good) in
    let read_two = all_bytes-append d (k ∷ ks) (h ∷ h ∷ []) xs (x ∷ x ∷ []) hx (
      all_bytes-append d (h ∷ []) (h ∷ []) (x ∷ []) (x ∷ []) (read_last d h x good)
        (read_last d h x good)) in
    let (root, ends) =
      reduce_level_total d.sha256 (length (xs ++ x ∷ [])) (xs ++ x ∷ []) (omega arith)
        (omega arith) in
    let same =
      reduce_level_repeated d.sha256 (length (xs ++ x ∷ [])) (length (xs ++ x ∷ x ∷ [])) n xs x
        counted (omega arith) (omega arith) in
    run_of d k (ks ++ h ∷ []) (xs ++ x ∷ []) root read_one ends
    ∙ sym (run_of d k (ks ++ h ∷ h ∷ []) (xs ++ x ∷ x ∷ []) root read_two (sym same ∙ ends))
