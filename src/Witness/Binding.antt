-- ===== src/Witness/Binding.antt =====
-- What a root commits to.
use native.Mathlib.Decide.{ℕ_discrete}
use lineagelens.Prelude.{
  cons_inj, ℕ, zero, suc, ◌+◌, ◌*◌, ◌≤◌, ◌≡◌, ◌≢◌, ◌⊎◌, inl, inr, refl, ap, sym, ◌∙◌, some, List,
  [], ◌∷◌, ◌++◌, length, All, arith,
}
use lineagelens.Witness.Merkle.{Bytes, next_level, reduce_level}

Bytes-discrete : Discrete Bytes
Bytes-discrete = hlevel (ℕ_discrete)

append-halves :
    (a x : Bytes) {b y : Bytes} → length a ≡ length x → a ++ b ≡ x ++ y → (a ≡ x) × (b ≡ y)
append-halves [] [] le e = (refl, e)
append-halves [] (c ∷ x) le e = absurd (omega (arith, le))
append-halves (c ∷ a) [] le e = absurd (omega (arith, le))
append-halves (c ∷ a) (k ∷ x) le e =
    let rest = append-halves a x (omega (arith, le)) (cons_inj e).1 in (cc, rest.1)

module _ (sha256 : Bytes → Bytes) where
  -- Half of the level, rounded up.
  pub length-next_level :
      (level : List Bytes) → 2 * length (next_level sha256 level) ≤ length level + 1
  unfolding next_level
  length-next_level [] = omega arith
  length-next_level (a ∷ []) = omega arith
  length-next_level (a ∷ b ∷ level) = omega (arith, length-next_level level)

  pub next_level_nonempty :
      (a : Bytes) (level : List Bytes) → 1 ≤ length (next_level sha256 (a ∷ level))
  unfolding next_level
  next_level_nonempty a [] = omega arith
  next_level_nonempty a (b ∷ level) = omega arith

  -- As much fuel as there are nodes is enough.
  pub reduce_level_total :
      (fuel : ℕ) (level : List Bytes)
      → 1 ≤ length level
      → length level ≤ fuel + 1
      → (root : Bytes) × (reduce_level sha256 fuel level ≡ some root)
  unfolding reduce_level
  reduce_level_total fuel [] h le = absurd (omega arith)
  reduce_level_total fuel (root ∷ []) h le = (root, refl)
  reduce_level_total zero (a ∷ b ∷ level) h le = absurd (omega arith)
  reduce_level_total (suc fuel) (a ∷ b ∷ level) h le =
      let half = length-next_level (a ∷ b ∷ level) in
      reduce_level_total fuel (next_level sha256 (a ∷ b ∷ level))
        (next_level_nonempty a (b ∷ level)) (omega arith)

  -- Two byte strings with one digest.
  abbrev pub Collision : Type 0
  Collision = (x : Bytes) × (y : Bytes) × (x ≢ y) × (sha256 x ≡ sha256 y)

  same_digest : (x y : Bytes) → sha256 x ≡ sha256 y → (x ≡ y) ⊎ Collision
  same_digest x y e = elim (Bytes-discrete x y) [
    | yes same ↦ inl same
    | no other ↦ inr (x, y, other, e)
  ]

  -- Two nodes of 32 bytes each.
  same_pair :
      (a b x y : Bytes)
      → length a ≡ length x
      → sha256 (a ++ b) ≡ sha256 (x ++ y)
      → ((a ≡ x) × (b ≡ y)) ⊎ Collision
  same_pair a b x y same e = elim (same_digest (a ++ b) (x ++ y) e) [
    | inl joined ↦ inl (append-halves a x same joined)
    | inr c ↦ inr c
  ]

  pub next_level-binding :
      (n : ℕ) (xs ys : List Bytes)
      → All (λ x. length x ≡ n) xs
      → All (λ y. length y ≡ n) ys
      → length xs ≡ length ys
      → next_level sha256 xs ≡ next_level sha256 ys
      → (xs ≡ ys) ⊎ Collision
  unfolding next_level
  next_level-binding n [] [] hx hy le e = inl refl
  next_level-binding n [] (y ∷ ys) hx hy le e = absurd (omega (arith, le))
  next_level-binding n (x ∷ xs) [] hx hy le e = absurd (omega (arith, le))
  next_level-binding n (x ∷ []) (y ∷ []) hx hy le e =
      elim (same_pair x x y y (hx.0 ∙ sym hy.0) (cons_inj e).0) [
        | inl same ↦ inl (ap (λ z. z ∷ []) same.0)
        | inr c ↦ inr c
      ]
  next_level-binding n (x ∷ []) (y ∷ z ∷ ys) hx hy le e = absurd (omega (arith, le))
  next_level-binding n (x ∷ w ∷ xs) (y ∷ []) hx hy le e = absurd (omega (arith, le))
  next_level-binding n (x ∷ w ∷ xs) (y ∷ z ∷ ys) hx hy le e =
      elim (same_pair x w y z (hx.0 ∙ sym hy.0) (cons_inj e).0) [
        | inr c ↦ inr c
        | inl same ↦
            elim (next_level-binding n xs ys hx.1.1 hy.1.1 (omega (arith, le)) (cons_inj e).1) [
              | inr c ↦ inr c
              | inl rest ↦ inl cc
            ]
      ]
