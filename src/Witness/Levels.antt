-- ===== src/Witness/Levels.antt =====
-- The levels of the Merkle tree: the fuel of the loop, what a level commits to, and its last node
-- twice.
use lineagelens.Prelude.{
  ℕ, zero, suc, ◌+◌, ◌*◌, ◌≤◌, ◌≡◌, ◌⊎◌, inl, inr, refl, ap, ◌∙◌, List, [], ◌∷◌, ◌++◌, length,
  length-append, All, arith, of_some,
}
use lineagelens.Witness.Merkle.{Bytes, next_level, reduce_level}
use lineagelens.Witness.Binding.{Collision, next_level-binding, length-next_level}

module _ (sha256 : Bytes → Bytes) where
  -- Enough fuel is as good as more.
  pub reduce_level_fuel :
      (f g : ℕ) (level : List Bytes)
      → length level ≤ f + 1
      → length level ≤ g + 1
      → reduce_level sha256 f level ≡ reduce_level sha256 g level
  unfolding reduce_level
  reduce_level_fuel f g [] hf hg = refl
  reduce_level_fuel f g (a ∷ []) hf hg = refl
  reduce_level_fuel zero g (a ∷ b ∷ level) hf hg = absurd (omega arith)
  reduce_level_fuel (suc f) zero (a ∷ b ∷ level) hf hg = absurd (omega arith)
  reduce_level_fuel (suc f) (suc g) (a ∷ b ∷ level) hf hg =
      let half = length-next_level sha256 (a ∷ b ∷ level) in
      reduce_level_fuel f g (next_level sha256 (a ∷ b ∷ level)) (omega arith) (omega arith)

  same_length-next_level :
      (xs ys : List Bytes)
      → length xs ≡ length ys
      → length (next_level sha256 xs) ≡ length (next_level sha256 ys)
  unfolding next_level
  same_length-next_level [] [] le = refl
  same_length-next_level [] (y ∷ ys) le = absurd (omega (arith, le))
  same_length-next_level (x ∷ xs) [] le = absurd (omega (arith, le))
  same_length-next_level (x ∷ []) (y ∷ []) le = refl
  same_length-next_level (x ∷ []) (y ∷ z ∷ ys) le = absurd (omega (arith, le))
  same_length-next_level (x ∷ w ∷ xs) (y ∷ []) le = absurd (omega (arith, le))
  same_length-next_level (x ∷ w ∷ xs) (y ∷ z ∷ ys) le =
      omega (arith, same_length-next_level xs ys (omega (arith, le)))

  next_level_wide :
      (n : ℕ)
      → ((x : Bytes) → length (sha256 x) ≡ n)
      → (xs : List Bytes) → All (λ x. length x ≡ n) (next_level sha256 xs)
  unfolding next_level
  next_level_wide n h [] = tt
  next_level_wide n h (x ∷ []) = (h (x ++ x), tt)
  next_level_wide n h (x ∷ y ∷ xs) = (h (x ++ y), next_level_wide n h xs)

  pub reduce_level-binding :
      (n : ℕ) (h : (x : Bytes) → length (sha256 x) ≡ n) (fuel : ℕ) (xs ys : List Bytes)
      → All (λ x. length x ≡ n) xs
      → All (λ y. length y ≡ n) ys
      → length xs ≡ length ys
      → length xs ≤ fuel + 1
      → reduce_level sha256 fuel xs ≡ reduce_level sha256 fuel ys
      → (xs ≡ ys) ⊎ Collision sha256
  unfolding reduce_level
  reduce_level-binding n h fuel [] [] hx hy le lt e = inl refl
  reduce_level-binding n h fuel [] (y ∷ ys) hx hy le lt e = absurd (omega (arith, le))
  reduce_level-binding n h fuel (x ∷ xs) [] hx hy le lt e = absurd (omega (arith, le))
  reduce_level-binding n h fuel (x ∷ []) (y ∷ []) hx hy le lt e = inl (ap (λ z. z ∷ []) (of_some e))
  reduce_level-binding n h fuel (x ∷ []) (y ∷ z ∷ ys) hx hy le lt e = absurd (omega (arith, le))
  reduce_level-binding n h fuel (x ∷ w ∷ xs) (y ∷ []) hx hy le lt e = absurd (omega (arith, le))
  reduce_level-binding n h zero (x ∷ w ∷ xs) (y ∷ z ∷ ys) hx hy le lt e = absurd (omega arith)
  reduce_level-binding n h (suc fuel) (x ∷ w ∷ xs) (y ∷ z ∷ ys) hx hy le lt e =
      let half = length-next_level sha256 (x ∷ w ∷ xs) in
      elim (reduce_level-binding n h fuel (next_level sha256 (x ∷ w ∷ xs))
        (next_level sha256 (y ∷ z ∷ ys)) (next_level_wide n h (x ∷ w ∷ xs))
        (next_level_wide n h (y ∷ z ∷ ys)) (same_length-next_level (x ∷ w ∷ xs) (y ∷ z ∷ ys) le)
        (omega arith) e) [
          | inr c ↦ inr c
          | inl same ↦ next_level-binding sha256 n (x ∷ w ∷ xs) (y ∷ z ∷ ys) hx hy le same
        ]

  -- The last of an odd number of nodes, once or twice.
  next_level_repeated :
      (n : ℕ) (xs : List Bytes) (x : Bytes)
      → length xs ≡ 2 * n
      → next_level sha256 (xs ++ x ∷ []) ≡ next_level sha256 (xs ++ x ∷ x ∷ [])
  unfolding next_level
  next_level_repeated n [] x le = refl
  next_level_repeated n (a ∷ []) x le = absurd (omega (arith, le))
  next_level_repeated zero (a ∷ b ∷ xs) x le = absurd (omega (arith, le))
  next_level_repeated (suc n) (a ∷ b ∷ xs) x le =
      ap (λ rest. sha256 (a ++ b) ∷ rest) (next_level_repeated n xs x (omega (arith, le)))

  pub reduce_level_repeated :
      (f g n : ℕ) (xs : List Bytes) (x : Bytes)
      → length xs ≡ 2 * suc n
      → length xs ≤ f
      → length xs + 1 ≤ g
      → reduce_level sha256 f (xs ++ x ∷ []) ≡ reduce_level sha256 g (xs ++ x ∷ x ∷ [])
  unfolding reduce_level next_level
  reduce_level_repeated f g n [] x le hf hg = absurd (omega arith)
  reduce_level_repeated f g n (a ∷ []) x le hf hg = absurd (omega arith)
  reduce_level_repeated zero g n (a ∷ b ∷ xs) x le hf hg = absurd (omega arith)
  reduce_level_repeated (suc f) zero n (a ∷ b ∷ xs) x le hf hg = absurd (omega arith)
  reduce_level_repeated (suc f) (suc g) n (a ∷ b ∷ xs) x le hf hg =
      let same = next_level_repeated (suc n) (a ∷ b ∷ xs) x le in
      let counted = length-append (a ∷ b ∷ xs) (x ∷ []) in
      let half = length-next_level sha256 (a ∷ b ∷ xs ++ x ∷ []) in
      reduce_level_fuel f g (next_level sha256 (a ∷ b ∷ xs ++ x ∷ [])) (omega arith) (omega arith)
      ∙ ap (reduce_level sha256 g) same
