-- ===== src/Pairing/Typed.antt =====
-- What `normalize_code` makes of a code that is typed by hand.
use lineagelens.Prelude.{
  ℕ, ◌≡◌, refl, ap, ◌∙◌, true, some, List, [], ◌∷◌, ◌++◌, length, take, filter, map, All,
}
use lineagelens.Pairing.Codes.{
  Casing, drop, map_confusable, is_kept, strip_prefix, generate_pairing_code, all_symbols,
  normalize_code,
}
use lineagelens.Pairing.Spelling.{
  IsLoose, writes_lem, map_confusable-typed, typed_for_self, writes_halves, writes_dash, lstrip,
  rstrip, is_ascii, writes, are_typed_for, IsAsciiCasing, All-lstrip, All-rstrip, kept-lstrip,
  kept-rstrip,
}

module _ (k : Casing) (ascii : IsAsciiCasing k) where
  cleaned_lem :
      (raw letters : List ℕ)
      → writes raw letters ≡ true
      → filter is_kept (k.upper (k.strip raw)) ≡ letters
  cleaned_lem raw letters h =
      let (loose, kept) = writes_lem raw letters h in
      let left = All-lstrip IsLoose raw loose in
      let both = All-rstrip IsLoose (lstrip raw) left in
      let stripped =
        ap k.upper (ascii.strip_ascii raw (All_ascii raw loose))
        ∙ ascii.upper_ascii (rstrip (lstrip raw)) (All_ascii (rstrip (lstrip raw)) both) in
      ap (filter is_kept) stripped ∙ kept-rstrip (lstrip raw) left ∙ kept-lstrip raw loose ∙ kept
    where
      All_ascii : (t : List ℕ) → All IsLoose t → All (λ c. is_ascii c ≡ true) t
      All_ascii [] h = tt
      All_ascii (c ∷ t) h = (h.0.0, All_ascii t h.1)

  typed_lem :
      (body raw ys : List ℕ)
      → length body ≡ 10
      → all_symbols body ≡ true
      → writes raw (b'L' ∷ b'L' ∷ ys) ≡ true
      → are_typed_for ys body ≡ true
      → normalize_code k raw ≡ some (generate_pairing_code body)
  unfolding normalize_code
  typed_lem body raw ys full symbols e f =
      let rest : strip_prefix (filter is_kept (k.upper (k.strip raw))) ≡ ys =
        ap strip_prefix (cleaned_lem raw (b'L' ∷ b'L' ∷ ys) e) ∙ unfold strip_prefix in refl in
      let cleaned = ap (map map_confusable) rest ∙ map_confusable-typed ys body symbols f in
      rw (normalize_code, cleaned, full, symbols) refl

  -- Take a code of ten symbols. Any text that is its prefix and its symbols, with letters in any
  -- case, with dashes and blanks anywhere, and with I or L typed for 1, O for 0 and U for V,
  -- normalises to the code as it was generated; that code itself is such a text.
  pub normalize_code-generate_pairing_code :
      (body raw ys : List ℕ)
      → length body ≡ 10
      → all_symbols body ≡ true
      → writes raw (b'L' ∷ b'L' ∷ ys) ≡ true
      → are_typed_for ys body ≡ true
      → (normalize_code k raw ≡ some (generate_pairing_code body))
        × (normalize_code k (generate_pairing_code body) ≡ some (generate_pairing_code body))
  normalize_code-generate_pairing_code body raw ys full symbols e f =
      let halves =
        writes_dash (take 5 body ++ b'-' ∷ drop 5 body) body (writes_halves 5 body symbols) in
      let own : writes (generate_pairing_code body) (b'L' ∷ b'L' ∷ body) ≡ true =
        unfold generate_pairing_code writes in halves in
      (
        typed_lem body raw ys full symbols e f,
        typed_lem body (generate_pairing_code body) body full symbols own (typed_for_self body),
      )
