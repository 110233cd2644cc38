-- ===== src/Pairing/Spelling.antt =====
-- The texts that a code can be typed as.
use lineagelens.Prelude.{
  ℕ, zero, suc, ◌+◌, ◌-◌, ◌≡◌, refl, sym, ap, ◌∙◌, Bool, true, false, ◌&&◌, ◌||◌, List, [], ◌∷◌,
  ◌++◌, arith, leb, ◌==◌, if◌then◌else◌, take, filter, map, All, Bool-cases, inl, inr,
}
use lineagelens.Pairing.Codes.{Casing, drop, is_symbol, map_confusable, is_kept, all_symbols}

abbrev pub is_space : ℕ → Bool
is_space c = (leb 9 c && leb c 13) || (leb 28 c && leb c 32)

unfoldable pub lstrip : List ℕ → List ℕ
lstrip [] = []
lstrip (c ∷ t) = let rest = lstrip t in if is_space c then rest else c ∷ t

abbrev is_nil : List ℕ → Bool
is_nil [] = true
is_nil (c ∷ t) = false

unfoldable pub rstrip : List ℕ → List ℕ
rstrip [] = []
rstrip (c ∷ t) = let rest = rstrip t in if is_space c && is_nil rest then [] else c ∷ rest

abbrev pub upper_letter : ℕ → ℕ
upper_letter c = if leb b'a' c && leb c b'z' then c - 32 else c

abbrev pub is_ascii : ℕ → Bool
is_ascii c = leb c 127

-- What `str` documents, on texts of ASCII characters.
pub record IsAsciiCasing (k : Casing) : Type 0 where
  pub strip_ascii : (t : List ℕ) → All (λ c. is_ascii c ≡ true) t → k.strip t ≡ rstrip (lstrip t)
  pub upper_ascii : (t : List ℕ) → All (λ c. is_ascii c ≡ true) t → k.upper t ≡ map upper_letter t

abbrev pub is_separator : ℕ → Bool
is_separator c = c == b'-' || c == b' '

abbrev pub is_capital : ℕ → Bool
is_capital d = leb b'A' d && leb d b'Z'

-- A digit, or a letter in one of its two cases.
abbrev pub is_form : ℕ → ℕ → Bool
is_form c d =
    (c == d && ((leb b'0' d && leb d b'9') || is_capital d)) || (c == d + 32 && is_capital d)

-- The text is these digits and capital letters, in any case, with dashes and blanks anywhere.
unfoldable pub writes : List ℕ → List ℕ → Bool
writes [] [] = true
writes [] (d ∷ letters) = false
writes (c ∷ raw) [] = is_separator c && writes raw []
writes (c ∷ raw) (d ∷ letters) =
    (is_separator c || is_form c d) && writes raw (if is_separator c then d ∷ letters else letters)

-- The letter that is typed for a symbol: the symbol, or one that looks like it.
abbrev pub is_typed_for : ℕ → ℕ → Bool
is_typed_for y d =
    y == d
    || (d == b'1' && (y == b'I' || y == b'L'))
    || (d == b'0' && y == b'O')
    || (d == b'V' && y == b'U')

unfoldable pub are_typed_for : List ℕ → List ℕ → Bool
are_typed_for [] [] = true
are_typed_for (y ∷ ys) (d ∷ body) = is_typed_for y d && are_typed_for ys body
are_typed_for _ _ = false

-- A blank of the text is one that is not kept.
abbrev pub IsLoose : ℕ → Type 0
IsLoose c = (is_ascii c ≡ true) × (is_space c ≡ true → is_kept (upper_letter c) ≡ false)

IsLoose-separator : (c : ℕ) → is_separator c ≡ true → IsLoose c × (is_kept (upper_letter c) ≡ false)
IsLoose-separator c h = ((ground (arith, h), λ e. ground (arith, h)), ground (arith, h))

IsLoose-form :
    (c d : ℕ) → is_form c d ≡ true → IsLoose c × (upper_letter c ≡ d) × (is_kept d ≡ true)
IsLoose-form c d h =
    ((ground (arith, h), λ e. absurd (ground (arith, h, e))), ground (arith, h), ground (arith, h))

-- The letters of a text are what is kept of it.
pub writes_lem :
    (raw letters : List ℕ)
    → writes raw letters ≡ true
    → All IsLoose raw × (filter is_kept (map upper_letter raw) ≡ letters)
unfolding writes
writes_lem [] [] h = (tt, refl)
writes_lem [] (d ∷ letters) h = absurd (ground (arith, h))
writes_lem (c ∷ raw) [] h =
    let (loose, gone) = IsLoose-separator c (ground (arith, h)) in
    let (all, kept) = writes_lem raw [] (ground (arith, h)) in ((loose, all), rw (gone, kept) refl)
writes_lem (c ∷ raw) (d ∷ letters) h = elim (Bool-cases (is_separator c)) [
  | inl sep ↦
      let (loose, gone) = IsLoose-separator c sep in
      let (all, kept) = writes_lem raw (d ∷ letters) (ground (arith, h, sep)) in
      ((loose, all), rw (gone, kept) refl)
  | inr other ↦
      let (loose, up, stays) = IsLoose-form c d (ground (arith, h, other)) in
      let (all, kept) = writes_lem raw letters (ground (arith, h, other)) in
      ((loose, all), rw (up, stays, kept) refl)
]

module _ (P : ℕ → Type 0) where
  pub All-lstrip : (t : List ℕ) → All P t → All P (lstrip t)
  unfolding lstrip
  All-lstrip [] h = tt
  All-lstrip (c ∷ t) h = elim (Bool-cases (is_space c)) [
    | inl blank ↦ rw blank (All-lstrip t h.1)
    | inr other ↦ rw other h
  ]

  pub All-rstrip : (t : List ℕ) → All P t → All P (rstrip t)
  unfolding rstrip
  All-rstrip [] h = tt
  All-rstrip (c ∷ t) h = elim (Bool-cases (is_space c && is_nil (rstrip t))) [
    | inl blank ↦ rw blank tt
    | inr other ↦ rw other (h.0, All-rstrip t h.1)
  ]

pub kept-lstrip :
    (t : List ℕ)
    → All IsLoose t
    → filter is_kept (map upper_letter (lstrip t)) ≡ filter is_kept (map upper_letter t)
unfolding lstrip
kept-lstrip [] h = refl
kept-lstrip (c ∷ t) (loose, h) = elim (Bool-cases (is_space c)) [
  | inl blank ↦ let gone = loose.1 blank in rw (blank, gone) (kept-lstrip t h)
  | inr other ↦ rw other refl
]

pub kept-rstrip :
    (t : List ℕ)
    → All IsLoose t
    → filter is_kept (map upper_letter (rstrip t)) ≡ filter is_kept (map upper_letter t)
unfolding rstrip
kept-rstrip [] h = refl
kept-rstrip (c ∷ t) (loose, h) =
    let rest = kept-rstrip t h in
    elim (Bool-cases (is_space c && is_nil (rstrip t))) [
      | inl blank ↦
          let gone = loose.1 (ground (arith, blank)) in
          let none_left : rstrip t ≡ [] = nil (rstrip t) (ground (arith, blank)) in
          rw (blank, gone) (sym (ap (λ x. filter is_kept (map upper_letter x)) none_left) ∙ rest)
      | inr other ↦ rw other (elim (Bool-cases (is_kept (upper_letter c))) [
        | inl kept ↦ rw kept (ap (λ x. upper_letter c ∷ x) rest)
        | inr gone ↦ rw gone rest
      ])
    ]
  where
    nil : (x : List ℕ) → is_nil x ≡ true → x ≡ []
    nil [] e = refl
    nil (y ∷ ys) e = absurd (ground (arith, e))

symbol_lem : (d : ℕ) → is_symbol d ≡ true → (is_separator d ≡ false) × (is_form d d ≡ true)
symbol_lem d h = (ground (arith, h), ground (arith, h))

confusable_lem : (y d : ℕ) → is_symbol d ≡ true → is_typed_for y d ≡ true → map_confusable y ≡ d
confusable_lem y d h e = ground (arith, h, e)

pub map_confusable-typed :
    (ys body : List ℕ)
    → all_symbols body ≡ true
    → are_typed_for ys body ≡ true
    → map map_confusable ys ≡ body
unfolding all_symbols are_typed_for
map_confusable-typed [] [] h e = refl
map_confusable-typed [] (d ∷ body) h e = absurd (ground (arith, e))
map_confusable-typed (y ∷ ys) [] h e = absurd (ground (arith, e))
map_confusable-typed (y ∷ ys) (d ∷ body) h e =
    let first = confusable_lem y d (ground (arith, h)) (ground (arith, e)) in
    let rest = map_confusable-typed ys body (ground (arith, h)) (ground (arith, e)) in
    ap (λ x. x ∷ map map_confusable ys) first ∙ ap (λ x. d ∷ x) rest

pub typed_for_self : (body : List ℕ) → are_typed_for body body ≡ true
unfolding are_typed_for
typed_for_self [] = refl
typed_for_self (d ∷ body) = ground (arith, typed_for_self body)

writes_symbols : (body : List ℕ) → all_symbols body ≡ true → writes body body ≡ true
unfolding all_symbols writes
writes_symbols [] h = refl
writes_symbols (d ∷ body) h =
    let (apart, form) = symbol_lem d (ground (arith, h)) in
    rw (apart, form) (writes_symbols body (ground (arith, h)))

-- A dash between the symbols writes nothing.
pub writes_halves :
    (n : ℕ) (body : List ℕ)
    → all_symbols body ≡ true
    → writes (take n body ++ b'-' ∷ drop n body) body ≡ true
unfolding all_symbols writes
writes_halves zero [] h = refl
writes_halves zero (d ∷ body) h = writes_symbols (d ∷ body) h
writes_halves (suc n) [] h = refl
writes_halves (suc n) (d ∷ body) h =
    let (apart, form) = symbol_lem d (ground (arith, h)) in
    rw (apart, form) (writes_halves n body (ground (arith, h)))

pub writes_dash :
    (raw letters : List ℕ) → writes raw letters ≡ true → writes (b'-' ∷ raw) letters ≡ true
unfolding writes
writes_dash raw [] h = h
writes_dash raw (d ∷ letters) h = h
