-- ===== src/Pairing/Codes.antt =====
-- The texts of pairing codes, as lists of code points: `generate_pairing_code` and `normalize_code`
-- of lineagelens-backend/app/services/pairing_service.py. The symbols that `secrets` draws are an
-- argument.
use lineagelens.Prelude.{
  ℕ, zero, suc, Bool, true, not, ◌&&◌, ◌||◌, Option, none, some, List, [], ◌∷◌, ◌++◌, leb, ◌==◌,
  if◌then◌else◌, length, take, filter, map,
}

-- `str.strip` and `str.upper`.
pub record Casing : Type 0 where
  pub strip : List ℕ → List ℕ
  pub upper : List ℕ → List ℕ

-- A symbol of `_ALPHABET`.
abbrev pub is_symbol : ℕ → Bool
is_symbol c =
    (leb b'0' c && leb c b'9')
    || (leb b'A' c && leb c b'Z' && not (c == b'I' || c == b'L' || c == b'O' || c == b'U'))

abbrev pub map_confusable : ℕ → ℕ
map_confusable c =
    if c == b'I' || c == b'L'
    then b'1'
    else if c == b'O'
    then b'0'
    else if c == b'U'
    then b'V'
    else c

abbrev pub is_kept : ℕ → Bool
is_kept c = not (c == b'-' || c == b' ')

abbrev pub drop : ℕ → List ℕ → List ℕ
drop zero t = t
drop (suc n) [] = []
drop (suc n) (c ∷ t) = drop n t

-- The prefix `LL`; the source's second test, for `LL-`, comes after the separators are gone.
unfoldable pub strip_prefix : List ℕ → List ℕ
strip_prefix [] = []
strip_prefix (c ∷ []) = c ∷ []
strip_prefix (c ∷ d ∷ t) = if c == b'L' && d == b'L' then t else c ∷ d ∷ t

-- The code with these ten symbols.
unfoldable pub generate_pairing_code : List ℕ → List ℕ
generate_pairing_code body = b'L' ∷ b'L' ∷ b'-' ∷ (take 5 body ++ b'-' ∷ drop 5 body)

unfoldable pub all_symbols : List ℕ → Bool
all_symbols [] = true
all_symbols (c ∷ t) = is_symbol c && all_symbols t

-- `none` is the `PairingError`.
unfoldable pub normalize_code : Casing → List ℕ → Option (List ℕ)
unfolding strip_prefix all_symbols generate_pairing_code
normalize_code k raw =
    let cleaned = map map_confusable (strip_prefix (filter is_kept (k.upper (k.strip raw)))) in
    if not (length cleaned == 10) || not (all_symbols cleaned)
    then none
    else some (generate_pairing_code cleaned)
