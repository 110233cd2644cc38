-- ===== src/Witness/Merkle.antt =====
-- The root over the heads of the chains: `compute_periodic_root` of
-- lineagelens-backend/app/services/witness_service.py. Bytes are lists of numbers.
use lineagelens.Prelude.{ℕ, zero, suc, String, Option, none, some, List, [], ◌∷◌, ◌++◌, length}

abbrev pub Bytes : Type 0
Bytes = List ℕ

-- `hashlib.sha256(…).digest()`, `bytes.fromhex`, which may raise, and `.hex()`.
pub record Digesting : Type 0 where
  pub sha256 : Bytes → Bytes
  pub fromhex : String → Option Bytes
  pub hex : Bytes → String

-- `[bytes.fromhex(h) for h in record_hashes]`; `none` is a `ValueError`.
unfoldable pub all_bytes : Digesting → List String → Option (List Bytes)
all_bytes d [] = some []
all_bytes d (h ∷ hs) = elim (d.fromhex h) [
  | none ↦ none
  | some b ↦ elim (all_bytes d hs) [ none ↦ none | some bs ↦ some (b ∷ bs) ]
]

-- The body of the `while`: pairs are hashed, and a last one without a partner is paired with itself.
unfoldable pub next_level : (Bytes → Bytes) → List Bytes → List Bytes
next_level sha256 [] = []
next_level sha256 (left ∷ []) = sha256 (left ++ left) ∷ []
next_level sha256 (left ∷ right ∷ level) = sha256 (left ++ right) ∷ next_level sha256 level

-- `while len(level) > 1`, with fuel; `none` means that the fuel ran out, or that the level is empty.
unfoldable pub reduce_level : (Bytes → Bytes) → ℕ → List Bytes → Option Bytes
unfolding next_level
reduce_level sha256 fuel [] = none
reduce_level sha256 fuel (root ∷ []) = some root
reduce_level sha256 zero (a ∷ b ∷ level) = none
reduce_level sha256 (suc fuel) (a ∷ b ∷ level) =
    reduce_level sha256 fuel (next_level sha256 (a ∷ b ∷ level))

-- `none` where `bytes.fromhex` raises. The fuel is the number of hashes.
unfoldable pub compute_periodic_root : Digesting → List String → Option String
unfolding all_bytes reduce_level
compute_periodic_root d [] = some (d.hex (d.sha256 []))
compute_periodic_root d (h ∷ hs) = elim (all_bytes d (h ∷ hs)) [
  | none ↦ none
  | some level ↦ elim (reduce_level d.sha256 (length level) level) [
    | none ↦ none
    | some root ↦ some (d.hex root)
  ]
]
