-- ===== src/Pairing/Rows.antt =====
-- What one call does to one row of the pairing codes.
use lineagelens.Prelude.{
  ℕ, ◌+◌, ◌≤◌, max, String, ◌≡◌, inl, inr, refl, Bool, true, false, not, ◌&&◌, Option, none, some,
  List, [], ◌∷◌, arith, eq_iff, str_eq, if◌then◌else◌, ◌==◌, Bool-cases, of_some,
}
use lineagelens.Pairing.{
  PairingCode, Outcome, raised, returned, Redemption, record_failed_attempt, refusal, redeem_row,
  redeem_by_hash, revoke_row, revoke_by_id,
}

-- The row with a hash.
unfoldable pub find_code : String → List PairingCode → Option PairingCode
find_code hash [] = none
find_code hash (row ∷ codes) = if str_eq row.code_hash hash then some row else find_code hash codes

-- The keys in an outcome.
abbrev pub keys : {A : Type 0} → Outcome A → ℕ
keys (raised e) = 0
keys (returned a) = 1

abbrev pub is_revoked : PairingCode → Bool
is_revoked row = elim row.revoked_at [ none ↦ false | some at ↦ true ]

-- What a call that yields `n` keys does to a row.
pub record Moved (row row' : PairingCode) (n : ℕ) : Type 0 where
  pub code_hash : row'.code_hash ≡ row.code_hash
  pub max_uses : row'.max_uses ≡ row.max_uses
  pub use_count : row'.use_count ≡ row.use_count + n
  pub bounded : row.use_count + n ≤ max row.max_uses row.use_count
  pub final : (is_revoked row && not (n == 0)) ≡ false
  pub kept : (is_revoked row && not (is_revoked row')) ≡ false

module _ (sha256_hex : String → String) where
  redeem_row-Moved :
      (q : Redemption) (row : PairingCode)
      → Moved row (redeem_row sha256_hex q row).1 (keys (redeem_row sha256_hex q row).0)
  unfolding redeem_row refusal record_failed_attempt
  redeem_row-Moved q row = record {
    code_hash = ground arith;
    max_uses = ground arith;
    use_count = ground arith;
    bounded = ground arith;
    final = ground arith;
    kept = ground arith;
  }

  revoke_row-Moved : (now : ℕ) (row : PairingCode) → Moved row (revoke_row now row) 0
  unfolding revoke_row
  revoke_row-Moved now row = record {
    code_hash = ground arith;
    max_uses = ground arith;
    use_count = ground arith;
    bounded = ground arith;
    final = ground arith;
    kept = ground arith;
  }

  pub same-Moved : (row : PairingCode) → Moved row row 0
  same-Moved row = record {
    code_hash = refl;
    max_uses = refl;
    use_count = omega arith;
    bounded = omega arith;
    final = ground arith;
    kept = ground arith;
  }

  -- The keys that a redemption by `asked` yields to the row of `hash`.
  abbrev keys_of : String → String → Redemption → List PairingCode → ℕ
  keys_of hash asked q codes =
      if str_eq asked hash then keys (redeem_by_hash sha256_hex asked q codes).0 else 0

  pub redeem_by_hash-Moved :
      (hash asked : String) (q : Redemption) (codes : List PairingCode) (row : PairingCode)
      → find_code hash codes ≡ some row
      → (row' : PairingCode) × (find_code hash (redeem_by_hash sha256_hex asked q codes).1
          ≡ some row')
        × Moved row row' (keys_of hash asked q codes)
  unfolding find_code redeem_by_hash
  redeem_by_hash-Moved hash asked q [] row found = absurd (ground arith)
  redeem_by_hash-Moved hash asked q (x ∷ codes) row found =
      let moved = redeem_row-Moved q x in
      elim (Bool-cases (str_eq x.code_hash hash)) [
        | inl here ↦
            let is_row : x ≡ row = of_some (rw here at found) in
            elim (Bool-cases (str_eq x.code_hash asked)) [
              | inl hit ↦
                  let one : str_eq asked hash ≡ true = ground (arith, eq_iff x.code_hash asked) in
                  let at : str_eq (redeem_row sha256_hex q x).1.code_hash hash ≡ true =
                    rw (moved.code_hash, here) in
                  ((redeem_row sha256_hex q x).1, rw (hit, at), rw (hit, one, ← is_row) moved)
              | inr miss ↦
                  let two : str_eq asked hash ≡ false =
                    ground (
                      arith,
                      eq_iff x.code_hash hash,
                      eq_iff asked hash,
                      eq_iff x.code_hash asked,
                    ) in
                  (x, rw (miss, here), rw (two, ← is_row) (same-Moved x))
            ]
        | inr apart ↦
            let later : find_code hash codes ≡ some row = rw apart at found in
            elim (Bool-cases (str_eq x.code_hash asked)) [
              | inl hit ↦
                  let two : str_eq asked hash ≡ false = ground (arith, eq_iff x.code_hash asked) in
                  let at : str_eq (redeem_row sha256_hex q x).1.code_hash hash ≡ false =
                    rw (moved.code_hash, apart) in
                  (row, rw (hit, at) later, rw two (same-Moved row))
              | inr miss ↦
                  let (row', f, m) = redeem_by_hash-Moved hash asked q codes row later in
                  (row', rw (miss, apart) f, rw miss m)
            ]
      ]

  pub revoke_by_id-Moved :
      (hash id workspace_id : String) (now : ℕ) (codes : List PairingCode) (row : PairingCode)
      → find_code hash codes ≡ some row
      → (row' : PairingCode) × (find_code hash (revoke_by_id id workspace_id now codes).1
          ≡ some row')
        × Moved row row' 0
  unfolding find_code revoke_by_id
  revoke_by_id-Moved hash id workspace_id now [] row found = absurd (ground arith)
  revoke_by_id-Moved hash id workspace_id now (x ∷ codes) row found =
      let moved = revoke_row-Moved now x in
      elim (Bool-cases (str_eq x.id id && str_eq x.workspace_id workspace_id)) [
        | inl hit ↦ elim (Bool-cases (str_eq x.code_hash hash)) [
          | inl here ↦
              let is_row : x ≡ row = of_some (rw here at found) in
              (revoke_row now x, rw (hit, moved.code_hash, here), rw (← is_row) moved)
          | inr apart ↦ (row, rw (hit, moved.code_hash, apart) (rw apart at found), same-Moved row)
        ]
        | inr miss ↦ elim (Bool-cases (str_eq x.code_hash hash)) [
          | inl here ↦
              let is_row : x ≡ row = of_some (rw here at found) in
              (x, rw (miss, here), rw (← is_row) (same-Moved x))
          | inr apart ↦
              let (row', f, m) =
                revoke_by_id-Moved hash id workspace_id now codes row (rw apart at found) in
              (row', rw (miss, apart) f, m)
        ]
      ]
