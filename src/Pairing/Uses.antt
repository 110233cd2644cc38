-- ===== src/Pairing/Uses.antt =====
-- How many keys a pairing code yields over any sequence of calls.
use lineagelens.Prelude.{
  ℕ, ◌+◌, ◌≤◌, max, String, ◌≡◌, ◌⊎◌, inl, inr, refl, ap, Bool, false, Option, none, some, List, [],
  ◌∷◌, ◌++◌, arith, eq_refl, str_eq, if◌then◌else◌, Bool-cases, Option-cases,
}
use lineagelens.Pairing.{
  PairingCode, raised, returned, NewCode, Redemption, create_pairing_code, redeem_by_hash,
  redeem_pairing_code, revoke_pairing_code, PairingError, unknown_client, invalid_format, is_in,
  allowed_clients,
}
use lineagelens.Pairing.Rows.{
  find_code, keys, Moved, redeem_by_hash-Moved, revoke_by_id-Moved, same-Moved,
}

-- A call on the table, as the clients and the administrators make them.
pub data Call : Type 0 where
  redeem : Redemption → Call
  revoke : Option String → String → ℕ → Call

module _ (sha256_hex : String → String) where
  unfoldable pub after_call : Call → List PairingCode → List PairingCode
  after_call (redeem q) codes = (redeem_pairing_code sha256_hex q codes).1
  after_call (revoke id workspace_id now) codes = (revoke_pairing_code id workspace_id now codes).1

  abbrev has_hash : String → Option String → Bool
  has_hash hash none = false
  has_hash hash (some code) = str_eq (sha256_hex code) hash

  -- The keys that a call yields for the code with the hash.
  unfoldable pub minted : String → Call → List PairingCode → ℕ
  minted hash (redeem q) codes =
      if has_hash hash q.code then keys (redeem_pairing_code sha256_hex q codes).0 else 0
  minted hash (revoke id workspace_id now) codes = 0

  unfoldable pub total_minted : String → List Call → List PairingCode → ℕ
  total_minted hash [] codes = 0
  total_minted hash (call ∷ calls) codes =
      minted hash call codes + total_minted hash calls (after_call call codes)

  redeem-cases :
      (q : Redemption) (codes : List PairingCode)
      → ((error : PairingError) × (redeem_pairing_code sha256_hex q codes ≡ (raised error, codes)))
        ⊎ ((code : String) × (q.code ≡ some code)
            × (redeem_pairing_code sha256_hex q codes
                ≡ redeem_by_hash sha256_hex (sha256_hex code) q codes))
  unfolding redeem_pairing_code
  redeem-cases q codes = elim (Bool-cases (is_in q.client allowed_clients)) [
    | inr bad ↦ inl (unknown_client, rw bad)
    | inl good ↦ elim (Option-cases q.code) [
      | inl absent ↦ inl (invalid_format, rw (good, absent))
      | inr (code, e) ↦ inr (code, e, rw (good, e))
    ]
  ]

  no_keys :
      (hash : String) (q : Redemption) (row : PairingCode)
      → Moved row row (if has_hash hash q.code then 0 else 0)
  no_keys hash q row = elim (Bool-cases (has_hash hash q.code)) [
    | inl own ↦ rw own (same-Moved sha256_hex row)
    | inr other ↦ rw other (same-Moved sha256_hex row)
  ]

  call-Moved :
      (hash : String) (call : Call) (codes : List PairingCode) (row : PairingCode)
      → find_code hash codes ≡ some row
      → (row' : PairingCode) × (find_code hash (after_call call codes) ≡ some row')
        × Moved row row' (minted hash call codes)
  unfolding after_call minted revoke_pairing_code
  call-Moved hash (revoke none workspace_id now) codes row found =
      (row, found, same-Moved sha256_hex row)
  call-Moved hash (revoke (some id) workspace_id now) codes row found =
      revoke_by_id-Moved sha256_hex hash id workspace_id now codes row found
  call-Moved hash (redeem q) codes row found = elim (redeem-cases q codes) [
    | inl (error, e) ↦ (row, rw (after_call, e) found, rw (minted, e) (no_keys hash q row))
    | inr (code, given, e) ↦
        let (row', f, m) =
          redeem_by_hash-Moved sha256_hex hash (sha256_hex code) q codes row found in
        let own : has_hash hash q.code ≡ str_eq (sha256_hex code) hash = ap (has_hash hash) given in
        (row', rw (after_call, e) f, rw (minted, own, e) m)
  ]

  -- Over any sequence of redemptions and revocations, in any order and at any moments, a code in the
  -- table yields no more keys than its `max_uses` leaves.
  pub total_minted_bounded :
      (hash : String) (calls : List Call) (codes : List PairingCode) (row : PairingCode)
      → find_code hash codes ≡ some row
      → row.use_count + total_minted hash calls codes ≤ max row.max_uses row.use_count
  unfolding total_minted
  total_minted_bounded hash [] codes row found = omega arith
  total_minted_bounded hash (call ∷ calls) codes row found =
      let (row', f, m) = call-Moved hash call codes row found in
      let rest = total_minted_bounded hash calls (after_call call codes) row' f in
      omega (arith, m.max_uses, m.use_count, m.bounded, rest)

  -- A code that is revoked yields no key any more, whatever calls follow.
  pub revoked_for_good :
      (hash : String) (calls : List Call) (codes : List PairingCode) (row : PairingCode) (at : ℕ)
      → find_code hash codes ≡ some row
      → row.revoked_at ≡ some at
      → total_minted hash calls codes ≡ 0
  unfolding total_minted
  revoked_for_good hash [] codes row at found gone = refl
  revoked_for_good hash (call ∷ calls) codes row at found gone =
      let (row', f, m) = call-Moved hash call codes row found in
      let none_now : minted hash call codes ≡ 0 = ground (arith, m.final, gone) in
      elim (Option-cases row'.revoked_at) [
        | inl revived ↦ absurd (ground (arith, m.kept, gone, revived))
        | inr (at', still) ↦
            omega (
              arith,
              none_now,
              revoked_for_good hash calls (after_call call codes) row' at' f still,
            )
      ]

  find_code-append :
      (hash : String) (codes : List PairingCode) (row : PairingCode)
      → find_code hash codes ≡ none
      → row.code_hash ≡ hash
      → find_code hash (codes ++ row ∷ []) ≡ some row
  unfolding find_code
  find_code-append hash [] row absent e = ground (arith, e, eq_refl hash)
  find_code-append hash (x ∷ codes) row absent e = ground (arith, find_code-append hash codes row)

  create_pairing_code-returned :
      (new : NewCode) (id code : String) (now : ℕ) (row : PairingCode)
      (codes codes' : List PairingCode)
      → create_pairing_code sha256_hex new id code now codes ≡ (returned row, codes')
      → (codes' ≡ codes ++ row ∷ [])
        × (row.code_hash ≡ sha256_hex code)
        × (row.max_uses ≡ new.max_uses)
        × (row.use_count ≡ 0)
        × (1 ≤ new.max_uses)
        × (new.max_uses ≤ 25)
  unfolding create_pairing_code
  create_pairing_code-returned new id code now row codes codes' e =
      (ground arith, ground arith, ground arith, ground arith, ground arith, ground arith)

  -- A code that was just created, with a hash that no other code has, yields over any calls that
  -- follow at most as many keys as were asked for, which are 1 to 25.
  pub create_pairing_code_bounded :
      (new : NewCode) (id code : String) (now : ℕ) (row : PairingCode)
      (codes codes' : List PairingCode) (calls : List Call)
      → find_code (sha256_hex code) codes ≡ none
      → create_pairing_code sha256_hex new id code now codes ≡ (returned row, codes')
      → (total_minted (sha256_hex code) calls codes' ≤ new.max_uses)
        × (1 ≤ new.max_uses)
        × (new.max_uses ≤ 25)
  create_pairing_code_bounded new id code now row codes codes' calls fresh e =
      let (table, hash, uses, unused, low, high) =
        create_pairing_code-returned new id code now row codes codes' e in
      let found : find_code (sha256_hex code) codes' ≡ some row =
        rw table (find_code-append (sha256_hex code) codes row fresh hash) in
      let bound = total_minted_bounded (sha256_hex code) calls codes' row found in
      (omega (arith, bound, uses, unused), low, high)
