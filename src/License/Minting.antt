-- ===== src/License/Minting.antt =====
-- The vendor side: the statement of a licence and its key.
use lineagelens.Prelude.{
  ℕ, String, Bool, true, false, not, Option, none, some, ◌∷◌, ◌++◌, ◌==◌, if◌then◌else◌, length,
}
use lineagelens.Actions.Arguments.{
  null, boolean, number, string, object, Members, no_members, member,
}
use lineagelens.License.{Text, Licensing, issuer, plan_rank, b64url_encode}

module _ (l : Licensing) where
  -- The signed statement of `issue_license`.
  unfoldable pub statement_of : String → String → String → Option String → ℕ → Bool → Members
  statement_of plan seats customer expires issued perpetual =
      (member "customer" (string customer) (
        member "exp" (elim expires [ none ↦ null | some day ↦ string day ])
          (member "iat" (string (l.isoformat issued)) (
            member "iss" (string issuer) (
              member "perpetual" (boolean perpetual)
                (member "plan" (string plan) (member "seats" (number seats) no_members)))))))

  -- `expires` is absent or a date.
  unfoldable pub is_date_or_none : Option String → Bool
  is_date_or_none none = true
  is_date_or_none (some day) = elim (l.fromisoformat day) [ none ↦ false | some d ↦ true ]

  -- `issue_license`; `none` is an error that it raises.
  unfoldable pub issue_license :
      String → Text → String → String → Option String → ℕ → Bool → Option Text
  unfolding plan_rank is_date_or_none b64url_encode statement_of
  issue_license plan private_key_b64 seats customer expires issued perpetual =
      elim (plan_rank plan) [
        | none ↦ none
        | some rank ↦
            if not (is_date_or_none expires) then none else elim (l.b64decode private_key_b64) [
              | none ↦ none
              | some seed ↦
                  let payload =
                    l.dumps (object (statement_of plan seats customer expires issued perpetual)) in
                  if not (length seed == 32)
                  then none
                  else some
                      (b64url_encode l payload ++ b'.' ∷ b64url_encode l (l.sign seed payload))
            ]
      ]
