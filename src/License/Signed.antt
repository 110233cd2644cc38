-- ===== src/License/Signed.antt =====
-- What stands behind an entitlement that is not the free one.
use lineagelens.Prelude.{
  ℕ, ◌≤◌, String, ◌≡◌, ◌≢◌, ◌⊎◌, inl, inr, refl, sym, ap, ◌∙◌, Bool, true, false, some, arith,
  eq_iff, str_eq, ltb, Bool-cases, Option-cases, of_some, ◌||◌, ◌==◌,
}
use lineagelens.Actions.Arguments.{
  Json, null, boolean, number, string, array, object, Members, get_member,
}
use lineagelens.License.{
  Text, Licensing, issuer, plan_rank, Reason, Entitlement, free, is_empty, same_text,
  placeholder_public_key, not_configured, malformed_key, invalid_signature, malformed_expiry,
  expired_on, no_reason, lapsed_on, unknown_plan, unknown_issuer, count_dots, split_dot, is_truthy,
  date_of, b64url_decode,
}
use lineagelens.License.Verify.{
  granted, dated, planned, entitled, signed_statement, public_key, verify_license,
}

module _ (l : Licensing) (today : ℕ) where
  -- The statement has no expiry date, or one that is not over, or it is perpetual.
  abbrev pub IsCurrent : Members → Type 0
  IsCurrent ms =
      (is_truthy l (get_member "exp" null ms) ≡ false)
      ⊎ ((day : ℕ) × (date_of l (get_member "exp" null ms) ≡ some day) × (today ≤ day))
      ⊎ (is_truthy l (get_member "perpetual" (boolean false) ms) ≡ true)

  -- The vendor signed a statement that names the issuer and the known plan, and that is current.
  pub record Vouched (pub_hex : Text) (e : Entitlement) : Type 0 where
    pub payload : Text
    pub signature : Text
    pub statement : Members
    pub signed : l.verify pub_hex signature payload ≡ true
    pub read : l.loads payload ≡ some (object statement)
    pub issued : get_member "iss" null statement ≡ string issuer
    pub names_plan : get_member "plan" null statement ≡ string e.plan
    pub known : (rank : ℕ) × (plan_rank e.plan ≡ some rank)
    pub current : IsCurrent statement

  -- The entitlement is none of the free ones.
  abbrev pub IsGranted : Entitlement → Type 0
  IsGranted e = (why : Reason) → free why ≢ e

  free-granted :
      {A : Type 0} (why : Reason) (e : Entitlement) → some (free why) ≡ some e → IsGranted e → A
  free-granted why e h lic = absurd (lic why (of_some h))

  granted-plan :
      (plan : String) (expires : Json) (why : Reason) (perpetual lapsed : Bool) (ms : Members)
      (e : Entitlement)
      → granted l plan expires why perpetual lapsed ms ≡ some e
      → e.plan ≡ plan
  unfolding granted
  granted-plan plan expires why perpetual lapsed ms e h = ground arith

  dated-IsCurrent :
      (plan : String) (ms : Members) (e : Entitlement)
      → dated l today plan ms ≡ some e
      → IsGranted e
      → (e.plan ≡ plan) × IsCurrent ms
  unfolding dated
  dated-IsCurrent plan ms e h lic = elim (Bool-cases (is_truthy l (get_member "exp" null ms))) [
    | inr absent ↦ (
      granted-plan plan (get_member "exp" null ms) no_reason
          (is_truthy l (get_member "perpetual" (boolean false) ms)) false ms e (rw absent at h),
      inl absent,
    )
    | inl present ↦ elim (Option-cases (date_of l (get_member "exp" null ms))) [
      | inl bad ↦ free-granted malformed_expiry e (rw (present, bad) at h) lic
      | inr (day, read) ↦ elim (Bool-cases (ltb day today)) [
        | inr early ↦ (
          granted-plan plan (get_member "exp" null ms) no_reason
              (is_truthy l (get_member "perpetual" (boolean false) ms)) false ms e
              (rw (present, read, early) at h),
          inr (inl (day, read, ground arith)),
        )
        | inl late ↦ elim (Bool-cases (is_truthy l (get_member "perpetual" (boolean false) ms))) [
          | inl forever ↦ (
            granted-plan plan (get_member "exp" null ms) (lapsed_on (get_member "exp" null ms)) true
                true ms e (rw (present, read, late, forever) at h),
            inr (inr forever),
          )
          | inr ends ↦
              free-granted (expired_on (get_member "exp" null ms)) e
                (rw (present, read, late, ends) at h) lic
        ]
      ]
    ]
  ]

  planned-IsCurrent :
      (v : Json) (ms : Members) (e : Entitlement)
      → planned l today v ms ≡ some e
      → IsGranted e
      → (v ≡ string e.plan) × ((rank : ℕ) × (plan_rank e.plan ≡ some rank)) × IsCurrent ms
  unfolding planned
  planned-IsCurrent (string plan) ms e h lic = elim (Option-cases (plan_rank plan)) [
    | inl unknown ↦ free-granted (unknown_plan (string plan)) e (rw (planned, unknown) at h) lic
    | inr (rank, known) ↦
        let (same, current) = dated-IsCurrent plan ms e (rw (planned, known) at h) lic in
        (ap string (sym same), (rank, ap plan_rank same ∙ known), current)
  ]
  planned-IsCurrent null ms e h lic = free-granted (unknown_plan null) e h lic
  planned-IsCurrent (boolean b) ms e h lic = free-granted (unknown_plan (boolean b)) e h lic
  planned-IsCurrent (number n) ms e h lic = free-granted (unknown_plan (number n)) e h lic
  planned-IsCurrent (array vs) ms e h lic = absurd (ground (arith, h))
  planned-IsCurrent (object ns) ms e h lic = absurd (ground (arith, h))

  -- The two names of the statement are right, its plan is known, and it is current.
  abbrev Grants : Members → Entitlement → Type 0
  Grants ms e =
      (get_member "iss" null ms ≡ string issuer)
      × (get_member "plan" null ms ≡ string e.plan)
      × ((rank : ℕ) × (plan_rank e.plan ≡ some rank))
      × IsCurrent ms

  of_issuer :
      (iss : Json) (ms : Members) (e : Entitlement)
      → get_member "iss" null ms ≡ iss
      → entitled l today (object ms) ≡ some e
      → IsGranted e
      → Grants ms e
  unfolding entitled
  of_issuer (string iss) ms e i h lic = elim (Bool-cases (str_eq iss issuer)) [
    | inr other ↦ free-granted unknown_issuer e (rw (entitled, i, other) at h) lic
    | inl same ↦
        let (plan, rank, current) =
          planned-IsCurrent (get_member "plan" null ms) ms e (rw (entitled, i, same) at h) lic in
        (i ∙ ap string ((eq_iff iss issuer).0 same), plan, rank, current)
  ]
  of_issuer null ms e i h lic = free-granted unknown_issuer e (rw (entitled, i) at h) lic
  of_issuer (boolean b) ms e i h lic = free-granted unknown_issuer e (rw (entitled, i) at h) lic
  of_issuer (number n) ms e i h lic = free-granted unknown_issuer e (rw (entitled, i) at h) lic
  of_issuer (array vs) ms e i h lic = free-granted unknown_issuer e (rw (entitled, i) at h) lic
  of_issuer (object ns) ms e i h lic = free-granted unknown_issuer e (rw (entitled, i) at h) lic

  entitled-Grants :
      (statement : Json) (e : Entitlement)
      → entitled l today statement ≡ some e
      → IsGranted e
      → (ms : Members) × (statement ≡ object ms) × Grants ms e
  entitled-Grants (object ms) e h lic =
      (ms, refl, of_issuer (get_member "iss" null ms) ms e refl h lic)
  entitled-Grants null e h lic = absurd (unfold entitled in ground (arith, h))
  entitled-Grants (boolean b) e h lic = absurd (unfold entitled in ground (arith, h))
  entitled-Grants (number n) e h lic = absurd (unfold entitled in ground (arith, h))
  entitled-Grants (string s) e h lic = absurd (unfold entitled in ground (arith, h))
  entitled-Grants (array vs) e h lic = absurd (unfold entitled in ground (arith, h))

  signed_statement-signed :
      (pub_hex p s : Text) (statement : Json)
      → signed_statement l pub_hex p s ≡ some statement
      → (payload signature : Text) × (l.verify pub_hex signature payload ≡ true)
        × (l.loads payload ≡ some statement)
  unfolding signed_statement
  signed_statement-signed pub_hex p s statement h = elim (Option-cases (b64url_decode l p)) [
    | inl bad ↦ absurd (ground (arith, h, bad))
    | inr (payload, good) ↦ elim (Option-cases (b64url_decode l s)) [
      | inl bad ↦ absurd (ground (arith, h, good, bad))
      | inr (signature, good') ↦ elim (Bool-cases (l.verify pub_hex signature payload)) [
        | inl ok ↦ (payload, signature, ok, ground (arith, h, good, good', ok))
        | inr forged ↦ absurd (ground (arith, h, good, good', forged))
      ]
    ]
  ]

  -- An entitlement that is not free is vouched for by the key that is in force.
  pub verify_license-Vouched :
      (key public_key_hex env : Text) (e : Entitlement)
      → verify_license l key public_key_hex env today ≡ some e
      → IsGranted e
      → Vouched (public_key l public_key_hex env) e
  unfolding verify_license
  verify_license-Vouched key public_key_hex env e h lic =
      let pub_hex = public_key l public_key_hex env in
      let raw = l.strip key in
      elim (Bool-cases (is_empty pub_hex || same_text pub_hex placeholder_public_key)) [
        | inl unset ↦ free-granted not_configured e (rw unset at h) lic
        | inr set_ ↦ elim (Bool-cases (count_dots raw == 1)) [
          | inr malformed ↦ free-granted malformed_key e (rw (set_, malformed) at h) lic
          | inl dotted ↦
              elim (Option-cases (signed_statement l pub_hex (split_dot raw).0 (split_dot raw).1)) [
                | inl bad ↦ free-granted invalid_signature e (rw (set_, dotted, bad) at h) lic
                | inr (statement, read) ↦
                    let (payload, signature, ok, loaded) =
                      signed_statement-signed pub_hex (split_dot raw).0 (split_dot raw).1 statement
                        read in
                    let (ms, is_dict, (issued, names_plan, known, current)) =
                      entitled-Grants statement e (rw (set_, dotted, read) at h) lic in
                    record {
                      payload = payload;
                      signature = signature;
                      statement = ms;
                      signed = ok;
                      read = loaded ∙ ap some is_dict;
                      issued = issued;
                      names_plan = names_plan;
                      known = known;
                      current = current;
                    }
              ]
        ]
      ]
