-- ===== src/License/Verify.antt =====
-- The customer side: from a key to an entitlement.
use lineagelens.Prelude.{
  ℕ, String, Bool, true, false, not, ◌||◌, Option, none, some, ltb, ◌==◌, str_eq, if◌then◌else◌,
}
use lineagelens.Actions.Arguments.{
  Json, null, boolean, number, string, array, object, Members, get_member,
}
use lineagelens.License.{
  Text, same_text, is_empty, Licensing, issuer, plan_rank, Reason, no_reason, not_configured,
  malformed_key, invalid_signature, unknown_issuer, unknown_plan, malformed_expiry, expired_on,
  lapsed_on, Entitlement, free, placeholder_public_key, count_dots, split_dot, is_truthy, date_of,
  b64url_decode,
}

module _ (l : Licensing) where
  -- The entitlement that the statement grants; `int(seats)` may raise.
  unfoldable pub granted : String → Json → Reason → Bool → Bool → Members → Option Entitlement
  granted plan expires reason perpetual lapsed ms =
      elim (l.int_text (get_member "seats" (number "0") ms)) [
        | none ↦ none
        | some seats ↦ some record {
          plan = plan;
          seats = seats;
          customer = l.str_of (get_member "customer" (string "") ms);
          expires = expires;
          licensed = true;
          reason = reason;
          perpetual = perpetual;
          subscription_lapsed = lapsed;
        }
      ]

  -- From the expiry date on, for a known plan.
  unfoldable pub dated : ℕ → String → Members → Option Entitlement
  unfolding is_truthy date_of granted free
  dated today plan ms =
      let perpetual = is_truthy l (get_member "perpetual" (boolean false) ms) in
      let expires = get_member "exp" null ms in
      if not (is_truthy l expires)
      then granted plan expires no_reason perpetual false ms
      else elim (date_of l expires) [
        | none ↦ some (free malformed_expiry)
        | some day ↦
            if not (ltb day today)
            then granted plan expires no_reason perpetual false ms
            else if perpetual
            then granted plan expires (lapsed_on expires) true true ms
            else some (free (expired_on expires))
      ]

  -- `plan not in PLAN_RANK` raises for a plan that cannot be hashed.
  unfoldable pub planned : ℕ → Json → Members → Option Entitlement
  unfolding plan_rank dated free
  planned today (string plan) ms = elim (plan_rank plan) [
    | none ↦ some (free (unknown_plan (string plan)))
    | some rank ↦ dated today plan ms
  ]
  planned today (array vs) ms = none
  planned today (object ns) ms = none
  planned today other ms = some (free (unknown_plan other))

  -- From `statement.get("iss")` on; a statement that is not a dict has no `get`.
  unfoldable pub entitled : ℕ → Json → Option Entitlement
  unfolding planned free
  entitled today (object ms) = elim (get_member "iss" null ms) [
    | string iss ↦
        if str_eq iss issuer
        then planned today (get_member "plan" null ms) ms
        else some (free unknown_issuer)
    | _ ↦ some (free unknown_issuer)
  ]
  entitled today _ = none

  -- The `try` block: the statement, or an exception.
  unfoldable pub signed_statement : Text → Text → Text → Option Json
  unfolding b64url_decode
  signed_statement pub_hex payload_b64 sig_b64 = elim (b64url_decode l payload_b64) [
    | none ↦ none
    | some payload ↦ elim (b64url_decode l sig_b64) [
      | none ↦ none
      | some signature ↦ if l.verify pub_hex signature payload then l.loads payload else none
    ]
  ]

  -- `(public_key_hex or _active_public_key_hex()).strip()`; `env` is the variable
  -- `LINEAGELENS_LICENSE_PUBLIC_KEY`, the empty text where it is not set.
  unfoldable pub public_key : Text → Text → Text
  public_key public_key_hex env = l.strip (
      if is_empty public_key_hex
      then l.strip (if is_empty env then placeholder_public_key else env)
      else public_key_hex)

  -- `verify_license`; `none` is an exception.
  unfoldable pub verify_license : Text → Text → Text → ℕ → Option Entitlement
  unfolding public_key signed_statement entitled free count_dots split_dot
  verify_license key public_key_hex env today =
      let pub_hex = public_key public_key_hex env in
      let raw = l.strip key in
      if is_empty pub_hex || same_text pub_hex placeholder_public_key
      then some (free not_configured)
      else if not (count_dots raw == 1)
      then some (free malformed_key)
      else elim (signed_statement pub_hex (split_dot raw).0 (split_dot raw).1) [
        | none ↦ some (free invalid_signature)
        | some statement ↦ entitled today statement
      ]
