-- ===== src/License/Issue.antt =====
-- A key that `issue_license` mints, as `verify_license` reads it.
use mathlib.Core.List.{append-nil}
use lineagelens.Prelude.{
  ℕ, String, ◌≡◌, refl, sym, ap, ◌∙◌, Bool, true, false, not, ◌&&◌, Option, none, some, [], ◌∷◌,
  ◌++◌, arith, leb, ltb, ◌==◌, if◌then◌else◌, length, All, eq_iff, Bool-cases, Option-cases, inl,
  inr,
}
use lineagelens.Actions.Arguments.{Json, null, number, string, object, get_member}
use lineagelens.License.{
  Text, Licensing, plan_rank, no_reason, lapsed_on, expired_on, Entitlement, free, is_empty,
  same_text, placeholder_public_key, count_dots, split_dot, b64url_encode,
}
use lineagelens.License.Minting.{statement_of, is_date_or_none, issue_license}
use lineagelens.License.Verify.{
  dated, planned, entitled, signed_statement, public_key, verify_license,
}
use lineagelens.License.Encoding.{
  is_urlsafe, IsEncoded, count_dots-body, split_dot-body, b64url_encode-body, b64url_decode-encode,
}

abbrev pub is_printable : ℕ → Bool
is_printable c = leb 33 c && leb c 126

All-printable :
    (body rest : Text)
    → All (λ c. is_urlsafe c ≡ true) body
    → All (λ c. is_printable c ≡ true) rest
    → All (λ c. is_printable c ≡ true) (body ++ rest)
All-printable [] rest h r = r
All-printable (c ∷ body) rest h r = (ground (arith, h.0), All-printable body rest h.1 r)

module _ (l : Licensing) where
  -- The expiry date is over.
  unfoldable pub is_over : ℕ → Option String → Bool
  is_over today none = false
  is_over today (some day) = elim (l.fromisoformat day) [ none ↦ false | some d ↦ ltb d today ]

  abbrev pub exp_of : Option String → Json
  exp_of none = null
  exp_of (some day) = string day

  -- What a customer is entitled to by a statement with these values.
  unfoldable pub entitlement_of : ℕ → String → String → String → Option String → Bool → Entitlement
  unfolding free is_over
  entitlement_of today plan seats customer expires perpetual =
      if is_over today expires && not perpetual
      then free (expired_on (exp_of expires))
      else record {
        plan = plan;
        seats = seats;
        customer = customer;
        expires = exp_of expires;
        licensed = true;
        reason = if is_over today expires then lapsed_on (exp_of expires) else no_reason;
        perpetual = perpetual;
        subscription_lapsed = is_over today expires;
      }

  -- What `str`, `int` and `date` document of the values of a statement.
  pub record Documented : Type 0 where
    pub strip_printable : (t : Text) → All (λ c. is_printable c ≡ true) t → l.strip t ≡ t
    pub int_number : (n : String) → l.int_text (number n) ≡ some n
    pub str_string : (s : String) → l.str_of (string s) ≡ s
    pub no_empty_date : l.fromisoformat "" ≡ none

  dated-statement_of :
      (doc : Documented) (today : ℕ) (plan seats customer : String) (expires : Option String)
      (issued : ℕ) (perpetual : Bool)
      → is_date_or_none l expires ≡ true
      → dated l today plan (statement_of l plan seats customer expires issued perpetual)
        ≡ some (entitlement_of today plan seats customer expires perpetual)
  unfolding dated statement_of entitlement_of is_date_or_none get_member
  dated-statement_of doc today plan seats customer none issued perpetual h =
      ground (arith, doc.int_number seats, doc.str_string customer)
  dated-statement_of doc today plan seats customer (some day) issued perpetual h =
      ground
        (arith, doc.int_number seats, doc.str_string customer, doc.no_empty_date, eq_iff day "", h)

  entitled-statement_of :
      (doc : Documented) (today : ℕ) (plan seats customer : String) (expires : Option String)
      (issued : ℕ) (perpetual : Bool) (rank : ℕ)
      → plan_rank plan ≡ some rank
      → is_date_or_none l expires ≡ true
      → entitled l today (object (statement_of l plan seats customer expires issued perpetual))
        ≡ some (entitlement_of today plan seats customer expires perpetual)
  unfolding entitled planned statement_of get_member
  entitled-statement_of doc today plan seats customer expires issued perpetual rank known h =
      ground
        (arith, known, dated-statement_of doc today plan seats customer expires issued perpetual h)

  module _ (doc : Documented) (payload signature : Text) (p : IsEncoded l payload)
      (s : IsEncoded l signature) where
    abbrev key : Text
    key = b64url_encode l payload ++ b'.' ∷ b64url_encode l signature

    key-bodies : key ≡ p.body ++ b'.' ∷ s.body
    key-bodies = rw (b64url_encode-body l payload p, b64url_encode-body l signature s) refl

    strip-key : l.strip key ≡ key
    strip-key = rw key-bodies (
        doc.strip_printable (p.body ++ b'.' ∷ s.body) (
          All-printable p.body (b'.' ∷ s.body) p.alphabet
            (refl, rw (← append-nil s.body) (All-printable s.body [] s.alphabet tt))))

    count_dots-key : count_dots key ≡ 1
    count_dots-key = rw key-bodies (count_dots-body p.body (b'.' ∷ s.body) p.alphabet ∙ last)
      where
        last : count_dots (b'.' ∷ s.body) ≡ 1
        last =
            unfold count_dots in
            ground (arith, ap count_dots (append-nil s.body), count_dots-body s.body [] s.alphabet)

    split_dot-key : split_dot key ≡ (b64url_encode l payload, b64url_encode l signature)
    split_dot-key =
        rw (b64url_encode-body l payload p, b64url_encode-body l signature s)
          (split_dot-body p.body s.body p.alphabet)

    public_key_given :
        (pub_hex env : Text)
        → l.strip pub_hex ≡ pub_hex
        → is_empty pub_hex ≡ false
        → public_key l pub_hex env ≡ pub_hex
    unfolding public_key
    public_key_given pub_hex env stripped given = ground arith

    signed_statement-key :
        (pub_hex : Text) (statement : Json)
        → l.verify pub_hex signature payload ≡ true
        → l.loads payload ≡ some statement
        → signed_statement l pub_hex (b64url_encode l payload) (b64url_encode l signature)
          ≡ some statement
    unfolding signed_statement
    signed_statement-key pub_hex statement verifies reads =
        ground (arith, b64url_decode-encode l payload p, b64url_decode-encode l signature s)

    pub verify_license-key :
        (pub_hex env : Text) (today : ℕ) (statement : Json)
        → l.strip pub_hex ≡ pub_hex
        → is_empty pub_hex ≡ false
        → same_text pub_hex placeholder_public_key ≡ false
        → l.verify pub_hex signature payload ≡ true
        → l.loads payload ≡ some statement
        → verify_license l key pub_hex env today ≡ entitled l today statement
    unfolding verify_license
    verify_license-key pub_hex env today statement stripped given real verifies reads =
        let used = public_key_given pub_hex env stripped given in
        let halves : signed_statement l pub_hex (split_dot key).0 (split_dot key).1
            ≡ some statement =
          rw split_dot-key (signed_statement-key pub_hex statement verifies reads) in
        ground (arith, used, strip-key, count_dots-key, halves)

  issue_license-inv :
      (plan seats customer : String) (sk seed key : Text) (expires : Option String) (issued : ℕ)
      (perpetual : Bool)
      → issue_license l plan sk seats customer expires issued perpetual ≡ some key
      → l.b64decode sk ≡ some seed
      → let payload =
          l.dumps (object (statement_of l plan seats customer expires issued perpetual)) in
        ((rank : ℕ) × (plan_rank plan ≡ some rank))
        × (is_date_or_none l expires ≡ true)
        × (b64url_encode l payload ++ b'.' ∷ b64url_encode l (l.sign seed payload) ≡ key)
  unfolding issue_license
  issue_license-inv plan seats customer sk seed key expires issued perpetual h read =
      elim (Option-cases (plan_rank plan)) [
        | inl unknown ↦ absurd (ground (arith, h, unknown))
        | inr (rank, known) ↦ elim (Bool-cases (is_date_or_none l expires)) [
          | inr bad ↦ absurd (ground (arith, h, known, bad))
          | inl dated ↦ elim (Bool-cases (length seed == 32)) [
            | inr short ↦ absurd (ground (arith, h, known, dated, read, short))
            | inl full ↦ ((rank, known), dated, ground (arith, h, known, dated, read, full))
          ]
        ]
      ]

  -- A minted key, with its padding cut off, reads back: where base64, `json` and the signature of the
  -- key pair work on its two parts, and the public key is given and not the placeholder, it verifies
  -- to its plan, seats, customer and expiry date, or to the free plan if the date is over and the
  -- licence is not perpetual. A perpetual one whose date is over is marked as lapsed.
  pub verify_license-issue_license :
      (doc : Documented) (plan seats customer : String) (sk seed key pub_hex env : Text)
      (expires : Option String) (issued today : ℕ) (perpetual : Bool)
      → issue_license l plan sk seats customer expires issued perpetual ≡ some key
      → l.b64decode sk ≡ some seed
      → let statement = object (statement_of l plan seats customer expires issued perpetual) in
        let payload = l.dumps statement in
        IsEncoded l payload
        → IsEncoded l (l.sign seed payload)
        → l.strip pub_hex ≡ pub_hex
        → is_empty pub_hex ≡ false
        → same_text pub_hex placeholder_public_key ≡ false
        → l.verify pub_hex (l.sign seed payload) payload ≡ true
        → l.loads payload ≡ some statement
        → verify_license l key pub_hex env today
          ≡ some (entitlement_of today plan seats customer expires perpetual)
  verify_license-issue_license doc plan seats customer sk seed key pub_hex env expires issued today
        perpetual h read p s stripped given real verifies reads =
      let statement = object (statement_of l plan seats customer expires issued perpetual) in
      let payload = l.dumps statement in
      let ((rank, known), dated, written) =
        issue_license-inv plan seats customer sk seed key expires issued perpetual h read in
      ap (λ k. verify_license l k pub_hex env today) (sym written)
      ∙ verify_license-key doc payload (l.sign seed payload) p s pub_hex env today statement
          stripped given real verifies reads
      ∙ entitled-statement_of doc today plan seats customer expires issued perpetual rank known
          dated
