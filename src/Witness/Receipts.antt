-- ===== src/Witness/Receipts.antt =====
-- What the receipts of `witness_root` say about the world outside.
use lineagelens.Prelude.{
  String, ◌≡◌, refl, Bool, true, false, not, ◌||◌, Option, none, some, [], ◌∷◌, str_eq, ◌==◌,
  if◌then◌else◌, inl, inr, Bool-cases,
}
use lineagelens.Witness.Backends.{
  Settings, Status, witnessed, not_configured, failed, WitnessReceipt, Response, answered, GitRun,
  done, caught, uncaught, World, Published, receipt, failure, success, unconfigured, setting,
  ask_tsa, tsa_receipt, tag_name, ask_git, git_receipt, ask_rekor, rekor_receipt, ask_object_store,
  object_store_receipt, publish_tsa, publish_git, publish_rekor, publish_object_store, publish_if,
  collected, witness_root,
}

-- The status that an honest receipt has.
abbrev pub honest : Bool → Bool → Status
honest true accepted = not_configured
honest false true = witnessed
honest false false = failed

-- A failed receipt has a detail, a witnessed one has a reference, and neither has the other's.
abbrev pub Explains : WitnessReceipt → Type 0
Explains r = elim r.status [
  | witnessed ↦ ((ref : String) × (r.external_ref ≡ some ref)) × (r.details ≡ none)
  | not_configured ↦ (r.external_ref ≡ none) × (r.details ≡ none)
  | failed ↦ (r.external_ref ≡ none) × ((why : String) × (r.details ≡ some why))
]

-- Outcomes that count as publication. Of the answer of the time-stamp authority only the length is
-- looked at: a refusal, which carries no token, is such an answer too.
abbrev pub has_body : Response → Bool
has_body (answered code (b ∷ token)) = true
has_body _ = false

abbrev pub is_created : Response → Bool
is_created (answered code body) = code == 200 || code == 201
is_created _ = false

abbrev pub is_stored : Response → Bool
is_stored (answered code body) = code == 200 || code == 201 || code == 204
is_stored _ = false

abbrev pub is_done : GitRun → Bool
is_done done = true
is_done _ = false

module _ (w : World) where
  -- What the receipt of a configured backend says.
  abbrev Reports : WitnessReceipt → String → Bool → Type 0
  Reports r name accepted = (r.backend ≡ name) × (r.status ≡ honest false accepted) × Explains r

  failure-Reports : (name why : String) → Reports (failure w name why) name false
  unfolding failure
  failure-Reports name why = (refl, refl, (refl, (why, refl)))

  success-Reports : (name reference : String) → Reports (success w name reference) name true
  unfolding success
  success-Reports name reference = (refl, refl, ((reference, refl), refl))

  tsa_receipt-Reports : (a : Response) → Reports (tsa_receipt w a) "rfc3161_tsa" (has_body a)
  unfolding tsa_receipt
  tsa_receipt-Reports (Response.raised why) = failure-Reports "rfc3161_tsa" why
  tsa_receipt-Reports (answered code []) = failure-Reports "rfc3161_tsa" "empty TSA response"
  tsa_receipt-Reports (answered code (b ∷ token)) =
      success-Reports "rfc3161_tsa" (w.b64encode (b ∷ token))

  git_receipt-Reports :
      (tag : String) (a : GitRun)
      → Reports (collected w "git_tag" (git_receipt w tag a)) "git_tag" (is_done a)
  unfolding collected git_receipt
  git_receipt-Reports tag done = success-Reports "git_tag" tag
  git_receipt-Reports tag (caught why) = failure-Reports "git_tag" why
  git_receipt-Reports tag (uncaught why) = failure-Reports "git_tag" why

  -- The receipt of an answer whose code is good or not.
  choice-Reports :
      (name why reference : String) (good : Bool)
      → Reports (if not good then failure w name why else success w name reference) name good
  choice-Reports name why reference true = success-Reports name reference
  choice-Reports name why reference false = failure-Reports name why

  rekor_receipt-Reports :
      (a : Response) → Reports (rekor_receipt w a) "sigstore_rekor" (is_created a)
  unfolding rekor_receipt
  rekor_receipt-Reports (Response.raised why) = failure-Reports "sigstore_rekor" why
  rekor_receipt-Reports (answered code body) =
      choice-Reports "sigstore_rekor" _ _ (code == 200 || code == 201)

  object_store_receipt-Reports :
      (url : String) (a : Response)
      → Reports (object_store_receipt w url a) "customer_object_store" (is_stored a)
  unfolding object_store_receipt
  object_store_receipt-Reports url (Response.raised why) =
      failure-Reports "customer_object_store" why
  object_store_receipt-Reports url (answered code body) =
      choice-Reports "customer_object_store" _ _ (code == 200 || code == 201 || code == 204)

  -- The receipt of a backend with a setting: honest about whether anything was published.
  abbrev pub IsHonest : WitnessReceipt → String → Option String → (String → Bool) → Type 0
  IsHonest r name value accepts =
      (r.backend ≡ name)
      × (r.status ≡ honest (str_eq (setting w value) "") (accepts (setting w value)))
      × Explains r

  publish_if-IsHonest :
      (name : String) (value : Option String) (publish : String → Published)
      (accepts : String → Bool)
      → ((url : String) → Reports (collected w name (publish url)) name (accepts url))
      → IsHonest (collected w name (publish_if w name value publish)) name value accepts
  unfolding publish_if collected unconfigured
  publish_if-IsHonest name value publish accepts h =
      elim (Bool-cases (str_eq (setting w value) "")) [
        | inl blank ↦ rw blank (refl, refl, (refl, refl))
        | inr present ↦ rw present (h (setting w value))
      ]

  -- One receipt per backend, in a fixed order, whatever the others do: `not_configured` exactly
  -- where the setting is blank, `witnessed` exactly where the authority answers with a body that is
  -- not empty, git sets the tag, the log answers 200 or 201 and the store 200, 201 or 204, and
  -- `failed` otherwise; only a witnessed root has a reference, and only a failure has a detail, which
  -- it always has.
  pub witness_root-IsHonest :
      (root_hash : String) (s : Settings)
      → (tsa : WitnessReceipt) × (git : WitnessReceipt) × (rekor : WitnessReceipt)
        × (store : WitnessReceipt) × (witness_root w root_hash s ≡ tsa ∷ git ∷ rekor ∷ store ∷ [])
        × IsHonest tsa "rfc3161_tsa" s.tsa_url (λ url. has_body (ask_tsa w root_hash url))
        × IsHonest git "git_tag" s.witness_git_repo_path
            (λ path. is_done (ask_git w root_hash path))
        × IsHonest rekor "sigstore_rekor" s.rekor_url
            (λ url. is_created (ask_rekor w root_hash url))
        × IsHonest store "customer_object_store" s.witness_object_store_url
            (λ url. is_stored (ask_object_store w root_hash url))
  unfolding witness_root publish_tsa publish_git publish_rekor publish_object_store collected
  witness_root-IsHonest root_hash s = (
    _,
    _,
    _,
    _,
    refl,
    publish_if-IsHonest "rfc3161_tsa" s.tsa_url (λ url. receipt (publish_tsa w root_hash url))
        (λ url. has_body (ask_tsa w root_hash url))
        (λ url. tsa_receipt-Reports (ask_tsa w root_hash url)),
    publish_if-IsHonest "git_tag" s.witness_git_repo_path (publish_git w root_hash)
        (λ path. is_done (ask_git w root_hash path))
        (λ path. git_receipt-Reports (tag_name w root_hash) (ask_git w root_hash path)),
    publish_if-IsHonest "sigstore_rekor" s.rekor_url
        (λ url. receipt (publish_rekor w root_hash url))
        (λ url. is_created (ask_rekor w root_hash url))
        (λ url. rekor_receipt-Reports (ask_rekor w root_hash url)),
    publish_if-IsHonest "customer_object_store" s.witness_object_store_url
        (λ url. receipt (publish_object_store w root_hash url))
        (λ url. is_stored (ask_object_store w root_hash url))
        (λ url. object_store_receipt-Reports url (ask_object_store w root_hash url)),
  )
