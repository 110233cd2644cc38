-- ===== src/Witness/Backends.antt =====
-- The four places that a root is published to, and `witness_root`, of
-- lineagelens-backend/app/services/witness_service.py. The network, git, the clock and the
-- encodings of the standard library are arguments.
use Prim.Native.String
use lineagelens.Prelude.{
  ℕ, String, not, ◌||◌, Option, none, some, List, [], ◌∷◌, str_eq, ◌==◌, if◌then◌else◌,
}
use lineagelens.Attestation.{text_or}
use lineagelens.Pairing.{take_text}
use lineagelens.Witness.Merkle.{Bytes, Digesting}
use lineagelens.Witness.Der.{build_timestamp_request}

pub record Settings : Type 0 where
  pub tsa_url : Option String
  pub witness_git_repo_path : Option String
  pub rekor_url : Option String
  pub witness_object_store_url : Option String

pub data Status : Type 0 where
  witnessed not_configured failed : Status

pub record WitnessReceipt : Type 0 where
  pub backend : String
  pub status : Status
  pub external_ref : Option String
  pub timestamp : String
  pub details : Option String

pub record HttpRequest : Type 0 where
  pub url : String
  pub body : Bytes
  pub method : String
  pub content_type : String

-- What `urlopen` and the reads of its answer do: raise, with the text of the exception, or answer.
pub data Response : Type 0 where
  raised : String → Response
  answered : ℕ → Bytes → Response

-- What `subprocess.run` does: it ends, it raises what `_publish_sync` catches, with the details that
-- it makes of it, or it raises something else.
pub data GitRun : Type 0 where
  done : GitRun
  caught : String → GitRun
  uncaught : String → GitRun

pub record World : Type 0 where
  pub urlopen : HttpRequest → Response
  pub git : List String → String → GitRun
  -- `_now_iso()`, as the named backend reads it, and the seconds in the name of the tag.
  pub now_iso : String → String
  pub seconds : String
  -- `_now_iso()`, as it is read for the body that the object store gets.
  pub sent_at : String
  pub strip : String → String
  pub rstrip_slash : String → String
  -- `json.dumps(…).encode()`
  pub dumps : List (String × String) → Bytes
  pub b64encode : Bytes → String
  pub decode : Bytes → String
  pub str_status : ℕ → String
  -- The text of the `ValueError` of `bytes.fromhex`.
  pub not_hex : String → String
  pub digesting : Digesting

-- What `publish` does: it returns a receipt or raises.
pub data Published : Type 0 where
  receipt : WitnessReceipt → Published
  raised : String → Published

module _ (w : World) where
  unfoldable pub failure : String → String → WitnessReceipt
  failure name why = record {
    backend = name;
    status = failed;
    external_ref = none;
    timestamp = w.now_iso name;
    details = some why;
  }

  unfoldable pub success : String → String → WitnessReceipt
  success name reference = record {
    backend = name;
    status = witnessed;
    external_ref = some reference;
    timestamp = w.now_iso name;
    details = none;
  }

  unfoldable pub unconfigured : String → WitnessReceipt
  unconfigured name = record {
    backend = name;
    status = not_configured;
    external_ref = none;
    timestamp = w.now_iso name;
    details = none;
  }

  -- `(getattr(settings, …, None) or "").strip()`
  unfoldable pub setting : Option String → String
  setting value = w.strip (text_or value "")

  -- The `try` block up to the end of `resp.read()`; `bytes.fromhex` may raise too.
  unfoldable pub ask_tsa : String → String → Response
  ask_tsa root_hash tsa_url = elim (build_timestamp_request w.digesting root_hash) [
    | none ↦ Response.raised (w.not_hex root_hash)
    | some body ↦ w.urlopen record {
      url = tsa_url;
      body = body;
      method = "POST";
      content_type = "application/timestamp-query";
    }
  ]

  unfoldable pub tsa_receipt : Response → WitnessReceipt
  unfolding failure success
  tsa_receipt (Response.raised why) = failure "rfc3161_tsa" why
  tsa_receipt (answered code []) = failure "rfc3161_tsa" "empty TSA response"
  tsa_receipt (answered code (b ∷ token)) = success "rfc3161_tsa" (w.b64encode (b ∷ token))

  unfoldable pub publish_tsa : String → String → WitnessReceipt
  unfolding ask_tsa tsa_receipt
  publish_tsa root_hash tsa_url = tsa_receipt (ask_tsa root_hash tsa_url)

  unfoldable pub tag_name : String → String
  tag_name root_hash =
      String.◌++◌ "lineagelens-witness-"
        (String.◌++◌ (take_text 16 root_hash) (String.◌++◌ "-" w.seconds))

  unfoldable pub git_receipt : String → GitRun → Published
  unfolding failure success
  git_receipt tag done = receipt (success "git_tag" tag)
  git_receipt tag (caught why) = receipt (failure "git_tag" why)
  git_receipt tag (uncaught why) = Published.raised why

  unfoldable pub ask_git : String → String → GitRun
  ask_git root_hash repo_path =
      let message = String.◌++◌ "lineagelens-witness-root:" root_hash in
      w.git ("tag" ∷ "-a" ∷ tag_name root_hash ∷ "-m" ∷ message ∷ []) repo_path

  unfoldable pub publish_git : String → String → Published
  unfolding git_receipt tag_name ask_git
  publish_git root_hash repo_path = git_receipt (tag_name root_hash) (ask_git root_hash repo_path)

  unfoldable pub ask_rekor : String → String → Response
  ask_rekor root_hash rekor_url = w.urlopen record {
    url = String.◌++◌ (w.rstrip_slash rekor_url) "/api/v1/log/entries";
    body = w.dumps (("rootHash", root_hash) ∷ ("algorithm", "sha256") ∷ []);
    method = "POST";
    content_type = "application/json";
  }

  unfoldable pub rekor_receipt : Response → WitnessReceipt
  unfolding failure success
  rekor_receipt (Response.raised why) = failure "sigstore_rekor" why
  rekor_receipt (answered code body) =
      if not (code == 200 || code == 201)
      then failure "sigstore_rekor" (String.◌++◌ "HTTP " (w.str_status code))
      else success "sigstore_rekor" (take_text 256 (w.decode body))

  unfoldable pub publish_rekor : String → String → WitnessReceipt
  unfolding ask_rekor rekor_receipt
  publish_rekor root_hash rekor_url = rekor_receipt (ask_rekor root_hash rekor_url)

  unfoldable pub ask_object_store : String → String → Response
  ask_object_store root_hash url =
      let timestamp = w.sent_at in
      w.urlopen record {
        url = url;
        body =
            w.dumps
              (("rootHash", root_hash) ∷ ("algorithm", "sha256") ∷ ("timestamp", timestamp) ∷ []);
        method = "PUT";
        content_type = "application/json";
      }

  unfoldable pub object_store_receipt : String → Response → WitnessReceipt
  unfolding failure success
  object_store_receipt url (Response.raised why) = failure "customer_object_store" why
  object_store_receipt url (answered code body) =
      if not (code == 200 || code == 201 || code == 204)
      then failure "customer_object_store" (String.◌++◌ "HTTP " (w.str_status code))
      else success "customer_object_store" url

  unfoldable pub publish_object_store : String → String → WitnessReceipt
  unfolding ask_object_store object_store_receipt
  publish_object_store root_hash url = object_store_receipt url (ask_object_store root_hash url)

  -- `publish` of a backend with the value of its setting: nothing is sent for a blank one.
  unfoldable pub publish_if : String → Option String → (String → Published) → Published
  unfolding setting unconfigured
  publish_if name value publish =
      if str_eq (setting value) "" then receipt (unconfigured name) else publish (setting value)

  unfoldable pub collected : String → Published → WitnessReceipt
  unfolding failure
  collected name (receipt r) = r
  collected name (Published.raised why) = failure name why

  unfoldable pub witness_root : String → Settings → List WitnessReceipt
  unfolding publish_if collected publish_tsa publish_git publish_rekor publish_object_store
  witness_root root_hash settings =
      collected "rfc3161_tsa"
        (publish_if "rfc3161_tsa" settings.tsa_url (λ url. receipt (publish_tsa root_hash url)))
      ∷ collected "git_tag"
          (publish_if "git_tag" settings.witness_git_repo_path (publish_git root_hash))
      ∷ collected "sigstore_rekor" (
          publish_if "sigstore_rekor" settings.rekor_url
            (λ url. receipt (publish_rekor root_hash url)))
      ∷ collected "customer_object_store" (
          publish_if "customer_object_store" settings.witness_object_store_url
            (λ url. receipt (publish_object_store root_hash url)))
      ∷ []
