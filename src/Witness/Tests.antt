-- ===== src/Witness/Tests.antt =====
-- The theorems on the witness at concrete inputs. The digest keeps the first 32 bytes, and `.hex()`
-- writes bytes in unary.
use lineagelens.Prelude.{
  ℕ, zero, suc, ◌+◌, String, ◌≡◌, ◌⊎◌, refl, ap, sym, ◌∙◌, none, some, List, [], ◌∷◌, ◌++◌, length,
  str_eq, if◌then◌else◌, arith,
}
use lineagelens.Fixture.{count}
use lineagelens.Witness.Merkle.{Bytes, Digesting, all_bytes, compute_periodic_root}
use lineagelens.Witness.Binding.{Collision}
use lineagelens.Witness.Root.{compute_periodic_root_total, compute_periodic_root-binding}
use lineagelens.Witness.Der.{
  halvings, bit_length, to_bytes, with_high_bit, der_length, der_tlv, der_integer, der_oid,
  der_octet_string, der_sequence, der_boolean, joined, encode_arcs, septets, continued,
  build_timestamp_request,
}
use lineagelens.Witness.Request.{
  read_request, sha256_identifier, read_request-build_timestamp_request,
}
use lineagelens.Witness.Octets.{AreOctets, build_timestamp_request_octets}
use lineagelens.Witness.Backends.{
  Settings, WitnessReceipt, answered, done, World, witness_root, ask_tsa, ask_git, ask_rekor,
  ask_object_store,
}
use lineagelens.Witness.Receipts.{
  IsHonest, has_body, is_done, is_created, is_stored, witness_root-IsHonest,
}

abbrev padded : ℕ → Bytes → Bytes
padded zero xs = []
padded (suc n) [] = 0 ∷ padded n []
padded (suc n) (x ∷ xs) = x ∷ padded n xs

length-padded : (n : ℕ) (xs : Bytes) → length (padded n xs) ≡ n
length-padded zero xs = refl
length-padded (suc n) [] = omega (arith, length-padded n [])
length-padded (suc n) (x ∷ xs) = omega (arith, length-padded n xs)

abbrev ticks : ℕ → String → String
ticks zero s = s
ticks (suc n) s = String.◌∷◌ "i" (ticks n s)

abbrev unary : Bytes → String
unary [] = ""
unary (b ∷ bs) = ticks b (String.◌∷◌ "o" (unary bs))

abbrev read_unary : ℕ → String → Bytes
read_unary n String.[] = []
read_unary n (String.◌∷◌ c s) =
    let more = read_unary (suc n) s in
    let next = read_unary 0 s in if str_eq (String.◌∷◌ c String.[]) "i" then more else n ∷ next

read_unary-ticks :
    (n b : ℕ) (s : String) → read_unary n (ticks b (String.◌∷◌ "o" s)) ≡ (n + b) ∷ read_unary 0 s
read_unary-ticks n zero s = ap (λ k. k ∷ read_unary 0 s) (omega arith)
read_unary-ticks n (suc b) s =
    read_unary-ticks (suc n) b s ∙ ap (λ k. k ∷ read_unary 0 s) (omega arith)

read_unary-unary : (bs : Bytes) → read_unary 0 (unary bs) ≡ bs
read_unary-unary [] = refl
read_unary-unary (b ∷ bs) =
    read_unary-ticks 0 b (unary bs)
    ∙ ap (λ rest. (0 + b) ∷ rest) (read_unary-unary bs)
    ∙ ap (λ k. k ∷ bs) (omega arith)

unary_inj : (x y : Bytes) → unary x ≡ unary y → x ≡ y
unary_inj x y e = sym (read_unary-unary x) ∙ ap (read_unary 0) e ∙ read_unary-unary y

abbrev toy : Digesting
toy = record {
  sha256 = λ x. padded 32 x;
  fromhex = λ h. some (padded 32 (count h ∷ []));
  hex = unary;
}

abbrev head : ℕ → Bytes
head n = padded 32 (n ∷ [])

abbrev heads : List String
heads = "a" ∷ "bb" ∷ "ccc" ∷ []

abbrev head_bytes : List Bytes
head_bytes = head 1 ∷ head 2 ∷ head 3 ∷ []

compute_periodic_root_total_example :
    (root : String) × (compute_periodic_root toy heads ≡ some root)
unfolding all_bytes
compute_periodic_root_total_example = compute_periodic_root_total toy heads head_bytes refl

compute_periodic_root-binding_example : (head_bytes ≡ head_bytes) ⊎ Collision (λ x. padded 32 x)
unfolding all_bytes
compute_periodic_root-binding_example =
    compute_periodic_root-binding toy (length-padded 32) unary_inj heads heads head_bytes head_bytes
      refl refl (refl, (refl, (refl, tt))) (refl, (refl, (refl, tt))) refl refl

read_request-build_timestamp_request_example :
    (request : Bytes) × (build_timestamp_request toy "abc" ≡ some request)
    × (read_request request
        ≡ some record {
          version = 1 ∷ [];
          algorithm = sha256_identifier;
          hashed_message = head 3;
          cert_req = 255 ∷ [];
        })
read_request-build_timestamp_request_example =
    read_request-build_timestamp_request toy "abc" (head 3) refl refl

zeros : (n : ℕ) → AreOctets (padded n [])
zeros zero = tt
zeros (suc n) = (omega arith, zeros n)

abbrev request_abc : Bytes
request_abc =
    48 ∷ 55 ∷ 2 ∷ 1 ∷ 1 ∷ 48 ∷ 47 ∷ 48 ∷ 11 ∷ 6 ∷ 9 ∷ sha256_identifier
    ++ (4 ∷ 32 ∷ head 3)
    ++ 1 ∷ 1 ∷ 255 ∷ []

build_timestamp_request_octets_example : AreOctets request_abc
unfolding build_timestamp_request der_integer der_octet_string der_sequence der_boolean joined
    to_bytes bit_length halvings der_tlv der_length der_oid encode_arcs continued septets
    with_high_bit
build_timestamp_request_octets_example =
    build_timestamp_request_octets toy "abc" (head 3) request_abc refl refl (omega arith, zeros 31)
      refl

abbrev settings : Settings
settings = record {
  tsa_url = some "tsa";
  witness_git_repo_path = some "repo";
  rekor_url = none;
  witness_object_store_url = some "store";
}

abbrev world : World
world = record {
  urlopen = λ r. if str_eq r.url "tsa" then answered 200 (7 ∷ []) else answered 500 [];
  git = λ arguments path. done;
  now_iso = λ name. "2026";
  seconds = "0";
  sent_at = "2026";
  strip = λ s. s;
  rstrip_slash = λ s. s;
  dumps = λ fields. [];
  b64encode = unary;
  decode = unary;
  str_status = λ n. ticks n "";
  not_hex = λ h. "not hex";
  digesting = toy;
}

witness_root-IsHonest_example :
    (tsa : WitnessReceipt) × (git : WitnessReceipt) × (rekor : WitnessReceipt)
    × (store : WitnessReceipt) × (witness_root world "abc" settings
        ≡ tsa ∷ git ∷ rekor ∷ store ∷ [])
    × IsHonest world tsa "rfc3161_tsa" (some "tsa") (λ url. has_body (ask_tsa world "abc" url))
    × IsHonest world git "git_tag" (some "repo") (λ path. is_done (ask_git world "abc" path))
    × IsHonest world rekor "sigstore_rekor" none (λ url. is_created (ask_rekor world "abc" url))
    × IsHonest world store "customer_object_store"
        (some "store")
        (λ url. is_stored (ask_object_store world "abc" url))
witness_root-IsHonest_example = witness_root-IsHonest world "abc" settings
