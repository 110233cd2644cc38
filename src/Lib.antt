-- ===== src/Lib.antt =====
-- LineageLens: provenance tracking for AI-generated code, its integrity and privacy core.
--
-- Every suggestion that a developer accepts is stored as a provenance record. The records of a
-- workspace form a hash chain; a record can be redacted or deleted, which leaves a tombstone and a
-- signed event; a walk over the chain tells tampering from such privacy operations; and a limiter
-- guards the API. The program's parts, and the files that model them:
--
-- RateLimit: lineagelens-backend/app/core/rate_limit.py. `check` takes the clock's reading and the
--   limiter's state and returns the decision with the next state. The lock makes a call one step.
--   Times are whole microseconds. RateLimit/Prune, Window and Tracks relate the state to the times
--   that were admitted, RateLimit/Bounds compares runs with a log that forgets nothing, RateLimit/Retry
--   is about the advice to a refused caller, RateLimit/ClientIp models `effective_client_ip`.
--   RateLimit/Shared models lineagelens-backend/app/core/rate_limit_redis.py over the commands of Redis,
--   Follows, Sets and Calls relate its sets to the admitted times, Replicas compares its runs with
--   those of the limiter in memory.
-- Attestation: lineagelens-backend/app/core/attestation.py, signing and verification of statements.
--   Attestation/Registry has the key registry with its table (`AttestationKey` of
--   lineagelens-backend/app/db/models.py), Attestation/Status the meaning of a valid verdict,
--   Attestation/Revocation what revoking a key does to verdicts.
-- Chain: the digests of lineagelens-backend/app/services/integrity_service.py, the columns of
--   `ProvenanceRecord` that the chain and the lifecycle touch, and `_attach_hash_chain` of
--   lineagelens-backend/app/services/provenance_service.py.
-- Lifecycle: lineagelens-backend/app/services/record_lifecycle_service.py. The tables are lists in the
--   order of their ids, and an operation takes and returns them. Lifecycle/Rows, Events and Erasure are
--   about the row, the event and the tables that an operation leaves.
-- Integrity: `GET /integrity/verify` of lineagelens-backend/app/api/routes/integrity.py. Integrity/Walk
--   is about the answer of the walk, Tombstone and Privacy about walks after a privacy operation, Ingest
--   about walks after a new record, Detection about what the walk reports.
-- Verifier: the offline verifier, lineagelens-verifier/lineagelens_verifier/verify.py, from the parsed
--   archive on. Verifier/Links has its walk over the chain, Verifier/Verdict its final answer and what
--   the answers mean, Verifier/Manifest and Verifier/Trust the meaning of its two other checks.
--   Verifier/Latest, Export, Rows and Agreement model the chain that a capsule exports
--   (lineagelens-backend/app/services/capsule_service.py) and compare the verifier with Integrity.
-- Pairing: lineagelens-backend/app/services/pairing_service.py. The table of codes is a list, calls take
--   and return it, and a call that raises returns the table that it leaves. Pairing/Rows is about
--   one call, Pairing/Uses about sequences of calls, Pairing/Codes has the texts of codes, Spelling
--   and Typed are about a text that is typed by hand.
-- Policy: lineagelens-backend/app/core/policy.py. Policy/Scores and Meaning say when a
--   policy triggers, Policy/Extends is about one policy of an evaluation, Policy/Decision tells the
--   evaluation without its loop.
-- PolicyVersions: `append_version` of lineagelens-backend/app/services/policy_version_service.py.
--   PolicyVersions/History is about the numbers of the versions.
-- Retention: `run_retention_cleanup` of lineagelens-backend/app/services/retention_service.py, as
--   Lifecycle operations on the table. Retention/Rows and Sweep follow one kind of event through the
--   table, Total says when it runs through, Cleanup compares the whole sweep with a rule for single rows, Chains is about the walks of
--   Integrity after it. Retention/Versions has `upsert_retention_policy` with its version, Numbers, Settled and
--   Current what it leaves.
-- Witness: lineagelens-backend/app/services/witness_service.py. Witness/Merkle has
--   `compute_periodic_root`, Witness/Binding, Levels and Root what its root commits to; Witness/Der
--   the encoding of a time-stamp request, Witness/Tlv and Request a reader of it, Octets the range
--   of its bytes; Witness/Backends the four backends and `witness_root`, Receipts what its receipts
--   say.
-- Actions: lineagelens-backend/app/services/agent_action_service.py. Actions/Arguments and Risk prepare
--   an action, Actions/Ledger hashes and stores it, with the route `ingest_agent_actions` of
--   lineagelens-backend/app/api/routes/agent_actions.py, Actions/Links is about the chain of a session.
-- Tunnel: the request of the CONNECT tunnel, lineagelens-proxy/connect_tunnel.py. Tunnel/Addresses is
--   about the addresses it is allowed to reach, Tunnel/Guard about whole requests.
-- Routing: the routing policies that the backend lists (lineagelens-backend/app/api/routes/policies.py)
--   and the cache of the proxy (lineagelens-proxy/routing_cache.py). Routing/Fetched is about one fetch,
--   Routing/Latest about any number of refreshes.
-- License: lineagelens-backend/app/core/license.py, and `require_plan` of
--   lineagelens-backend/app/core/mode_guard.py in License/Plans. License/Minting is
--   the side of the vendor, Verify that of the customer; License/Encoding is about the texts of a
--   key, Issue about a minted key that is read back, Signed and Gate about what a paid plan shows.
-- Recall: lineagelens-backend/app/services/recall_service.py and the routes of
--   lineagelens-backend/app/api/routes/recall.py. Recall/Affected has the search, Recall/Blast the
--   descendants, with what their coverage status says in Blast/Rows, Honest and Coverage; Recall/Scope,
--   Runs and Frozen are about the tables after any sequence of the routes.
-- Prelude and Fixture: what the modules share, and the small instances that the tests run on.
--
-- Integrity and Retention call Lifecycle, Verifier reads what Integrity guards, and Lifecycle calls
-- Attestation and Chain; Routing joins a route of the backend and the proxy. What the code takes from
-- `json`, `hashlib`, `cryptography`, `datetime`, `re` and the
-- environment is a record of operations, `Hashing`, `Signing`, `Verifying`, `Matching`, `Splitting`,
-- `Digesting`, `World`, `Searches`, `Outside`, `Net`, `SortedSets`, `Licensing`, `Casing` and
-- `Services`, that the definitions take as a parameter: the digest, the canonical JSON, the
-- signature and its verification, the private key, ISO texts of moments, and operations on texts.
-- Nothing is assumed about them but where a theorem says so. `ValueError`, unknown keys, a signing key
-- that does not load, a moment before the year 1 and a row that the database refuses are `none`. A verification that raises inside its `try` is one that fails.
--
-- A loop over a list is structural recursion. Three loops of Witness run on fuel: the levels of the
-- root, on as much as there are hashes, each level having about half of them; `bit_length` and the
-- septets of an object identifier, on the number that they divide. Numbers are natural numbers,
-- but for the scores and thresholds of Policy, which are integers: Python's integers are unbounded, and a limit or a window below 1 is read as 1 by the code itself.
--
-- Not modelled: the database session and its transactions (a handler runs as one step, but for the
-- flush of the rows of Actions, which may fail), the prose of messages, access control of the routes, HTTP, relaying and TLS
-- interception in the tunnel, and the parts of the repository that no file here names, among them the
-- web client, the adapters of the proxy, the editor extensions and the external stores.
mod Prelude
pub mod RateLimit
pub mod Attestation
pub mod Chain
pub mod Lifecycle
pub mod Integrity
pub mod Verifier
pub mod Pairing
pub mod Policy
pub mod PolicyVersions
pub mod Witness
pub mod Retention
pub mod Actions
pub mod Tunnel
pub mod Routing
pub mod License
pub mod Recall
mod Fixture
