-- ===== src/Lib.antt =====
-- A model of the core of the Sentinel Engine (functions/, JavaScript on Node), with its properties.
--
-- The program answers questions with a language model, checks the answer, and asks a human where
-- the check fails. Its decisions rest on the parts below, each modelled from its source:
--
-- - functions/authority-graph: units of delegated authority (unit.js), the three tiers that permit
--   or deny an action of a unit (arbitration.js), and the reduction of a unit to its minimum
--   (reduction.js). AuthorityGraph.Unit is the class AuthorityUnit with its constructor and
--   validations, AuthorityGraph.Loader the class UnitLoader with its cache,
--   AuthorityGraph.Arbitration the class ArbitrationInterface, AuthorityGraph.Reduction the class
--   MonotonicReductionProtocol, whose registry is undefined in the program: unit.js does not
--   export the name that reduction.js imports.
-- - functions/evidence-locker.js: the stored decisions, and the walk over a signed chain.
--   EvidenceLocker has one function for each method, on a record of the tables.
-- - functions/authority-matrix.js: who is responsible for a request. AuthorityMatrix has the
--   statements of the methods as functions on a list of rows.
-- - functions/escalation-engine.js: the requests that wait for a human. Escalation has
--   createEscalation, Escalation.Resolve resolveEscalation in the two parts between which other
--   calls can run, Escalation.Expire the enforcement of the time limit and listPending,
--   Escalation.Life the calls as steps. It uses the three parts above through their functions.
-- - functions/swr-cache.js: the cache that stands before the language model and its circuit
--   breaker. SwrCache has the breaker, the classification of a question, and swrFetch.
-- - functions/adapters/context-packer.js: the rows of external adapters under a limit, and their
--   merge with the internal context. ContextPacker has both functions.
-- - functions/rollback-engine.js: checkpoints and rollbacks, on the evidence locker, in Rollback.
-- - functions/webauthn-provider.js: the hardware keys of the authorities and the challenges for
--   them. Webauthn has the methods as calls that run to their end, and answer_checked is the half
--   of verifyAuthentication that follows the reading of the challenge. Escalation.Resolve takes the
--   verdict of verifyAuthentication as an optional parameter; the program builds its engines without
--   a provider, which is the case `none`.
-- - functions/verification-loop.js: the second model that checks an answer. VerificationLoop has
--   launchVerificationSidecar and VerificationResults the table of verdicts with its poll; it calls
--   AuthorityGraph.Arbitration and Escalation as the code does.
-- - functions/schemas.js: what an answer must look like. Schemas.Shapes has the zod schemas as
--   values, Schemas.Values the values of JSON, and Schemas validateInferenceResponse.
-- - functions/recursive-retry.js: refused modules of an answer are asked for again. RecursiveRetry
--   has recursiveSchemaRetry and generateSubModule, and Replies the cleaning of a reply, which
--   verification-loop.js writes out alike.
-- - functions/integrity-controller.js and functions/dll.js: the last audit of an answer, in
--   IntegrityController, and the rules that stand before the model, in Dll. There exact decimals
--   stand for the doubles of parseFloat.
-- - functions/security-manager.js: SecurityManager.Sealing has the encryption of fields,
--   SecurityManager.Providers the key providers with their rotation, SecurityManager.Creation the
--   choice of one at boot, and SecurityManager.Pii tokenizePII, with the matching of its patterns on
--   characters in SecurityManager.Patterns. functions/security-utils.js: the connection strings under
--   the master key, in MasterKey.
-- - functions/dilithium-rotation.js and functions/kms-bridge.js: the rotation of a tenant's signing
--   key as one transaction (KeyRotation) and the audit of stored keys (KmsBridge), which reads the
--   table that the rotation writes.
-- - functions/index.js: Inference has the part of handleSentinelInference that generates an answer,
--   gates its confidence and has it audited, and Inference.Responses what follows, with the launch
--   of the verification. They call the retry, the audit and the sidecar as the code does.
-- - functions/pep-gate.js: who is admitted, in PepGate. functions/adapters/adapter-registry.js: the
--   plugins and the lock, in AdapterRegistry.
--
-- Conventions. A call that throws or rejects returns `err` of a fault (Base.Outcome); a method that
-- changes state takes the state and returns it with its result. `null` and `undefined` are both
-- `none`, and the empty string is falsy (Base.Texts). A table of the database is a list of rows,
-- and a statement a function on it; a fault of the server is a field of the state. Random ids,
-- times and the order of database calls are arguments. Console output is left out.
--
-- What is a parameter: the key service (sign and verify), the WebAuthn provider, the recursive
-- query of the loader, the check of a payload's signature, the hash of a cache key, the replies of
-- Redis, the language models and JSON.parse on their replies, zod, Firebase, Secret Manager, and
-- the ciphers, hashes and signatures of node:crypto. What a property assumes of them it states:
-- IntegrityController.Laws says what zod documents of objects, SecurityManager.Sealing.Laws that a
-- cipher opens what it sealed, and KmsBridge.Ghosts how Secret Manager names its versions.
--
-- Every loop of these files runs over a list or over the characters of a text, so the models are
-- structural recursions and no fuel is needed. The attempts of the retry are counted down from
-- MAX_RETRIES_PER_MODULE, 2, and those of the handler from 2, as the code does.
--
-- Not modelled: webhooks and the pushing of events to open connections, table creation, statistics
-- for the dashboard, the prompts and the Gemini schemas, the retrieval of the context and the other
-- HTTP handlers of functions/index.js, functions/sovereign-proxy.js, and the files of the
-- repository that the components of the manifest name as such.
pub mod Base
pub mod AdapterRegistry
pub mod AuthorityGraph
pub mod EvidenceLocker
pub mod AuthorityMatrix
pub mod Dll
pub mod Escalation
pub mod IntegrityController
pub mod KeyRotation
pub mod KmsBridge
pub mod MasterKey
pub mod RecursiveRetry
pub mod Inference
pub mod Replies
pub mod PepGate
pub mod Rollback
pub mod SecurityManager
pub mod VerificationLoop
pub mod VerificationResults
pub mod Webauthn
pub mod Schemas
pub mod SwrCache
pub mod ContextPacker
pub mod Examples
