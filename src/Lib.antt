-- ===== src/Lib.antt =====
-- Model Passport: a model of the platform and of the core library in src/model_passport, with what
-- is proved of them.
--
-- The program issues passports for machine learning models and runs a platform on which tenants
-- register models, audit and remediate their versions, and release them. A request reaches a route
-- (platform/api), which checks the permission of the caller's role (platform/rbac.py), looks up the
-- version in the tenant's rows (platform/services.py) and moves it through its lifecycle
-- (platform/lifecycle.py). Every change appends an event to the tenant's hash-chained log
-- (platform/auditlog.py). Long work is queued as jobs (platform/jobs.py), and an audit is judged by
-- the release gate (platform/gate.py), which runs the policy engine (policy/engine.py). The passport
-- itself carries a Merkle root over its artifacts (core/identity.py) and signed lifecycle events
-- (core/events.py); the verifier checks them (core/verifier.py), and a registry stores passports that
-- pass and serves their lineage (registry). Objects of a tenant are sealed under its own key
-- (platform/storage.py), sign-ins are throttled (platform/security.py), and sensitive values in
-- training text are found as spans (llm/entities.py), the remediation replaces those that an audit
-- finds (llm/sanitize.py, llm/remediate.py), and the guard replaces them in requests to models and
-- in replies (guard/engine.py).
--
-- Files, by the part of src/model_passport they model:
--   Prelude            tests, lists, texts, integers, and the results of code that may raise
--   Core/Schema        core/schema.py
--   Core/Identity      core/identity.py, `merkle_root`
--   Core/Events        core/events.py
--   Core/Document      core/schema.py, the whole passport
--   Core/Verifier      core/verifier.py, with `signing_payload` of core/identity.py
--   Policy/Evidence    policy/engine.py, the extractors and `RULES`
--   Policy/Engine      policy/engine.py, thresholds, evaluation and `load_policy`
--   Platform/Models    platform/models.py, and the database as a record of tables
--   Platform/Rbac      platform/rbac.py
--   Platform/Auditlog  platform/auditlog.py
--   Platform/Lifecycle platform/lifecycle.py
--   Platform/Jobs      platform/jobs.py
--   Platform/Services  platform/services.py
--   Platform/Gate      platform/gate.py
--   Platform/Api       platform/api/deps.py and the version routes of platform/api/routes_tenant.py
--   Platform/Routes    the routes of routes_tenant.py for members, models, versions and reports
--   Platform/Worker    platform/worker.py, the audit step and the recovery
--   Platform/Security  platform/security.py, and the sign-in of platform/api/routes_admin.py
--   Platform/Storage   platform/storage.py, `_safe`, `S3Store` and `TenantStore`
--   Platform/Runs      sequences of transactions over these parts
--   Registry/Db        registry/db.py
--   Registry/Api       registry/api.py, uploads, events and verification
--   Registry/Lineage   registry/api.py, `lineage`
--   Llm/Entities       llm/entities.py, spans and `detect`; its `split_holdout` in Llm/Holdout
--   Llm/Sanitize       llm/sanitize.py
--   Llm/Remediate      llm/remediate.py, with Llm/Versions for its `bump_minor`
--   Llm/Risk           llm/risk.py, `entity_risk` and `severity`
--   Guard              guard/engine.py, policies, placeholders, `protect` and `review`
--
-- Definitions keep the names of the functions they model, without a leading underscore; a few
-- that the library or another part needs have a longer one (`record_event` is `auditlog.record`,
-- `fail_with` is `jobs.fail`, `get_owned` is `services.get`, `check_audit` is `gate.check`,
-- `find_passport` is `RegistryDB.get`, `append_to` is the handler `append_event` of the
-- registry, `get_sealed` is `TenantStore.get`, and the names of routes that services have too
-- end in `_route`). The child modules of a file state what is proved of it, and the modules
-- named Tests run the operations on small data.
--
-- State is a `Session` that an operation takes and gives back; a handler that raises gives back
-- an error and no session, as its transaction is rolled back. Identifiers, times and random
-- seeds are arguments, and foreign keys are taken to hold. SHA-256, JSON encoding, signatures,
-- password hashing, key wrapping, the regular expressions of detectors, the sampler of
-- stand-ins, the training pipeline and the control plane are parameters: records of functions,
-- with a law where a proof needs one.
--
-- Rates are integers in millionths, and the products of Llm/Risk are exact where the code has
-- floats. The rounds of the Merkle tree run on fuel, as many as there are leaves, and that is
-- enough; the remediation runs on the rounds that its settings allow.
--
-- Not modelled: the training, attack and scanner code (numeric code over libraries), the guard's
-- chat format and its settings, the workers' other steps, `LocalStore`, the rendering routes of
-- the registry, reports and the command line, and the Go and TypeScript programs beside it.
pub mod Prelude
pub mod Core
pub mod Platform
pub mod Policy
pub mod Registry
pub mod Llm
pub mod Guard
