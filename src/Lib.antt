-- ===== src/Lib.antt =====
-- Vibe Shield is a gateway between a firm's applications and a language model. It replaces personal
-- data by tokens such as <PERSON_1> before a request leaves the firm, keeps the cleartext encrypted
-- in a vault, and puts it back into the response as the tenant's policy allows. This library models
-- the core of the gateway (apps/gateway/src) and of its stores (packages/schema/src), and proves
-- what they promise each other.
--
-- The parts, and how they meet. A request passes the guards and the middlewares (Http/Guards:
-- middleware/requires.ts, session-auth.ts, api-key.ts, size-limit.ts, correlation-id.ts). The
-- orchestrator (Proxy/Orchestrator: proxy/orchestrator.ts, `handle`) then asks the resolver for the
-- policy (Policy/Resolver: policy/resolver.ts, over Policy/BuiltIn: policy/built-in.ts and
-- Policy/Config: policy/schema.ts), checks it and the quotas (Quota: rate-limiter.ts,
-- spend-rate-limiter.ts, spend-cap.ts), and takes a session (Proxy/Admission:
-- assertPolicyAllowsRequest, acquireSession). The redactor (Proxy/Redactor: proxy/redactor.ts)
-- walks the request and has its texts given tokens by the vault (Vault/Tokens:
-- vault/token-vault.ts, over Vault/Sessions: vault/session-manager.ts, Vault/Rows: the tables, and
-- Vault/Crypto: crypto/aead.ts and vault/hash.ts). The model is called with retries (Proxy/Retry:
-- proxy/retry.ts). The response is re-identified whole (Proxy/Reidentify: proxy/reidentifier.ts,
-- under Policy/Reid: policy/reid-policy.ts) or as a stream (Proxy/Stream: proxy/streaming.ts); both
-- find tokens as Token has it. Errors become replies in Http/Errors (errors.ts).
--
-- People sign in by a link (Http/SignIn: routes/auth.ts, with the cookie of Http/Cookies:
-- auth/cookie.ts). The credentials and the roles are in Auth (user-session-store.ts,
-- magic-link-store.ts, api-key-store.ts, user-store.ts), the audit log in Vault/Audit
-- (vault/audit-logger.ts), the keys in Vault/TenantKeys (crypto/dek.ts) and Vault/ApplianceSecrets
-- (vault/appliance-secret-store.ts), the jobs that scan and redact files in Jobs
-- (scan-job-store.ts, redact-job-store.ts), with cron expressions (Jobs/Cron: scan/cron.ts), the
-- scans that they schedule (Jobs/ScheduledScans: vault/scheduled-scan-store.ts), the tick that runs
-- them (Jobs/Scheduler: scan/scheduler.ts) and their routes (Http/ScheduledScans:
-- routes/scheduled-scans.ts). Prelude has what the modules share, with Prelude/Stateful for code
-- that keeps its state where it throws, and Examples the theorems at concrete inputs.
--
-- How the code is read. A table is the list of its rows, and a statement of SQL is a function of
-- it: WHERE is `select` or the first row found, UPDATE is `update`; an INSERT fails where the
-- primary key is taken. A transaction that throws leaves the tables as they were, so that an error
-- carries none. A class with a database is a set of functions from the old tables to the result
-- and the new ones; a handler of several statements is an action, whose state is left also where
-- it throws. The two statements of a method such as addFile, which has no transaction, run with no
-- other call between them and none fails. The table of policies, which is read with no ORDER BY,
-- comes in any order. The clock, random numbers, uuids and hashes are arguments. Text is the list
-- of its UTF-16 units, times are milliseconds (seconds in the two limiters, minutes in Jobs/Cron),
-- and bigint costs are natural numbers. A session is deleted as where no audit row refers to it.
--
-- Parameters. The platform's HMAC, AES-GCM and UTF-8 are a record with the laws of their
-- documentation (Vault/Crypto, `Platform`); that an HMAC or SHA-256 has no collision is a
-- hypothesis of the theorems that need it. The commands of Redis are an interface (Quota/Redis).
-- The tenants' keys, the answers of the detection engine and of the model's API, the mailer, the
-- file system, the validation of zod, JSON's text, the encoding of URLs, `Number` of a text and the
-- order of ORDER BY are functions.
--
-- Bounds. The fuel of a numeral's digits is one more than the number; that of the retries is the
-- maximum of attempts, one unit for each attempt that is left; that of a cron field's steps is one
-- more than the way to go, since a step is at least one; that of the search for the next run is the
-- number of minutes to its horizon, since each turn gains one. All other recursion is on the
-- structure of a list, a text or a JSON value.
--
-- Not modelled: the pipelines that run the jobs, the routes of scans, redactions and the
-- administration, the remaining stores and the loading of the appliance's key, each a part by
-- itself; and HTTP framing, logging and metrics, configuration, the browser UI, and the detection
-- engine, a service in another language.
pub mod Prelude
pub mod Token
pub mod Vault
pub mod Policy
pub mod Proxy
pub mod Auth
pub mod Http
pub mod Quota
pub mod Jobs
pub mod Examples
