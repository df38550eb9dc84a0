-- ===== src/Lib.antt =====
-- SLAIF Connect: the tokens, the rate limiter, the relay, the workload protocol, the checks of what
-- is configured and asked for, and the audit log of the server; the policies and job reports of the
-- browser extension.
--
-- A browser extension opens a WebSocket to the relay, names a token, and the relay connects it to the
-- SSH port of the one HPC host that the token stands for. Tokens are issued by the server, are bound
-- to a scope, a session, a host and an origin, expire, can be used a bounded number of times and can
-- be revoked. Workloads talk to the server in JSON messages that are checked field by field.
--
-- Which file models which part:
--   Base               strings as lists of UTF-16 units, tables (`Map`), results (`throw`), and
--                      values of JavaScript as `JSON.parse` gives them
--   Tokens/Types       server/tokens/token_registry.js: errors, scopes, records, checks of arguments
--   Tokens/Check       its `checkRecord`, with an independent description of what it admits
--   Tokens/Registry    its `createTokenRegistry`: each method takes the state and returns it with
--                      the answer; audit events and metrics are notices, oldest first
--   Tokens/Redis       server/tokens/redis_token_store.js: `CONSUME_SCRIPT`, consuming, validating;
--                      in Tokens/Redis/Admin issuing, revoking and cleaning up
--   RateLimit          server/rate_limit/rate_limiter.js
--   Relay/Types        aliases, hosts and sessions of server/relay/relay.js
--   Relay/Resolve      its `resolveRelayToken` and `targetForSession`
--   Relay/Active       its `activeConnections`, `incrementActive` and `decrementActive`
--   Relay/Connection   one handler for each event of one connection; the handler of a message is cut
--                      at its two `await`s into `on_message`, `on_resolved` and `on_connected` or
--                      `on_connect_failed`
--   Relay/Steps        any number of connections, whose events come in any order
--   Workload           server/workloads/workload_protocol.js: in Forbidden the walk for forbidden
--                      fields, in Fields the checks of single fields, in Prompt and Messages the
--                      validators; in Token server/workloads/workload_token.js over the registry
--   Forbidden          the walk for forbidden keys that the validators share
--   Catalog            extension/js/payload_catalog.js, which server/workloads/payload_catalog.js
--                      passes on: the payloads of a policy and those that a host allows
--   Intent             server/workloads/session_intent.js: what a session is started for, whose
--                      payload a policy resolves (Catalog)
--   Slurm              server/workloads/slurm_profile.js: the profiles of jobs, and the arguments of
--                      `sbatch`
--   Policy             the rollback check of extension/js/slaif_policy_signature.js with what
--                      extension/js/session.js stores, and the remote command of
--                      extension/js/slaif_policy.js
--   Descriptor         extension/js/slaif_session_descriptor.js: what the server describes of a
--                      session, against the pending launch and the policy (with the tests of
--                      origins of extension/js/slaif_policy.js)
--   Job                extension/js/job_output_parser.js and the payload of
--                      extension/js/slaif_job_reporter.js
--   Deployment         server/config/deployment_config.js: in Validate the validator, in Shown what
--                      operators are shown
--   Audit              server/logging/audit_log.js: how events are made and what is hidden in them
-- The registry is what the relay consumes tokens from; the Redis store has the same methods,
-- over an interface of the Redis server (Tokens/Redis/Server) that Tokens/Redis/InMemory fills.
--
-- Parameters of the model: SHA-256, random bytes, what the clock reads, `JSON.parse`, `Date.parse`,
-- `toISOString`, `new URL`, `String` on a number, the decoder of the last bytes of an output, the
-- Redis server, and when events come. Instants and sizes are natural numbers; instants stay in the
-- range of `Date` where the code makes a date of them. Loops are recursions on the list that they
-- walk, and need no fuel. `String` on the numbers that `sbatch` is given, and on an index of an
-- array, has enough fuel for 8 and for 16 digits, more than either has.
--
-- Not modelled: HTTP and WebSocket framing, files, timers beyond whether they are armed, failures of
-- the network to Redis, messages of errors for people where an error has a code, values of metadata
-- that are no scalars, expected metadata of the Redis store that is an array or another value that
-- counts as true, properties that an object has from its prototype (but for the keys of an audit
-- event), keys of objects that are array indices and so change their order, and the parts of the
-- server and of the extension that are not named above.
pub mod Base
pub mod Tokens
pub mod RateLimit
pub mod Relay
pub mod Forbidden
pub mod Workload
pub mod Catalog
pub mod Intent
pub mod Slurm
pub mod Policy
pub mod Job
pub mod Deployment
pub mod Audit
pub mod Descriptor
