-- ===== src/Lib.antt =====
-- memento-mcp: a Model Context Protocol server that keeps fragments of memory for its clients. This
-- library models the parts of lib/ that decide: who may call and how often, which provider answers,
-- what may be stored, and what a caller may see. Queries, HTTP calls and processes are parameters: a
-- model is given what they answer, or the message they throw, as an `Outcome`.
--
-- Times are milliseconds on ℕ, given to each call as the `now` that the code reads from `Date.now()`;
-- scores between 0 and 1 are in thousandths, but for the activation that Symbolic/Orchestrator
-- compares with one half, which is a fraction. A JavaScript `Map` is an association list (Base/Maps);
-- `null` and `undefined` are `none`; a test such as `if (key)` on a text is `truthy`, which an empty
-- text fails. Subtraction on ℕ stops at 0; where the code compares a difference with 0, the model
-- compares the two sides. Every loop but that of Memory/History is over a list that is given.
--
-- Rbac: lib/rbac.js, the permission each tool needs.
-- Auth: lib/auth.js, the decision of validateAuthentication, and the checks of API keys of
--   lib/admin/ApiKeyStore.js; it asks OAuth/Handlers for access tokens.
-- Sessions: lib/sessions.js, the Streamable HTTP sessions in memory and in Redis. Sessions/Ends has the
--   sweep, DELETE /mcp of lib/handlers/mcp-handler.js and the shutdown of server.js, Sessions/Legacy the
--   Legacy SSE sessions, Sessions/RotateHandler POST /session/rotate of
--   lib/handlers/session-handler.js. Sessions/Spec is the abstract view of the store: which session
--   serves an identifier at a time. The Redis client is a parameter with the laws it documents.
-- Limits/RateLimiter: lib/rate-limiter.js, the sliding-window limiters by address and by key.
-- Limits/Rotate: lib/handlers/_rotate-ratelimit.js, how often an address may rotate its session.
-- Limits/Quota: lib/memory/QuotaChecker.js, the fragment quota of a key and the cache of its usage.
-- OAuth, OAuth/Authorize, OAuth/Handlers: lib/oauth.js with its stores in memory: handleAuthorize,
--   handleToken for codes and refresh tokens, validateAccessToken and the cleanup. The hash of a code
--   verifier, the lookup of keys and clients and the fresh tokens are inputs.
-- Llm/CircuitBreaker: lib/llm/util/circuit-breaker.js, in memory.
-- Llm/Semaphore: lib/llm/util/semaphore.js; the calls of acquire, release and the timers are steps of
--   a relation, and the states that can be reached are those of any interleaving.
-- Llm/Chain: lib/llm/index.js, the chain of providers of llmJson. A provider asks the breaker, and a
--   call waits for the semaphore; here an entry carries what they and the provider answer.
-- Symbolic/KeyId: lib/memory/keyId.js, the three ways a key identifier is normalized.
-- Symbolic/Cbr: lib/symbolic/CbrEligibility.js, the fragments a case-based recall may return.
-- Symbolic/Policy: lib/symbolic/PolicyRules.js; its three regular expressions are parameters.
-- Symbolic/Gate: lib/symbolic/rules/v1/proactive-gate.js, ClaimConflictDetector.js and
--   LinkIntegrityChecker.js, what is asked before a link is made; Gate/Cycles is about the last.
-- Symbolic/Orchestrator: lib/symbolic/SymbolicOrchestrator.js, rules/index.js and rules/v1/explain.js;
--   which side wins the race with the timeout is an input. Orchestrator/Reasons is about the reasons.
-- Memory/Batch: lib/memory/BatchRememberProcessor.js: checking the fragments (phase_a), the quota
--   before (check_a) and within (check_b) the transaction of the inserts, the chunks (chunks_of), the
--   commit or rollback (finish), and the whole (process). A run lists its statements; Batch/Sound
--   says which rows are submitted in a transaction whose COMMIT was answered.
-- Memory/Remember: lib/memory/processors/MemoryRememberer.js: remember, one function for each early
--   return on the way, and _rememberAtomic. A run lists its effects in order; Remember/Rows says which
--   rows they leave stored.
-- Memory/History: lib/memory/HistoryReconstructor.js: the causal chains (a search on fuel, one round for
--   each identifier taken from the queue; one more round than there are links is enough), and
--   Memory/History/Reconstruct the branches and reconstruct. Causal says
--   which links they follow; Walk, Reach and Found follow one search.
-- Memory/Context: lib/memory/ContextBuilder.js: the fragments that build puts into a context. A
--   fragment carries the length of its content, and the score is a parameter. Fill bounds the counters
--   of the loop, Held and Firsts what the groups hold by them; Bounds is about the whole context.
-- A module's data stand in its child Data. The other children of a module are the proofs about it,
-- with runs at concrete values in its Tests.
--
-- Not modelled: the stores of OAuth and of the breaker in Redis, PostgreSQL and the SQL, the HTTP
-- server and its other handlers, the tools' schemas, the administration, the command line, embeddings,
-- search and ranking in floating point, consolidation, and logs and metrics (but for those a result
-- reports). Base holds what the modules share: tests on numbers, lists, texts and maps.
pub mod Base
pub mod Rbac
pub mod Auth
pub mod Sessions
pub mod Limits
pub mod OAuth
pub mod Llm
pub mod Symbolic
pub mod Memory
