-- ===== src/Llm.antt =====
-- The calls to language models: the circuit breaker of a provider
-- (lib/llm/util/circuit-breaker.js), the semaphore that bounds concurrent calls
-- (lib/llm/util/semaphore.js) and the chain of fallbacks (lib/llm/index.js).
pub mod CircuitBreaker
pub mod Semaphore
pub mod Chain
