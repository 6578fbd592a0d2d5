-- ===== src/Symbolic.antt =====
-- The symbolic layer (lib/symbolic) and the key identifiers it compares (lib/memory/keyId.js):
-- which fragments may be recalled, which rules a fragment breaks, which links are let through, and
-- how an evaluation is kept from failing its caller.
pub mod KeyId
pub mod Cbr
pub mod Policy
pub mod Gate
pub mod Orchestrator
