-- ===== src/Memory.antt =====
-- Storing fragments (lib/memory): a batch of them in one transaction, and one fragment through its
-- gates.
pub mod Batch
pub mod Remember
pub mod History
pub mod Context
