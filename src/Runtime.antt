-- ===== src/Runtime.antt =====
-- The runtime crate, desktop/crates/forum-runtime.
pub mod ResourceBudget
pub mod Outbox
