-- ===== src/Core.antt =====
-- The store, desktop/crates/forum-core: its errors, its tables and one module per group of
-- operations. A transaction is a function from the store to a result with the store that it
-- commits; on an error nothing is committed.
pub mod Tables
pub mod Ingest
pub mod Session
pub mod Seal
pub mod Reconcile
pub mod Capture
pub mod Lifecycle
pub mod Operations
pub mod Coverage
pub mod Revision
pub mod Translation
pub mod Direction
pub mod Artifact
pub mod Transcript
pub mod Gap
pub mod Aside
use forum_agent.Shared.{ℕ, Option, Result, map_err, String}
use forum_agent.Contracts.{ValidationError, Checked}

-- The causes that the wrapped errors carry are left out of `database`, `json` and `io`.
pub data StoreError : Type 0 where
  io already_owned queue_full actor_closed actor_panicked ack_unknown : StoreError
  invalid_state late_result coverage_conflict seal_mismatch invalid_cursor : StoreError
  validation : ValidationError → StoreError
  database json event_id_conflict entity_conflict scope_mismatch : StoreError
  not_found : String → StoreError
  dependency_not_ready : StoreError
  revision_conflict : ℕ → Option ℕ → StoreError
  unsupported_database : ℕ → StoreError
  -- Of the model alone: a loop that was cut off by its fuel.
  rounds_spent : StoreError

abbrev pub Stored {ℓ} : Type ℓ → Type ℓ
Stored A = Result StoreError A

-- `?` on a `ValidationError`.
abbrev pub validated {ℓ} : {A : Type ℓ} → Checked A → Stored A
validated = map_err validation
