-- ===== src/Delivery.antt =====
-- How a producer's outbox and the store meet: the endpoint of a meeting that answers `ingest`,
-- desktop/forum-shell/src/meeting.rs. Which operation an event has (`ingest_json`,
-- desktop/crates/forum-core/src/actor.rs) is a parameter: the checks of the event and the work.
pub mod Again
use forum_agent.Shared.{ℕ, Bool, true, false, ◌&&◌, ◌==◌, Option, some, Result, ok, err, ◌>>◌}
use forum_agent.Text.{Text}
use forum_agent.Contracts.Session.{SessionSpec}
use forum_agent.Core.{Stored, StoreError}
use forum_agent.Core.Tables.{Body, Payload, Store}
use forum_agent.Core.Ingest.{Receipt, ingest}
use forum_agent.Runtime.Outbox.{DurableReceipt, RpcError, Call}

-- The receipt of the store as the producer reads it.
abbrev pub durable : Receipt → DurableReceipt
durable r = record { message_id = r.message_id; store_seq = r.store_seq; duplicate = r.duplicate }

abbrev pub rpc_scope_mismatch : RpcError
rpc_scope_mismatch = record { code = "SCOPE_MISMATCH"; retryable = false }

module _ (digest : Body → Text) (checks : Body → Stored (Unit {0}))
    (work : Body → ℕ → Store → Stored Store) (core_error : StoreError → RpcError)
    (scope : SessionSpec) where
  abbrev pub accepted : Body → Store → Stored (Receipt × Store)
  accepted e st = checks e >> ingest digest e (work e) st

  abbrev pub answer :
      Store → Stored (Receipt × Store) → Result RpcError (Option DurableReceipt) × Store
  answer st (err x) = (err (core_error x), st)
  answer st (ok r) = (ok (some (durable r.0)), r.1)

  -- The answer to `ingest`.
  unfoldable pub serve_ingest : Call Payload Store
  unfolding ingest
  serve_ingest e st =
      elim (e.session_id == scope.session_id
        && e.event_id == scope.event_id
        && e.room_id == scope.room_id) [
          | false ↦ (err rpc_scope_mismatch, st)
          | true ↦ answer st (accepted e st)
        ]
