-- ===== src/Core/Reconcile.antt =====
-- `reconcile_abandoned_producer`, desktop/crates/forum-core/src/reliable.rs. The two identifiers that
-- `Uuid::new_v4` makes are the parameters `message` and `run`.
pub mod Frame
use forum_agent.Shared.{
  ℕ, true, ◌&&◌, not, Option, none, some, List, [], ◌∷◌, ok, ensure, if◌then◌else◌, any, find, keep,
  ◌==◌, ◌>>=◌, ◌>>◌,
}
use forum_agent.Text.{Text, codes, text_eq}
use forum_agent.Contracts.{Uuid, non_blank, non_nil}
use forum_agent.Contracts.Event.{Event, producer_reconciled, schema_version}
use forum_agent.Contracts.Session.{SessionSpec}
use forum_agent.Core.{
  Stored, validated, scope_mismatch, invalid_state, dependency_not_ready, seal_mismatch,
  event_id_conflict,
}
use forum_agent.Core.Tables.{
  reconciled, Body, IngestedRow, ReconciliationRow, Store, insert_new, is_yes, greatest,
  ProducerReconciled, ProducerRecoveryEvidence, ProducerRecoveryEvidence-discrete,
}
use forum_agent.Core.Ingest.{Receipt, require_session, as_body, register_event, append_outbox}
use forum_agent.Core.Session.{load_session_status}
use forum_agent.Core.Seal.{capture_hash}

-- The rows of `producer_reconciliations p JOIN ingested_events e ON e.store_seq=p.created_seq`.
abbrev pub joined : ReconciliationRow → List IngestedRow → Option (ReconciliationRow × IngestedRow)
joined p [] = none
joined p (e ∷ rows) =
    let rest = joined p rows in if e.store_seq == p.created_seq then some (p, e) else rest

abbrev pub earlier : Uuid → Store → Option (ReconciliationRow × IngestedRow)
earlier run st = elim (find (λ p. p.producer_run_id == run) st.producer_reconciliations) [
  | none ↦ none
  | some p ↦ joined p st.ingested
]

unfoldable pub insert_reconciliation : Uuid → Uuid → ProducerReconciled → ℕ → Store → Stored Store
insert_reconciliation session abandoned payload seq st = do
  rows ←
      insert_new (λ r. r.producer_run_id == abandoned)
        (record {
          producer_run_id = abandoned;
          session_id = session;
          final_seq = payload.final_seq;
          payload = payload;
          created_seq = seq;
        })
        st.producer_reconciliations
  ok (record st { producer_reconciliations = rows })

module _ (digest : Body → Text) (message run : Uuid) where
  abbrev pub recovery_event :
      SessionSpec → Uuid → ProducerRecoveryEvidence → ℕ → Event ProducerReconciled
  recovery_event spec abandoned evidence final = record {
    schema_version = schema_version;
    message_id = message;
    event_type = producer_reconciled;
    event_id = spec.event_id;
    room_id = spec.room_id;
    session_id = spec.session_id;
    producer = record { name = codes "core-recovery"; run_id = run; seq = 1 };
    payload = record { producer_run_id = abandoned; final_seq = final; evidence = evidence };
  }

  unfoldable pub settle_run :
      SessionSpec
      → Uuid
      → ProducerRecoveryEvidence
      → Store
      → Option (ReconciliationRow × IngestedRow)
      → Stored (Receipt × Store)
  unfolding register_event append_outbox insert_reconciliation
  settle_run spec abandoned evidence st (some (p, e)) = do
    ensure (p.session_id == spec.session_id) scope_mismatch
    ensure (is_yes (ProducerRecoveryEvidence-discrete p.payload.evidence evidence))
        event_id_conflict
    ok (record { message_id = e.message_id; store_seq = p.created_seq; duplicate = true }, st)
  settle_run spec abandoned evidence st none = do
    ensure
        (not (
          any (λ r. r.producer_run_id == abandoned && not (r.session_id == spec.session_id))
            st.ingested))
        scope_mismatch
    ensure (not (any (λ s. s.producer_run_id == abandoned) st.producer_seals)) invalid_state
    let final =
        greatest (λ r. r.producer_seq) (keep (λ r. r.producer_run_id == abandoned) st.ingested)
    let event = recovery_event spec abandoned evidence final
    (receipt, st1) ← register_event digest (as_body reconciled event) st
    st2 ← insert_reconciliation spec.session_id abandoned event.payload receipt.store_seq st1
    st3 ← append_outbox (as_body reconciled event) receipt st2
    ok (receipt, st3)

  unfoldable pub reconcile_abandoned_producer :
      Uuid → Uuid → ProducerRecoveryEvidence → Store → Stored (Receipt × Store)
  unfolding load_session_status settle_run
  reconcile_abandoned_producer session abandoned evidence st = do
    validated (non_nil abandoned "producer_run_id")
    validated (non_blank evidence.reason "reason")
    ensure (evidence.owned_process_exited && evidence.outbox_replayed) dependency_not_ready
    spec ← require_session session st
    status ← load_session_status session st
    ensure status.capture_stopped invalid_state
    hash ← capture_hash (find (λ c. c.session_id == session) st.capture_seals)
    ensure (text_eq hash evidence.capture_manifest_sha256) seal_mismatch
    settle_run spec abandoned evidence st (earlier abandoned st)
