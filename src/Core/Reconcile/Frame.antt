-- ===== src/Core/Reconcile/Frame.antt =====
-- A recovery is an ingestion of the host's own event whose work is the insertion of its row.
use forum_agent.Shared.{
  ℕ, ◌≡◌, ◌≢◌, ◌⊎◌, refl, true, ◌&&◌, ◌||◌, not, Option, none, some, List, [], ◌∷◌, map, ok, ensure,
  any, find, keep, ◌==◌, >>=-inversion, >>-inversion, arith, ap, ◌∙◌, sym, Bool-cases, inl, inr,
  subst,
}
use forum_agent.Text.{Text, text_eq}
use forum_agent.Contracts.{Uuid, non_nil, non_blank}
use forum_agent.Contracts.Session.{SessionSpec}
use forum_agent.Core.{
  Stored, validated, invalid_state, dependency_not_ready, seal_mismatch, scope_mismatch,
  event_id_conflict,
}
use forum_agent.Core.Tables.{
  reconciled, Body, IngestedRow, OutboxRow, ReconciliationRow, Store, insert_new, is_yes, greatest,
  ProducerReconciled, ProducerRecoveryEvidence, ProducerRecoveryEvidence-discrete,
}
use forum_agent.Core.Ingest.{
  Receipt, require_session, as_body, same_key, register_event, append_outbox, settle_delivery,
  ingest,
}
use forum_agent.Core.Ingest.Log.{
  Keeps, Work, IsLog, sent, received, register_event_found, insert_new_shape,
}
use forum_agent.Core.Session.{load_session_status}
use forum_agent.Core.Seal.{capture_hash}
use forum_agent.Core.Reconcile.{
  earlier, recovery_event, insert_reconciliation, settle_run, reconcile_abandoned_producer,
}

pub insert_reconciliation_shape :
    (session abandoned : Uuid) (p : ProducerReconciled) (seq : ℕ) (a b : Store)
    → insert_reconciliation session abandoned p seq a ≡ ok b
    → (row : ReconciliationRow) × (record a {
      producer_reconciliations = row ∷ a.producer_reconciliations;
    }
        ≡ b)
unfolding insert_reconciliation
insert_reconciliation_shape session abandoned p seq a b h =
    let (rows, put, h1) =
      >>=-inversion
        (insert_new (λ r. r.producer_run_id == abandoned)
          (record {
            producer_run_id = abandoned;
            session_id = session;
            final_seq = p.final_seq;
            payload = p;
            created_seq = seq;
          })
          a.producer_reconciliations)
        (λ rows. ok (record a { producer_reconciliations = rows })) h in
    let made = insert_new_shape _ _ a.producer_reconciliations rows put in
    let same : record a { producer_reconciliations = rows } ≡ b = cc h1 in
    (_, ap (λ q. record a { producer_reconciliations = q }) (sym made) ∙ same)

pub insert_reconciliation-Work :
    (session abandoned : Uuid) (p : ProducerReconciled)
    → Work (insert_reconciliation session abandoned p)
insert_reconciliation-Work session abandoned p seq a b h =
    let (row, same) = insert_reconciliation_shape session abandoned p seq a b h in
    subst (Keeps a) same (record {
      log = refl;
      queue = refl;
      counter = refl;
      specs = refl;
      closed = λ r k. ground arith;
    })

pub insert_reconciliation_sessions :
    (session abandoned : Uuid) (p : ProducerReconciled) (seq : ℕ) (a b : Store)
    → insert_reconciliation session abandoned p seq a ≡ ok b
    → b.sessions ≡ a.sessions
insert_reconciliation_sessions session abandoned p seq a b h =
    let (rows, same) = insert_reconciliation_shape session abandoned p seq a b h in
    ap (λ s. s.sessions) (sym same)

-- The outbox refuses a second row for the number of an ingested event.
outbox_taken :
    (n : ℕ) (e : Body) (rows : List IngestedRow) (queue : List OutboxRow) (r : IngestedRow)
    → map sent queue ≡ map received rows
    → keep (same_key e) rows ≡ r ∷ []
    → any (λ o. o.store_seq == r.store_seq || o.message_id == n) queue ≡ true
outbox_taken n e [] queue r h k = absurd (cc k)
outbox_taken n e (x ∷ rows) [] r h k = absurd (cc h)
outbox_taken n e (x ∷ rows) (o ∷ queue) r h k =
    let first : sent o ≡ received x = cc h in
    let seq : o.store_seq ≡ x.store_seq = ap (λ t. t.store_seq) first in
    let later : map sent queue ≡ map received rows = cc h in
    elim (Bool-cases (same_key e x)) [
      | inl hit ↦
          let same : x ≡ r = ground arith in
          let equal : o.store_seq ≡ r.store_seq = seq ∙ ap (λ t. t.store_seq) same in ground arith
      | inr miss ↦ let rest = outbox_taken n e rows queue r later (ground arith) in ground arith
    ]

append_outbox-taken :
    (e : Body) (receipt : Receipt) (a b : Store)
    → any (λ o. o.store_seq == receipt.store_seq || o.message_id == e.message_id) a.outbox ≡ true
    → append_outbox e receipt a ≢ ok b
unfolding append_outbox
append_outbox-taken e receipt a b h g = ground arith

-- What a recovery did: nothing, or the ingestion of its event.
abbrev pub Recovered : (Body → Text) → Uuid → Receipt → Store → Store → Type 0
Recovered digest abandoned receipt a b =
    (a ≡ b)
    ⊎ ((e : Body) × (session : Uuid) × (p : ProducerReconciled) × (ingest digest e
            (insert_reconciliation session abandoned p) a
          ≡ ok (receipt, b)))

module _ (digest : Body → Text) where
  ingest_again :
      (e : Body) (work : ℕ → Store → Stored Store) (receipt r : Receipt) (a b c d : Store)
      → IsLog a
      → Work work
      → register_event digest e a ≡ ok (r, b)
      → work r.store_seq b ≡ ok c
      → append_outbox e r c ≡ ok d
      → r ≡ receipt
      → ingest digest e work a ≡ ok (receipt, d)
  unfolding ingest settle_delivery
  ingest_again e work receipt r a b c d l w h worked appended same = elim (Bool-cases r.duplicate) [
    | inl dup ↦
        let (row, there, match, seq, stays) = register_event_found digest e a b r h dup in
        let k = w r.store_seq b c worked in
        let queue : c.outbox ≡ a.outbox = k.queue ∙ ap (λ s. s.outbox) (sym stays) in
        let hit : any (λ o. o.store_seq == row.store_seq || o.message_id == e.message_id) a.outbox
            ≡ true =
          outbox_taken e.message_id e a.ingested a.outbox row l.published there in
        absurd (
          append_outbox-taken e r c d
            (subst
              (λ n. any (λ o. o.store_seq == n || o.message_id == e.message_id) c.outbox ≡ true)
              (sym seq)
              (ap (any (λ o. o.store_seq == row.store_seq || o.message_id == e.message_id)) queue
                ∙ hit))
            appended)
    | inr new ↦ ground arith
  ]

  module _ (message run : Uuid) where
    settle_run_cases :
        (spec : SessionSpec) (abandoned : Uuid) (evidence : ProducerRecoveryEvidence) (a b : Store)
        (receipt : Receipt) (before : Option (ReconciliationRow × IngestedRow))
        → IsLog a
        → settle_run digest message run spec abandoned evidence a before ≡ ok (receipt, b)
        → Recovered digest abandoned receipt a b
    unfolding settle_run
    settle_run_cases spec abandoned evidence a b receipt (some (p, e)) l h =
        let (own, h1) =
          >>-inversion (ensure (p.session_id == spec.session_id) scope_mismatch) _ h in
        let (agrees, h2) =
          >>-inversion
            (ensure (is_yes (ProducerRecoveryEvidence-discrete p.payload.evidence evidence))
              event_id_conflict)
            _ h1 in
        inl (cc h2)
    settle_run_cases spec abandoned evidence a b receipt none l h =
        let (own, h1) =
          >>-inversion
            (ensure
              (not (
                any (λ r. r.producer_run_id == abandoned && not (r.session_id == spec.session_id))
                  a.ingested))
              scope_mismatch)
            _ h in
        let (unsealed, h2) =
          >>-inversion
            (ensure (not (any (λ s. s.producer_run_id == abandoned) a.producer_seals))
              invalid_state)
            _ h1 in
        let final =
          greatest (λ r. r.producer_seq) (keep (λ r. r.producer_run_id == abandoned) a.ingested) in
        let event = recovery_event digest message run spec abandoned evidence final in
        let e : Body = as_body reconciled event in
        let (r, registered, h3) = >>=-inversion (register_event digest e a) _ h2 in
        let (st2, worked, h4) =
          >>=-inversion
            (insert_reconciliation spec.session_id abandoned event.payload r.0.store_seq r.1) _
            h3 in
        let (st3, appended, h5) =
          >>=-inversion {B = Receipt × Store} (append_outbox e r.0 st2) (λ st3. ok (r.0, st3)) h4 in
        let same : r.0 ≡ receipt = cc h5 in
        let stays : st3 ≡ b = cc h5 in
        inr (
          e,
          spec.session_id,
          event.payload,
          ingest_again e (insert_reconciliation spec.session_id abandoned event.payload) receipt r.0
                a r.1 st2 st3 l (insert_reconciliation-Work spec.session_id abandoned event.payload)
                registered worked appended same
              ∙ ap (λ x. ok (receipt, x)) stays,
        )

    pub reconcile_cases :
        (session abandoned : Uuid) (evidence : ProducerRecoveryEvidence) (a b : Store)
        (receipt : Receipt)
        → IsLog a
        → reconcile_abandoned_producer digest message run session abandoned evidence a
          ≡ ok (receipt, b)
        → Recovered digest abandoned receipt a b
    unfolding reconcile_abandoned_producer
    reconcile_cases session abandoned evidence a b receipt l h =
        let (h0, h1) = >>-inversion (validated (non_nil abandoned "producer_run_id")) _ h in
        let (g1, h2) = >>-inversion (validated (non_blank evidence.reason "reason")) _ h1 in
        let (g2, h3) =
          >>-inversion
            (ensure (evidence.owned_process_exited && evidence.outbox_replayed)
              dependency_not_ready)
            _ h2 in
        let (spec, g3, h4) = >>=-inversion (require_session session a) _ h3 in
        let (status, g4, h5) = >>=-inversion (load_session_status session a) _ h4 in
        let (g5, h6) = >>-inversion (ensure status.capture_stopped invalid_state) _ h5 in
        let (hash, g6, h7) =
          >>=-inversion (capture_hash (find (λ c. c.session_id == session) a.capture_seals)) _ h6 in
        let (g7, h8) =
          >>-inversion (ensure (text_eq hash evidence.capture_manifest_sha256) seal_mismatch) _
            h7 in
        settle_run_cases spec abandoned evidence a b receipt (earlier abandoned a) l h8
