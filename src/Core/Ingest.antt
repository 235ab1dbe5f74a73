-- ===== src/Core/Ingest.antt =====
-- How an event enters the store, desktop/crates/forum-core/src/lib.rs: `register_event` and
-- `append_outbox`, and the frame that every ingestion operation has around its own work. The digest
-- of a body (the crates serde_json and sha2) is the parameter `digest`.
pub mod Log
pub mod Invariant
pub mod Accepted
pub mod Replay
use forum_agent.Shared.{
  ℕ, ◌+◌, Bool, true, false, ◌&&◌, ◌||◌, not, Option, none, some, List, [], ◌∷◌, ok, err, ensure,
  if◌then◌else◌, any, find, keep, ◌==◌, ◌>>=◌, ◌>>◌,
}
use forum_agent.Text.{Text, text_eq, is_empty}
use forum_agent.Contracts.{Uuid}
use forum_agent.Contracts.Session.{SessionSpec}
use forum_agent.Contracts.Event.{Event}
use forum_agent.Core.{Stored, scope_mismatch, not_found, event_id_conflict, late_result}
use forum_agent.Core.Tables.{Payload, Body, SessionRow, IngestedRow, Store, insert_new}

pub record Receipt : Type 0 where
  pub message_id : Uuid
  pub store_seq : ℕ
  pub duplicate : Bool

abbrev pub session_row : Uuid → Store → Option SessionRow
session_row id st = find (λ r. r.spec.session_id == id) st.sessions

abbrev spec_of : Option SessionRow → Stored SessionSpec
spec_of none = err (not_found "session")
spec_of (some r) = ok r.spec

unfoldable pub require_session : Uuid → Store → Stored SessionSpec
require_session id st = spec_of (session_row id st)

-- The body that is stored: the event with its payload's type forgotten.
abbrev pub as_body {ℓ} : {T : Type ℓ} → (T → Payload) → Event T → Body
as_body wrap e = record {
  schema_version = e.schema_version;
  message_id = e.message_id;
  event_type = e.event_type;
  event_id = e.event_id;
  room_id = e.room_id;
  session_id = e.session_id;
  producer = e.producer;
  payload = wrap e.payload;
}

-- The `WHERE` of the search for an earlier delivery.
abbrev pub same_key : Body → IngestedRow → Bool
same_key e r =
    r.message_id == e.message_id
    || r.producer_run_id == e.producer.run_id && r.producer_seq == e.producer.seq

abbrev pub is_sealed_run : Uuid → Store → Bool
is_sealed_run run st =
    any (λ r. r.producer_run_id == run) st.producer_seals
    || any (λ r. r.producer_run_id == run) st.producer_reconciliations

unfoldable pub append_outbox : Body → Receipt → Store → Stored Store
append_outbox e receipt st = do
  rows ←
      insert_new (λ r. r.store_seq == receipt.store_seq || r.message_id == e.message_id)
        (record {
          store_seq = receipt.store_seq;
          message_id = e.message_id;
          session_id = e.session_id;
          event_type = e.event_type;
          body = e;
        })
        st.outbox
  ok (record st { outbox = rows })

-- What follows the registration.
unfoldable pub settle_delivery :
    Body → (ℕ → Store → Stored Store) → Receipt → Store → Stored (Receipt × Store)
settle_delivery e work receipt st1 =
    if receipt.duplicate
    then ok (receipt, st1)
    else (do st2 ← work receipt.store_seq st1; st3 ← append_outbox e receipt st2; ok (receipt, st3))

module _ (digest : Body → Text) where
  abbrev pub same_delivery : Body → IngestedRow → Bool
  same_delivery e r =
      r.message_id == e.message_id
      && r.producer_run_id == e.producer.run_id
      && r.producer_seq == e.producer.seq
      && text_eq r.body_sha256 (digest e)

  abbrev pub new_row : Body → ℕ → IngestedRow
  new_row e seq = record {
    store_seq = seq;
    message_id = e.message_id;
    session_id = e.session_id;
    producer_run_id = e.producer.run_id;
    producer_seq = e.producer.seq;
    event_type = e.event_type;
    body_sha256 = digest e;
    body = e;
  }

  -- What follows the search: `earlier` are the rows that it found.
  unfoldable pub decide_delivery : Body → Store → List IngestedRow → Stored (Receipt × Store)
  decide_delivery e st (first ∷ others) =
      if is_empty others && same_delivery e first
      then ok
          (record { message_id = e.message_id; store_seq = first.store_seq; duplicate = true }, st)
      else err event_id_conflict
  decide_delivery e st [] =
      if any (λ r. r.producer_run_id == e.producer.run_id && not (r.session_id == e.session_id))
        st.ingested
      then err scope_mismatch
      else if is_sealed_run e.producer.run_id st
      then err late_result
      else (let seq = st.last_seq + 1 in
          ok (
            record { message_id = e.message_id; store_seq = seq; duplicate = false },
            record st { last_seq = seq; ingested = new_row e seq ∷ st.ingested },
          ))

  unfoldable pub register_event : Body → Store → Stored (Receipt × Store)
  unfolding require_session decide_delivery
  register_event e st = do
    session ← require_session e.session_id st
    ensure (session.event_id == e.event_id && session.room_id == e.room_id) scope_mismatch
    decide_delivery e st (keep (same_key e) st.ingested)

  -- Every ingestion operation: register, return on a duplicate, do its own work at the event's
  -- sequence number, append to the outbox, commit.
  unfoldable pub ingest : Body → (ℕ → Store → Stored Store) → Store → Stored (Receipt × Store)
  unfolding settle_delivery
  ingest e work st = do (receipt, st1) ← register_event e st; settle_delivery e work receipt st1

-- A transaction that fails is rolled back.
abbrev pub committed {ℓ} : {A : Type ℓ} → Stored (A × Store) → Store → Store
committed (ok (a, st')) st = st'
committed (err e) st = st
