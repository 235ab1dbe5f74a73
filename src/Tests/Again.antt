-- ===== src/Tests/Again.antt =====
-- A producer and the store, where the file of an event that was taken cannot be removed.
use forum_agent.Shared.{ℕ, ◌≡◌, refl, true, false, some, [], ◌∷◌, Result, ok}
use forum_agent.Core.{Stored, StoreError}
use forum_agent.Core.Tables.{Body, Payload, Store}
use forum_agent.Contracts.Session.{recording, stopping}
use forum_agent.Core.Ingest.Replay.{Later}
use forum_agent.Core.Session.Frame.{transition_work-Work}
use forum_agent.Runtime.Outbox.Names.{insert, sort, up_to}
use forum_agent.Runtime.Outbox.{
  DurableProducer, DurableReceipt, RpcError, Turn, kept, removed, check_file, check_files, pending,
  queued, send, flush_one, Flushed,
}
use forum_agent.Delivery.{serve_ingest}
use forum_agent.Delivery.Again.{delivered_once, flushed}
use forum_agent.Tests.Store.{
  meeting, recorded, short_digest, stopping_body, stopping_ingested, stopping_work,
}
use forum_agent.Text.{codes}

abbrev journal : DurableProducer Payload
journal = record {
  config = record { session = meeting; producer_name = codes "core" };
  run_id = stopping_body.producer.run_id;
  sequence = stopping_body.producer.seq;
  append_poisoned = false;
  cleanup_warning = false;
  files =
      record {
        name = record {
          run_id = stopping_body.producer.run_id;
          seq = stopping_body.producer.seq;
          message_id = 104;
        };
        is_regular = true;
        len = 300;
        content = some stopping_body;
      }
      ∷ [];
}

abbrev unlinked : Turn
unlinked = record { listed = true; cleanup = kept }

abbrev well : Turn
well = record { listed = true; cleanup = removed }

abbrev no_checks : Body → Stored (Unit {0})
no_checks e = ok tt

abbrev works : Body → ℕ → Store → Stored Store
works e = stopping_work

abbrev core_error : StoreError → RpcError
core_error e = record { code = "CORE"; retryable = false }

abbrev flush :
    Turn → DurableProducer Payload → Store → Flushed Payload Store (Result RpcError DurableReceipt)
flush turn p st = flushed short_digest no_checks works core_error meeting turn 104 p st

taken :
    (flush unlinked journal recorded).result
    ≡ ok (record { message_id = 104; store_seq = 4; duplicate = false })
unfolding flush_one send serve_ingest queued pending check_files check_file sort insert up_to
taken = rw stopping_ingested refl

delivered_once_example :
    ((flush well
        (flush unlinked journal recorded).producer
        (flush unlinked journal recorded).core).result
      ≡ ok (record { message_id = 104; store_seq = 4; duplicate = true }))
    × ((flush well
          (flush unlinked journal recorded).producer
          (flush unlinked journal recorded).core).core
        ≡ (flush unlinked journal recorded).core)
delivered_once_example =
    delivered_once short_digest no_checks works core_error meeting
      (λ e.
        transition_work-Work 3
          (record { expected_state = recording; next_state = stopping; reason = codes "go" }))
      unlinked well 104 journal recorded (flush unlinked journal recorded).core
      (record { message_id = 104; store_seq = 4; duplicate = false }) refl refl refl taken Later.now
