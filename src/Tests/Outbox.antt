-- ===== src/Tests/Outbox.antt =====
-- A producer with an outbox of two events.
use forum_agent.Shared.{ℕ, ◌≡◌, ◌+◌, refl, true, false, some, [], ◌∷◌, ok, err, arith, ◌<◌, ap, any}
use forum_agent.Text.{codes, is_blank, is_whitespace, trim, trim_start, trim_end}
use forum_agent.Contracts.{non_nil, non_blank, sqlite_integer}
use forum_agent.Contracts.Event.{Event, transcript_final, validate_envelope, EventType-discrete}
use forum_agent.Runtime.Outbox.Names.{FileName, same_name, up_to, insert, sort}
use forum_agent.Runtime.Outbox.{
  DurableProducer, OutboxFile, PendingEvent, Turn, removed, written, Call, DurableReceipt, append,
  prepare_append, file_of, pending, check_file, check_files, queued, send, flush_one, flush_all,
  flush_pending, lost, unsure, OutboxError,
}
use forum_agent.Runtime.Outbox.Kept.{kept_until_acknowledged}
use forum_agent.Runtime.Outbox.Delivery.{flush_pending-IsDelivered, IsDelivered}
use forum_agent.Runtime.Outbox.Order.{append_last, IsAppended}

abbrev opened : DurableProducer ℕ
opened = record {
  config = record {
    session = record {
      session_id = 5;
      event_id = 6;
      room_id = 7;
      owner_device_id = 8;
      title = codes "town hall";
    };
    producer_name = codes "asr";
  };
  run_id = 9;
  sequence = 0;
  append_poisoned = false;
  cleanup_warning = false;
  files = [];
}

abbrev length_of : Event ℕ → ℕ
length_of e = 100 + e.payload

abbrev event_of : ℕ → ℕ → ℕ → Event ℕ
event_of id seq payload = record {
  schema_version = 1;
  message_id = id;
  event_type = transcript_final;
  event_id = 6;
  room_id = 7;
  session_id = 5;
  producer = record { name = codes "asr"; run_id = 9; seq = seq };
  payload = payload;
}

abbrev name_of : ℕ → ℕ → FileName
name_of id seq = record { run_id = 9; seq = seq; message_id = id }

abbrev file : ℕ → ℕ → ℕ → OutboxFile ℕ
file id seq payload = record {
  name = name_of id seq;
  is_regular = true;
  len = 100 + payload;
  content = some (event_of id seq payload);
}

abbrev waiting : ℕ → ℕ → ℕ → PendingEvent ℕ
waiting id seq payload = record {
  message_id = id;
  event = event_of id seq payload;
  path = name_of id seq;
}

abbrev one_event : DurableProducer ℕ
one_event = record opened { sequence = 1; files = file 30 1 1 ∷ [] }

abbrev two_events : DurableProducer ℕ
two_events = record opened { sequence = 2; files = file 20 2 2 ∷ file 30 1 1 ∷ [] }

first_append :
    append length_of true written 30 transcript_final 1 opened ≡ (ok (waiting 30 1 1), one_event)
unfolding append prepare_append file_of pending check_files check_file sort insert up_to
    validate_envelope EventType-discrete non_nil non_blank sqlite_integer is_blank trim trim_start
    trim_end is_whitespace
first_append = refl

second_append :
    append length_of true written 20 transcript_final 2 one_event
    ≡ (ok (waiting 20 2 2), two_events)
unfolding append prepare_append file_of pending check_files check_file sort insert up_to
    validate_envelope EventType-discrete non_nil non_blank sqlite_integer is_blank trim trim_start
    trim_end is_whitespace
second_append = refl

-- A write of which it is not known whether it reached the directory ends the appends.
unsure_append :
    (append length_of true lost 10 transcript_final 3
      (append length_of true unsure 20 transcript_final 2 one_event).1).0
    ≡ err OutboxError.append_poisoned
unfolding append prepare_append file_of pending check_files check_file sort insert up_to
    validate_envelope EventType-discrete non_nil non_blank sqlite_integer is_blank trim trim_start
    trim_end is_whitespace
unsure_append = refl

one_pending : pending true one_event.config one_event.files ≡ ok (waiting 30 1 1 ∷ [])
unfolding pending check_files check_file sort insert up_to
one_pending = refl

-- The older event stands first, whatever the identifiers.
two_pending :
    pending true two_events.config two_events.files ≡ ok (waiting 30 1 1 ∷ waiting 20 2 2 ∷ [])
unfolding pending check_files check_file sort insert up_to
two_pending = refl

second_of_two :
    (append length_of true written 20 transcript_final 2 one_event).0 ≡ ok (waiting 20 2 2)
second_of_two = ap (λ x. x.0) second_append

append_last_example :
    IsAppended one_event
      (waiting 30 1 1 ∷ [])
      (waiting 20 2 2)
      (append length_of true written 20 transcript_final 2 one_event).1
append_last_example =
    append_last length_of true 20 transcript_final 2 one_event (waiting 30 1 1 ∷ [])
      (waiting 20 2 2) ((λ own. (omega arith)), tt) one_pending second_of_two

-- A core that numbers what it takes.
abbrev core_call : Call ℕ ℕ
core_call e n =
    (ok (some (record { message_id = e.message_id; store_seq = n + 1; duplicate = false })), n + 1)

some_number : (n : ℕ) → 0 < n + 1
some_number n = omega arith

abbrev well : Turn
well = record { listed = true; cleanup = removed }

flush_pending-IsDelivered_example :
    IsDelivered core_call
      (waiting 30 1 1 ∷ waiting 20 2 2 ∷ [])
      4
      (flush_pending core_call (λ i. well) two_events 4)
flush_pending-IsDelivered_example =
    flush_pending-IsDelivered core_call (λ i. well) two_events 4
      (waiting 30 1 1 ∷ waiting 20 2 2 ∷ []) (λ j. (refl, refl)) two_pending ((refl, tt), (tt, tt))
      ((_, refl, refl, some_number 4), ((_, refl, refl, some_number 5), tt))

-- A core that is away.
abbrev no_call : Call ℕ ℕ
no_call e n = (err (record { code = "TRANSPORT_UNAVAILABLE"; retryable = true }), n)

-- The loop ends at the first failure.
flush_away :
    (flush_pending no_call (λ i. well) two_events 4).result
    ≡ (30, err (record { code = "TRANSPORT_UNAVAILABLE"; retryable = true })) ∷ []
unfolding flush_pending flush_all flush_one send queued pending check_files check_file sort insert
    up_to
flush_away = refl

first_gone :
    any
      (λ f. same_name (name_of 30 1) f.name)
      (flush_one core_call well 30 two_events 4).producer.files
    ≡ false
unfolding flush_one send queued pending check_files check_file sort insert up_to
first_gone = refl

kept_until_acknowledged_example :
    (e : PendingEvent ℕ) × (r : DurableReceipt) × ((core_call e.event 4).0 ≡ ok (some r))
    × ((flush_one core_call well 30 two_events 4).result ≡ ok r)
    × (e.event.message_id ≡ 30)
    × (r.message_id ≡ 30)
    × ((name_of 30 1).message_id ≡ 30)
    × (0 < r.store_seq)
kept_until_acknowledged_example =
    kept_until_acknowledged core_call well 30 two_events 4 (name_of 30 1) refl first_gone
