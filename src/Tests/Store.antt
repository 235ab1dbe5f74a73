-- ===== src/Tests/Store.antt =====
-- The store at a short meeting: opened, recorded, stopped, sealed.
use forum_agent.Shared.{
  ℕ, ◌≡◌, ◌+◌, refl, inr, List, [], ◌∷◌, true, false, ok, err, map, ◌≢◌, arith, none, Option, some,
}
use forum_agent.Text.{Text, codes, is_blank, text_eq, is_whitespace, trim, trim_start}
use forum_agent.Contracts.{non_nil, non_blank, sqlite_integer}
use forum_agent.Contracts.Session.{
  SessionSpec, TrackSpec, mic, SessionState, created, preparing, ready, recording, stopping,
  validate_session, validate_track, permits, SessionState-discrete, completed, validate_audio,
  draining,
}
use forum_agent.Contracts.Event.{
  Event, EventType, schema_version, session_changed, capture_stopped, producer_sealed,
  transcript_sealed, validate_envelope, EventType-discrete, audio_segment_closed,
}
use forum_agent.Contracts.Manifest.{
  TrackSeal, validate_stopped, capture_manifest_sha256, check_tracks, check_ids, check_following,
  sort_ids, sort_tracks,
}
use forum_agent.Core.Tables.{Body, Store, changed, SessionStatus}
use forum_agent.Core.Ingest.{
  ingest, register_event, decide_delivery, settle_delivery, append_outbox, require_session, as_body,
  committed, is_sealed_run, Receipt,
}
use forum_agent.Core.Session.{
  create_session, add_session, create_track, add_track, transition_session, transition_work,
  load_session_status, save_history, require_capture_state,
}
use forum_agent.Core.Operations.{
  Operation, open_session, open_track, transition, stop, seal, end_run, perform, run, capture,
}
use forum_agent.Core.{Stored, event_id_conflict}
use forum_agent.Core.Session.Frame.{transition_work-Work}
use forum_agent.Core.Ingest.Replay.{redelivery, conflicting_delivery, now}
use forum_agent.Core.Operations.Consistent.{IsConsistent, run-IsConsistent}
use forum_agent.Core.Operations.Completed.{completed_final}
use forum_agent.Core.Operations.Frozen.{events_of, sealed_run_frozen}
use forum_agent.Core.Seal.{
  stop_capture, stop_work, check_seal, refresh_integrity, seal_transcript, seal_work, seal_producer,
  producer_work, distinct,
}
use forum_agent.Core.Capture.{register_capture, capture_work, capture_direction_at}
use forum_agent.Contracts.Transcript.{
  CaptureSegmentClosed, validate_capture, TranscriptStatus-discrete,
}
use forum_agent.Core.Operations.Captures.{segments_in, stopped_segments}

abbrev pub empty_store : Store
empty_store = record {
  events = [];
  rooms = [];
  peer_sessions = [];
  sessions = [];
  tracks = [];
  last_seq = 0;
  ingested = [];
  outbox = [];
  session_history = [];
  segments = [];
  capture_segments = [];
  segment_revisions = [];
  capture_seals = [];
  producer_seals = [];
  producer_reconciliations = [];
  audio_gaps = [];
  direction_boundaries = [];
  translations = [];
  translation_attempts = [];
  translation_sources = [];
  translation_coverage = [];
  translation_history = [];
  analysis_snapshots = [];
  analysis_artifacts = [];
  artifact_revisions = [];
  artifact_dependencies = [];
  analysis_changes = [];
  publication_projection = [];
  publication_changes = [];
}

-- Digests that tell the payloads apart by their messages only.
abbrev pub short_digest : Body → Text
short_digest e = e.message_id ∷ []

abbrev pub short_manifest : List TrackSeal → Text
short_manifest tracks = map (λ t. t.track_id) tracks

abbrev pub meeting : SessionSpec
meeting = record {
  session_id = 3;
  event_id = 1;
  room_id = 2;
  owner_device_id = 9;
  title = codes "Forum";
}

abbrev pub microphone : TrackSpec
microphone = record { track_id = 5; session_id = 3; kind = mic; sample_rate = 16000 }

abbrev pub event_of : {T : Type 0} → ℕ → EventType → T → Event T
event_of n kind payload = record {
  schema_version = schema_version;
  message_id = 100 + n;
  event_type = kind;
  event_id = 1;
  room_id = 2;
  session_id = 3;
  producer = record { name = codes "host"; run_id = 50; seq = n };
  payload = payload;
}

abbrev step_to : ℕ → SessionState → SessionState → Operation
step_to n from to = transition (
    event_of n session_changed
      (record { expected_state = from; next_state = to; reason = codes "go" }))

abbrev to_recording : List Operation
to_recording =
    open_session meeting
    ∷ open_track microphone
    ∷ step_to 1 created preparing
    ∷ step_to 2 preparing ready
    ∷ step_to 3 ready recording
    ∷ []

abbrev nothing_captured : TrackSeal
nothing_captured = record { track_id = 5; final_sample = 0; segment_ids = [] }

abbrev to_completed : List Operation
to_completed =
    step_to 4 recording stopping
    ∷ stop (
        event_of 5 capture_stopped
          (record { tracks = nothing_captured ∷ []; manifest_sha256 = 5 ∷ [] }))
    ∷ seal (event_of 6 transcript_sealed (record { capture_manifest_sha256 = 5 ∷ [] }))
    ∷ end_run (
        event_of 7 producer_sealed
          (record { producer_run_id = 50; final_seq = 6; segment_ids = [] }))
    ∷ []

abbrev pub recorded : Store
recorded = run short_manifest short_digest to_recording empty_store

abbrev closed_store : Store
closed_store = run short_manifest short_digest to_completed recorded

empty_store-IsConsistent : IsConsistent empty_store
empty_store-IsConsistent = record {
  log = record { bounded = tt; ordered = tt; published = refl };
  catalog = record { distinct = tt; lawful = tt };
}

recorded-IsConsistent : IsConsistent recorded
recorded-IsConsistent =
    run-IsConsistent short_manifest short_digest to_recording empty_store empty_store-IsConsistent

closed_store-IsConsistent : IsConsistent closed_store
closed_store-IsConsistent =
    run-IsConsistent short_manifest short_digest to_completed recorded recorded-IsConsistent

abbrev at_the_end : SessionStatus
at_the_end = record {
  session_id = 3;
  state = completed;
  direction_epoch = 1;
  target_languages = [];
  capture_stopped = true;
  transcript_sealed = true;
  incomplete = false;
  state_seq = 6;
}

meeting_completed : load_session_status 3 closed_store ≡ ok at_the_end
unfolding run perform create_session add_session create_track add_track transition_session
    transition_work ingest register_event decide_delivery settle_delivery append_outbox
    require_session load_session_status save_history permits validate_session validate_track
    validate_envelope non_nil non_blank sqlite_integer is_blank is_whitespace EventType-discrete
    SessionState-discrete text_eq trim trim_start stop_capture stop_work validate_stopped
    capture_manifest_sha256 check_tracks check_ids check_following sort_ids sort_tracks check_seal
    refresh_integrity seal_transcript seal_work seal_producer producer_work distinct
meeting_completed = refl

host_sealed : is_sealed_run 50 closed_store ≡ true
unfolding run perform create_session add_session create_track add_track transition_session
    transition_work ingest register_event decide_delivery settle_delivery append_outbox
    require_session load_session_status save_history permits validate_session validate_track
    validate_envelope non_nil non_blank sqlite_integer is_blank is_whitespace EventType-discrete
    SessionState-discrete text_eq trim trim_start stop_capture stop_work validate_stopped
    capture_manifest_sha256 check_tracks check_ids check_following sort_ids sort_tracks check_seal
    refresh_integrity seal_transcript seal_work seal_producer producer_work distinct
host_sealed = refl

run-IsConsistent_example : IsConsistent closed_store
run-IsConsistent_example =
    run-IsConsistent short_manifest short_digest to_completed recorded recorded-IsConsistent

completed_final_example :
    (after : SessionStatus) × (load_session_status 3
        (run short_manifest short_digest to_recording closed_store)
      ≡ ok after)
    × (after.state ≡ completed)
    × (after.capture_stopped ≡ true)
    × (after.transcript_sealed ≡ true)
completed_final_example =
    completed_final short_manifest short_digest 3 to_recording closed_store at_the_end
      closed_store-IsConsistent meeting_completed refl

sealed_run_frozen_example :
    (is_sealed_run 50 (run short_manifest short_digest to_recording closed_store) ≡ true)
    × (events_of 50 (run short_manifest short_digest to_recording closed_store)
        ≡ events_of 50 closed_store)
sealed_run_frozen_example =
    sealed_run_frozen short_manifest short_digest 50 to_recording closed_store
      closed_store-IsConsistent host_sealed

abbrev pub stopping_body : Body
stopping_body = as_body changed (
    event_of 4 session_changed
      (record { expected_state = recording; next_state = stopping; reason = codes "go" }))

abbrev pub stopping_work : ℕ → Store → Stored Store
stopping_work =
    transition_work 3
      (record { expected_state = recording; next_state = stopping; reason = codes "go" })

abbrev pub stopping_store : Store
stopping_store = committed (ingest short_digest stopping_body stopping_work recorded) recorded

-- The receipt of an ingestion that succeeds.
abbrev pub receipt_of : Stored (Receipt × Store) → Option Receipt
receipt_of (ok (r, st)) = some r
receipt_of (err e) = none

pub committed_receipt :
    (o : Stored (Receipt × Store)) (r : Receipt) (st : Store)
    → receipt_of o ≡ some r
    → o ≡ ok (r, committed o st)
committed_receipt (ok (x, b)) r st h = ground arith
committed_receipt (err e) r st h = absurd (cc h)

stopping_receipt :
    receipt_of (ingest short_digest stopping_body stopping_work recorded)
    ≡ some (record { message_id = 104; store_seq = 4; duplicate = false })
unfolding run perform create_session add_session create_track add_track transition_session
    transition_work ingest register_event decide_delivery settle_delivery append_outbox
    require_session load_session_status save_history permits validate_session validate_track
    validate_envelope non_nil non_blank sqlite_integer is_blank is_whitespace EventType-discrete
    SessionState-discrete text_eq trim trim_start stop_capture stop_work validate_stopped
    capture_manifest_sha256 check_tracks check_ids check_following sort_ids sort_tracks check_seal
    refresh_integrity seal_transcript seal_work seal_producer producer_work distinct
stopping_receipt = refl

pub stopping_ingested :
    ingest short_digest stopping_body stopping_work recorded
    ≡ ok (record { message_id = 104; store_seq = 4; duplicate = false }, stopping_store)
stopping_ingested =
    committed_receipt (ingest short_digest stopping_body stopping_work recorded) _ recorded
      stopping_receipt

redelivery_example :
    ingest short_digest stopping_body stopping_work stopping_store
    ≡ ok (record { message_id = 104; store_seq = 4; duplicate = true }, stopping_store)
redelivery_example =
    redelivery short_digest stopping_body stopping_work stopping_work recorded stopping_store
      stopping_store (record { message_id = 104; store_seq = 4; duplicate = false })
      (transition_work-Work 3
        (record { expected_state = recording; next_state = stopping; reason = codes "go" }))
      stopping_ingested now

abbrev renamed_body : Body
renamed_body = record stopping_body { message_id = 999 }

other_digest : short_digest renamed_body ≢ short_digest stopping_body
other_digest h = ground arith

conflicting_delivery_example :
    ingest short_digest renamed_body stopping_work stopping_store ≡ err event_id_conflict
conflicting_delivery_example =
    conflicting_delivery short_digest stopping_body renamed_body stopping_work stopping_work
      recorded stopping_store stopping_store
      (record { message_id = 104; store_seq = 4; duplicate = false })
      (transition_work-Work 3
        (record { expected_state = recording; next_state = stopping; reason = codes "go" }))
      stopping_ingested now refl refl refl (inr (refl, refl)) other_digest

abbrev pub one_second : CaptureSegmentClosed
one_second = record {
  track_id = 5;
  segment_id = 8;
  audio = record {
    start_sample = 0;
    end_sample = 16000;
    sample_rate = 16000;
    start_ms = 0;
    end_ms = 1000;
  };
  recording_ref = none;
}

abbrev to_draining : List Operation
to_draining =
    capture (event_of 4 audio_segment_closed one_second)
    ∷ step_to 5 recording stopping
    ∷ stop (
        event_of 6 capture_stopped (record {
          tracks = record { track_id = 5; final_sample = 16000; segment_ids = 8 ∷ [] } ∷ [];
          manifest_sha256 = 5 ∷ [];
        }))
    ∷ []

abbrev draining_store : Store
draining_store = run short_manifest short_digest to_draining recorded

draining_store-IsConsistent : IsConsistent draining_store
draining_store-IsConsistent =
    run-IsConsistent short_manifest short_digest to_draining recorded recorded-IsConsistent

abbrev while_draining : SessionStatus
while_draining = record {
  session_id = 3;
  state = draining;
  direction_epoch = 1;
  target_languages = [];
  capture_stopped = true;
  transcript_sealed = false;
  incomplete = true;
  state_seq = 6;
}

meeting_draining : load_session_status 3 draining_store ≡ ok while_draining
unfolding run perform create_session add_session create_track add_track transition_session
    transition_work ingest register_event decide_delivery settle_delivery append_outbox
    require_session load_session_status save_history permits validate_session validate_track
    validate_envelope non_nil non_blank sqlite_integer is_blank is_whitespace EventType-discrete
    SessionState-discrete text_eq trim trim_start stop_capture stop_work validate_stopped
    capture_manifest_sha256 check_tracks check_ids check_following sort_ids sort_tracks check_seal
    refresh_integrity seal_transcript seal_work seal_producer producer_work distinct
    register_capture capture_work validate_capture validate_audio require_capture_state
    capture_direction_at TranscriptStatus-discrete
meeting_draining = refl

one_segment :
    segments_in 3 draining_store.segments
    ≡ record { id = 8; session_id = 3; track_id = 5; current_revision = none } ∷ []
unfolding run perform create_session add_session create_track add_track transition_session
    transition_work ingest register_event decide_delivery settle_delivery append_outbox
    require_session load_session_status save_history permits validate_session validate_track
    validate_envelope non_nil non_blank sqlite_integer is_blank is_whitespace EventType-discrete
    SessionState-discrete text_eq trim trim_start stop_capture stop_work validate_stopped
    capture_manifest_sha256 check_tracks check_ids check_following sort_ids sort_tracks check_seal
    refresh_integrity seal_transcript seal_work seal_producer producer_work distinct
    register_capture capture_work validate_capture validate_audio require_capture_state
    capture_direction_at TranscriptStatus-discrete
one_segment = refl

-- A capture that comes late.
abbrev late_capture : List Operation
late_capture =
    capture (event_of 7 audio_segment_closed (record one_second { segment_id = 11 })) ∷ []

stopped_segments_example :
    segments_in 3 (run short_manifest short_digest late_capture draining_store).segments
    ≡ segments_in 3 draining_store.segments
stopped_segments_example =
    stopped_segments short_manifest short_digest 3 late_capture draining_store while_draining
      draining_store-IsConsistent meeting_draining refl
