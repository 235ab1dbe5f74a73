-- ===== src/Core/Seal.antt =====
-- How a session is closed, desktop/crates/forum-core/src/reliable.rs: `refresh_integrity`,
-- `capture_stopped`, `producer_sealed`, `seal_transcript`, `reconcile_abandoned_producer`.
pub mod Frame
use forum_agent.Shared.{
  ℕ, leb, Bool, true, false, ◌&&◌, ◌||◌, not, Option, none, some, List, [], ◌∷◌, map, ok, err,
  ensure, if◌then◌else◌, any, all, find, keep, ◌==◌, is_some, for_each, ◌>>=◌, ◌>>◌,
}
use forum_agent.Text.{Text, text_eq}
use forum_agent.Contracts.{Uuid, invalid, checked_add, u64_mod}
use forum_agent.Contracts.Session.{SessionState, stopping, draining, completed, interrupted}
use forum_agent.Contracts.Event.{
  Event, EventType, EventType-discrete, Producer, validate_envelope, capture_stopped,
  producer_sealed, transcript_sealed, transcript_final,
}
use forum_agent.Contracts.Transcript.{TranscriptStatus, TranscriptStatus-discrete, failed}
use forum_agent.Contracts.Manifest.{TrackSeal, CaptureStopped, validate_stopped}
use forum_agent.Core.{
  Stored, validated, scope_mismatch, invalid_state, dependency_not_ready, seal_mismatch, database,
}
use forum_agent.Core.Tables.{
  Payload, closed, transcribed, revised, stopped, sealed, transcript, Body, IngestedRow, CaptureRow,
  TranscriptRecord, Store, insert_new, is_yes, greatest, ProducerSeal, TranscriptSeal,
  CaptureSealRow,
}
use forum_agent.Core.Ingest.{Receipt, as_body, ingest}
use forum_agent.Core.Session.{load_session_status, update_session, save_history, current_record}

abbrev lacks_result : Option TranscriptRecord → Bool
lacks_result none = true
lacks_result (some r) = is_yes (TranscriptStatus-discrete r.payload.status failed)

unfoldable pub refresh_integrity : Uuid → Store → Store
refresh_integrity id st =
    let open_segment =
      any (λ s. s.session_id == id && lacks_result (current_record s st)) st.segments in
    let gap = any (λ g. g.session_id == id) st.audio_gaps in
    update_session id (λ r. record r { incomplete = gap || open_segment }) st

-- Sets of identifiers, as lists.
abbrev pub subset : List Uuid → List Uuid → Bool
subset xs ys = all (λ x. any (λ y. y == x) ys) xs

abbrev pub same_set : List Uuid → List Uuid → Bool
same_set xs ys = subset xs ys && subset ys xs

unfoldable pub distinct : List Uuid → Bool
distinct [] = true
distinct (x ∷ xs) = not (any (λ y. y == x) xs) && distinct xs

-- The rows of `segments JOIN capture_segments` of a track: both tables have one row for a segment.
abbrev captures_of : Uuid → Uuid → Store → List CaptureRow
captures_of session track st =
    keep
      (λ c.
        any (λ s. s.id == c.segment_id && s.session_id == session && s.track_id == track)
          st.segments)
      st.capture_segments

unfoldable pub check_seal : Uuid → Store → TrackSeal → Stored (Unit {0})
check_seal session st t = do
  let rows = captures_of session t.track_id st
  let actual = map (λ c. c.segment_id) rows
  ensure (same_set t.segment_ids actual)
      (if subset actual t.segment_ids then dependency_not_ready else seal_mismatch)
  ensure (all (λ c. leb c.audio.end_sample t.final_sample) rows) seal_mismatch

abbrev pub may_stop : SessionState → Bool
may_stop stopping = true
may_stop interrupted = true
may_stop _ = false

abbrev pub may_seal : SessionState → Bool
may_seal draining = true
may_seal interrupted = true
may_seal _ = false

unfoldable pub stop_work : Uuid → CaptureStopped → ℕ → Store → Stored Store
unfolding load_session_status check_seal refresh_integrity save_history
stop_work id p seq st = do
  status ← load_session_status id st
  ensure (not status.capture_stopped && may_stop status.state) invalid_state
  let tracks = map (λ t. t.track_id) (keep (λ t. t.session_id == id) st.tracks)
  ensure (same_set tracks (map (λ t. t.track_id) p.tracks)) seal_mismatch
  for_each (check_seal id st) p.tracks
  seals ←
      insert_new (λ c. c.session_id == id)
        (record {
          session_id = id;
          manifest_sha256 = p.manifest_sha256;
          payload = p;
          created_seq = seq;
        })
        st.capture_seals
  let st1 = record st { capture_seals = seals }
  let st2 =
      update_session id (λ r. record r { state = draining; capture_stopped_seq = some seq }) st1
  save_history id seq (refresh_integrity id st2)

-- `json_extract(body_json,'$.payload.segment_id')`, read as a string.
abbrev segment_of : Payload → Stored Uuid
segment_of (closed p) = ok p.segment_id
segment_of (transcribed p) = ok p.segment_id
segment_of (revised p) = ok p.segment_id
segment_of _ = err database

abbrev pub is_final_of : Uuid → IngestedRow → Bool
is_final_of run r =
    r.producer_run_id == run && is_yes (EventType-discrete r.event_type transcript_final)

abbrev segments_of : List IngestedRow → Stored (List Uuid)
segments_of [] = ok []
segments_of (r ∷ rows) = do id ← segment_of r.body.payload; rest ← segments_of rows; ok (id ∷ rest)

abbrev pub follows : ℕ → ℕ → Bool
follows final seq = elim (checked_add u64_mod final 1) [ none ↦ false | some next ↦ next == seq ]

unfoldable pub producer_work : Uuid → ProducerSeal → ℕ → Store → Stored Store
producer_work id p seq st = do
  let others =
      keep (λ r. r.producer_run_id == p.producer_run_id && not (r.store_seq == seq)) st.ingested
  ensure (greatest (λ r. r.producer_seq) others == p.final_seq) dependency_not_ready
  ensure
      (not
        (any (λ r. r.producer_run_id == p.producer_run_id && not (r.session_id == id)) st.ingested))
      scope_mismatch
  actual ← segments_of (keep (is_final_of p.producer_run_id) st.ingested)
  ensure (same_set p.segment_ids actual) seal_mismatch
  seals ←
      insert_new (λ s. s.producer_run_id == p.producer_run_id)
        (record {
          producer_run_id = p.producer_run_id;
          session_id = id;
          final_seq = p.final_seq;
          payload = p;
          created_seq = seq;
        })
        st.producer_seals
  ok (record st { producer_seals = seals })

abbrev pub capture_hash : Option CaptureSealRow → Stored Text
capture_hash none = err database
capture_hash (some c) = ok c.manifest_sha256

abbrev pub is_open_run : Store → IngestedRow → Bool
is_open_run st r =
    is_yes (EventType-discrete r.event_type transcript_final)
    && not (any (λ s. s.producer_run_id == r.producer_run_id) st.producer_seals)
    && not (any (λ s. s.producer_run_id == r.producer_run_id) st.producer_reconciliations)

unfoldable pub seal_work : Uuid → TranscriptSeal → ℕ → Store → Stored Store
unfolding load_session_status refresh_integrity save_history
seal_work id p seq st = do
  status ← load_session_status id st
  ensure (status.capture_stopped && not status.transcript_sealed && may_seal status.state)
      invalid_state
  hash ← capture_hash (find (λ c. c.session_id == id) st.capture_seals)
  ensure (text_eq hash p.capture_manifest_sha256) seal_mismatch
  ensure (not (any (λ s. s.session_id == id && not (is_some s.current_revision)) st.segments))
      dependency_not_ready
  ensure (not (any (λ r. r.session_id == id && is_open_run st r) st.ingested)) dependency_not_ready
  let st1 = update_session id (λ r. record r { state = completed; sealed_seq = some seq }) st
  save_history id seq (refresh_integrity id st1)

module _ (manifest : List TrackSeal → Text) (digest : Body → Text) where
  unfoldable pub stop_capture : Event CaptureStopped → Store → Stored (Receipt × Store)
  unfolding validate_stopped ingest stop_work
  stop_capture e st = do
    validated (validate_envelope capture_stopped e)
    validated (validate_stopped manifest e.payload)
    ingest digest (as_body stopped e) (stop_work e.session_id e.payload) st

module _ (digest : Body → Text) where
  unfoldable pub seal_producer : Event ProducerSeal → Store → Stored (Receipt × Store)
  unfolding ingest producer_work distinct
  seal_producer e st = do
    let p = e.payload
    validated (validate_envelope producer_sealed e)
    ensure (p.producer_run_id == e.producer.run_id && follows p.final_seq e.producer.seq)
        seal_mismatch
    ensure (distinct p.segment_ids) seal_mismatch
    ingest digest (as_body sealed e) (producer_work e.session_id p) st

  unfoldable pub seal_transcript : Event TranscriptSeal → Store → Stored (Receipt × Store)
  unfolding ingest seal_work
  seal_transcript e st = do
    validated (validate_envelope transcript_sealed e)
    ingest digest (as_body transcript e) (seal_work e.session_id e.payload) st
