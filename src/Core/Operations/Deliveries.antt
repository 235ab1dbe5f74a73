-- ===== src/Core/Operations/Deliveries.antt =====
-- The operations that take an event are ingestions, each with its own work.
use forum_agent.Shared.{◌≡◌, ◌&&◌, List, ok, ensure, ◌==◌, >>-inversion, []}
use forum_agent.Text.{Text}
use forum_agent.Contracts.{non_blank, invalid}
use forum_agent.Contracts.Session.{SessionTransition, AudioGap, validate_gap}
use forum_agent.Contracts.Event.{
  Event, validate_envelope, session_changed, audio_segment_closed, capture_stopped, producer_sealed,
  transcript_sealed, transcript_final, transcript_revised, audio_gap, direction_changed,
  translation_requested, translation_final, translation_failed,
}
use forum_agent.Contracts.Manifest.{TrackSeal, CaptureStopped, validate_stopped}
use forum_agent.Contracts.Transcript.{
  CaptureSegmentClosed, validate_capture, TranscriptFinal, TranscriptRevision, validate_final,
  validate_revision, validate_targets,
}
use forum_agent.Core.{validated, seal_mismatch}
use forum_agent.Core.Tables.{
  Body, Store, ProducerSeal, TranscriptSeal, changed, closed, stopped, sealed, transcript,
  transcribed, revised, gap, direction, requested, finished, failed,
}
use forum_agent.Core.Ingest.{Receipt, as_body, ingest}
use forum_agent.Core.Session.{transition_session, transition_work}
use forum_agent.Core.Capture.{register_capture, capture_work}
use forum_agent.Core.Seal.{
  stop_capture, stop_work, seal_producer, producer_work, seal_transcript, seal_work, distinct,
  follows,
}
use forum_agent.Contracts.Translation.{
  DirectionChanged, TranslationRequested, TranslationFinal, TranslationFailed, validate_request,
  validate_result, validate_failure, text_when_final,
}
use forum_agent.Core.Transcript.{ingest_final, revise_transcript, final_work, revision_work}
use forum_agent.Core.Gap.{register_gap, gap_work}
use forum_agent.Core.Direction.{change_direction, direction_work, next_epoch}
use forum_agent.Core.Translation.Works.{
  request_translation, finish_translation, fail_translation, request_work, finish_work, fail_work,
}

module _ (digest : Body → Text) where
  pub transition_session-ingest :
      (e : Event SessionTransition) (a b : Store) (receipt : Receipt)
      → transition_session digest e a ≡ ok (receipt, b)
      → ingest digest (as_body changed e) (transition_work e.session_id e.payload) a
        ≡ ok (receipt, b)
  unfolding transition_session
  transition_session-ingest e a b receipt h =
      let (h0, h1) = >>-inversion (validated (validate_envelope session_changed e)) _ h in
      let (g1, h2) = >>-inversion (validated (non_blank e.payload.reason "reason")) _ h1 in h2

  pub register_capture-ingest :
      (e : Event CaptureSegmentClosed) (a b : Store) (receipt : Receipt)
      → register_capture digest e a ≡ ok (receipt, b)
      → ingest digest (as_body closed e) (capture_work e.session_id e.payload) a ≡ ok (receipt, b)
  unfolding register_capture
  register_capture-ingest e a b receipt h =
      let (h0, h1) = >>-inversion (validated (validate_envelope audio_segment_closed e)) _ h in
      let (g1, h2) = >>-inversion (validated (validate_capture e.payload)) _ h1 in h2

  pub stop_capture-ingest :
      (manifest : List TrackSeal → Text) (e : Event CaptureStopped) (a b : Store)
      (receipt : Receipt)
      → stop_capture manifest digest e a ≡ ok (receipt, b)
      → ingest digest (as_body stopped e) (stop_work e.session_id e.payload) a ≡ ok (receipt, b)
  unfolding stop_capture
  stop_capture-ingest manifest e a b receipt h =
      let (h0, h1) = >>-inversion (validated (validate_envelope capture_stopped e)) _ h in
      let (g1, h2) = >>-inversion (validated (validate_stopped manifest e.payload)) _ h1 in h2

  pub seal_producer-ingest :
      (e : Event ProducerSeal) (a b : Store) (receipt : Receipt)
      → seal_producer digest e a ≡ ok (receipt, b)
      → ingest digest (as_body sealed e) (producer_work e.session_id e.payload) a ≡ ok (receipt, b)
  unfolding seal_producer
  seal_producer-ingest e a b receipt h =
      let p = e.payload in
      let (h0, h1) = >>-inversion (validated (validate_envelope producer_sealed e)) _ h in
      let (g1, h2) =
        >>-inversion
          (ensure (p.producer_run_id == e.producer.run_id && follows p.final_seq e.producer.seq)
            seal_mismatch)
          _ h1 in
      let (g2, h3) = >>-inversion (ensure (distinct p.segment_ids) seal_mismatch) _ h2 in h3

  pub seal_transcript-ingest :
      (e : Event TranscriptSeal) (a b : Store) (receipt : Receipt)
      → seal_transcript digest e a ≡ ok (receipt, b)
      → ingest digest (as_body transcript e) (seal_work e.session_id e.payload) a ≡ ok (receipt, b)
  unfolding seal_transcript
  seal_transcript-ingest e a b receipt h =
      let (h0, h1) = >>-inversion (validated (validate_envelope transcript_sealed e)) _ h in h1

  pub ingest_final-ingest :
      (e : Event TranscriptFinal) (a b : Store) (receipt : Receipt)
      → ingest_final digest e a ≡ ok (receipt, b)
      → ingest digest (as_body transcribed e) (final_work e.session_id e.payload) a
        ≡ ok (receipt, b)
  unfolding ingest_final
  ingest_final-ingest e a b receipt h =
      let (h0, h1) = >>-inversion (validated (validate_envelope transcript_final e)) _ h in
      let (g1, h2) = >>-inversion (validated (validate_final e.payload)) _ h1 in h2

  pub revise_transcript-ingest :
      (e : Event TranscriptRevision) (a b : Store) (receipt : Receipt)
      → revise_transcript digest e a ≡ ok (receipt, b)
      → ingest digest (as_body revised e) (revision_work e.session_id e.payload) a ≡ ok (receipt, b)
  unfolding revise_transcript
  revise_transcript-ingest e a b receipt h =
      let (h0, h1) = >>-inversion (validated (validate_envelope transcript_revised e)) _ h in
      let (g1, h2) = >>-inversion (validated (validate_revision e.payload)) _ h1 in h2

  pub register_gap-ingest :
      (e : Event AudioGap) (a b : Store) (receipt : Receipt)
      → register_gap digest e a ≡ ok (receipt, b)
      → ingest digest (as_body gap e) (gap_work e.session_id e.payload) a ≡ ok (receipt, b)
  unfolding register_gap
  register_gap-ingest e a b receipt h =
      let (h0, h1) = >>-inversion (validated (validate_envelope audio_gap e)) _ h in
      let (g1, h2) = >>-inversion (validated (validate_gap e.payload)) _ h1 in h2

  pub change_direction-ingest :
      (e : Event DirectionChanged) (a b : Store) (receipt : Receipt)
      → change_direction digest e a ≡ ok (receipt, b)
      → ingest digest (as_body direction e) (direction_work e.session_id e.payload) a
        ≡ ok (receipt, b)
  unfolding change_direction
  change_direction-ingest e a b receipt h =
      let (h0, h1) = >>-inversion (validated (validate_envelope direction_changed e)) _ h in
      let (g1, h2) =
        >>-inversion
          (validated (
            ensure (next_epoch e.payload.expected_epoch e.payload.direction_epoch)
              (invalid "direction_epoch")))
          _ h1 in
      let (g2, h3) =
        >>-inversion (validated (validate_targets "target_languages" [] e.payload.target_languages))
          _ h2 in
      h3

  pub request_translation-ingest :
      (e : Event TranslationRequested) (a b : Store) (receipt : Receipt)
      → request_translation digest e a ≡ ok (receipt, b)
      → ingest digest (as_body requested e) (request_work e.session_id e.payload) a
        ≡ ok (receipt, b)
  unfolding request_translation
  request_translation-ingest e a b receipt h =
      let (h0, h1) = >>-inversion (validated (validate_envelope translation_requested e)) _ h in
      let (g1, h2) = >>-inversion (validated (validate_request e.payload)) _ h1 in h2

  pub finish_translation-ingest :
      (e : Event TranslationFinal) (a b : Store) (receipt : Receipt)
      → finish_translation digest e a ≡ ok (receipt, b)
      → ingest digest (as_body finished e) (finish_work e.session_id e.payload) a ≡ ok (receipt, b)
  unfolding finish_translation
  finish_translation-ingest e a b receipt h =
      let (h0, h1) = >>-inversion (validated (validate_envelope translation_final e)) _ h in
      let (g1, h2) = >>-inversion (validated (validate_result e.payload)) _ h1 in
      let (g2, h3) =
        >>-inversion (validated (text_when_final e.payload.status e.payload.text)) _ h2 in
      h3

  pub fail_translation-ingest :
      (e : Event TranslationFailed) (a b : Store) (receipt : Receipt)
      → fail_translation digest e a ≡ ok (receipt, b)
      → ingest digest (as_body failed e) (fail_work e.session_id e.payload) a ≡ ok (receipt, b)
  unfolding fail_translation
  fail_translation-ingest e a b receipt h =
      let (h0, h1) = >>-inversion (validated (validate_envelope translation_failed e)) _ h in
      let (g1, h2) = >>-inversion (validated (validate_failure e.payload)) _ h1 in
      let (g2, h3) = >>-inversion (validated (non_blank e.payload.code "code")) _ h2 in
      let (g3, h4) = >>-inversion (validated (non_blank e.payload.reason "reason")) _ h3 in h4
