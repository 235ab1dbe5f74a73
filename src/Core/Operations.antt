-- ===== src/Core/Operations.antt =====
-- The operations of the store that are modelled, as one step and as runs of steps: each is a
-- transaction, so one that fails leaves the store as it was.
pub mod Deliveries
pub mod Effects
pub mod Consistent
pub mod Completed
pub mod Frozen
pub mod Captures
pub mod Texts
use forum_agent.Shared.{List, [], ◌∷◌, ok, err}
use forum_agent.Text.{Text}
use forum_agent.Contracts.{Uuid}
use forum_agent.Contracts.Session.{SessionSpec, TrackSpec, SessionTransition, AudioGap}
use forum_agent.Contracts.Event.{Event}
use forum_agent.Contracts.Manifest.{TrackSeal, CaptureStopped}
use forum_agent.Contracts.Transcript.{CaptureSegmentClosed, TranscriptFinal, TranscriptRevision}
use forum_agent.Core.{Stored}
use forum_agent.Core.Tables.{Body, Store, ProducerSeal, TranscriptSeal, ProducerRecoveryEvidence}
use forum_agent.Core.Ingest.{committed}
use forum_agent.Core.Session.{create_session, create_track, transition_session}
use forum_agent.Core.Capture.{register_capture}
use forum_agent.Core.Seal.{stop_capture, seal_producer, seal_transcript}
use forum_agent.Core.Reconcile.{reconcile_abandoned_producer}
use forum_agent.Contracts.Translation.{
  DirectionChanged, TranslationRequested, TranslationFinal, TranslationFailed,
}
use forum_agent.Core.Transcript.{ingest_final, revise_transcript}
use forum_agent.Core.Gap.{register_gap}
use forum_agent.Core.Direction.{change_direction}
use forum_agent.Core.Translation.Works.{request_translation, finish_translation, fail_translation}

pub data Operation : Type 0 where
  open_session : SessionSpec → Operation
  open_track : TrackSpec → Operation
  transition : Event SessionTransition → Operation
  capture : Event CaptureSegmentClosed → Operation
  stop : Event CaptureStopped → Operation
  end_run : Event ProducerSeal → Operation
  seal : Event TranscriptSeal → Operation
  transcribe : Event TranscriptFinal → Operation
  revise : Event TranscriptRevision → Operation
  miss : Event AudioGap → Operation
  redirect : Event DirectionChanged → Operation
  request : Event TranslationRequested → Operation
  finish : Event TranslationFinal → Operation
  fail : Event TranslationFailed → Operation
  recover : (message run session abandoned : Uuid) → ProducerRecoveryEvidence → Operation

abbrev pub or_stay : Stored Store → Store → Store
or_stay (ok st') st = st'
or_stay (err e) st = st

module _ (manifest : List TrackSeal → Text) (digest : Body → Text) where
  unfoldable pub perform : Operation → Store → Store
  perform (open_session spec) st = or_stay (create_session spec st) st
  perform (open_track spec) st = or_stay (create_track spec st) st
  perform (transition e) st = committed (transition_session digest e st) st
  perform (capture e) st = committed (register_capture digest e st) st
  perform (stop e) st = committed (stop_capture manifest digest e st) st
  perform (end_run e) st = committed (seal_producer digest e st) st
  perform (seal e) st = committed (seal_transcript digest e st) st
  perform (transcribe e) st = committed (ingest_final digest e st) st
  perform (revise e) st = committed (revise_transcript digest e st) st
  perform (miss e) st = committed (register_gap digest e st) st
  perform (redirect e) st = committed (change_direction digest e st) st
  perform (request e) st = committed (request_translation digest e st) st
  perform (finish e) st = committed (finish_translation digest e st) st
  perform (fail e) st = committed (fail_translation digest e st) st
  perform (recover message run session abandoned evidence) st =
      committed (reconcile_abandoned_producer digest message run session abandoned evidence st) st

  unfoldable pub run : List Operation → Store → Store
  run [] st = st
  run (op ∷ ops) st = run ops (perform op st)
