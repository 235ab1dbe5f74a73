-- ===== src/Core/Operations/Effects.antt =====
-- What one operation can do to the store: nothing, open a session, add a track, or ingest an event
-- with one of the works.
use forum_agent.Shared.{
  ℕ, ◌≡◌, ensure, find, ◌==◌, >>=-inversion, refl, Option, none, some, List, ◌∷◌, ok, err, subst,
  inl, inr, >>-inversion,
}
use forum_agent.Text.{Text}
use forum_agent.Contracts.{Uuid}
use forum_agent.Contracts.Session.{
  SessionSpec, SessionTransition, TrackSpec, validate_track, AudioGap,
}
use forum_agent.Contracts.Manifest.{TrackSeal, CaptureStopped}
use forum_agent.Contracts.Transcript.{CaptureSegmentClosed, TranscriptFinal, TranscriptRevision}
use forum_agent.Core.{Stored, validated, entity_conflict}
use forum_agent.Core.Tables.{
  Body, is_yes, TrackSpec-discrete, Store, changed, closed, stopped, sealed, transcript,
  ProducerSeal, TranscriptSeal, ProducerReconciled, transcribed, revised, gap, direction, requested,
  finished, failed,
}
use forum_agent.Core.Ingest.{Receipt, session_row, as_body, require_session, ingest, committed}
use forum_agent.Core.Ingest.Log.{IsLog, Work}
use forum_agent.Core.Session.{
  create_session, create_track, add_track, transition_session, transition_work, new_session,
}
use forum_agent.Core.Session.Frame.{transition_work-Work}
use forum_agent.Core.Capture.{register_capture, capture_work}
use forum_agent.Core.Capture.Frame.{capture_work-Work}
use forum_agent.Core.Seal.{
  stop_capture, stop_work, seal_producer, producer_work, seal_transcript, seal_work,
}
use forum_agent.Core.Seal.Frame.{stop_work-Work, producer_work-Work, seal_work-Work}
use forum_agent.Core.Reconcile.{reconcile_abandoned_producer, insert_reconciliation}
use forum_agent.Core.Reconcile.Frame.{reconcile_cases, insert_reconciliation-Work}
use forum_agent.Core.Lifecycle.Final.{create_session_cases, Untouched}
use forum_agent.Core.Operations.{
  Operation, open_session, open_track, transition, capture, stop, end_run, seal, recover, or_stay,
  perform, run, transcribe, revise, miss, redirect, request, finish, fail,
}
use forum_agent.Core.Operations.Deliveries.{
  transition_session-ingest, register_capture-ingest, stop_capture-ingest, seal_producer-ingest,
  seal_transcript-ingest, ingest_final-ingest, revise_transcript-ingest, register_gap-ingest,
  change_direction-ingest, request_translation-ingest, finish_translation-ingest,
  fail_translation-ingest,
}
use forum_agent.Contracts.Translation.{
  DirectionChanged, TranslationRequested, TranslationFinal, TranslationFailed,
}
use forum_agent.Core.Transcript.{ingest_final, revise_transcript, final_work, revision_work}
use forum_agent.Core.Gap.{register_gap, gap_work}
use forum_agent.Core.Direction.{change_direction, direction_work}
use forum_agent.Core.Translation.Works.{
  request_translation, finish_translation, fail_translation, request_work, finish_work, fail_work,
}
use forum_agent.Core.Transcript.Frame.{Settled-Keeps, final_work-Settled, revision_work-Settled}
use forum_agent.Core.Gap.Frame.{gap_work-Work}
use forum_agent.Core.Direction.Frame.{direction_work-Work}
use forum_agent.Core.Aside.{Aside-Keeps, Quiet-Aside}
use forum_agent.Core.Aside.Translations.{request_work-Quiet, finish_work-Quiet, fail_work-Quiet}

-- The works of the operations.
pub data Task : (ℕ → Store → Stored Store) → Type 0 where
  transitions : (id : Uuid) (p : SessionTransition) → Task (transition_work id p)
  captures : (id : Uuid) (p : CaptureSegmentClosed) → Task (capture_work id p)
  stops : (id : Uuid) (p : CaptureStopped) → Task (stop_work id p)
  produces : (id : Uuid) (p : ProducerSeal) → Task (producer_work id p)
  seals : (id : Uuid) (p : TranscriptSeal) → Task (seal_work id p)
  transcribes : (id : Uuid) (p : TranscriptFinal) → Task (final_work id p)
  revises : (id : Uuid) (p : TranscriptRevision) → Task (revision_work id p)
  misses : (id : Uuid) (p : AudioGap) → Task (gap_work id p)
  redirects : (id : Uuid) (p : DirectionChanged) → Task (direction_work id p)
  requests : (id : Uuid) (p : TranslationRequested) → Task (request_work id p)
  finishes : (id : Uuid) (p : TranslationFinal) → Task (finish_work id p)
  fails : (id : Uuid) (p : TranslationFailed) → Task (fail_work id p)
  reconciles : (id run : Uuid) (p : ProducerReconciled) → Task (insert_reconciliation id run p)

pub Task-Work : {work : ℕ → Store → Stored Store} → Task work → Work work
Task-Work (transitions id p) = transition_work-Work id p
Task-Work (captures id p) = capture_work-Work id p
Task-Work (stops id p) = stop_work-Work id p
Task-Work (produces id p) = producer_work-Work id p
Task-Work (seals id p) = seal_work-Work id p
Task-Work (transcribes id p) = λ n a b h. Settled-Keeps id n a b (final_work-Settled id p n a b h)
Task-Work (revises id p) = λ n a b h. Settled-Keeps id n a b (revision_work-Settled id p n a b h)
Task-Work (misses id p) = gap_work-Work id p
Task-Work (redirects id p) = direction_work-Work id p
Task-Work (requests id p) = λ n a b h. Aside-Keeps (Quiet-Aside (request_work-Quiet id p n a b h))
Task-Work (finishes id p) = λ n a b h. Aside-Keeps (Quiet-Aside (finish_work-Quiet id p n a b h))
Task-Work (fails id p) = λ n a b h. Aside-Keeps (Quiet-Aside (fail_work-Quiet id p n a b h))
Task-Work (reconciles id run p) = insert_reconciliation-Work id run p

pub data Effect (digest : Body → Text) (a : Store) : Store → Type 0 where
  stays : Effect digest a a
  opened :
      (spec : SessionSpec) (b : Store)
      → session_row spec.session_id a ≡ none
      → Untouched a b
      → b.sessions ≡ new_session spec ∷ a.sessions
      → Effect digest a b
  tracked : (tracks : List TrackSpec) → Effect digest a (record a { tracks = tracks })
  delivered :
      (e : Body) (work : ℕ → Store → Stored Store) (receipt : Receipt) (b : Store)
      → Task work
      → ingest digest e work a ≡ ok (receipt, b)
      → Effect digest a b

committed_lem :
    (P : Store → Type 0) {A : Type 0} (o : Stored (A × Store)) (st : Store)
    → P st
    → ((x : A) (b : Store) → o ≡ ok (x, b) → P b)
    → P (committed o st)
committed_lem P (ok (x, b)) st p f = f x b refl
committed_lem P (err e) st p f = p

or_stay_lem :
    (P : Store → Type 0) (o : Stored Store) (st : Store)
    → P st
    → ((b : Store) → o ≡ ok b → P b)
    → P (or_stay o st)
or_stay_lem P (ok b) st p f = f b refl
or_stay_lem P (err e) st p f = p

add_track_cases :
    (spec : TrackSpec) (a b : Store) (o : Option TrackSpec)
    → add_track spec a o ≡ ok b
    → (tracks : List TrackSpec) × (record a { tracks = tracks } ≡ b)
unfolding add_track
add_track_cases spec a b none k = (spec ∷ a.tracks, cc k)
add_track_cases spec a b (some t) k =
    let (same, k1) =
      >>-inversion (ensure (is_yes (TrackSpec-discrete t spec)) entity_conflict) (ok a) k in
    (a.tracks, cc k1)

create_track_cases :
    (spec : TrackSpec) (a b : Store)
    → create_track spec a ≡ ok b
    → (tracks : List TrackSpec) × (record a { tracks = tracks } ≡ b)
unfolding create_track
create_track_cases spec a b h =
    let (valid, h1) = >>-inversion (validated (validate_track spec)) _ h in
    let (found, g, h2) = >>=-inversion (require_session spec.session_id a) _ h1 in
    add_track_cases spec a b (find (λ t. t.track_id == spec.track_id) a.tracks) h2

module _ (manifest : List TrackSeal → Text) (digest : Body → Text) where
  pub perform-Effect :
      (op : Operation) (st : Store) → IsLog st → Effect digest st (perform manifest digest op st)
  unfolding perform
  perform-Effect (open_session spec) st l =
      or_stay_lem (Effect digest st) (create_session spec st) st stays (λ b h.
        elim (create_session_cases spec st b h) [
          | inl same ↦ subst (Effect digest st) same stays
          | inr (new, frame, made) ↦ opened spec b new frame made
        ])
  perform-Effect (open_track spec) st l =
      or_stay_lem (Effect digest st) (create_track spec st) st stays (λ b h.
        let (tracks, shape) = create_track_cases spec st b h in
        subst (Effect digest st) shape (tracked tracks))
  perform-Effect (transition e) st l =
      committed_lem (Effect digest st) (transition_session digest e st) st stays (λ r b h.
        delivered (as_body changed e) _ r b (transitions e.session_id e.payload)
          (transition_session-ingest digest e st b r h))
  perform-Effect (capture e) st l =
      committed_lem (Effect digest st) (register_capture digest e st) st stays (λ r b h.
        delivered (as_body closed e) _ r b (captures e.session_id e.payload)
          (register_capture-ingest digest e st b r h))
  perform-Effect (stop e) st l =
      committed_lem (Effect digest st) (stop_capture manifest digest e st) st stays (λ r b h.
        delivered (as_body stopped e) _ r b (stops e.session_id e.payload)
          (stop_capture-ingest digest manifest e st b r h))
  perform-Effect (end_run e) st l =
      committed_lem (Effect digest st) (seal_producer digest e st) st stays (λ r b h.
        delivered (as_body sealed e) _ r b (produces e.session_id e.payload)
          (seal_producer-ingest digest e st b r h))
  perform-Effect (seal e) st l =
      committed_lem (Effect digest st) (seal_transcript digest e st) st stays (λ r b h.
        delivered (as_body transcript e) _ r b (seals e.session_id e.payload)
          (seal_transcript-ingest digest e st b r h))
  perform-Effect (transcribe e) st l =
      committed_lem (Effect digest st) (ingest_final digest e st) st stays (λ r b h.
        delivered (as_body transcribed e) _ r b (transcribes e.session_id e.payload)
          (ingest_final-ingest digest e st b r h))
  perform-Effect (revise e) st l =
      committed_lem (Effect digest st) (revise_transcript digest e st) st stays (λ r b h.
        delivered (as_body revised e) _ r b (revises e.session_id e.payload)
          (revise_transcript-ingest digest e st b r h))
  perform-Effect (miss e) st l =
      committed_lem (Effect digest st) (register_gap digest e st) st stays (λ r b h.
        delivered (as_body gap e) _ r b (misses e.session_id e.payload)
          (register_gap-ingest digest e st b r h))
  perform-Effect (redirect e) st l =
      committed_lem (Effect digest st) (change_direction digest e st) st stays (λ r b h.
        delivered (as_body direction e) _ r b (redirects e.session_id e.payload)
          (change_direction-ingest digest e st b r h))
  perform-Effect (request e) st l =
      committed_lem (Effect digest st) (request_translation digest e st) st stays (λ r b h.
        delivered (as_body requested e) _ r b (requests e.session_id e.payload)
          (request_translation-ingest digest e st b r h))
  perform-Effect (finish e) st l =
      committed_lem (Effect digest st) (finish_translation digest e st) st stays (λ r b h.
        delivered (as_body finished e) _ r b (finishes e.session_id e.payload)
          (finish_translation-ingest digest e st b r h))
  perform-Effect (fail e) st l =
      committed_lem (Effect digest st) (fail_translation digest e st) st stays (λ r b h.
        delivered (as_body failed e) _ r b (fails e.session_id e.payload)
          (fail_translation-ingest digest e st b r h))
  perform-Effect (recover message run session abandoned evidence) st l =
      committed_lem (Effect digest st)
        (reconcile_abandoned_producer digest message run session abandoned evidence st) st stays
        (λ r b h. elim (reconcile_cases digest message run session abandoned evidence st b r l h) [
          | inl same ↦ subst (Effect digest st) same stays
          | inr (e, s, p, g) ↦ delivered e _ r b (reconciles s abandoned p) g
        ])
