-- ===== src/Core/Operations/Texts.antt =====
-- A text that was recorded stays as it was recorded.
use forum_agent.Shared.{
  ℕ, ◌≡◌, Bool, true, false, Option, none, some, List, [], ◌∷◌, ok, arith, ap, sym, inl, inr,
  Bool-cases, any, find-any,
}
use forum_agent.Text.{Text}
use forum_agent.Contracts.{Uuid, Revision}
use forum_agent.Contracts.Session.{interrupted}
use forum_agent.Contracts.Manifest.{TrackSeal}
use forum_agent.Core.{Stored}
use forum_agent.Core.Tables.{Body, TranscriptRecord, Store}
use forum_agent.Core.Ingest.{ingest, Receipt}
use forum_agent.Core.Ingest.Log.{ingest_cases, register_event_found, append_outbox_row}
use forum_agent.Core.Session.{save_history, mark_incomplete, same_state}
use forum_agent.Core.Session.Frame.{save_history_sessions, transition_work_cases}
use forum_agent.Core.Seal.Frame.{stop_work_cases, seal_work_cases, producer_work_cases}
use forum_agent.Core.Seal.{refresh_integrity}
use forum_agent.Core.Capture.Frame.{capture_work_cases}
use forum_agent.Core.Reconcile.Frame.{insert_reconciliation_shape}
use forum_agent.Core.Revision.{insert_revision, revision_of, is_revision}
use forum_agent.Core.Aside.Translations.{
  request_work-Quiet, finish_work-Quiet, fail_work-Quiet, invalidate_source_translations-Quiet,
}
use forum_agent.Core.Aside.Texts.{insert_coverage-Quiet, invalidate_analysis_source-Quiet}
use forum_agent.Core.Transcript.Frame.{supersede-Quiet, final_work_cases, revision_work_cases}
use forum_agent.Core.Gap.Frame.{gap_work_cases}
use forum_agent.Core.Direction.Frame.{direction_work_cases, turned}
use forum_agent.Core.Operations.{Operation, perform, run}
use forum_agent.Core.Operations.Effects.{
  Task, transitions, captures, stops, produces, seals, transcribes, revises, misses, redirects,
  requests, finishes, fails, reconciles, Effect, stays, opened, tracked, delivered, perform-Effect,
}
use forum_agent.Core.Operations.Consistent.{IsConsistent, perform-IsConsistent}
use forum_agent.Contracts.Translation.{DirectionChanged, DirectionBoundary}

module _ (id : Uuid) (n : Revision) (r : TranscriptRecord) where
  -- The store has the record as the revision of the segment.
  abbrev Recorded : Store → Type 0
  Recorded st = revision_of id n st ≡ some r

  same-Recorded :
      (a b : Store) → b.segment_revisions ≡ a.segment_revisions → Recorded a → Recorded b
  same-Recorded a b same h = rw same h

  insert_revision-Recorded :
      (x : TranscriptRecord) (a b : Store) → insert_revision x a ≡ ok b → Recorded a → Recorded b
  unfolding insert_revision
  insert_revision-Recorded x a b h p = elim (Bool-cases (is_revision id n x)) [
    | inr other ↦ ground arith
    | inl same ↦
        let key : x.payload.segment_id ≡ id = ground arith in
        let number : x.payload.revision ≡ n = ground arith in
        let there : any (is_revision id n) a.segment_revisions ≡ true =
          find-any (is_revision id n) a.segment_revisions r p in
        let clash : any (is_revision x.payload.segment_id x.payload.revision) a.segment_revisions
            ≡ true =
          rw (key, number) there in
        absurd (ground arith)
  ]

  saved-Recorded :
      (session : Uuid) (seq : ℕ) (a b : Store)
      → save_history session seq a ≡ ok b
      → Recorded a
      → Recorded b
  saved-Recorded session seq a b h p =
      let (rows, shape) = save_history_sessions session seq a b h in
      same-Recorded a b (ap (λ s. s.segment_revisions) shape) p

  refreshed-Recorded :
      (session : Uuid) (a : Store) → Recorded a → Recorded (refresh_integrity session a)
  unfolding refresh_integrity
  refreshed-Recorded session a p = p

  marked-Recorded :
      (m : Bool) (session : Uuid) (a : Store) → Recorded a → Recorded (mark_incomplete m session a)
  marked-Recorded true session a p = p
  marked-Recorded false session a p = p

  turned-Recorded :
      (session : Uuid) (p : DirectionChanged) (d : Option DirectionBoundary) (a : Store)
      → Recorded a
      → Recorded (turned session p d a)
  turned-Recorded session p (some d) a q = q
  turned-Recorded session p none a q = q

  Task-Recorded :
      {work : ℕ → Store → Stored Store}
      → Task work
      → (k : ℕ) (a b : Store) → work k a ≡ ok b
      → Recorded a
      → Recorded b
  Task-Recorded (transitions s p) k a b h q =
      saved-Recorded s k _ b (transition_work_cases s p k a b h).saved
        (marked-Recorded (same_state p.next_state interrupted) s _ q)
  Task-Recorded (captures s p) k a b h q =
      saved-Recorded s k _ b (capture_work_cases s p k a b h).saved (refreshed-Recorded s _ q)
  Task-Recorded (stops s p) k a b h q =
      saved-Recorded s k _ b (stop_work_cases s p k a b h).saved (refreshed-Recorded s _ q)
  Task-Recorded (produces s p) k a b h q =
      same-Recorded a b (ap (λ x. x.segment_revisions) (producer_work_cases s p k a b h).shape) q
  Task-Recorded (seals s p) k a b h q =
      saved-Recorded s k _ b (seal_work_cases s p k a b h).saved (refreshed-Recorded s _ q)
  Task-Recorded (transcribes s p) k a b h q =
      let w = final_work_cases s p k a b h in
      let x =
        insert_revision-Recorded _ w.superseding w.written w.inserted
          (same-Recorded a w.superseding (supersede-Quiet s p k a _ _ w.superseded).texts q) in
      let y =
        same-Recorded w.written w.invalidating
          (invalidate_analysis_source-Quiet _ _ _ w.invalidated).texts x in
      saved-Recorded s k _ b w.saved (
        refreshed-Recorded s _
          (same-Recorded w.invalidating w.covering (insert_coverage-Quiet _ _ _ w.covered).texts y))
  Task-Recorded (revises s p) k a b h q =
      let w = revision_work_cases s p k a b h in
      let x = insert_revision-Recorded _ a w.written w.inserted q in
      let y =
        same-Recorded w.written w.invalidating
          (invalidate_analysis_source-Quiet _ _ _ w.invalidated).texts x in
      let z =
        same-Recorded w.invalidating w.releasing
          (invalidate_source_translations-Quiet _ _ _ _ _ _ w.released).texts y in
      saved-Recorded s k _ b w.saved (
        refreshed-Recorded s _
          (same-Recorded w.releasing w.covering (insert_coverage-Quiet _ _ _ w.covered).texts z))
  Task-Recorded (misses s p) k a b h q =
      let w = gap_work_cases s p k a b h in
      saved-Recorded s k _ b w.saved (same-Recorded a w.before w.quiet.texts q)
  Task-Recorded (redirects s p) k a b h q =
      let w = direction_work_cases s p k a b h in
      saved-Recorded s k w.before b w.saved (
        same-Recorded (turned s p p.boundary a) w.before w.quiet.texts
          (turned-Recorded s p p.boundary a q))
  Task-Recorded (requests s p) k a b h q =
      same-Recorded a b (request_work-Quiet s p k a b h).texts q
  Task-Recorded (finishes s p) k a b h q = same-Recorded a b (finish_work-Quiet s p k a b h).texts q
  Task-Recorded (fails s p) k a b h q = same-Recorded a b (fail_work-Quiet s p k a b h).texts q
  Task-Recorded (reconciles s x p) k a b h q =
      let (row, shape) = insert_reconciliation_shape s x p k a b h in
      same-Recorded a b (ap (λ y. y.segment_revisions) (sym shape)) q

  module _ (digest : Body → Text) where
    delivered-Recorded :
        (e : Body) (work : ℕ → Store → Stored Store) (receipt : Receipt) (a b : Store)
        → Task work
        → ingest digest e work a ≡ ok (receipt, b)
        → Recorded a
        → Recorded b
    delivered-Recorded e work receipt a b t h q = elim (ingest_cases digest e work a b receipt h) [
      | inl (dup, found) ↦
          let (row, there, same, seq, st) = register_event_found digest e a b receipt found dup in
          same-Recorded a b (ap (λ s. s.segment_revisions) (sym st)) q
      | inr (new, i) ↦
          let shape = append_outbox_row e receipt i.after b i.appended in
          let first =
            same-Recorded a i.before (ap (λ s. s.segment_revisions) i.registered.store) q in
          same-Recorded i.after b (ap (λ s. s.segment_revisions) shape)
            (Task-Recorded t receipt.store_seq i.before i.after i.worked first)
    ]

    Effect-Recorded : (a b : Store) → Effect digest a b → Recorded a → Recorded b
    Effect-Recorded a _ stays q = q
    Effect-Recorded a _ (opened spec b new u made) q = same-Recorded a b u.texts q
    Effect-Recorded a _ (tracked tracks) q = q
    Effect-Recorded a _ (delivered e work receipt b t h) q =
        delivered-Recorded e work receipt a b t h q

    -- A revision of a segment, once recorded, is what every run of operations leaves recorded under
    -- its number: no correction, result or other operation changes it. The store is consistent.
    pub recorded_for_good :
        (manifest : List TrackSeal → Text) (ops : List Operation) (st : Store)
        → IsConsistent st
        → revision_of id n st ≡ some r
        → revision_of id n (run manifest digest ops st) ≡ some r
    unfolding run
    recorded_for_good manifest [] st i q = q
    recorded_for_good manifest (op ∷ ops) st i q =
        recorded_for_good manifest ops (perform manifest digest op st)
          (perform-IsConsistent manifest digest op st i)
          (Effect-Recorded st _ (perform-Effect manifest digest op st i.log) q)
