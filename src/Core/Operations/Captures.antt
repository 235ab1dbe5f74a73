-- ===== src/Core/Operations/Captures.antt =====
-- The captures of a session whose capture was stopped are the captures that it keeps.
use forum_agent.Shared.{
  ℕ, ◌≡◌, refl, Bool, true, false, List, [], ◌∷◌, ok, arith, ap, ◌∙◌, sym, subst, All, inl, inr,
  is_some, ◌==◌, keep, Bool-cases, >>=-inversion, map, Option, none, some,
}
use forum_agent.Text.{Text}
use forum_agent.Contracts.{Uuid}
use forum_agent.Contracts.Session.{interrupted}
use forum_agent.Contracts.Manifest.{TrackSeal}
use forum_agent.Core.{Stored}
use forum_agent.Core.Tables.{Body, SessionRow, SessionStatus, SegmentRow, Store}
use forum_agent.Core.Ingest.{ingest, Receipt}
use forum_agent.Core.Ingest.Log.{ingest_cases, register_event_found, append_outbox_row}
use forum_agent.Core.Session.{
  load_session_status, require_capture_state, save_history, mark_incomplete, same_state,
}
use forum_agent.Core.Session.Frame.{save_history_sessions, transition_work_cases}
use forum_agent.Core.Seal.{refresh_integrity}
use forum_agent.Core.Seal.Frame.{stop_work_cases, seal_work_cases, producer_work_cases}
use forum_agent.Core.Capture.Frame.{capture_work_cases}
use forum_agent.Core.Reconcile.Frame.{insert_reconciliation_shape}
use forum_agent.Core.Lifecycle.{Only, find-Only, find_All, load_session_status_row}
use forum_agent.Core.Operations.{Operation, perform, run}
use forum_agent.Core.Operations.Effects.{
  Task, transitions, captures, stops, produces, seals, reconciles, Effect, stays, opened, tracked,
  delivered, perform-Effect, transcribes, revises, misses, redirects, requests, finishes, fails,
}
use forum_agent.Core.Operations.Consistent.{IsKept, IsConsistent, Effect-All, perform-IsConsistent}
use forum_agent.Core.Operations.Completed.{Present, Effect-Present, find_hit, new_other}
use forum_agent.Contracts.Translation.{DirectionChanged, DirectionBoundary}
use forum_agent.Core.Aside.{Aside, Quiet-Aside, as_captured}
use forum_agent.Core.Aside.Translations.{request_work-Quiet, finish_work-Quiet, fail_work-Quiet}
use forum_agent.Core.Transcript.Frame.{Settled, final_work-Settled, revision_work-Settled}
use forum_agent.Core.Gap.Frame.{gap_work_cases}
use forum_agent.Core.Direction.Frame.{turned, direction_work_cases}

-- The segments of a session, as they were captured.
abbrev pub segments_in : Uuid → List SegmentRow → List SegmentRow
segments_in k rows = keep (λ s. s.session_id == k) (map as_captured rows)

Aside-segments :
    (k : Uuid) (a b : Store) → Aside a b → segments_in k b.segments ≡ segments_in k a.segments
Aside-segments k a b s = ap (keep (λ r. r.session_id == k)) s.segments

-- The capture of the session was stopped.
abbrev Stopped : Uuid → SessionRow → Type 0
Stopped k r = (r.spec.session_id == k) ≡ true → is_some r.capture_stopped_seq ≡ true

Stopped-IsKept : (k : Uuid) → IsKept (Stopped k)
Stopped-IsKept k = record {
  blind = record {
    numbered = λ r n f. f;
    marked = λ r b f. f;
    directed = λ r n t f. f;
    turned = λ r n t f. f;
  };
  moved = λ r t allowed f. f;
  stopped = λ r n running may f hit. refl;
  sealed = λ r n closed unsealed may f. f;
}

save_history_segments :
    (id : Uuid) (seq : ℕ) (a b : Store) → save_history id seq a ≡ ok b → b.segments ≡ a.segments
save_history_segments id seq a b h =
    let (rows, shape) = save_history_sessions id seq a b h in ap (λ s. s.segments) shape

refresh_integrity_segments :
    (id : Uuid) (st : Store) → (refresh_integrity id st).segments ≡ st.segments
unfolding refresh_integrity
refresh_integrity_segments id st = refl

mark_incomplete_segments :
    (m : Bool) (id : Uuid) (st : Store) → (mark_incomplete m id st).segments ≡ st.segments
mark_incomplete_segments true id st = refl
mark_incomplete_segments false id st = refl

Settled-segments :
    (k id : Uuid) (n : ℕ) (a b : Store)
    → Settled id n a b
    → segments_in k b.segments ≡ segments_in k a.segments
Settled-segments k id n a b s =
    ap (segments_in k) (save_history_segments id n _ b s.saved ∙ refresh_integrity_segments id _)
    ∙ Aside-segments k a s.before s.aside

turned_segments :
    (id : Uuid) (p : DirectionChanged) (d : Option DirectionBoundary) (a : Store)
    → (turned id p d a).segments ≡ a.segments
turned_segments id p (some d) a = refl
turned_segments id p none a = refl

-- A session that takes captures was not stopped.
other_session :
    (k id : Uuid) (a : Store)
    → All (Stopped k) a.sessions
    → require_capture_state id a ≡ ok tt
    → (id == k) ≡ false
unfolding require_capture_state
other_session k id a all h =
    let (status, found, h1) = >>=-inversion (load_session_status id a) _ h in
    let (r, there, read) = load_session_status_row id a status found in
    let running : is_some r.capture_stopped_seq ≡ false =
      ap (λ s. s.capture_stopped) read ∙ ground arith in
    elim (Bool-cases (id == k)) [
      | inr other ↦ other
      | inl same ↦
          let hit = find_hit id r a.sessions there in
          let stopped = find_All (Stopped k) id r a.sessions all there (ground arith) in
          absurd (ground arith)
    ]

Task-segments :
    (k : Uuid) {work : ℕ → Store → Stored Store}
    → Task work
    → (n : ℕ) (a b : Store) → All (Stopped k) a.sessions
    → work n a ≡ ok b
    → segments_in k b.segments ≡ segments_in k a.segments
Task-segments k (transitions id p) n a b all h =
    let t = transition_work_cases id p n a b h in
    ap (segments_in k) (
      save_history_segments id n _ b t.saved
      ∙ mark_incomplete_segments (same_state p.next_state interrupted) id _)
Task-segments k (captures id p) n a b all h =
    let s = capture_work_cases id p n a b h in
    let other = other_session k id a all s.running in
    ap (segments_in k) (save_history_segments id n _ b s.saved ∙ refresh_integrity_segments id _)
    ∙ ground arith
Task-segments k (stops id p) n a b all h =
    let s = stop_work_cases id p n a b h in
    ap (segments_in k) (save_history_segments id n _ b s.saved ∙ refresh_integrity_segments id _)
Task-segments k (produces id p) n a b all h =
    ap (λ x. segments_in k x.segments) (producer_work_cases id p n a b h).shape
Task-segments k (seals id p) n a b all h =
    let s = seal_work_cases id p n a b h in
    ap (segments_in k) (save_history_segments id n _ b s.saved ∙ refresh_integrity_segments id _)
Task-segments k (transcribes id p) n a b all h =
    Settled-segments k id n a b (final_work-Settled id p n a b h)
Task-segments k (revises id p) n a b all h =
    Settled-segments k id n a b (revision_work-Settled id p n a b h)
Task-segments k (misses id p) n a b all h =
    let w = gap_work_cases id p n a b h in
    ap (segments_in k) (save_history_segments id n _ b w.saved)
    ∙ Aside-segments k a w.before (Quiet-Aside w.quiet)
Task-segments k (redirects id p) n a b all h =
    let w = direction_work_cases id p n a b h in
    ap (segments_in k) (save_history_segments id n w.before b w.saved)
    ∙ Aside-segments k (turned id p p.boundary a) w.before (Quiet-Aside w.quiet)
    ∙ ap (segments_in k) (turned_segments id p p.boundary a)
Task-segments k (requests id p) n a b all h =
    Aside-segments k a b (Quiet-Aside (request_work-Quiet id p n a b h))
Task-segments k (finishes id p) n a b all h =
    Aside-segments k a b (Quiet-Aside (finish_work-Quiet id p n a b h))
Task-segments k (fails id p) n a b all h =
    Aside-segments k a b (Quiet-Aside (fail_work-Quiet id p n a b h))
Task-segments k (reconciles id r p) n a b all h =
    let (row, shape) = insert_reconciliation_shape id r p n a b h in
    ap (λ x. segments_in k x.segments) (sym shape)

All-Stopped :
    (k : Uuid) (r : SessionRow) (rows : List SessionRow)
    → is_some r.capture_stopped_seq ≡ true
    → Only k r rows
    → All (Stopped k) rows
All-Stopped k r [] h o = tt
All-Stopped k r (x ∷ rows) h o =
    ((λ hit. ap (λ s. is_some s.capture_stopped_seq) (o.0 hit) ∙ h), All-Stopped k r rows h o.1)

module _ (manifest : List TrackSeal → Text) (digest : Body → Text) where
  delivered_segments :
      (k : Uuid) (e : Body) (work : ℕ → Store → Stored Store) (receipt : Receipt) (a b : Store)
      → Task work
      → All (Stopped k) a.sessions
      → ingest digest e work a ≡ ok (receipt, b)
      → segments_in k b.segments ≡ segments_in k a.segments
  delivered_segments k e work receipt a b t all h =
      elim (ingest_cases digest e work a b receipt h) [
        | inl (dup, found) ↦
            let (row, there, same, seq, st) = register_event_found digest e a b receipt found dup in
            ap (λ s. segments_in k s.segments) (sym st)
        | inr (new, i) ↦
            let shape = append_outbox_row e receipt i.after b i.appended in
            let g = i.registered.store in
            ap (λ s. segments_in k s.segments) shape
            ∙ Task-segments k t receipt.store_seq i.before i.after
                (subst (All (Stopped k)) (sym (ap (λ s. s.sessions) g)) all) i.worked
            ∙ ap (λ s. segments_in k s.segments) g
      ]

  Effect-segments :
      (k : Uuid) (a b : Store)
      → Effect digest a b
      → All (Stopped k) a.sessions
      → segments_in k b.segments ≡ segments_in k a.segments
  Effect-segments k a _ stays all = refl
  Effect-segments k a _ (opened spec b new u made) all = ap (segments_in k) u.captured
  Effect-segments k a _ (tracked tracks) all = refl
  Effect-segments k a _ (delivered e work receipt b t h) all =
      delivered_segments k e work receipt a b t all h

  run-segments :
      (k : Uuid) (ops : List Operation) (st : Store)
      → IsConsistent st
      → Present k st.sessions
      → All (Stopped k) st.sessions
      → segments_in k (run manifest digest ops st).segments ≡ segments_in k st.segments
  unfolding run
  run-segments k [] st i p all = refl
  run-segments k (op ∷ ops) st i p all =
      let next = perform manifest digest op st in
      let effect = perform-Effect manifest digest op st i.log in
      let kept =
        Effect-All digest (Stopped k) st next (Stopped-IsKept k)
          (λ spec new hit. absurd (new_other k st spec p new hit)) effect
          (i.catalog.distinct, all) in
      run-segments k ops next (perform-IsConsistent manifest digest op st i)
        (Effect-Present manifest digest k st next effect p) kept.1
      ∙ Effect-segments k st next effect all

  -- Once the capture of a session was stopped, no run of operations adds a segment to the session
  -- or takes one from it, or changes one in anything but its current revision. The store is
  -- consistent.
  pub stopped_segments :
      (k : Uuid) (ops : List Operation) (st : Store) (status : SessionStatus)
      → IsConsistent st
      → load_session_status k st ≡ ok status
      → status.capture_stopped ≡ true
      → segments_in k (run manifest digest ops st).segments ≡ segments_in k st.segments
  stopped_segments k ops st status i h c =
      let (r, found, read) = load_session_status_row k st status h in
      run-segments k ops st i (ap is_some found) (
        All-Stopped k r st.sessions (ap (λ s. s.capture_stopped) read ∙ c)
          (find-Only k r st.sessions i.catalog.distinct found))
