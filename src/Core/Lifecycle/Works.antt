-- ===== src/Core/Lifecycle/Works.antt =====
-- What the works of the operations make of a property of all sessions that does not look at the
-- sequence number of the state, at the mark of an incomplete session or at the directions.
use forum_agent.Shared.{
  ℕ, ◌≡◌, Bool, true, false, some, map, ok, ap, ◌∙◌, sym, subst, All, is_some, List, Option, none,
}
use forum_agent.Contracts.{Uuid}
use forum_agent.Contracts.Session.{
  SessionTransition, draining, completed, interrupted, permits, AudioGap,
}
use forum_agent.Contracts.Manifest.{CaptureStopped}
use forum_agent.Contracts.Transcript.{CaptureSegmentClosed}
use forum_agent.Core.Tables.{SessionRow, SessionStatus, Store, ProducerSeal, TranscriptSeal}
use forum_agent.Core.Session.{
  load_session_status, status_of, update_session, save_history, mark_incomplete, same_state,
  transition_work,
}
use forum_agent.Core.Session.Frame.{save_history_sessions, transition_work_cases}
use forum_agent.Core.Seal.{
  refresh_integrity, stop_work, seal_work, producer_work, may_stop, may_seal,
}
use forum_agent.Core.Seal.Frame.{stop_work_cases, seal_work_cases, producer_work_cases}
use forum_agent.Core.Capture.{capture_work, add_segment}
use forum_agent.Core.Capture.Frame.{capture_work_cases}
use forum_agent.Core.Lifecycle.{
  Distinct, find-Only, update_where-All, update_where-All_each, load_session_status_row,
}
use forum_agent.Text.{Text}
use forum_agent.Contracts.Translation.{DirectionChanged, DirectionBoundary}
use forum_agent.Core.Transcript.Frame.{Settled}
use forum_agent.Core.Gap.{gap_work}
use forum_agent.Core.Gap.Frame.{gap_work_cases}
use forum_agent.Core.Direction.{direction_work}
use forum_agent.Core.Direction.Frame.{turned, set_direction, direction_work_cases}

pub record IsBlind (P : SessionRow → Type 0) : Type 0 where
  pub numbered : (r : SessionRow) (n : ℕ) → P r → P (record r { state_seq = n })
  pub marked : (r : SessionRow) (b : Bool) → P r → P (record r { incomplete = b })
  pub directed :
      (r : SessionRow) (n : ℕ) (targets : List Text)
      → P r
      → P (record r { direction_epoch = n; targets = targets })
  pub turned :
      (r : SessionRow) (n : ℕ) (targets : Option (List Text))
      → P r
      → P (record r { retroactive_epoch = n; retroactive_targets = targets })

module _ (P : SessionRow → Type 0) (blind : IsBlind P) where
  pub save_history-All :
      (id : Uuid) (seq : ℕ) (a b : Store)
      → save_history id seq a ≡ ok b
      → All P a.sessions
      → All P b.sessions
  save_history-All id seq a b h all =
      let (rows, shape) = save_history_sessions id seq a b h in
      subst (All P) (sym (ap (λ s. s.sessions) shape)) (
        update_where-All_each P id (λ r. record r { state_seq = seq }) a.sessions
          (λ r. blind.numbered r seq) all)

  pub refresh_integrity-All :
      (id : Uuid) (st : Store) → All P st.sessions → All P (refresh_integrity id st).sessions
  unfolding refresh_integrity
  refresh_integrity-All id st all =
      update_where-All_each P id _ st.sessions (λ r. blind.marked r _) all

  mark_incomplete-All :
      (m : Bool) (id : Uuid) (st : Store)
      → All P st.sessions
      → All P (mark_incomplete m id st).sessions
  mark_incomplete-All true id st all =
      update_where-All_each P id (λ r. record r { incomplete = true }) st.sessions
        (λ r. blind.marked r true) all
  mark_incomplete-All false id st all = all

  -- An update of the one row whose status was read.
  update_session-All :
      (id : Uuid) (status : SessionStatus) (change : SessionRow → SessionRow) (st : Store)
      → Distinct (map (λ r. r.spec) st.sessions)
      → load_session_status id st ≡ ok status
      → ((r : SessionRow) → status_of r ≡ status → P r → P (change r))
      → All P st.sessions
      → All P (update_session id change st).sessions
  update_session-All id status change st d h f all =
      let (r, found, read) = load_session_status_row id st status h in
      update_where-All P id r change st.sessions (find-Only id r st.sessions d found) (f r read) all

  pub transition_work-All :
      (id : Uuid) (p : SessionTransition) (seq : ℕ) (a b : Store)
      → Distinct (map (λ r. r.spec) a.sessions)
      → ((r : SessionRow)
          → permits r.state p.next_state ≡ true
          → P r
          → P (record r { state = p.next_state }))
      → All P a.sessions
      → transition_work id p seq a ≡ ok b
      → All P b.sessions
  transition_work-All id p seq a b d f all h =
      let t = transition_work_cases id p seq a b h in
      let change : SessionRow → SessionRow = λ r. record r { state = p.next_state } in
      let st1 = update_session id change a in
      save_history-All id seq _ b t.saved (
        mark_incomplete-All (same_state p.next_state interrupted) id st1 (
          update_session-All id t.status change a d t.found
            (λ r read. f r (ap (λ s. permits s.state p.next_state) read ∙ t.permitted)) all))

  pub stop_work-All :
      (id : Uuid) (p : CaptureStopped) (seq : ℕ) (a b : Store)
      → Distinct (map (λ r. r.spec) a.sessions)
      → ((r : SessionRow)
          → is_some r.capture_stopped_seq ≡ false
          → may_stop r.state ≡ true
          → P r
          → P (record r { state = draining; capture_stopped_seq = some seq }))
      → All P a.sessions
      → stop_work id p seq a ≡ ok b
      → All P b.sessions
  stop_work-All id p seq a b d f all h =
      let s = stop_work_cases id p seq a b h in
      let change : SessionRow → SessionRow =
        λ r. record r { state = draining; capture_stopped_seq = some seq } in
      let st1 : Store = record a { capture_seals = s.seals } in
      save_history-All id seq _ b s.saved (
        refresh_integrity-All id (update_session id change st1) (
          update_session-All id s.status change a d s.found
            (λ r read.
              f r (ap (λ x. x.capture_stopped) read ∙ s.running)
                (ap (λ x. may_stop x.state) read ∙ s.stoppable))
            all))

  pub seal_work-All :
      (id : Uuid) (p : TranscriptSeal) (seq : ℕ) (a b : Store)
      → Distinct (map (λ r. r.spec) a.sessions)
      → ((r : SessionRow)
          → is_some r.capture_stopped_seq ≡ true
          → is_some r.sealed_seq ≡ false
          → may_seal r.state ≡ true
          → P r
          → P (record r { state = completed; sealed_seq = some seq }))
      → All P a.sessions
      → seal_work id p seq a ≡ ok b
      → All P b.sessions
  seal_work-All id p seq a b d f all h =
      let s = seal_work_cases id p seq a b h in
      let change : SessionRow → SessionRow =
        λ r. record r { state = completed; sealed_seq = some seq } in
      save_history-All id seq _ b s.saved (
        refresh_integrity-All id (update_session id change a) (
          update_session-All id s.status change a d s.found
            (λ r read.
              f r (ap (λ x. x.capture_stopped) read ∙ s.stopped)
                (ap (λ x. x.transcript_sealed) read ∙ s.unsealed)
                (ap (λ x. may_seal x.state) read ∙ s.sealable))
            all))

  pub producer_work-All :
      (id : Uuid) (p : ProducerSeal) (seq : ℕ) (a b : Store)
      → All P a.sessions
      → producer_work id p seq a ≡ ok b
      → All P b.sessions
  producer_work-All id p seq a b all h =
      let s = producer_work_cases id p seq a b h in
      subst (All P) (sym (ap (λ x. x.sessions) s.shape)) all

  pub capture_work-All :
      (id : Uuid) (p : CaptureSegmentClosed) (seq : ℕ) (a b : Store)
      → All P a.sessions
      → capture_work id p seq a ≡ ok b
      → All P b.sessions
  capture_work-All id p seq a b all h =
      let s = capture_work_cases id p seq a b h in
      save_history-All id seq _ b s.saved (
        refresh_integrity-All id (record (add_segment id p a) { capture_segments = s.captures })
          all)

  pub Settled-All :
      (session : Uuid) (seq : ℕ) (a b : Store)
      → Settled session seq a b
      → All P a.sessions
      → All P b.sessions
  Settled-All session seq a b s all =
      save_history-All session seq _ b s.saved
        (refresh_integrity-All session s.before (subst (All P) (sym s.aside.sessions) all))

  pub gap_work-All :
      (session : Uuid) (g : AudioGap) (seq : ℕ) (a b : Store)
      → gap_work session g seq a ≡ ok b
      → All P a.sessions
      → All P b.sessions
  gap_work-All session g seq a b h all =
      let w = gap_work_cases session g seq a b h in
      save_history-All session seq _ b w.saved
        (mark_incomplete-All true session w.before (subst (All P) (sym w.quiet.sessions) all))

  set_direction-All :
      (session : Uuid) (p : DirectionChanged) (a : Store)
      → All P a.sessions
      → All P (set_direction session p a).sessions
  set_direction-All session p a all =
      update_where-All_each P session _ a.sessions
        (λ r. blind.directed r p.direction_epoch p.target_languages) all

  turned-All :
      (session : Uuid) (p : DirectionChanged) (d : Option DirectionBoundary) (a : Store)
      → All P a.sessions
      → All P (turned session p d a).sessions
  turned-All session p (some d) a all = set_direction-All session p a all
  turned-All session p none a all =
      update_where-All_each P session _ (set_direction session p a).sessions
        (λ r. blind.turned r p.direction_epoch (some p.target_languages))
        (set_direction-All session p a all)

  pub direction_work-All :
      (session : Uuid) (p : DirectionChanged) (seq : ℕ) (a b : Store)
      → direction_work session p seq a ≡ ok b
      → All P a.sessions
      → All P b.sessions
  direction_work-All session p seq a b h all =
      let w = direction_work_cases session p seq a b h in
      save_history-All session seq _ b w.saved
        (subst (All P) (sym w.quiet.sessions) (turned-All session p p.boundary a all))
