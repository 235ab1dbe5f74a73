-- ===== src/Core/Direction/Epochs.antt =====
-- The epochs of a session's directions count the changes.
use forum_agent.Shared.{
  ℕ, ◌+◌, ◌≡◌, refl, true, false, Option, none, some, ok, ensure, find, ◌==◌, ◌∙◌, ap, sym, arith,
  inl, inr, find-true, >>-inversion,
}
use forum_agent.Text.{Text}
use forum_agent.Contracts.{Uuid, invalid}
use forum_agent.Contracts.Event.{Event, validate_envelope, direction_changed}
use forum_agent.Contracts.Translation.{DirectionChanged, DirectionBoundary}
use forum_agent.Core.{validated}
use forum_agent.Core.Tables.{Body, SessionRow, SessionStatus, Store, direction}
use forum_agent.Core.Tables.Rows.{find-update_where, changed_if}
use forum_agent.Core.Ingest.{Receipt, session_row, as_body}
use forum_agent.Core.Ingest.Log.{ingest_cases, append_outbox_row}
use forum_agent.Core.Session.{load_session_status, status_of, update_session}
use forum_agent.Core.Session.Frame.{save_history_sessions}
use forum_agent.Core.Lifecycle.{load_session_status_row}
use forum_agent.Core.Direction.{next_epoch, direction_work, change_direction}
use forum_agent.Core.Direction.Frame.{turned, set_direction, direction_work_cases}
use forum_agent.Core.Operations.Deliveries.{change_direction-ingest}

-- The row of a session after an update of it.
updated_row :
    (id : Uuid) (change : SessionRow → SessionRow) (st : Store) (r : SessionRow)
    → ((x : SessionRow) → (change x).spec ≡ x.spec)
    → session_row id st ≡ some r
    → session_row id (update_session id change st) ≡ some (change r)
updated_row id change st r same there =
    let hit = find-true (λ s. s.spec.session_id == id) st.sessions r there in
    find-update_where (λ s. s.spec.session_id == id) (λ s. s.spec.session_id == id) change
      (λ x h. ap (λ s. s.session_id == id) (same x)) st.sessions
    ∙ ap (changed_if (λ s. s.spec.session_id == id) change) there
    ∙ rw hit

next_epoch_value : (expected epoch : ℕ) → next_epoch expected epoch ≡ true → epoch ≡ expected + 1
unfolding next_epoch
next_epoch_value expected epoch h = ground arith

-- The row as a change of direction leaves it.
abbrev redirected : DirectionChanged → Option DirectionBoundary → SessionRow → SessionRow
redirected p (some d) r = record r {
  direction_epoch = p.direction_epoch;
  targets = p.target_languages;
}
redirected p none r = record r {
  direction_epoch = p.direction_epoch;
  targets = p.target_languages;
  retroactive_epoch = p.direction_epoch;
  retroactive_targets = some p.target_languages;
}

turned_row :
    (id : Uuid) (p : DirectionChanged) (d : Option DirectionBoundary) (st : Store) (r : SessionRow)
    → session_row id st ≡ some r
    → session_row id (turned id p d st) ≡ some (redirected p d r)
turned_row id p (some d) st r there = updated_row id _ st r (λ x. refl) there
turned_row id p none st r there =
    updated_row id _ (set_direction id p st) _ (λ x. refl) (updated_row id _ st r (λ x. refl) there)

same_else :
    (p : DirectionChanged) (d : Option DirectionBoundary) (r : SessionRow) (n : ℕ)
    → status_of (record (redirected p d r) { state_seq = n }) ≡ record (status_of r) {
      direction_epoch = p.direction_epoch;
      target_languages = p.target_languages;
      state_seq = n;
    }
same_else p (some d) r n = refl
same_else p none r n = refl

next_of :
    (digest : Body → Text) (e : Event DirectionChanged) (a b : Store) (receipt : Receipt)
    → change_direction digest e a ≡ ok (receipt, b)
    → e.payload.direction_epoch ≡ e.payload.expected_epoch + 1
unfolding change_direction
next_of digest e a b receipt h =
    let p = e.payload in
    let (enveloped, h1) = >>-inversion (validated (validate_envelope direction_changed e)) _ h in
    let (next, h2) =
      >>-inversion
        (validated
          (ensure (next_epoch p.expected_epoch p.direction_epoch) (invalid "direction_epoch")))
        _ h1 in
    next_epoch_value p.expected_epoch p.direction_epoch (ground arith)

-- The row after a change and its history.
direction_row :
    (id : Uuid) (p : DirectionChanged) (n : ℕ) (a b : Store) (r : SessionRow)
    → direction_work id p n a ≡ ok b
    → session_row id a ≡ some r
    → session_row id b ≡ some (record (redirected p p.boundary r) { state_seq = n })
direction_row id p n a b r h there =
    let w = direction_work_cases id p n a b h in
    let (rows, shape) = save_history_sessions id n w.before b w.saved in
    let search = find (λ (s : SessionRow). s.spec.session_id == id) in
    let before : session_row id w.before ≡ some (redirected p p.boundary r) =
      ap search w.quiet.sessions ∙ turned_row id p p.boundary a r there in
    ap (λ s. search s.sessions) shape ∙ updated_row id _ w.before _ (λ x. refl) before

-- A change of direction that is taken for the first time, with or without a boundary, raises the
-- epoch of the session by exactly one and gives it the new targets; its state, its seals and
-- whether it is incomplete stay as they were.
pub direction_counted :
    (digest : Body → Text) (e : Event DirectionChanged) (a b : Store) (receipt : Receipt)
    → change_direction digest e a ≡ ok (receipt, b)
    → receipt.duplicate ≡ false
    → (s : SessionStatus) × (load_session_status e.session_id a ≡ ok s)
      × (load_session_status e.session_id b
          ≡ ok (record s {
            direction_epoch = s.direction_epoch + 1;
            target_languages = e.payload.target_languages;
            state_seq = receipt.store_seq;
          }))
unfolding load_session_status
direction_counted digest e a b receipt h new =
    let p = e.payload in
    let id = e.session_id in
    let g = change_direction-ingest digest e a b receipt h in
    elim (ingest_cases digest (as_body direction e) (direction_work id p) a b receipt g) [
      | inl (dup, found) ↦ absurd (ground arith)
      | inr (fresh, i) ↦
          let n = receipt.store_seq in
          let w = direction_work_cases id p n i.before i.after i.worked in
          let (r, there, read) = load_session_status_row id i.before w.status w.found in
          let search = find (λ (s : SessionRow). s.spec.session_id == id) in
          let first : session_row id a ≡ some r =
            sym (ap (λ s. search s.sessions) i.registered.store) ∙ there in
          let last : session_row id b
              ≡ some (record (redirected p p.boundary r) { state_seq = n }) =
            ap (λ s. search s.sessions)
              (append_outbox_row (as_body direction e) receipt i.after b i.appended)
            ∙ direction_row id p n i.before i.after r i.worked there in
          let counted : p.direction_epoch ≡ r.direction_epoch + 1 =
            ground (
              arith,
              ap (λ s. s.direction_epoch) read,
              w.expected,
              next_of digest e a b receipt h,
            ) in
          (
            status_of r,
            rw first,
            rw last (
                ap ok (
                  same_else p p.boundary r n
                  ∙ ap
                      (λ k. record (status_of r) {
                        direction_epoch = k;
                        target_languages = p.target_languages;
                        state_seq = n;
                      })
                      counted)),
          )
    ]
