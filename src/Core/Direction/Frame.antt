-- ===== src/Core/Direction/Frame.antt =====
-- What a change of direction went through, and what it leaves alone.
use forum_agent.Shared.{
  ℕ, ◌≡◌, refl, true, Option, none, some, map, keep, ok, ensure, ◌==◌, arith, >>=-inversion,
  >>-inversion,
}
use forum_agent.Contracts.{Uuid}
use forum_agent.Contracts.Translation.{DirectionChanged, DirectionBoundary}
use forum_agent.Core.{late_result}
use forum_agent.Core.Tables.{SessionStatus, Store}
use forum_agent.Core.Ingest.Log.{Keeps, Keeps-trans, Work}
use forum_agent.Core.Session.{load_session_status, update_session, save_history}
use forum_agent.Core.Session.Frame.{update_session-Keeps, save_history-Keeps}
use forum_agent.Core.Aside.{Quiet, Quiet-Aside, Quiet-trans, Aside-Keeps}
use forum_agent.Core.Aside.Translations.{
  apply_direction_boundary-Quiet, cover_all-Quiet, save_histories-Quiet,
}
use forum_agent.Core.Translation.{save_histories}
use forum_agent.Core.Direction.{
  apply_direction_boundary, turn_session, cover_all, is_live, settle_direction, direction_work,
}

-- `UPDATE sessions SET direction_epoch=?1,targets_json=?2`.
abbrev pub set_direction : Uuid → DirectionChanged → Store → Store
set_direction session p st =
    update_session session
      (λ r. record r { direction_epoch = p.direction_epoch; targets = p.target_languages }) st

-- `UPDATE sessions SET retroactive_epoch=?1,retroactive_targets_json=?2`.
abbrev pub set_retroactive : Uuid → DirectionChanged → Store → Store
set_retroactive session p st =
    update_session session
      (λ r. record r {
        retroactive_epoch = p.direction_epoch;
        retroactive_targets = some p.target_languages;
      })
      st

turn_session-Quiet :
    (session : Uuid) (p : DirectionChanged) (seq : ℕ) (a : Store)
    → Quiet (set_retroactive session p a) (turn_session session p seq a)
unfolding turn_session
turn_session-Quiet session p seq a = record {
  log = refl;
  queue = refl;
  counter = refl;
  sessions = refl;
  seals = refl;
  recovered = refl;
  segments = refl;
  texts = refl;
}

-- The sessions that a change leaves before it writes their history.
abbrev pub turned : Uuid → DirectionChanged → Option DirectionBoundary → Store → Store
turned session p (some b) st = set_direction session p st
turned session p none st = set_retroactive session p (set_direction session p st)

pub record Redirected (session : Uuid) (p : DirectionChanged) (seq : ℕ) (a b : Store) : Type 0 where
  pub status : SessionStatus
  pub found : load_session_status session a ≡ ok status
  pub expected : (status.direction_epoch == p.expected_epoch) ≡ true
  pub before : Store
  pub quiet : Quiet (turned session p p.boundary a) before
  pub saved : save_history session seq before ≡ ok b

settle_direction_cases :
    (session : Uuid) (p : DirectionChanged) (seq : ℕ) (a b : Store) (d : Option DirectionBoundary)
    → settle_direction session p seq (set_direction session p a) d ≡ ok b
    → (before : Store) × Quiet (turned session p d a) before
      × (save_history session seq before ≡ ok b)
unfolding settle_direction
settle_direction_cases session p seq a b (some d) h =
    let st = set_direction session p a in
    let (st1, applied, h1) = >>=-inversion (apply_direction_boundary session p d seq st) _ h in
    (st1, apply_direction_boundary-Quiet session p d seq st st1 applied, h1)
settle_direction_cases session p seq a b none h =
    let st = set_direction session p a in
    let st1 = turn_session session p seq st in
    let (st2, covered, h1) =
      >>=-inversion (cover_all p (keep (is_live session st1) st1.segment_revisions) st1) _ h in
    let (st3, told, h2) =
      >>=-inversion
        (save_histories session
          (map (λ t. t.id) (keep (λ t. t.session_id == session) st2.translations)) seq st2)
        _ h1 in
    (
      st3,
      Quiet-trans (turn_session-Quiet session p seq st) (
          Quiet-trans (cover_all-Quiet p _ st1 st2 covered)
            (save_histories-Quiet session _ seq st2 st3 told)),
      h2,
    )

pub direction_work_cases :
    (session : Uuid) (p : DirectionChanged) (seq : ℕ) (a b : Store)
    → direction_work session p seq a ≡ ok b
    → Redirected session p seq a b
unfolding direction_work
direction_work_cases session p seq a b h =
    let (status, found, h1) = >>=-inversion (load_session_status session a) _ h in
    let (expected, h2) =
      >>-inversion (ensure (status.direction_epoch == p.expected_epoch) late_result) _ h1 in
    let (before, quiet, saved) = settle_direction_cases session p seq a b p.boundary h2 in
    record {
      status = status;
      found = found;
      expected = ground arith;
      before = before;
      quiet = quiet;
      saved = saved;
    }

turned-Keeps :
    (session : Uuid) (p : DirectionChanged) (d : Option DirectionBoundary) (a : Store)
    → Keeps a (turned session p d a)
turned-Keeps session p (some d) a = update_session-Keeps session _ a (λ r. refl)
turned-Keeps session p none a =
    Keeps-trans (update_session-Keeps session _ a (λ r. refl))
      (update_session-Keeps session _ (set_direction session p a) (λ r. refl))

pub direction_work-Work : (session : Uuid) (p : DirectionChanged) → Work (direction_work session p)
direction_work-Work session p seq a b h =
    let w = direction_work_cases session p seq a b h in
    Keeps-trans (turned-Keeps session p p.boundary a)
      (Keeps-trans (Aside-Keeps (Quiet-Aside w.quiet)) (save_history-Keeps session seq _ b w.saved))
