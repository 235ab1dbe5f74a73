-- ===== src/Core/Gap/Frame.antt =====
-- What a gap that was registered went through, and what it leaves alone.
use forum_agent.Shared.{ℕ, ◌≡◌, refl, true, ok, List, ◌==◌, >>=-inversion, >>-inversion, keep, any}
use forum_agent.Contracts.{Uuid}
use forum_agent.Contracts.Session.{AudioGap}
use forum_agent.Core.Tables.{GapRow, Store, insert_new}
use forum_agent.Core.Ingest.Log.{Keeps-trans, Work}
use forum_agent.Core.Session.{require_capture_state, update_session, save_history}
use forum_agent.Core.Session.Frame.{update_session-Keeps, save_history-Keeps}
use forum_agent.Core.Capture.{track_of, own_track}
use forum_agent.Core.Aside.{Quiet, Quiet-trans, Quiet-Aside, Aside-Keeps}
use forum_agent.Core.Aside.Texts.{invalidate_artifacts-Quiet}
use forum_agent.Core.Artifact.{invalidate_artifacts}
use forum_agent.Core.Gap.{refuted_ids, invalidate_analysis_gap, gap_work}

invalidate_analysis_gap-Quiet :
    (session : Uuid) (a b : Store) → invalidate_analysis_gap session a ≡ ok b → Quiet a b
unfolding invalidate_analysis_gap
invalidate_analysis_gap-Quiet session a b h =
    let rows = keep (λ r. any (λ id. id == session) r.session_ids) a.analysis_artifacts in
    let (ids, found, h1) =
      >>=-inversion (refuted_ids a rows) (λ ids. invalidate_artifacts ids a) h in
    invalidate_artifacts-Quiet ids a b h1

pub record Missed (session : Uuid) (g : AudioGap) (seq : ℕ) (a b : Store) : Type 0 where
  pub running : require_capture_state session a ≡ ok tt
  pub gaps : List GapRow
  pub put :
      insert_new
        (λ r. r.gap.gap_id == g.gap_id)
        (record { session_id = session; gap = g; created_seq = seq })
        a.audio_gaps
      ≡ ok gaps
  pub before : Store
  pub invalidated : invalidate_analysis_gap session (record a { audio_gaps = gaps }) ≡ ok before
  pub quiet : Quiet a before
  pub saved :
      save_history session seq (update_session session (λ r. record r { incomplete = true }) before)
      ≡ ok b

pub gap_work_cases :
    (session : Uuid) (g : AudioGap) (seq : ℕ) (a b : Store)
    → gap_work session g seq a ≡ ok b
    → Missed session g seq a b
unfolding gap_work
gap_work_cases session g seq a b h =
    let (own, h1) =
      >>-inversion (own_track session g.audio.sample_rate (track_of g.track_id a)) _ h in
    let (running, h2) = >>-inversion (require_capture_state session a) _ h1 in
    let (rows, put, h3) =
      >>=-inversion
        (insert_new (λ r. r.gap.gap_id == g.gap_id)
          (record { session_id = session; gap = g; created_seq = seq }) a.audio_gaps)
        _ h2 in
    let st : Store = record a { audio_gaps = rows } in
    let (st1, invalidated, h4) = >>=-inversion (invalidate_analysis_gap session st) _ h3 in
    let first : Quiet a st = record {
      log = refl;
      queue = refl;
      counter = refl;
      sessions = refl;
      seals = refl;
      recovered = refl;
      segments = refl;
      texts = refl;
    } in
    record {
      running = running;
      gaps = rows;
      put = put;
      before = st1;
      invalidated = invalidated;
      quiet = Quiet-trans first (invalidate_analysis_gap-Quiet session st st1 invalidated);
      saved = h4;
    }

pub gap_work-Work : (session : Uuid) (g : AudioGap) → Work (gap_work session g)
gap_work-Work session g seq a b h =
    let w = gap_work_cases session g seq a b h in
    Keeps-trans (Aside-Keeps (Quiet-Aside w.quiet)) (
      Keeps-trans (update_session-Keeps session _ w.before (λ r. refl))
        (save_history-Keeps session seq _ b w.saved))
