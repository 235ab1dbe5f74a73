-- ===== src/Core/Capture/Frame.antt =====
-- What `register_capture` went through when it succeeded, and what it leaves alone.
use forum_agent.Shared.{
  ℕ, ◌≡◌, refl, false, not, List, ok, ensure, any, ◌==◌, >>=-inversion, >>-inversion, arith,
}
use forum_agent.Contracts.{Uuid}
use forum_agent.Contracts.Transcript.{CaptureSegmentClosed}
use forum_agent.Core.{entity_conflict}
use forum_agent.Core.Tables.{CaptureRow, Store, insert_new}
use forum_agent.Core.Ingest.Log.{Keeps, Keeps-trans, Work}
use forum_agent.Core.Session.{require_capture_state, save_history}
use forum_agent.Core.Session.Frame.{save_history-Keeps}
use forum_agent.Core.Seal.{refresh_integrity}
use forum_agent.Core.Seal.Frame.{refresh_integrity-Keeps}
use forum_agent.Core.Capture.{
  Direction, capture_direction_at, track_of, own_track, add_segment, new_capture, capture_work,
}

pub record Captured (id : Uuid) (p : CaptureSegmentClosed) (seq : ℕ) (a b : Store) : Type 0 where
  pub running : require_capture_state id a ≡ ok tt
  pub track : own_track id p.audio.sample_rate (track_of p.track_id a) ≡ ok tt
  pub fresh : any (λ s. s.id == p.segment_id) a.segments ≡ false
  pub direction : Direction
  pub directed : capture_direction_at id p.track_id p.audio (add_segment id p a) ≡ ok direction
  pub captures : List CaptureRow
  pub put :
      insert_new
        (λ c. c.segment_id == p.segment_id)
        (new_capture p seq direction)
        a.capture_segments
      ≡ ok captures
  pub saved :
      save_history id seq
        (refresh_integrity id (record (add_segment id p a) { capture_segments = captures }))
      ≡ ok b

pub capture_work_cases :
    (id : Uuid) (p : CaptureSegmentClosed) (seq : ℕ) (a b : Store)
    → capture_work id p seq a ≡ ok b
    → Captured id p seq a b
unfolding capture_work
capture_work_cases id p seq a b h =
    let (running, h1) = >>-inversion (require_capture_state id a) _ h in
    let (track, h2) =
      >>-inversion (own_track id p.audio.sample_rate (track_of p.track_id a)) _ h1 in
    let (fresh, h3) =
      >>-inversion (ensure (not (any (λ s. s.id == p.segment_id) a.segments)) entity_conflict) _
        h2 in
    let (direction, directed, h4) =
      >>=-inversion (capture_direction_at id p.track_id p.audio (add_segment id p a)) _ h3 in
    let (captures, put, h5) =
      >>=-inversion
        (insert_new (λ c. c.segment_id == p.segment_id) (new_capture p seq direction)
          a.capture_segments)
        _ h4 in
    record {
      running = running;
      track = track;
      fresh = ground arith;
      direction = direction;
      directed = directed;
      captures = captures;
      put = put;
      saved = h5;
    }

pub capture_work-Work : (id : Uuid) (p : CaptureSegmentClosed) → Work (capture_work id p)
capture_work-Work id p seq a b h =
    let s = capture_work_cases id p seq a b h in
    let st1 : Store = record (add_segment id p a) { capture_segments = s.captures } in
    let first : Keeps a st1 = record {
      log = refl;
      queue = refl;
      counter = refl;
      specs = refl;
      closed = λ run h. h;
    } in
    Keeps-trans first
      (Keeps-trans (refresh_integrity-Keeps id st1) (save_history-Keeps id seq _ b s.saved))
