-- ===== src/Core/Capture.antt =====
-- Capture segments, desktop/crates/forum-core/src: `register_capture` of lib.rs and
-- `capture_direction_at` of direction.rs.
pub mod Frame
use forum_agent.Shared.{
  ℕ, ltb, leb, Bool, ◌&&◌, not, Option, none, some, List, [], ◌∷◌, ok, err, ensure, if◌then◌else◌,
  any, find, keep, ◌==◌, ◌>>=◌, ◌>>◌,
}
use forum_agent.Text.{Text}
use forum_agent.Contracts.{Uuid}
use forum_agent.Contracts.Session.{TrackSpec, AudioRange}
use forum_agent.Contracts.Event.{Event, validate_envelope, audio_segment_closed}
use forum_agent.Contracts.Transcript.{CaptureSegmentClosed, validate_capture}
use forum_agent.Core.{Stored, validated, entity_conflict, scope_mismatch, not_found, database}
use forum_agent.Core.Tables.{closed, Body, SessionRow, CaptureRow, BoundaryRow, Store, insert_new}
use forum_agent.Core.Ingest.{Receipt, session_row, as_body, ingest}
use forum_agent.Core.Session.{require_capture_state, save_history}
use forum_agent.Core.Seal.{refresh_integrity}

abbrev crosses : Uuid → Uuid → AudioRange → BoundaryRow → Bool
crosses session track audio b =
    b.session_id == session
    && b.track_id == track
    && ltb audio.start_sample b.start_sample
    && ltb b.start_sample audio.end_sample

-- The row of `ORDER BY direction_epoch DESC LIMIT 1`.
abbrev pub newest : List BoundaryRow → Option BoundaryRow
newest [] = none
newest (b ∷ rows) = elim (newest rows) [
  | none ↦ some b
  | some c ↦ if ltb b.direction_epoch c.direction_epoch then some c else some b
]

abbrev governs : Uuid → Uuid → ℕ → ℕ → BoundaryRow → Bool
governs session track start base b =
    b.session_id == session
    && b.track_id == track
    && leb b.start_sample start
    && ltb base b.direction_epoch

abbrev Direction : Type 0
Direction = ℕ × Option Text × Option (List Text)

abbrev direction_of : SessionRow → Option BoundaryRow → Direction
direction_of s none = (s.retroactive_epoch, none, s.retroactive_targets)
direction_of s (some b) = (b.direction_epoch, some b.configured_source_language, some b.targets)

abbrev pub session_columns : Option SessionRow → Stored SessionRow
session_columns none = err database
session_columns (some r) = ok r

unfoldable pub capture_direction_at : Uuid → Uuid → AudioRange → Store → Stored Direction
capture_direction_at session track audio st = do
  ensure (not (any (crosses session track audio) st.direction_boundaries)) scope_mismatch
  s ← session_columns (session_row session st)
  ok (
      direction_of s (
        newest (
          keep (governs session track audio.start_sample s.retroactive_epoch)
            st.direction_boundaries)))

abbrev pub track_of : Uuid → Store → Option TrackSpec
track_of id st = find (λ t. t.track_id == id) st.tracks

abbrev pub own_track : Uuid → ℕ → Option TrackSpec → Stored (Unit {0})
own_track session rate none = err (not_found "track")
own_track session rate (some t) =
    ensure (t.session_id == session && t.sample_rate == rate) scope_mismatch

abbrev pub add_segment : Uuid → CaptureSegmentClosed → Store → Store
add_segment id p st = record st {
  segments =
      record { id = p.segment_id; session_id = id; track_id = p.track_id; current_revision = none }
      ∷ st.segments;
}

abbrev pub new_capture : CaptureSegmentClosed → ℕ → Direction → CaptureRow
new_capture p seq d = record {
  segment_id = p.segment_id;
  audio = p.audio;
  recording_ref = p.recording_ref;
  created_seq = seq;
  result_seq = none;
  direction_epoch = d.0;
  configured_source_language = d.1;
  targets = d.2;
}

unfoldable pub capture_work : Uuid → CaptureSegmentClosed → ℕ → Store → Stored Store
unfolding require_capture_state capture_direction_at refresh_integrity save_history
capture_work id p seq st = do
  require_capture_state id st
  own_track id p.audio.sample_rate (track_of p.track_id st)
  ensure (not (any (λ s. s.id == p.segment_id) st.segments)) entity_conflict
  let st1 = add_segment id p st
  direction ← capture_direction_at id p.track_id p.audio st1
  captures ←
      insert_new (λ c. c.segment_id == p.segment_id) (new_capture p seq direction)
        st1.capture_segments
  save_history id seq (refresh_integrity id (record st1 { capture_segments = captures }))

module _ (digest : Body → Text) where
  unfoldable pub register_capture : Event CaptureSegmentClosed → Store → Stored (Receipt × Store)
  unfolding ingest capture_work
  register_capture e st = do
    validated (validate_envelope audio_segment_closed e)
    validated (validate_capture e.payload)
    ingest digest (as_body closed e) (capture_work e.session_id e.payload) st
