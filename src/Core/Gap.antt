-- ===== src/Core/Gap.antt =====
-- Gaps in the audio, desktop/crates/forum-core/src: `register_gap` of reliable.rs,
-- `snapshot_has_gap` and `invalidate_analysis_gap` of analysis.rs.
pub mod Frame
use forum_agent.Shared.{
  ℕ, ◌+◌, ◌-◌, ltb, Bool, true, false, ◌&&◌, not, Option, none, some, List, [], ◌∷◌, map, ok, err,
  ensure, if◌then◌else◌, any, find, keep, ◌==◌, max, ◌>>=◌, ◌>>◌,
}
use forum_agent.Text.{Text}
use forum_agent.Contracts.{Uuid}
use forum_agent.Contracts.Session.{AudioGap, validate_gap}
use forum_agent.Contracts.Event.{Event, validate_envelope, audio_gap}
use forum_agent.Core.{Stored, validated, not_found}
use forum_agent.Core.Tables.{Body, GapRow, Store, insert_new, gap}
use forum_agent.Core.Tables.Artifacts.{
  AnalysisKind, AnalysisSource, AnalysisSnapshot, ArtifactRecord,
}
use forum_agent.Core.Ingest.{Receipt, as_body, ingest}
use forum_agent.Core.Session.{require_capture_state, update_session, save_history}
use forum_agent.Core.Capture.{track_of, own_track}
use forum_agent.Core.Artifact.{is_stale, invalidate_artifacts}

-- `max` of the ends, 0 if there is none.
abbrev latest_end : Uuid → List AnalysisSource → ℕ
latest_end session [] = 0
latest_end session (s ∷ rows) =
    let rest = latest_end session rows in
    if s.session_id == session then max s.audio.end_ms rest else rest

-- An insight looks at a quarter of an hour, every other kind at the whole session.
unfoldable pub counts_gap : AnalysisKind → ℕ → GapRow → Bool
counts_gap AnalysisKind.insight tail g =
    ltb (tail - 900_000) g.gap.audio.end_ms && ltb g.gap.audio.start_ms tail
counts_gap _ tail g = true

unfoldable pub session_has_gap : AnalysisSnapshot → Store → Uuid → Bool
unfolding counts_gap
session_has_gap s st session =
    any (λ input. input.session_id == session) s.segments
    && any (λ g. g.session_id == session && counts_gap s.kind (latest_end session s.segments) g)
        st.audio_gaps

unfoldable pub snapshot_has_gap : AnalysisSnapshot → Store → Bool
unfolding session_has_gap
snapshot_has_gap s st = any (session_has_gap s st) s.session_ids

abbrev found_snapshot : Option AnalysisSnapshot → Stored AnalysisSnapshot
found_snapshot none = err (not_found "analysis_snapshot")
found_snapshot (some s) = ok s

unfoldable pub load_snapshot : Uuid → Store → Stored AnalysisSnapshot
load_snapshot id st = found_snapshot (find (λ s. s.snapshot_id == id) st.analysis_snapshots)

-- Whether the artifact claims a coverage that the gaps refute. The snapshot is loaded only for an
-- artifact that can still be refuted.
unfoldable pub refuted : Store → ArtifactRecord → Stored Bool
unfolding is_stale load_snapshot snapshot_has_gap
refuted st a =
    if not (is_stale a) && a.coverage_complete
    then (do s ← load_snapshot a.snapshot_id st; ok (snapshot_has_gap s st))
    else ok false

-- The loop over the artifacts.
unfoldable pub refuted_ids : Store → List ArtifactRecord → Stored (List Uuid)
unfolding refuted
refuted_ids st [] = ok []
refuted_ids st (a ∷ rows) = do
  here ← refuted st a
  rest ← refuted_ids st rows
  ok (if here then a.artifact_id ∷ rest else rest)

unfoldable pub invalidate_analysis_gap : Uuid → Store → Stored Store
unfolding refuted_ids invalidate_artifacts
invalidate_analysis_gap session st = do
  ids ← refuted_ids st (keep (λ a. any (λ id. id == session) a.session_ids) st.analysis_artifacts)
  invalidate_artifacts ids st

unfoldable pub gap_work : Uuid → AudioGap → ℕ → Store → Stored Store
unfolding require_capture_state invalidate_analysis_gap save_history
gap_work session g seq st = do
  own_track session g.audio.sample_rate (track_of g.track_id st)
  require_capture_state session st
  rows ←
      insert_new (λ r. r.gap.gap_id == g.gap_id)
        (record { session_id = session; gap = g; created_seq = seq }) st.audio_gaps
  st1 ← invalidate_analysis_gap session (record st { audio_gaps = rows })
  save_history session seq (update_session session (λ r. record r { incomplete = true }) st1)

module _ (digest : Body → Text) where
  unfoldable pub register_gap : Event AudioGap → Store → Stored (Receipt × Store)
  unfolding ingest gap_work validate_gap
  register_gap e st = do
    validated (validate_envelope audio_gap e)
    validated (validate_gap e.payload)
    ingest digest (as_body gap e) (gap_work e.session_id e.payload) st
