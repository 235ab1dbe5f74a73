-- ===== src/Core/Revision.antt =====
-- The revisions of a segment's text, desktop/crates/forum-core/src/lib.rs: `capture_context`,
-- `load_revision`, `insert_revision`, `insert_coverage` and `resolve_span`.
use forum_agent.Shared.{
  ℕ, ltb, Bool, ◌&&◌, Option, none, some, List, [], ◌∷◌, ok, err, ensure, find, if◌then◌else◌, ◌==◌,
  ◌>>=◌, ◌>>◌,
}
use forum_agent.Text.{Text, text_eq, utf8_len}
use forum_agent.Contracts.{Uuid, Revision}
use forum_agent.Contracts.Session.{AudioRange}
use forum_agent.Contracts.Transcript.{
  SourceSpan, validate_against, TranscriptStatus, TranscriptStatus-discrete, success,
}
use forum_agent.Core.{Stored, validated, dependency_not_ready, scope_mismatch, database}
use forum_agent.Core.Tables.{
  SegmentRow, CaptureRow, TranscriptRecord, Store, insert_new, update_where, is_yes,
}
use forum_agent.Core.Tables.Translations.{CoverageRow, CoverageState}

abbrev pub segment_of : Uuid → Store → Option SegmentRow
segment_of id st = find (λ s. s.id == id) st.segments

abbrev pub capture_of : Uuid → Store → Option CaptureRow
capture_of id st = find (λ c. c.segment_id == id) st.capture_segments

pub record SourceContext : Type 0 where
  pub track_id : Uuid
  pub audio : AudioRange
  pub current_revision : Option Revision

-- The row of `segments JOIN capture_segments`, in the session that asks.
abbrev context_row : Uuid → Option SegmentRow → Option CaptureRow → Stored SourceContext
context_row session (some s) (some c) =
    if s.session_id == session
    then ok
        (record { track_id = s.track_id; audio = c.audio; current_revision = s.current_revision })
    else err scope_mismatch
context_row session (some s) none = err dependency_not_ready
context_row session none c = err dependency_not_ready

unfoldable pub capture_context : Uuid → Uuid → Store → Stored SourceContext
capture_context session id st = context_row session (segment_of id st) (capture_of id st)

abbrev pub is_revision : Uuid → Revision → TranscriptRecord → Bool
is_revision id n r = r.payload.segment_id == id && r.payload.revision == n

abbrev pub revision_of : Uuid → Revision → Store → Option TranscriptRecord
revision_of id n st = find (is_revision id n) st.segment_revisions

abbrev found_record : Option TranscriptRecord → Stored TranscriptRecord
found_record none = err dependency_not_ready
found_record (some r) = ok r

unfoldable pub load_revision : Uuid → Uuid → Revision → Store → Stored TranscriptRecord
unfolding capture_context
load_revision session id n st = do
  context ← capture_context session id st
  found_record (revision_of id n st)

unfoldable pub is_success : TranscriptStatus → Bool
is_success s = is_yes (TranscriptStatus-discrete s success)

unfoldable pub resolve_span : Uuid → SourceSpan → Store → Stored Text
unfolding load_revision is_success
resolve_span session span st = do
  r ← load_revision session span.segment_id span.segment_revision st
  ensure (is_success r.payload.status) dependency_not_ready
  validated (validate_against span r.payload.text)

abbrev pub set_current : Uuid → Revision → List SegmentRow → List SegmentRow
set_current id n rows =
    update_where (λ s. s.id == id) (λ s. record s { current_revision = some n }) rows

unfoldable pub insert_revision : TranscriptRecord → Store → Stored Store
insert_revision r st = do
  let p = r.payload
  rows ← insert_new (is_revision p.segment_id p.revision) r st.segment_revisions
  ok (record st {
    segment_revisions = rows;
    segments = set_current p.segment_id p.revision st.segments;
  })

abbrev pub whole_text : TranscriptRecord → ℕ → Text → CoverageRow
whole_text r epoch target = record {
  segment_id = r.payload.segment_id;
  segment_revision = r.payload.revision;
  target_language = target;
  direction_epoch = epoch;
  start_utf8 = 0;
  end_utf8 = utf8_len r.payload.text;
  state = CoverageState.pending;
  owner = none;
}

-- The primary key of `translation_coverage`.
unfoldable pub same_range : CoverageRow → CoverageRow → Bool
same_range r s =
    s.segment_id == r.segment_id
    && s.segment_revision == r.segment_revision
    && text_eq s.target_language r.target_language
    && s.direction_epoch == r.direction_epoch
    && s.start_utf8 == r.start_utf8
    && s.end_utf8 == r.end_utf8

-- One target; the table checks that the range is not empty.
unfoldable pub cover_target :
    TranscriptRecord → ℕ → Text → List CoverageRow → Stored (List CoverageRow)
cover_target r epoch target rows = do
  ensure (ltb 0 (utf8_len r.payload.text)) database
  insert_new (same_range (whole_text r epoch target)) (whole_text r epoch target) rows

-- The loop over the targets.
unfoldable pub cover_targets :
    TranscriptRecord → ℕ → List Text → List CoverageRow → Stored (List CoverageRow)
unfolding cover_target
cover_targets r epoch [] rows = ok rows
cover_targets r epoch (target ∷ targets) rows = do
  rows1 ← cover_target r epoch target rows
  cover_targets r epoch targets rows1

abbrev pub or_own : Option (List Text) → List Text → List Text
or_own none own = own
or_own (some targets) own = targets

abbrev pub capture_columns : Option CaptureRow → Stored CaptureRow
capture_columns none = err database
capture_columns (some c) = ok c

unfoldable pub insert_coverage : TranscriptRecord → Store → Stored Store
unfolding is_success cover_targets
insert_coverage r st =
    if is_success r.payload.status
    then (do
      c ← capture_columns (capture_of r.payload.segment_id st)
      rows ←
          cover_targets r c.direction_epoch (or_own c.targets r.payload.target_languages)
            st.translation_coverage
      ok (record st { translation_coverage = rows }))
    else ok st
