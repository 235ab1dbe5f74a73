-- ===== src/Core/Coverage.antt =====
-- Which bytes of a text are translated by which request: `coverage_piece` and `claim_span`,
-- desktop/crates/forum-core/src/translation.rs, on the rows of `translation_coverage`, newest first.
-- The foreign key to the attempt is met by `request_translation`, which inserts it before.
pub mod Owners
pub mod Claims
pub mod Spans
pub mod Accepts
pub mod Complete
use forum_agent.Shared.{
  ℕ, ltb, leb, Bool, true, false, ◌&&◌, not, Option, none, some, List, [], ◌∷◌, ok, ensure,
  if◌then◌else◌, keep, ◌==◌, min, max, ◌>>=◌, ◌>>◌,
}
use forum_agent.Text.{Text, text_eq}
use forum_agent.Contracts.{Uuid, Revision}
use forum_agent.Contracts.Transcript.{SourceSpan}
use forum_agent.Contracts.Translation.{TranslationRequested}
use forum_agent.Core.{Stored, coverage_conflict, database}
use forum_agent.Core.Tables.{insert_new}
use forum_agent.Core.Tables.Translations.{CoverageState, Owner, CoverageRow, is_pending}

-- The rows of one text: of a segment's revision, a target and a direction.
unfoldable pub of_text : SourceSpan → TranslationRequested → CoverageRow → Bool
of_text span p r =
    r.segment_id == span.segment_id
    && r.segment_revision == span.segment_revision
    && text_eq r.target_language p.target_language
    && r.direction_epoch == p.direction_epoch

abbrev pub piece : SourceSpan → TranslationRequested → ℕ → ℕ → Bool → CoverageRow
piece span p start end owned = record {
  segment_id = span.segment_id;
  segment_revision = span.segment_revision;
  target_language = p.target_language;
  direction_epoch = p.direction_epoch;
  start_utf8 = start;
  end_utf8 = end;
  state = if owned then CoverageState.requested else CoverageState.pending;
  owner =
      if owned
      then some
          (record { translation_id = p.translation_id; revision = p.revision; attempt = p.attempt })
      else none;
}

abbrev pub has_range : ℕ → ℕ → CoverageRow → Bool
has_range start end r = r.start_utf8 == start && r.end_utf8 == end

unfoldable pub coverage_piece :
    SourceSpan → TranslationRequested → ℕ → ℕ → Bool → List CoverageRow → Stored (List CoverageRow)
coverage_piece span p start end owned rows = if start == end then ok rows else (do
  ensure (ltb start end) database
  insert_new (λ r. of_text span p r && has_range start end r) (piece span p start end owned) rows)

-- `ORDER BY start_utf8`.
abbrev pub insert_row : CoverageRow → List CoverageRow → List CoverageRow
insert_row r [] = r ∷ []
insert_row r (s ∷ rows) =
    let rest = insert_row r rows in if leb r.start_utf8 s.start_utf8 then r ∷ s ∷ rows else s ∷ rest

abbrev pub by_start : List CoverageRow → List CoverageRow
by_start [] = []
by_start (r ∷ rows) = insert_row r (by_start rows)

abbrev pub touches : SourceSpan → TranslationRequested → CoverageRow → Bool
touches span p r =
    of_text span p r && ltb span.start_utf8 r.end_utf8 && ltb r.start_utf8 span.end_utf8

-- One row of the loop; the result is the table and the cursor.
unfoldable pub claim_row :
    SourceSpan
    → TranslationRequested
    → ℕ
    → CoverageRow
    → List CoverageRow
    → Stored (ℕ × List CoverageRow)
unfolding coverage_piece
claim_row span p cursor r table = do
  let left = max r.start_utf8 span.start_utf8
  let right = min r.end_utf8 span.end_utf8
  ensure (is_pending r.state && left == cursor) coverage_conflict
  let rest = keep (λ s. not (of_text span p s && has_range r.start_utf8 r.end_utf8 s)) table
  before ← coverage_piece span p r.start_utf8 left false rest
  owned ← coverage_piece span p left right true before
  after ← coverage_piece span p right r.end_utf8 false owned
  ok (right, after)

unfoldable pub claim_rows :
    SourceSpan
    → TranslationRequested
    → ℕ
    → List CoverageRow
    → List CoverageRow
    → Stored (ℕ × List CoverageRow)
unfolding claim_row
claim_rows span p cursor [] table = ok (cursor, table)
claim_rows span p cursor (r ∷ rows) table = do
  (next, table1) ← claim_row span p cursor r table
  claim_rows span p next rows table1

unfoldable pub claim_span :
    SourceSpan → TranslationRequested → List CoverageRow → Stored (List CoverageRow)
unfolding claim_rows
claim_span span p table = do
  (cursor, table1) ←
      claim_rows span p span.start_utf8 (by_start (keep (touches span p) table)) table
  ensure (cursor == span.end_utf8) coverage_conflict
  ok table1
