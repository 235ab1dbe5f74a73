-- ===== src/Contracts/Translation.antt =====
-- Translation requests and results: desktop/crates/forum-contracts/src/reliable.rs.
pub mod Ranges
pub mod Checks
use forum_agent.Shared.{
  ℕ, ◌+◌, ◌-◌, Bool, ◌&&◌, ◌||◌, not, Option, List, [], ◌∷◌, ◌++◌, map, leb, ltb, ◌==◌,
  if◌then◌else◌, ok, err, ensure, any, length, ◌>>=◌, ◌>>◌,
}
use forum_agent.Text.{Text, codes, text_eq, is_empty, join, utf8_len}
use forum_agent.Contracts.{
  Uuid, Revision, invalid, invalid_span, Checked, non_nil, non_blank, sqlite_integer,
}
use forum_agent.Contracts.Transcript.{SourceSpan}

pub record DirectionBoundary : Type 0 where
  pub track_id : Uuid
  pub start_sample : ℕ
  pub configured_source_language : Text

pub record DirectionChanged : Type 0 where
  pub expected_epoch : ℕ
  pub direction_epoch : ℕ
  pub target_languages : List Text
  pub boundary : Option DirectionBoundary

pub record TranslationRequested : Type 0 where
  pub translation_id : Uuid
  pub revision : Revision
  pub attempt : ℕ
  pub target_language : Text
  pub direction_epoch : ℕ
  pub source_spans : List SourceSpan
  pub context_spans : List SourceSpan
  pub input_text : Text
  pub normalization_version : Text
  pub backend : Text
  pub model_manifest_id : Text

-- The `match` on the version.
unfoldable pub separator : Text → Checked Text
separator version =
    if text_eq version (codes "identity-v1")
    then ok []
    else if text_eq version (codes "join-space-v1")
    then ok (codes " ")
    else if text_eq version (codes "join-newline-v1")
    then ok (0x0a ∷ [])
    else err (invalid "normalization_version")

-- Two ranges of one revision that share a byte.
unfoldable pub overlaps : SourceSpan → SourceSpan → Bool
overlaps s span =
    s.segment_id == span.segment_id
    && s.segment_revision == span.segment_revision
    && ltb s.start_utf8 span.end_utf8
    && ltb span.start_utf8 s.end_utf8

abbrev pub context_chars : List SourceSpan → ℕ
context_chars [] = 0
context_chars (s ∷ spans) = length s.quote + context_chars spans

-- The loop over the spans; `seen` holds those already accepted.
unfoldable pub check_spans : List SourceSpan → List SourceSpan → Checked (Unit {0})
unfolding non_nil overlaps
check_spans seen [] = ok tt
check_spans seen (span ∷ spans) =
    let rest = check_spans (span ∷ seen) spans in
    (do
      non_nil span.segment_id "segment_id"
      ensure
          (not (
            leb span.end_utf8 span.start_utf8
            || not (utf8_len span.quote == span.end_utf8 - span.start_utf8)))
          invalid_span
      ensure (not (any (λ s. overlaps s span) seen)) (invalid "overlapping_sources")
      rest)

unfoldable pub validate_request : TranslationRequested → Checked (Unit {0})
unfolding non_nil non_blank sqlite_integer
validate_request p = do
  non_nil p.translation_id "translation_id"
  ensure (not (p.attempt == 0 || p.direction_epoch == 0 || is_empty p.source_spans))
      (invalid "translation_fence_or_sources")
  sqlite_integer p.direction_epoch "direction_epoch"
  non_blank p.target_language "target_language"
  non_blank p.backend "backend"
  non_blank p.model_manifest_id "model_manifest_id"
  glue ← separator p.normalization_version
  ensure
      (text_eq (join glue (map (λ s. s.quote) p.source_spans)) p.input_text
        && not (is_empty p.input_text))
      (invalid "input_text")
  ensure (leb (length p.context_spans) 4 && leb (context_chars p.context_spans) 720)
      (invalid "translation_context_budget")
  check_spans [] (p.source_spans ++ p.context_spans)

pub data TranslationStatus : Type 0 where
  final passthrough : TranslationStatus

pub record TranslationFinal : Type 0 where
  pub translation_id : Uuid
  pub revision : Revision
  pub attempt : ℕ
  pub direction_epoch : ℕ
  pub text : Text
  pub status : TranslationStatus
  pub backend : Text
  pub model_manifest_id : Text
  pub elapsed_ms : ℕ

pub record TranslationFailed : Type 0 where
  pub translation_id : Uuid
  pub revision : Revision
  pub attempt : ℕ
  pub direction_epoch : ℕ
  pub code : Text
  pub reason : Text

abbrev pub text_when_final : TranslationStatus → Text → Checked (Unit {0})
text_when_final final text = non_blank text "text"
text_when_final passthrough text = ok tt

unfoldable pub validate_result : TranslationFinal → Checked (Unit {0})
unfolding non_nil non_blank sqlite_integer
validate_result p = do
  non_nil p.translation_id "translation_id"
  ensure (not (p.attempt == 0 || p.direction_epoch == 0)) (invalid "translation_fence")
  sqlite_integer p.direction_epoch "direction_epoch"
  sqlite_integer p.elapsed_ms "elapsed_ms"
  non_blank p.backend "backend"
  non_blank p.model_manifest_id "model_manifest_id"
  text_when_final p.status p.text

unfoldable pub validate_failure : TranslationFailed → Checked (Unit {0})
unfolding non_nil non_blank sqlite_integer
validate_failure p = do
  non_nil p.translation_id "translation_id"
  ensure (not (p.attempt == 0 || p.direction_epoch == 0)) (invalid "translation_fence")
  sqlite_integer p.direction_epoch "direction_epoch"
  non_blank p.code "code"
  non_blank p.reason "reason"
