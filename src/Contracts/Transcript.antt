-- ===== src/Contracts/Transcript.antt =====
-- Captures, transcripts, human revisions and source spans:
-- desktop/crates/forum-contracts/src/lib.rs.
pub mod Spans
use forum_agent.Shared.{
  ℕ, String, Bool, ◌||◌, not, Option, none, some, List, [], ◌∷◌, leb, ◌==◌, if◌then◌else◌, ok, err,
  ◌>>◌, ensure, any, ◌>>=◌,
}
use forum_agent.Text.{Text, text_eq, is_empty, get_range}
use forum_agent.Contracts.{
  Uuid, Revision, invalid, invalid_span, Checked, non_nil, non_blank, sqlite_integer, revision_next,
}
use forum_agent.Contracts.Session.{AudioRange, validate_audio}

pub record CaptureSegmentClosed : Type 0 where
  pub track_id : Uuid
  pub segment_id : Uuid
  pub audio : AudioRange
  pub recording_ref : Option Text

-- A check of an optional field.
abbrev pub if_some {ℓ} : {A : Type ℓ} → Option A → (A → Checked (Unit {0})) → Checked (Unit {0})
if_some none check = ok tt
if_some (some a) check = check a

unfoldable pub validate_capture : CaptureSegmentClosed → Checked (Unit {0})
unfolding non_nil non_blank validate_audio
validate_capture c = do
  non_nil c.track_id "track_id"
  non_nil c.segment_id "segment_id"
  validate_audio c.audio
  if_some c.recording_ref (λ r. non_blank r "recording_ref")

pub data TranscriptStatus : Type 0 where
  success empty failed : TranscriptStatus

unfoldable pub TranscriptStatus-discrete : Discrete TranscriptStatus
TranscriptStatus-discrete = hlevel

pub record TranscriptFinal : Type 0 where
  pub track_id : Uuid
  pub segment_id : Uuid
  pub revision : Revision
  pub audio : AudioRange
  pub text : Text
  pub configured_source_language : Text
  pub detected_language : Option Text
  pub target_languages : List Text
  pub direction_epoch : ℕ
  pub speaker_id : Option Uuid
  pub status : TranscriptStatus
  pub reason : Option Text
  pub backend : Text
  pub model_manifest_id : Text

abbrev pub mem_text : Text → List Text → Bool
mem_text t ts = any (text_eq t) ts

-- The loop over the target languages; `seen` is the set of those already met.
unfoldable pub validate_targets : String → List Text → List Text → Checked (Unit {0})
unfolding non_blank
validate_targets duplicate seen [] = ok tt
validate_targets duplicate seen (t ∷ ts) =
    let rest = validate_targets duplicate (t ∷ seen) ts in
    non_blank t "target_languages" >> (if mem_text t seen then err (invalid duplicate) else rest)

abbrev or_empty : Option Text → Text
or_empty none = []
or_empty (some t) = t

unfoldable pub validate_status : TranscriptStatus → Text → Option Text → Checked (Unit {0})
unfolding non_blank
validate_status success text reason = non_blank text "text"
validate_status _ text reason = do
  ensure (is_empty text) (invalid "non_success_text")
  non_blank (or_empty reason) "reason"

unfoldable pub validate_final : TranscriptFinal → Checked (Unit {0})
unfolding non_nil non_blank sqlite_integer validate_audio validate_targets validate_status
validate_final p = do
  non_nil p.track_id "track_id"
  non_nil p.segment_id "segment_id"
  validate_audio p.audio
  non_blank p.configured_source_language "configured_source_language"
  if_some p.detected_language (λ l. non_blank l "detected_language")
  validate_targets "duplicate_target_language" [] p.target_languages
  ensure (not (p.direction_epoch == 0)) (invalid "direction_epoch")
  sqlite_integer p.direction_epoch "direction_epoch"
  non_blank p.backend "backend"
  non_blank p.model_manifest_id "model_manifest_id"
  if_some p.speaker_id (λ s. non_nil s "speaker_id")
  validate_status p.status p.text p.reason

pub record TranscriptRevision : Type 0 where
  pub segment_id : Uuid
  pub expected_revision : Revision
  pub text : Text
  pub reason : Text
  pub operator_id : Text

unfoldable pub validate_revision : TranscriptRevision → Checked (Unit {0})
unfolding non_nil non_blank revision_next
validate_revision r = do
  non_nil r.segment_id "segment_id"
  non_blank r.text "text"
  non_blank r.reason "reason"
  non_blank r.operator_id "operator_id"
  next ← revision_next r.expected_revision
  ok tt

pub record SourceSpan : Type 0 where
  pub segment_id : Uuid
  pub segment_revision : Revision
  pub start_utf8 : ℕ
  pub end_utf8 : ℕ
  pub quote : Text

abbrev same_quote : Text → Option Text → Checked Text
same_quote quote none = err invalid_span
same_quote quote (some source) = if text_eq source quote then ok source else err invalid_span

unfoldable pub validate_against : SourceSpan → Text → Checked Text
unfolding non_nil
validate_against s text = do
  non_nil s.segment_id "segment_id"
  ensure (not (leb s.end_utf8 s.start_utf8 || is_empty s.quote)) invalid_span
  same_quote s.quote (get_range s.start_utf8 s.end_utf8 text)
