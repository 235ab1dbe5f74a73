-- ===== src/Core/Tables/Translations.antt =====
-- The tables of translations: their attempts, the spans that they read, the coverage of each text
-- and the history of the records, desktop/crates/forum-core/migrations.
use forum_agent.Shared.{ℕ, Bool, true, false, Option}
use forum_agent.Text.{Text}
use forum_agent.Contracts.{Uuid, Revision}
use forum_agent.Contracts.Transcript.{SourceSpan}
use forum_agent.Contracts.Translation.{TranslationRequested, TranslationFinal}

pub data CoverageState : Type 0 where
  pending requested final failed stale : CoverageState

abbrev pub is_pending : CoverageState → Bool
is_pending CoverageState.pending = true
is_pending _ = false

abbrev pub is_requested : CoverageState → Bool
is_requested CoverageState.requested = true
is_requested _ = false

-- The columns that are NULL together.
pub record Owner : Type 0 where
  pub translation_id : Uuid
  pub revision : Revision
  pub attempt : ℕ

pub record CoverageRow : Type 0 where
  pub segment_id : Uuid
  pub segment_revision : Revision
  pub target_language : Text
  pub direction_epoch : ℕ
  pub start_utf8 : ℕ
  pub end_utf8 : ℕ
  pub state : CoverageState
  pub owner : Option Owner

pub record TranslationRow : Type 0 where
  pub id : Uuid
  pub session_id : Uuid
  pub current_revision : Revision
  pub current_attempt : ℕ

pub data AttemptState : Type 0 where
  requested final passthrough failed stale : AttemptState

pub record AttemptRow : Type 0 where
  pub translation_id : Uuid
  pub revision : Revision
  pub attempt : ℕ
  pub request : TranslationRequested
  pub state : AttemptState
  pub text : Option Text
  pub error : Option Text
  pub result : Option TranslationFinal
  pub created_seq : ℕ
  pub updated_seq : ℕ

pub record SourceRow : Type 0 where
  pub translation_id : Uuid
  pub revision : Revision
  pub source_index : ℕ
  pub span : SourceSpan

pub record TranslationRecord : Type 0 where
  pub session_id : Uuid
  pub request : TranslationRequested
  pub result : Option TranslationFinal
  pub state : AttemptState
  pub text : Option Text
  pub error : Option Text
  pub created_seq : ℕ
  pub updated_seq : ℕ

pub record TranslationHistoryRow : Type 0 where
  pub translation_id : Uuid
  pub store_seq : ℕ
  pub record_json : TranslationRecord
