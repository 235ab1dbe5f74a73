-- ===== src/Core/Tables.antt =====
-- The tables of the database, desktop/crates/forum-core/migrations, as lists of rows, newest first.
-- A column that holds the JSON of a value holds the value here, and a boolean SQL expression is
-- read off the rows. Foreign keys are met by the lookups that stand before each insertion.
pub mod Translations
pub mod Artifacts
pub mod Rows
use native.Mathlib.Decide.{ℕ_discrete}
use forum_agent.Shared.{ℕ, Bool, true, false, Option, List, [], ◌∷◌, ok, err, if◌then◌else◌, any}
use forum_agent.Text.{Text}
use forum_agent.Contracts.{Uuid, Revision}
use forum_agent.Contracts.Session.{
  SessionSpec, TrackSpec, AudioRange, SessionState, SessionTransition, AudioGap,
}
use forum_agent.Contracts.Event.{Event, EventType}
use forum_agent.Contracts.Manifest.{CaptureStopped}
use forum_agent.Contracts.Transcript.{CaptureSegmentClosed, TranscriptFinal, TranscriptRevision}
use forum_agent.Contracts.Translation.{
  DirectionChanged, TranslationRequested, TranslationFinal, TranslationFailed,
}
use forum_agent.Core.{Stored, database}
use forum_agent.Core.Tables.Translations.{
  CoverageRow, TranslationRow, AttemptRow, SourceRow, TranslationHistoryRow,
}
use forum_agent.Core.Tables.Artifacts.{
  ArtifactRecord, DependencyRow, ProjectionRow, PublicationChange, AnalysisSnapshot,
}

unfoldable pub AudioRange-discrete : Discrete AudioRange
AudioRange-discrete = hlevel ℕ_discrete

pub SessionSpec-discrete : Discrete SessionSpec
SessionSpec-discrete = hlevel ℕ_discrete

pub TrackSpec-discrete : Discrete TrackSpec
TrackSpec-discrete = hlevel ℕ_discrete

unfoldable pub TranslationRequested-discrete : Discrete TranslationRequested
TranslationRequested-discrete = hlevel ℕ_discrete

-- A comparison as a Boolean test.
abbrev pub is_yes {ℓ} : {P : Type ℓ} → Dec P → Bool
is_yes (yes p) = true
is_yes (no n) = false

pub record ProducerSeal : Type 0 where
  pub producer_run_id : Uuid
  pub final_seq : ℕ
  pub segment_ids : List Uuid

pub record TranscriptSeal : Type 0 where
  pub capture_manifest_sha256 : Text

pub record ProducerRecoveryEvidence : Type 0 where
  pub capture_manifest_sha256 : Text
  pub owned_process_exited : Bool
  pub outbox_replayed : Bool
  pub reason : Text

pub ProducerRecoveryEvidence-discrete : Discrete ProducerRecoveryEvidence
ProducerRecoveryEvidence-discrete = hlevel ℕ_discrete

pub record ProducerReconciled : Type 0 where
  pub producer_run_id : Uuid
  pub final_seq : ℕ
  pub evidence : ProducerRecoveryEvidence

-- What the body of an event can carry.
pub data Payload : Type 0 where
  changed : SessionTransition → Payload
  gap : AudioGap → Payload
  stopped : CaptureStopped → Payload
  sealed : ProducerSeal → Payload
  reconciled : ProducerReconciled → Payload
  transcript : TranscriptSeal → Payload
  requested : TranslationRequested → Payload
  finished : TranslationFinal → Payload
  failed : TranslationFailed → Payload
  direction : DirectionChanged → Payload
  closed : CaptureSegmentClosed → Payload
  transcribed : TranscriptFinal → Payload
  revised : TranscriptRevision → Payload

abbrev pub Body : Type 0
Body = Event Payload

-- `sessions`: the columns that repeat a field of the specification are not kept apart.
pub record SessionRow : Type 0 where
  pub spec : SessionSpec
  pub state : SessionState
  pub state_seq : ℕ
  pub direction_epoch : ℕ
  pub targets : List Text
  pub capture_stopped_seq : Option ℕ
  pub sealed_seq : Option ℕ
  pub incomplete : Bool
  pub retroactive_epoch : ℕ
  pub retroactive_targets : Option (List Text)

pub record SessionStatus : Type 0 where
  pub session_id : Uuid
  pub state : SessionState
  pub direction_epoch : ℕ
  pub target_languages : List Text
  pub capture_stopped : Bool
  pub transcript_sealed : Bool
  pub incomplete : Bool
  pub state_seq : ℕ

pub record HistoryRow : Type 0 where
  pub session_id : Uuid
  pub store_seq : ℕ
  pub status : SessionStatus

pub record IngestedRow : Type 0 where
  pub store_seq : ℕ
  pub message_id : Uuid
  pub session_id : Uuid
  pub producer_run_id : Uuid
  pub producer_seq : ℕ
  pub event_type : EventType
  pub body_sha256 : Text
  pub body : Body

pub record OutboxRow : Type 0 where
  pub store_seq : ℕ
  pub message_id : Uuid
  pub session_id : Uuid
  pub event_type : EventType
  pub body : Body

pub record SegmentRow : Type 0 where
  pub id : Uuid
  pub session_id : Uuid
  pub track_id : Uuid
  pub current_revision : Option Revision

pub record CaptureRow : Type 0 where
  pub segment_id : Uuid
  pub audio : AudioRange
  pub recording_ref : Option Text
  pub created_seq : ℕ
  pub result_seq : Option ℕ
  pub direction_epoch : ℕ
  pub configured_source_language : Option Text
  pub targets : Option (List Text)

pub data RevisionOrigin : Type 0 where
  asr : RevisionOrigin
  legacy_import : Text → ℕ → Option Text → RevisionOrigin
  human : Text → Text → Revision → RevisionOrigin

pub record TranscriptRecord : Type 0 where
  pub session_id : Uuid
  pub payload : TranscriptFinal
  pub origin : RevisionOrigin
  pub created_seq : ℕ

pub record CaptureSealRow : Type 0 where
  pub session_id : Uuid
  pub manifest_sha256 : Text
  pub payload : CaptureStopped
  pub created_seq : ℕ

pub record ProducerSealRow : Type 0 where
  pub producer_run_id : Uuid
  pub session_id : Uuid
  pub final_seq : ℕ
  pub payload : ProducerSeal
  pub created_seq : ℕ

pub record ReconciliationRow : Type 0 where
  pub producer_run_id : Uuid
  pub session_id : Uuid
  pub final_seq : ℕ
  pub payload : ProducerReconciled
  pub created_seq : ℕ

pub record GapRow : Type 0 where
  pub session_id : Uuid
  pub gap : AudioGap
  pub created_seq : ℕ

pub record BoundaryRow : Type 0 where
  pub session_id : Uuid
  pub direction_epoch : ℕ
  pub track_id : Uuid
  pub start_sample : ℕ
  pub configured_source_language : Text
  pub targets : List Text
  pub created_seq : ℕ

pub record RoomRow : Type 0 where
  pub id : Uuid
  pub event_id : Uuid

pub record Store : Type 0 where
  pub events : List Uuid
  pub rooms : List RoomRow
  pub peer_sessions : List Uuid
  pub sessions : List SessionRow
  pub tracks : List TrackSpec
  pub last_seq : ℕ
  pub ingested : List IngestedRow
  pub outbox : List OutboxRow
  pub session_history : List HistoryRow
  pub segments : List SegmentRow
  pub capture_segments : List CaptureRow
  pub segment_revisions : List TranscriptRecord
  pub capture_seals : List CaptureSealRow
  pub producer_seals : List ProducerSealRow
  pub producer_reconciliations : List ReconciliationRow
  pub audio_gaps : List GapRow
  pub direction_boundaries : List BoundaryRow
  pub translations : List TranslationRow
  pub translation_attempts : List AttemptRow
  pub translation_sources : List SourceRow
  pub translation_coverage : List CoverageRow
  pub translation_history : List TranslationHistoryRow
  pub analysis_snapshots : List AnalysisSnapshot
  pub analysis_artifacts : List ArtifactRecord
  pub artifact_revisions : List ArtifactRecord
  pub artifact_dependencies : List DependencyRow
  pub analysis_changes : List ArtifactRecord
  pub publication_projection : List ProjectionRow
  pub publication_changes : List PublicationChange

-- `INSERT`: a row that meets a unique key already there is an error of the database.
abbrev pub insert_new {ℓ} : {A : Type ℓ} → (A → Bool) → A → List A → Stored (List A)
insert_new clash row rows = if any clash rows then err database else ok (row ∷ rows)

-- `UPDATE … WHERE`.
abbrev pub update_where {ℓ} : {A : Type ℓ} → (A → Bool) → (A → A) → List A → List A
update_where test change [] = []
update_where test change (row ∷ rows) =
    (if test row then change row else row) ∷ update_where test change rows

-- `COALESCE(MAX(…),0)`.
abbrev pub greatest {ℓ} : {A : Type ℓ} → (A → ℕ) → List A → ℕ
greatest column [] = 0
greatest column (row ∷ rows) = Prim.Native.Nat.max (column row) (greatest column rows)
