-- ===== src/Core/Tables/Artifacts.antt =====
-- The tables of artifacts, what they depend on, and what of them is public:
-- desktop/crates/forum-core/migrations and desktop/crates/forum-contracts/src/analysis.rs.
use forum_agent.Shared.{ℕ, Bool, List, Option}
use forum_agent.Text.{Text}
use forum_agent.Contracts.{Uuid, Revision}
use forum_agent.Contracts.Session.{AudioRange}

pub data ArtifactValidation : Type 0 where
  valid needs_review invalid stale : ArtifactValidation

unfoldable pub ArtifactValidation-discrete : Discrete ArtifactValidation
ArtifactValidation-discrete = hlevel

pub data ArtifactReview : Type 0 where
  draft approved rejected : ArtifactReview

pub data ArtifactPublication : Type 0 where
  private published hidden withdrawn : ArtifactPublication

-- `content`, `coverage`, `config`, `kind`, `job_id` and the times are only carried along: they are
-- the text `detail`.
pub record ArtifactRecord : Type 0 where
  pub artifact_id : Uuid
  pub revision : Revision
  pub event_id : Uuid
  pub session_ids : List Uuid
  pub snapshot_id : Uuid
  pub coverage_complete : Bool
  pub validation : ArtifactValidation
  pub review : ArtifactReview
  pub publication : ArtifactPublication
  pub operator_id : Option Text
  pub reason : Option Text
  pub detail : Text

pub data DependencyKind : Type 0 where
  source artifact : DependencyKind

pub record DependencyRow : Type 0 where
  pub artifact_id : Uuid
  pub dependency_kind : DependencyKind
  pub dependency_id : Uuid

pub record ProjectionRow : Type 0 where
  pub artifact_id : Uuid
  pub public_id : Uuid
  pub active : Bool

pub record PublicationChange : Type 0 where
  pub publication_seq : ℕ
  pub artifact_id : Uuid
  pub public_id : Uuid
  pub withdrawn : Bool

pub data AnalysisKind : Type 0 where
  insight minutes event_report suggested_questions redaction_review closing_brief : AnalysisKind

-- Of a source that was analysed, what the search for gaps reads.
pub record AnalysisSource : Type 0 where
  pub session_id : Uuid
  pub segment_id : Uuid
  pub audio : AudioRange

pub record AnalysisSnapshot : Type 0 where
  pub snapshot_id : Uuid
  pub kind : AnalysisKind
  pub session_ids : List Uuid
  pub segments : List AnalysisSource
