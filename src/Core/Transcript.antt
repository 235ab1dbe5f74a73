-- ===== src/Core/Transcript.antt =====
-- Recognised and revised texts, desktop/crates/forum-core/src/lib.rs: `ingest_final` and
-- `revise_transcript`, each a work of `ingest`.
pub mod Frame
pub mod Corrections
use native.Mathlib.Decide.{ℕ_discrete}
use forum_agent.Shared.{
  ℕ, ◌+◌, Bool, true, false, ◌&&◌, ◌||◌, not, Option, none, some, List, [], ◌∷◌, ok, err, ensure,
  if◌then◌else◌, ◌==◌, min, ◌>>=◌, ◌>>◌, ◌-◌,
}
use forum_agent.Text.{Text}
use forum_agent.Contracts.{Uuid, Revision, first_revision, revision_next, u32_mod}
use forum_agent.Contracts.Event.{Event, validate_envelope, transcript_final, transcript_revised}
use forum_agent.Contracts.Transcript.{
  TranscriptFinal, TranscriptRevision, TranscriptStatus, TranscriptStatus-discrete, validate_final,
  validate_revision, failed, success,
}
use forum_agent.Core.{Stored, validated, scope_mismatch, revision_conflict}
use forum_agent.Core.Tables.{
  Body, RevisionOrigin, asr, human, TranscriptRecord, Store, AudioRange-discrete, update_where,
  is_yes, transcribed, revised,
}
use forum_agent.Core.Tables.Translations.{CoverageState}
use forum_agent.Core.Ingest.{Receipt, as_body, ingest}
use forum_agent.Core.Session.{save_history}
use forum_agent.Core.Seal.{refresh_integrity}
use forum_agent.Core.Revision.{capture_context, load_revision, insert_revision, insert_coverage}
use forum_agent.Core.Translation.{invalidate_source_translations}
use forum_agent.Core.Direction.{validate_final_direction}
use forum_agent.Core.Artifact.{invalidate_analysis_source}

abbrev pub is_asr : RevisionOrigin → Bool
is_asr asr = true
is_asr _ = false

-- `saturating_add(1)` on a `u32`.
abbrev pub saturating_next : ℕ → ℕ
saturating_next n = min (n + 1) (u32_mod - 1)

-- A failed recognition can be tried again, as the next revision; its translations are released.
unfoldable pub supersede : Uuid → TranscriptFinal → ℕ → Store → Option Revision → Stored Store
unfolding load_revision revision_next invalidate_source_translations
supersede session p seq st none = do
  ensure (p.revision == first_revision) (revision_conflict 1 none)
  ok st
supersede session p seq st (some current) = do
  previous ← load_revision session p.segment_id current st
  let conflict = revision_conflict (saturating_next current) (some current)
  ensure
      (is_yes (TranscriptStatus-discrete previous.payload.status failed) && is_asr previous.origin)
      conflict
  next ← validated (revision_next previous.payload.revision)
  ensure (next == p.revision) conflict
  invalidate_source_translations session p.segment_id previous.payload.revision seq st

abbrev pub recognised : Uuid → TranscriptFinal → ℕ → TranscriptRecord
recognised session p seq = record {
  session_id = session;
  payload = p;
  origin = asr;
  created_seq = seq;
}

abbrev pub set_result : Uuid → ℕ → Store → Store
set_result id seq st = record st {
  capture_segments =
      update_where (λ c. c.segment_id == id) (λ c. record c { result_seq = some seq })
        st.capture_segments;
}

unfoldable pub final_work : Uuid → TranscriptFinal → ℕ → Store → Stored Store
unfolding capture_context validate_final_direction supersede insert_revision
    invalidate_analysis_source insert_coverage refresh_integrity save_history
final_work session p seq st = do
  context ← capture_context session p.segment_id st
  validate_final_direction session p st
  ensure (context.track_id == p.track_id && is_yes (AudioRange-discrete context.audio p.audio))
      scope_mismatch
  st1 ← supersede session p seq st context.current_revision
  st2 ← insert_revision (recognised session p seq) st1
  st3 ← invalidate_analysis_source p.segment_id st2
  st4 ← insert_coverage (recognised session p seq) (set_result p.segment_id seq st3)
  save_history session seq (refresh_integrity session st4)

abbrev pub corrected : TranscriptRevision → Revision → ℕ → TranscriptRecord → TranscriptRecord
corrected p next seq r = record r {
  payload = record (r.payload) { revision = next; text = p.text; status = success; reason = none };
  origin = human p.operator_id p.reason p.expected_revision;
  created_seq = seq;
}

abbrev pub stale_coverage : Uuid → Revision → Store → Store
stale_coverage id n st = record st {
  translation_coverage =
      update_where (λ r. r.segment_id == id && r.segment_revision == n)
        (λ r. record r { state = CoverageState.stale }) st.translation_coverage;
}

abbrev pub is_current : Revision → Option Revision → Bool
is_current n none = false
is_current n (some m) = m == n

unfoldable pub revision_work : Uuid → TranscriptRevision → ℕ → Store → Stored Store
unfolding capture_context load_revision revision_next insert_revision invalidate_analysis_source
    invalidate_source_translations insert_coverage refresh_integrity save_history
revision_work session p seq st = do
  context ← capture_context session p.segment_id st
  ensure (is_current p.expected_revision context.current_revision)
      (revision_conflict p.expected_revision context.current_revision)
  base ← load_revision session p.segment_id p.expected_revision st
  next ← validated (revision_next p.expected_revision)
  let r = corrected p next seq base
  st1 ← insert_revision r st
  st2 ← invalidate_analysis_source r.payload.segment_id st1
  st3 ←
      invalidate_source_translations session p.segment_id p.expected_revision seq
        (stale_coverage p.segment_id p.expected_revision st2)
  st4 ← insert_coverage r st3
  save_history session seq (refresh_integrity session st4)

module _ (digest : Body → Text) where
  unfoldable pub ingest_final : Event TranscriptFinal → Store → Stored (Receipt × Store)
  unfolding ingest final_work validate_final
  ingest_final e st = do
    validated (validate_envelope transcript_final e)
    validated (validate_final e.payload)
    ingest digest (as_body transcribed e) (final_work e.session_id e.payload) st

  unfoldable pub revise_transcript : Event TranscriptRevision → Store → Stored (Receipt × Store)
  unfolding ingest revision_work validate_revision
  revise_transcript e st = do
    validated (validate_envelope transcript_revised e)
    validated (validate_revision e.payload)
    ingest digest (as_body revised e) (revision_work e.session_id e.payload) st
