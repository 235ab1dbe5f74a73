-- ===== src/Core/Translation.antt =====
-- Translation requests and their results, desktop/crates/forum-core/src/translation.rs: the loads,
-- the checks of the sources and the works of `request_translation`, `finish_translation` and
-- `fail_translation`. A panic of the source ends as the actor's error.
pub mod Works
pub mod Answers
pub mod Loads
pub mod Once
pub mod Sources
use forum_agent.Shared.{
  ℕ, ◌+◌, ltb, Bool, true, false, ◌&&◌, ◌||◌, not, Option, none, some, List, [], ◌∷◌, ◌++◌, ok, err,
  ensure, if◌then◌else◌, any, find, keep, for_each, ◌==◌, min, ◌>>=◌, ◌>>◌,
}
use forum_agent.Text.{Text, codes, text_eq}
use forum_agent.Contracts.{
  Uuid, Revision, first_revision, invalid, checked_add, u32_mod, revision_next,
}
use forum_agent.Contracts.Transcript.{SourceSpan, validate_against}
use forum_agent.Contracts.Translation.{
  TranslationRequested, TranslationFinal, TranslationFailed, TranslationStatus,
}
use forum_agent.Core.{
  Stored, validated, dependency_not_ready, scope_mismatch, late_result, coverage_conflict,
  validation, actor_panicked,
}
use forum_agent.Core.Tables.{
  TranscriptRecord, Store, CaptureRow, SegmentRow, TranslationRequested-discrete, insert_new,
  update_where, is_yes,
}
use forum_agent.Core.Tables.Translations.{
  AttemptState, AttemptRow, TranslationRow, SourceRow, TranslationRecord, TranslationHistoryRow,
  CoverageRow, CoverageState, Owner, is_requested,
}
use forum_agent.Core.Ingest.{require_session}
use forum_agent.Core.Revision.{
  capture_of, capture_columns, segment_of, capture_context, load_revision, is_success,
}
use forum_agent.Core.Coverage.{claim_span}

abbrev pub translation_of : Uuid → Store → Option TranslationRow
translation_of id st = find (λ t. t.id == id) st.translations

abbrev pub is_attempt : Uuid → Revision → ℕ → AttemptRow → Bool
is_attempt id n k a = a.translation_id == id && a.revision == n && a.attempt == k

-- `MIN(created_seq)` over the attempts of a translation, no greater than `n`.
abbrev pub earliest : ℕ → Uuid → List AttemptRow → ℕ
earliest n id [] = n
earliest n id (a ∷ rows) =
    let rest = earliest n id rows in if a.translation_id == id then min a.created_seq rest else rest

abbrev pub attempt_row :
    Uuid → TranslationRow → Option AttemptRow → Store → Stored TranslationRecord
attempt_row session t none st = err dependency_not_ready
attempt_row session t (some a) st =
    if t.session_id == session
    then ok (record {
      session_id = session;
      request = a.request;
      result = a.result;
      state = a.state;
      text = a.text;
      error = a.error;
      created_seq = earliest a.created_seq t.id st.translation_attempts;
      updated_seq = a.updated_seq;
    })
    else err scope_mismatch

abbrev pub current_attempt : TranslationRow → Store → Option AttemptRow
current_attempt t st =
    find (is_attempt t.id t.current_revision t.current_attempt) st.translation_attempts

abbrev pub translation_row : Uuid → Option TranslationRow → Store → Stored TranslationRecord
translation_row session none st = err dependency_not_ready
translation_row session (some t) st = attempt_row session t (current_attempt t st) st

unfoldable pub load_translation : Uuid → Uuid → Store → Stored TranslationRecord
load_translation session id st = translation_row session (translation_of id st) st

-- `INSERT OR REPLACE`.
unfoldable pub save_translation_history : Uuid → Uuid → ℕ → Store → Stored Store
unfolding load_translation
save_translation_history session id seq st = do
  r ← load_translation session id st
  ok (record st {
    translation_history =
        record { translation_id = id; store_seq = seq; record_json = r }
        ∷ keep (λ h. not (h.translation_id == id && h.store_seq == seq)) st.translation_history;
  })

unfoldable pub save_histories : Uuid → List Uuid → ℕ → Store → Stored Store
unfolding save_translation_history
save_histories session [] seq st = ok st
save_histories session (id ∷ ids) seq st = do
  st1 ← save_translation_history session id seq st
  save_histories session ids seq st1

-- The current revision of a segment against the one that a span quotes.
abbrev same_revision : Revision → Option Revision → Stored (Unit {0})
same_revision n none = err dependency_not_ready
same_revision n (some current) = if current == n then ok tt else err late_result

unfoldable pub check_source : Uuid → TranslationRequested → Store → SourceSpan → Stored (Unit {0})
unfolding capture_context load_revision is_success
check_source session p st span = do
  context ← capture_context session span.segment_id st
  c ← capture_columns (capture_of span.segment_id st)
  ensure (c.direction_epoch == p.direction_epoch) late_result
  same_revision span.segment_revision context.current_revision
  r ← load_revision session span.segment_id span.segment_revision st
  ensure (is_success r.payload.status) dependency_not_ready
  quoted ← validated (validate_against span r.payload.text)
  ok tt

unfoldable pub check_context :
    Uuid → SourceSpan → TranscriptRecord → Store → SourceSpan → Stored (Unit {0})
unfolding load_revision
check_context session first source st span = do
  r ← load_revision session span.segment_id span.segment_revision st
  ensure
      (not (
        not (r.payload.track_id == source.payload.track_id)
        || span.segment_id == first.segment_id && ltb first.start_utf8 span.end_utf8
        || not (span.segment_id == first.segment_id)
          && ltb source.payload.audio.start_ms r.payload.audio.end_ms))
      scope_mismatch

unfoldable pub check_contexts : Uuid → List SourceSpan → List SourceSpan → Store → Stored (Unit {0})
unfolding check_context
check_contexts session sources [] st = ok tt
check_contexts session [] (c ∷ contexts) st = err actor_panicked
check_contexts session (first ∷ sources) (c ∷ contexts) st = do
  source ← load_revision session first.segment_id first.segment_revision st
  for_each (check_context session first source st) (c ∷ contexts)

unfoldable pub current_sources : Uuid → TranslationRequested → Store → Stored (Unit {0})
unfolding check_source check_contexts
current_sources session p st = do
  for_each (check_source session p st) (p.source_spans ++ p.context_spans)
  check_contexts session p.source_spans p.context_spans st

abbrev pub is_open : AttemptState → Bool
is_open AttemptState.requested = true
is_open _ = false

unfoldable pub fence : Uuid → Uuid → Revision → ℕ → ℕ → Store → Stored TranslationRecord
unfolding load_translation current_sources
fence session id n attempt epoch st = do
  r ← load_translation session id st
  ensure
      (r.request.revision == n
        && r.request.attempt == attempt
        && r.request.direction_epoch == epoch
        && is_open r.state)
      late_result
  current_sources session r.request st
  ok r

abbrev pub owned_by : Uuid → Revision → Option Owner → Bool
owned_by id n none = false
owned_by id n (some o) = o.translation_id == id && o.revision == n

abbrev has_epoch : ℕ → Option CaptureRow → Bool
has_epoch epoch none = false
has_epoch epoch (some c) = epoch == c.direction_epoch

abbrev has_current : Revision → Option SegmentRow → Bool
has_current n none = false
has_current n (some s) = elim s.current_revision [ none ↦ false | some m ↦ n == m ]

-- The `CASE`; a comparison with NULL does not hold.
unfoldable pub released : Store → CoverageRow → CoverageRow
released st row = record row {
  state =
      if has_epoch row.direction_epoch (capture_of row.segment_id st)
        && has_current row.segment_revision (segment_of row.segment_id st)
      then CoverageState.pending
      else CoverageState.stale;
  owner = none;
}

unfoldable pub release_coverage : Uuid → Uuid → Revision → Store → Stored Store
unfolding require_session released
release_coverage session id n st = do
  spec ← require_session session st
  ok (record st {
    translation_coverage =
        update_where (λ row. owned_by id n row.owner) (released st) st.translation_coverage;
  })

-- `UPDATE translation_attempts SET … WHERE`.
abbrev pub update_attempts : (AttemptRow → Bool) → (AttemptRow → AttemptRow) → Store → Store
update_attempts test change st = record st {
  translation_attempts = update_where test change st.translation_attempts;
}

abbrev pub go_stale : ℕ → AttemptRow → AttemptRow
go_stale seq a = record a { state = AttemptState.stale; updated_seq = seq }

abbrev pub reads : Uuid → Revision → SourceRow → Bool
reads segment n p = p.span.segment_id == segment && p.span.segment_revision == n

-- Whether an attempt of the session has read the revision.
abbrev pub attempt_reads : Uuid → Uuid → Revision → Store → AttemptRow → Bool
attempt_reads session segment n st a =
    any (λ p. p.translation_id == a.translation_id && p.revision == a.revision && reads segment n p)
      st.translation_sources
    && any (λ t. t.id == a.translation_id && t.session_id == session) st.translations

-- Whether the current request of a translation of the session has read the revision.
abbrev pub translation_reads : Uuid → Uuid → Revision → Store → TranslationRow → Bool
translation_reads session segment n st t =
    t.session_id == session
    && any (λ p. p.translation_id == t.id && p.revision == t.current_revision && reads segment n p)
        st.translation_sources

-- The loop over the translations.
unfoldable pub release_all : Uuid → List TranslationRow → ℕ → Store → Stored Store
unfolding load_translation release_coverage save_translation_history
release_all session [] seq st = ok st
release_all session (t ∷ rows) seq st = do
  r ← load_translation session t.id st
  st1 ← release_coverage session t.id r.request.revision st
  st2 ← save_translation_history session t.id seq st1
  release_all session rows seq st2

unfoldable pub invalidate_source_translations : Uuid → Uuid → Revision → ℕ → Store → Stored Store
unfolding release_all
invalidate_source_translations session segment n seq st =
    let st1 = update_attempts (attempt_reads session segment n st) (go_stale seq) st in
    release_all session (keep (translation_reads session segment n st1) st1.translations) seq st1
