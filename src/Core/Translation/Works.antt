-- ===== src/Core/Translation/Works.antt =====
-- The three operations on translations, desktop/crates/forum-core/src/translation.rs:
-- `request_translation`, `finish_translation` and `fail_translation`, each a work of `ingest`.
use forum_agent.Shared.{
  ℕ, ◌+◌, Bool, true, false, ◌&&◌, Option, none, some, List, [], ◌∷◌, ◌++◌, ok, ensure,
  if◌then◌else◌, any, ◌==◌, ◌>>=◌, ◌>>◌,
}
use forum_agent.Text.{Text, codes, text_eq}
use forum_agent.Contracts.{
  Uuid, Revision, first_revision, invalid, checked_add, u32_mod, revision_next, non_blank,
}
use forum_agent.Contracts.Event.{
  Event, validate_envelope, translation_requested, translation_final, translation_failed,
}
use forum_agent.Contracts.Transcript.{SourceSpan}
use forum_agent.Contracts.Translation.{
  TranslationRequested, TranslationFinal, TranslationFailed, TranslationStatus, validate_request,
  validate_result, validate_failure, text_when_final,
}
use forum_agent.Core.{Stored, validated, late_result, coverage_conflict, validation}
use forum_agent.Core.Tables.{
  Body, Store, TranslationRequested-discrete, insert_new, update_where, is_yes, requested, finished,
  failed,
}
use forum_agent.Core.Tables.Translations.{
  AttemptState, AttemptRow, TranslationRow, SourceRow, TranslationRecord, CoverageRow,
  CoverageState, is_requested,
}
use forum_agent.Core.Ingest.{Receipt, as_body, ingest}
use forum_agent.Core.Coverage.{claim_span}
use forum_agent.Core.Translation.{
  translation_of, is_attempt, load_translation, save_translation_history, current_sources, fence,
  is_open, release_coverage, update_attempts, go_stale,
}

-- A state that another attempt may follow.
abbrev pub is_unresolved : AttemptState → Bool
is_unresolved AttemptState.requested = true
is_unresolved AttemptState.failed = true
is_unresolved _ = false

abbrev pub follows_attempt : ℕ → ℕ → Bool
follows_attempt old new = elim (checked_add u32_mod old 1) [ none ↦ false | some n ↦ n == new ]

-- Whether `p` starts a new revision of the translation `old` or is its next attempt.
unfoldable pub next_request : TranslationRecord → TranslationRequested → Stored Bool
unfolding revision_next
next_request old p =
    if p.revision == old.request.revision
    then (do
      ensure
          (follows_attempt old.request.attempt p.attempt
            && is_yes (TranslationRequested-discrete (record old.request { attempt = p.attempt }) p)
            && is_unresolved old.state)
          late_result
      ok false)
    else (do
      next ← validated (revision_next old.request.revision)
      ensure (next == p.revision && p.attempt == 1) late_result
      ok true)

abbrev pub set_current_attempt : TranslationRequested → Store → Store
set_current_attempt p st = record st {
  translations =
      update_where (λ t. t.id == p.translation_id)
        (λ t. record t { current_revision = p.revision; current_attempt = p.attempt })
        st.translations;
}

-- The row of the translation; the result tells whether the revision is new.
unfoldable pub place_translation :
    Uuid → TranslationRequested → ℕ → Store → Option TranslationRow → Stored (Bool × Store)
unfolding load_translation next_request release_coverage
place_translation session p seq st none = do
  ensure (p.revision == first_revision && p.attempt == 1) late_result
  ok (
    true,
    record st {
      translations =
          record {
            id = p.translation_id;
            session_id = session;
            current_revision = p.revision;
            current_attempt = p.attempt;
          }
          ∷ st.translations;
    },
  )
place_translation session p seq st (some t) = do
  old ← load_translation session p.translation_id st
  new_revision ← next_request old p
  st1 ← release_coverage session p.translation_id old.request.revision st
  let is_old = λ (a : AttemptRow).
      is_attempt p.translation_id old.request.revision old.request.attempt a && is_open a.state
  ok (new_revision, set_current_attempt p (update_attempts is_old (go_stale seq) st1))

abbrev pub new_attempt : TranslationRequested → ℕ → AttemptRow
new_attempt p seq = record {
  translation_id = p.translation_id;
  revision = p.revision;
  attempt = p.attempt;
  request = p;
  state = AttemptState.requested;
  text = none;
  error = none;
  result = none;
  created_seq = seq;
  updated_seq = seq;
}

unfoldable pub insert_attempt : TranslationRequested → ℕ → Store → Stored Store
insert_attempt p seq st = do
  rows ←
      insert_new (is_attempt p.translation_id p.revision p.attempt) (new_attempt p seq)
        st.translation_attempts
  ok (record st { translation_attempts = rows })

abbrev same_source : TranslationRequested → ℕ → SourceRow → Bool
same_source p i s =
    s.translation_id == p.translation_id && s.revision == p.revision && s.source_index == i

-- The loop over the spans, from index `i`.
unfoldable pub insert_sources :
    TranslationRequested → ℕ → List SourceSpan → List SourceRow → Stored (List SourceRow)
insert_sources p i [] rows = ok rows
insert_sources p i (span ∷ spans) rows = do
  rows1 ←
      insert_new (same_source p i)
        (record {
          translation_id = p.translation_id;
          revision = p.revision;
          source_index = i;
          span = span;
        })
        rows
  insert_sources p (i + 1) spans rows1

unfoldable pub record_sources : Bool → TranslationRequested → Store → Stored Store
unfolding insert_sources
record_sources false p st = ok st
record_sources true p st = do
  rows ← insert_sources p 0 (p.source_spans ++ p.context_spans) st.translation_sources
  ok (record st { translation_sources = rows })

-- The loop over the spans.
unfoldable pub claim_spans :
    TranslationRequested → List SourceSpan → List CoverageRow → Stored (List CoverageRow)
unfolding claim_span
claim_spans p [] rows = ok rows
claim_spans p (span ∷ spans) rows = do rows1 ← claim_span span p rows; claim_spans p spans rows1

unfoldable pub claim_sources : TranslationRequested → Store → Stored Store
unfolding claim_spans
claim_sources p st = do
  rows ← claim_spans p p.source_spans st.translation_coverage
  ok (record st { translation_coverage = rows })

unfoldable pub request_work : Uuid → TranslationRequested → ℕ → Store → Stored Store
unfolding current_sources place_translation insert_attempt record_sources claim_sources
    save_translation_history
request_work session p seq st = do
  current_sources session p st
  (new_revision, st1) ← place_translation session p seq st (translation_of p.translation_id st)
  st2 ← insert_attempt p seq st1
  st3 ← record_sources new_revision p st2
  st4 ← claim_sources p st3
  save_translation_history session p.translation_id seq st4

abbrev pub holds : Uuid → Revision → ℕ → CoverageRow → Bool
holds id n k row = elim row.owner [
  | none ↦ false
  | some o ↦ o.translation_id == id && o.revision == n && o.attempt == k && is_requested row.state
]

abbrev pub settle_coverage : Uuid → Revision → ℕ → CoverageState → Store → Store
settle_coverage id n k state st = record st {
  translation_coverage =
      update_where (holds id n k) (λ row. record row { state = state }) st.translation_coverage;
}

abbrev pub outcome : TranslationStatus → AttemptState
outcome TranslationStatus.final = AttemptState.final
outcome TranslationStatus.passthrough = AttemptState.passthrough

-- A passthrough repeats its input.
abbrev pub keeps_input : TranslationStatus → Text → Text → Bool
keeps_input TranslationStatus.final text input = true
keeps_input TranslationStatus.passthrough text input = text_eq text input

abbrev pub finish_attempt : TranslationFinal → ℕ → AttemptRow → AttemptRow
finish_attempt p seq a = record a {
  state = outcome p.status;
  text = some p.text;
  result = some p;
  updated_seq = seq;
}

unfoldable pub finish_work : Uuid → TranslationFinal → ℕ → Store → Stored Store
unfolding fence save_translation_history
finish_work session p seq st = do
  r ← fence session p.translation_id p.revision p.attempt p.direction_epoch st
  ensure
      (text_eq p.backend r.request.backend
        && text_eq p.model_manifest_id r.request.model_manifest_id
        && keeps_input p.status p.text r.request.input_text)
      (validation (invalid "translation_result_provenance"))
  let st1 =
      update_attempts (is_attempt p.translation_id p.revision p.attempt) (finish_attempt p seq) st
  ensure (any (holds p.translation_id p.revision p.attempt) st1.translation_coverage)
      coverage_conflict
  save_translation_history session p.translation_id seq
      (settle_coverage p.translation_id p.revision p.attempt CoverageState.final st1)

abbrev pub fail_attempt : TranslationFailed → ℕ → AttemptRow → AttemptRow
fail_attempt p seq a = record a {
  state = AttemptState.failed;
  error = some (p.code ++ (codes ": " ++ p.reason));
  updated_seq = seq;
}

unfoldable pub fail_work : Uuid → TranslationFailed → ℕ → Store → Stored Store
unfolding fence save_translation_history
fail_work session p seq st = do
  r ← fence session p.translation_id p.revision p.attempt p.direction_epoch st
  let st1 =
      update_attempts (is_attempt p.translation_id p.revision p.attempt) (fail_attempt p seq) st
  save_translation_history session p.translation_id seq
      (settle_coverage p.translation_id p.revision p.attempt CoverageState.failed st1)

module _ (digest : Body → Text) where
  unfoldable pub request_translation : Event TranslationRequested → Store → Stored (Receipt × Store)
  unfolding ingest request_work
  request_translation e st = do
    validated (validate_envelope translation_requested e)
    validated (validate_request e.payload)
    ingest digest (as_body requested e) (request_work e.session_id e.payload) st

  unfoldable pub finish_translation : Event TranslationFinal → Store → Stored (Receipt × Store)
  unfolding ingest finish_work
  finish_translation e st = do
    validated (validate_envelope translation_final e)
    validated (validate_result e.payload)
    validated (text_when_final e.payload.status e.payload.text)
    ingest digest (as_body finished e) (finish_work e.session_id e.payload) st

  unfoldable pub fail_translation : Event TranslationFailed → Store → Stored (Receipt × Store)
  unfolding ingest fail_work non_blank
  fail_translation e st = do
    validated (validate_envelope translation_failed e)
    validated (validate_failure e.payload)
    validated (non_blank e.payload.code "code")
    validated (non_blank e.payload.reason "reason")
    ingest digest (as_body failed e) (fail_work e.session_id e.payload) st
