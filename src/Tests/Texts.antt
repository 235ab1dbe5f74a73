-- ===== src/Tests/Texts.antt =====
-- A segment that is recognised, asked for in translation, answered and corrected.
use native.Mathlib.Decide.{ℕ_discrete}
use forum_agent.Shared.{
  ℕ, ◌+◌, ◌≡◌, ◌≢◌, refl, true, false, none, some, List, [], ◌∷◌, ◌++◌, ok, err, is_ok, All, arith,
}
use forum_agent.Text.{
  codes, text_eq, utf8_len, utf8_width, get_range, skip_bytes, take_bytes, is_blank, is_whitespace,
  trim, trim_start,
}
use forum_agent.Contracts.{
  Uuid, non_nil, revision_next, revision_try_from, non_blank, sqlite_integer,
}
use forum_agent.Contracts.Session.{recording}
use forum_agent.Contracts.Transcript.{
  SourceSpan, TranscriptFinal, TranscriptRevision, success, validate_against,
  TranscriptStatus-discrete, validate_targets,
}
use forum_agent.Contracts.Translation.{
  TranslationRequested, TranslationFinal, TranslationFailed, TranslationStatus, DirectionChanged,
}
use forum_agent.Core.{Stored, late_result}
use forum_agent.Core.Tables.{
  human, Store, SegmentRow, TranscriptRecord, AudioRange-discrete, SessionStatus,
}
use forum_agent.Core.Tables.Translations.{AttemptState, TranslationRecord}
use forum_agent.Core.Tables.Artifacts.{
  ArtifactRecord, ArtifactValidation, ArtifactReview, ArtifactPublication, DependencyKind,
  ArtifactValidation-discrete,
}
use forum_agent.Core.Ingest.{
  require_session, committed, ingest, register_event, decide_delivery, settle_delivery,
  append_outbox,
}
use forum_agent.Core.Session.{load_session_status, save_history, new_session}
use forum_agent.Core.Seal.{refresh_integrity}
use forum_agent.Core.Revision.{
  capture_context, load_revision, is_success, insert_revision, cover_target, cover_targets,
  insert_coverage, same_range, revision_of, segment_of,
}
use forum_agent.Core.Coverage.{claim_span, claim_rows, claim_row, coverage_piece, of_text}
use forum_agent.Core.Translation.{
  load_translation, save_translation_history, check_source, check_contexts, current_sources, fence,
  released, release_coverage, release_all, invalidate_source_translations, save_histories,
}
use forum_agent.Core.Translation.Works.{
  place_translation, insert_attempt, insert_sources, record_sources, claim_spans, claim_sources,
  request_work, finish_work, fail_work, outcome,
}
use forum_agent.Core.Direction.{
  texts_eq, validate_final_direction, change_direction, direction_work, settle_direction,
  turn_session, cover_all, next_epoch,
}
use forum_agent.Core.Artifact.{
  mark_stale, load_artifact, save_artifact, tombstone, is_stale, invalidate_loop,
  invalidate_artifacts, invalidate_analysis_source,
}
use forum_agent.Core.Transcript.{supersede, final_work, revision_work, recognised}
use forum_agent.Core.Operations.{or_stay, Operation, revise, run}
use forum_agent.Core.Translation.Once.{IsKeyed, IsSameAttempt, answered_once}
use forum_agent.Core.Translation.Sources.{IsCurrent, finished_text}
use forum_agent.Core.Transcript.Corrections.{correction_recorded, correction_fences}
use forum_agent.Core.Artifact.Marks.{artifact_of, stale_at}
use forum_agent.Core.Artifact.Closure.{Reaches, rest_on_segment, invalidation_closure}
use forum_agent.Core.Artifact.Total.{AreThere, invalidation_total}
use forum_agent.Tests.Store.{
  meeting, microphone, one_second, empty_store, short_digest, short_manifest, event_of, receipt_of,
  committed_receipt,
}
use forum_agent.Core.Operations.Consistent.{IsConsistent}
use forum_agent.Core.Operations.Texts.{recorded_for_good}
use forum_agent.Contracts.Event.{
  Event, direction_changed, transcript_revised, validate_envelope, EventType-discrete,
}
use forum_agent.Core.Direction.Epochs.{direction_counted}

abbrev captured_store : Store
captured_store = record empty_store {
  sessions = record (new_session meeting) { state = recording } ∷ [];
  tracks = microphone ∷ [];
  segments = record { id = 8; session_id = 3; track_id = 5; current_revision = none } ∷ [];
  capture_segments =
      record {
        segment_id = 8;
        audio = one_second.audio;
        recording_ref = none;
        created_seq = 1;
        result_seq = none;
        direction_epoch = 1;
        configured_source_language = none;
        targets = none;
      }
      ∷ [];
}

abbrev heard_text : TranscriptFinal
heard_text = record {
  track_id = 5;
  segment_id = 8;
  revision = 1;
  audio = one_second.audio;
  text = codes "gut";
  configured_source_language = codes "de";
  detected_language = none;
  target_languages = codes "en" ∷ [];
  direction_epoch = 1;
  speaker_id = none;
  status = success;
  reason = none;
  backend = codes "q";
  model_manifest_id = codes "m";
}

abbrev heard : Store
heard = or_stay (final_work 3 heard_text 2 captured_store) captured_store

abbrev heard_span : SourceSpan
heard_span = record {
  segment_id = 8;
  segment_revision = 1;
  start_utf8 = 0;
  end_utf8 = 3;
  quote = codes "gut";
}

abbrev ask : TranslationRequested
ask = record {
  translation_id = 9;
  revision = 1;
  attempt = 1;
  target_language = codes "en";
  direction_epoch = 1;
  source_spans = heard_span ∷ [];
  context_spans = [];
  input_text = codes "gut";
  normalization_version = codes "identity-v1";
  backend = codes "q";
  model_manifest_id = codes "m";
}

abbrev asked : Store
asked = or_stay (request_work 3 ask 3 heard) heard

abbrev answer : TranslationFinal
answer = record {
  translation_id = 9;
  revision = 1;
  attempt = 1;
  direction_epoch = 1;
  text = codes "good";
  status = TranslationStatus.final;
  backend = codes "q";
  model_manifest_id = codes "m";
  elapsed_ms = 5;
}

abbrev answered : Store
answered = or_stay (finish_work 3 answer 4 asked) asked

or_stay_ok : (o : Stored Store) (st : Store) → is_ok o ≡ true → o ≡ ok (or_stay o st)
or_stay_ok (ok b) st h = refl
or_stay_ok (err e) st h = absurd (cc h)

answered_ok : is_ok (finish_work 3 answer 4 asked) ≡ true
unfolding final_work capture_context validate_final_direction texts_eq supersede insert_revision
    invalidate_analysis_source invalidate_artifacts invalidate_loop insert_coverage cover_targets
    cover_target same_range is_success TranscriptStatus-discrete refresh_integrity save_history
    load_session_status text_eq utf8_len utf8_width request_work current_sources check_source
    check_contexts load_revision validate_against non_nil get_range skip_bytes take_bytes
    place_translation insert_attempt record_sources insert_sources claim_sources claim_spans
    claim_span claim_rows claim_row coverage_piece of_text save_translation_history load_translation
    AudioRange-discrete ℕ_discrete finish_work fence
answered_ok = refl

asked-IsKeyed : All IsKeyed asked.translation_attempts
unfolding final_work capture_context validate_final_direction texts_eq supersede insert_revision
    invalidate_analysis_source invalidate_artifacts invalidate_loop insert_coverage cover_targets
    cover_target same_range is_success TranscriptStatus-discrete refresh_integrity save_history
    load_session_status text_eq utf8_len utf8_width request_work current_sources check_source
    check_contexts load_revision validate_against non_nil get_range skip_bytes take_bytes
    place_translation insert_attempt record_sources insert_sources claim_sources claim_spans
    claim_span claim_rows claim_row coverage_piece of_text save_translation_history load_translation
    AudioRange-discrete ℕ_discrete
asked-IsKeyed = (refl, tt)

answer_taken : finish_work 3 answer 4 asked ≡ ok answered
answer_taken = or_stay_ok (finish_work 3 answer 4 asked) asked answered_ok

finished_text_example :
    (r : TranslationRecord) × (load_translation 3 9 asked ≡ ok r)
    × (r.request.revision ≡ 1)
    × (r.request.attempt ≡ 1)
    × (r.request.direction_epoch ≡ 1)
    × All (IsCurrent 3 1 asked) (r.request.source_spans ++ r.request.context_spans)
finished_text_example = finished_text 3 answer 4 asked answered answer_taken

abbrev fix : TranscriptRevision
fix = record {
  segment_id = 8;
  expected_revision = 1;
  text = codes "gute";
  reason = codes "r";
  operator_id = codes "o";
}

abbrev fixed : Store
fixed = or_stay (revision_work 3 fix 4 asked) asked

fixed_ok : is_ok (revision_work 3 fix 4 asked) ≡ true
unfolding final_work capture_context validate_final_direction texts_eq supersede insert_revision
    invalidate_analysis_source invalidate_artifacts invalidate_loop insert_coverage cover_targets
    cover_target same_range is_success TranscriptStatus-discrete refresh_integrity save_history
    load_session_status text_eq utf8_len utf8_width request_work current_sources check_source
    check_contexts load_revision validate_against non_nil get_range skip_bytes take_bytes
    place_translation insert_attempt record_sources insert_sources claim_sources claim_spans
    claim_span claim_rows claim_row coverage_piece of_text save_translation_history load_translation
    AudioRange-discrete ℕ_discrete revision_work revision_next revision_try_from
    invalidate_source_translations release_all release_coverage released require_session
fixed_ok = refl

fix_taken : revision_work 3 fix 4 asked ≡ ok fixed
fix_taken = or_stay_ok (revision_work 3 fix 4 asked) asked fixed_ok

correction_recorded_example :
    (base : TranscriptRecord) × (s : SegmentRow) × (revision_of 8 1 asked ≡ some base)
    × (segment_of 8 asked ≡ some s)
    × (s.current_revision ≡ some 1)
    × (revision_of 8 2 fixed
        ≡ some (record base {
          payload = record (base.payload) {
            revision = 2;
            text = codes "gute";
            status = success;
            reason = none;
          };
          origin = human (codes "o") (codes "r") 1;
          created_seq = 4;
        }))
    × (segment_of 8 fixed ≡ some (record s { current_revision = some 2 }))
    × (revision_of 8 1 fixed ≡ some base)
correction_recorded_example = correction_recorded 3 fix 4 asked fixed fix_taken

abbrev outdated_record : TranslationRecord
outdated_record = record {
  session_id = 3;
  request = ask;
  result = none;
  state = AttemptState.stale;
  text = none;
  error = none;
  created_seq = 3;
  updated_seq = 4;
}

outdated_loaded : load_translation 3 9 fixed ≡ ok outdated_record
unfolding final_work capture_context validate_final_direction texts_eq supersede insert_revision
    invalidate_analysis_source invalidate_artifacts invalidate_loop insert_coverage cover_targets
    cover_target same_range is_success TranscriptStatus-discrete refresh_integrity save_history
    load_session_status text_eq utf8_len utf8_width request_work current_sources check_source
    check_contexts load_revision validate_against non_nil get_range skip_bytes take_bytes
    place_translation insert_attempt record_sources insert_sources claim_sources claim_spans
    claim_span claim_rows claim_row coverage_piece of_text save_translation_history load_translation
    AudioRange-discrete ℕ_discrete revision_work revision_next revision_try_from
    invalidate_source_translations release_all release_coverage released require_session
outdated_loaded = refl

correction_fences_example : finish_work 3 answer 5 fixed ≢ ok fixed
correction_fences_example =
    correction_fences 3 fix 4 asked fixed fix_taken answer outdated_record outdated_loaded refl 5
      fixed

abbrev report : ℕ → ArtifactRecord
report id = record {
  artifact_id = id;
  revision = 1;
  event_id = 1;
  session_ids = 3 ∷ [];
  snapshot_id = 70;
  coverage_complete = true;
  validation = ArtifactValidation.valid;
  review = ArtifactReview.approved;
  publication = ArtifactPublication.published;
  operator_id = none;
  reason = none;
  detail = [];
}

-- Report 21 rests on the segment, 22 on 21 and 21 on 22; 23 rests on another segment.
abbrev reported : Store
reported = record captured_store {
  analysis_artifacts = report 21 ∷ report 22 ∷ report 23 ∷ [];
  artifact_dependencies =
      record { artifact_id = 21; dependency_kind = DependencyKind.source; dependency_id = 8 }
      ∷ record { artifact_id = 22; dependency_kind = DependencyKind.artifact; dependency_id = 21 }
      ∷ record { artifact_id = 21; dependency_kind = DependencyKind.artifact; dependency_id = 22 }
      ∷ record { artifact_id = 23; dependency_kind = DependencyKind.source; dependency_id = 4 }
      ∷ [];
}

reports-AreThere : AreThere reported.artifact_dependencies reported
reports-AreThere id h = ground arith

invalidation_total_example : (b : Store) × (invalidate_analysis_source 8 reported ≡ ok b)
invalidation_total_example = invalidation_total 8 reported reports-AreThere

abbrev revoked : Store
revoked = or_stay (invalidate_analysis_source 8 reported) reported

revoked_ok : is_ok (invalidate_analysis_source 8 reported) ≡ true
unfolding invalidate_analysis_source invalidate_artifacts invalidate_loop mark_stale load_artifact
    save_artifact tombstone is_stale ArtifactValidation-discrete
revoked_ok = refl

revoked_taken : invalidate_analysis_source 8 reported ≡ ok revoked
revoked_taken = or_stay_ok (invalidate_analysis_source 8 reported) reported revoked_ok

invalidation_closure_example :
    ((id : Uuid)
      → Reaches reported.artifact_dependencies (rest_on_segment 8 reported) id
      → stale_at id revoked ≡ true)
    × ((id : Uuid)
        → ¬ Reaches reported.artifact_dependencies (rest_on_segment 8 reported) id
        → artifact_of id revoked ≡ artifact_of id reported)
invalidation_closure_example = invalidation_closure 8 reported revoked revoked_taken

-- The answer stays when the analyses of its source are revoked.
abbrev analysed : Store
analysed = record answered {
  analysis_artifacts = reported.analysis_artifacts;
  artifact_dependencies = reported.artifact_dependencies;
}

abbrev withdrawn : Store
withdrawn = or_stay (invalidate_analysis_source 8 analysed) analysed

still_answered : IsSameAttempt 9 answered withdrawn
unfolding final_work capture_context validate_final_direction texts_eq supersede insert_revision
    invalidate_analysis_source invalidate_artifacts invalidate_loop insert_coverage cover_targets
    cover_target same_range is_success TranscriptStatus-discrete refresh_integrity save_history
    load_session_status text_eq utf8_len utf8_width request_work current_sources check_source
    check_contexts load_revision validate_against non_nil get_range skip_bytes take_bytes
    place_translation insert_attempt record_sources insert_sources claim_sources claim_spans
    claim_span claim_rows claim_row coverage_piece of_text save_translation_history load_translation
    AudioRange-discrete ℕ_discrete finish_work fence mark_stale load_artifact save_artifact
    tombstone is_stale ArtifactValidation-discrete
still_answered = (refl, λ t h. refl)

answered_once_example :
    ((r : TranslationRecord) × (load_translation 3 9 withdrawn ≡ ok r)
      × (r.state ≡ outcome TranslationStatus.final)
      × (r.text ≡ some (codes "good"))
      × (r.result ≡ some answer))
    × ((q : TranslationFinal) (m : ℕ)
        → q.translation_id ≡ 9
        → finish_work 3 q m withdrawn ≡ err late_result)
    × ((q : TranslationFailed) (m : ℕ)
        → q.translation_id ≡ 9
        → fail_work 3 q m withdrawn ≡ err late_result)
answered_once_example =
    answered_once 3 answer 4 asked answered withdrawn asked-IsKeyed answer_taken still_answered

abbrev first_text : TranscriptRecord
first_text = recognised 3 heard_text 1

abbrev with_text : Store
with_text = record captured_store {
  segments = record { id = 8; session_id = 3; track_id = 5; current_revision = some 1 } ∷ [];
  segment_revisions = first_text ∷ [];
}

with_text-IsConsistent : IsConsistent with_text
with_text-IsConsistent = record {
  log = record { bounded = tt; ordered = tt; published = refl };
  catalog = record { distinct = (tt, tt); lawful = ((refl, refl), tt) };
}

abbrev corrections : List Operation
corrections =
    revise (event_of 1 transcript_revised fix) ∷ revise (event_of 2 transcript_revised fix) ∷ []

recorded_for_good_example :
    revision_of 8 1 (run short_manifest short_digest corrections with_text) ≡ some first_text
recorded_for_good_example =
    recorded_for_good 8 1 first_text short_digest short_manifest corrections with_text
      with_text-IsConsistent refl

abbrev to_french : Event DirectionChanged
to_french = event_of 1 direction_changed (record {
  expected_epoch = 1;
  direction_epoch = 2;
  target_languages = codes "fr" ∷ [];
  boundary = none;
})

abbrev turned_store : Store
turned_store = committed (change_direction short_digest to_french with_text) with_text

turned_receipt :
    receipt_of (change_direction short_digest to_french with_text)
    ≡ some (record { message_id = 101; store_seq = 1; duplicate = false })
unfolding change_direction direction_work settle_direction turn_session cover_all insert_coverage
    cover_targets cover_target same_range save_histories save_history load_session_status ingest
    register_event decide_delivery settle_delivery append_outbox require_session validate_envelope
    non_nil non_blank sqlite_integer is_blank is_whitespace trim trim_start EventType-discrete
    next_epoch validate_targets is_success TranscriptStatus-discrete utf8_len utf8_width text_eq
turned_receipt = refl

direction_counted_example :
    (s : SessionStatus) × (load_session_status 3 with_text ≡ ok s)
    × (load_session_status 3 turned_store
        ≡ ok (record s {
          direction_epoch = s.direction_epoch + 1;
          target_languages = codes "fr" ∷ [];
          state_seq = 1;
        }))
direction_counted_example =
    direction_counted short_digest to_french with_text turned_store
      (record { message_id = 101; store_seq = 1; duplicate = false })
      (committed_receipt (change_direction short_digest to_french with_text) _ with_text
        turned_receipt)
      refl
