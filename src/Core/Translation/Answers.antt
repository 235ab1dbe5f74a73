-- ===== src/Core/Translation/Answers.antt =====
-- What a result or a failure went through when the store took it.
use forum_agent.Shared.{
  ℕ, ◌≡◌, true, ◌&&◌, ok, ensure, any, ◌==◌, arith, >>=-inversion, >>-inversion, subst,
}
use forum_agent.Text.{text_eq}
use forum_agent.Contracts.{Uuid, Revision, invalid}
use forum_agent.Contracts.Translation.{TranslationFinal, TranslationFailed}
use forum_agent.Core.{late_result, coverage_conflict, validation}
use forum_agent.Core.Tables.{Store}
use forum_agent.Core.Tables.Translations.{TranslationRecord, CoverageState}
use forum_agent.Core.Translation.{
  load_translation, save_translation_history, current_sources, fence, is_open, is_attempt,
  update_attempts,
}
use forum_agent.Core.Translation.Works.{
  finish_work, fail_work, finish_attempt, fail_attempt, settle_coverage, holds, keeps_input,
}

-- The request that an answer names is the current attempt, it is not answered, and its sources are
-- current.
pub record Fenced (session id : Uuid) (n : Revision) (attempt epoch : ℕ) (a : Store)
    (r : TranslationRecord) : Type 0 where
  pub loaded : load_translation session id a ≡ ok r
  pub revision : r.request.revision ≡ n
  pub attempt_no : r.request.attempt ≡ attempt
  pub direction : r.request.direction_epoch ≡ epoch
  pub unanswered : is_open r.state ≡ true
  pub sources : current_sources session r.request a ≡ ok tt

pub fence_cases :
    (session id : Uuid) (n : Revision) (attempt epoch : ℕ) (a : Store) (r : TranslationRecord)
    → fence session id n attempt epoch a ≡ ok r
    → Fenced session id n attempt epoch a r
unfolding fence
fence_cases session id n attempt epoch a r h =
    let (x, loaded, h1) = >>=-inversion (load_translation session id a) _ h in
    let (tests, h2) =
      >>-inversion
        (ensure
          (x.request.revision == n
            && x.request.attempt == attempt
            && x.request.direction_epoch == epoch
            && is_open x.state)
          late_result)
        _ h1 in
    let (sources, h3) = >>-inversion (current_sources session x.request a) _ h2 in
    let same : x ≡ r = cc h3 in
    let whole : Fenced session id n attempt epoch a x = record {
      loaded = loaded;
      revision = ground arith;
      attempt_no = ground arith;
      direction = ground arith;
      unanswered = ground arith;
      sources = sources;
    } in
    subst (Fenced session id n attempt epoch a) same whole

abbrev pub finished_store : TranslationFinal → ℕ → Store → Store
finished_store p seq a =
    settle_coverage p.translation_id p.revision p.attempt CoverageState.final
      (update_attempts (is_attempt p.translation_id p.revision p.attempt) (finish_attempt p seq) a)

pub record Finished (session : Uuid) (p : TranslationFinal) (seq : ℕ) (a b : Store) : Type 0 where
  pub request : TranslationRecord
  pub fenced : Fenced session p.translation_id p.revision p.attempt p.direction_epoch a request
  pub provenance :
      (text_eq p.backend request.request.backend
        && text_eq p.model_manifest_id request.request.model_manifest_id
        && keeps_input p.status p.text request.request.input_text)
      ≡ true
  pub held : any (holds p.translation_id p.revision p.attempt) a.translation_coverage ≡ true
  pub saved : save_translation_history session p.translation_id seq (finished_store p seq a) ≡ ok b

pub finish_work_cases :
    (session : Uuid) (p : TranslationFinal) (seq : ℕ) (a b : Store)
    → finish_work session p seq a ≡ ok b
    → Finished session p seq a b
unfolding finish_work
finish_work_cases session p seq a b h =
    let (r, found, h1) =
      >>=-inversion (fence session p.translation_id p.revision p.attempt p.direction_epoch a) _ h in
    let (same, h2) =
      >>-inversion
        (ensure
          (text_eq p.backend r.request.backend
            && text_eq p.model_manifest_id r.request.model_manifest_id
            && keeps_input p.status p.text r.request.input_text)
          (validation (invalid "translation_result_provenance")))
        _ h1 in
    let (held, h3) =
      >>-inversion
        (ensure (any (holds p.translation_id p.revision p.attempt) a.translation_coverage)
          coverage_conflict)
        _ h2 in
    record {
      request = r;
      fenced =
          fence_cases session p.translation_id p.revision p.attempt p.direction_epoch a r found;
      provenance = ground arith;
      held = ground arith;
      saved = h3;
    }

abbrev pub failed_store : TranslationFailed → ℕ → Store → Store
failed_store p seq a =
    settle_coverage p.translation_id p.revision p.attempt CoverageState.failed
      (update_attempts (is_attempt p.translation_id p.revision p.attempt) (fail_attempt p seq) a)

pub record Failed (session : Uuid) (p : TranslationFailed) (seq : ℕ) (a b : Store) : Type 0 where
  pub request : TranslationRecord
  pub fenced : Fenced session p.translation_id p.revision p.attempt p.direction_epoch a request
  pub saved : save_translation_history session p.translation_id seq (failed_store p seq a) ≡ ok b

pub fail_work_cases :
    (session : Uuid) (p : TranslationFailed) (seq : ℕ) (a b : Store)
    → fail_work session p seq a ≡ ok b
    → Failed session p seq a b
unfolding fail_work
fail_work_cases session p seq a b h =
    let (r, found, h1) =
      >>=-inversion (fence session p.translation_id p.revision p.attempt p.direction_epoch a) _ h in
    record {
      request = r;
      fenced =
          fence_cases session p.translation_id p.revision p.attempt p.direction_epoch a r found;
      saved = h1;
    }
