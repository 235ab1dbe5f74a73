-- ===== src/Core/Aside/Translations.antt =====
-- The operations on translations leave the rest of the store alone.
use forum_agent.Shared.{
  ℕ, ◌≡◌, refl, Bool, true, false, List, [], ◌∷◌, Option, none, some, ok, arith, subst,
  >>=-inversion, >>-inversion,
}
use forum_agent.Contracts.{Uuid, Revision}
use forum_agent.Contracts.Translation.{
  TranslationRequested, TranslationFinal, TranslationFailed, DirectionChanged, DirectionBoundary,
}
use forum_agent.Core.Tables.{TranscriptRecord, Store}
use forum_agent.Core.Revision.{insert_coverage}
use forum_agent.Core.Tables.Translations.{TranslationRow}
use forum_agent.Core.Aside.{Quiet, Quiet-refl, Quiet-trans}
use forum_agent.Core.Aside.Texts.{insert_coverage-Quiet}
use forum_agent.Core.Translation.{
  load_translation, save_translation_history, save_histories, release_coverage, release_all,
  invalidate_source_translations, update_attempts, attempt_reads, go_stale, translation_of,
  current_sources,
}
use forum_agent.Core.Translation.Works.{
  place_translation, insert_attempt, record_sources, claim_sources, request_work, finish_work,
  fail_work, next_request,
}
use forum_agent.Core.Translation.Answers.{
  finish_work_cases, fail_work_cases, finished_store, failed_store,
}
use forum_agent.Core.Direction.{apply_direction_boundary, cover_all, directed}

pub save_translation_history-Quiet :
    (session id : Uuid) (seq : ℕ) (a b : Store)
    → save_translation_history session id seq a ≡ ok b
    → Quiet a b
unfolding save_translation_history
save_translation_history-Quiet session id seq a b h = ground arith

pub save_histories-Quiet :
    (session : Uuid) (ids : List Uuid) (seq : ℕ) (a b : Store)
    → save_histories session ids seq a ≡ ok b
    → Quiet a b
unfolding save_histories
save_histories-Quiet session [] seq a b h =
    let same : a ≡ b = cc h in subst (Quiet a) same (Quiet-refl a)
save_histories-Quiet session (id ∷ ids) seq a b h =
    let (st, saved, h1) = >>=-inversion (save_translation_history session id seq a) _ h in
    Quiet-trans (save_translation_history-Quiet session id seq a st saved)
      (save_histories-Quiet session ids seq st b h1)

pub release_coverage-Quiet :
    (session id : Uuid) (n : Revision) (a b : Store)
    → release_coverage session id n a ≡ ok b
    → Quiet a b
unfolding release_coverage
release_coverage-Quiet session id n a b h = ground arith

release_all-Quiet :
    (session : Uuid) (rows : List TranslationRow) (seq : ℕ) (a b : Store)
    → release_all session rows seq a ≡ ok b
    → Quiet a b
unfolding release_all
release_all-Quiet session [] seq a b h =
    let same : a ≡ b = cc h in subst (Quiet a) same (Quiet-refl a)
release_all-Quiet session (t ∷ rows) seq a b h =
    let (r, found, h1) = >>=-inversion (load_translation session t.id a) _ h in
    let (st1, released, h2) =
      >>=-inversion (release_coverage session t.id r.request.revision a) _ h1 in
    let (st2, saved, h3) = >>=-inversion (save_translation_history session t.id seq st1) _ h2 in
    Quiet-trans (release_coverage-Quiet session t.id r.request.revision a st1 released) (
      Quiet-trans (save_translation_history-Quiet session t.id seq st1 st2 saved)
        (release_all-Quiet session rows seq st2 b h3))

pub invalidate_source_translations-Quiet :
    (session segment : Uuid) (n : Revision) (seq : ℕ) (a b : Store)
    → invalidate_source_translations session segment n seq a ≡ ok b
    → Quiet a b
unfolding invalidate_source_translations
invalidate_source_translations-Quiet session segment n seq a b h =
    let first : Quiet a (update_attempts (attempt_reads session segment n a) (go_stale seq) a) =
      record {
        log = refl;
        queue = refl;
        counter = refl;
        sessions = refl;
        seals = refl;
        recovered = refl;
        segments = refl;
        texts = refl;
      } in
    Quiet-trans first (release_all-Quiet session _ seq _ b h)

place_translation-Quiet :
    (session : Uuid) (p : TranslationRequested) (seq : ℕ) (a b : Store) (t : Option TranslationRow)
    (new : Bool)
    → place_translation session p seq a t ≡ ok (new, b)
    → Quiet a b
unfolding place_translation
place_translation-Quiet session p seq a b none new h = ground arith
place_translation-Quiet session p seq a b (some t) new h =
    let (old, found, h1) = >>=-inversion (load_translation session p.translation_id a) _ h in
    let (fresh, decided, h2) = >>=-inversion (next_request old p) _ h1 in
    let (st1, released, h3) =
      >>=-inversion (release_coverage session p.translation_id old.request.revision a) _ h2 in
    let first =
      release_coverage-Quiet session p.translation_id old.request.revision a st1 released in
    Quiet-trans first (ground arith)

insert_attempt-Quiet :
    (p : TranslationRequested) (seq : ℕ) (a b : Store) → insert_attempt p seq a ≡ ok b → Quiet a b
unfolding insert_attempt
insert_attempt-Quiet p seq a b h = ground arith

record_sources-Quiet :
    (new : Bool) (p : TranslationRequested) (a b : Store)
    → record_sources new p a ≡ ok b
    → Quiet a b
unfolding record_sources
record_sources-Quiet true p a b h = ground arith
record_sources-Quiet false p a b h = ground arith

claim_sources-Quiet :
    (p : TranslationRequested) (a b : Store) → claim_sources p a ≡ ok b → Quiet a b
unfolding claim_sources
claim_sources-Quiet p a b h = ground arith

pub request_work-Quiet :
    (session : Uuid) (p : TranslationRequested) (seq : ℕ) (a b : Store)
    → request_work session p seq a ≡ ok b
    → Quiet a b
unfolding request_work
request_work-Quiet session p seq a b h =
    let (current, h1) = >>-inversion (current_sources session p a) _ h in
    let ((new, st1), placed, h2) =
      >>=-inversion (place_translation session p seq a (translation_of p.translation_id a)) _ h1 in
    let (st2, put, h3) = >>=-inversion (insert_attempt p seq st1) _ h2 in
    let (st3, noted, h4) = >>=-inversion (record_sources new p st2) _ h3 in
    let (st4, claimed, h5) = >>=-inversion (claim_sources p st3) _ h4 in
    Quiet-trans (place_translation-Quiet session p seq a st1 _ new placed) (
      Quiet-trans (insert_attempt-Quiet p seq st1 st2 put) (
        Quiet-trans (record_sources-Quiet new p st2 st3 noted) (
          Quiet-trans (claim_sources-Quiet p st3 st4 claimed)
            (save_translation_history-Quiet session p.translation_id seq st4 b h5))))

-- A store that differs in its translation tables only.
abbrev retold : Store → Store → Store
retold a b = record a {
  translation_attempts = b.translation_attempts;
  translation_coverage = b.translation_coverage;
}

answered : (a b : Store) → b ≡ retold a b → Quiet a b
answered a b h = ground arith

pub finish_work-Quiet :
    (session : Uuid) (p : TranslationFinal) (seq : ℕ) (a b : Store)
    → finish_work session p seq a ≡ ok b
    → Quiet a b
finish_work-Quiet session p seq a b h =
    let f = finish_work_cases session p seq a b h in
    Quiet-trans (answered a (finished_store p seq a) refl) (
      save_translation_history-Quiet session p.translation_id seq (finished_store p seq a) b
        f.saved)

pub fail_work-Quiet :
    (session : Uuid) (p : TranslationFailed) (seq : ℕ) (a b : Store)
    → fail_work session p seq a ≡ ok b
    → Quiet a b
fail_work-Quiet session p seq a b h =
    let f = fail_work_cases session p seq a b h in
    Quiet-trans (answered a (failed_store p seq a) refl)
      (save_translation_history-Quiet session p.translation_id seq (failed_store p seq a) b f.saved)

pub apply_direction_boundary-Quiet :
    (session : Uuid) (p : DirectionChanged) (d : DirectionBoundary) (seq : ℕ) (a b : Store)
    → apply_direction_boundary session p d seq a ≡ ok b
    → Quiet a b
unfolding apply_direction_boundary
apply_direction_boundary-Quiet session p d seq a b h = ground arith

pub cover_all-Quiet :
    (p : DirectionChanged) (rows : List TranscriptRecord) (a b : Store)
    → cover_all p rows a ≡ ok b
    → Quiet a b
unfolding cover_all
cover_all-Quiet p [] a b h = let same : a ≡ b = cc h in subst (Quiet a) same (Quiet-refl a)
cover_all-Quiet p (r ∷ rows) a b h =
    let (st, covered, h1) = >>=-inversion (insert_coverage (directed p r) a) _ h in
    Quiet-trans (insert_coverage-Quiet (directed p r) a st covered) (cover_all-Quiet p rows st b h1)
