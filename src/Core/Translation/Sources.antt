-- ===== src/Core/Translation/Sources.antt =====
-- A result is taken only while every text that its request has read is current.
use forum_agent.Shared.{
  ℕ, ◌≡◌, ◌≢◌, Bool, true, ◌&&◌, Option, none, some, ◌++◌, ok, ensure, any, ◌==◌, ◌∙◌, ap, sym,
  arith, subst, inl, inr, Bool-cases, Option-cases, All, any-All, for_each, for_each-All,
  >>=-inversion, >>-inversion, ◌⊎◌,
}
use forum_agent.Contracts.{Uuid, Revision}
use forum_agent.Contracts.Transcript.{SourceSpan, validate_against}
use forum_agent.Contracts.Transcript.Spans.{Quotes, validate_against_iff}
use forum_agent.Contracts.Translation.{TranslationRequested, TranslationFinal}
use forum_agent.Core.{validated, late_result, dependency_not_ready}
use forum_agent.Core.Tables.{SegmentRow, CaptureRow, TranscriptRecord, Store}
use forum_agent.Core.Tables.Translations.{TranslationRecord}
use forum_agent.Core.Revision.{
  SourceContext, segment_of, capture_of, revision_of, capture_columns, capture_context,
  load_revision, is_success,
}
use forum_agent.Core.Translation.{load_translation, check_source, current_sources, same_revision}
use forum_agent.Core.Translation.Works.{finish_work}
use forum_agent.Core.Translation.Answers.{finish_work_cases}

-- The span quotes the current text of its segment, in the session and the direction of the request.
pub record IsCurrent (session : Uuid) (epoch : ℕ) (st : Store) (span : SourceSpan) : Type 0 where
  pub segment : SegmentRow
  pub there : segment_of span.segment_id st ≡ some segment
  pub own : (segment.session_id == session) ≡ true
  pub current : segment.current_revision ≡ some span.segment_revision
  pub capture : CaptureRow
  pub captured : capture_of span.segment_id st ≡ some capture
  pub direction : capture.direction_epoch ≡ epoch
  pub text : TranscriptRecord
  pub recorded : revision_of span.segment_id span.segment_revision st ≡ some text
  pub succeeded : is_success text.payload.status ≡ true
  pub quotes : Quotes span text.payload.text

-- The rows of a context.
pub record Context (session id : Uuid) (st : Store) (c : SourceContext) : Type 0 where
  pub segment : SegmentRow
  pub there : segment_of id st ≡ some segment
  pub own : (segment.session_id == session) ≡ true
  pub capture : CaptureRow
  pub captured : capture_of id st ≡ some capture
  pub current : c.current_revision ≡ segment.current_revision
  pub track : c.track_id ≡ segment.track_id
  pub audio : c.audio ≡ capture.audio

pub capture_context_cases :
    (session id : Uuid) (st : Store) (c : SourceContext)
    → capture_context session id st ≡ ok c
    → Context session id st c
unfolding capture_context
capture_context_cases session id st c h =
    from_rows (Option-cases (segment_of id st)) (Option-cases (capture_of id st))
  where
    from_rows :
        ((segment_of id st ≡ none) ⊎ ((s : SegmentRow) × (segment_of id st ≡ some s)))
        → ((capture_of id st ≡ none) ⊎ ((k : CaptureRow) × (capture_of id st ≡ some k)))
        → Context session id st c
    from_rows (inl e) k = absurd (ground arith)
    from_rows (inr (s, e)) (inl g) = absurd (ground arith)
    from_rows (inr (s, e)) (inr (k, g)) = elim (Bool-cases (s.session_id == session)) [
      | inr other ↦ absurd (ground arith)
      | inl own ↦ record {
        segment = s;
        there = e;
        own = own;
        capture = k;
        captured = g;
        current = ground arith;
        track = ground arith;
        audio = ground arith;
      }
    ]

same_revision_found : (n : Revision) (o : Option Revision) → same_revision n o ≡ ok tt → o ≡ some n
same_revision_found n none h = absurd (cc h)
same_revision_found n (some m) h = ground arith

pub load_revision_cases :
    (session id : Uuid) (n : Revision) (st : Store) (r : TranscriptRecord)
    → load_revision session id n st ≡ ok r
    → revision_of id n st ≡ some r
unfolding load_revision
load_revision_cases session id n st r h =
    let (context, found, h1) = >>=-inversion (capture_context session id st) _ h in ground arith

capture_columns_found :
    (o : Option CaptureRow) (c : CaptureRow) → capture_columns o ≡ ok c → o ≡ some c
capture_columns_found none c h = absurd (cc h)
capture_columns_found (some d) c h = ground arith

check_source-IsCurrent :
    (session : Uuid) (p : TranslationRequested) (st : Store) (span : SourceSpan)
    → check_source session p st span ≡ ok tt
    → IsCurrent session p.direction_epoch st span
unfolding check_source
check_source-IsCurrent session p st span h =
    let (context, found, h1) = >>=-inversion (capture_context session span.segment_id st) _ h in
    let (c, captured, h2) = >>=-inversion (capture_columns (capture_of span.segment_id st)) _ h1 in
    let (direction, h3) =
      >>-inversion (ensure (c.direction_epoch == p.direction_epoch) late_result) _ h2 in
    let (same, h4) =
      >>-inversion (same_revision span.segment_revision context.current_revision) _ h3 in
    let (r, loaded, h5) =
      >>=-inversion (load_revision session span.segment_id span.segment_revision st) _ h4 in
    let (good, h6) =
      >>-inversion (ensure (is_success r.payload.status) dependency_not_ready) _ h5 in
    let (quoted, valid, h7) =
      >>=-inversion {B = Unit {0}} (validated (validate_against span r.payload.text)) _ h6 in
    let x = capture_context_cases session span.segment_id st context found in
    let epoch : c.direction_epoch ≡ p.direction_epoch = ground arith in
    let accepted : validate_against span r.payload.text ≡ ok quoted = ground arith in
    record {
      segment = x.segment;
      there = x.there;
      own = x.own;
      current =
          sym x.current ∙ same_revision_found span.segment_revision context.current_revision same;
      capture = c;
      captured = capture_columns_found (capture_of span.segment_id st) c captured;
      direction = epoch;
      text = r;
      recorded = load_revision_cases session span.segment_id span.segment_revision st r loaded;
      succeeded = ground arith;
      quotes = ((validate_against_iff span r.payload.text quoted).0 accepted).0;
    }

pub current_sources-IsCurrent :
    (session : Uuid) (p : TranslationRequested) (st : Store)
    → current_sources session p st ≡ ok tt
    → All (IsCurrent session p.direction_epoch st) (p.source_spans ++ p.context_spans)
unfolding current_sources
current_sources-IsCurrent session p st h =
    let (each, h1) =
      >>-inversion (for_each (check_source session p st) (p.source_spans ++ p.context_spans)) _ h in
    for_each-All (IsCurrent session p.direction_epoch st) (check_source session p st)
      (check_source-IsCurrent session p st) (p.source_spans ++ p.context_spans) each

-- A result is taken only for the request that the translation shows, under that request's
-- revision, attempt and direction, and while every span that the request has read, to translate it
-- or as context, quotes the current and successful text of its segment, in the same session and
-- under the request's direction.
pub finished_text :
    (session : Uuid) (p : TranslationFinal) (n : ℕ) (a b : Store)
    → finish_work session p n a ≡ ok b
    → (r : TranslationRecord) × (load_translation session p.translation_id a ≡ ok r)
      × (r.request.revision ≡ p.revision)
      × (r.request.attempt ≡ p.attempt)
      × (r.request.direction_epoch ≡ p.direction_epoch)
      × All
          (IsCurrent session p.direction_epoch a)
          (r.request.source_spans ++ r.request.context_spans)
finished_text session p n a b h =
    let f = finish_work_cases session p n a b h in
    let g = f.fenced in
    let all = current_sources-IsCurrent session f.request.request a g.sources in
    (
      f.request,
      g.loaded,
      g.revision,
      g.attempt_no,
      g.direction,
      subst
          (λ k.
            All (IsCurrent session k a)
              (f.request.request.source_spans ++ f.request.request.context_spans))
          g.direction all,
    )

abbrev pub reads_revision : Uuid → Revision → SourceSpan → Bool
reads_revision id n s = s.segment_id == id && s.segment_revision == n

-- No result is taken for a request that has read a revision which is not the current one.
pub outdated :
    (session id : Uuid) (n : Revision) (q : TranslationFinal) (m : ℕ) (st out : Store)
    (r : TranslationRecord)
    → load_translation session q.translation_id st ≡ ok r
    → any (reads_revision id n) (r.request.source_spans ++ r.request.context_spans) ≡ true
    → ((s : SegmentRow) → segment_of id st ≡ some s → s.current_revision ≢ some n)
    → finish_work session q m st ≢ ok out
outdated session id n q m st out r loaded read moved h =
    let (x, found, rev, att, dir, all) = finished_text session q m st out h in
    let same : x ≡ r = cc (found, loaded) in
    let all' =
      subst
        (λ (y : TranslationRecord).
          All (IsCurrent session q.direction_epoch st)
            (y.request.source_spans ++ y.request.context_spans))
        same all in
    let (span, hit, c) =
      any-All (IsCurrent session q.direction_epoch st) (reads_revision id n)
        (r.request.source_spans ++ r.request.context_spans) read all' in
    let key : span.segment_id ≡ id = ground arith in
    let number : span.segment_revision ≡ n = ground arith in
    moved c.segment (ap (λ k. segment_of k st) (sym key) ∙ c.there) (c.current ∙ ap some number)
