-- ===== src/Core/Transcript/Frame.antt =====
-- What a recognised or a revised text went through, and what it leaves alone.
use forum_agent.Shared.{
  ℕ, ◌≡◌, refl, true, ◌&&◌, Option, none, some, ok, ensure, ◌==◌, arith, >>=-inversion,
  >>-inversion, ap, ◌∙◌,
}
use forum_agent.Contracts.{Uuid, Revision, revision_next}
use forum_agent.Contracts.Transcript.{
  TranscriptFinal, TranscriptRevision, TranscriptStatus-discrete, failed,
}
use forum_agent.Core.{validated, scope_mismatch, revision_conflict}
use forum_agent.Core.Tables.{TranscriptRecord, Store, AudioRange-discrete, is_yes}
use forum_agent.Core.Ingest.Log.{Keeps-trans, Keeps}
use forum_agent.Core.Session.{save_history}
use forum_agent.Core.Session.Frame.{save_history-Keeps}
use forum_agent.Core.Seal.{refresh_integrity}
use forum_agent.Core.Seal.Frame.{refresh_integrity-Keeps}
use forum_agent.Core.Aside.{Aside, Quiet, Quiet-trans, Quiet-Aside, Aside-trans, Aside-Keeps}
use forum_agent.Core.Aside.Texts.{
  insert_revision-Aside, insert_coverage-Quiet, invalidate_analysis_source-Quiet,
}
use forum_agent.Core.Aside.Translations.{invalidate_source_translations-Quiet}
use forum_agent.Core.Revision.{
  SourceContext, capture_context, load_revision, insert_revision, insert_coverage,
}
use forum_agent.Core.Translation.{invalidate_source_translations}
use forum_agent.Core.Direction.{validate_final_direction}
use forum_agent.Core.Artifact.{invalidate_analysis_source}
use forum_agent.Core.Transcript.{
  supersede, recognised, set_result, final_work, corrected, stale_coverage, is_current,
  revision_work, is_asr, saturating_next,
}

-- The end that both works have.
pub record Settled (session : Uuid) (seq : ℕ) (a b : Store) : Type 0 where
  pub before : Store
  pub aside : Aside a before
  pub saved : save_history session seq (refresh_integrity session before) ≡ ok b

pub Settled-Keeps : (session : Uuid) (seq : ℕ) (a b : Store) → Settled session seq a b → Keeps a b
Settled-Keeps session seq a b s = Keeps-trans (Aside-Keeps s.aside) (
    Keeps-trans (refresh_integrity-Keeps session s.before)
      (save_history-Keeps session seq _ b s.saved))

-- The revision that a recognition replaces was a failed one, and its number is the one before.
pub record Superseded (session : Uuid) (p : TranscriptFinal) (seq : ℕ) (a b : Store)
    (current : Revision) : Type 0 where
  pub previous : TranscriptRecord
  pub loaded : load_revision session p.segment_id current a ≡ ok previous
  pub failed_before : is_yes (TranscriptStatus-discrete previous.payload.status failed) ≡ true
  pub recognised_before : is_asr previous.origin ≡ true
  pub next : validated (revision_next previous.payload.revision) ≡ ok p.revision
  pub released :
      invalidate_source_translations session p.segment_id previous.payload.revision seq a ≡ ok b

pub supersede_cases :
    (session : Uuid) (p : TranscriptFinal) (seq : ℕ) (a b : Store) (current : Revision)
    → supersede session p seq a (some current) ≡ ok b
    → Superseded session p seq a b current
unfolding supersede
supersede_cases session p seq a b current h =
    let (previous, loaded, h1) = >>=-inversion (load_revision session p.segment_id current a) _ h in
    let conflict = revision_conflict (saturating_next current) (some current) in
    let (before, h2) =
      >>-inversion
        (ensure
          (is_yes (TranscriptStatus-discrete previous.payload.status failed)
            && is_asr previous.origin)
          conflict)
        _ h1 in
    let (next, counted, h3) =
      >>=-inversion (validated (revision_next previous.payload.revision)) _ h2 in
    let (same, h4) = >>-inversion (ensure (next == p.revision) conflict) _ h3 in
    let number : next ≡ p.revision = ground arith in
    record {
      previous = previous;
      loaded = loaded;
      failed_before = ground arith;
      recognised_before = ground arith;
      next = counted ∙ ap ok number;
      released = h4;
    }

pub supersede-Quiet :
    (session : Uuid) (p : TranscriptFinal) (seq : ℕ) (a b : Store) (current : Option Revision)
    → supersede session p seq a current ≡ ok b
    → Quiet a b
unfolding supersede
supersede-Quiet session p seq a b none h = ground arith
supersede-Quiet session p seq a b (some current) h =
    invalidate_source_translations-Quiet session p.segment_id _ seq a b
      (supersede_cases session p seq a b current h).released

pub record Recognised (session : Uuid) (p : TranscriptFinal) (seq : ℕ) (a b : Store) : Type 0 where
  pub context : SourceContext
  pub found : capture_context session p.segment_id a ≡ ok context
  pub directed : validate_final_direction session p a ≡ ok tt
  pub matching :
      (context.track_id == p.track_id && is_yes (AudioRange-discrete context.audio p.audio)) ≡ true
  pub superseding : Store
  pub superseded : supersede session p seq a context.current_revision ≡ ok superseding
  pub written : Store
  pub inserted : insert_revision (recognised session p seq) superseding ≡ ok written
  pub invalidating : Store
  pub invalidated : invalidate_analysis_source p.segment_id written ≡ ok invalidating
  pub covering : Store
  pub covered :
      insert_coverage (recognised session p seq) (set_result p.segment_id seq invalidating)
      ≡ ok covering
  pub saved : save_history session seq (refresh_integrity session covering) ≡ ok b

pub final_work_cases :
    (session : Uuid) (p : TranscriptFinal) (seq : ℕ) (a b : Store)
    → final_work session p seq a ≡ ok b
    → Recognised session p seq a b
unfolding final_work
final_work_cases session p seq a b h =
    let r = recognised session p seq in
    let (context, found, h1) = >>=-inversion (capture_context session p.segment_id a) _ h in
    let (directed, h2) = >>-inversion (validate_final_direction session p a) _ h1 in
    let (matching, h3) =
      >>-inversion
        (ensure
          (context.track_id == p.track_id && is_yes (AudioRange-discrete context.audio p.audio))
          scope_mismatch)
        _ h2 in
    let (st1, superseded, h4) =
      >>=-inversion (supersede session p seq a context.current_revision) _ h3 in
    let (st2, inserted, h5) = >>=-inversion (insert_revision r st1) _ h4 in
    let (st3, invalidated, h6) = >>=-inversion (invalidate_analysis_source p.segment_id st2) _ h5 in
    let (st4, covered, h7) =
      >>=-inversion (insert_coverage r (set_result p.segment_id seq st3)) _ h6 in
    record {
      context = context;
      found = found;
      directed = directed;
      matching = ground arith;
      superseding = st1;
      superseded = superseded;
      written = st2;
      inserted = inserted;
      invalidating = st3;
      invalidated = invalidated;
      covering = st4;
      covered = covered;
      saved = h7;
    }

pub final_work-Settled :
    (session : Uuid) (p : TranscriptFinal) (seq : ℕ) (a b : Store)
    → final_work session p seq a ≡ ok b
    → Settled session seq a b
final_work-Settled session p seq a b h =
    let w = final_work_cases session p seq a b h in
    let result : Quiet w.invalidating (set_result p.segment_id seq w.invalidating) = record {
      log = refl;
      queue = refl;
      counter = refl;
      sessions = refl;
      seals = refl;
      recovered = refl;
      segments = refl;
      texts = refl;
    } in
    record {
      before = w.covering;
      aside = Aside-trans (Quiet-Aside (supersede-Quiet session p seq a _ _ w.superseded)) (
          Aside-trans (insert_revision-Aside _ _ _ w.inserted) (
            Quiet-Aside (
              Quiet-trans (invalidate_analysis_source-Quiet _ _ _ w.invalidated)
                (Quiet-trans result (insert_coverage-Quiet _ _ _ w.covered)))));
      saved = w.saved;
    }

pub record Revised (session : Uuid) (p : TranscriptRevision) (seq : ℕ) (a b : Store) : Type 0 where
  pub context : SourceContext
  pub found : capture_context session p.segment_id a ≡ ok context
  pub expected : is_current p.expected_revision context.current_revision ≡ true
  pub base : TranscriptRecord
  pub loaded : load_revision session p.segment_id p.expected_revision a ≡ ok base
  pub next : Revision
  pub counted : validated (revision_next p.expected_revision) ≡ ok next
  pub written : Store
  pub inserted : insert_revision (corrected p next seq base) a ≡ ok written
  pub invalidating : Store
  pub invalidated :
      invalidate_analysis_source (corrected p next seq base).payload.segment_id written
      ≡ ok invalidating
  pub releasing : Store
  pub released :
      invalidate_source_translations session p.segment_id p.expected_revision seq
        (stale_coverage p.segment_id p.expected_revision invalidating)
      ≡ ok releasing
  pub covering : Store
  pub covered : insert_coverage (corrected p next seq base) releasing ≡ ok covering
  pub saved : save_history session seq (refresh_integrity session covering) ≡ ok b

pub revision_work_cases :
    (session : Uuid) (p : TranscriptRevision) (seq : ℕ) (a b : Store)
    → revision_work session p seq a ≡ ok b
    → Revised session p seq a b
unfolding revision_work
revision_work_cases session p seq a b h =
    let (context, found, h1) = >>=-inversion (capture_context session p.segment_id a) _ h in
    let (expected, h2) =
      >>-inversion
        (ensure (is_current p.expected_revision context.current_revision)
          (revision_conflict p.expected_revision context.current_revision))
        _ h1 in
    let (base, loaded, h3) =
      >>=-inversion (load_revision session p.segment_id p.expected_revision a) _ h2 in
    let (next, counted, h4) = >>=-inversion (validated (revision_next p.expected_revision)) _ h3 in
    let r = corrected p next seq base in
    let (st1, inserted, h5) = >>=-inversion (insert_revision r a) _ h4 in
    let (st2, invalidated, h6) =
      >>=-inversion (invalidate_analysis_source r.payload.segment_id st1) _ h5 in
    let (st3, released, h7) =
      >>=-inversion
        (invalidate_source_translations session p.segment_id p.expected_revision seq
          (stale_coverage p.segment_id p.expected_revision st2))
        _ h6 in
    let (st4, covered, h8) = >>=-inversion (insert_coverage r st3) _ h7 in
    record {
      context = context;
      found = found;
      expected = ground arith;
      base = base;
      loaded = loaded;
      next = next;
      counted = counted;
      written = st1;
      inserted = inserted;
      invalidating = st2;
      invalidated = invalidated;
      releasing = st3;
      released = released;
      covering = st4;
      covered = covered;
      saved = h8;
    }

pub revision_work-Settled :
    (session : Uuid) (p : TranscriptRevision) (seq : ℕ) (a b : Store)
    → revision_work session p seq a ≡ ok b
    → Settled session seq a b
revision_work-Settled session p seq a b h =
    let w = revision_work_cases session p seq a b h in
    let stale : Quiet w.invalidating
        (stale_coverage p.segment_id p.expected_revision w.invalidating) =
      record {
        log = refl;
        queue = refl;
        counter = refl;
        sessions = refl;
        seals = refl;
        recovered = refl;
        segments = refl;
        texts = refl;
      } in
    record {
      before = w.covering;
      aside = Aside-trans (insert_revision-Aside _ _ _ w.inserted) (
          Quiet-Aside (
            Quiet-trans (invalidate_analysis_source-Quiet _ _ _ w.invalidated) (
              Quiet-trans stale (
                Quiet-trans (invalidate_source_translations-Quiet _ _ _ _ _ _ w.released)
                  (insert_coverage-Quiet _ _ _ w.covered)))));
      saved = w.saved;
    }
