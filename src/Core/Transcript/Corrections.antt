-- ===== src/Core/Transcript/Corrections.antt =====
-- What a correction leaves: the corrected text as the current revision, the old one as it was, and
-- no request that has read the old one can be answered.
use forum_agent.Shared.{
  ℕ, ◌+◌, ◌≡◌, ◌≢◌, refl, true, false, none, some, ◌∷◌, ◌++◌, ok, find, any, ◌==◌, ◌∙◌, ap, sym,
  arith, find-true, subst,
}
use forum_agent.Contracts.{Uuid, Revision, revision_next}
use forum_agent.Contracts.Transcript.{TranscriptRevision, success}
use forum_agent.Contracts.Translation.{TranslationFinal}
use forum_agent.Core.{validated}
use forum_agent.Core.Tables.{human, SegmentRow, TranscriptRecord, Store}
use forum_agent.Core.Tables.Translations.{TranslationRecord}
use forum_agent.Core.Tables.Rows.{find-update_where, changed_if}
use forum_agent.Core.Session.{save_history}
use forum_agent.Core.Session.Frame.{save_history_sessions}
use forum_agent.Core.Seal.{refresh_integrity}
use forum_agent.Core.Aside.{Quiet, Quiet-trans}
use forum_agent.Core.Aside.Texts.{insert_coverage-Quiet, invalidate_analysis_source-Quiet}
use forum_agent.Core.Aside.Translations.{invalidate_source_translations-Quiet}
use forum_agent.Core.Revision.{is_revision, revision_of, segment_of, set_current, insert_revision}
use forum_agent.Core.Translation.{load_translation}
use forum_agent.Core.Translation.Works.{finish_work}
use forum_agent.Core.Translation.Sources.{
  capture_context_cases, load_revision_cases, reads_revision, outdated,
}
use forum_agent.Core.Transcript.{corrected, stale_coverage, revision_work}
use forum_agent.Core.Transcript.Frame.{Revised, revision_work_cases}

revision_next_value : (n next : Revision) → validated (revision_next n) ≡ ok next → next ≡ n + 1
unfolding revision_next
revision_next_value n next h = ground arith

insert_revision_rows :
    (r : TranscriptRecord) (a b : Store)
    → insert_revision r a ≡ ok b
    → (b.segment_revisions ≡ r ∷ a.segment_revisions)
      × (b.segments ≡ set_current r.payload.segment_id r.payload.revision a.segments)
      × (any (is_revision r.payload.segment_id r.payload.revision) a.segment_revisions ≡ false)
unfolding insert_revision
insert_revision_rows r a b h = (ground arith, ground arith, ground arith)

settled_rows :
    (session : Uuid) (seq : ℕ) (a b : Store)
    → save_history session seq (refresh_integrity session a) ≡ ok b
    → (b.segment_revisions ≡ a.segment_revisions) × (b.segments ≡ a.segments)
unfolding refresh_integrity
settled_rows session seq a b h =
    let (rows, shape) = save_history_sessions session seq _ b h in
    (ap (λ s. s.segment_revisions) shape, ap (λ s. s.segments) shape)

-- What the texts and the segments are after a correction.
Revised-rows :
    (session : Uuid) (p : TranscriptRevision) (seq : ℕ) (a b : Store)
    → (w : Revised session p seq a b)
    → (b.segment_revisions ≡ corrected p w.next seq w.base ∷ a.segment_revisions)
      × (b.segments ≡ set_current w.base.payload.segment_id w.next a.segments)
Revised-rows session p seq a b w =
    let stale : Quiet w.invalidating
        (stale_coverage p.segment_id p.expected_revision w.invalidating) =
      record {
        log = refl;
        queue = refl;
        counter = refl;
        sessions = refl;
        seals = refl;
        recovered = refl;
        segments = refl;
        texts = refl;
      } in
    let rest = Quiet-trans (invalidate_analysis_source-Quiet _ _ _ w.invalidated) (
      Quiet-trans stale (
        Quiet-trans (invalidate_source_translations-Quiet _ _ _ _ _ _ w.released)
          (insert_coverage-Quiet _ _ _ w.covered))) in
    let (texts, segments, fresh) =
      insert_revision_rows (corrected p w.next seq w.base) a w.written w.inserted in
    let (last, ends) = settled_rows session seq w.covering b w.saved in
    (last ∙ rest.texts ∙ texts, ends ∙ rest.segments ∙ segments)

-- A correction is recorded as the revision after the one that it expects: the record that was there
-- with the corrected text, as a success without a reason, under the operator's name and reason and
-- the number of its event. It becomes the current revision of the segment, and the record that it
-- replaces can still be read under its old number.
pub correction_recorded :
    (session : Uuid) (p : TranscriptRevision) (seq : ℕ) (a b : Store)
    → revision_work session p seq a ≡ ok b
    → (base : TranscriptRecord) × (s : SegmentRow) × (revision_of p.segment_id p.expected_revision a
        ≡ some base)
      × (segment_of p.segment_id a ≡ some s)
      × (s.current_revision ≡ some p.expected_revision)
      × (revision_of p.segment_id (p.expected_revision + 1) b
          ≡ some (record base {
            payload = record (base.payload) {
              revision = p.expected_revision + 1;
              text = p.text;
              status = success;
              reason = none;
            };
            origin = human p.operator_id p.reason p.expected_revision;
            created_seq = seq;
          }))
      × (segment_of p.segment_id b
          ≡ some (record s { current_revision = some (p.expected_revision + 1) }))
      × (revision_of p.segment_id p.expected_revision b ≡ some base)
correction_recorded session p seq a b h =
    let w = revision_work_cases session p seq a b h in
    let (texts, segments) = Revised-rows session p seq a b w in
    let c = capture_context_cases session p.segment_id a w.context w.found in
    let next = revision_next_value p.expected_revision w.next w.counted in
    let base = load_revision_cases session p.segment_id p.expected_revision a w.base w.loaded in
    let hit =
      find-true (is_revision p.segment_id p.expected_revision) a.segment_revisions w.base base in
    let key : w.base.payload.segment_id ≡ p.segment_id = ground arith in
    let r = corrected p w.next seq w.base in
    let same = find-true (λ s. s.id == p.segment_id) a.segments c.segment c.there in
    let written : revision_of p.segment_id (p.expected_revision + 1) b ≡ some r =
      ap (find (is_revision p.segment_id (p.expected_revision + 1))) texts ∙ ground arith in
    let kept : revision_of p.segment_id p.expected_revision b ≡ some w.base =
      ap (find (is_revision p.segment_id p.expected_revision)) texts ∙ ground arith in
    let change : SegmentRow → SegmentRow = λ s. record s { current_revision = some w.next } in
    let moved : segment_of p.segment_id b ≡ some (change c.segment) =
      ap (find (λ s. s.id == p.segment_id)) segments
      ∙ find-update_where (λ s. s.id == p.segment_id) (λ s. s.id == w.base.payload.segment_id)
          change (λ s hit. refl) a.segments
      ∙ ap (changed_if (λ s. s.id == w.base.payload.segment_id) change) c.there
      ∙ ground arith in
    (
      w.base,
      c.segment,
      base,
      c.there,
      ground arith,
      subst
          (λ n.
            revision_of p.segment_id (p.expected_revision + 1) b ≡ some (corrected p n seq w.base))
          next written,
      subst
          (λ n. segment_of p.segment_id b ≡ some (record (c.segment) { current_revision = some n }))
          next moved,
      kept,
    )

-- In the store that a correction leaves, no result is taken for a request that has read the text
-- that was corrected, to translate it or as context, whatever the result says.
pub correction_fences :
    (session : Uuid) (p : TranscriptRevision) (seq : ℕ) (a b : Store)
    → revision_work session p seq a ≡ ok b
    → (q : TranslationFinal) (r : TranslationRecord)
    → load_translation session q.translation_id b ≡ ok r
    → any
        (reads_revision p.segment_id p.expected_revision)
        (r.request.source_spans ++ r.request.context_spans)
      ≡ true
    → (m : ℕ) (out : Store) → finish_work session q m b ≢ ok out
correction_fences session p seq a b h q r loaded read m out =
    let (base, s, old, there, current, new, moved, kept) =
      correction_recorded session p seq a b h in
    outdated session p.segment_id p.expected_revision q m b out r loaded read (λ x found now.
      let shape : x ≡ record s { current_revision = some (p.expected_revision + 1) } =
        cc (found, moved) in
      let number : some (p.expected_revision + 1) ≡ some p.expected_revision =
        sym (ap (λ y. y.current_revision) shape) ∙ now in
      ground arith)
