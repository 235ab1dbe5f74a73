-- ===== src/Core/Aside/Texts.antt =====
-- The operations on texts and artifacts leave the rest of the store alone.
use forum_agent.Shared.{
  ℕ, zero, suc, ◌≡◌, List, [], ◌∷◌, ok, any, ◌==◌, arith, Bool-cases, inl, inr, >>=-inversion,
  subst,
}
use forum_agent.Contracts.{Uuid}
use forum_agent.Core.Tables.{TranscriptRecord, Store}
use forum_agent.Core.Aside.{Aside, Quiet, Quiet-refl, Quiet-trans, update_where-as_captured}
use forum_agent.Core.Revision.{insert_revision, insert_coverage}
use forum_agent.Core.Artifact.{
  mark_stale, load_artifact, save_artifact, tombstone, Visit, invalidate_loop, invalidate_artifacts,
  invalidate_analysis_source, rounds_of, push_all, is_stale, made_stale,
}
use forum_agent.Core.Tables.Artifacts.{ArtifactRecord}

pub insert_revision-Aside :
    (r : TranscriptRecord) (a b : Store) → insert_revision r a ≡ ok b → Aside a b
unfolding insert_revision
insert_revision-Aside r a b h =
    ground (arith, update_where-as_captured r.payload.segment_id r.payload.revision a.segments)

pub insert_coverage-Quiet :
    (r : TranscriptRecord) (a b : Store) → insert_coverage r a ≡ ok b → Quiet a b
unfolding insert_coverage
insert_coverage-Quiet r a b h = ground arith

tombstone-Quiet : (id : Uuid) (a : Store) → Quiet a (tombstone id a)
unfolding tombstone
tombstone-Quiet id a = ground arith

save_artifact-Quiet : (r : ArtifactRecord) (a : Store) → Quiet a (save_artifact r a)
unfolding save_artifact
save_artifact-Quiet r a = ground arith

mark_stale-Quiet : (id : Uuid) (a b : Store) → mark_stale id a ≡ ok b → Quiet a b
unfolding mark_stale
mark_stale-Quiet id a b h =
    let (r, found, h1) = >>=-inversion (load_artifact id a) _ h in
    let t = tombstone-Quiet id a in
    let both = Quiet-trans t (save_artifact-Quiet (made_stale r) (tombstone id a)) in
    elim (Bool-cases (is_stale r)) [
      | inl old ↦ let same : a ≡ b = ground arith in subst (Quiet a) same (Quiet-refl a)
      | inr fresh ↦
          let same : save_artifact (made_stale r) (tombstone id a) ≡ b = ground arith in
          subst (Quiet a) same both
    ]

invalidate_loop-Quiet :
    (fuel : ℕ) (pending seen : List Uuid) (st : Store) (v : Visit)
    → invalidate_loop fuel pending seen st ≡ ok v
    → Quiet st v.store
unfolding invalidate_loop
invalidate_loop-Quiet zero (id ∷ pending) seen st v h = absurd (cc h)
invalidate_loop-Quiet zero [] seen st v h =
    let same : st ≡ v.store = cc h in subst (Quiet st) same (Quiet-refl st)
invalidate_loop-Quiet (suc fuel) [] seen st v h =
    let same : st ≡ v.store = cc h in subst (Quiet st) same (Quiet-refl st)
invalidate_loop-Quiet (suc fuel) (id ∷ pending) seen st v h =
    elim (Bool-cases (any (λ s. s == id) seen)) [
      | inl old ↦ invalidate_loop-Quiet fuel pending seen st v (rw (old, invalidate_loop) at h)
      | inr new ↦
          let (st1, marked, h1) =
            >>=-inversion (mark_stale id st) _ (rw (new, invalidate_loop) at h) in
          Quiet-trans (mark_stale-Quiet id st st1 marked)
            (invalidate_loop-Quiet fuel _ (id ∷ seen) st1 v h1)
    ]

pub invalidate_artifacts-Quiet :
    (initial : List Uuid) (a b : Store) → invalidate_artifacts initial a ≡ ok b → Quiet a b
unfolding invalidate_artifacts
invalidate_artifacts-Quiet initial a b h =
    let (v, looped, h1) =
      >>=-inversion (invalidate_loop (rounds_of initial a) (push_all initial []) [] a) _ h in
    let same : v.store ≡ b = cc h1 in
    subst (Quiet a) same (invalidate_loop-Quiet (rounds_of initial a) _ [] a v looped)

pub invalidate_analysis_source-Quiet :
    (segment : Uuid) (a b : Store) → invalidate_analysis_source segment a ≡ ok b → Quiet a b
unfolding invalidate_analysis_source
invalidate_analysis_source-Quiet segment a b h = invalidate_artifacts-Quiet _ a b h
