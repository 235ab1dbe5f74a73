-- ===== src/Core/Artifact/Total.antt =====
-- An invalidation succeeds wherever the artifacts that the dependencies name are there: its rounds
-- are enough for its loop, which takes each artifact once and pushes each dependency at
-- most once.
use forum_agent.Shared.{
  ℕ, zero, suc, ◌+◌, ◌≤◌, length, ◌≡◌, refl, Bool, true, Option, none, some, List, [], ◌∷◌, ok, map,
  keep, ◌==◌, ◌∙◌, ap, sym, arith, subst, inl, inr, Bool-cases, Option-cases, is_some,
}
use forum_agent.Contracts.{Uuid}
use forum_agent.Core.Tables.{Store}
use forum_agent.Core.Tables.Artifacts.{ArtifactRecord, DependencyRow}
use forum_agent.Core.Artifact.{
  load_artifact, is_stale, made_stale, save_artifact, tombstone, mark_stale, rests_on_artifact,
  rests_on_source, dependents, push_all, Visit, invalidate_loop, rounds_of, invalidate_artifacts,
  invalidate_analysis_source,
}
use forum_agent.Core.Artifact.Marks.{
  mem, artifact_of, stale_in, mem-push_all, length-push_all, unseen, unseen-visit, unseen_bound,
  Marked, mark_stale-Marked,
}

abbrev pub is_there : Uuid → Store → Bool
is_there id st = is_some (artifact_of id st)

-- The foreign key of `artifact_dependencies`.
abbrev pub AreThere : List DependencyRow → Store → Type 0
AreThere rows st =
    (id : Uuid) → mem id (map (λ d. d.artifact_id) rows) ≡ true → is_there id st ≡ true

stale_in-some : (o : Option ArtifactRecord) → stale_in o ≡ true → is_some o ≡ true
stale_in-some none h = h
stale_in-some (some a) h = refl

Marked-is_there :
    (id k : Uuid) (a b : Store) → Marked id a b → is_there k a ≡ true → is_there k b ≡ true
Marked-is_there id k a b m h = elim (Bool-cases (id == k)) [
  | inl here ↦
      let same : id ≡ k = ground arith in
      subst (λ j. is_there j b ≡ true) same (stale_in-some (artifact_of id b) m.stale)
  | inr miss ↦ ap is_some (m.other k miss) ∙ h
]

mark_stale_total :
    (id : Uuid) (a : Store) → is_there id a ≡ true → (b : Store) × (mark_stale id a ≡ ok b)
unfolding mark_stale load_artifact
mark_stale_total id a h = elim (Option-cases (artifact_of id a)) [
  | inl e ↦ absurd (let no_artifact = ap is_some e in ground arith)
  | inr (x, e) ↦ elim (Bool-cases (is_stale x)) [
    | inl old ↦ (a, ground arith)
    | inr new ↦ (save_artifact (made_stale x) (tombstone id a), ground arith)
  ]
]

mem_kept :
    (id : Uuid) (p : DependencyRow → Bool) (rows : List DependencyRow)
    → mem id (map (λ d. d.artifact_id) (keep p rows)) ≡ true
    → mem id (map (λ d. d.artifact_id) rows) ≡ true
mem_kept id p [] h = h
mem_kept id p (d ∷ rows) h = elim (Bool-cases (p d)) [
  | inl kept ↦ elim (Bool-cases (d.artifact_id == id)) [
    | inl here ↦ ground arith
    | inr other ↦ let later = mem_kept id p rows (ground arith) in ground arith
  ]
  | inr left ↦ let later = mem_kept id p rows (ground arith) in ground arith
]

invalidate_loop_total :
    (fuel : ℕ) (pending seen : List Uuid) (st : Store)
    → AreThere st.artifact_dependencies st
    → ((id : Uuid) → mem id pending ≡ true → is_there id st ≡ true)
    → length pending + unseen seen st.artifact_dependencies ≤ fuel
    → (v : Visit) × (invalidate_loop fuel pending seen st ≡ ok v)
unfolding invalidate_loop
invalidate_loop_total zero (id ∷ pending) seen st rows h enough = absurd (omega arith)
invalidate_loop_total zero [] seen st rows h enough = (record { seen = seen; store = st }, refl)
invalidate_loop_total (suc fuel) [] seen st rows h enough =
    (record { seen = seen; store = st }, refl)
invalidate_loop_total (suc fuel) (id ∷ pending) seen st rows h enough =
    elim (Bool-cases (mem id seen)) [
      | inl old ↦
          let (v, looped) =
            invalidate_loop_total fuel pending seen st rows (λ k e. h k (ground arith))
              (omega arith) in
          (v, rw (old, invalidate_loop) looped)
      | inr new ↦
          let (st1, marked) = mark_stale_total id st (h id (ground arith)) in
          let m = mark_stale-Marked id st st1 marked in
          let rows1 : AreThere st1.artifact_dependencies st1 = λ k e.
            Marked-is_there id k st st1 m
              (rows k (subst (λ d. mem k (map (λ x. x.artifact_id) d) ≡ true) m.rows e)) in
          let below : (k : Uuid)
              → mem k (push_all (dependents id st1.artifact_dependencies) pending) ≡ true
              → is_there k st1 ≡ true =
            λ k e. elim (Bool-cases (mem k (dependents id st1.artifact_dependencies))) [
              | inl rests ↦
                  rows1 k (mem_kept k (rests_on_artifact id) st1.artifact_dependencies rests)
              | inr other ↦
                  let waits =
                    sym (mem-push_all k (dependents id st1.artifact_dependencies) pending) ∙ e in
                  Marked-is_there id k st st1 m (h k (ground arith))
            ] in
          let less : length (push_all (dependents id st1.artifact_dependencies) pending)
                + unseen (id ∷ seen) st1.artifact_dependencies
              ≤ fuel =
            subst (λ d. length (push_all (dependents id d) pending) + unseen (id ∷ seen) d ≤ fuel)
              (sym m.rows)
              (omega (
                arith,
                length-push_all (dependents id st.artifact_dependencies) pending,
                unseen-visit id seen st.artifact_dependencies new,
              )) in
          let (v, looped) =
            invalidate_loop_total fuel (push_all (dependents id st1.artifact_dependencies) pending)
              (id ∷ seen) st1 rows1 below less in
          (v, rw (new, invalidate_loop, marked) looped)
    ]

-- The invalidation of a segment's artifacts ends with a result, whatever the dependencies are, a
-- cycle of them included, when the artifacts that they name are there: the loop is through with all
-- its work within its rounds, one for each initial artifact and each dependency, and is not cut off.
pub invalidation_total :
    (segment : Uuid) (a : Store)
    → AreThere a.artifact_dependencies a
    → (b : Store) × (invalidate_analysis_source segment a ≡ ok b)
unfolding invalidate_analysis_source invalidate_artifacts
invalidation_total segment a rows =
    let initial =
      map (λ d. d.artifact_id) (keep (rests_on_source segment) a.artifact_dependencies) in
    let stacked : (k : Uuid) → mem k (push_all initial []) ≡ true → is_there k a ≡ true = λ k e.
      rows k (
        mem_kept k (rests_on_source segment) a.artifact_dependencies
          (let there = sym (mem-push_all k initial []) ∙ e in ground arith)) in
    let enough : length (push_all initial []) + unseen [] a.artifact_dependencies
        ≤ rounds_of initial a =
      omega (arith, length-push_all initial [], unseen_bound [] a.artifact_dependencies) in
    let (v, looped) =
      invalidate_loop_total (rounds_of initial a) (push_all initial []) [] a rows stacked enough in
    (v.store, rw looped)
