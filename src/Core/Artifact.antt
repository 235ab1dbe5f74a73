-- ===== src/Core/Artifact.antt =====
-- How a change of a source reaches the artifacts that rest on it, desktop/crates/forum-core/src/
-- analysis.rs: `load_artifact`, `save_artifact`, `tombstone` and the three functions that
-- invalidate. The list of the loop is a stack with its last element first.
pub mod Marks
pub mod Closure
pub mod Total
use forum_agent.Shared.{
  ℕ, suc, zero, ◌+◌, Bool, true, false, ◌&&◌, not, Option, none, some, List, [], ◌∷◌, ◌++◌, map, ok,
  err, if◌then◌else◌, any, find, keep, length, ◌==◌, ◌>>=◌,
}
use forum_agent.Text.{Text, codes}
use forum_agent.Contracts.{Uuid}
use forum_agent.Core.{Stored, not_found, rounds_spent}
use forum_agent.Core.Tables.{Store, insert_new, update_where, greatest, is_yes}
use forum_agent.Core.Tables.Artifacts.{
  ArtifactValidation, ArtifactValidation-discrete, ArtifactPublication, ArtifactRecord,
  DependencyKind, DependencyRow, ProjectionRow,
}

abbrev pub found_artifact : Option ArtifactRecord → Stored ArtifactRecord
found_artifact none = err (not_found "artifact")
found_artifact (some a) = ok a

unfoldable pub load_artifact : Uuid → Store → Stored ArtifactRecord
load_artifact id st = found_artifact (find (λ a. a.artifact_id == id) st.analysis_artifacts)

-- `INSERT … ON CONFLICT DO UPDATE`.
abbrev pub upsert {ℓ} : {A : Type ℓ} → (A → Bool) → A → List A → List A
upsert test row rows = if any test rows then update_where test (λ r. row) rows else row ∷ rows

unfoldable pub save_artifact : ArtifactRecord → Store → Store
save_artifact a st = record st {
  analysis_artifacts = upsert (λ b. b.artifact_id == a.artifact_id) a st.analysis_artifacts;
  artifact_revisions =
      upsert (λ b. b.artifact_id == a.artifact_id && b.revision == a.revision) a
        st.artifact_revisions;
  analysis_changes = a ∷ st.analysis_changes;
}

-- The key of `publication_changes` is the next number: rows are never deleted.
abbrev withdraw_row : Uuid → Option ProjectionRow → Store → Store
withdraw_row id none st = st
withdraw_row id (some r) st =
    if r.active
    then record st {
      publication_changes =
          record {
            publication_seq = greatest (λ c. c.publication_seq) st.publication_changes + 1;
            artifact_id = id;
            public_id = r.public_id;
            withdrawn = true;
          }
          ∷ st.publication_changes;
      publication_projection =
          update_where (λ q. q.artifact_id == id) (λ q. record q { active = false })
            st.publication_projection;
    }
    else st

unfoldable pub tombstone : Uuid → Store → Store
tombstone id st = withdraw_row id (find (λ q. q.artifact_id == id) st.publication_projection) st

unfoldable pub is_stale : ArtifactRecord → Bool
is_stale a = is_yes (ArtifactValidation-discrete a.validation ArtifactValidation.stale)

abbrev pub withdrawn_if_public : ArtifactPublication → ArtifactPublication
withdrawn_if_public ArtifactPublication.published = ArtifactPublication.withdrawn
withdrawn_if_public p = p

abbrev pub made_stale : ArtifactRecord → ArtifactRecord
made_stale a = record a {
  validation = ArtifactValidation.stale;
  reason = some (codes "source_or_published_dependency_changed");
  publication = withdrawn_if_public a.publication;
}

unfoldable pub mark_stale : Uuid → Store → Stored Store
unfolding load_artifact save_artifact tombstone is_stale
mark_stale id st = do
  a ← load_artifact id st
  if is_stale a then ok st else ok (save_artifact (made_stale a) (tombstone id st))

abbrev pub rests_on_artifact : Uuid → DependencyRow → Bool
rests_on_artifact id d = elim d.dependency_kind [
  | DependencyKind.artifact ↦ d.dependency_id == id
  | DependencyKind.source ↦ false
]

abbrev pub rests_on_source : Uuid → DependencyRow → Bool
rests_on_source id d = elim d.dependency_kind [
  | DependencyKind.artifact ↦ false
  | DependencyKind.source ↦ d.dependency_id == id
]

abbrev pub dependents : Uuid → List DependencyRow → List Uuid
dependents id rows = map (λ d. d.artifact_id) (keep (rests_on_artifact id) rows)

-- `pending.push` of each in turn.
abbrev pub push_all : List Uuid → List Uuid → List Uuid
push_all [] pending = pending
push_all (id ∷ ids) pending = push_all ids (id ∷ pending)

-- The state that the loop ends in.
pub record Visit : Type 0 where
  pub seen : List Uuid
  pub store : Store

-- The loop, with fuel: it ends by its test with nothing pending. Work that is left when the fuel is
-- gone is `rounds_spent`, which the code has no counterpart of.
unfoldable pub invalidate_loop : ℕ → List Uuid → List Uuid → Store → Stored Visit
unfolding mark_stale
invalidate_loop zero [] seen st = ok (record { seen = seen; store = st })
invalidate_loop zero (id ∷ pending) seen st = err rounds_spent
invalidate_loop (suc fuel) [] seen st = ok (record { seen = seen; store = st })
invalidate_loop (suc fuel) (id ∷ pending) seen st = elim (any (λ s. s == id) seen) [
  | true ↦ invalidate_loop fuel pending seen st
  | false ↦ (do
    st1 ← mark_stale id st
    invalidate_loop fuel (push_all (dependents id st1.artifact_dependencies) pending) (id ∷ seen)
        st1)
]

-- Each round takes one from the stack, and each dependency is pushed at most once.
abbrev pub rounds_of : List Uuid → Store → ℕ
rounds_of initial st = length initial + length st.artifact_dependencies

unfoldable pub invalidate_artifacts : List Uuid → Store → Stored Store
unfolding invalidate_loop
invalidate_artifacts initial st = do
  v ← invalidate_loop (rounds_of initial st) (push_all initial []) [] st
  ok v.store

unfoldable pub invalidate_analysis_source : Uuid → Store → Stored Store
unfolding invalidate_artifacts
invalidate_analysis_source segment st =
    invalidate_artifacts
      (map (λ d. d.artifact_id) (keep (rests_on_source segment) st.artifact_dependencies)) st

unfoldable pub invalidate_dependents : Uuid → Store → Stored Store
unfolding invalidate_artifacts
invalidate_dependents id st = invalidate_artifacts (dependents id st.artifact_dependencies) st
