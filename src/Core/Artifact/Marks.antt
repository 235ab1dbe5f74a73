-- ===== src/Core/Artifact/Marks.antt =====
-- What marking one artifact does, and the counts and memberships of the loop that marks them.
use forum_agent.Shared.{
  ℕ, ◌+◌, ◌≤◌, ◌≡◌, refl, Bool, true, false, ◌&&◌, ◌||◌, not, Option, none, some, List, [], ◌∷◌, ok,
  any, find, length, ◌==◌, ◌∙◌, ap, arith, subst, inl, inr, Bool-cases, Option-cases, find-any,
  find-true, >>=-inversion, if◌then◌else◌, ==_refl,
}
use forum_agent.Contracts.{Uuid}
use forum_agent.Core.Tables.{Store, update_where}
use forum_agent.Core.Tables.Artifacts.{ArtifactRecord, DependencyRow, ArtifactValidation-discrete}
use forum_agent.Core.Tables.Rows.{find-update_where, changed_if}
use forum_agent.Core.Artifact.{
  load_artifact, save_artifact, tombstone, is_stale, made_stale, mark_stale, rests_on_artifact,
  dependents, push_all, found_artifact,
}

abbrev pub mem : Uuid → List Uuid → Bool
mem id ids = any (λ s. s == id) ids

abbrev pub artifact_of : Uuid → Store → Option ArtifactRecord
artifact_of id st = find (λ a. a.artifact_id == id) st.analysis_artifacts

abbrev pub stale_in : Option ArtifactRecord → Bool
stale_in none = false
stale_in (some a) = is_stale a

-- The artifact is there and stale.
abbrev pub stale_at : Uuid → Store → Bool
stale_at id st = stale_in (artifact_of id st)

-- The artifact `id` rests on the artifact `s`.
abbrev pub rests_on : Uuid → Uuid → List DependencyRow → Bool
rests_on s id rows = any (λ d. rests_on_artifact s d && d.artifact_id == id) rows

pub mem-push_all :
    (id : Uuid) (xs ys : List Uuid) → mem id (push_all xs ys) ≡ (mem id xs || mem id ys)
mem-push_all id [] ys = refl
mem-push_all id (x ∷ xs) ys = ground (arith, mem-push_all id xs (x ∷ ys))

pub length-push_all : (xs ys : List Uuid) → length (push_all xs ys) ≡ length xs + length ys
length-push_all [] ys = omega arith
length-push_all (x ∷ xs) ys = omega (arith, length-push_all xs (x ∷ ys))

pub mem-dependents :
    (s id : Uuid) (rows : List DependencyRow) → mem id (dependents s rows) ≡ rests_on s id rows
mem-dependents s id [] = refl
mem-dependents s id (d ∷ rows) = ground (arith, mem-dependents s id rows)

-- The dependencies on artifacts that were not visited.
abbrev pub unseen : List Uuid → List DependencyRow → ℕ
unseen seen [] = 0
unseen seen (d ∷ rows) =
    (if rests_on_artifact d.dependency_id d && not (mem d.dependency_id seen) then 1 else 0)
    + unseen seen rows

pub unseen-visit :
    (id : Uuid) (seen : List Uuid) (rows : List DependencyRow)
    → mem id seen ≡ false
    → unseen (id ∷ seen) rows + length (dependents id rows) ≡ unseen seen rows
unseen-visit id seen [] h = omega arith
unseen-visit id seen (d ∷ rows) h =
    let rest = unseen-visit id seen rows h in
    elim (Bool-cases (id == d.dependency_id)) [
      | inl here ↦
          let same : id ≡ d.dependency_id = ground arith in
          let fresh = ap (λ k. mem k seen) same in ground arith
      | inr other ↦ ground arith
    ]

tombstone_rows :
    (id : Uuid) (a : Store)
    → ((tombstone id a).analysis_artifacts ≡ a.analysis_artifacts)
      × ((tombstone id a).artifact_dependencies ≡ a.artifact_dependencies)
unfolding tombstone
tombstone_rows id a = ground arith

pub found_artifact_there :
    (o : Option ArtifactRecord) (a : ArtifactRecord) → found_artifact o ≡ ok a → o ≡ some a
found_artifact_there none a h = absurd (cc h)
found_artifact_there (some x) a h = ground arith

-- What marking an artifact does: it is stale, the others are as they were.
pub record Marked (id : Uuid) (a b : Store) : Type 0 where
  pub rows : b.artifact_dependencies ≡ a.artifact_dependencies
  pub stale : stale_at id b ≡ true
  pub other : (k : Uuid) → (id == k) ≡ false → artifact_of k b ≡ artifact_of k a

saved_artifacts :
    (x : ArtifactRecord) (a : Store) (k : Uuid)
    → any (λ b. b.artifact_id == x.artifact_id) a.analysis_artifacts ≡ true
    → artifact_of k (save_artifact x a)
      ≡ find
          (λ b. b.artifact_id == k)
          (update_where (λ b. b.artifact_id == x.artifact_id) (λ b. x) a.analysis_artifacts)
unfolding save_artifact
saved_artifacts x a k h = ground arith

saved_deps :
    (x : ArtifactRecord) (a : Store)
    → (save_artifact x a).artifact_dependencies ≡ a.artifact_dependencies
unfolding save_artifact
saved_deps x a = refl

made_stale-is_stale : (x : ArtifactRecord) → is_stale (made_stale x) ≡ true
unfolding is_stale ArtifactValidation-discrete
made_stale-is_stale x = refl

not_changed :
    (id k : Uuid) (a : Store) (x y : ArtifactRecord)
    → x.artifact_id ≡ id
    → (id == k) ≡ false
    → changed_if (λ b. b.artifact_id == x.artifact_id) (λ b. y) (artifact_of k a) ≡ artifact_of k a
not_changed id k a x y key miss = elim (Option-cases (artifact_of k a)) [
  | inl e ↦ rw e
  | inr (z, e) ↦
      let hit = find-true (λ b. b.artifact_id == k) a.analysis_artifacts z e in
      let other : (z.artifact_id == x.artifact_id) ≡ false = ground arith in rw (e, other)
]

fresh-Marked :
    (id : Uuid) (a : Store) (x : ArtifactRecord)
    → artifact_of id a ≡ some x
    → Marked id a (save_artifact (made_stale x) (tombstone id a))
fresh-Marked id a x there =
    let y = made_stale x in
    let t = tombstone id a in
    let (artifacts, deps) = tombstone_rows id a in
    let hit = find-true (λ b. b.artifact_id == id) a.analysis_artifacts x there in
    let key : x.artifact_id ≡ id = ground arith in
    let known : any (λ b. b.artifact_id == x.artifact_id) t.analysis_artifacts ≡ true =
      rw (artifacts, key) (find-any (λ b. b.artifact_id == id) a.analysis_artifacts x there) in
    let searched : (k : Uuid)
        → artifact_of k (save_artifact y t)
          ≡ find (λ b. b.artifact_id == k)
              (update_where (λ b. b.artifact_id == x.artifact_id) (λ b. y) a.analysis_artifacts) =
      λ k.
        saved_artifacts y t k known
        ∙ ap
            (λ rows.
              find (λ b. b.artifact_id == k)
                (update_where (λ b. b.artifact_id == x.artifact_id) (λ b. y) rows))
            artifacts in
    let found : (k : Uuid)
        → artifact_of k (save_artifact y t)
          ≡ changed_if (λ b. b.artifact_id == x.artifact_id) (λ b. y) (artifact_of k a) =
      λ k.
        searched k
        ∙ find-update_where (λ b. b.artifact_id == k) (λ b. b.artifact_id == x.artifact_id) (λ b. y)
            (λ b same. ground arith) a.analysis_artifacts in
    let now : artifact_of id (save_artifact y t) ≡ some y =
      found id
      ∙ ap (changed_if (λ b. b.artifact_id == x.artifact_id) (λ b. y)) there
      ∙ rw (==_refl x.artifact_id) in
    record {
      rows = saved_deps y t ∙ deps;
      stale = ap stale_in now ∙ made_stale-is_stale x;
      other = λ k miss. found k ∙ not_changed id k a x y key miss;
    }

pub mark_stale-Marked : (id : Uuid) (a b : Store) → mark_stale id a ≡ ok b → Marked id a b
unfolding mark_stale load_artifact
mark_stale-Marked id a b h =
    let (x, loaded, h1) = >>=-inversion (load_artifact id a) _ h in
    let there = found_artifact_there (artifact_of id a) x loaded in
    elim (Bool-cases (is_stale x)) [
      | inl old ↦
          let same : a ≡ b = ground arith in
          subst (Marked id a) same
            (record { rows = refl; stale = ap stale_in there ∙ old; other = λ k miss. refl })
      | inr new ↦
          let same : save_artifact (made_stale x) (tombstone id a) ≡ b = ground arith in
          subst (Marked id a) same (fresh-Marked id a x there)
    ]

pub unseen_bound : (seen : List Uuid) (rows : List DependencyRow) → unseen seen rows ≤ length rows
unseen_bound seen [] = omega arith
unseen_bound seen (d ∷ rows) = ground (arith, unseen_bound seen rows)
